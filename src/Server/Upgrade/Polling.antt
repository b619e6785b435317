-- ===== src/Server/Upgrade/Polling.antt =====
-- Whom the polling of `upgrade_run` (src/mcp_socket_server/server.py) confirms.
use mcp_socket_server.Prelude.{
  absorb, only_if, repeat, ℕ, ◌+◌, String, ◌≡◌, refl, sym, ap, ◌∙◌, Bool, ◌&&◌, ◌||◌, not, List, [],
  ◌∷◌, ◌==◌, ==_iff, string_eq, nat_eq, contains, keep_if, map, any, length, length-append,
  length-map, length-partition, arith, Bool-cases, inl, inr,
}
use mcp_socket_server.Server.{Failure}
use mcp_socket_server.Server.Upgrade.{
  Round, poll, Pushed, poll_item, unconfirmed, summary, finish_upgrade,
}
use mcp_socket_server.Server.Upgrade.Rounds.{found, contains-poll}

module _ (ver : String) where
  poll_item-target : (port : ℕ) (t : String) → (poll_item port t).target ≡ t
  unfolding poll_item
  poll_item-target port t = ground arith

  any-poll_item :
      (rounds : List Round) (port : ℕ) (pushed : List Pushed) (t : String)
      → any
          (λ i. t == i.target && found ver rounds i)
          (map (λ (r : Pushed). poll_item port r.target) pushed)
        ≡ (contains (map (λ (r : Pushed). r.target) pushed) t
            && found ver rounds (poll_item port t))
  unfolding poll_item
  any-poll_item rounds port [] t = refl
  any-poll_item rounds port (r ∷ pushed) t = elim (Bool-cases (t == r.target)) [
    | inl same ↦
        let e = (==_iff t r.target).0 same in
        rw (poll_item-target port r.target) (
          rw same (
            ap
              (λ f.
                f
                || any (λ i. t == i.target && found ver rounds i)
                    (map (λ (r : Pushed). poll_item port r.target) pushed))
              (ap (λ u. found ver rounds (poll_item port u)) (sym e))
            ∙ ap (◌||◌ (found ver rounds (poll_item port t))) (any-poll_item rounds port pushed t)
            ∙ absorb (found ver rounds (poll_item port t)) _))
    | inr other ↦
        rw (poll_item-target port r.target) (rw other (any-poll_item rounds port pushed t))
  ]

  contains-keep_if :
      (p : String → Bool) (pushed : List Pushed) (t : String)
      → contains (map (λ (r : Pushed). r.target) (keep_if (λ (r : Pushed). p r.target) pushed)) t
        ≡ (contains (map (λ (r : Pushed). r.target) pushed) t && p t)
  contains-keep_if p [] t = refl
  contains-keep_if p (r ∷ pushed) t = elim (Bool-cases (p r.target)) [
    | inl kept ↦ elim (Bool-cases (t == r.target)) [
      | inl same ↦ rw kept (rw same (sym kept ∙ ap p (sym ((==_iff t r.target).0 same))))
      | inr other ↦ rw kept (rw other (contains-keep_if p pushed t))
    ]
    | inr gone ↦ elim (Bool-cases (t == r.target)) [
      | inl same ↦
          let no = ap p ((==_iff t r.target).0 same) ∙ gone in
          rw gone (rw same (contains-keep_if p pushed t ∙ only_if _ (p t) no ∙ sym no))
      | inr other ↦ rw gone (rw other (contains-keep_if p pushed t))
    ]
  ]

-- In the summary of `upgrade_run` every target that was pushed to, and every failure before, is counted
-- once; and a target is upgraded exactly if it was pushed to and some round before the deadline finds the
-- new version at the host and port at which it is polled.
pub finish_upgrade_all :
    (port : ℕ) (ver : String) (rounds : List Round) (pushed : List Pushed) (failed : List Failure)
    → let r = finish_upgrade port ver rounds pushed failed in
      (length (r.0) + length (r.1) ≡ length pushed + length failed)
      × ((t : String)
          → contains (map (λ (p : Pushed). p.target) r.0) t ≡ (
              contains (map (λ (p : Pushed). p.target) pushed) t
              && found ver rounds (poll_item port t)))
unfolding finish_upgrade summary
finish_upgrade_all port ver rounds pushed failed =
    let items = map (λ (r : Pushed). poll_item port r.target) pushed in
    let confirmed = poll ver rounds items [] in
    (
      omega (
        arith,
        length-append failed
            (map unconfirmed (keep_if (λ (r : Pushed). not (contains confirmed r.target)) pushed)),
        length-map unconfirmed (keep_if (λ (r : Pushed). not (contains confirmed r.target)) pushed),
        length-partition (λ (r : Pushed). contains confirmed r.target) pushed,
      ),
      λ t.
          contains-keep_if ver (contains confirmed) pushed t
          ∙ ap (◌&&◌ (contains (map (λ (r : Pushed). r.target) pushed) t))
              (contains-poll ver rounds items [] t ∙ any-poll_item ver rounds port pushed t)
          ∙ repeat (contains (map (λ (r : Pushed). r.target) pushed) t)
              (found ver rounds (poll_item port t)),
    )
