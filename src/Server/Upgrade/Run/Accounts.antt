-- ===== src/Server/Upgrade/Run/Accounts.antt =====
-- That `upgrade_run` (src/mcp_socket_server/server.py) says of every target what became of it.
use mcp_socket_server.Prelude.{
  All, ℕ, contains, and_both, suc, string_eq, ◌+◌, String, ◌≡◌, refl, ap, sym, ◌∙◌, Bool, true,
  List, [], ◌∷◌, length, map, length-map, is_nonempty, Result, ok, err, arith, Bool-cases, inl, inr,
}
use mcp_socket_server.Errors.{Exn}
use mcp_socket_server.Value.{Value, is_set}
use mcp_socket_server.Commands.{LockClass, system}
use mcp_socket_server.Locks.{Key, LockConflict}
use mcp_socket_server.Pool.{Client, TargetPool}
use mcp_socket_server.Pool.Scheduler.{Visit, acquire, get_pool, TargetResult, Reason, failed_with}
use mcp_socket_server.Upgrades.{Checker}
use mcp_socket_server.Upgrades.Files.{Sha256, World, Disk, Ensured, ensure_release_binary}
use mcp_socket_server.Server.{Bridge, report, wrap, resolve_targets}
use mcp_socket_server.Server.Batch.{judge, lock, serve, run_locked, run_one, run_all, run_batch}
use mcp_socket_server.Server.Batch.Reports.{run_batch-Accounts}
use mcp_socket_server.Server.Upgrade.{Round, Pushed, poll_item}
use mcp_socket_server.Server.Upgrade.Rounds.{found}
use mcp_socket_server.Server.Upgrade.Polling.{finish_upgrade_all}
use mcp_socket_server.Server.Upgrade.Sending
use mcp_socket_server.Server.Upgrade.Sending.{Refusal, Stop, raised, refused}
use mcp_socket_server.Server.Upgrade.Run.{
  Turn, Desk, Upgraded, Early, pushed_entries, visit_of, send_all, conclude, with_binary,
  with_version, choose_version, upgrade_run,
}

-- A result that counts as a success shows in the report as pushed to.
abbrev Shown : TargetResult → Type 0
Shown r = r.ok ≡ true → is_set "pushed" (wrap r) ≡ true

failed_with-Shown : (host : String) (x : Reason) (v : Value) → Shown (failed_with host x v)
failed_with-Shown host x v h = cc

-- A run whose function shows what it has pushed.
abbrev ShowsPush : String × Visit → Type 0
ShowsPush (host, v) = (c : Client) → Shown (judge host (v.fn c).1)

serve-Shown :
    (host : String) (port : ℕ) (c : LockClass) (key : Key) (v : Visit) (b : Bridge) (p : TargetPool)
    (r : Result Exn Client)
    → ShowsPush (host, v)
    → Shown (serve host port c key v b (p, r)).1
unfolding serve
serve-Shown host port c key v b p (err e) h = failed_with-Shown host _ _
serve-Shown host port c key v b p (ok client) h = h client

run_locked-Shown :
    (host : String) (port timeout : ℕ) (c : LockClass) (key : Key) (v : Visit) (b : Bridge)
    (locked : Result LockConflict (Unit {0}))
    → ShowsPush (host, v)
    → Shown (run_locked host port timeout c key v (b, locked)).1
unfolding run_locked
run_locked-Shown host port timeout c key v b (err e) h = failed_with-Shown host _ _
run_locked-Shown host port timeout c key v b (ok _) h =
    let r = acquire timeout v (get_pool host port b.scheduler).0 in
    serve-Shown host port c key v (record b { scheduler = (get_pool host port b.scheduler).1 })
      (r.0) (r.1) h

run_all-Shown :
    (port timeout : ℕ) (c : LockClass) (key : Key) (calls : List (String × Visit)) (b : Bridge)
    → All ShowsPush calls
    → All Shown (run_all port timeout c key calls b).1
unfolding run_all run_one
run_all-Shown port timeout c key [] b h = tt
run_all-Shown port timeout c key ((host, v) ∷ calls) b (first, rest) = (
  run_locked-Shown host port timeout c key v (lock host c key b).0 (lock host c key b).1 first,
  run_all-Shown port timeout c key calls (run_one port timeout c key host v b).0 rest,
)

report-pushed :
    (results : List TargetResult)
    → All Shown results
    → length (pushed_entries (report results).results) ≡ length (report results).results
unfolding report pushed_entries
report-pushed [] h = refl
report-pushed (r ∷ results) (first, rest) = elim (Bool-cases r.ok) [
  | inl good ↦ rw good (rw (first good) (ap suc (report-pushed results rest)))
  | inr bad ↦ rw bad (report-pushed results rest)
]

module _ (sha : Sha256) (str : Value → String) (message : Refusal → Value) (force : Bool) where
  conclude-Shown :
      (host : String) (c : Client) (r : Result Stop String)
      → Shown (judge host (Sending.conclude message c r).1)
  unfolding Sending.conclude judge string_eq wrap is_set
  conclude-Shown host c (err (raised e)) h = cc
  conclude-Shown host c (err (refused x)) h = cc
  conclude-Shown host c (ok cur) h = refl

  visits-ShowsPush :
      (binary ver sum : String) (turns : List (String × Turn))
      → All ShowsPush (map (visit_of sha str message force binary ver sum) turns)
  unfolding visit_of Sending.run_one
  visits-ShowsPush binary ver sum [] = tt
  visits-ShowsPush binary ver sum ((host, t) ∷ turns) =
      (λ c. conclude-Shown host c _, visits-ShowsPush binary ver sum turns)

  send_all-pushed :
      (port timeout : ℕ) (binary ver sum : String) (turns : List (String × Turn)) (b : Bridge)
      → let r = (send_all sha str message force port timeout binary ver sum turns b).1 in
        length (pushed_entries r.results) + length r.failed ≡ length turns
  unfolding send_all run_batch
  send_all-pushed port timeout binary ver sum turns b =
      let calls = map (visit_of sha str message force binary ver sum) turns in
      let results = (run_all port timeout system [] calls b).1 in
      let shown =
        report-pushed results
          (run_all-Shown port timeout system [] calls b (visits-ShowsPush binary ver sum turns)) in
      let counts = run_batch-Accounts port timeout system [] calls b in
      omega (
        arith,
        shown,
        counts.total,
        counts.listed,
        length-map (visit_of sha str message force binary ver sum) turns,
      )

  module _ (port : ℕ) (turns : List (String × Turn)) (rounds : List Round) (b : Bridge) where
    -- What `upgrade_run` has done: nothing on the bridge if it stops before its batch; else every run is
    -- counted once, and a target is upgraded only if a round has found the version there.
    pub record Complete (u : Upgraded) : Type 0 where
      pub counted : length u.results + length u.failed ≡ length turns
      pub seen :
          (t : String)
          → contains (map (λ (p : Pushed). p.target) u.results) t ≡ true
          → found u.version rounds (poll_item port t) ≡ true

    abbrev pub Accounted : Desk × Result Early Upgraded → Type 0
    Accounted (desk, err e) = desk.bridge ≡ b
    Accounted (desk, ok u) = Complete u

    conclude-Complete :
        (timeout : ℕ) (binary ver sum : String)
        → Complete (
            conclude sha str message force port ver rounds
              (send_all sha str message force port timeout binary ver sum turns b).1)
    unfolding conclude
    conclude-Complete timeout binary ver sum =
        let r = (send_all sha str message force port timeout binary ver sum turns b).1 in
        let (total, upgraded) =
          finish_upgrade_all port ver rounds (pushed_entries r.results) r.failed in
        record {
          counted = total ∙ send_all-pushed port timeout binary ver sum turns b;
          seen = λ t h. (and_both _ _ (sym (upgraded t) ∙ h)).1;
        }

    with_binary-Accounted :
        (timeout : ℕ) (ver : String) (c : Checker) (r : Disk × Ensured)
        → Accounted (with_binary sha str message force port timeout ver turns rounds c b r)
    unfolding with_binary
    with_binary-Accounted timeout ver c (d, err e) = refl
    with_binary-Accounted timeout ver c (d, ok (binary, sum)) =
        conclude-Complete timeout binary ver sum

  -- If `upgrade_run` stops before its batch, the locks, the registry and the pools are as they were;
  -- otherwise the targets upgraded and the failures are together as many as its runs, and a target is
  -- among the upgraded only if some round before the deadline has found the new version there.
  pub upgrade_run-Accounted :
      (port timeout : ℕ) (dir : String) (targets : List String) (version : String)
      (page : Result Exn String) (w : World) (turns : List (String × Turn)) (rounds : List Round)
      (desk : Desk)
      → Accounted port turns rounds desk.bridge (
          upgrade_run sha str message force port timeout dir targets version page w turns rounds
            desk)
  unfolding upgrade_run
  upgrade_run-Accounted port timeout dir targets version page w turns rounds desk =
      elim (Bool-cases (is_nonempty (resolve_targets targets desk.bridge))) [
        | inl some_target ↦ rw some_target (versioned (choose_version version page desk.checker))
        | inr none_left ↦ rw none_left refl
      ]
    where
      versioned :
          (r : Checker × Result Early String)
          → Accounted port turns rounds desk.bridge
              (with_version sha str message force port timeout dir w turns rounds desk r)
      versioned (c, err e) = refl
      versioned (c, ok ver) =
          with_binary-Accounted port turns rounds desk.bridge timeout ver c
            (ensure_release_binary sha w ver dir desk.disk)
