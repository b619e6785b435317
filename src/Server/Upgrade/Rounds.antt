-- ===== src/Server/Upgrade/Rounds.antt =====
-- The rounds of the polling of `upgrade_run` (src/mcp_socket_server/server.py).
use mathlib.Core.List.{append_assoc}
use mcp_socket_server.Prelude.{
  or_false, or_hit, or_miss, split_hit, split_miss, or_assoc, String, ◌≡◌, refl, sym, ap, ◌∙◌, Bool,
  true, false, ◌&&◌, ◌||◌, not, List, [], ◌∷◌, ◌++◌, ◌==◌, ==_iff, ==_refl, string_eq, nat_eq,
  if◌then◌else◌, contains, keep_if, any, All, All-append, arith, Bool-cases, inl, inr,
}
use mcp_socket_server.Server.Upgrade.{
  Item, same_item, remove_item, Round, is_version, visit_items, poll,
}

same_item-eq : (i j : Item) → same_item i j ≡ true → i ≡ j
same_item-eq i j h =
    let t : i.target ≡ j.target = (==_iff i.target j.target).0 (ground arith) in
    let a : i.host ≡ j.host = (==_iff i.host j.host).0 (ground arith) in
    let p : i.port ≡ j.port = (==_iff i.port j.port).0 (ground arith) in
    λ k. record { target = t k; host = a k; port = p k }

same_item_refl : (i : Item) → same_item i i ≡ true
same_item_refl i = ground (arith, ==_refl i.target, ==_refl i.host, ==_refl i.port)

module _ (ver : String) where
  abbrev seen : Round → Item → Bool
  seen answer i = is_version ver (answer i)

  unseen_differs :
      (answer : Round) (i : Item) (kept : List Item)
      → seen answer i ≡ true
      → All (λ j. seen answer j ≡ false) kept
      → All (λ j. same_item j i ≡ false) kept
  unseen_differs answer i [] s u = tt
  unseen_differs answer i (j ∷ kept) s (n, u) = (
    elim (Bool-cases (same_item j i)) [
      | inl same ↦ absurd (let e = ap (seen answer) (same_item-eq j i same) in cc)
      | inr differs ↦ differs
    ],
    unseen_differs answer i kept s u,
  )

  remove_item_after :
      (i : Item) (kept rest : List Item)
      → All (λ j. same_item j i ≡ false) kept
      → remove_item i (kept ++ i ∷ rest) ≡ kept ++ rest
  unfolding remove_item
  remove_item_after i [] rest h = rw (same_item_refl i) refl
  remove_item_after i (j ∷ kept) rest (n, h) = rw n (ap (◌∷◌ j) (remove_item_after i kept rest h))

  -- The targets that a round confirms, in front of those before.
  abbrev confirms : Round → List Item → List String → List String
  confirms answer [] confirmed = confirmed
  confirms answer (i ∷ items) confirmed =
      if seen answer i
      then confirms answer items (i.target ∷ confirmed)
      else confirms answer items confirmed

  visit_items_together :
      (answer : Round) (items kept : List Item) (confirmed : List String)
      → All (λ j. seen answer j ≡ false) kept
      → visit_items ver answer items (kept ++ items) confirmed
        ≡ (kept ++ keep_if (λ i. not (seen answer i)) items, confirms answer items confirmed)
  unfolding visit_items
  visit_items_together answer [] kept confirmed u = refl
  visit_items_together answer (i ∷ items) kept confirmed u = elim (Bool-cases (seen answer i)) [
    | inl hit ↦
        rw (hit, visit_items)
          (rw (remove_item_after i kept items (unseen_differs answer i kept hit u))
            (visit_items_together answer items kept (i.target ∷ confirmed) u))
    | inr miss ↦
        rw (miss, visit_items)
          (ap (λ l. visit_items ver answer items l confirmed)
              (sym (append_assoc kept (i ∷ []) items))
            ∙ visit_items_together answer items (kept ++ i ∷ []) confirmed
                (All-append (λ j. seen answer j ≡ false) kept (i ∷ []) u (miss, tt))
            ∙ ap (λ l. (l, confirms answer items confirmed)) (append_assoc kept (i ∷ []) _))
  ]

  contains-confirms :
      (answer : Round) (items : List Item) (confirmed : List String) (t : String)
      → contains (confirms answer items confirmed) t
        ≡ (contains confirmed t || any (λ i. t == i.target && seen answer i) items)
  contains-confirms answer [] confirmed t = or_false (contains confirmed t)
  contains-confirms answer (i ∷ items) confirmed t = elim (Bool-cases (seen answer i)) [
    | inl hit ↦ rw hit (
        contains-confirms answer items (i.target ∷ confirmed) t
        ∙ or_hit (t == i.target) (contains confirmed t) _)
    | inr miss ↦ rw miss (
        contains-confirms answer items confirmed t
        ∙ or_miss (t == i.target) (contains confirmed t) _)
  ]

  -- Whether some round finds the version at the item.
  abbrev pub found : List Round → Item → Bool
  found rounds i = any (λ answer. seen answer i) rounds

  any_split :
      (answer : Round) (rounds : List Round) (items : List Item) (t : String)
      → (any (λ i. t == i.target && seen answer i) items
          || any (λ i. t == i.target && found rounds i) (keep_if (λ i. not (seen answer i)) items))
        ≡ any (λ i. t == i.target && found (answer ∷ rounds) i) items
  any_split answer rounds [] t = refl
  any_split answer rounds (i ∷ items) t = elim (Bool-cases (seen answer i)) [
    | inl hit ↦
        rw hit (split_hit (t == i.target) (found rounds i) _ _ _ (any_split answer rounds items t))
    | inr miss ↦
        rw miss
          (split_miss (t == i.target) (found rounds i) _ _ _ (any_split answer rounds items t))
  ]

  any_none : (t : String) (items : List Item) → any (λ i. t == i.target && found [] i) items ≡ false
  any_none t [] = refl
  any_none t (i ∷ items) = ground (arith, any_none t items)

  pub contains-poll :
      (rounds : List Round) (items : List Item) (confirmed : List String) (t : String)
      → contains (poll ver rounds items confirmed) t
        ≡ (contains confirmed t || any (λ i. t == i.target && found rounds i) items)
  unfolding poll
  contains-poll [] items confirmed t = rw (any_none t items) (or_false (contains confirmed t))
  contains-poll (answer ∷ rounds) [] confirmed t = or_false (contains confirmed t)
  contains-poll (answer ∷ rounds) (i ∷ items) confirmed t =
      rw (visit_items_together answer (i ∷ items) [] confirmed tt) (
        rw
          (contains-poll rounds (keep_if (λ j. not (seen answer j)) (i ∷ items))
            (confirms answer (i ∷ items) confirmed) t)
          (rw (contains-confirms answer (i ∷ items) confirmed t)
            (or_assoc (contains confirmed t) _ _ _ (any_split answer rounds (i ∷ items) t))))
