-- ===== src/Locks/Claims.antt =====
-- What a `TargetLock` promises (src/mcp_socket_server/locks.py): a set of claims of which no two are
-- in conflict. The methods are shown to implement it.
use mathlib.Core.Option.{some-injective}
use mcp_socket_server.Prelude.{
  ◌||◌, ℕ, ◌+◌, ◌≡◌, refl, sym, ap, ◌∙◌, ◌⊎◌, inl, inr, Bool, true, false, ◌||◌, Option, none, some,
  List, [], ◌∷◌, ◌++◌, ◌==◌, contains, any, is_nonempty, Result, ok, err, list_eq, string_eq, Dict,
  has_key-contains, has_key-false, subst, insert, keys, has_key, NodupKeys, insert-NodupKeys,
  keys-insert_fresh, arith, Bool-cases,
}
use mcp_socket_server.Commands.{LockClass, unlocked, capture, lock_class_eq}
use mcp_socket_server.Locks.{
  has_active_lock, is_some, Key, LockConflict, lock_conflict, TargetLock, capture_key,
  acquire_capture, acquire_exclusive, acquire_target, one_key, all_keys,
}

-- What an operation may hold on a target.
pub data Claim : Type 0 where
  exclusive : LockClass → Claim
  capturing : Key → Claim

-- Two captures are in conflict if they share the path; anything else is in conflict with all.
abbrev pub in_conflict : Claim → Claim → Bool
in_conflict (capturing k) (capturing j) = k == j
in_conflict _ _ = true

abbrev pub captured : List Key → List Claim
captured [] = []
captured (k ∷ ks) = capturing k ∷ captured ks

abbrev pub claims_of : Option LockClass → List Key → List Claim
claims_of none ks = captured ks
claims_of (some c) ks = exclusive c ∷ captured ks

-- The claims that a state of the code stands for.
abbrev pub claims : TargetLock → List Claim
claims tl = claims_of tl.exclusive_holder (keys tl.captures)

-- The claim that `acquire(lock_class, key)` asks for; NONE asks for none.
abbrev pub requested : LockClass → Option Key → Option Claim
requested unlocked key = none
requested capture key = some (capturing (capture_key key))
requested c key = some (exclusive c)

abbrev pub IsExclusive : LockClass → Type 0
IsExclusive unlocked = ⊥
IsExclusive capture = ⊥
IsExclusive _ = Unit

abbrev pub HolderValid : Option LockClass → ℕ → List Key → Type 0
HolderValid none n ks = n ≡ 0
HolderValid (some c) n ks = IsExclusive c × (n ≡ 1) × (ks ≡ [])

pub record IsValid (tl : TargetLock) : Type 0 where
  pub distinct : NodupKeys tl.captures
  pub holder : HolderValid tl.exclusive_holder tl.exclusive_count (keys tl.captures)

any-captured :
    (k : Key) (ks : List Key) → any (in_conflict (capturing k)) (captured ks) ≡ contains ks k
any-captured k [] = refl
any-captured k (j ∷ ks) = ap (λ b. k == j || b) (any-captured k ks)

any-captured_exclusive :
    (c : LockClass) (ks : List Key) → any (in_conflict (exclusive c)) (captured ks) ≡ is_nonempty ks
any-captured_exclusive c [] = refl
any-captured_exclusive c (j ∷ ks) = refl

captured-append :
    (ks : List Key) (k : Key) → captured (ks ++ k ∷ []) ≡ captured ks ++ capturing k ∷ []
captured-append [] k = refl
captured-append (j ∷ ks) k = ap (◌∷◌ (capturing j)) (captured-append ks k)

-- The class that a claim belongs to.
abbrev pub claim_class : Claim → LockClass
claim_class (exclusive c) = c
claim_class (capturing _) = capture

-- What `acquire` may answer to a request for the claim `c`: it is granted exactly if no claim that is
-- held is in conflict with it, and is then held last; otherwise LockConflict names the class.
abbrev pub Answers : TargetLock → Claim → Result LockConflict TargetLock → Type 0
Answers tl c r =
    ((any (in_conflict c) (claims tl) ≡ true)
      × ((e : LockConflict) × (r ≡ err e) × (e.lock_class ≡ claim_class c)))
    ⊎ ((any (in_conflict c) (claims tl) ≡ false)
        × ((tl' : TargetLock) × (r ≡ ok tl') × (claims tl' ≡ claims tl ++ c ∷ []) × IsValid tl'))

module _ (key : Option Key) (tl : TargetLock) (v : IsValid tl) where
  abbrev asked : Key
  asked = capture_key key

  abbrev capture_conflict : LockConflict
  capture_conflict = lock_conflict "?" capture (some (one_key asked))

  acquire_capture-Answers :
      (h : Option LockClass)
      → tl.exclusive_holder ≡ h
      → Answers tl (capturing asked) (acquire_capture key tl)
  unfolding acquire_capture
  acquire_capture-Answers (some c) e =
      inl (ground arith, (capture_conflict, ground arith, ground arith))
  acquire_capture-Answers none e = elim (Bool-cases (has_key asked tl.captures)) [
    | inl held ↦ inl (
      rw e
          (any-captured asked (keys tl.captures) ∙ sym (has_key-contains asked tl.captures) ∙ held),
      (capture_conflict, ground arith, ground arith),
    )
    | inr fresh ↦ inr (
      rw e (
          any-captured asked (keys tl.captures) ∙ sym (has_key-contains asked tl.captures) ∙ fresh),
      (
        record tl { captures = insert asked 1 tl.captures },
        ground arith,
        rw (e, keys-insert_fresh asked 1 tl.captures (has_key-false asked tl.captures fresh))
            (captured-append (keys tl.captures) asked),
        record {
          distinct = insert-NodupKeys asked 1 tl.captures v.distinct;
          holder =
              subst (λ h. HolderValid h tl.exclusive_count (keys (insert asked 1 tl.captures)))
                (sym e)
                (subst (λ h. HolderValid h tl.exclusive_count (keys tl.captures)) e v.holder);
        },
      ),
    )
  ]

module _ (c : LockClass) (tl : TargetLock) (v : IsValid tl) (valid : IsExclusive c) where
  acquire_exclusive-Answers :
      (h : Option LockClass) (d : Dict Key ℕ)
      → tl.exclusive_holder ≡ h
      → tl.captures ≡ d
      → Answers tl (exclusive c) (acquire_exclusive c tl)
  unfolding acquire_exclusive keys lock_conflict
  acquire_exclusive-Answers (some a) d e f =
      inl (ground arith, (lock_conflict "?" c none, ground arith, ground arith))
  acquire_exclusive-Answers none [] e f = inr (
    ground arith,
    (
      record tl { exclusive_holder = some c; exclusive_count = tl.exclusive_count + 1 },
      ground arith,
      ground arith,
      record { distinct = v.distinct; holder = (valid, ground arith, ground arith) },
    ),
  )
  acquire_exclusive-Answers none (_ ∷ _) e f = inl (
    ground arith,
    (lock_conflict "?" c (some (all_keys (keys tl.captures))), ground arith, ground arith),
  )

-- On a valid lock, a request for a claim is refused if some claim that is held is in conflict with it, and
-- LockConflict then names the class; otherwise it is granted and held last, and the lock stays valid.
pub acquire_target-Answers :
    (c : LockClass) (key : Option Key) (tl : TargetLock) {asked : Claim}
    → IsValid tl
    → requested c key ≡ some asked
    → Answers tl asked (acquire_target c key tl)
unfolding acquire_target
acquire_target-Answers unlocked key tl v r = cc
acquire_target-Answers capture key tl v r =
    subst (λ a. Answers tl a (acquire_capture key tl)) (some-injective _ _ r)
      (acquire_capture-Answers key tl v tl.exclusive_holder refl)
acquire_target-Answers c key tl v r =
    subst (λ a. Answers tl a (acquire_exclusive c tl)) (some-injective _ _ r)
      (acquire_exclusive-Answers c tl v tt tl.exclusive_holder tl.captures refl refl)

-- Claims of which no two are in conflict.
abbrev pub Compatible : List Claim → Type 0
Compatible [] = Unit
Compatible (c ∷ cs) = (any (in_conflict c) cs ≡ false) × Compatible cs

captured-Compatible : (d : Dict Key ℕ) → NodupKeys d → Compatible (captured (keys d))
unfolding keys has_key
captured-Compatible [] u = tt
captured-Compatible ((k, n) ∷ d) (fresh, u) =
    (any-captured k (keys d) ∙ sym (has_key-contains k d) ∙ ground arith, captured-Compatible d u)

claims_of-Compatible :
    (h : Option LockClass) (n : ℕ) (d : Dict Key ℕ)
    → NodupKeys d
    → HolderValid h n (keys d)
    → Compatible (claims_of h (keys d))
claims_of-Compatible none n d u v = captured-Compatible d u
claims_of-Compatible (some c) n d u v = (rw v.2 refl, captured-Compatible d u)

pub claims-Compatible : (tl : TargetLock) → IsValid tl → Compatible (claims tl)
claims-Compatible tl v =
    claims_of-Compatible tl.exclusive_holder tl.exclusive_count tl.captures v.distinct v.holder

pub has_active_lock-claims : (tl : TargetLock) → has_active_lock tl ≡ is_nonempty (claims tl)
unfolding has_active_lock keys
has_active_lock-claims tl = go tl.captures tl.exclusive_holder
  where
    go :
        (d : Dict Key ℕ) (h : Option LockClass)
        → (is_nonempty d || is_some h) ≡ is_nonempty (claims_of h (keys d))
    go [] none = refl
    go [] (some c) = refl
    go (_ ∷ d) none = refl
    go (_ ∷ d) (some c) = refl
