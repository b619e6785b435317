-- ===== src/Locks/Manager/Held.antt =====
-- `LockManager.acquire`, `release` and `has_active` (src/mcp_socket_server/locks.py) against the claims
-- that are held on each target.
use mcp_socket_server.Prelude.{
  String, ◌≡◌, ◌≢◌, refl, sym, ap, ◌∙◌, ◌⊎◌, inl, inr, true, false, Option, none, some, List, [],
  ◌∷◌, ◌++◌, any, is_nonempty, keys, ◌==◌, Result, ok, err, ok-injective, string_eq, lookup, insert,
  lookup-insert, if◌then◌else◌, arith, Option-cases, subst,
}
use mcp_socket_server.Commands.{LockClass, unlocked, capture}
use mcp_socket_server.Locks.{
  Key, LockConflict, TargetLock, new_target_lock, release_target_lock, rebuild_message,
}
use mcp_socket_server.Locks.Claims.{
  Claim, in_conflict, claims, claim_class, requested, IsValid, Answers, acquire_target-Answers,
  has_active_lock-claims,
}
use mcp_socket_server.Locks.Release.{without, release_target_lock-Releases}
use mcp_socket_server.Locks.Manager.{
  LockManager, get_target_lock, settle, acquire, release_in, release, has_active,
}

abbrev held_in : Option TargetLock → List Claim
held_in none = []
held_in (some tl) = claims tl

-- The claims held on a target.
abbrev pub held : String → LockManager → List Claim
held target m = held_in (lookup target m.locks)

pub record AllValid (m : LockManager) : Type 0 where
  pub at : (target : String) (tl : TargetLock) → lookup target m.locks ≡ some tl → IsValid tl

new_target_lock-IsValid : IsValid new_target_lock
new_target_lock-IsValid = record { distinct = tt; holder = refl }

claims-new_target_lock : claims new_target_lock ≡ []
unfolding keys
claims-new_target_lock = refl

insert-AllValid :
    (target : String) (tl : TargetLock) (m : LockManager)
    → AllValid m
    → IsValid tl
    → AllValid (record { locks = insert target tl m.locks })
insert-AllValid target tl m v w = record {
  at = λ j l e. ground (arith, lookup-insert j target tl m.locks, v.at j l);
}

held-insert :
    (j target : String) (tl : TargetLock) (m : LockManager)
    → held j (record { locks = insert target tl m.locks })
      ≡ (if j == target then claims tl else held j m)
held-insert j target tl m = ground (arith, lookup-insert j target tl m.locks)

-- The lock that `_get_target_lock` finds or makes holds what is held on the target, and registering
-- it changes nothing that is held.
pub record Got (target : String) (m : LockManager) (r : TargetLock × LockManager) : Type 0 where
  pub valid : IsValid r.0
  pub all_valid : AllValid r.1
  pub same : claims r.0 ≡ held target m
  pub kept : (j : String) → held j r.1 ≡ held j m

get_target_lock-Got :
    (target : String) (m : LockManager) → AllValid m → Got target m (get_target_lock target m)
unfolding get_target_lock
get_target_lock-Got target m v = elim (Option-cases (lookup target m.locks)) [
  | inl e ↦
      rw (e, get_target_lock)
        (record {
          valid = new_target_lock-IsValid;
          all_valid = insert-AllValid target new_target_lock m v new_target_lock-IsValid;
          same = claims-new_target_lock ∙ sym (ap held_in e);
          kept =
              λ j. ground (arith, held-insert j target new_target_lock m, claims-new_target_lock);
        })
  | inr (tl, e) ↦
      rw (e, get_target_lock)
        (record {
          valid = v.at target tl e;
          all_valid = v;
          same = sym (ap held_in e);
          kept = λ j. refl;
        })
]

-- What `acquire` on the manager may answer to a request for the claim `c`, in the state that it leaves.
pub record Grants (target : String) (c : Claim) (m m' : LockManager) : Type 0 where
  pub free : any (in_conflict c) (held target m) ≡ false
  pub added : held target m' ≡ held target m ++ c ∷ []

pub record Refuses (target : String) (c : Claim) (m m' : LockManager) (e : LockConflict)
    : Type 0 where
  pub taken : any (in_conflict c) (held target m) ≡ true
  pub unchanged : held target m' ≡ held target m
  pub named : e.target ≡ target
  pub class : e.lock_class ≡ claim_class c
  pub told : e ≡ rebuild_message e

abbrev pub Outcome :
    String → Claim → LockManager → LockManager × Result LockConflict (Unit {0}) → Type 0
Outcome target c m r =
    ((r.1 ≡ ok tt) × Grants target c m r.0)
    ⊎ ((e : LockConflict) × (r.1 ≡ err e) × Refuses target c m r.0 e)

-- What any method leaves alone: the other targets, and the validity of every lock.
pub record Keeps (target : String) (m m' : LockManager) : Type 0 where
  pub all_valid : AllValid m'
  pub others : (j : String) → j ≢ target → held j m' ≡ held j m

settle-Outcome :
    (target : String) (c : Claim) (m : LockManager) (r : TargetLock × LockManager)
    → Got target m r
    → (answer : Result LockConflict TargetLock) → Answers r.0 c answer
    → Outcome target c m (settle target r.1 answer) × Keeps target m (settle target r.1 answer).0
settle-Outcome target c m (tl, m') got (ok tl') (inl (taken, (e, q, named))) = cc
settle-Outcome target c m (tl, m') got (err e) (inl (taken, (e', q, named))) = (
  inr (
    rebuild_message (record e { target = target }),
    refl,
    unfold rebuild_message in
        (record {
          taken = subst (λ l. any (in_conflict c) l ≡ true) got.same taken;
          unchanged = got.kept target;
          named = refl;
          class = ground arith;
          told = refl;
        }),
  ),
  record { all_valid = got.all_valid; others = λ j _. got.kept j },
)
settle-Outcome target c m (tl, m') got (ok tl') (inr (free, (tl'', q, added, valid))) = (
  inl (
    refl,
    record {
      free = subst (λ l. any (in_conflict c) l ≡ false) got.same free;
      added = held-insert target target tl' m' ∙ ground (arith, got.same);
    },
  ),
  record {
    all_valid =
        insert-AllValid target tl' m' got.all_valid (subst IsValid (ok-injective (sym q)) valid);
    others = λ j ne. ground (arith, held-insert j target tl' m', got.kept j);
  },
)
settle-Outcome target c m (tl, m') got (err e) (inr (free, (tl'', q, added, valid))) = cc

-- Under a manager whose locks are valid, for a class other than NONE: if no claim that is held on
-- the target is in conflict, `acquire` grants and the claim is held last; otherwise it raises
-- LockConflict, with the target and the class filled in, and what is held there stays. Other
-- targets are as before, and the locks stay valid.
pub acquire-Outcome :
    (target : String) (c : LockClass) (key : Option Key) (m : LockManager) {asked : Claim}
    → AllValid m
    → requested c key ≡ some asked
    → Outcome target asked m (acquire target c key m) × Keeps target m (acquire target c key m).0
unfolding acquire
acquire-Outcome target unlocked key m v r = cc
acquire-Outcome target capture key m {asked = a} v r =
    let got = get_target_lock-Got target m v in
    settle-Outcome target a m (get_target_lock target m) got _
      (acquire_target-Answers capture key _ got.valid r)
acquire-Outcome target c key m {asked = a} v r =
    let got = get_target_lock-Got target m v in
    settle-Outcome target a m (get_target_lock target m) got _
      (acquire_target-Answers c key _ got.valid r)

release_in-Keeps :
    (target : String) (c : LockClass) (key : Option Key) (m : LockManager) {released : Claim}
    → AllValid m
    → requested c key ≡ some released
    → (o : Option TargetLock) → lookup target m.locks ≡ o
    → (held target (release_in target c key m o) ≡ without released (held target m))
      × Keeps target m (release_in target c key m o)
release_in-Keeps target c key m {released = a} v r none e = (
  ap held_in e ∙ sym (ap (λ o. without a (held_in o)) e),
  record { all_valid = v; others = λ j _. refl },
)
release_in-Keeps target c key m {released = a} v r (some tl) e =
    let (dropped, valid) = release_target_lock-Releases c key tl (v.at target tl e) r in
    (
      ground (arith, held-insert target target (release_target_lock c key tl) m),
      record {
        all_valid = insert-AllValid target (release_target_lock c key tl) m v valid;
        others = λ j ne. ground (arith, held-insert j target (release_target_lock c key tl) m);
      },
    )

-- Under a manager whose locks are valid, for a class other than NONE: `release` drops the claim
-- from the target, if it is held there, and leaves the other claims, there and on other targets, as
-- they were; the locks stay valid.
pub release-held :
    (target : String) (c : LockClass) (key : Option Key) (m : LockManager) {released : Claim}
    → AllValid m
    → requested c key ≡ some released
    → (held target (release target c key m) ≡ without released (held target m))
      × Keeps target m (release target c key m)
unfolding release
release-held target unlocked key m v r = cc
release-held target capture key m v r =
    release_in-Keeps target capture key m v r (lookup target m.locks) refl
release-held target c key m v r = release_in-Keeps target c key m v r (lookup target m.locks) refl

-- `has_active` answers true exactly if some claim is held on the target.
pub has_active-held :
    (target : String) (m : LockManager) → has_active target m ≡ is_nonempty (held target m)
unfolding has_active
has_active-held target m = elim (Option-cases (lookup target m.locks)) [
  | inl e ↦ rw (e, has_active)
  | inr (tl, e) ↦ rw (e, has_active) (has_active_lock-claims tl)
]
