-- ===== src/Locks/Release.antt =====
-- Releases of src/mcp_socket_server/locks.py against the claims of `Claims`.
use mathlib.Core.Option.{some-injective}
use mcp_socket_server.Prelude.{
  ℕ, ◌≡◌, refl, sym, ap, Bool, false, not, Option, none, some, List, [], ◌∷◌, ◌==◌, keep_if,
  list_eq, string_eq, Dict, lookup, erase, keys, NodupKeys, erase-NodupKeys, subst, arith,
}
use mcp_socket_server.Commands.{LockClass, unlocked, capture, lock_class_eq}
use mcp_socket_server.Locks.{
  Key, TargetLock, capture_key, release_capture, release_exclusive, release_target_lock,
}
use mcp_socket_server.Locks.Claims.{
  Claim, exclusive, capturing, captured, claims, requested, IsValid,
}

abbrev pub same_claim : Claim → Claim → Bool
same_claim (exclusive c) (exclusive d) = c == d
same_claim (capturing k) (capturing j) = k == j
same_claim _ _ = false

abbrev pub without : Claim → List Claim → List Claim
without a = keep_if λ b. not (same_claim a b)

without-captured_absent :
    (k : Key) (d : Dict Key ℕ)
    → lookup k d ≡ none
    → without (capturing k) (captured (keys d)) ≡ captured (keys d)
unfolding lookup keys
without-captured_absent k [] h = refl
without-captured_absent k ((j, n) ∷ d) h = ground (arith, without-captured_absent k d)

captured-erase :
    (k : Key) (d : Dict Key ℕ)
    → NodupKeys d
    → captured (keys (erase k d)) ≡ without (capturing k) (captured (keys d))
unfolding erase keys
captured-erase k [] u = refl
captured-erase k ((j, n) ∷ d) u =
    ground (arith, captured-erase k d u.1, without-captured_absent k d)

without-captured_exclusive :
    (c : LockClass) (ks : List Key) → without (exclusive c) (captured ks) ≡ captured ks
without-captured_exclusive c [] = refl
without-captured_exclusive c (k ∷ ks) = ap (◌∷◌ (capturing k)) (without-captured_exclusive c ks)

-- A release drops the claim, if it is held, and keeps the others in their order.
abbrev pub Releases : TargetLock → Claim → TargetLock → Type 0
Releases tl c tl' = (claims tl' ≡ without c (claims tl)) × IsValid tl'

abbrev state : Dict Key ℕ → Option LockClass → ℕ → TargetLock
state d h n = record { captures = d; exclusive_holder = h; exclusive_count = n }

release_capture-Releases :
    (key : Option Key) (d : Dict Key ℕ) (h : Option LockClass) (n : ℕ)
    → IsValid (state d h n)
    → Releases (state d h n) (capturing (capture_key key)) (release_capture key (state d h n))
unfolding release_capture
release_capture-Releases key d none n v = (
  captured-erase (capture_key key) d v.distinct,
  record { distinct = erase-NodupKeys (capture_key key) d v.distinct; holder = v.holder },
)
release_capture-Releases key [] (some c) n v = unfold erase keys in (refl, v)
release_capture-Releases key (_ ∷ d) (some c) n v = absurd (unfold keys in (ground arith))

release_exclusive-Releases :
    (c : LockClass) (d : Dict Key ℕ) (h : Option LockClass) (n : ℕ)
    → IsValid (state d h n)
    → Releases (state d h n) (exclusive c) (release_exclusive c (state d h n))
unfolding release_exclusive
release_exclusive-Releases c d none n v = (sym (without-captured_exclusive c (keys d)), v)
release_exclusive-Releases c d (some a) n v =
    (ground (arith, without-captured_exclusive c (keys d)), ground (arith, v.distinct))

-- On a valid lock, a release drops the claim, if it is held, and keeps the other claims in their order;
-- the lock stays valid.
pub release_target_lock-Releases :
    (c : LockClass) (key : Option Key) (tl : TargetLock) {released : Claim}
    → IsValid tl
    → requested c key ≡ some released
    → Releases tl released (release_target_lock c key tl)
unfolding release_target_lock
release_target_lock-Releases unlocked key tl v r = cc
release_target_lock-Releases capture key tl v r =
    subst (λ a. Releases tl a (release_capture key tl)) (some-injective _ _ r)
      (release_capture-Releases key tl.captures tl.exclusive_holder tl.exclusive_count v)
release_target_lock-Releases c key tl v r =
    subst (λ a. Releases tl a (release_exclusive c tl)) (some-injective _ _ r)
      (release_exclusive-Releases c tl.captures tl.exclusive_holder tl.exclusive_count v)
