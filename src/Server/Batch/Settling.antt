-- ===== src/Server/Batch/Settling.antt =====
-- The lock of one run of `_run_batch` (src/mcp_socket_server/server.py), from `acquire` to `release`.
use mcp_socket_server.Prelude.{
  and_false, ℕ, String, ◌≡◌, refl, ap, ◌∙◌, inl, inr, Bool, true, false, ◌&&◌, some, List, [], ◌∷◌,
  ◌++◌, any, if◌then◌else◌, arith, Bool-cases, Result, ok, err, ==_refl, list_eq, string_eq,
}
use mcp_socket_server.Errors.{Exn}
use mcp_socket_server.Commands.{LockClass, unlocked, lock_class_eq}
use mcp_socket_server.Locks.{Key}
use mcp_socket_server.Locks.Claims.{Claim, exclusive, capturing, in_conflict, requested}
use mcp_socket_server.Locks.Release.{same_claim, without}
use mcp_socket_server.Locks.Manager
use mcp_socket_server.Locks.Manager.{LockManager}
use mcp_socket_server.Pool.{Client, TargetPool}
use mcp_socket_server.Pool.Scheduler.{Visit, acquire, is_ok, get_pool}
use mcp_socket_server.Server.{Bridge}
use mcp_socket_server.Server.Batch.{
  lock, unlock, judge, is_unlocked, is_capture, give_back, serve, run_locked,
}

same_claim_refl : (a : Claim) → same_claim a a ≡ true
same_claim_refl (exclusive c) = ==_refl c
same_claim_refl (capturing k) = ==_refl k

same_claim-in_conflict : (a b : Claim) → in_conflict a b ≡ false → same_claim a b ≡ false
same_claim-in_conflict (exclusive c) b h = cc
same_claim-in_conflict (capturing k) (exclusive c) h = refl
same_claim-in_conflict (capturing k) (capturing j) h = h

-- Dropping a claim that has just been granted leaves what was held before.
pub without-granted :
    (a : Claim) (cs : List Claim) → any (in_conflict a) cs ≡ false → without a (cs ++ a ∷ []) ≡ cs
without-granted a [] h = ground (arith, same_claim_refl a)
without-granted a (b ∷ cs) h = elim (Bool-cases (in_conflict a b)) [
  | inl hit ↦ absurd (ground arith)
  | inr free ↦
      rw (same_claim-in_conflict a b free) (ap (◌∷◌ b) (without-granted a cs (ground arith)))
]

locks_not :
    (c : LockClass) (key : Key) (a : Claim)
    → requested c (some key) ≡ some a
    → is_unlocked c ≡ false
locks_not unlocked key a h = cc
locks_not c key a h = refl

pub lock-acquire :
    (host : String) (c : LockClass) (key : Key) (a : Claim) (m : LockManager) (b : Bridge)
    → b.lock_manager ≡ some m
    → requested c (some key) ≡ some a
    → lock host c key b ≡ (
      record b { lock_manager = some (Manager.acquire host c (some key) m).0 },
      (Manager.acquire host c (some key) m).1,
    )
unfolding lock
lock-acquire host c key a m b e h = let n = locks_not c key a h in ground arith

unlock-release :
    (host : String) (c : LockClass) (key : Key) (a : Claim) (m : LockManager) (b : Bridge)
    → b.lock_manager ≡ some m
    → requested c (some key) ≡ some a
    → (unlock host c key b).lock_manager ≡ some (Manager.release host c (some key) m)
unfolding unlock
unlock-release host c key a m b e h = let n = locks_not c key a h in ground arith

-- The manager after a run whose lock was granted: the lock stays only if a capture has begun.
abbrev pub settled : String → LockClass → Key → Bool → LockManager → LockManager
settled host c key success m =
    if is_capture c && success then m else Manager.release host c (some key) m

give_back-settled :
    (host : String) (port : ℕ) (c : LockClass) (key : Key) (a : Claim) (healthy success : Bool)
    (now : ℕ) (client : Client) (p : TargetPool) (m : LockManager) (b : Bridge)
    → b.lock_manager ≡ some m
    → requested c (some key) ≡ some a
    → (give_back host port c key healthy success now client p b).lock_manager
      ≡ some (settled host c key success m)
unfolding give_back
give_back-settled host port c key a healthy success now client p m b e h =
    elim (Bool-cases (is_capture c)) [
      | inl captures ↦ elim (Bool-cases success) [
        | inl good ↦ simp (captures, good, e)
        | inr bad ↦ rw (captures, give_back) (rw bad (unlock-release host c key a m _ e h))
      ]
      | inr other ↦ rw (other, give_back) (unlock-release host c key a m _ e h)
    ]

serve-settled :
    (host : String) (port : ℕ) (c : LockClass) (key : Key) (a : Claim) (v : Visit) (p : TargetPool)
    (r : Result Exn Client) (m : LockManager) (b : Bridge)
    → b.lock_manager ≡ some m
    → requested c (some key) ≡ some a
    → (serve host port c key v b (p, r)).0.lock_manager
      ≡ some (settled host c key (serve host port c key v b (p, r)).1.ok m)
unfolding serve
serve-settled host port c key a v p (err x) m b e h =
    unlock-release host c key a m _ e h ∙ ap some (rw (and_false (is_capture c)) refl)
serve-settled host port c key a v p (ok client) m b e h =
    let (client', outcome) = v.fn client in
    give_back-settled host port c key a (is_ok outcome) (judge host outcome).ok v.finished client' p
      m b e h

pub run_locked-settled :
    (host : String) (port timeout : ℕ) (c : LockClass) (key : Key) (a : Claim) (v : Visit)
    (m : LockManager) (b : Bridge)
    → b.lock_manager ≡ some m
    → requested c (some key) ≡ some a
    → (run_locked host port timeout c key v (b, ok tt)).0.lock_manager
      ≡ some (settled host c key (run_locked host port timeout c key v (b, ok tt)).1.ok m)
unfolding run_locked
run_locked-settled host port timeout c key a v m b e h =
    let p : TargetPool = (get_pool host port b.scheduler).0 in
    let r = acquire timeout v p in
    serve-settled host port c key a v (r.0) (r.1) m
      (record b { scheduler = (get_pool host port b.scheduler).1 }) e h
