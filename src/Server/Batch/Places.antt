-- ===== src/Server/Batch/Places.antt =====
-- The places in the pools (src/mcp_socket_server/pool.py), through the runs of `_run_batch`
-- (src/mcp_socket_server/server.py).
use mcp_socket_server.Prelude.{
  ℕ, ◌+◌, String, ◌≡◌, refl, sym, ap, ◌∙◌, inl, inr, Bool, Option, none, some, arith, Option-cases,
  Result, ok, err, string_eq, lookup, lookup-insert,
}
use mcp_socket_server.Errors.{Exn}
use mcp_socket_server.Commands.{LockClass}
use mcp_socket_server.Locks.{Key, LockConflict}
use mcp_socket_server.Pool.{Client, TargetPool, new_pool, release}
use mcp_socket_server.Pool.Scheduler.{
  Scheduler, Visit, acquire, is_ok, pool_key, get_pool, put_pool,
}
use mcp_socket_server.Pool.Scheduler.Places.{places_after, acquire-inuse, release-inuse}
use mcp_socket_server.Server.{Bridge}
use mcp_socket_server.Server.Batch.{lock, unlock, judge, give_back, serve, run_locked, run_one}

abbrev inuse_in : Option TargetPool → ℕ
inuse_in none = 0
inuse_in (some p) = p.inuse

-- `_inuse` of the pool with this key, 0 if there is none yet
abbrev pub inuse_of : String → Scheduler → ℕ
inuse_of k s = inuse_in (lookup k s.pools)

lock-scheduler :
    (host : String) (c : LockClass) (key : Key) (b : Bridge)
    → (lock host c key b).0.scheduler ≡ b.scheduler
unfolding lock
lock-scheduler host c key b = elim (Option-cases b.lock_manager) [
  | inl e ↦ ground arith
  | inr (m, e) ↦ ground arith
]

unlock-scheduler :
    (host : String) (c : LockClass) (key : Key) (b : Bridge)
    → (unlock host c key b).scheduler ≡ b.scheduler
unfolding unlock
unlock-scheduler host c key b = ground arith

get_pool-inuse :
    (host : String) (port : ℕ) (s : Scheduler)
    → ((get_pool host port s).0.inuse ≡ inuse_of (pool_key host port) s)
      × ((k : String) → inuse_of k (get_pool host port s).1 ≡ inuse_of k s)
unfolding get_pool new_pool
get_pool-inuse host port s = elim (Option-cases (lookup (pool_key host port) s.pools)) [
  | inl e ↦ (
    ground arith,
    λ k. ground (arith, lookup-insert k (pool_key host port) (new_pool host port) s.pools),
  )
  | inr (p, e) ↦ (ground arith, λ k. ground arith)
]

put_pool-inuse :
    (host : String) (port : ℕ) (p : TargetPool) (s : Scheduler)
    → p.inuse ≡ inuse_of (pool_key host port) s
    → (k : String) → inuse_of k (put_pool host port p s) ≡ inuse_of k s
put_pool-inuse host port p s h k = ground (arith, lookup-insert k (pool_key host port) p s.pools)

give_back-inuse :
    (host : String) (port : ℕ) (c : LockClass) (key : Key) (healthy success : Bool) (now : ℕ)
    (client : Client) (p : TargetPool) (b : Bridge)
    → p.inuse ≡ inuse_of (pool_key host port) b.scheduler + 1
    → (k : String)
    → inuse_of k (give_back host port c key healthy success now client p b).scheduler
      ≡ inuse_of k b.scheduler
unfolding give_back
give_back-inuse host port c key healthy success now client p b h k =
    let b' : Bridge = record b {
      scheduler = put_pool host port (release now client healthy p) b.scheduler;
    } in
    ground (
      arith,
      unlock-scheduler host c key b',
      put_pool-inuse host port (release now client healthy p) b.scheduler
          (omega (arith, release-inuse now client healthy p)) k,
    )

serve-inuse :
    (host : String) (port : ℕ) (c : LockClass) (key : Key) (v : Visit) (b : Bridge) (p : TargetPool)
    (r : Result Exn Client)
    → p.inuse ≡ places_after (inuse_of (pool_key host port) b.scheduler) r
    → (k : String)
    → inuse_of k (serve host port c key v b (p, r)).0.scheduler ≡ inuse_of k b.scheduler
unfolding serve
serve-inuse host port c key v b p (err e) h k =
    ap (inuse_of k) (unlock-scheduler host c key _) ∙ put_pool-inuse host port p b.scheduler h k
serve-inuse host port c key v b p (ok client) h k =
    let (client', outcome) = v.fn client in
    give_back-inuse host port c key (is_ok outcome) (judge host outcome).ok v.finished client' p b h
      k

run_locked-inuse :
    (host : String) (port timeout : ℕ) (c : LockClass) (key : Key) (v : Visit) (b : Bridge)
    (locked : Result LockConflict (Unit {0})) (k : String)
    → inuse_of k (run_locked host port timeout c key v (b, locked)).0.scheduler
      ≡ inuse_of k b.scheduler
unfolding run_locked
run_locked-inuse host port timeout c key v b (err e) k = refl
run_locked-inuse host port timeout c key v b (ok _) k =
    let got = get_pool-inuse host port b.scheduler in
    let p : TargetPool = (get_pool host port b.scheduler).0 in
    let s : Scheduler = (get_pool host port b.scheduler).1 in
    let r = acquire timeout v p in
    serve-inuse host port c key v (record b { scheduler = s }) (r.0) (r.1)
      (acquire-inuse timeout v p
        ∙ ap (λ n. places_after n (r.1)) (got.0 ∙ sym (got.1 (pool_key host port))))
      k
    ∙ got.1 k

-- However the run of one target ends, in every pool of the scheduler as many places are taken
-- afterwards as before.
pub run_one-inuse :
    (port timeout : ℕ) (c : LockClass) (key : Key) (host : String) (v : Visit) (b : Bridge)
    (k : String)
    → inuse_of k (run_one port timeout c key host v b).0.scheduler ≡ inuse_of k b.scheduler
unfolding run_one
run_one-inuse port timeout c key host v b k =
    run_locked-inuse host port timeout c key v (lock host c key b).0 (lock host c key b).1 k
    ∙ ap (inuse_of k) (lock-scheduler host c key b)
