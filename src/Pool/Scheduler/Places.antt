-- ===== src/Pool/Scheduler/Places.antt =====
-- The places that `acquire` takes and `release` gives back (src/mcp_socket_server/pool.py).
use mcp_socket_server.Prelude.{
  ℕ, ◌+◌, ◌-◌, ◌<◌, ◌≡◌, refl, ap, sym, ◌∙◌, Bool, true, Option, none, some, List, leb, arith,
  Bool-cases, inl, inr, Result, ok, err,
}
use mcp_socket_server.Errors.{Exn, pool_full}
use mcp_socket_server.Pool
use mcp_socket_server.Pool.{
  Client, TargetPool, PooledConn, max_conn_per_target, pop_idle, take_place, finish_acquire,
  release,
}
use mcp_socket_server.Pool.Scheduler.{Visit, acquire}

-- the places taken, when `acquire` has returned or raised
abbrev pub places_after : ℕ → Result Exn Client → ℕ
places_after n (ok c) = n + 1
places_after n (err e) = n

connect_inuse :
    (socket_timeout number : ℕ) (connect : Result Exn (Unit {0})) (expired : List Client)
    (reuse : Option Client) (rest : List PooledConn) (p : TargetPool)
    → (finish_acquire socket_timeout number connect
        (record { expired = expired; reuse = reuse; rest = rest })
        (record p { inuse = p.inuse + 1 })).0.inuse
      ≡ places_after p.inuse
          (finish_acquire socket_timeout number connect
            (record { expired = expired; reuse = reuse; rest = rest })
            (record p { inuse = p.inuse + 1 })).1
unfolding finish_acquire Pool.give_back
connect_inuse socket_timeout number connect expired (some c) rest p = refl
connect_inuse socket_timeout number (ok _) expired none rest p = refl
connect_inuse socket_timeout number (err e) expired none rest p = omega arith

pub acquire-inuse :
    (socket_timeout : ℕ) (v : Visit) (p : TargetPool)
    → (acquire socket_timeout v p).0.inuse ≡ places_after p.inuse (acquire socket_timeout v p).1
unfolding acquire take_place
acquire-inuse socket_timeout v p = elim (Bool-cases (leb max_conn_per_target p.inuse)) [
  | inl full ↦ rw (full, acquire) refl
  | inr free ↦
      let popped = pop_idle v.started p.idle in
      rw (free, acquire)
        (connect_inuse socket_timeout v.number v.connect popped.expired popped.reuse popped.rest
          (record p { idle = popped.rest }))
]

pub release-inuse :
    (now : ℕ) (client : Client) (healthy : Bool) (p : TargetPool)
    → (release now client healthy p).inuse ≡ p.inuse - 1
unfolding release
release-inuse now client healthy p = ground arith

full_acquire :
    (timeout : ℕ) (v : Visit) (p : TargetPool)
    → leb max_conn_per_target p.inuse ≡ true
    → (acquire timeout v p).1 ≡ err (pool_full p.host)
unfolding acquire
full_acquire timeout v p full = rw full refl

-- A pool that lends a client has had room for it.
pub acquire_room :
    (timeout : ℕ) (v : Visit) (p q : TargetPool) (c : Client)
    → acquire timeout v p ≡ (q, ok c)
    → p.inuse < max_conn_per_target
acquire_room timeout v p q c h = elim (Bool-cases (leb max_conn_per_target p.inuse)) [
  | inl full ↦
      let clash : err (pool_full p.host) ≡ ok c =
        sym (full_acquire timeout v p full) ∙ ap (λ (r : TargetPool × Result Exn Client). r.1) h in
      absurd cc
  | inr free ↦ ground arith
]
