-- ===== src/Pool/Scheduler/Reuse.antt =====
-- Which client the pool lends after a run (src/mcp_socket_server/pool.py).
use mcp_socket_server.Prelude.{
  ℕ, ◌+◌, ◌-◌, ◌≤◌, ◌<◌, ◌≡◌, refl, sym, ap, ◌∙◌, List, ◌∷◌, arith, Result, ok, err,
}
use mcp_socket_server.Errors.{Exn, other_error}
use mcp_socket_server.Value.{Value}
use mcp_socket_server.Wire.{Bytes, Sock}
use mcp_socket_server.Agent
use mcp_socket_server.Agent.{send}
use mcp_socket_server.Wire
use mcp_socket_server.Pool.{
  Client, TargetPool, PooledConn, max_conn_per_target, idle_timeout, take_place, pop_idle,
  finish_acquire, release, close,
}
use mcp_socket_server.Pool.Scheduler.{Visit, acquire, run_on, run_one}
use mcp_socket_server.Pool.Scheduler.Places.{places_after, acquire-inuse, acquire_room}

-- The head of the idle clients is lent if it has not been idle too long, whatever `connect` answers.
acquire_head :
    (timeout : ℕ) (w : Visit) (d : Client) (last : ℕ) (p : TargetPool) (idle : List PooledConn)
    → p.inuse < max_conn_per_target
    → w.started - last ≤ idle_timeout
    → (acquire timeout w (record p { idle = record { client = d; last_used = last } ∷ idle })).1
      ≡ ok (record d { timeout = timeout })
unfolding acquire take_place pop_idle finish_acquire
acquire_head timeout w d last p idle room recent = ground arith

-- If a run has been lent a client and its function has returned, the next `acquire`, at most 600
-- seconds after the client was given back, lends that client as the function left it, with the
-- timeout of the new call and whatever `connect` would answer.
pub acquire-run_one :
    (timeout timeout' : ℕ) (v w : Visit) (p q : TargetPool) (c d : Client) (x : Value)
    → acquire timeout v p ≡ (q, ok c)
    → v.fn c ≡ (d, ok x)
    → w.started - v.finished ≤ idle_timeout
    → (acquire timeout' w (run_one timeout v p).0).1 ≡ ok (record d { timeout = timeout' })
unfolding run_one run_on release
acquire-run_one timeout timeout' v w p q c d x h f recent =
    let room = acquire_room timeout v p q c h in
    let taken : q.inuse ≡ p.inuse + 1 =
      sym (ap (λ (r : TargetPool × Result Exn Client). r.0.inuse) h)
      ∙ acquire-inuse timeout v p
      ∙ ap (λ (r : TargetPool × Result Exn Client). places_after p.inuse (r.1)) h in
    rw (h, run_one)
      (rw f (
        acquire_head timeout' w d v.finished (record q { inuse = q.inuse - 1 }) q.idle (omega arith)
          recent))

-- If a run has been lent a client and its function has closed the client and returned, as that of
-- `upgrade_run` does, the next `acquire`, at most 600 seconds after the client was given back,
-- lends the closed client, and a request on it raises AssertionError before a byte is sent.
pub closed_reused :
    (timeout timeout' : ℕ) (v w : Visit) (p q : TargetPool) (c : Client) (x : Value)
    → acquire timeout v p ≡ (q, ok c)
    → v.fn c ≡ (close c, ok x)
    → w.started - v.finished ≤ idle_timeout
    → (d : Client) × ((acquire timeout' w (run_one timeout v p).0).1 ≡ ok d)
      × ((datatype : ℕ) (payload : Bytes) (s : Sock)
          → send d datatype payload s ≡ (err (other_error "AssertionError"), s))
unfolding send Agent.with_socket Wire.raise close
closed_reused timeout timeout' v w p q c x h f recent = (
  _,
  acquire-run_one timeout timeout' v w p q c (close c) x h f recent,
  λ datatype payload s. refl,
)
