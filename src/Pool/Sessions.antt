-- ===== src/Pool/Sessions.antt =====
-- One pool used by any number of threads: calls of `acquire`, `release` and `close_all`
-- (src/mcp_socket_server/pool.py) in any order, with the sockets' answers left open.
pub mod Owners
pub mod Invariant
pub mod Draining
use mcp_socket_server.Prelude.{
  ℕ, ◌+◌, ◌<◌, String, ◌≡◌, Bool, Option, none, some, List, [], ◌∷◌, ◌++◌, Result, ok, err,
}
use mcp_socket_server.Errors.{Exn}
use mcp_socket_server.Pool.{
  Client, TargetPool, Popped, new_pool, max_conn_per_target, take_place, finish_acquire, release,
  close_all,
}

pub record World : Type 0 where
  pub pool : TargetPool
  -- threads in `acquire` that have left `_cond` with a place
  pub reserved : List Popped
  -- clients that `acquire` has returned and that are not yet released
  pub leased : List Client
  -- number of the next new client
  pub fresh : ℕ

abbrev pub start : String → ℕ → World
start host port = record { pool = new_pool host port; reserved = []; leased = []; fresh = 0 }

abbrev pub lease : Result Exn Client → List Client → List Client
lease (ok c) cs = c ∷ cs
lease (err e) cs = cs

pub data Step (w : World) : World → Type 0 where
  -- a thread finds room and takes a place
  takes :
      (now : ℕ)
      → w.pool.inuse < max_conn_per_target
      → Step w (record w {
        pool = (take_place now w.pool).1;
        reserved = (take_place now w.pool).0 ∷ w.reserved;
      })
  -- a thread that has a place returns from `acquire` or raises
  finishes :
      (socket_timeout : ℕ) (connect : Result Exn (Unit {0})) (before after : List Popped)
      (popped : Popped)
      → w.reserved ≡ before ++ popped ∷ after
      → Step w (record w {
        pool = (finish_acquire socket_timeout w.fresh connect popped w.pool).0;
        reserved = before ++ after;
        leased = lease (finish_acquire socket_timeout w.fresh connect popped w.pool).1 w.leased;
        fresh = w.fresh + 1;
      })
  -- a client that was leased is given back, changed or not, under the same number
  releases :
      (now : ℕ) (healthy : Bool) (before after : List Client) (c d : Client)
      → w.leased ≡ before ++ c ∷ after
      → d.number ≡ c.number
      → Step w (record w { pool = release now d healthy w.pool; leased = before ++ after })
  closes : Step w (record w { pool = (close_all w.pool).0 })

pub data Reach (w : World) : World → Type 0 where
  here : Reach w w
  next : {u v : World} → Reach w u → Step u v → Reach w v
