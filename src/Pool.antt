-- ===== src/Pool.antt =====
-- The connection pool of one target (`TargetPool` of src/mcp_socket_server/pool.py). What a method does
-- between taking and leaving `_cond` is one function; times are clock readings in seconds.
pub mod Waiting
pub mod Sessions
pub mod Scheduler
use mcp_socket_server.Prelude.{
  ℕ, ◌+◌, ◌-◌, String, Bool, true, false, Option, none, some, List, [], ◌∷◌, if◌then◌else◌, ltb,
  leb, map, Result, ok, err,
}
use mcp_socket_server.Errors.{Exn}

abbrev pub max_conn_per_target : ℕ
max_conn_per_target = 5

abbrev pub idle_timeout : ℕ
idle_timeout = 600

abbrev pub borrow_timeout : ℕ
borrow_timeout = 10

-- A `SocketServerClient`; `number` tells objects apart, and `connected` is `_sock is not None`.
pub record Client : Type 0 where
  pub number : ℕ
  pub host : String
  pub port : ℕ
  pub timeout : ℕ
  pub connected : Bool

pub record PooledConn : Type 0 where
  pub client : Client
  pub last_used : ℕ

-- The head of `idle` is the end of `_idle`, where `append` and `pop` work.
pub record TargetPool : Type 0 where
  pub host : String
  pub port : ℕ
  pub idle : List PooledConn
  pub inuse : ℕ

unfoldable pub new_pool : String → ℕ → TargetPool
new_pool host port = record { host = host; port = port; idle = []; inuse = 0 }

-- What the loop over `_idle` leaves behind.
pub record Popped : Type 0 where
  pub expired : List Client
  pub reuse : Option Client
  pub rest : List PooledConn

-- `while self._idle: …`: drop what has been idle too long, up to the first that has not.
unfoldable pub pop_idle : ℕ → List PooledConn → Popped
pop_idle now [] = record { expired = []; reuse = none; rest = [] }
pop_idle now (pc ∷ idle) =
    let more = pop_idle now idle in
    if ltb idle_timeout (now - pc.last_used)
    then record more { expired = pc.client ∷ more.expired }
    else record { expired = []; reuse = some pc.client; rest = idle }

-- What `acquire` does under `_cond` once there is room: take a place, and a connection if one is idle.
unfoldable pub take_place : ℕ → TargetPool → Popped × TargetPool
take_place now p =
    let popped = pop_idle now p.idle in
    (popped, record p { idle = popped.rest; inuse = p.inuse + 1 })

-- max(0, self._inuse - 1), after a failed connect
unfoldable pub give_back : TargetPool → TargetPool
give_back p = record p { inuse = p.inuse - 1 }

-- `c.close()`; an `OSError` of the socket is dropped.
unfoldable pub close : Client → Client
close c = record c { connected = false }

-- The end of `acquire`, outside `_cond`: a connection to reuse gets the timeout of this call; a new one
-- is connected, and its place is given back if that raises. `number` is the new object's.
unfoldable pub finish_acquire :
    ℕ → ℕ → Result Exn (Unit {0}) → Popped → TargetPool → TargetPool × Result Exn Client
unfolding give_back
finish_acquire socket_timeout number connect popped p = elim popped.reuse [
  | some c ↦ (p, ok (record c { timeout = socket_timeout }))
  | none ↦ elim connect [
    | ok _ ↦ (
      p,
      ok (record {
        number = number;
        host = p.host;
        port = p.port;
        timeout = socket_timeout;
        connected = true;
      }),
    )
    | err e ↦ (give_back p, err e)
  ]
]

-- `release`: the pool that it leaves. An unhealthy client is closed, and not kept.
unfoldable pub release : ℕ → Client → Bool → TargetPool → TargetPool
release now c healthy p =
    if healthy
    then record p { inuse = p.inuse - 1; idle = record { client = c; last_used = now } ∷ p.idle }
    else record p { inuse = p.inuse - 1 }

-- `close_all`: the pool without idle connections, and the clients that are closed.
unfoldable pub close_all : TargetPool → TargetPool × List Client
unfolding close
close_all p = (record p { idle = [] }, map (λ (pc : PooledConn). close pc.client) p.idle)
