-- ===== src/Pool/Scheduler.antt =====
-- `Scheduler` of src/mcp_socket_server/pool.py: one pool for each host and port, and functions run on
-- a client that is borrowed for them.
pub mod Places
pub mod Reuse
use Prim.Native.String.{◌++◌}
use mcp_socket_server.Prelude.{
  ℕ, String, Bool, true, false, Option, none, some, List, [], ◌∷◌, if◌then◌else◌, leb, Result, ok,
  err, string_eq, Dict, lookup, insert,
}
use mcp_socket_server.Errors.{Exn, pool_full}
use mcp_socket_server.Text.{decimal}
use mcp_socket_server.Value.{Value, null}
use mcp_socket_server.Locks.{LockConflict}
use mcp_socket_server.Pool.{
  Client, TargetPool, new_pool, max_conn_per_target, take_place, finish_acquire, release,
}

-- The texts that `TargetResult.error` holds, by what they are rendered from.
pub data Reason : Type 0 where
  -- str(e) of what the function raised, or of what came out of the future
  raised : Exn → Reason
  -- str(e) of a LockConflict
  conflict : LockConflict → Reason
  -- f"pool: {e}"
  pool_error : Exn → Reason
  -- str(data["_error"])
  agent_error : Value → Reason
  agent_false : Reason
  -- f"pcap 可能不完整/未排序(exitcode=…)"
  incomplete : Value → Reason
  -- d["error"]
  agent_reply : Value → Reason
  -- "推送已受理但 180 秒内未确认到新版本…"
  not_confirmed : Reason
  -- f"命令不在白名单: {args}"
  not_whitelisted : String → Reason
  -- "save 动作需要 file 参数"
  no_file : Reason
  -- f"未知 action: {action}"
  unknown_action : String → Reason

pub record TargetResult : Type 0 where
  pub target : String
  pub ok : Bool
  pub value : Value
  pub error : Option Reason

abbrev pub succeeded : String → Value → TargetResult
succeeded target v = record { target = target; ok = true; value = v; error = none }

abbrev pub failed_with : String → Reason → Value → TargetResult
failed_with target reason v = record { target = target; ok = false; value = v; error = some reason }

pub record Scheduler : Type 0 where
  pub pools : Dict String TargetPool

-- f"{host}:{port}"
unfoldable pub pool_key : String → ℕ → String
unfolding decimal
pool_key host port = host ++ ":" ++ decimal port

-- `get_pool`: the pool, and the scheduler in which it is registered
unfoldable pub get_pool : String → ℕ → Scheduler → TargetPool × Scheduler
unfolding new_pool
get_pool host port s = elim (lookup (pool_key host port) s.pools) [
  | none ↦ (
    new_pool host port,
    record { pools = insert (pool_key host port) (new_pool host port) s.pools },
  )
  | some p ↦ (p, s)
]

-- The methods of a pool write to the object that the scheduler holds.
abbrev pub put_pool : String → ℕ → TargetPool → Scheduler → Scheduler
put_pool host port p s = record { pools = insert (pool_key host port) p s.pools }

-- What one run meets: the clock when it has waited for a place and when it gives the client back, the
-- number of a new client, the answer to `connect`, and the function on the client, which may raise and
-- may change the client.
pub record Visit : Type 0 where
  pub started : ℕ
  pub finished : ℕ
  pub number : ℕ
  pub connect : Result Exn (Unit {0})
  pub fn : Client → Client × Result Exn Value

-- `TargetPool.acquire` on the pool as it is when the wait of `Pool.Waiting` is over.
unfoldable pub acquire : ℕ → Visit → TargetPool → TargetPool × Result Exn Client
unfolding take_place finish_acquire
acquire socket_timeout v p =
    let (popped, taken) = take_place v.started p in
    if leb max_conn_per_target p.inuse
    then (p, err (pool_full p.host))
    else finish_acquire socket_timeout v.number v.connect popped taken

-- The `finally` of a run: a client on which the function has raised is not healthy.
abbrev pub is_ok {ℓ κ} : {E : Type ℓ} {A : Type κ} → Result E A → Bool
is_ok (ok a) = true
is_ok (err e) = false

-- the rest of `_run_one`, when `acquire` has returned or raised
unfoldable pub run_on : Visit → TargetPool → Result Exn Client → TargetPool × Result Exn Value
unfolding release
run_on v p (err e) = (p, err e)
run_on v p (ok client) =
    let (client', outcome) = v.fn client in (release v.finished client' (is_ok outcome) p, outcome)

-- `_run_one`
unfoldable pub run_one : ℕ → Visit → TargetPool → TargetPool × Result Exn Value
unfolding acquire run_on
run_one socket_timeout v p = let (p', r) = acquire socket_timeout v p in run_on v p' r

abbrev pub target_result : String → Result Exn Value → TargetResult
target_result host (ok v) = succeeded host v
target_result host (err e) = failed_with host (raised e) null

-- `batch`, on the targets in the order in which their futures complete, each with what its run meets
unfoldable pub batch : ℕ → ℕ → List (String × Visit) → Scheduler → Scheduler × List TargetResult
unfolding get_pool run_one
batch port timeout [] s = (s, [])
batch port timeout ((host, v) ∷ calls) s =
    let (p, s1) = get_pool host port s in
    let (p', r) = run_one timeout v p in
    let (s2, results) = batch port timeout calls (put_pool host port p' s1) in
    (s2, target_result host r ∷ results)

-- `session`, with what its block does on the client as the function of the visit. A block that raises
-- makes the client unhealthy, and the exception goes on.
unfoldable pub session : String → ℕ → ℕ → Visit → Scheduler → Scheduler × Result Exn Value
unfolding get_pool run_one
session host port timeout v s =
    let (p, s1) = get_pool host port s in
    let (p', r) = run_one timeout v p in (put_pool host port p' s1, r)
