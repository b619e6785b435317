-- ===== src/Server/Batch.antt =====
-- `_run_batch` (src/mcp_socket_server/server.py): on each target a lock, a client, the function, and
-- both given back. The log and the audit are left out.
pub mod Settling
pub mod Locking
pub mod Places
pub mod Reports
use mcp_socket_server.Prelude.{
  ℕ, String, Bool, true, false, ◌||◌, not, Option, none, some, List, [], ◌∷◌, if◌then◌else◌, Result,
  ok, err, Dict,
}
use mcp_socket_server.Errors.{Exn}
use mcp_socket_server.Value.{Value, null, bool, text, dict, field, end, has, get_or}
use mcp_socket_server.Commands.{LockClass, unlocked, capture}
use mcp_socket_server.Locks.{Key, LockConflict}
use mcp_socket_server.Locks.Manager
use mcp_socket_server.Pool.{Client, TargetPool, release}
use mcp_socket_server.Pool.Scheduler.{
  Visit, acquire, is_ok, TargetResult, Reason, conflict, pool_error, raised, agent_error,
  agent_false, succeeded, failed_with, get_pool, put_pool,
}
use mcp_socket_server.Server.{Bridge, Report, report}

abbrev pub is_unlocked : LockClass → Bool
is_unlocked unlocked = true
is_unlocked _ = false

abbrev pub is_capture : LockClass → Bool
is_capture capture = true
is_capture _ = false

-- `lock_mgr.acquire` where there is a manager and a class that locks
unfoldable pub lock : String → LockClass → Key → Bridge → Bridge × Result LockConflict (Unit {0})
lock host c key b = elim b.lock_manager [
  | none ↦ (b, ok tt)
  | some m ↦ if is_unlocked c then (b, ok tt) else (
    record b { lock_manager = some (Manager.acquire host c (some key) m).0 },
    (Manager.acquire host c (some key) m).1,
  )
]

-- `lock_mgr.release` under the same test
unfoldable pub unlock : String → LockClass → Key → Bridge → Bridge
unlock host c key b = elim b.lock_manager [
  | none ↦ b
  | some m ↦
      if is_unlocked c
      then b
      else record b { lock_manager = some (Manager.release host c (some key) m) }
]

abbrev pub async_note : Value
async_note = dict (field "note" (text "wait=false 为异步执行不返回回显;需要 stdout 请 wait=true") end)

-- What the value that the function returns says of the target.
unfoldable pub verdict : Value → Result Reason Value
unfolding has
verdict (dict fs) =
    if has "_error" fs then err (agent_error (get_or "_error" null fs)) else ok (dict fs)
verdict null = ok async_note
verdict (bool false) = err agent_false
verdict v = ok v

abbrev pub of_verdict : String → Result Reason Value → TargetResult
of_verdict host (ok v) = succeeded host v
of_verdict host (err reason) = failed_with host reason null

unfoldable pub judge : String → Result Exn Value → TargetResult
unfolding verdict
judge host (ok v) = of_verdict host (verdict v)
judge host (err e) = failed_with host (raised e) null

-- `finally`: the client is given back, and the lock, unless it is that of a capture that has begun
unfoldable pub give_back :
    String → ℕ → LockClass → Key → Bool → Bool → ℕ → Client → TargetPool → Bridge → Bridge
unfolding unlock release
give_back host port c key healthy success now client p b =
    let b' : Bridge = record b {
      scheduler = put_pool host port (release now client healthy p) b.scheduler;
    } in
    if not (is_capture c) || not success then unlock host c key b' else b'

-- `run_one` with the answer of `pool.acquire`
unfoldable pub serve :
    String
    → ℕ
    → LockClass
    → Key
    → Visit
    → Bridge
    → TargetPool × Result Exn Client
    → Bridge × TargetResult
unfolding unlock judge give_back
serve host port c key v b (p, err e) = (
  unlock host c key (record b { scheduler = put_pool host port p b.scheduler }),
  failed_with host (pool_error e) null,
)
serve host port c key v b (p, ok client) =
    let (client', outcome) = v.fn client in
    let result = judge host outcome in
    (give_back host port c key (is_ok outcome) result.ok v.finished client' p b, result)

-- `run_one` with the answer of the lock
unfoldable pub run_locked :
    String
    → ℕ
    → ℕ
    → LockClass
    → Key
    → Visit
    → Bridge × Result LockConflict (Unit {0})
    → Bridge × TargetResult
unfolding get_pool acquire serve
run_locked host port timeout c key v (b, err e) = (b, failed_with host (conflict e) null)
run_locked host port timeout c key v (b, ok _) =
    let (p, s) = get_pool host port b.scheduler in
    serve host port c key v (record b { scheduler = s }) (acquire timeout v p)

unfoldable pub run_one : ℕ → ℕ → LockClass → Key → String → Visit → Bridge → Bridge × TargetResult
unfolding lock run_locked
run_one port timeout c key host v b = run_locked host port timeout c key v (lock host c key b)

-- The runs of a batch, in the order in which their futures complete. Every `lock_key_fn` of the tools
-- makes one key for all hosts; without one the key is empty. `run_one` raises nothing itself.
unfoldable pub run_all :
    ℕ → ℕ → LockClass → Key → List (String × Visit) → Bridge → Bridge × List TargetResult
unfolding run_one
run_all port timeout c key [] b = (b, [])
run_all port timeout c key ((host, v) ∷ calls) b =
    let (b1, result) = run_one port timeout c key host v b in
    let (b2, results) = run_all port timeout c key calls b1 in (b2, result ∷ results)

unfoldable pub run_batch :
    ℕ → ℕ → LockClass → Key → List (String × Visit) → Bridge → Bridge × Report
unfolding run_all report
run_batch port timeout c key calls b =
    let (b', results) = run_all port timeout c key calls b in (b', report results)
