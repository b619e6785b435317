-- ===== src/Server/Captures.antt =====
-- The tools `capture_start` and `capture_stop` (src/mcp_socket_server/server.py).
pub mod Stopping
pub mod Reports
use mcp_socket_server.Prelude.{
  ℕ, String, Bool, true, false, ◌&&◌, Option, none, some, List, [], ◌∷◌, if◌then◌else◌, is_nonempty,
  Result, ok, err,
}
use mcp_socket_server.Errors.{Exn, other_error}
use mcp_socket_server.Value.{
  Value, Fields, null, bool, text, dict, field, end, get, get_or, put, merge, is_set, is_false,
}
use mcp_socket_server.Commands.{LockClass, capture}
use mcp_socket_server.Locks.Manager
use mcp_socket_server.Pool.{Client, TargetPool, release}
use mcp_socket_server.Pool.Scheduler.{
  Visit, acquire, is_ok, TargetResult, Reason, raised, incomplete, agent_reply, succeeded,
  failed_with, get_pool, put_pool,
}
use mcp_socket_server.Server.{Bridge, Report, report}

-- `run_one` of `capture_start`, on what `client.capture_start` returns: the value for `_run_batch`.
unfoldable pub started : Value → Result Exn Value
unfolding is_set get
started (dict fs) =
    if is_set "res" fs
    then ok (dict fs)
    else if is_set "error" fs
    then ok (dict (field "_error" (get_or "error" null fs) end))
    else ok (bool false)
started v = err (other_error "AttributeError")

-- The answer of `capture_stop` to what `client.capture_stop` returns.
unfoldable pub stop_verdict : String → Fields → TargetResult
unfolding is_set get put
stop_verdict host fs =
    if is_set "stopped" fs && is_false (get_or "pcap_complete" null fs)
    then failed_with host (incomplete (get_or "exitcode" null fs))
        (dict (put "warning" (text "pcap 可能不完整/未排序") fs))
    else if is_false (get_or "stopped" null fs) && is_set "error" fs
    then failed_with host (agent_reply (get_or "error" null fs)) (dict fs)
    else succeeded host (dict fs)

unfoldable pub judge_stop : String → Result Exn Value → TargetResult
unfolding stop_verdict
judge_stop host (ok (dict fs)) = stop_verdict host fs
judge_stop host (ok v) = failed_with host (raised (other_error "AttributeError")) null
judge_stop host (err e) = failed_with host (raised e) null

-- `except Exception`: the client is unhealthy if anything is raised, the reading of the reply included.
abbrev is_dict : Result Exn Value → Bool
is_dict (ok (dict fs)) = true
is_dict _ = false

-- `_lock_manager.release(host_port, LockClass.CAPTURE, (path,))`
unfoldable pub free_path : String → String → Bridge → Bridge
free_path host path b = elim b.lock_manager [
  | none ↦ b
  | some m ↦ record b { lock_manager = some (Manager.release host capture (some (path ∷ [])) m) }
]

-- `run_one` of `capture_stop` with the answer of `pool.acquire`: an exception of `acquire` comes before
-- the `try` and out of the future.
unfoldable pub stop_with :
    String → ℕ → String → Visit → Bridge → TargetPool × Result Exn Client → Bridge × TargetResult
unfolding judge_stop free_path release
stop_with host port path v b (p, err e) =
    (record b { scheduler = put_pool host port p b.scheduler }, failed_with host (raised e) null)
stop_with host port path v b (p, ok client) =
    let (client', outcome) = v.fn client in
    let p' = release v.finished client' (is_dict outcome) p in
    (
      free_path host path (record b { scheduler = put_pool host port p' b.scheduler }),
      judge_stop host outcome,
    )

unfoldable pub stop_one : ℕ → ℕ → String → String → Visit → Bridge → Bridge × TargetResult
unfolding get_pool acquire stop_with
stop_one port timeout path host v b =
    let (p, s) = get_pool host port b.scheduler in
    stop_with host port path v (record b { scheduler = s }) (acquire timeout v p)

-- The runs, in the order in which they complete.
unfoldable pub stop_all :
    ℕ → ℕ → String → List (String × Visit) → Bridge → Bridge × List TargetResult
unfolding stop_one
stop_all port timeout path [] b = (b, [])
stop_all port timeout path ((host, v) ∷ calls) b =
    let (b1, result) = stop_one port timeout path host v b in
    let (b2, results) = stop_all port timeout path calls b1 in (b2, result ∷ results)

-- {"target": r.target, **r.data} for each failure whose data are a dict
unfoldable pub detail : TargetResult → Option Fields
unfolding merge
detail r = if r.ok then none else detailed r.target r.value
  where
    detailed : String → Value → Option Fields
    detailed target (dict fs) = some (merge (field "target" (text target) end) fs)
    detailed target v = none

unfoldable pub details : List TargetResult → List Fields
unfolding detail
details [] = []
details (r ∷ results) =
    let rest = details results in elim (detail r) [ none ↦ rest | some fs ↦ fs ∷ rest ]

-- What `capture_stop` returns: `failed_details` only where there is one.
pub record StopReport : Type 0 where
  pub report : Report
  pub failed_details : Option (List Fields)

unfoldable pub stop_report : List TargetResult → StopReport
unfolding report details
stop_report results = record {
  report = report results;
  failed_details = if is_nonempty (details results) then some (details results) else none;
}

unfoldable pub capture_stop : ℕ → ℕ → String → List (String × Visit) → Bridge → Bridge × StopReport
unfolding stop_all stop_report
capture_stop port timeout path calls b =
    let (b', results) = stop_all port timeout path calls b in (b', stop_report results)
