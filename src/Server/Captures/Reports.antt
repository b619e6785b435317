-- ===== src/Server/Captures/Reports.antt =====
-- The report of `capture_stop` (src/mcp_socket_server/server.py).
use mcp_socket_server.Prelude.{
  ℕ, ◌≤◌, String, ◌≡◌, refl, ◌&&◌, Option, none, some, List, [], ◌∷◌, length, is_nonempty,
  if◌then◌else◌, arith, Result, ok, err, Bool-cases, inl, inr,
}
use mcp_socket_server.Errors.{Exn}
use mcp_socket_server.Value.{Value, Fields, dict, null, is_set, is_false, get_or}
use mcp_socket_server.Pool.{Client, TargetPool}
use mcp_socket_server.Pool.Scheduler.{Visit, TargetResult, acquire, get_pool}
use mcp_socket_server.Server.{Bridge, failed, report}
use mcp_socket_server.Server.Batch.Reports.{
  IsResult, Answered, Accounts, succeeded-IsResult, failed_with-IsResult, report-Accounts,
}
use mcp_socket_server.Server.Captures.{
  stop_verdict, judge_stop, stop_with, stop_one, stop_all, detail, details, stop_report,
  capture_stop,
}

stop_verdict-IsResult : (host : String) (fs : Fields) → IsResult host (stop_verdict host fs)
unfolding stop_verdict
stop_verdict-IsResult host fs =
    elim (Bool-cases (is_set "stopped" fs && is_false (get_or "pcap_complete" null fs))) [
      | inl cut ↦ rw cut (failed_with-IsResult host _ _)
      | inr whole ↦
          rw whole (elim (Bool-cases (is_false (get_or "stopped" null fs) && is_set "error" fs)) [
            | inl bad ↦ rw bad (failed_with-IsResult host _ _)
            | inr good ↦ rw good (succeeded-IsResult host _)
          ])
    ]

judge_stop-IsResult :
    (host : String) (outcome : Result Exn Value) → IsResult host (judge_stop host outcome)
unfolding judge_stop
judge_stop-IsResult host (err e) = failed_with-IsResult host _ _
judge_stop-IsResult host (ok (dict fs)) = stop_verdict-IsResult host fs
judge_stop-IsResult host (ok v) = failed_with-IsResult host _ _

stop_with-IsResult :
    (host : String) (port : ℕ) (path : String) (v : Visit) (b : Bridge) (p : TargetPool)
    (r : Result Exn Client)
    → IsResult host (stop_with host port path v b (p, r)).1
unfolding stop_with
stop_with-IsResult host port path v b p (err e) = failed_with-IsResult host _ _
stop_with-IsResult host port path v b p (ok client) = judge_stop-IsResult host (v.fn client).1

stop_all-Answered :
    (port timeout : ℕ) (path : String) (calls : List (String × Visit)) (b : Bridge)
    → Answered calls (stop_all port timeout path calls b).1
unfolding stop_all stop_one
stop_all-Answered port timeout path [] b = tt
stop_all-Answered port timeout path ((host, v) ∷ calls) b =
    let r = acquire timeout v (get_pool host port b.scheduler).0 in
    (
      stop_with-IsResult host port path v
          (record b { scheduler = (get_pool host port b.scheduler).1 }) (r.0) (r.1),
      stop_all-Answered port timeout path calls (stop_one port timeout path host v b).0,
    )

-- The details are of failures, and no more than these.
length-details : (results : List TargetResult) → length (details results) ≤ length (failed results)
unfolding details failed detail
length-details [] = omega arith
length-details (r ∷ results) = ground (arith, length-details results)

-- The details that a report shows.
abbrev pub shown_details : Option (List Fields) → List Fields
shown_details none = []
shown_details (some fs) = fs

shown : (l : List Fields) → shown_details (if is_nonempty l then some l else none) ≡ l
shown [] = refl
shown (_ ∷ _) = refl

-- The report of `capture_stop` accounts for every target that it runs on, with a reason for every
-- failure; it shows no more details than failures.
pub capture_stop-Accounts :
    (port timeout : ℕ) (path : String) (calls : List (String × Visit)) (b : Bridge)
    → let rep = (capture_stop port timeout path calls b).1 in
      Accounts (length calls) rep.report
      × (length (shown_details rep.failed_details) ≤ length rep.report.failed)
unfolding capture_stop stop_report report
capture_stop-Accounts port timeout path calls b =
    let results = (stop_all port timeout path calls b).1 in
    (
      report-Accounts calls results (stop_all-Answered port timeout path calls b),
      rw (shown (details results)) (length-details results),
    )
