-- ===== src/Server/Audits.antt =====
-- What the tools write to the audit log (src/mcp_socket_server/server.py).

pub mod Counts
use mcp_socket_server.Prelude.{
  ℕ, ◌+◌, ◌-◌, String, Bool, true, false, not, Option, none, some, List, [], ◌∷◌, ◌++◌, ◌==◌,
  string_eq, if◌then◌else◌, keep_if, map, length, Result, ok, err,
}
use mcp_socket_server.Errors.{Exn}
use mcp_socket_server.Value.{
  Value, Items, nil, cons, Fields, items_length, field, end, text, bool, null, dict,
}
use mcp_socket_server.Commands.{LockClass}
use mcp_socket_server.Locks.{Key}
use mcp_socket_server.Pool.Scheduler.{Visit, TargetResult, Reason}
use mcp_socket_server.Audit
use mcp_socket_server.Audit.{AuditLogger, write}
use mcp_socket_server.Server.{Bridge, Failure, Report, report, count_ok, failed}
use mcp_socket_server.Server.Batch.{run_all}
use mcp_socket_server.Server.Upgrade.{Pushed}

-- sum(1 for r in results if not r.ok)
unfoldable pub count_failed : List TargetResult → ℕ
count_failed results = length (keep_if (λ (r : TargetResult). not r.ok) results)

-- The text of a reason
module _ (message : Reason → String) where
  abbrev reason_value : Option Reason → Value
  reason_value none = null
  reason_value (some x) = text (message x)

  -- {"target": r.target, "ok": r.ok, "error": r.error}
  abbrev pub outcome : TargetResult → Value
  outcome r = dict (
      field "target" (text r.target)
        (field "ok" (bool r.ok) (field "error" (reason_value r.error) end)))

  abbrev pub outcomes : List TargetResult → Items
  outcomes [] = nil
  outcomes (r ∷ results) = cons (outcome r) (outcomes results)

  -- The arguments of `_audit_logger.write` in `_run_batch` and in `capture_stop`.
  unfoldable pub batch_entry : String → Fields → ℕ → List TargetResult → Audit.Report
  unfolding count_ok count_failed
  batch_entry tool params duration_ms results = record {
    tool = tool;
    params = params;
    outcomes = outcomes results;
    ok_count = count_ok results;
    failed_count = count_failed results;
    duration_ms = duration_ms;
    source_ip = "internal";
  }

-- outcomes of `upgrade_run`
abbrev pub plain_outcome : Bool → String → Value
plain_outcome good t = dict (field "target" (text t) (field "ok" (bool good) end))

abbrev pub plain_outcomes : List Pushed → List Failure → Items
plain_outcomes [] [] = nil
plain_outcomes [] (f ∷ failed) =
    let rest = plain_outcomes [] failed in
    if f.target == "*" then rest else cons (plain_outcome false f.target) rest
plain_outcomes (r ∷ results) failed =
    cons (plain_outcome true r.target) (plain_outcomes results failed)

-- The audit of `upgrade_run`, after its polling.
unfoldable pub upgrade_entry : String → Bool → ℕ → List Pushed → List Failure → Audit.Report
unfolding items_length
upgrade_entry version force duration_ms results failed = record {
  tool = "upgrade_run";
  params = field "version" (text version) (field "force" (bool force) end);
  outcomes = plain_outcomes results failed;
  ok_count = length results;
  failed_count = items_length (plain_outcomes results failed) - length results;
  duration_ms = duration_ms;
  source_ip = "internal";
}

-- The audit of `capture_stop`.
unfoldable pub stop_entry : (Reason → String) → String → ℕ → List TargetResult → Audit.Report
unfolding batch_entry
stop_entry message path duration_ms results =
    batch_entry message "capture_stop" (field "path" (text path) end) duration_ms results

-- A writing whose exception is dropped, where there is a logger.
module _ (str : Value → String) (dumps : Value → Result Exn String) where
  abbrev pub kept : AuditLogger → Result Exn AuditLogger → AuditLogger
  kept a (ok a') = a'
  kept a (err e) = a

  unfoldable pub log_entry : ℕ → Audit.Report → Option AuditLogger → Option AuditLogger
  unfolding write
  log_entry now entry none = none
  log_entry now entry (some a) = some (kept a (write str dumps now entry a))

  -- `_run_batch` with its audit: a tool that names itself is written down after its runs.
  unfoldable pub audit_batch :
      (Reason → String)
      → Option String
      → Fields
      → ℕ
      → ℕ
      → List TargetResult
      → Option AuditLogger
      → Option AuditLogger
  unfolding log_entry batch_entry
  audit_batch message none params now duration_ms results a = a
  audit_batch message (some tool) params now duration_ms results a =
      log_entry now (batch_entry message tool params duration_ms results) a

  unfoldable pub run_audited :
      (Reason → String)
      → Option String
      → Fields
      → ℕ
      → ℕ
      → ℕ
      → ℕ
      → LockClass
      → Key
      → List (String × Visit)
      → Bridge × Option AuditLogger
      → (Bridge × Option AuditLogger) × Report
  unfolding audit_batch run_all report
  run_audited message tool params now duration_ms port timeout c key calls (b, a) =
      let (b', results) = run_all port timeout c key calls b in
      ((b', audit_batch message tool params now duration_ms results a), report results)
