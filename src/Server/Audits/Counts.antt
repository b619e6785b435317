-- ===== src/Server/Audits/Counts.antt =====
-- That the audit of a batch (src/mcp_socket_server/server.py) says what its report says.
use mcp_socket_server.Prelude.{
  ℕ, suc, ◌+◌, String, ◌≡◌, refl, sym, ap, ◌∙◌, not, Option, none, some, List, [], ◌∷◌, ◌++◌,
  length, length-map, keep_if, Result, ok, err,
}
use mcp_socket_server.Errors.{Exn}
use mcp_socket_server.Value.{Value, Fields, items_length}
use mcp_socket_server.Commands.{LockClass}
use mcp_socket_server.Locks.{Key}
use mcp_socket_server.Pool.Scheduler.{Visit, TargetResult, Reason}
use mcp_socket_server.Audit.{Entry, AuditLogger, write, append_row, row_texts}
use mcp_socket_server.Server.{Bridge, Report, report, failed, failure, count_ok}
use mcp_socket_server.Server.Batch.{run_all, run_batch}
use mcp_socket_server.Server.Batch.Reports.{run_batch-Accounts}
use mcp_socket_server.Server.Audits.{
  count_failed, outcomes, batch_entry, kept, log_entry, audit_batch, run_audited,
}

count_failed-failed : (results : List TargetResult) → count_failed results ≡ length (failed results)
unfolding count_failed failed
count_failed-failed results =
    sym (length-map failure (keep_if (λ (r : TargetResult). not r.ok) results))

length-outcomes :
    (message : Reason → String) (results : List TargetResult)
    → items_length (outcomes message results) ≡ length results
unfolding items_length
length-outcomes message [] = refl
length-outcomes message (r ∷ results) = ap suc (length-outcomes message results)

-- A row of the audit that says of a batch what its report says.
pub record Records (rep : Report) (n : ℕ) (e : Entry) : Type 0 where
  pub oks : e.ok_count ≡ rep.ok
  pub failures : e.failed_count ≡ length rep.failed
  pub total : e.ok_count + e.failed_count ≡ n

-- One row more, unless its texts cannot be written as JSON.
abbrev pub Logged :
    Result Exn (String × String) → Report → ℕ → AuditLogger → Option AuditLogger → Type 0
Logged texts rep n a none = ⊥
Logged (err e) rep n a (some a') = a' ≡ a
Logged (ok _) rep n a (some a') = (e : Entry) × ((a'.rows ≡ a.rows ++ e ∷ []) × Records rep n e)

module _ (str : Value → String) (dumps : Value → Result Exn String)
    (message : Reason → String) where
  -- A tool that names itself for the audit leaves one row more, with the numbers of successes and of
  -- failures of the report that it returns, which add up to its runs; only where the parameters or the
  -- outcomes cannot be written as JSON is there none.
  pub run_audited-Logged :
      (tool : String) (params : Fields) (now duration_ms port timeout : ℕ) (c : LockClass)
      (key : Key) (calls : List (String × Visit)) (b : Bridge) (a : AuditLogger)
      → let r =
          run_audited str dumps message
            (some tool)
            params
            now
            duration_ms
            port
            timeout
            c
            key
            calls
            (b, some a) in
        let results = (run_all port timeout c key calls b).1 in
        Logged
          (row_texts str dumps (batch_entry message tool params duration_ms results))
          r.1
          (length calls)
          a
          r.0.1
  unfolding run_audited log_entry write append_row report batch_entry run_batch audit_batch
  run_audited-Logged tool params now duration_ms port timeout c key calls b a = logged (
      row_texts str dumps
        (batch_entry message tool params duration_ms (run_all port timeout c key calls b).1))
    where
      results : List TargetResult
      results = (run_all port timeout c key calls b).1

      total : count_ok results + count_failed results ≡ length calls
      total =
          ap (λ n. count_ok results + n) (count_failed-failed results)
          ∙ (run_batch-Accounts port timeout c key calls b).total

      logged :
          (texts : Result Exn (String × String))
          → Logged texts (report results) (length calls) a (
              some (
                kept str dumps a (elim texts as (λ _. Result Exn AuditLogger) [
                  | err e ↦ err e
                  | ok t ↦
                      ok (append_row now (batch_entry message tool params duration_ms results) a t)
                ])))
      logged (err e) = refl
      logged (ok (params', outcomes')) =
          (_, (refl, record { oks = refl; failures = count_failed-failed results; total = total }))
