-- ===== src/Tests/Auditing.antt =====
-- Tests of the audit log (src/mcp_socket_server/audit.py) and of what the tools write to it.
use mcp_socket_server.Prelude.{String, string_eq, refl, some, List, [], ◌∷◌, inl, Result, ok, arith}
use mcp_socket_server.Errors.{Exn}
use mcp_socket_server.Value.{Value, Fields, field, end, text, num, nil, get}
use mcp_socket_server.Commands.{shell}
use mcp_socket_server.Pool.Scheduler.{Reason, Visit}
use mcp_socket_server.Audit.{Entry, AuditLogger, Report, truncate_params, row_texts}
use mcp_socket_server.Audit.Loop.{Distinct}
use mcp_socket_server.Audit.Params.{Truncated, truncate_params-Truncated}
use mcp_socket_server.Audit.Retention.{Call, writes, cleans, IsLog, Has, run, run-IsLog, run-Has}
use mcp_socket_server.Server.Batch.{run_all}
use mcp_socket_server.Server.Audits.{batch_entry, run_audited}
use mcp_socket_server.Server.Audits.Counts.{Logged, run_audited-Logged}
use mcp_socket_server.Tests.Fixtures.{host_a, visit_a, idle_bridge}

abbrev str : Value → String
str (text s) = s
str v = "?"

abbrev dumps : Value → Result Exn String
dumps v = ok "{}"

abbrev message : Reason → String
message x = "reason"

abbrev params : Fields
params = field "args" (text "ls -l") (field "wait" (num 1) end)

params-Distinct : Distinct params
unfolding get string_eq
params-Distinct = (refl, (refl, tt))

truncate_params-Truncated_example : Truncated str params (truncate_params str params)
truncate_params-Truncated_example = truncate_params-Truncated str (λ s. refl) params params-Distinct

abbrev row : Entry
row = record {
  id = 1;
  ts = 1000;
  source_ip = "internal";
  tool = "cmd_exec";
  params = "{}";
  ok_count = 1;
  failed_count = 0;
  outcomes = "[]";
  duration_ms = 5;
}

abbrev log : AuditLogger
log = record { rows = row ∷ []; last_id = 1; retention_days = 90 }

log-IsLog : IsLog log
log-IsLog = record { ascending = (omega arith, tt); below = (omega arith, tt) }

abbrev report : Report
report = record {
  tool = "cmd_exec";
  params = params;
  outcomes = nil;
  ok_count = 0;
  failed_count = 0;
  duration_ms = 5;
  source_ip = "internal";
}

abbrev calls : List Call
calls = writes 1200 report ∷ cleans 80000 1 ∷ []

log_stays : IsLog (run str dumps calls log)
log_stays = run-IsLog str dumps calls log log-IsLog

keeps_row : Has (run str dumps calls log).rows row
keeps_row = run-Has str dumps calls log row (tt, (omega arith, tt)) (inl refl)

abbrev runs : List (String × Visit)
runs = (host_a, visit_a) ∷ []

run_audited-Logged_example :
    let r =
      run_audited str dumps message
        (some "cmd_exec")
        params
        1200
        5
        9000
        30
        shell
        []
        runs
        (idle_bridge, some log) in
    let results = (run_all 9000 30 shell [] runs idle_bridge).1 in
    Logged (row_texts str dumps (batch_entry message "cmd_exec" params 5 results)) r.1 1 log r.0.1
run_audited-Logged_example =
    run_audited-Logged str dumps message "cmd_exec" params 1200 5 9000 30 shell [] runs idle_bridge
      log
