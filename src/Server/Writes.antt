-- ===== src/Server/Writes.antt =====
-- The tools `cmd_exec`, `capture_start`, `boce_run` and `replay_run`, and the checks of the arguments of
-- `socket_listen` (src/mcp_socket_server/server.py). Each runs one call of the client on every target,
-- through `_run_batch`.
pub mod Whitelist
use mcp_socket_server.Prelude.{
  ℕ, ◌+◌, ◌-◌, max, min, String, Bool, true, false, ◌&&◌, ◌||◌, not, Option, none, some, List, [],
  ◌∷◌, ◌==◌, string_eq, if◌then◌else◌, any, contains, is_nonempty, map, Result, ok, err,
}
use mcp_socket_server.Errors.{Exn}
use mcp_socket_server.Text.{is_blank, is_empty, strip, starts_with}
use mcp_socket_server.Value.{Value}
use mcp_socket_server.Commands.{capture, shell, browser, replay}
use mcp_socket_server.Pool.{Client}
use mcp_socket_server.Pool.Scheduler.{Visit, not_whitelisted, no_file, unknown_action, Reason}
use mcp_socket_server.Wire.{Exec}
use mcp_socket_server.Agent.{Codec}
use mcp_socket_server.Agent.Calls
use mcp_socket_server.Agent.Calls.{ReplayOptions}
use mcp_socket_server.Server.{Bridge, Failure, Report}
use mcp_socket_server.Server.Batch.{run_batch}
use mcp_socket_server.Server.Captures.{started}
use mcp_socket_server.Server.Reads.{Turn, call_on}

-- x or None
abbrev pub unless_empty : String → Option String
unless_empty s = if is_empty s then none else some s

-- {"ok": 0, "failed": […], "results": []}, with one reason for every target as it was named
unfoldable pub all_failed : Reason → List String → Report
all_failed reason targets = record {
  ok = 0;
  failed = map (λ t. record { target = t; reason = some reason }) targets;
  results = [];
}

-- any(args.strip().startswith(w) for w in _cmd_whitelist), where the list is not empty
unfoldable pub is_allowed : List String → String → Bool
unfolding strip is_blank
is_allowed whitelist args =
    not (is_nonempty whitelist) || any (λ w. starts_with (strip is_blank args) w) whitelist

-- The budget of the call itself, and the timeout of the socket around it.
abbrev pub inner_budget : ℕ → ℕ
inner_budget timeout = max 3 (timeout - 10)

abbrev pub outer_timeout : ℕ → ℕ
outer_timeout timeout = timeout + 10

module _ (codec : Codec) (port : ℕ) (targets : List String) (turns : List (String × Turn))
    (b : Bridge) where
  -- `turns` are the runs on the resolved targets, in the order in which they complete.
  unfoldable pub cmd_exec :
      List String → String → String → Option Value → Bool → ℕ → Bridge × Report
  unfolding is_allowed all_failed run_batch call_on Calls.cmd_exec
  cmd_exec whitelist args cwd env wait timeout =
      if is_allowed whitelist args
      then run_batch port (if wait then timeout else min timeout 15) shell []
          (map (call_on (λ c. Calls.cmd_exec codec c args (unless_empty cwd) env wait)) turns) b
      else (b, all_failed (not_whitelisted args) targets)

  -- `timeout` is at least 10, by the check of the parameter.
  unfoldable pub boce_run : String → ℕ → ℕ → ℕ → String → String → ℕ → Bridge × Report
  unfolding run_batch call_on Calls.boce_run
  boce_run url count interval thread_count mode chromium_path timeout =
      run_batch port (outer_timeout timeout) browser []
        (map
          (call_on (λ c.
            Calls.boce_run codec c url count interval thread_count (inner_budget timeout) mode
              (unless_empty chromium_path)))
          turns)
        b

  unfoldable pub replay_run : ReplayOptions → ℕ → Bridge × Report
  unfolding run_batch call_on Calls.replay_run
  replay_run options timeout =
      run_batch port timeout replay [] (map (call_on (λ c. Calls.replay_run codec c options)) turns)
        b

  -- The reply of the agent, judged.
  unfoldable pub start_call : String → String → String → Bool → String × Turn → String × Visit
  unfolding Calls.capture_start started
  start_call iface path extended single_queue (host, t) = (
    host,
    record t.visit {
      fn = λ c. (
        c,
        judged
            (Calls.capture_start codec c (unless_empty iface) (some path) extended single_queue
              t.sock).0,
      );
    },
  )
    where
      judged : Result Exn Value → Result Exn Value
      judged (err e) = err e
      judged (ok v) = started v

  unfoldable pub capture_start : String → String → String → Bool → ℕ → Bridge × Report
  unfolding run_batch start_call
  capture_start iface path extended single_queue timeout =
      run_batch port timeout capture (path ∷ [])
        (map (start_call iface path extended single_queue) turns) b

abbrev pub actions : List String
actions = "start" ∷ "stop" ∷ "clean" ∷ "save" ∷ "fetch" ∷ []

-- The reports with which `socket_listen` returns before it resolves its targets.
unfoldable pub check_listen : String → String → List String → Option Report
unfolding all_failed
check_listen action file targets =
    if action == "save" && is_empty file
    then some (all_failed no_file targets)
    else if contains actions action
    then none
    else some (all_failed (unknown_action action) targets)
