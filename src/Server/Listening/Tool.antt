-- ===== src/Server/Listening/Tool.antt =====
-- The tool `socket_listen` (src/mcp_socket_server/server.py) as a whole: the checks of its arguments, the
-- calls on each target, and the marks that they leave in the registry.
pub mod Keeping
use mcp_socket_server.Prelude.{
  ℕ, String, Bool, true, false, Option, none, some, List, [], ◌∷◌, ◌++◌, ◌==◌, string_eq,
  if◌then◌else◌, Result, ok, err,
}
use mcp_socket_server.Errors.{Exn, other_error}
use mcp_socket_server.Value.{Value, Fields, field, end, text, num, bool, bytes, dict}
use mcp_socket_server.Commands.{system}
use mcp_socket_server.Pool.{Client}
use mcp_socket_server.Pool.Scheduler.{Visit, TargetResult, acquire, get_pool}
use mcp_socket_server.Registry.{Registry}
use mcp_socket_server.Agent.{Codec}
use mcp_socket_server.Agent.Calls
use mcp_socket_server.Agent.Listen
use mcp_socket_server.Agent.Listen.{Action, starts, cleans, stops, saves, fetches, unknown}
use mcp_socket_server.Server.{Bridge, Report, report}
use mcp_socket_server.Server.Batch.{lock, run_one}
use mcp_socket_server.Server.Listening.{run_start, run_stop, run_fetch, Fetched}
use mcp_socket_server.Server.Reads.{Turn}
use mcp_socket_server.Server.Writes.{check_listen}

-- What the tool makes of its argument, when that has passed the checks.
unfoldable pub action_of : String → ℕ → String → Action
action_of action listen_port file =
    if action == "start"
    then starts listen_port
    else if action == "stop"
    then stops
    else if action == "clean"
    then cleans
    else if action == "save"
    then saves file
    else fetches

-- The content of a reply to `fetch`, which is always bytes.
abbrev content_of : Result Exn Value → Result Exn (List ℕ)
content_of (ok (bytes bs)) = ok bs
content_of (ok v) = err (other_error "TypeError")
content_of (err e) = err e

abbrev path_field : Option String → Fields
path_field none = end
path_field (some path) = field "file_path" (text path) end

-- `encode` is `base64.b64encode(…).decode()`.
module _ (codec : Codec) (encode : List ℕ → String) where
  abbrev fetched : Result Exn Fetched → Result Exn Value
  fetched (err e) = err e
  fetched (ok f) = ok (
      dict (
        field "size" (num f.size) (
          field "data_b64" (text (encode f.content))
            (field "truncated" (bool f.truncated) (path_field f.file_path)))))

  -- `run_one`: the registry that it leaves, and what it returns or raises. `file_path` is the name that
  -- a fetch makes of the clock.
  unfoldable pub act :
      ℕ → ℕ → String → Action → Turn → Option Registry → Client → Option Registry × Result Exn Value
  unfolding run_start run_stop run_fetch Calls.version Listen.socket_listen
  act port max_bytes file_path (starts listen_port) t r c =
      let (reply, s) = Listen.socket_listen codec c (starts listen_port) t.sock in
      run_start c.host port reply (Calls.version codec c s).0 r
  act port max_bytes file_path stops t r c =
      run_stop c.host port (Listen.socket_listen codec c stops t.sock).0 r
  act port max_bytes file_path fetches t r c =
      let (reply, s) = Listen.socket_listen codec c fetches t.sock in
      let saved = (Listen.socket_listen codec c (saves file_path) s).0 in
      (r, fetched (run_fetch max_bytes file_path (content_of reply) saved))
  act port max_bytes file_path action t r c = (r, (Listen.socket_listen codec c action t.sock).0)

module _ (port timeout : ℕ) where
  -- The client on which a run of `_run_batch` calls its function, if it comes to that.
  unfoldable pub lent : String → Visit → Bridge → Option Client
  unfolding lock acquire get_pool
  lent host v b = elim (lock host system [] b).1 [
    | err e ↦ none
    | ok _ ↦ elim (acquire timeout v (get_pool host port (lock host system [] b).0.scheduler).0).1 [
      | err e ↦ none
      | ok c ↦ some c
    ]
  ]

  abbrev registry_after :
      (Client → Option Registry × Result Exn Value)
      → Option Registry
      → Option Client
      → Option Registry
  registry_after fn r none = r
  registry_after fn r (some c) = (fn c).0

  -- `run_one` of `_run_batch`, which leaves the registry alone, and what its function does to it
  unfoldable pub listen_one :
      String
      → Visit
      → (Client → Option Registry × Result Exn Value)
      → Bridge
      → Bridge × TargetResult
  unfolding lent run_one
  listen_one host v fn b =
      let (b', result) =
        run_one port timeout system [] host (record v { fn = λ c. (c, (fn c).1) }) b in
      (record b' { registry = registry_after fn b.registry (lent host v b) }, result)

  module _ (codec : Codec) (encode : List ℕ → String) (max_bytes : ℕ) (file_path : String) where
    unfoldable pub listen_all : Action → List (String × Turn) → Bridge → Bridge × List TargetResult
    unfolding listen_one act
    listen_all action [] b = (b, [])
    listen_all action ((host, t) ∷ turns) b =
        let (b1, result) =
          listen_one host t.visit (act codec encode port max_bytes file_path action t b.registry)
            b in
        let (b2, results) = listen_all action turns b1 in (b2, result ∷ results)

    -- The runs, unless the checks have already made the answer.
    abbrev pub listen_unless :
        Option Report → Action → List (String × Turn) → Bridge → Bridge × Report
    listen_unless (some rep) action turns b = (b, rep)
    listen_unless none action turns b =
        let (b', results) = listen_all action turns b in (b', report results)

    -- `turns` are the runs on the resolved targets, in the order in which they complete.
    unfoldable pub socket_listen :
        List String → String → ℕ → String → List (String × Turn) → Bridge → Bridge × Report
    unfolding check_listen listen_all action_of report
    socket_listen targets action listen_port file turns b =
        listen_unless (check_listen action file targets) (action_of action listen_port file) turns b
