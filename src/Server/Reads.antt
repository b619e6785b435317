-- ===== src/Server/Reads.antt =====
-- The read-only tools `version`, `isfile`, `isdir` and `pcap_flow_extract`
-- (src/mcp_socket_server/server.py): one call of the client on each target, through `Scheduler.batch`.
pub mod Cuts
pub mod Delivery
use mcp_socket_server.Prelude.{
  ℕ, String, Bool, true, false, List, [], ◌∷◌, if◌then◌else◌, ltb, map, keep_if, Result, ok, err,
}
use mcp_socket_server.Errors.{Exn, other_error}
use mcp_socket_server.Text.{text_length, text_take}
use mcp_socket_server.Value.{
  Value, Items, nil, Fields, field, end, text, list, items_length, items_take, truthy,
}
use mcp_socket_server.Pool.{Client}
use mcp_socket_server.Pool.Scheduler.{Scheduler, TargetResult, Visit, batch}
use mcp_socket_server.Wire.{Exec, Sock}
use mcp_socket_server.Agent.{Codec}
use mcp_socket_server.Agent.Calls
use mcp_socket_server.Server.{Failure, failed, count_ok}

-- What a run meets, with the socket of its client in place of a function.
pub record Turn : Type 0 where
  pub visit : Visit
  pub sock : Sock

-- `fn` is a call of the client.
unfoldable pub call_on : (Client → Exec Value) → String × Turn → String × Visit
call_on call (host, t) = (host, record t.visit { fn = λ c. (c, (call c t.sock).0) })

-- {"target": r.target, <key>: r.data} for each success
abbrev pub entry : String → TargetResult → Fields
entry key r = field "target" (text r.target) (field key r.value end)

pub record ReadReport : Type 0 where
  pub ok : ℕ
  pub failed : List Failure
  pub results : List Fields

unfoldable pub read_report : String → List TargetResult → ReadReport
unfolding failed count_ok
read_report key results = record {
  ok = count_ok results;
  failed = failed results;
  results = map (entry key) (keep_if (λ (r : TargetResult). r.ok) results);
}

module _ (codec : Codec) (port timeout : ℕ) (turns : List (String × Turn)) (s : Scheduler) where
  -- The runs on the resolved targets, in the order in which they complete.
  unfoldable pub run_reads : (Client → Exec Value) → Scheduler × List TargetResult
  unfolding batch call_on
  run_reads call = batch port timeout (map (call_on call) turns) s

  unfoldable pub version : Scheduler × ReadReport
  unfolding run_reads read_report Calls.version
  version =
      let (s', results) = run_reads (λ c. Calls.version codec c) in
      (s', read_report "version" results)

  unfoldable pub isfile : String → Scheduler × ReadReport
  unfolding run_reads read_report Calls.isfile
  isfile path =
      let (s', results) = run_reads (λ c. Calls.isfile codec c path) in
      (s', read_report "exists" results)

  unfoldable pub isdir : String → Scheduler × ReadReport
  unfolding run_reads read_report Calls.isdir
  isdir path =
      let (s', results) = run_reads (λ c. Calls.isdir codec c path) in
      (s', read_report "exists" results)

abbrev pub max_flows : ℕ
max_flows = 1000

-- The flows of one target as they are reported.
pub record Flows : Type 0 where
  pub target : String
  pub flows : Value
  pub total : ℕ
  pub truncated : Bool

abbrev pub type_error : Exn
type_error = other_error "TypeError"

-- flows = r.data or [], then flows[:1000] and len(flows), which a number or a dict does not have
unfoldable pub flows_of : String → Value → Result Exn Flows
unfolding items_length items_take text_length text_take truthy
flows_of target (list vs) = ok (record {
  target = target;
  flows = list (items_take max_flows vs);
  total = items_length vs;
  truncated = ltb max_flows (items_length vs);
})
flows_of target (text s) =
    if truthy (text s)
    then ok (record {
      target = target;
      flows = text (text_take max_flows s);
      total = text_length s;
      truncated = ltb max_flows (text_length s);
    })
    else ok (record { target = target; flows = list nil; total = 0; truncated = false })
flows_of target v =
    if truthy v
    then err type_error
    else ok (record { target = target; flows = list nil; total = 0; truncated = false })

-- `out`: an exception ends the tool
unfoldable pub cut_flows : List TargetResult → Result Exn (List Flows)
unfolding flows_of
cut_flows [] = ok []
cut_flows (r ∷ results) =
    let rest = cut_flows results in
    if r.ok
    then elim (flows_of r.target r.value) as (λ _. Result Exn (List Flows)) [
      | err e ↦ err e
      | ok f ↦ elim rest as (λ _. Result Exn (List Flows)) [ err e ↦ err e | ok fs ↦ ok (f ∷ fs) ]
    ]
    else rest

pub record FlowReport : Type 0 where
  pub ok : ℕ
  pub failed : List Failure
  pub results : List Flows

unfoldable pub flow_report : List TargetResult → Result Exn FlowReport
unfolding cut_flows failed count_ok
flow_report results = elim (cut_flows results) as (λ _. Result Exn FlowReport) [
  | err e ↦ err e
  | ok fs ↦ ok (record { ok = count_ok results; failed = failed results; results = fs })
]

unfoldable pub pcap_flow_extract :
    Codec → ℕ → ℕ → String → List (String × Turn) → Scheduler → Scheduler × Result Exn FlowReport
unfolding run_reads flow_report Calls.pcap_flow_extract
pcap_flow_extract codec port timeout pcap_dir turns s =
    let (s', results) =
      run_reads codec port timeout turns s (λ c. Calls.pcap_flow_extract codec c pcap_dir) in
    (s', flow_report results)
