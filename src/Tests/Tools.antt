-- ===== src/Tests/Tools.antt =====
-- Tests of the other tools (src/mcp_socket_server/server.py).
use mcp_socket_server.Prelude.{
  ◌≤◌, String, string_eq, ◌≡◌, refl, true, false, none, some, List, [], ◌∷◌, ◌++◌, Result, lookup,
  arith, length, ok,
}
use mcp_socket_server.Errors.{Exn}
use mcp_socket_server.Text.{has_char}
use mcp_socket_server.Value.{Value, nil, cons, null, num, text, dict, list, bool, field, end}
use mcp_socket_server.Pool.Scheduler.{
  acquire, get_pool, TargetResult, succeeded, failed_with, agent_false,
}
use mcp_socket_server.Wire.{Sock, piece}
use mcp_socket_server.Wire.Ints.{int_bytes}
use mcp_socket_server.Wire.Reading.{content}
use mcp_socket_server.Wire.Frames.{frame}
use mcp_socket_server.Pool.{Client, TargetPool, pop_idle}
use mcp_socket_server.Agent.{Codec}
use mcp_socket_server.Upgrades.{new_checker}
use mcp_socket_server.Upgrades.Push.{authority}
use mcp_socket_server.Server.Transfers.{target_host}
use mcp_socket_server.Server.Transfers.Hosts.{target_host-authority}
use mcp_socket_server.Server.Upgrade.{Round}
use mcp_socket_server.Server.Upgrade.Sending.{Answers, Refusal, attempt}
use mcp_socket_server.Server.Upgrade.Sending.Gates.{Gated, attempt-Gated}
use mcp_socket_server.Server.Upgrade.Run
use mcp_socket_server.Server.Upgrade.Run.{Desk, upgrade_run}
use mcp_socket_server.Server.Upgrade.Run.Accounts.{Accounted, upgrade_run-Accounted}
use mcp_socket_server.Server.Reads
use mcp_socket_server.Server.Reads.{flow_report, pcap_flow_extract}
use mcp_socket_server.Server.Reads.Delivery.{flows_report, pcap_flow_extract-delivers}
use mcp_socket_server.Server.Reads.Cuts.{Explained, flow_report-Explained}
use mcp_socket_server.Server.Writes.{is_allowed}
use mcp_socket_server.Server.Captures.{capture_stop}
use mcp_socket_server.Server.Captures.Reports.{shown_details, capture_stop-Accounts}
use mcp_socket_server.Server.Batch.Reports.{Accounts}
use mcp_socket_server.Tests.Fixtures.{host_a, visit_a, idle_bridge}
use mcp_socket_server.Tests.Upgrades.{counting, online, page}

target_host-authority_example : target_host (authority "fd00::5" 9001) ≡ "fd00::5"
unfolding has_char
target_host-authority_example = target_host-authority "fd00::5" 9001 refl refl

-- A target that answers each call.
abbrev willing : Answers
willing = record {
  version = ok (text "1.8.2");
  read = ok (1 ∷ 2 ∷ 3 ∷ []);
  service = λ post. ok (dict (field "ok" (bool true) end));
  apply = λ ver sum force. ok (dict (field "ok" (bool true) end));
}

abbrev str : Value → String
str (text s) = s
str v = "?"

abbrev message : Refusal → Value
message r = text "refused"

attempt-Gated_example :
    Gated str host_a "./v1.9.0/socket_server" "1.9.0" "3" false willing
      (attempt str host_a "./v1.9.0/socket_server" "1.9.0" "3" false willing)
attempt-Gated_example = attempt-Gated str host_a "./v1.9.0/socket_server" "1.9.0" "3" false willing

goes_through :
    (attempt str host_a "./v1.9.0/socket_server" "1.9.0" "3" false willing).1 ≡ ok "1.8.2"
unfolding attempt string_eq
goes_through = refl

abbrev turns : List (String × Run.Turn)
turns = (host_a, record { visit = visit_a; answers = willing }) ∷ []

abbrev rounds : List Round
rounds = (λ i. none) ∷ (λ i. some "1.9.0") ∷ []

abbrev desk : Desk
desk = record { bridge = idle_bridge; checker = new_checker; disk = [] }

upgrade_run-Accounted_example : Accounted counting str message false 9000 turns rounds idle_bridge (
    upgrade_run counting str message false 9000 60 "./downloads"
      (host_a ∷ [])
      ""
      page
      online
      turns
      rounds
      desk)
upgrade_run-Accounted_example =
    upgrade_run-Accounted counting str message false 9000 60 "./downloads" (host_a ∷ []) "" page
      online turns rounds desk

abbrev answers : List TargetResult
answers =
    succeeded host_a (list (cons (num 1) (cons (num 2) nil)))
    ∷ succeeded "10.0.0.6" null
    ∷ failed_with "10.0.0.7" agent_false null
    ∷ []

flow_report-Explained_example : Explained answers (flow_report answers)
flow_report-Explained_example = flow_report-Explained answers

abbrev pub codec : Codec
codec = record {
  dumps = λ v. [];
  loads = λ bs. ok (dict (field "stdout" (text "x") end));
  gunzip = λ bs. ok bs;
}

abbrev pub sock : Sock
sock = record { incoming = []; sent = []; timeout = 0; refuses = none }

abbrev reads : List (String × Reads.Turn)
reads = (host_a, record { visit = visit_a; sock = sock }) ∷ []

bars : is_allowed ("ls" ∷ []) " cat ls" ≡ false
unfolding is_allowed
bars = refl

allows : is_allowed ("ls" ∷ []) " ls -l" ≡ true
unfolding is_allowed
allows = refl

capture_stop-Accounts_run :
    let rep = (capture_stop 9000 30 "/home/tmp/a.pcap" ((host_a, visit_a) ∷ []) idle_bridge).1 in
    Accounts 1 rep.report × (length (shown_details rep.failed_details) ≤ length rep.report.failed)
capture_stop-Accounts_run =
    capture_stop-Accounts 9000 30 "/home/tmp/a.pcap" ((host_a, visit_a) ∷ []) idle_bridge

-- An agent that answers with one flow, in a frame that comes in two pieces.
abbrev flow_codec : Codec
flow_codec = record codec { loads = λ bs. ok (list (cons (num 7) nil)) }

abbrev flow_turn : Reads.Turn
flow_turn = record {
  visit = visit_a;
  sock = record sock { incoming = piece (2 ∷ 0 ∷ []) ∷ piece (0 ∷ 0 ∷ 91 ∷ 93 ∷ []) ∷ [] };
}

abbrev lent : TargetPool × Result Exn Client
lent = acquire 30 visit_a (get_pool host_a 9000 idle_bridge.scheduler).0

abbrev lent_client : Client
lent_client = record { number = 0; host = host_a; port = 9000; timeout = 30; connected = true }

is_lent : lent ≡ (lent.0, ok lent_client)
unfolding acquire get_pool lookup pop_idle
is_lent = refl

comes : content flow_turn.sock.incoming ≡ frame (91 ∷ 93 ∷ []) ++ []
unfolding content int_bytes
comes = refl

pcap_flow_extract-delivers_example :
    (pcap_flow_extract flow_codec 9000 30 "/home/tmp"
      ((host_a, flow_turn) ∷ [])
      idle_bridge.scheduler).1
    ≡ ok (flows_report host_a (cons (num 7) nil))
pcap_flow_extract-delivers_example =
    pcap_flow_extract-delivers flow_codec 9000 30 "/home/tmp" host_a flow_turn idle_bridge.scheduler
      lent.0 lent_client (91 ∷ 93 ∷ []) [] (cons (num 7) nil) is_lent refl (omega arith) refl
      (omega arith) comes refl
