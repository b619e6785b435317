-- ===== src/Tests/Listening.antt =====
-- Tests of the tool `socket_listen` (src/mcp_socket_server/server.py).
use mcp_socket_server.Prelude.{
  ℕ, String, ◌≡◌, refl, true, false, List, lookup, some, [], ◌∷◌, if◌then◌else◌, ok, err, string_eq,
  nat_eq, ℕ_discrete,
}
use mcp_socket_server.Text.{split_dots}
use mcp_socket_server.Text.Signed.{number_of}
use mcp_socket_server.Value.{Value, text, null, num, dict, field, end}
use mcp_socket_server.Locks.Manager.{new_lock_manager, acquire}
use mcp_socket_server.Registry.{Registry, get_listen_liveness, find_row}
use mcp_socket_server.Registry.Table.{same_key}
use mcp_socket_server.Server.{Bridge}
use mcp_socket_server.Server.Targets.{Refusal, remove_target}
use mcp_socket_server.Server.Listening.{
  Fetched, run_start, run_stop, run_fetch, supports_stop, parse_numbers, tuple_ge,
}
use mcp_socket_server.Server.Listening.Marks.{
  Cut, run_start-remove_target, run_stop-get_listen_liveness, run_fetch-Cut,
}
use mcp_socket_server.Locks.Manager.Exclusion.{new_lock_manager-AllValid}
use mcp_socket_server.Agent.{Codec}
use mcp_socket_server.Agent.Replies.{listen_start_result}
use mcp_socket_server.Pool.{pop_idle}
use mcp_socket_server.Wire.{piece, silence, send_frame, pack_int, recv_until_timeout}
use mcp_socket_server.Server.Reads
use mcp_socket_server.Server.Listening.Tool.{action_of, socket_listen}
use mcp_socket_server.Server.Listening.Tool.Keeping.{Kept, is_marked, socket_listen-Kept}
use mcp_socket_server.Tests.Fixtures.{host_a, one_row, visit_a, idle_bridge}
use mcp_socket_server.Tests.Tools.{codec, sock}

abbrev listening_bridge : Bridge
listening_bridge = record {
  lock_manager = some new_lock_manager;
  registry = (run_start host_a 9000 (ok null) (ok (text "1.8.0")) (some one_row)).0;
  scheduler = record { pools = [] };
}

run_start-remove_target_example :
    (x : Refusal) × ((remove_target host_a 9000 listening_bridge).1 ≡ err x)
unfolding find_row supports_stop parse_numbers tuple_ge split_dots number_of string_eq nat_eq
    ℕ_discrete
run_start-remove_target_example =
    run_start-remove_target host_a 9000 null (ok (text "1.8.0")) one_row new_lock_manager
      listening_bridge refl refl refl refl

run_stop-get_listen_liveness_run :
    (r' : Registry) × ((run_stop host_a 9000 (ok null) (some one_row)).0 ≡ some r')
    × ((h : String) (p : ℕ)
        → get_listen_liveness h p r'
          ≡ (if same_key host_a 9000 h p then false else get_listen_liveness h p one_row))
run_stop-get_listen_liveness_run = run_stop-get_listen_liveness host_a 9000 null one_row

run_fetch-Cut_run :
    (f : Fetched) × (run_fetch 2 "/home/tmp/l.log" (ok (7 ∷ 8 ∷ 9 ∷ [])) (ok null) ≡ ok f)
    × Cut 2 (7 ∷ 8 ∷ 9 ∷ []) f
run_fetch-Cut_run = run_fetch-Cut 2 "/home/tmp/l.log" (7 ∷ 8 ∷ 9 ∷ []) null

-- A target that begins to listen, and then says its version.
abbrev start_answer : List ℕ → Value
start_answer [] = null
start_answer (b ∷ []) = dict (field "pid" (num 7) end)
start_answer bs = text "1.8.0"

abbrev start_codec : Codec
start_codec = record codec { loads = λ bs. ok (start_answer bs) }

abbrev start_turn : Reads.Turn
start_turn = record {
  visit = visit_a;
  sock = record sock { incoming = piece (1 ∷ []) ∷ silence ∷ piece (1 ∷ 2 ∷ []) ∷ silence ∷ [] };
}

abbrev encode : List ℕ → String
encode bs = ""

abbrev listed_bridge : Bridge
listed_bridge = record idle_bridge { registry = some one_row }

abbrev listening : Bridge
listening =
    (socket_listen 9000 30 start_codec encode 1000 "/home/tmp/l.log" (host_a ∷ []) "start" 30001 ""
      ((host_a, start_turn) ∷ []) listed_bridge).0

socket_listen-Kept_example :
    Kept (action_of "start" 30001 "") new_lock_manager listed_bridge listening
socket_listen-Kept_example =
    socket_listen-Kept start_codec encode 9000 1000 30 "/home/tmp/l.log" (host_a ∷ []) "start" 30001
      "" ((host_a, start_turn) ∷ []) new_lock_manager listed_bridge refl new_lock_manager-AllValid

listens : is_marked host_a 9000 listening.registry ≡ true
unfolding socket_listen string_eq acquire lookup pop_idle send_frame pack_int recv_until_timeout
    listen_start_result get_listen_liveness ℕ_discrete
listens = refl
