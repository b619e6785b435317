-- ===== src/Tests/Settings.antt =====
-- Tests of the configuration, of the replies and of the polling (src/mcp_socket_server/config.py,
-- socket_client.py and server.py).
use mcp_socket_server.Prelude.{
  ◌+◌, String, ◌≡◌, refl, ◌&&◌, none, some, List, [], ◌∷◌, length, contains, map, string_eq,
  if◌then◌else◌, ◌==◌,
}
use mcp_socket_server.Value.{Fields, end, field, text, num, dict, get}
use mcp_socket_server.Text.Signed.{pos, negsuc, number_of}
use mcp_socket_server.Agent.Replies.{cmd_exec_result}
use mcp_socket_server.Agent.Replies.Limits.{Limited, cmd_exec_result-Limited}
use mcp_socket_server.Config.{defaults, deep_merge}
use mcp_socket_server.Config.Merging.{merged, get-deep_merge}
use mcp_socket_server.Server.Upgrade.{Round, Pushed, poll_item, finish_upgrade}
use mcp_socket_server.Server.Upgrade.Rounds.{found}
use mcp_socket_server.Server.Upgrade.Polling.{finish_upgrade_all}
use mcp_socket_server.Tests.Fixtures.{host_a}

abbrev short_reply : Fields
short_reply = field "code" (num 0) (field "stdout" (text "done") end)

cmd_exec_result-Limited_run :
    (cut : Fields) × (cmd_exec_result (dict short_reply) ≡ dict cut) × Limited short_reply cut
cmd_exec_result-Limited_run = cmd_exec_result-Limited short_reply

reads_numbers :
    map number_of (" -1_000" ∷ "+7" ∷ "1__0" ∷ "_1" ∷ "- 1" ∷ "" ∷ [])
    ≡ some (negsuc 999) ∷ some (pos 7) ∷ none ∷ none ∷ none ∷ none ∷ []
unfolding number_of
reads_numbers = refl

-- A file that sets one entry of a nested dict.
abbrev file : Fields
file = field "bind" (dict (field "port" (num 9090) end)) end

get-deep_merge_example :
    get "bind" (deep_merge defaults file) ≡ merged (get "bind" defaults) (get "bind" file)
unfolding get
get-deep_merge_example = get-deep_merge "bind" defaults file (refl, tt)

abbrev pushed : List Pushed
pushed =
    record { target = host_a; from_version = "1.8.0" }
    ∷ record { target = "10.0.0.6"; from_version = "1.8.1" }
    ∷ []

-- The first target comes back in the second round, the other not at all.
abbrev later : Round
later i = if i.target == host_a then some "1.9.0" else none

abbrev rounds : List Round
rounds = (λ i. none) ∷ later ∷ []

finish_upgrade_all_run :
    let r = finish_upgrade 9000 "1.9.0" rounds pushed [] in
    (length (r.0) + length (r.1) ≡ 2)
    × ((t : String)
        → contains (map (λ (p : Pushed). p.target) r.0) t ≡ (
            contains (map (λ (p : Pushed). p.target) pushed) t
            && found "1.9.0" rounds (poll_item 9000 t)))
finish_upgrade_all_run = finish_upgrade_all 9000 "1.9.0" rounds pushed []
