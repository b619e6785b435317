-- ===== src/Server/Upgrade.antt =====
-- `upgrade_run` (src/mcp_socket_server/server.py) from the report of its batch on: the polling of the
-- targets that took the new version, and the summary.
pub mod Rounds
pub mod Polling
pub mod Sending
pub mod Run
use mcp_socket_server.Prelude.{
  ℕ, ◌+◌, ◌*◌, String, Bool, true, false, ◌&&◌, not, Option, none, some, List, [], ◌∷◌, ◌++◌, ◌==◌,
  string_eq, nat_eq, if◌then◌else◌, contains, keep_if, map, is_nonempty, length,
}
use mcp_socket_server.Text.{colon, has_char, before_last, after_last, is_digits, digits_value}
use mcp_socket_server.Pool.Scheduler.{not_confirmed}
use mcp_socket_server.Server.{Failure}

-- A target with the host and the port at which it is polled.
pub record Item : Type 0 where
  pub target : String
  pub host : String
  pub port : ℕ

-- host, sep, p = target.rpartition(":")
unfoldable pub poll_item : ℕ → String → Item
unfolding has_char before_last after_last is_digits digits_value
poll_item port target =
    if has_char colon target && is_digits (after_last colon target)
    then record {
      target = target;
      host = before_last colon target;
      port = digits_value (after_last colon target);
    }
    else record { target = target; host = target; port = port }

abbrev pub same_item : Item → Item → Bool
same_item i j = i.target == j.target && (i.host == j.host && i.port == j.port)

-- pending.remove(item)
unfoldable pub remove_item : Item → List Item → List Item
remove_item i [] = []
remove_item i (j ∷ items) = if same_item j i then items else j ∷ remove_item i items

-- What a probe of an item finds in one round: the version, or nothing where it raises.
abbrev pub Round : Type 0
Round = Item → Option String

abbrev pub is_version : String → Option String → Bool
is_version ver none = false
is_version ver (some v) = v == ver

-- `for item in list(pending)`: the items still to visit, those pending, and the confirmed targets
unfoldable pub visit_items :
    String → Round → List Item → List Item → List String → List Item × List String
unfolding remove_item
visit_items ver answer [] pending confirmed = (pending, confirmed)
visit_items ver answer (item ∷ items) pending confirmed =
    let found = visit_items ver answer items (remove_item item pending) (item.target ∷ confirmed) in
    let missed = visit_items ver answer items pending confirmed in
    if is_version ver (answer item) then found else missed

-- `while pending and time.time() < deadline`, on the rounds that begin before the deadline
unfoldable pub poll : String → List Round → List Item → List String → List String
unfolding visit_items
poll ver [] pending confirmed = confirmed
poll ver (answer ∷ rounds) [] confirmed = confirmed
poll ver (answer ∷ rounds) (item ∷ items) confirmed =
    let (pending, confirmed') = visit_items ver answer (item ∷ items) (item ∷ items) confirmed in
    poll ver rounds pending confirmed'

-- A target that took the new version, with the one that it had.
pub record Pushed : Type 0 where
  pub target : String
  pub from_version : String

abbrev unconfirmed : Pushed → Failure
unconfirmed r = record { target = r.target; reason = some not_confirmed }

-- The summary: who is confirmed, and the failures of the batch with those who are not.
unfoldable pub summary : List String → List Pushed → List Failure → List Pushed × List Failure
summary confirmed pushed failed = (
  keep_if (λ (r : Pushed). contains confirmed r.target) pushed,
  failed ++ map unconfirmed (keep_if (λ (r : Pushed). not (contains confirmed r.target)) pushed),
)

-- `upgrade_run` from the report of its batch on
unfoldable pub finish_upgrade :
    ℕ → String → List Round → List Pushed → List Failure → List Pushed × List Failure
unfolding poll_item poll summary
finish_upgrade port ver rounds pushed failed =
    let items = map (λ (r : Pushed). poll_item port r.target) pushed in
    summary (poll ver rounds items []) pushed failed
