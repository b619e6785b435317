-- ===== src/Registry.antt =====
-- The target registry (src/mcp_socket_server/registry.py): the rows of the SQLite table `targets`, and
-- what each method's statement does to them. Every method runs under `_lock`.
pub mod Table
pub mod Resolve
pub mod Listing
use mcp_socket_server.Prelude.{
  ℕ, ◌+◌, ◌≤◌, String, Bool, true, false, ◌&&◌, ◌||◌, not, Option, none, some, List, [], ◌∷◌, ◌++◌,
  ◌==◌, nat_eq, string_eq, if◌then◌else◌, leb, all, contains, Dict, lookup, insert, is_nonempty,
  keep_if, Result, ok, err,
}
use mcp_socket_server.Text.{
  colon, at_sign, has_char, starts_with_char, drop_first, after_char, before_char, is_digits,
}

pub record Row : Type 0 where
  pub id : ℕ
  pub host : String
  pub port : ℕ
  pub tags : List String
  pub note : String
  pub created_at : ℕ
  pub listen_liveness : Bool

-- The rows in the order of their ids; `last_id` is what AUTOINCREMENT remembers.
pub record Registry : Type 0 where
  pub rows : List Row
  pub last_id : ℕ

abbrev pub empty_registry : Registry
empty_registry = record { rows = []; last_id = 0 }

-- WHERE host=? AND port=?
abbrev pub at_key : String → ℕ → Row → Bool
at_key host port row = row.host == host && row.port == port

unfoldable pub find_row : String → ℕ → List Row → Option Row
find_row host port [] = none
find_row host port (row ∷ rows) = if at_key host port row then some row else find_row host port rows

abbrev pub is_found : Option Row → Bool
is_found none = false
is_found (some _) = true

-- tags or []
abbrev pub tags_or_empty : Option (List String) → List String
tags_or_empty none = []
tags_or_empty (some tags) = tags

-- INSERT OR IGNORE: nothing happens if the table has a row of this host and port.
unfoldable pub add_target : String → ℕ → Option (List String) → String → ℕ → Registry → Registry
unfolding find_row
add_target host port tags note now r = if is_found (find_row host port r.rows) then r else record {
  rows =
      r.rows
      ++ (record {
        id = r.last_id + 1;
        host = host;
        port = port;
        tags = tags_or_empty tags;
        note = note;
        created_at = now;
        listen_liveness = false;
      })
        ∷ [];
  last_id = r.last_id + 1;
}

unfoldable pub delete_rows : String → ℕ → List Row → List Row
delete_rows host port = keep_if λ row. not (at_key host port row)

pub data RemoveError : Type 0 where
  no_such_target : RemoveError

-- DELETE, and an error if `rowcount` is 0
unfoldable pub remove_target : String → ℕ → Registry → Registry × Result RemoveError (Unit {0})
unfolding find_row delete_rows
remove_target host port r = (
  record r { rows = delete_rows host port r.rows },
  if is_found (find_row host port r.rows) then ok tt else err no_such_target,
)

unfoldable pub update_liveness : String → ℕ → Bool → List Row → List Row
update_liveness host port alive [] = []
update_liveness host port alive (row ∷ rows) =
    (if at_key host port row then record row { listen_liveness = alive } else row)
    ∷ update_liveness host port alive rows

unfoldable pub set_listen_liveness : String → Bool → ℕ → Registry → Registry
unfolding update_liveness
set_listen_liveness host alive port r = record r { rows = update_liveness host port alive r.rows }

-- bool(row and row[0])
unfoldable pub get_listen_liveness : String → ℕ → Registry → Bool
unfolding find_row
get_listen_liveness host port r = elim (find_row host port r.rows) [
  | none ↦ false
  | some row ↦ row.listen_liveness
]

-- all(t in row_tags for t in tags)
abbrev pub has_tags : List String → Row → Bool
has_tags tags row = all (λ t. contains row.tags t) tags

-- ORDER BY created_at; rows of one time stay in the order of their ids.
unfoldable pub insert_by_time : Row → List Row → List Row
insert_by_time row [] = row ∷ []
insert_by_time row (r ∷ rows) =
    if leb row.created_at r.created_at then row ∷ r ∷ rows else r ∷ insert_by_time row rows

unfoldable pub sort_by_time : List Row → List Row
unfolding insert_by_time
sort_by_time [] = []
sort_by_time (row ∷ rows) = insert_by_time row (sort_by_time rows)

unfoldable pub list_targets : Option (List String) → Registry → List Row
unfolding sort_by_time
list_targets none r = sort_by_time r.rows
list_targets (some tags) r =
    if is_nonempty tags then keep_if (has_tags tags) r.rows else sort_by_time r.rows

-- tag_map.setdefault(t, []).append(host)
unfoldable pub append_host : String → String → Dict String (List String) → Dict String (List String)
append_host t host m = elim (lookup t m) [
  | none ↦ insert t (host ∷ []) m
  | some hosts ↦ insert t (hosts ++ host ∷ []) m
]

unfoldable pub append_tags :
    List String → String → Dict String (List String) → Dict String (List String)
unfolding append_host
append_tags [] host m = m
append_tags (t ∷ tags) host m = append_tags tags host (append_host t host m)

unfoldable pub build_tag_map : List Row → Dict String (List String) → Dict String (List String)
unfolding append_tags
build_tag_map [] m = m
build_tag_map (row ∷ rows) m = build_tag_map rows (append_tags row.tags row.host m)

-- tag_map.get(tag, [])
abbrev pub hosts_of : String → Dict String (List String) → List String
hosts_of tag m = elim (lookup tag m) [ none ↦ [] | some hosts ↦ hosts ]

-- One turn of the loop over `targets`. `not x is False`, for a Boolean x, is x.
unfoldable pub resolve_item : Dict String (List String) → String → List String
unfolding starts_with_char drop_first has_char is_digits after_char before_char
resolve_item m item =
    if starts_with_char at_sign item
    then hosts_of (drop_first item) m
    else if has_char colon item && is_digits (after_char colon item)
    then before_char colon item ∷ []
    else item ∷ []

unfoldable pub resolve_items : Dict String (List String) → List String → List String
unfolding resolve_item
resolve_items m [] = []
resolve_items m (item ∷ items) = resolve_item m item ++ resolve_items m items

unfoldable pub resolve : List String → Registry → List String
unfolding build_tag_map resolve_items
resolve targets r = resolve_items (build_tag_map r.rows []) targets
