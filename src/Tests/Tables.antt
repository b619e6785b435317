-- ===== src/Tests/Tables.antt =====
-- Tests of the target registry (src/mcp_socket_server/registry.py).
use mathlib.Core.List.{Perm}
use mcp_socket_server.Prelude.{
  ◌≡◌, refl, true, ◌&&◌, not, none, some, [], ◌∷◌, if◌then◌else◌, ok, err,
}
use mcp_socket_server.Registry.{
  empty_registry, find_row, is_found, add_target, remove_target, set_listen_liveness,
  get_listen_liveness, list_targets, resolve, no_such_target,
}
use mcp_socket_server.Registry.Table.{
  IsTable, new_row, same_key, find_row-add_target, find_row-remove_target, get-set_listen_liveness,
}
use mcp_socket_server.Registry.Listing.{adds, removes, run, run-IsTable, Ordered, list_targets_all}
use mcp_socket_server.Registry.Resolve.{denote_all, resolve-denotes, IsPlain, resolve_idem}
use mcp_socket_server.Text.{starts_with_char, has_char, is_digits, after_char}
use mcp_socket_server.Tests.Fixtures.{host_a, one_row}

find_row-remove_target_run :
    (find_row host_a 9000 (remove_target host_a 9000 one_row).0.rows
      ≡ (if same_key host_a 9000 host_a 9000 then none else find_row host_a 9000 one_row.rows))
    × ((remove_target host_a 9000 one_row).1
        ≡ (if is_found (find_row host_a 9000 one_row.rows) then ok tt else err no_such_target))
find_row-remove_target_run = find_row-remove_target host_a 9000 one_row host_a 9000

get-set_listen_liveness_run :
    get_listen_liveness host_a 9000 (set_listen_liveness host_a true 9000 one_row) ≡ (
      if same_key host_a 9000 host_a 9000
      then is_found (find_row host_a 9000 one_row.rows) && true
      else get_listen_liveness host_a 9000 one_row)
get-set_listen_liveness_run = get-set_listen_liveness host_a 9000 one_row true host_a 9000

run-IsTable_example : IsTable (
    run
      (adds host_a 9000 none "" 3 ∷ adds host_a 9000 none "" 4 ∷ removes host_a 9000 ∷ [])
      empty_registry)
run-IsTable_example =
    run-IsTable (adds host_a 9000 none "" 3 ∷ adds host_a 9000 none "" 4 ∷ removes host_a 9000 ∷ [])

list_targets_all_run :
    (Ordered (list_targets none one_row) × Perm (list_targets none one_row) one_row.rows)
    × (list_targets (some []) one_row ≡ list_targets none one_row)
list_targets_all_run = list_targets_all one_row

resolve-denotes_example :
    resolve ("@lab" ∷ "10.0.0.9:9100" ∷ []) one_row
    ≡ denote_all one_row.rows ("@lab" ∷ "10.0.0.9:9100" ∷ [])
resolve-denotes_example = resolve-denotes ("@lab" ∷ "10.0.0.9:9100" ∷ []) one_row

row_a-IsPlain : IsPlain host_a
unfolding starts_with_char has_char is_digits after_char
row_a-IsPlain = record { no_tag = refl; no_port = refl }

resolve_idem_run :
    resolve (resolve ("@lab" ∷ "10.0.0.9:9100" ∷ []) one_row) one_row
    ≡ resolve ("@lab" ∷ "10.0.0.9:9100" ∷ []) one_row
resolve_idem_run = resolve_idem ("@lab" ∷ "10.0.0.9:9100" ∷ []) one_row (row_a-IsPlain, tt)

find_row-add_target_run :
    find_row host_a 9000 (add_target host_a 9000 (some ("x" ∷ [])) "" 9 one_row).rows ≡ (
      if same_key host_a 9000 host_a 9000 && not (is_found (find_row host_a 9000 one_row.rows))
      then some (new_row one_row host_a 9000 (some ("x" ∷ [])) "" 9)
      else find_row host_a 9000 one_row.rows)
find_row-add_target_run = find_row-add_target host_a 9000 (some ("x" ∷ [])) "" 9 one_row host_a 9000
