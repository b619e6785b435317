-- ===== src/Server/Targets.antt =====
-- The tools `list_targets`, `add_target` and `remove_target` (src/mcp_socket_server/server.py).
pub mod Guards
use mcp_socket_server.Prelude.{
  ℕ, String, Bool, true, false, Option, none, some, List, [], ◌∷◌, if◌then◌else◌, Result, ok, err,
}
use mcp_socket_server.Errors.{Exn}
use mcp_socket_server.Text.{strip, is_bracket}
use mcp_socket_server.Locks.Manager.{has_active}
use mcp_socket_server.Registry
use mcp_socket_server.Registry.{Registry, Row, RemoveError, get_listen_liveness}
use mcp_socket_server.Server.{Bridge}

-- The texts under "error", by what they say.
pub data Refusal : Type 0 where
  no_registry : Refusal
  unreachable : Exn → Refusal
  active_lock : Refusal
  active_listen : Refusal
  not_registered : RemoveError → Refusal

-- `list_targets()`
unfoldable pub list_targets : Bridge → List Row
unfolding Registry.list_targets
list_targets b = elim b.registry [ none ↦ [] | some r ↦ Registry.list_targets none r ]

abbrev register :
    String
    → ℕ
    → Option (List String)
    → String
    → ℕ
    → Bridge
    → Option Registry
    → Bridge × Result Refusal (Unit {0})
register host port tags note now b none = (b, err no_registry)
register host port tags note now b (some r) =
    (record b { registry = some (Registry.add_target host port tags note now r) }, ok tt)

-- `probe` is the answer of the connection that is tried unless `force` is set.
unfoldable pub add_target :
    String
    → ℕ
    → Option (List String)
    → String
    → Bool
    → Result Exn (Unit {0})
    → ℕ
    → Bridge
    → Bridge × Result Refusal (Unit {0})
unfolding strip is_bracket Registry.add_target
add_target host port tags note force probe now b =
    let host_clean = strip is_bracket host in
    let added = register host_clean port tags note now b b.registry in
    if force then added else elim probe [ ok _ ↦ added | err e ↦ (b, err (unreachable e)) ]

-- _lock_manager is not None and _lock_manager.has_active(host)
unfoldable pub is_locked : String → Bridge → Bool
unfolding has_active
is_locked host b = elim b.lock_manager [ none ↦ false | some m ↦ has_active host m ]

abbrev removed :
    Bridge → Registry × Result RemoveError (Unit {0}) → Bridge × Result Refusal (Unit {0})
removed b (r, ok _) = (record b { registry = some r }, ok tt)
removed b (r, err e) = (record b { registry = some r }, err (not_registered e))

unfoldable pub remove_target : String → ℕ → Bridge → Bridge × Result Refusal (Unit {0})
unfolding is_locked get_listen_liveness Registry.remove_target
remove_target host port b = elim b.registry [
  | none ↦ (b, err no_registry)
  | some r ↦
      if is_locked host b
      then (b, err active_lock)
      else if get_listen_liveness host port r
      then (b, err active_listen)
      else removed b (Registry.remove_target host port r)
]
