-- ===== src/Server.antt =====
-- The tools of the MCP server (src/mcp_socket_server/server.py): the state that they share, and how they
-- report what became of each target.
pub mod Batch
pub mod Captures
pub mod Targets
pub mod Upgrade
pub mod Listening
pub mod Transfers
pub mod Reads
pub mod Writes
pub mod Audits
pub mod Starting
use mcp_socket_server.Prelude.{
  ℕ, ◌+◌, String, Bool, true, false, not, Option, none, some, List, [], ◌∷◌, if◌then◌else◌, keep_if,
  map, length,
}
use mcp_socket_server.Value.{Value, Fields, end, field, text, dict, merge, null}
use mcp_socket_server.Locks.Manager.{LockManager}
use mcp_socket_server.Pool.Scheduler.{Scheduler, TargetResult, Reason}
use mcp_socket_server.Registry.{Registry, resolve}

-- `_lock_manager` and `_registry`, which are None before `init_server`, and the scheduler.
pub record Bridge : Type 0 where
  pub lock_manager : Option LockManager
  pub registry : Option Registry
  pub scheduler : Scheduler

unfoldable pub resolve_targets : List String → Bridge → List String
unfolding resolve
resolve_targets raw b = elim b.registry [ none ↦ raw | some r ↦ resolve raw r ]

pub record Failure : Type 0 where
  pub target : String
  pub reason : Option Reason

abbrev pub failure : TargetResult → Failure
failure r = record { target = r.target; reason = r.error }

unfoldable pub failed : List TargetResult → List Failure
failed results = map failure (keep_if (λ (r : TargetResult). not r.ok) results)

-- {"target": …, **data} if the data are a dict, else {"target": …, "result": data}
unfoldable pub wrap : TargetResult → Fields
unfolding merge
wrap r = wrapped r.target r.value
  where
    wrapped : String → Value → Fields
    wrapped target (dict fs) = merge (field "target" (text target) end) fs
    wrapped target v = field "target" (text target) (field "result" v end)

-- sum(1 for r in results if r.ok)
unfoldable pub count_ok : List TargetResult → ℕ
count_ok results = length (keep_if (λ (r : TargetResult). r.ok) results)

pub record Report : Type 0 where
  pub ok : ℕ
  pub failed : List Failure
  pub results : List Fields

-- What `_run_batch` returns.
unfoldable pub report : List TargetResult → Report
unfolding failed wrap count_ok
report results = record {
  ok = count_ok results;
  failed = failed results;
  results = map wrap (keep_if (λ (r : TargetResult). r.ok) results);
}
