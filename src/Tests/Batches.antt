-- ===== src/Tests/Batches.antt =====
-- Tests of the tools (src/mcp_socket_server/server.py).
use mcp_socket_server.Prelude.{
  String, ◌≡◌, refl, true, ◌&&◌, any, none, some, List, [], ◌∷◌, has_key, insert, lookup, keys,
  string_eq,
}
use mcp_socket_server.Value.{null}
use mcp_socket_server.Commands.{shell, capture}
use mcp_socket_server.Locks.{LockConflict}
use mcp_socket_server.Locks.Claims.{exclusive, capturing, in_conflict}
use mcp_socket_server.Locks
use mcp_socket_server.Locks.Manager
use mcp_socket_server.Locks.Manager.Exclusion
use mcp_socket_server.Locks.Manager.Held.{held}
use mcp_socket_server.Pool
use mcp_socket_server.Pool.Scheduler
use mcp_socket_server.Server.Batch
use mcp_socket_server.Text
use mcp_socket_server.Locks.Manager.{LockManager, new_lock_manager}
use mcp_socket_server.Locks.Manager.Exclusion.{new_lock_manager-AllValid}
use mcp_socket_server.Registry.{Registry, empty_registry, add_target}
use mcp_socket_server.Pool.Scheduler.{Scheduler, Visit, failed_with, conflict, batch}
use mcp_socket_server.Server.{Bridge}
use mcp_socket_server.Server.Batch.{run_one, run_all, run_batch, is_capture}
use mcp_socket_server.Server.Batch.Locking.{
  Locked, Restored, run_one-Locked, run_one_busy, run_all-Restored,
}
use mcp_socket_server.Server.Batch.Places.{inuse_of, run_one-inuse}
use mcp_socket_server.Server.Batch.Reports.{Accounts, run_batch-Accounts, Answered, batch-Answered}
use mcp_socket_server.Server.Captures.{stop_one}
use mcp_socket_server.Server.Captures.Stopping.{Stopped, reaches, stop_one-Stopped, start-stop}
use mcp_socket_server.Server.Targets.{remove_target}
use mcp_socket_server.Server.Targets.Guards.{Guarded, remove_target-Guarded}
use mcp_socket_server.Tests.Fixtures.{
  host_a, path_a, idle_bridge, capturing_manager, capturing_manager-AllValid, visit_a,
}

abbrev capturing_bridge : Bridge
capturing_bridge = record idle_bridge { lock_manager = some capturing_manager }

abbrev two_runs : List (String × Visit)
two_runs = (host_a, visit_a) ∷ ("10.0.0.6", visit_a) ∷ []

run_one-Locked_example :
    Locked host_a
      (capturing path_a)
      new_lock_manager
      (is_capture capture && (run_one 9000 30 capture path_a host_a visit_a idle_bridge).1.ok)
      (run_one 9000 30 capture path_a host_a visit_a idle_bridge).0
run_one-Locked_example =
    run_one-Locked 9000 30 capture path_a host_a visit_a new_lock_manager idle_bridge refl
      new_lock_manager-AllValid refl

shell_is_refused : any (in_conflict (exclusive shell)) (held host_a capturing_manager) ≡ true
unfolding Exclusion.run Exclusion.step Manager.acquire Manager.get_target_lock Locks.acquire_target
    Locks.acquire_capture has_key insert lookup keys string_eq
shell_is_refused = refl

abbrev begun : Bridge
begun = (run_one 9000 30 capture path_a host_a visit_a idle_bridge).0

capture_begins : (run_one 9000 30 capture path_a host_a visit_a idle_bridge).1.ok ≡ true
unfolding run_one Batch.run_locked Batch.lock Batch.serve Batch.judge Batch.verdict Batch.give_back
    Manager.acquire Manager.get_target_lock Locks.acquire_target Locks.acquire_capture has_key
    insert lookup keys Scheduler.acquire Scheduler.get_pool Pool.new_pool Pool.take_place
    Pool.pop_idle Pool.finish_acquire Pool.release string_eq
capture_begins = refl

client_is_lent : reaches 9000 30 host_a visit_a begun ≡ true
unfolding run_one Batch.run_locked Batch.lock Batch.serve Batch.judge Batch.verdict Batch.give_back
    Manager.acquire Manager.get_target_lock Locks.acquire_target Locks.acquire_capture has_key
    insert lookup keys Scheduler.acquire Scheduler.get_pool Scheduler.pool_key Text.decimal
    Pool.new_pool Pool.take_place Pool.pop_idle Pool.finish_acquire Pool.release string_eq
client_is_lent = refl

run_one_busy_run :
    (e : LockConflict) × (e.target ≡ host_a)
    × ((run_one 9000 30 shell [] host_a visit_a capturing_bridge).1
        ≡ failed_with host_a (conflict e) null)
    × ((run_one 9000 30 shell [] host_a visit_a capturing_bridge).0.scheduler
        ≡ capturing_bridge.scheduler)
run_one_busy_run =
    run_one_busy 9000 30 shell [] host_a visit_a capturing_manager capturing_bridge refl
      capturing_manager-AllValid refl shell_is_refused

run_all-Restored_run : Restored new_lock_manager (run_all 9000 30 shell [] two_runs idle_bridge).0
run_all-Restored_run =
    run_all-Restored 9000 30 shell [] two_runs new_lock_manager idle_bridge tt refl
      new_lock_manager-AllValid

run_one-inuse_example :
    inuse_of "10.0.0.5:9000" (run_one 9000 30 shell [] host_a visit_a idle_bridge).0.scheduler
    ≡ inuse_of "10.0.0.5:9000" idle_bridge.scheduler
run_one-inuse_example = run_one-inuse 9000 30 shell [] host_a visit_a idle_bridge "10.0.0.5:9000"

run_batch-Accounts_example : Accounts 2 (run_batch 9000 30 shell [] two_runs idle_bridge).1
run_batch-Accounts_example = run_batch-Accounts 9000 30 shell [] two_runs idle_bridge

batch-Answered_run : Answered two_runs (batch 9000 15 two_runs idle_bridge.scheduler).1
batch-Answered_run = batch-Answered 9000 15 two_runs idle_bridge.scheduler

stop_one-Stopped_example :
    Stopped host_a "/home/tmp/a.pcap" capturing_manager
      (reaches 9000 30 host_a visit_a capturing_bridge)
      (stop_one 9000 30 "/home/tmp/a.pcap" host_a visit_a capturing_bridge).0
stop_one-Stopped_example =
    stop_one-Stopped 9000 30 "/home/tmp/a.pcap" host_a visit_a capturing_manager capturing_bridge
      refl capturing_manager-AllValid

start-stop_example :
    Restored new_lock_manager
      (stop_one 9000 30 "/home/tmp/a.pcap" host_a visit_a
        (run_one 9000 30 capture path_a host_a visit_a idle_bridge).0).0
start-stop_example =
    start-stop 9000 9000 30 30 "/home/tmp/a.pcap" host_a visit_a visit_a new_lock_manager
      idle_bridge refl new_lock_manager-AllValid capture_begins client_is_lent

abbrev known : Registry
known = add_target host_a 9000 none "" 5 empty_registry

remove_target-Guarded_example :
    Guarded host_a 9000 capturing_manager known
      (remove_target host_a 9000 (record capturing_bridge { registry = some known }))
remove_target-Guarded_example =
    remove_target-Guarded host_a 9000 capturing_manager known
      (record capturing_bridge { registry = some known }) refl refl
