-- ===== src/Tests/Fixtures.antt =====
-- Inputs that the other tests share.
use mcp_socket_server.Prelude.{
  String, List, [], ◌∷◌, none, some, ok, refl, true, false, keys, has_key,
}
use mcp_socket_server.Commands.{capture}
use mcp_socket_server.Registry.{Row, Registry, empty_registry}
use mcp_socket_server.Server.{Bridge}
use mcp_socket_server.Value.{bool}
use mcp_socket_server.Pool.{Client, close}
use mcp_socket_server.Pool.Scheduler.{Visit}
use mcp_socket_server.Locks.{Key, TargetLock}
use mcp_socket_server.Locks.Claims.{IsValid}
use mcp_socket_server.Locks.Manager.{LockManager, new_lock_manager}
use mcp_socket_server.Locks.Manager.Held.{AllValid}
use mcp_socket_server.Locks.Manager.Exclusion.{
  Call, acquires, run, run-AllValid, new_lock_manager-AllValid,
}

abbrev pub host_a : String
host_a = "10.0.0.5"

abbrev pub path_a : Key
path_a = "/home/tmp/a.pcap" ∷ []

abbrev pub path_b : Key
path_b = "/home/tmp/b.pcap" ∷ []

-- A lock under which one capture runs.
abbrev pub capturing_lock : TargetLock
capturing_lock = record {
  captures = (path_a, 1) ∷ [];
  exclusive_holder = none;
  exclusive_count = 0;
}

pub capturing_lock-IsValid : IsValid capturing_lock
unfolding keys has_key
capturing_lock-IsValid = record { distinct = (refl, tt); holder = refl }

abbrev pub calls : List Call
calls = acquires host_a capture (some path_a) ∷ []

-- A manager under which it runs.
abbrev pub capturing_manager : LockManager
capturing_manager = run calls new_lock_manager

pub capturing_manager-AllValid : AllValid capturing_manager
capturing_manager-AllValid = run-AllValid calls new_lock_manager new_lock_manager-AllValid

abbrev pub client_a : Client
client_a = record { number = 0; host = host_a; port = 9000; timeout = 30; connected = true }

abbrev pub visit_a : Visit
visit_a = record {
  started = 0;
  finished = 2;
  number = 0;
  connect = ok tt;
  fn = λ c. (c, ok (bool true));
}

abbrev pub closing : Visit
closing = record visit_a { fn = λ c. (close c, ok (bool true)) }

abbrev pub row_a : Row
row_a = record {
  id = 1;
  host = host_a;
  port = 9000;
  tags = "lab" ∷ [];
  note = "";
  created_at = 7;
  listen_liveness = false;
}

abbrev pub one_row : Registry
one_row = record { rows = row_a ∷ []; last_id = 1 }

abbrev pub idle_bridge : Bridge
idle_bridge = record {
  lock_manager = some new_lock_manager;
  registry = some empty_registry;
  scheduler = record { pools = [] };
}
