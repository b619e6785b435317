-- ===== src/Tests/Locking.antt =====
-- Tests of the lock manager (src/mcp_socket_server/locks.py).
use mcp_socket_server.Prelude.{◌≡◌, refl, none, some, is_nonempty}
use mcp_socket_server.Commands.{capture, shell}
use mcp_socket_server.Locks.{acquire_target}
use mcp_socket_server.Locks.Claims.{
  exclusive, capturing, Answers, Compatible, acquire_target-Answers,
}
use mcp_socket_server.Locks.Release.{without}
use mcp_socket_server.Locks.Manager.{acquire, release, has_active, new_lock_manager}
use mcp_socket_server.Locks.Manager.Held.{
  held, Outcome, Keeps, acquire-Outcome, release-held, has_active-held,
}
use mcp_socket_server.Locks.Manager.Exclusion.{run, run-Compatible}
use mcp_socket_server.Tests.Fixtures.{
  host_a, path_a, path_b, calls, capturing_lock, capturing_lock-IsValid, capturing_manager,
  capturing_manager-AllValid,
}

acquire-Outcome_example :
    Outcome host_a (exclusive shell) capturing_manager (acquire host_a shell none capturing_manager)
    × Keeps host_a capturing_manager (acquire host_a shell none capturing_manager).0
acquire-Outcome_example =
    acquire-Outcome host_a shell none capturing_manager capturing_manager-AllValid refl

release-held_example :
    (held host_a (release host_a capture (some path_a) capturing_manager)
      ≡ without (capturing path_a) (held host_a capturing_manager))
    × Keeps host_a capturing_manager (release host_a capture (some path_a) capturing_manager)
release-held_example =
    release-held host_a capture (some path_a) capturing_manager capturing_manager-AllValid refl

has_active-held_run :
    has_active host_a capturing_manager ≡ is_nonempty (held host_a capturing_manager)
has_active-held_run = has_active-held host_a capturing_manager

run-Compatible_example : Compatible (held host_a (run calls new_lock_manager))
run-Compatible_example = run-Compatible calls host_a

acquire_target-Answers_run :
    Answers capturing_lock (capturing path_b) (acquire_target capture (some path_b) capturing_lock)
acquire_target-Answers_run =
    acquire_target-Answers capture (some path_b) capturing_lock capturing_lock-IsValid refl
