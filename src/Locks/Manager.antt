-- ===== src/Locks/Manager.antt =====
-- `LockManager` of src/mcp_socket_server/locks.py: one `TargetLock` for each target name.
pub mod Held
pub mod Exclusion
use mcp_socket_server.Prelude.{
  String, Bool, false, Option, none, some, [], Result, ok, err, string_eq, Dict, lookup, insert,
}
use mcp_socket_server.Commands.{LockClass, unlocked}
use mcp_socket_server.Locks.{
  Key, LockConflict, TargetLock, new_target_lock, acquire_target, release_target_lock,
  has_active_lock, rebuild_message,
}

pub record LockManager : Type 0 where
  pub locks : Dict String TargetLock

abbrev pub new_lock_manager : LockManager
new_lock_manager = record { locks = [] }

-- `_get_target_lock`: the lock of the target, and the manager in which it is registered.
unfoldable pub get_target_lock : String → LockManager → TargetLock × LockManager
get_target_lock target m = elim (lookup target m.locks) [
  | none ↦ (new_target_lock, record { locks = insert target new_target_lock m.locks })
  | some tl ↦ (tl, m)
]

-- A method of the target's lock writes to the object that the manager holds.
abbrev settle :
    String
    → LockManager
    → Result LockConflict TargetLock
    → LockManager × Result LockConflict (Unit {0})
settle target m (ok tl) = (record { locks = insert target tl m.locks }, ok tt)
settle target m (err e) = (m, err (rebuild_message (record e { target = target })))

unfoldable pub acquire :
    String → LockClass → Option Key → LockManager → LockManager × Result LockConflict (Unit {0})
unfolding get_target_lock acquire_target
acquire target unlocked key m = (m, ok tt)
acquire target c key m =
    let (tl, m') = get_target_lock target m in settle target m' (acquire_target c key tl)

abbrev release_in : String → LockClass → Option Key → LockManager → Option TargetLock → LockManager
release_in target c key m none = m
release_in target c key m (some tl) = record {
  locks = insert target (release_target_lock c key tl) m.locks;
}

unfoldable pub release : String → LockClass → Option Key → LockManager → LockManager
unfolding release_target_lock
release target unlocked key m = m
release target c key m = release_in target c key m (lookup target m.locks)

unfoldable pub has_active : String → LockManager → Bool
unfolding has_active_lock
has_active target m = elim (lookup target m.locks) [ none ↦ false | some tl ↦ has_active_lock tl ]

-- `release_target`: `release` never raises, so its handler has nothing to do.
unfoldable pub release_target : String → LockClass → Option Key → LockManager → LockManager
release_target target c key m = release target c key m
