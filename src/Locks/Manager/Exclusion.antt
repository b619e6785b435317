-- ===== src/Locks/Manager/Exclusion.antt =====
-- Mutual exclusion: whatever the calls of `acquire` and `release`
-- (src/mcp_socket_server/locks.py) and their order, no two claims held on a target are in conflict.
use mcp_socket_server.Prelude.{
  String, refl, Option, List, [], ◌∷◌, lookup, lookup-nil, string_eq, Option-cases, inl, inr,
}
use mcp_socket_server.Commands.{LockClass, unlocked, capture}
use mcp_socket_server.Locks.{Key}
use mcp_socket_server.Locks.Claims.{Compatible, claims-Compatible}
use mcp_socket_server.Locks.Manager.{LockManager, new_lock_manager, acquire, release}
use mcp_socket_server.Locks.Manager.Held.{held, AllValid, acquire-Outcome, release-held}

-- A call by some thread: it takes the manager's state to the next.
pub data Call : Type 0 where
  acquires releases : String → LockClass → Option Key → Call

unfoldable pub step : Call → LockManager → LockManager
step (acquires target c key) m = (acquire target c key m).0
step (releases target c key) m = release target c key m

-- The calls of all threads, in the order in which they take the mutex.
unfoldable pub run : List Call → LockManager → LockManager
run [] m = m
run (call ∷ calls) m = run calls (step call m)

pub new_lock_manager-AllValid : AllValid new_lock_manager
new_lock_manager-AllValid = record { at = λ target tl e. cc (lookup-nil target) }

step-AllValid : (call : Call) (m : LockManager) → AllValid m → AllValid (step call m)
unfolding step acquire release
step-AllValid (acquires target unlocked key) m v = v
step-AllValid (acquires target capture key) m v =
    (acquire-Outcome target capture key m v refl).1.all_valid
step-AllValid (acquires target c key) m v = (acquire-Outcome target c key m v refl).1.all_valid
step-AllValid (releases target unlocked key) m v = v
step-AllValid (releases target capture key) m v =
    (release-held target capture key m v refl).1.all_valid
step-AllValid (releases target c key) m v = (release-held target c key m v refl).1.all_valid

pub run-AllValid : (calls : List Call) (m : LockManager) → AllValid m → AllValid (run calls m)
unfolding run
run-AllValid [] m v = v
run-AllValid (call ∷ calls) m v = run-AllValid calls (step call m) (step-AllValid call m v)

AllValid-Compatible : (target : String) (m : LockManager) → AllValid m → Compatible (held target m)
AllValid-Compatible target m v = elim (Option-cases (lookup target m.locks)) [
  | inl e ↦ rw e tt
  | inr (tl, e) ↦ rw e (claims-Compatible tl (v.at target tl e))
]

-- After any calls in any order, from the manager as it is made, no two claims that are held on one
-- target are in conflict: an exclusive claim stands alone, and captures have distinct paths.
pub run-Compatible :
    (calls : List Call) (target : String) → Compatible (held target (run calls new_lock_manager))
run-Compatible calls target =
    AllValid-Compatible target (run calls new_lock_manager)
      (run-AllValid calls new_lock_manager new_lock_manager-AllValid)
