-- ===== src/Locks.antt =====
-- The lock manager (src/mcp_socket_server/locks.py). Every method runs under a mutex and returns or
-- raises without waiting, so a method is one atomic step on the state.
pub mod Manager
pub mod Claims
pub mod Release
use mcp_socket_server.Prelude.{
  ℕ, ◌+◌, ◌-◌, String, Bool, true, false, ◌||◌, Option, none, some, List, [], ◌∷◌, ◌==◌,
  if◌then◌else◌, leb, is_nonempty, Result, ok, err, list_eq, string_eq, Dict, insert, erase, keys,
  has_key,
}
use mcp_socket_server.Commands.{LockClass, unlocked, capture, lock_class_value, lock_class_eq}

-- The key of a capture, a tuple of texts.
abbrev pub Key : Type 0
Key = List String

-- What `str(…)` is applied to for the `key` of a conflict; the text itself is not rendered.
pub data ConflictKey : Type 0 where
  one_key : Key → ConflictKey
  all_keys : List Key → ConflictKey

-- The words that `_rebuild_message` joins by blanks.
pub data Part : Type 0 where
  target_part class_part : String → Part
  key_part : ConflictKey → Part
  conflict_part : Part

pub record LockConflict : Type 0 where
  pub target : String
  pub lock_class : LockClass
  pub key : Option ConflictKey
  pub message : List Part

key_parts : Option ConflictKey → List Part
key_parts none = conflict_part ∷ []
key_parts (some k) = key_part k ∷ conflict_part ∷ []

unfoldable pub rebuild_message : LockConflict → LockConflict
unfolding key_parts lock_class_value
rebuild_message e = record e {
  message = target_part e.target ∷ class_part (lock_class_value e.lock_class) ∷ key_parts e.key;
}

-- LockConflict(target, lock_class, key)
unfoldable pub lock_conflict : String → LockClass → Option ConflictKey → LockConflict
unfolding rebuild_message
lock_conflict target lock_class key =
    rebuild_message (record { target = target; lock_class = lock_class; key = key; message = [] })

-- The state of one target. `exclusive_count` is decremented only where it is positive.
pub record TargetLock : Type 0 where
  pub captures : Dict Key ℕ
  pub exclusive_holder : Option LockClass
  pub exclusive_count : ℕ

abbrev pub new_target_lock : TargetLock
new_target_lock = record { captures = []; exclusive_holder = none; exclusive_count = 0 }

-- key or ()
abbrev pub capture_key : Option Key → Key
capture_key none = []
capture_key (some k) = k

abbrev pub is_some {ℓ} : {A : Type ℓ} → Option A → Bool
is_some none = false
is_some (some _) = true

unfoldable pub acquire_capture : Option Key → TargetLock → Result LockConflict TargetLock
unfolding lock_conflict
acquire_capture key tl =
    let k = capture_key key in
    if is_some tl.exclusive_holder
    then err (lock_conflict "?" capture (some (one_key k)))
    else if has_key k tl.captures
    then err (lock_conflict "?" capture (some (one_key k)))
    else ok (record tl { captures = insert k 1 tl.captures })

unfoldable pub release_capture : Option Key → TargetLock → TargetLock
release_capture key tl = record tl { captures = erase (capture_key key) tl.captures }

unfoldable pub acquire_exclusive : LockClass → TargetLock → Result LockConflict TargetLock
unfolding lock_conflict
acquire_exclusive c tl =
    if is_some tl.exclusive_holder
    then err (lock_conflict "?" c none)
    else if is_nonempty tl.captures
    then err (lock_conflict "?" c (some (all_keys (keys tl.captures))))
    else ok (record tl { exclusive_holder = some c; exclusive_count = tl.exclusive_count + 1 })

-- self._exclusive_holder == lock_class
abbrev pub holds : Option LockClass → LockClass → Bool
holds none c = false
holds (some h) c = h == c

unfoldable pub release_exclusive : LockClass → TargetLock → TargetLock
release_exclusive c tl =
    if holds tl.exclusive_holder c
    then (let n = tl.exclusive_count - 1 in
        if leb n 0
        then record tl { exclusive_count = n; exclusive_holder = none }
        else record tl { exclusive_count = n })
    else tl

-- TargetLock.acquire
unfoldable pub acquire_target : LockClass → Option Key → TargetLock → Result LockConflict TargetLock
unfolding acquire_capture acquire_exclusive
acquire_target unlocked key tl = ok tl
acquire_target capture key tl = acquire_capture key tl
acquire_target c key tl = acquire_exclusive c tl

-- TargetLock.release
unfoldable pub release_target_lock : LockClass → Option Key → TargetLock → TargetLock
unfolding release_capture release_exclusive
release_target_lock unlocked key tl = tl
release_target_lock capture key tl = release_capture key tl
release_target_lock c key tl = release_exclusive c tl

-- TargetLock.has_active
unfoldable pub has_active_lock : TargetLock → Bool
has_active_lock tl = is_nonempty tl.captures || is_some tl.exclusive_holder

unfoldable pub active_captures : TargetLock → List Key
active_captures tl = keys tl.captures
