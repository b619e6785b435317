-- ===== src/Server/Targets/Guards.antt =====
-- What `remove_target` of src/mcp_socket_server/server.py refuses, and what it removes.
use mcp_socket_server.Prelude.{
  ℕ, String, ◌≡◌, refl, sym, ◌∙◌, ◌⊎◌, inl, inr, Bool, true, false, none, some, List, [], ◌∷◌,
  if◌then◌else◌, is_nonempty, arith, Bool-cases, Result, ok, err, string_eq, nat_eq,
}
use mcp_socket_server.Locks.Claims.{Claim}
use mcp_socket_server.Locks.Manager.{LockManager, has_active}
use mcp_socket_server.Locks.Manager.Held.{held, has_active-held}
use mcp_socket_server.Registry
use mcp_socket_server.Registry.{
  Registry, Row, RemoveError, find_row, is_found, get_listen_liveness, no_such_target,
}
use mcp_socket_server.Registry.Table.{find_row-remove_target, same_key}
use mcp_socket_server.Server.{Bridge}
use mcp_socket_server.Server.Targets.{
  Refusal, remove_target, removed, not_registered, active_lock, active_listen, is_locked,
}

-- The three answers, and what each says of the bridge before and after.
pub record Removes (host : String) (port : ℕ) (m : LockManager) (r : Registry) (b : Bridge)
    : Type 0 where
  pub unheld : held host m ≡ []
  pub silent : get_listen_liveness host port r ≡ false
  pub known : is_found (find_row host port r.rows) ≡ true
  pub left : Registry
  pub there : b.registry ≡ some left
  pub rows :
      (h : String) (p : ℕ)
      → find_row h p left.rows ≡ (if same_key host port h p then none else find_row h p r.rows)

abbrev pub Blocked : String → ℕ → LockManager → Registry → Refusal → Type 0
Blocked host port m r active_lock = is_nonempty (held host m) ≡ true
Blocked host port m r active_listen = get_listen_liveness host port r ≡ true
Blocked host port m r (not_registered x) = is_found (find_row host port r.rows) ≡ false
Blocked host port m r _ = ⊥

not_nonempty : (cs : List Claim) → is_nonempty cs ≡ false → cs ≡ []
not_nonempty [] h = refl
not_nonempty (c ∷ cs) h = cc

abbrev pub Guarded :
    String → ℕ → LockManager → Registry → Bridge × Result Refusal (Unit {0}) → Type 0
Guarded host port m r a =
    ((a.1 ≡ ok tt) × Removes host port m r a.0)
    ⊎ ((x : Refusal) × (a.1 ≡ err x) × Blocked host port m r x)

abbrev answer : Bool → Result RemoveError (Unit {0})
answer found = if found then ok tt else err no_such_target

found_ok : (found : Bool) {u : Unit {0}} → answer found ≡ ok u → found ≡ true
found_ok true h = refl
found_ok false h = cc

found_err : (found : Bool) {x : RemoveError} → answer found ≡ err x → found ≡ false
found_err true h = cc
found_err false h = refl

removed-Guarded :
    (host : String) (port : ℕ) (m : LockManager) (r : Registry) (b : Bridge)
    → held host m ≡ []
    → get_listen_liveness host port r ≡ false
    → (a : Result RemoveError (Unit {0})) → (Registry.remove_target host port r).1 ≡ a
    → Guarded host port m r (removed b ((Registry.remove_target host port r).0, a))
removed-Guarded host port m r b unheld silent (ok _) e = inl (
  refl,
  record {
    unheld = unheld;
    silent = silent;
    known = found_ok _ (sym (find_row-remove_target host port r host port).1 ∙ e);
    left = (Registry.remove_target host port r).0;
    there = refl;
    rows = λ h p. (find_row-remove_target host port r h p).0;
  },
)
removed-Guarded host port m r b unheld silent (err x) e =
    inr (
      not_registered x,
      refl,
      found_err _ (sym (find_row-remove_target host port r host port).1 ∙ e),
    )

remove_target_known :
    (host : String) (port : ℕ) (m : LockManager) (r : Registry) (b : Bridge)
    → b.lock_manager ≡ some m
    → b.registry ≡ some r
    → remove_target host port b ≡ (
        if has_active host m
        then (b, err active_lock)
        else if get_listen_liveness host port r
        then (b, err active_listen)
        else removed b (Registry.remove_target host port r))
unfolding remove_target is_locked
remove_target_known host port m r b e f = ground arith

-- With a lock manager and a registry: `remove_target` either succeeds, and then nothing was held on
-- the host, no listening was noted for the row, there was a row, and it alone is gone; or it
-- refuses for an active lock, an active listening or a missing row, which is then the case.
pub remove_target-Guarded :
    (host : String) (port : ℕ) (m : LockManager) (r : Registry) (b : Bridge)
    → b.lock_manager ≡ some m
    → b.registry ≡ some r
    → Guarded host port m r (remove_target host port b)
unfolding remove_target
remove_target-Guarded host port m r b e f =
    rw (remove_target_known host port m r b e f) (elim (Bool-cases (has_active host m)) [
      | inl busy ↦ rw busy (inr (active_lock, refl, sym (has_active-held host m) ∙ busy))
      | inr free ↦ elim (Bool-cases (get_listen_liveness host port r)) [
        | inl listens ↦ rw free (rw listens (inr (active_listen, refl, listens)))
        | inr silent ↦ rw free (
            rw silent (
              removed-Guarded host port m r b
                (not_nonempty (held host m) (sym (has_active-held host m) ∙ free)) silent
                (Registry.remove_target host port r).1 refl))
      ]
    ])
