-- ===== src/Server/Captures/Stopping.antt =====
-- The lock of a capture, from `capture_start` to `capture_stop` (src/mcp_socket_server/server.py).
use mcp_socket_server.Prelude.{
  ℕ, String, ◌≡◌, refl, sym, ap, ◌∙◌, Bool, true, some, [], ◌∷◌, ◌++◌, any, if◌then◌else◌, arith,
  Result, ok, err, Bool-cases, inl, inr, string_eq, subst,
}
use mcp_socket_server.Errors.{Exn}
use mcp_socket_server.Commands.{capture}
use mcp_socket_server.Locks.Claims.{capturing, in_conflict}
use mcp_socket_server.Locks.Release.{without}
use mcp_socket_server.Locks.Manager
use mcp_socket_server.Locks.Manager.{LockManager}
use mcp_socket_server.Locks.Manager.Held.{held, AllValid, Keeps, release-held}
use mcp_socket_server.Pool.{Client, TargetPool}
use mcp_socket_server.Pool.Scheduler.{Visit, acquire, is_ok, get_pool, TargetResult}
use mcp_socket_server.Server.{Bridge}
use mcp_socket_server.Server.Batch.{run_one}
use mcp_socket_server.Server.Batch.Locking.{Restored, run_one-Locked, run_one_busy}
use mcp_socket_server.Server.Batch.Settling.{without-granted}
use mcp_socket_server.Server.Captures.{free_path, stop_with, stop_one}

-- What `capture_stop` leaves of the locks; `reached` says that a client was lent for it.
pub record Stopped (host path : String) (m : LockManager) (reached : Bool) (b : Bridge)
    : Type 0 where
  pub manager : LockManager
  pub there : b.lock_manager ≡ some manager
  pub keeps : Keeps host m manager
  pub holds :
      held host manager
      ≡ (if reached then without (capturing (path ∷ [])) (held host m) else held host m)

-- Whether `pool.acquire` returns a client.
abbrev pub reaches : ℕ → ℕ → String → Visit → Bridge → Bool
reaches port timeout host v b = is_ok (acquire timeout v (get_pool host port b.scheduler).0).1

free_path-manager :
    (host path : String) (m : LockManager) (b : Bridge)
    → b.lock_manager ≡ some m
    → (free_path host path b).lock_manager
      ≡ some (Manager.release host capture (some (path ∷ [])) m)
unfolding free_path
free_path-manager host path m b e = ground arith

stop_with-Stopped :
    (host : String) (port : ℕ) (path : String) (v : Visit) (p : TargetPool) (r : Result Exn Client)
    (m : LockManager) (b : Bridge)
    → b.lock_manager ≡ some m
    → AllValid m
    → Stopped host path m (is_ok r) (stop_with host port path v b (p, r)).0
unfolding stop_with
stop_with-Stopped host port path v p (err x) m b e valid = record {
  manager = m;
  there = e;
  keeps = record { all_valid = valid; others = λ j _. refl };
  holds = refl;
}
stop_with-Stopped host port path v p (ok client) m b e valid =
    let (dropped, kept) = release-held host capture (some (path ∷ [])) m valid refl in
    record {
      manager = Manager.release host capture (some (path ∷ [])) m;
      there = free_path-manager host path m _ e;
      keeps = kept;
      holds = dropped;
    }

-- Under a manager whose locks are valid: if `capture_stop` is lent a client, it drops the claim on
-- its path, whatever the target answers; if none is lent, the claim stays. Nothing else that is
-- held changes.
pub stop_one-Stopped :
    (port timeout : ℕ) (path host : String) (v : Visit) (m : LockManager) (b : Bridge)
    → b.lock_manager ≡ some m
    → AllValid m
    → Stopped host path m (reaches port timeout host v b) (stop_one port timeout path host v b).0
unfolding stop_one
stop_one-Stopped port timeout path host v m b e valid =
    let r = acquire timeout v (get_pool host port b.scheduler).0 in
    stop_with-Stopped host port path v (r.0) (r.1) m
      (record b { scheduler = (get_pool host port b.scheduler).1 }) e valid

-- Under a manager whose locks are valid: a successful `capture_start` and then a `capture_stop` of
-- the same path that is lent a client leave held on every target what was held before.
pub start-stop :
    (port port' timeout timeout' : ℕ) (path host : String) (v w : Visit) (m : LockManager)
    (b : Bridge)
    → b.lock_manager ≡ some m
    → AllValid m
    → let begun = run_one port timeout capture (path ∷ []) host v b in
      begun.1.ok ≡ true
      → reaches port' timeout' host w begun.0 ≡ true
      → Restored m (stop_one port' timeout' path host w begun.0).0
start-stop port port' timeout timeout' path host v w m b e valid success lent =
    let begun = run_one port timeout capture (path ∷ []) host v b in
    let l = run_one-Locked port timeout capture (path ∷ []) host v m b e valid refl in
    let stopped =
      stop_one-Stopped port' timeout' path host w l.manager begun.0 l.there l.keeps.all_valid in
    elim (Bool-cases (any (in_conflict (capturing (path ∷ []))) (held host m))) [
      | inl taken ↦
          let (x, named, fails, same) =
            run_one_busy port timeout capture (path ∷ []) host v m b e valid refl taken in
          absurd (let q = ap (λ (r : TargetResult). r.ok) fails in cc)
      | inr free ↦ record {
        manager = stopped.manager;
        there = stopped.there;
        all_valid = stopped.keeps.all_valid;
        same = λ j. elim (string_eq.dec j host) [
          | yes q ↦
              subst (λ i. held i stopped.manager ≡ held i m) (sym q)
                (stopped.holds
                  ∙ ap
                      (λ k.
                        if k
                        then without (capturing (path ∷ [])) (held host l.manager)
                        else held host l.manager)
                      lent
                  ∙ ap (without (capturing (path ∷ []))) (
                      l.holds
                      ∙ ap
                          (λ k.
                            if k then held host m ++ capturing (path ∷ []) ∷ [] else held host m)
                          success)
                  ∙ without-granted (capturing (path ∷ [])) (held host m) free)
          | no ne ↦ stopped.keeps.others j ne ∙ l.keeps.others j ne
        ];
      }
    ]
