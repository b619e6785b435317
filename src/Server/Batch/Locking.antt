-- ===== src/Server/Batch/Locking.antt =====
-- The locks through the runs of `_run_batch` (src/mcp_socket_server/server.py).
use mcp_socket_server.Prelude.{
  and_false, ℕ, String, ◌≡◌, refl, sym, ap, ◌∙◌, inl, inr, Bool, true, false, ◌&&◌, some, List, [],
  ◌∷◌, ◌++◌, any, if◌then◌else◌, Bool-cases, Result, ok, err, list_eq, string_eq, subst,
}
use mcp_socket_server.Value.{Value}
use mcp_socket_server.Commands.{LockClass, unlocked, capture, lock_class_eq}
use mcp_socket_server.Locks.{Key, LockConflict}
use mcp_socket_server.Locks.Claims.{Claim, exclusive, in_conflict, requested, IsExclusive}
use mcp_socket_server.Locks.Release.{without}
use mcp_socket_server.Locks.Manager
use mcp_socket_server.Locks.Manager.{LockManager}
use mcp_socket_server.Locks.Manager.Held.{
  held, AllValid, Outcome, Grants, Keeps, acquire-Outcome, release-held,
}
use mcp_socket_server.Pool.Scheduler.{Visit, conflict, failed_with}
use mcp_socket_server.Server.{Bridge}
use mcp_socket_server.Server.Batch.{is_capture, run_locked, run_one, run_all}
use mcp_socket_server.Server.Batch.Settling.{
  lock-acquire, settled, run_locked-settled, without-granted,
}

-- What a run leaves behind of the locks.
pub record Locked (host : String) (a : Claim) (m : LockManager) (kept : Bool) (b : Bridge)
    : Type 0 where
  pub manager : LockManager
  pub there : b.lock_manager ≡ some manager
  pub keeps : Keeps host m manager
  pub holds : held host manager ≡ (if kept then held host m ++ a ∷ [] else held host m)

settled-Locked :
    (host : String) (c : LockClass) (key : Key) (a : Claim) (m m1 : LockManager) (success : Bool)
    (b : Bridge)
    → requested c (some key) ≡ some a
    → Grants host a m m1
    → Keeps host m m1
    → b.lock_manager ≡ some (settled host c key success m1)
    → Locked host a m (is_capture c && success) b
settled-Locked host c key a m m1 success b h grants keeps e =
    elim (Bool-cases (is_capture c && success)) [
      | inl stays ↦ rw stays (record {
        manager = m1;
        there = e ∙ ap some (rw stays refl);
        keeps = keeps;
        holds = grants.added;
      })
      | inr goes ↦
          let (dropped, kept) = release-held host c (some key) m1 keeps.all_valid h in
          rw goes (record {
            manager = Manager.release host c (some key) m1;
            there = e ∙ ap some (rw goes refl);
            keeps = record {
              all_valid = kept.all_valid;
              others = λ j ne. kept.others j ne ∙ keeps.others j ne;
            };
            holds =
                dropped ∙ ap (without a) grants.added ∙ without-granted a (held host m) grants.free;
          })
    ]

run_locked-Locked :
    (host : String) (port timeout : ℕ) (c : LockClass) (key : Key) (a : Claim) (v : Visit)
    (m m1 : LockManager) (b : Bridge) (r : Result LockConflict (Unit {0}))
    → b.lock_manager ≡ some m1
    → requested c (some key) ≡ some a
    → Outcome host a m (m1, r)
    → Keeps host m m1
    → Locked host a m
        (is_capture c && (run_locked host port timeout c key v (b, r)).1.ok)
        (run_locked host port timeout c key v (b, r)).0
run_locked-Locked host port timeout c key a v m m1 b (ok _) e h (inl (q, grants)) keeps =
    settled-Locked host c key a m m1 _ _ h grants keeps
      (run_locked-settled host port timeout c key a v m1 b e h)
run_locked-Locked host port timeout c key a v m m1 b (err x) e h (inl (q, grants)) keeps = cc
run_locked-Locked host port timeout c key a v m m1 b (ok _) e h (inr (x, q, refuses)) keeps = cc
run_locked-Locked host port timeout c key a v m m1 b (err x) e h (inr (y, q, refuses)) keeps =
    unfold run_locked in
    (rw (and_false (is_capture c))
      (record { manager = m1; there = e; keeps = keeps; holds = refuses.unchanged }))

-- Let a class other than NONE be asked for under a manager whose locks are valid. However the run
-- of one target ends, the claim is held on it afterwards, last, if the class is CAPTURE and the run
-- has succeeded, and is not added otherwise; all else that is held, there and on other targets, is
-- as before, and the locks stay valid.
pub run_one-Locked :
    (port timeout : ℕ) (c : LockClass) (key : Key) (host : String) (v : Visit) (m : LockManager)
    (b : Bridge) {a : Claim}
    → b.lock_manager ≡ some m
    → AllValid m
    → requested c (some key) ≡ some a
    → Locked host a m
        (is_capture c && (run_one port timeout c key host v b).1.ok)
        (run_one port timeout c key host v b).0
unfolding run_one
run_one-Locked port timeout c key host v m b {a = a} e valid h =
    let (outcome, keeps) = acquire-Outcome host c (some key) m valid h in
    rw (lock-acquire host c key a m b e h) (
      run_locked-Locked host port timeout c key a v m (Manager.acquire host c (some key) m).0
        (record b { lock_manager = some (Manager.acquire host c (some key) m).0 })
        (Manager.acquire host c (some key) m).1 refl h outcome keeps)

-- Under a manager whose locks are valid, for a class other than NONE: on a target where a claim in
-- conflict is held, the run fails with a LockConflict that names the target, whatever the target
-- would have answered, and the pools are as before.
pub run_one_busy :
    (port timeout : ℕ) (c : LockClass) (key : Key) (host : String) (v : Visit) (m : LockManager)
    (b : Bridge) {a : Claim}
    → b.lock_manager ≡ some m
    → AllValid m
    → requested c (some key) ≡ some a
    → any (in_conflict a) (held host m) ≡ true
    → (e : LockConflict) × (e.target ≡ host)
      × ((run_one port timeout c key host v b).1 ≡ failed_with host (conflict e) Value.null)
      × ((run_one port timeout c key host v b).0.scheduler ≡ b.scheduler)
unfolding run_one run_locked
run_one_busy port timeout c key host v m b {a = a} e valid h taken =
    elim (acquire-Outcome host c (some key) m valid h).0 [
      | inl (q, grants) ↦ absurd (let free = grants.free in cc)
      | inr (x, q, refuses) ↦ (
        x,
        refuses.named,
        rw (lock-acquire host c key a m b e h) (rw q refl),
        rw (lock-acquire host c key a m b e h) (rw q refl),
      )
    ]

-- The same claims are held on every target.
pub record Restored (m : LockManager) (b : Bridge) : Type 0 where
  pub manager : LockManager
  pub there : b.lock_manager ≡ some manager
  pub all_valid : AllValid manager
  pub same : (j : String) → held j manager ≡ held j m

Locked-Restored :
    (host : String) (a : Claim) (m : LockManager) (kept : Bool) (b : Bridge)
    → kept ≡ false
    → Locked host a m kept b
    → Restored m b
Locked-Restored host a m kept b gone l = record {
  manager = l.manager;
  there = l.there;
  all_valid = l.keeps.all_valid;
  same = λ j. elim (string_eq.dec j host) [
    | yes e ↦
        subst (λ i. held i l.manager ≡ held i m) (sym e)
          (l.holds ∙ ap (λ k. if k then held host m ++ a ∷ [] else held host m) gone)
    | no ne ↦ l.keeps.others j ne
  ];
}

exclusive-is_capture : (c : LockClass) → IsExclusive c → is_capture c ≡ false
exclusive-is_capture capture x = absurd x
exclusive-is_capture c x = refl

exclusive-requested :
    (c : LockClass) (key : Key) → IsExclusive c → requested c (some key) ≡ some (exclusive c)
exclusive-requested unlocked key x = absurd x
exclusive-requested capture key x = absurd x
exclusive-requested c key x = refl

-- After a run under an exclusive class the claims are held that were held before.
pub run_one-Restored :
    (port timeout : ℕ) (c : LockClass) (key : Key) (host : String) (v : Visit) (m : LockManager)
    (b : Bridge)
    → IsExclusive c
    → b.lock_manager ≡ some m
    → AllValid m
    → Restored m (run_one port timeout c key host v b).0
run_one-Restored port timeout c key host v m b x e valid =
    Locked-Restored host (exclusive c) m _ _
      (ap (λ k. k && (run_one port timeout c key host v b).1.ok) (exclusive-is_capture c x))
      (run_one-Locked port timeout c key host v m b e valid (exclusive-requested c key x))

pub Restored-trans :
    (m : LockManager) (b b' : Bridge) (first : Restored m b)
    → Restored first.manager b'
    → Restored m b'
Restored-trans m b b' first rest = record {
  manager = rest.manager;
  there = rest.there;
  all_valid = rest.all_valid;
  same = λ j. rest.same j ∙ first.same j;
}

-- After a batch under an exclusive class (that of every tool on `_run_batch` but `capture_start`)
-- with a manager whose locks are valid, whatever its runs meet and however many name one target, on
-- every target the claims are held that were held before.
pub run_all-Restored :
    (port timeout : ℕ) (c : LockClass) (key : Key) (calls : List (String × Visit)) (m : LockManager)
    (b : Bridge)
    → IsExclusive c
    → b.lock_manager ≡ some m
    → AllValid m
    → Restored m (run_all port timeout c key calls b).0
unfolding run_all
run_all-Restored port timeout c key [] m b x e valid = record {
  manager = m;
  there = e;
  all_valid = valid;
  same = λ j. refl;
}
run_all-Restored port timeout c key ((host, v) ∷ calls) m b x e valid =
    let b1 = (run_one port timeout c key host v b).0 in
    let first = run_one-Restored port timeout c key host v m b x e valid in
    Restored-trans m b1 (run_all port timeout c key calls b1).0 first
      (run_all-Restored port timeout c key calls first.manager b1 x first.there first.all_valid)
