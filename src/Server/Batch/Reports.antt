-- ===== src/Server/Batch/Reports.antt =====
-- The report of a batch: `_run_batch`, `_failed` and `_wrap` (src/mcp_socket_server/server.py).
use mcp_socket_server.Prelude.{
  All, ℕ, suc, ◌+◌, String, ◌≡◌, ◌≢◌, refl, ap, ◌∙◌, ◌⊎◌, inl, inr, true, false, none, List, [],
  ◌∷◌, length, keep_if, length-map, arith, Result, ok, err, string_eq,
}
use mcp_socket_server.Errors.{Exn}
use mcp_socket_server.Value.{Value}
use mcp_socket_server.Commands.{LockClass}
use mcp_socket_server.Locks.{Key, LockConflict}
use mcp_socket_server.Pool.{Client, TargetPool}
use mcp_socket_server.Pool.Scheduler.{
  Visit, acquire, get_pool, TargetResult, Reason, Scheduler, batch, succeeded, failed_with,
  target_result,
}
use mcp_socket_server.Server.{Bridge, Failure, Report, report, failed, wrap, count_ok}
use mcp_socket_server.Server.Batch.{
  judge, of_verdict, verdict, lock, serve, run_locked, run_one, run_all, run_batch,
}

pub count_ok-failed :
    (results : List TargetResult) → count_ok results + length (failed results) ≡ length results
unfolding count_ok failed
count_ok-failed [] = refl
count_ok-failed (r ∷ results) = ground (arith, count_ok-failed results)

length-keep_ok : (results : List TargetResult) → length (report results).results ≡ count_ok results
unfolding report count_ok
length-keep_ok results = length-map wrap (keep_if (λ (r : TargetResult). r.ok) results)

-- A result names its target, and has a reason exactly if it is no success.
pub record IsResult (host : String) (r : TargetResult) : Type 0 where
  pub named : r.target ≡ host
  pub reasoned : (r.ok ≡ true) ⊎ ((r.ok ≡ false) × (r.error ≢ none))

-- One result for each run, in order.
abbrev pub Answered : List (String × Visit) → List TargetResult → Type 0
Answered [] [] = Unit
Answered ((host, v) ∷ calls) (r ∷ results) = IsResult host r × Answered calls results
Answered _ _ = ⊥

pub succeeded-IsResult : (host : String) (v : Value) → IsResult host (succeeded host v)
succeeded-IsResult host v = record { named = refl; reasoned = inl refl }

pub failed_with-IsResult :
    (host : String) (x : Reason) (v : Value) → IsResult host (failed_with host x v)
failed_with-IsResult host x v = record { named = refl; reasoned = inr (refl, λ e. cc) }

judge-IsResult : (host : String) (outcome : Result Exn Value) → IsResult host (judge host outcome)
unfolding judge
judge-IsResult host (err e) = failed_with-IsResult host _ _
judge-IsResult host (ok v) = of_verdict-IsResult (verdict v)
  where
    of_verdict-IsResult : (r : Result Reason Value) → IsResult host (of_verdict host r)
    of_verdict-IsResult (ok w) = succeeded-IsResult host w
    of_verdict-IsResult (err x) = failed_with-IsResult host x _

serve-IsResult :
    (host : String) (port : ℕ) (c : LockClass) (key : Key) (v : Visit) (b : Bridge) (p : TargetPool)
    (r : Result Exn Client)
    → IsResult host (serve host port c key v b (p, r)).1
unfolding serve
serve-IsResult host port c key v b p (err e) = failed_with-IsResult host _ _
serve-IsResult host port c key v b p (ok client) = judge-IsResult host (v.fn client).1

run_locked-IsResult :
    (host : String) (port timeout : ℕ) (c : LockClass) (key : Key) (v : Visit) (b : Bridge)
    (locked : Result LockConflict (Unit {0}))
    → IsResult host (run_locked host port timeout c key v (b, locked)).1
unfolding run_locked
run_locked-IsResult host port timeout c key v b (err e) = failed_with-IsResult host _ _
run_locked-IsResult host port timeout c key v b (ok _) =
    let r = acquire timeout v (get_pool host port b.scheduler).0 in
    serve-IsResult host port c key v (record b { scheduler = (get_pool host port b.scheduler).1 })
      (r.0) (r.1)

run_all-Answered :
    (port timeout : ℕ) (c : LockClass) (key : Key) (calls : List (String × Visit)) (b : Bridge)
    → Answered calls (run_all port timeout c key calls b).1
unfolding run_all run_one
run_all-Answered port timeout c key [] b = tt
run_all-Answered port timeout c key ((host, v) ∷ calls) b = (
  run_locked-IsResult host port timeout c key v (lock host c key b).0 (lock host c key b).1,
  run_all-Answered port timeout c key calls (run_one port timeout c key host v b).0,
)

length-Answered :
    (calls : List (String × Visit)) (results : List TargetResult)
    → Answered calls results
    → length results ≡ length calls
length-Answered [] [] h = refl
length-Answered [] (r ∷ results) h = absurd h
length-Answered (_ ∷ calls) [] h = absurd h
length-Answered (_ ∷ calls) (r ∷ results) (_, h) = ap suc (length-Answered calls results h)

failed-reasons :
    (calls : List (String × Visit)) (results : List TargetResult)
    → Answered calls results
    → All (λ (f : Failure). f.reason ≢ none) (failed results)
unfolding failed
failed-reasons [] [] h = tt
failed-reasons [] (r ∷ results) h = absurd h
failed-reasons (_ ∷ calls) [] h = absurd h
failed-reasons (_ ∷ calls) (r ∷ results) (first, h) = elim first.reasoned [
  | inl good ↦ rw good (failed-reasons calls results h)
  | inr (bad, reason) ↦ rw bad (reason, failed-reasons calls results h)
]

-- A report on so many targets.
pub record Accounts (n : ℕ) (r : Report) : Type 0 where
  pub total : r.ok + length r.failed ≡ n
  pub listed : length r.results ≡ r.ok
  pub reasons : All (λ (f : Failure). f.reason ≢ none) r.failed

-- A report on results that answer for every run accounts for the runs.
pub report-Accounts :
    (calls : List (String × Visit)) (results : List TargetResult)
    → Answered calls results
    → Accounts (length calls) (report results)
unfolding report
report-Accounts calls results answered = record {
  total = count_ok-failed results ∙ length-Answered calls results answered;
  listed = length-keep_ok results;
  reasons = failed-reasons calls results answered;
}

-- In the report of `_run_batch`, `ok` and the number of failures add up to the number of targets, `ok` is
-- the number of the results, and every failure has a reason.
pub run_batch-Accounts :
    (port timeout : ℕ) (c : LockClass) (key : Key) (calls : List (String × Visit)) (b : Bridge)
    → Accounts (length calls) (run_batch port timeout c key calls b).1
unfolding run_batch
run_batch-Accounts port timeout c key calls b =
    report-Accounts calls (run_all port timeout c key calls b).1
      (run_all-Answered port timeout c key calls b)

-- The read-only tools' `batch` answers for every target, in order, and gives a reason where it fails.
pub batch-Answered :
    (port timeout : ℕ) (calls : List (String × Visit)) (s : Scheduler)
    → Answered calls (batch port timeout calls s).1
unfolding batch
batch-Answered port timeout [] s = tt
batch-Answered port timeout ((host, v) ∷ calls) s =
    (answered _, batch-Answered port timeout calls _)
  where
    answered : (r : Result Exn Value) → IsResult host (target_result host r)
    answered (ok w) = succeeded-IsResult host w
    answered (err e) = failed_with-IsResult host _ _
