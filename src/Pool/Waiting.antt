-- ===== src/Pool/Waiting.antt =====
-- The wait of `TargetPool.acquire` (src/mcp_socket_server/pool.py) for a place in the pool.
use mcp_socket_server.Prelude.{
  ℕ, ◌≤◌, ◌<◌, ◌≡◌, ◌≢◌, refl, inl, inr, List, [], ◌∷◌, ◌++◌, if◌then◌else◌, leb, arith, leb→le,
  Bool-cases, All,
}
use mcp_socket_server.Errors.{Exn, pool_full}
use mcp_socket_server.Pool.{TargetPool, max_conn_per_target}

-- What the thread sees at one turn of `while self._inuse >= MAX_CONN_PER_TARGET`: the pool as other
-- threads have left it, and the clock.
pub record Turn : Type 0 where
  pub pool : TargetPool
  pub now : ℕ

pub data Wait : Type 0 where
  -- the loop is left: there is room in this pool
  room : Turn → Wait
  -- `TimeoutError`
  gives_up : Exn → Wait
  -- still in `_cond.wait` after the turns so far
  waits : Wait

unfoldable pub await : ℕ → List Turn → Wait
await deadline [] = waits
await deadline (t ∷ turns) =
    let later = await deadline turns in
    if leb max_conn_per_target t.pool.inuse
    then (if leb deadline t.now then gives_up (pool_full t.pool.host) else later)
    else room t

-- A turn that sends the thread back to sleep.
abbrev pub Sleeps : ℕ → Turn → Type 0
Sleeps deadline t = (max_conn_per_target ≤ t.pool.inuse) × (t.now < deadline)

-- The turns are those that send the thread back to sleep, and then one that does not.
pub record Ends (deadline : ℕ) (turns : List Turn) (last : Turn) : Type 0 where
  pub before : List Turn
  pub after : List Turn
  pub split : turns ≡ before ++ last ∷ after
  pub slept : All (Sleeps deadline) before

-- How the wait ends is settled by the first turn that finds room or comes at the deadline or later.
abbrev pub Explained : ℕ → List Turn → Wait → Type 0
Explained deadline turns (room t) = Ends deadline turns t × (t.pool.inuse < max_conn_per_target)
Explained deadline turns (gives_up e) =
    (t : Turn) × Ends deadline turns t
    × (max_conn_per_target ≤ t.pool.inuse)
    × (deadline ≤ t.now)
    × (e ≡ pool_full t.pool.host)
Explained deadline turns waits = All (Sleeps deadline) turns

Ends-cons :
    {deadline : ℕ} {turns : List Turn} {last : Turn} (t : Turn)
    → Sleeps deadline t
    → Ends deadline turns last
    → Ends deadline (t ∷ turns) last
Ends-cons t s ends = record {
  before = t ∷ ends.before;
  after = ends.after;
  split = ground arith;
  slept = (s, ends.slept);
}

Explained-cons :
    (deadline : ℕ) (turns : List Turn) (t : Turn)
    → Sleeps deadline t
    → (w : Wait) → Explained deadline turns w
    → Explained deadline (t ∷ turns) w
Explained-cons deadline turns t s (room u) (ends, free) = (Ends-cons t s ends, free)
Explained-cons deadline turns t s (gives_up e) (u, ends, full, late, q) =
    (u, Ends-cons t s ends, full, late, q)
Explained-cons deadline turns t s waits asleep = (s, asleep)

-- `acquire` takes the place at the first turn at which there is room, raises at the first turn that
-- finds the pool full at or after the deadline, and sleeps on only if every turn finds it full in time.
pub await-Explained :
    (deadline : ℕ) (turns : List Turn) → Explained deadline turns (await deadline turns)
unfolding await
await-Explained deadline [] = tt
await-Explained deadline (t ∷ turns) = elim (Bool-cases (leb max_conn_per_target t.pool.inuse)) [
  | inr free ↦ rw (free, await) (at_once, ground arith)
  | inl full ↦ elim (Bool-cases (leb deadline t.now)) [
    | inl late ↦ rw (full, await) (rw late (t, at_once, leb→le _ _ full, leb→le _ _ late, refl))
    | inr early ↦
        rw (full, await)
          (rw early (
            Explained-cons deadline turns t (leb→le _ _ full, ground arith) (await deadline turns)
              (await-Explained deadline turns)))
  ]
]
  where
    at_once : Ends deadline (t ∷ turns) t
    at_once = record { before = []; after = turns; split = refl; slept = tt }

-- The wait for a place has ended by the first turn at the deadline or later.
pub await_ends :
    (deadline : ℕ) (turns more : List Turn) (t : Turn)
    → deadline ≤ t.now
    → await deadline (turns ++ t ∷ more) ≢ waits
unfolding await
await_ends deadline [] more t late = ground arith
await_ends deadline (u ∷ turns) more t late = ground (arith, await_ends deadline turns more t late)
