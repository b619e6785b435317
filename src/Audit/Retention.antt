-- ===== src/Audit/Retention.antt =====
-- What the table of the audit log (src/mcp_socket_server/audit.py) holds after any sequence of calls.
use mcp_socket_server.Prelude.{
  ℕ, ◌+◌, ◌*◌, ◌≤◌, ◌<◌, String, ◌≡◌, ap, ◌∙◌, ◌⊎◌, inl, inr, Bool, true, not, List, [], ◌∷◌, ◌++◌,
  keep_if, All, All-append, arith, Bool-cases, Result, ok, err, ltb-ge,
}
use mcp_socket_server.Errors.{Exn}
use mcp_socket_server.Value.{Value}
use mcp_socket_server.Audit.{
  Entry, AuditLogger, Report, day, is_expired, cleanup, append_row, write, row_texts,
}

-- A call, with its time.
pub data Call : Type 0 where
  writes : ℕ → Report → Call
  -- the removal of rows that are older than so many days
  cleans : ℕ → ℕ → Call

abbrev pub Has : List Entry → Entry → Type 0
Has [] e = ⊥
Has (x ∷ xs) e = (x ≡ e) ⊎ Has xs e

-- The ids go up, and stay at or below the last one.
abbrev pub Ascending : ℕ → List Entry → Type 0
Ascending low [] = Unit
Ascending low (e ∷ es) = (low < e.id) × Ascending e.id es

pub record IsLog (a : AuditLogger) : Type 0 where
  pub ascending : Ascending 0 a.rows
  pub below : All (λ (e : Entry). e.id ≤ a.last_id) a.rows

Ascending-le : (low high : ℕ) (es : List Entry) → low ≤ high → Ascending high es → Ascending low es
Ascending-le low high [] le h = tt
Ascending-le low high (e ∷ es) le (first, rest) = (omega arith, rest)

Ascending-keep_if :
    (p : Entry → Bool) (low : ℕ) (es : List Entry) → Ascending low es → Ascending low (keep_if p es)
Ascending-keep_if p low [] h = tt
Ascending-keep_if p low (e ∷ es) (first, rest) = elim (Bool-cases (p e)) [
  | inl kept ↦ rw kept (first, Ascending-keep_if p e.id es rest)
  | inr gone ↦
      rw gone
        (Ascending-le low e.id (keep_if p es) (omega arith) (Ascending-keep_if p e.id es rest))
]

All-keep_if :
    (P : Entry → Type 0) (p : Entry → Bool) (es : List Entry) → All P es → All P (keep_if p es)
All-keep_if P p [] h = tt
All-keep_if P p (e ∷ es) (first, rest) = elim (Bool-cases (p e)) [
  | inl kept ↦ rw kept (first, All-keep_if P p es rest)
  | inr gone ↦ rw gone (All-keep_if P p es rest)
]

Ascending-append :
    (low top : ℕ) (es : List Entry) (e : Entry)
    → Ascending low es
    → All (λ (x : Entry). x.id ≤ top) es
    → low ≤ top
    → top < e.id
    → Ascending low (es ++ e ∷ [])
Ascending-append low top [] e h below le lt = (omega arith, tt)
Ascending-append low top (x ∷ es) e (first, rest) (b, below) le lt =
    (first, Ascending-append x.id top es e rest below b lt)

All-le :
    (top : ℕ) (es : List Entry)
    → All (λ (e : Entry). e.id ≤ top) es
    → All (λ (e : Entry). e.id ≤ top + 1) es
All-le top [] h = tt
All-le top (e ∷ es) (first, rest) = (omega arith, All-le top es rest)

cleanup-IsLog : (now days : ℕ) (a : AuditLogger) → IsLog a → IsLog (cleanup now days a)
unfolding cleanup
cleanup-IsLog now days a h = record {
  ascending = Ascending-keep_if (λ (e : Entry). not (is_expired now days e)) 0 a.rows h.ascending;
  below = All-keep_if _ (λ (e : Entry). not (is_expired now days e)) a.rows h.below;
}

Has-keep_if :
    (p : Entry → Bool) (es : List Entry) (e : Entry) → p e ≡ true → Has es e → Has (keep_if p es) e
Has-keep_if p [] e h there = absurd there
Has-keep_if p (x ∷ es) e h (inl same) = rw (ap p same ∙ h) (inl same)
Has-keep_if p (x ∷ es) e h (inr later) = elim (Bool-cases (p x)) [
  | inl kept ↦ rw kept (inr (Has-keep_if p es e h later))
  | inr gone ↦ rw gone (Has-keep_if p es e h later)
]

Has-append : (es : List Entry) (x e : Entry) → Has es e → Has (es ++ x ∷ []) e
Has-append [] x e there = absurd there
Has-append (y ∷ es) x e (inl same) = inl same
Has-append (y ∷ es) x e (inr later) = inr (Has-append es x e later)

append_row-IsLog :
    (now : ℕ) (r : Report) (a : AuditLogger) (texts : String × String)
    → IsLog a
    → IsLog (append_row now r a texts)
unfolding append_row
append_row-IsLog now r a (params, outcomes) h = record {
  ascending = Ascending-append 0 a.last_id a.rows _ h.ascending h.below (omega arith) (omega arith);
  below = All-append _ a.rows _ (All-le a.last_id a.rows h.below) (omega arith, tt);
}

-- The removal comes no later than the days of retention of the row allow.
abbrev pub Spares : Entry → Call → Type 0
Spares e (writes now r) = Unit
Spares e (cleans now days) = now ≤ e.ts + days * day

module _ (str : Value → String) (dumps : Value → Result Exn String) where
  abbrev written : AuditLogger → Result Exn AuditLogger → AuditLogger
  written a (ok a') = a'
  written a (err e) = a

  -- A call whose exception the caller drops, as every tool does.
  pub call : Call → AuditLogger → AuditLogger
  unfolding write cleanup
  call (writes now r) a = written a (write str dumps now r a)
  call (cleans now days) a = cleanup now days a

  pub run : List Call → AuditLogger → AuditLogger
  unfolding call
  run [] a = a
  run (c ∷ cs) a = run cs (call c a)

  call-IsLog : (c : Call) (a : AuditLogger) → IsLog a → IsLog (call c a)
  unfolding call write
  call-IsLog (cleans now days) a h = cleanup-IsLog now days a h
  call-IsLog (writes now r) a h = stored (row_texts str dumps r)
    where
      stored :
          (texts : Result Exn (String × String))
          → IsLog (
              written a (elim texts as (λ _. Result Exn AuditLogger) [
                | err e ↦ err e
                | ok t ↦ ok (append_row now r a t)
              ]))
      stored (err e) = h
      stored (ok t) = append_row-IsLog now r a t h

  -- After any calls on the audit log the ids of its rows go up, so that no two rows share one.
  pub run-IsLog : (cs : List Call) (a : AuditLogger) → IsLog a → IsLog (run cs a)
  unfolding run
  run-IsLog [] a h = h
  run-IsLog (c ∷ cs) a h = run-IsLog cs (call c a) (call-IsLog c a h)

  call-Has :
      (c : Call) (a : AuditLogger) (e : Entry) → Spares e c → Has a.rows e → Has (call c a).rows e
  unfolding call write cleanup append_row
  call-Has (cleans now days) a e spared there =
      Has-keep_if (λ (x : Entry). not (is_expired now days x)) a.rows e
        (ap not (ltb-ge (e.ts + days * day) now spared)) there
  call-Has (writes now r) a e spared there = stored (row_texts str dumps r)
    where
      stored :
          (texts : Result Exn (String × String))
          → Has
              (written a (elim texts as (λ _. Result Exn AuditLogger) [
                | err e ↦ err e
                | ok t ↦ ok (append_row now r a t)
              ])).rows
              e
      stored (err x) = there
      stored (ok (params, outcomes)) = Has-append a.rows _ e there

  -- A row stays in the audit log, unchanged, through any calls whose removals are made before its days of
  -- retention have passed.
  pub run-Has :
      (cs : List Call) (a : AuditLogger) (e : Entry)
      → All (Spares e) cs
      → Has a.rows e
      → Has (run cs a).rows e
  unfolding run
  run-Has [] a e spared there = there
  run-Has (c ∷ cs) a e (first, rest) there =
      run-Has cs (call c a) e rest (call-Has c a e first there)
