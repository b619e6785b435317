-- ===== src/Registry/Listing.antt =====
-- Histories of the registry, and what `list_targets` (src/mcp_socket_server/registry.py) lists.
use mathlib.Core.List.{Perm}
use mathlib.Core.List.Perm
use mcp_socket_server.Prelude.{
  ℕ, ◌≤◌, String, ◌≡◌, refl, Bool, Option, none, some, List, [], ◌∷◌, arith, All, leb, leb→le,
  Bool-cases, inl, inr, string_eq,
}
use mcp_socket_server.Registry.{
  Row, Registry, empty_registry, add_target, remove_target, set_listen_liveness, insert_by_time,
  sort_by_time, list_targets,
}
use mcp_socket_server.Registry.Table.{
  IsTable, add_target-IsTable, remove_target-IsTable, set_listen_liveness-IsTable,
}

pub data Call : Type 0 where
  adds : String → ℕ → Option (List String) → String → ℕ → Call
  removes : String → ℕ → Call
  sets : String → Bool → ℕ → Call

unfoldable pub step : Call → Registry → Registry
step (adds host port tags note now) r = add_target host port tags note now r
step (removes host port) r = (remove_target host port r).0
step (sets host alive port) r = set_listen_liveness host alive port r

unfoldable pub run : List Call → Registry → Registry
unfolding step
run [] r = r
run (call ∷ calls) r = run calls (step call r)

step-IsTable : (call : Call) (r : Registry) → IsTable r → IsTable (step call r)
unfolding step
step-IsTable (adds host port tags note now) r v = add_target-IsTable host port tags note now r v
step-IsTable (removes host port) r v = remove_target-IsTable host port r v
step-IsTable (sets host alive port) r v = set_listen_liveness-IsTable host alive port r v

run-IsTable_from : (calls : List Call) (r : Registry) → IsTable r → IsTable (run calls r)
unfolding run
run-IsTable_from [] r v = v
run-IsTable_from (call ∷ calls) r v = run-IsTable_from calls (step call r) (step-IsTable call r v)

-- After any calls the table has at most one row for a host and port, and no id above the last one.
pub run-IsTable : (calls : List Call) → IsTable (run calls empty_registry)
run-IsTable calls = run-IsTable_from calls empty_registry (record { unique = tt; numbered = tt })

-- Rows in the order of their times.
abbrev pub Ordered : List Row → Type 0
Ordered [] = Unit
Ordered (row ∷ rows) = All (λ r. row.created_at ≤ r.created_at) rows × Ordered rows

All-insert_by_time :
    (n : ℕ) (row : Row) (rows : List Row)
    → n ≤ row.created_at
    → All (λ r. n ≤ r.created_at) rows
    → All (λ r. n ≤ r.created_at) (insert_by_time row rows)
unfolding insert_by_time
All-insert_by_time n row [] h a = (h, tt)
All-insert_by_time n row (r ∷ rows) h a = ground (arith, All-insert_by_time n row rows h a.1)

All-le_trans :
    (m n : ℕ) (rows : List Row)
    → m ≤ n
    → All (λ r. n ≤ r.created_at) rows
    → All (λ r. m ≤ r.created_at) rows
All-le_trans m n [] h a = tt
All-le_trans m n (r ∷ rows) h a = (omega arith, All-le_trans m n rows h a.1)

insert_by_time-Ordered :
    (row : Row) (rows : List Row) → Ordered rows → Ordered (insert_by_time row rows)
unfolding insert_by_time
insert_by_time-Ordered row [] o = (tt, tt)
insert_by_time-Ordered row (r ∷ rows) o = elim (Bool-cases (leb row.created_at r.created_at)) [
  | inl le ↦
      rw le ((leb→le _ _ le, All-le_trans row.created_at r.created_at rows (leb→le _ _ le) o.0), o)
  | inr gt ↦ rw gt (
    All-insert_by_time r.created_at row rows (ground arith) o.0,
    insert_by_time-Ordered row rows o.1,
  )
]

insert_by_time-perm : (row : Row) (rows : List Row) → Perm (insert_by_time row rows) (row ∷ rows)
unfolding insert_by_time
insert_by_time-perm row [] = Perm.refl _
insert_by_time-perm row (r ∷ rows) = elim (Bool-cases (leb row.created_at r.created_at)) [
  | inl le ↦ rw le (Perm.refl _)
  | inr gt ↦ rw gt (Perm.trans (Perm.cons r (insert_by_time-perm row rows)) (Perm.swap row r rows))
]

sort_by_time-Ordered :
    (rows : List Row) → Ordered (sort_by_time rows) × Perm (sort_by_time rows) rows
unfolding sort_by_time
sort_by_time-Ordered [] = (tt, Perm.refl _)
sort_by_time-Ordered (row ∷ rows) =
    let (o, p) = sort_by_time-Ordered rows in
    (
      insert_by_time-Ordered row (sort_by_time rows) o,
      Perm.trans (insert_by_time-perm row (sort_by_time rows)) (Perm.cons row p),
    )

-- Without tags, or with an empty list of tags, `list_targets` lists every row once, oldest first.
pub list_targets_all :
    (r : Registry)
    → (Ordered (list_targets none r) × Perm (list_targets none r) r.rows)
      × (list_targets (some []) r ≡ list_targets none r)
unfolding list_targets
list_targets_all r = (sort_by_time-Ordered r.rows, refl)
