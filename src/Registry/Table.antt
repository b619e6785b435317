-- ===== src/Registry/Table.antt =====
-- The table of src/mcp_socket_server/registry.py as its callers see it: by host and port.
use mcp_socket_server.Prelude.{
  ℕ, ◌+◌, ◌≤◌, String, ◌≡◌, refl, Bool, false, ◌&&◌, not, Option, none, some, List, [], ◌∷◌, ◌++◌,
  ◌==◌, nat_eq, string_eq, if◌then◌else◌, arith, All, All-append, ok, err, Bool-cases, inl, inr,
}
use mcp_socket_server.Registry.{
  Row, Registry, is_found, find_row, add_target, delete_rows, remove_target, no_such_target,
  update_liveness, set_listen_liveness, get_listen_liveness, tags_or_empty,
}

-- UNIQUE(host, port)
abbrev pub Unique : List Row → Type 0
Unique [] = Unit
Unique (row ∷ rows) = (find_row row.host row.port rows ≡ none) × Unique rows

pub record IsTable (r : Registry) : Type 0 where
  pub unique : Unique r.rows
  pub numbered : All (λ row. row.id ≤ r.last_id) r.rows

-- A statement is about the row of this host and port.
abbrev pub same_key : String → ℕ → String → ℕ → Bool
same_key host port h p = host == h && port == p

find_row-append :
    (h : String) (p : ℕ) (rows : List Row) (row : Row)
    → find_row h p (rows ++ row ∷ [])
      ≡ (if is_found (find_row h p rows) then find_row h p rows else find_row h p (row ∷ []))
unfolding find_row
find_row-append h p [] row = refl
find_row-append h p (r ∷ rows) row = ground (arith, find_row-append h p rows row)

find_row-delete :
    (h host : String) (p port : ℕ) (rows : List Row)
    → find_row h p (delete_rows host port rows)
      ≡ (if same_key host port h p then none else find_row h p rows)
unfolding find_row delete_rows
find_row-delete h host p port [] = ground arith
find_row-delete h host p port (row ∷ rows) = ground (arith, find_row-delete h host p port rows)

abbrev with_liveness : Bool → Option Row → Option Row
with_liveness alive none = none
with_liveness alive (some row) = some (record row { listen_liveness = alive })

find_row-update :
    (h host : String) (p port : ℕ) (alive : Bool) (rows : List Row)
    → find_row h p (update_liveness host port alive rows) ≡ (
        if same_key host port h p
        then with_liveness alive (find_row h p rows)
        else find_row h p rows)
unfolding find_row update_liveness
find_row-update h host p port alive [] = ground arith
find_row-update h host p port alive (row ∷ rows) =
    ground (arith, find_row-update h host p port alive rows)

-- The row that `add_target` writes for a new host and port.
abbrev pub new_row : Registry → String → ℕ → Option (List String) → String → ℕ → Row
new_row r host port tags note now = record {
  id = r.last_id + 1;
  host = host;
  port = port;
  tags = tags_or_empty tags;
  note = note;
  created_at = now;
  listen_liveness = false;
}

module _ (host : String) (port : ℕ) (tags : Option (List String)) (note : String) (now : ℕ)
    (r : Registry) where
  -- After `add_target` the key has the row that it had, with its old tags and note, or else the new one;
  -- every other key is as before.
  pub find_row-add_target :
      (h : String) (p : ℕ)
      → find_row h p (add_target host port tags note now r).rows ≡ (
          if same_key host port h p && not (is_found (find_row h p r.rows))
          then some (new_row r host port tags note now)
          else find_row h p r.rows)
  unfolding add_target find_row
  find_row-add_target h p =
      ground (arith, find_row-append h p r.rows (new_row r host port tags note now))

module _ (host : String) (port : ℕ) (r : Registry) where
  -- `remove_target` succeeds exactly if the key has a row, and then it has none; every other key is as
  -- before.
  pub find_row-remove_target :
      (h : String) (p : ℕ)
      → (find_row h p (remove_target host port r).0.rows
          ≡ (if same_key host port h p then none else find_row h p r.rows))
        × ((remove_target host port r).1
            ≡ (if is_found (find_row host port r.rows) then ok tt else err no_such_target))
  unfolding remove_target
  find_row-remove_target h p = (find_row-delete h host p port r.rows, refl)

  -- `set_listen_liveness` is read back by `get_listen_liveness` for a registered key, does nothing for
  -- one that is not registered, and leaves every other key as before.
  pub get-set_listen_liveness :
      (alive : Bool) (h : String) (p : ℕ)
      → get_listen_liveness h p (set_listen_liveness host alive port r) ≡ (
          if same_key host port h p
          then is_found (find_row host port r.rows) && alive
          else get_listen_liveness h p r)
  unfolding get_listen_liveness set_listen_liveness
  get-set_listen_liveness alive h p = ground (arith, find_row-update h host p port alive r.rows)

-- Each method keeps the constraint UNIQUE(host, port) and the numbering of the rows.
Unique-append :
    (rows : List Row) (row : Row)
    → Unique rows
    → find_row row.host row.port rows ≡ none
    → Unique (rows ++ row ∷ [])
unfolding find_row
Unique-append [] row u h = (refl, tt)
Unique-append (r ∷ rows) row u h =
    ground (arith, Unique-append rows row u.1, find_row-append r.host r.port rows row)

All-id-le :
    (rows : List Row) (m n : ℕ)
    → m ≤ n
    → All (λ row. row.id ≤ m) rows
    → All (λ row. row.id ≤ n) rows
All-id-le [] m n h a = tt
All-id-le (row ∷ rows) m n h a = (omega arith, All-id-le rows m n h a.1)

pub add_target-IsTable :
    (host : String) (port : ℕ) (tags : Option (List String)) (note : String) (now : ℕ)
    (r : Registry)
    → IsTable r
    → IsTable (add_target host port tags note now r)
unfolding add_target
add_target-IsTable host port tags note now r v =
    elim (Bool-cases (is_found (find_row host port r.rows))) [
      | inl old ↦ rw old v
      | inr new ↦ rw new (record {
        unique = Unique-append r.rows (new_row r host port tags note now) v.unique (ground arith);
        numbered =
            All-append _ r.rows _
              (All-id-le r.rows r.last_id (r.last_id + 1) (omega arith) v.numbered) (omega arith);
      })
    ]

delete_rows-Unique :
    (host : String) (port : ℕ) (rows : List Row) → Unique rows → Unique (delete_rows host port rows)
unfolding delete_rows
delete_rows-Unique host port [] u = tt
delete_rows-Unique host port (row ∷ rows) u =
    ground (
      arith,
      delete_rows-Unique host port rows u.1,
      find_row-delete row.host host row.port port rows,
    )

delete_rows-numbered :
    (host : String) (port n : ℕ) (rows : List Row)
    → All (λ row. row.id ≤ n) rows
    → All (λ row. row.id ≤ n) (delete_rows host port rows)
unfolding delete_rows
delete_rows-numbered host port n [] a = tt
delete_rows-numbered host port n (row ∷ rows) a =
    ground (arith, delete_rows-numbered host port n rows a.1)

pub remove_target-IsTable :
    (host : String) (port : ℕ) (r : Registry) → IsTable r → IsTable (remove_target host port r).0
unfolding remove_target
remove_target-IsTable host port r v = record {
  unique = delete_rows-Unique host port r.rows v.unique;
  numbered = delete_rows-numbered host port r.last_id r.rows v.numbered;
}

update_liveness-IsTable :
    (host : String) (port : ℕ) (alive : Bool) (n : ℕ) (rows : List Row)
    → Unique rows
    → All (λ row. row.id ≤ n) rows
    → Unique (update_liveness host port alive rows)
      × All (λ row. row.id ≤ n) (update_liveness host port alive rows)
unfolding update_liveness
update_liveness-IsTable host port alive n [] u a = (tt, tt)
update_liveness-IsTable host port alive n (row ∷ rows) u a =
    let (u', a') = update_liveness-IsTable host port alive n rows u.1 a.1 in
    (ground (arith, u', find_row-update row.host host row.port port alive rows), ground (arith, a'))

pub set_listen_liveness-IsTable :
    (host : String) (alive : Bool) (port : ℕ) (r : Registry)
    → IsTable r
    → IsTable (set_listen_liveness host alive port r)
unfolding set_listen_liveness
set_listen_liveness-IsTable host alive port r v =
    let (u, a) = update_liveness-IsTable host port alive r.last_id r.rows v.unique v.numbered in
    record { unique = u; numbered = a }
