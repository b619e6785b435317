-- ===== src/Server/Listening/Marks.antt =====
-- What `socket_listen` of src/mcp_socket_server/server.py leaves in the registry, and what it fetches.
use mcp_socket_server.Prelude.{
  ℕ, zero, suc, and_false, ltb-ge, lt→ltb, ◌≤◌, ◌<◌, String, ◌≡◌, refl, sym, ap, ◌∙◌, inl, inr,
  true, false, none, some, List, [], ◌∷◌, if◌then◌else◌, ltb, leb, leb→le, length, take,
  length-take, arith, Bool-cases, Result, ok, err, ==_refl, string_eq, nat_eq,
}
use mcp_socket_server.Errors.{Exn}
use mcp_socket_server.Value.{Value}
use mcp_socket_server.Locks.Manager.{LockManager}
use mcp_socket_server.Registry.{
  Registry, find_row, is_found, get_listen_liveness, set_listen_liveness,
}
use mcp_socket_server.Registry.Table.{same_key, get-set_listen_liveness}
use mcp_socket_server.Server.{Bridge}
use mcp_socket_server.Server.Targets.{Refusal, remove_target}
use mcp_socket_server.Server.Targets.Guards.{remove_target-Guarded}
use mcp_socket_server.Server.Listening.{supports_stop, run_start, run_stop, run_fetch, Fetched}

same_key_refl : (host : String) (port : ℕ) → same_key host port host port ≡ true
same_key_refl host port = ground (arith, ==_refl host, ==_refl port)

run_start_marks :
    (host : String) (port : ℕ) (v : Value) (version : Result Exn Value) (r : Registry)
    → supports_stop version ≡ true
    → (run_start host port (ok v) version (some r)).0 ≡ some (set_listen_liveness host true port r)
unfolding run_start
run_start_marks host port v version r h = rw h refl

-- If a listening has begun on a registered target whose version is read as 1.7.1 or later,
-- `remove_target` refuses to remove that target as long as the registry is as `socket_listen` left
-- it.
pub run_start-remove_target :
    (host : String) (port : ℕ) (v : Value) (version : Result Exn Value) (r : Registry)
    (m : LockManager) (b : Bridge)
    → is_found (find_row host port r.rows) ≡ true
    → supports_stop version ≡ true
    → b.lock_manager ≡ some m
    → b.registry ≡ (run_start host port (ok v) version (some r)).0
    → (x : Refusal) × ((remove_target host port b).1 ≡ err x)
run_start-remove_target host port v version r m b known new e f =
    let marked : Registry = set_listen_liveness host true port r in
    let on : get_listen_liveness host port marked ≡ true =
      get-set_listen_liveness host port r true host port
      ∙ rw (same_key_refl host port) (rw known refl) in
    elim (remove_target-Guarded host port m marked b e
      (f ∙ run_start_marks host port v version r new)) [
        | inl (q, removes) ↦ absurd (let off = removes.silent in cc)
        | inr (x, q, blocked) ↦ (x, q)
      ]

-- If the listening of a target has been stopped and there is a registry, the mark of that target is
-- not set, and the mark of every other is as before.
pub run_stop-get_listen_liveness :
    (host : String) (port : ℕ) (v : Value) (r : Registry)
    → (r' : Registry) × ((run_stop host port (ok v) (some r)).0 ≡ some r')
      × ((h : String) (p : ℕ)
          → get_listen_liveness h p r'
            ≡ (if same_key host port h p then false else get_listen_liveness h p r))
unfolding run_stop
run_stop-get_listen_liveness host port v r = (
  set_listen_liveness host false port r,
  refl,
  λ h p.
      get-set_listen_liveness host port r false h p
      ∙ ap (λ b. if same_key host port h p then b else get_listen_liveness h p r)
          (and_false (is_found (find_row host port r.rows))),
)

-- The answer to a `fetch` of these bytes.
pub record Cut (max_bytes : ℕ) (bs : List ℕ) (f : Fetched) : Type 0 where
  pub bounded : length f.content ≤ max_bytes
  pub prefix : f.content ≡ take max_bytes bs
  pub size : f.size ≡ length bs
  pub marked : f.truncated ≡ ltb max_bytes (length bs)

take_all : (n : ℕ) (bs : List ℕ) → length bs ≤ n → bs ≡ take n bs
take_all zero [] h = refl
take_all zero (b ∷ bs) h = absurd (omega arith)
take_all (suc n) [] h = refl
take_all (suc n) (b ∷ bs) h = ap (◌∷◌ b) (take_all n bs (omega arith))

whole-Cut :
    (max_bytes : ℕ) (bs : List ℕ)
    → length bs ≤ max_bytes
    → Cut max_bytes bs
        (record { size = length bs; content = bs; truncated = false; file_path = none })
whole-Cut max_bytes bs h = record {
  bounded = h;
  prefix = take_all max_bytes bs h;
  size = refl;
  marked = sym (ltb-ge max_bytes (length bs) h);
}

first-Cut :
    (max_bytes : ℕ) (file_path : String) (bs : List ℕ)
    → max_bytes < length bs
    → Cut max_bytes bs (record {
      size = length bs;
      content = take max_bytes bs;
      truncated = true;
      file_path = some file_path;
    })
first-Cut max_bytes file_path bs h = record {
  bounded = omega (arith, length-take max_bytes bs);
  prefix = refl;
  size = refl;
  marked = sym (lt→ltb max_bytes (length bs) h);
}

-- If the bytes are fetched, and saved on the target where they are too many, the answer holds the first
-- `max_bytes` of them and the size of all, and says that it is cut exactly if there are more.
pub run_fetch-Cut :
    (max_bytes : ℕ) (file_path : String) (bs : List ℕ) (v : Value)
    → (f : Fetched) × (run_fetch max_bytes file_path (ok bs) (ok v) ≡ ok f) × Cut max_bytes bs f
unfolding run_fetch
run_fetch-Cut max_bytes file_path bs v = elim (Bool-cases (leb (length bs) max_bytes)) [
  | inl fits ↦ (_, rw fits refl, whole-Cut max_bytes bs (leb→le _ _ fits))
  | inr long ↦ (_, rw long refl, first-Cut max_bytes file_path bs (ground arith))
]
