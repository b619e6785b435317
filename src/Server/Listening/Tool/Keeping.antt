-- ===== src/Server/Listening/Tool/Keeping.antt =====
-- What the tool `socket_listen` (src/mcp_socket_server/server.py) leaves of the marks and of the locks.
use mcp_socket_server.Prelude.{
  ℕ, String, ◌≡◌, refl, ◌∙◌, Bool, true, false, ◌&&◌, Option, none, some, List, [], ◌∷◌, Bool-cases,
  inl, inr, Result, ok, err, arith,
}
use mcp_socket_server.Commands.{system}
use mcp_socket_server.Value.{Value}
use mcp_socket_server.Errors.{Exn}
use mcp_socket_server.Locks.Manager.{LockManager}
use mcp_socket_server.Locks.Manager.Held.{AllValid}
use mcp_socket_server.Pool.{Client}
use mcp_socket_server.Pool.Scheduler.{Visit}
use mcp_socket_server.Registry.{Registry, find_row, is_found, get_listen_liveness}
use mcp_socket_server.Registry.Table.{same_key, get-set_listen_liveness}
use mcp_socket_server.Agent.{Codec}
use mcp_socket_server.Agent.Calls
use mcp_socket_server.Agent.Listen
use mcp_socket_server.Agent.Listen.{Action, starts, cleans, stops, saves, fetches, unknown}
use mcp_socket_server.Server.{Bridge, Report}
use mcp_socket_server.Server.Batch.Locking.{Restored, run_one-Restored, Restored-trans}
use mcp_socket_server.Server.Listening.{run_start, run_stop, supports_stop, mark}
use mcp_socket_server.Server.Listening.Tool.{
  act, lent, registry_after, listen_one, listen_all, listen_unless, socket_listen, action_of,
}
use mcp_socket_server.Server.Reads.{Turn}
use mcp_socket_server.Server.Writes.{check_listen}

abbrev pub is_marked : String → ℕ → Option Registry → Bool
is_marked h p none = false
is_marked h p (some r) = get_listen_liveness h p r

-- How a mark may change: a start clears none, a stop sets none, and the other actions change none.
abbrev pub Follows : Action → Bool → Bool → Type 0
Follows (starts n) before after = (before && after) ≡ before
Follows stops before after = (before && after) ≡ after
Follows action before after = after ≡ before

same-Follows : (action : Action) (x : Bool) → Follows action x x
same-Follows (starts n) x = ground arith
same-Follows cleans x = refl
same-Follows stops x = ground arith
same-Follows (saves f) x = refl
same-Follows fetches x = refl
same-Follows (unknown a) x = refl

Follows-trans :
    (action : Action) (x y z : Bool) → Follows action x y → Follows action y z → Follows action x z
Follows-trans (starts n) x y z p q = ground arith
Follows-trans cleans x y z p q = q ∙ p
Follows-trans stops x y z p q = ground arith
Follows-trans (saves f) x y z p q = q ∙ p
Follows-trans fetches x y z p q = q ∙ p
Follows-trans (unknown a) x y z p q = q ∙ p

get-found :
    (host : String) (port : ℕ) (h : String) (p : ℕ) (r : Registry)
    → same_key host port h p ≡ true
    → (get_listen_liveness h p r && is_found (find_row host port r.rows))
      ≡ get_listen_liveness h p r
unfolding get_listen_liveness find_row
get-found host port h p r e = ground arith

mark-Follows :
    (n : ℕ) (host : String) (port : ℕ) (h : String) (p : ℕ) (r : Option Registry)
    → Follows (starts n) (is_marked h p r) (is_marked h p (mark host port true r))
mark-Follows n host port h p none = refl
mark-Follows n host port h p (some r) =
    ground (arith, get-set_listen_liveness host port r true h p, get-found host port h p r)

unmark-Follows :
    (host : String) (port : ℕ) (h : String) (p : ℕ) (r : Option Registry)
    → Follows stops (is_marked h p r) (is_marked h p (mark host port false r))
unmark-Follows host port h p none = refl
unmark-Follows host port h p (some r) =
    ground (arith, get-set_listen_liveness host port r false h p)

run_start-Follows :
    (n : ℕ) (host : String) (port : ℕ) (reply version : Result Exn Value) (h : String) (p : ℕ)
    (r : Option Registry)
    → Follows (starts n) (is_marked h p r) (is_marked h p (run_start host port reply version r).0)
unfolding run_start
run_start-Follows n host port (err e) version h p r = same-Follows (starts n) (is_marked h p r)
run_start-Follows n host port (ok v) version h p r = elim (Bool-cases (supports_stop version)) [
  | inl new ↦ rw new (mark-Follows n host port h p r)
  | inr old ↦ rw old (same-Follows (starts n) (is_marked h p r))
]

run_stop-Follows :
    (host : String) (port : ℕ) (reply : Result Exn Value) (h : String) (p : ℕ) (r : Option Registry)
    → Follows stops (is_marked h p r) (is_marked h p (run_stop host port reply r).0)
unfolding run_stop
run_stop-Follows host port (err e) h p r = same-Follows stops (is_marked h p r)
run_stop-Follows host port (ok v) h p r = unmark-Follows host port h p r

-- What a bridge has kept through calls with an action.
pub record Kept (action : Action) (m : LockManager) (b b' : Bridge) : Type 0 where
  pub restored : Restored m b'
  pub marks :
      (h : String) (p : ℕ) → Follows action (is_marked h p b.registry) (is_marked h p b'.registry)

module _ (codec : Codec) (encode : List ℕ → String) (port max_bytes timeout : ℕ)
    (file_path : String) where
  act-Follows :
      (action : Action) (t : Turn) (c : Client) (h : String) (p : ℕ) (r : Option Registry)
      → Follows action
          (is_marked h p r)
          (is_marked h p (act codec encode port max_bytes file_path action t r c).0)
  unfolding act
  act-Follows (starts n) t c h p r =
      let (reply, s) = Listen.socket_listen codec c (starts n) t.sock in
      run_start-Follows n c.host port reply (Calls.version codec c s).0 h p r
  act-Follows stops t c h p r = run_stop-Follows c.host port _ h p r
  act-Follows cleans t c h p r = refl
  act-Follows (saves f) t c h p r = refl
  act-Follows fetches t c h p r = refl
  act-Follows (unknown a) t c h p r = refl

  after-Follows :
      (action : Action) (t : Turn) (lent_to : Option Client) (h : String) (p : ℕ)
      (r : Option Registry)
      → Follows action (is_marked h p r) (
          is_marked h p (
            registry_after port timeout
              (act codec encode port max_bytes file_path action t r)
              r
              lent_to))
  after-Follows action t none h p r = same-Follows action (is_marked h p r)
  after-Follows action t (some c) h p r = act-Follows action t c h p r

  listen_one-Kept :
      (host : String) (action : Action) (t : Turn) (m : LockManager) (b : Bridge)
      → b.lock_manager ≡ some m
      → AllValid m
      → Kept action m b
          (listen_one port timeout host t.visit
            (act codec encode port max_bytes file_path action t b.registry)
            b).0
  unfolding listen_one
  listen_one-Kept host action t m b e valid =
      let fn = act codec encode port max_bytes file_path action t b.registry in
      let v : Visit = record t.visit { fn = λ c. (c, (fn c).1) } in
      let once = run_one-Restored port timeout system [] host v m b tt e valid in
      record {
        restored = record {
          manager = once.manager;
          there = once.there;
          all_valid = once.all_valid;
          same = once.same;
        };
        marks = λ h p. after-Follows action t (lent port timeout host t.visit b) h p b.registry;
      }

  listen_all-Kept :
      (action : Action) (turns : List (String × Turn)) (m : LockManager) (b : Bridge)
      → b.lock_manager ≡ some m
      → AllValid m
      → Kept action m b (listen_all port timeout codec encode max_bytes file_path action turns b).0
  unfolding listen_all
  listen_all-Kept action [] m b e valid = record {
    restored = record { manager = m; there = e; all_valid = valid; same = λ j. refl };
    marks = λ h p. same-Follows action (is_marked h p b.registry);
  }
  listen_all-Kept action ((host, t) ∷ turns) m b e valid =
      let fn = act codec encode port max_bytes file_path action t b.registry in
      let b1 = (listen_one port timeout host t.visit fn b).0 in
      let b2 = (listen_all port timeout codec encode max_bytes file_path action turns b1).0 in
      let once = listen_one-Kept host action t m b e valid in
      let first = once.restored in
      let rest = listen_all-Kept action turns first.manager b1 first.there first.all_valid in
      record {
        restored = Restored-trans m b1 b2 first rest.restored;
        marks = λ h p.
            Follows-trans action (is_marked h p b.registry) (is_marked h p b1.registry)
              (is_marked h p b2.registry) (once.marks h p) (rest.marks h p);
      }

  unless-Kept :
      (checked : Option Report) (action : Action) (turns : List (String × Turn)) (m : LockManager)
      (b : Bridge)
      → b.lock_manager ≡ some m
      → AllValid m
      → Kept action m b
          (listen_unless port timeout codec encode max_bytes file_path checked action turns b).0
  unless-Kept (some rep) action turns m b e valid = record {
    restored = record { manager = m; there = e; all_valid = valid; same = λ j. refl };
    marks = λ h p. same-Follows action (is_marked h p b.registry);
  }
  unless-Kept none action turns m b e valid = listen_all-Kept action turns m b e valid

  -- After `socket_listen` with a manager whose locks are valid, whatever its runs meet, on every target
  -- the claims are held that were held before. A start has cleared no mark of the registry, a stop has
  -- set none, and every other action, those that the checks refuse included, has changed none.
  pub socket_listen-Kept :
      (targets : List String) (action : String) (listen_port : ℕ) (file : String)
      (turns : List (String × Turn)) (m : LockManager) (b : Bridge)
      → b.lock_manager ≡ some m
      → AllValid m
      → Kept
          (action_of action listen_port file)
          m
          b
          (socket_listen port timeout codec encode max_bytes file_path targets action listen_port
            file turns b).0
  unfolding socket_listen
  socket_listen-Kept targets action listen_port file turns m b e valid =
      unless-Kept (check_listen action file targets) (action_of action listen_port file) turns m b e
        valid
