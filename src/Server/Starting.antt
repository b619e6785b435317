-- ===== src/Server/Starting.antt =====
-- The start of the server (src/mcp_socket_server/server.py, pool.py, locks.py, registry.py, audit.py,
-- upgrades.py): the objects of which each module keeps one, and what `init_server` sets. An object is
-- told by its number; what it holds is modelled with its class.
pub mod Sharing
pub mod Serving
use Prim.Native.Char.{Char}
use Prim.Native.String
use mcp_socket_server.Prelude.{
  ℕ, ◌+◌, String, Bool, true, false, Option, none, some, List, [], ◌∷◌, if◌then◌else◌, Result, ok,
  err,
}
use mcp_socket_server.Errors.{Exn, other_error}
use mcp_socket_server.Text.{strip, is_blank, is_empty}
use mcp_socket_server.Value.{
  Value, Items, nil, cons, Fields, end, field, null, text, num, list, dict, bytes, bool, negative,
  other, truthy,
}
use mcp_socket_server.Config.{Config}

-- An object on a database, with the argument that it was made with.
pub record Opened : Type 0 where
  pub number : ℕ
  pub db_path : Value

-- `_lock_manager`, `_registry`, `_audit_logger`, `_cmd_whitelist`, `_cfg_download_dir` and `_cfg_proxy`
-- of server.py
pub record Globals : Type 0 where
  pub lock_manager : Option ℕ
  pub registry : Option Opened
  pub audit_logger : Option Opened
  pub cmd_whitelist : Items
  pub download_dir : Value
  pub proxy : Option String

-- The globals of all modules; `made` counts the objects that have been made, and `daily` is the proxy of
-- each thread of the daily check that has been started, the last one first.
pub record Process : Type 0 where
  pub made : ℕ
  pub scheduler : Option ℕ
  pub lock_manager : Option ℕ
  pub registry : Option Opened
  pub audit : Option Opened
  pub server : Globals
  pub daily : List (Option String)

-- When the modules have been imported
abbrev pub imported : Process
imported = record {
  made = 0;
  scheduler = none;
  lock_manager = none;
  registry = none;
  audit = none;
  server = record {
    lock_manager = none;
    registry = none;
    audit_logger = none;
    cmd_whitelist = nil;
    download_dir = text "./downloads";
    proxy = none;
  };
  daily = [];
}

abbrev pub scheduler_or : Process → Option ℕ → Process × ℕ
scheduler_or p (some n) = (p, n)
scheduler_or p none = (record p { made = p.made + 1; scheduler = some p.made }, p.made)

unfoldable pub get_scheduler : Process → Process × ℕ
get_scheduler p = scheduler_or p p.scheduler

abbrev pub lock_manager_or : Process → Option ℕ → Process × ℕ
lock_manager_or p (some n) = (p, n)
lock_manager_or p none = (record p { made = p.made + 1; lock_manager = some p.made }, p.made)

unfoldable pub get_lock_manager : Process → Process × ℕ
get_lock_manager p = lock_manager_or p p.lock_manager

-- What `retention_days > 0` raises; `other` stands for a float.
unfoldable pub check_days : Value → Result Exn (Unit {0})
check_days (bool b) = ok tt
check_days (num n) = ok tt
check_days (negative n) = ok tt
check_days (other n) = ok tt
check_days v = err (other_error "TypeError")

-- list(v or [])
unfoldable pub characters : String → Items
characters String.[] = nil
characters (String.◌∷◌ c s) = cons (text (String.◌∷◌ c String.[])) (characters s)

unfoldable pub names_of : Fields → Items
names_of end = nil
names_of (field k v fs) = cons (text k) (names_of fs)

unfoldable pub numbers_of : List ℕ → Items
numbers_of [] = nil
numbers_of (b ∷ bs) = cons (num b) (numbers_of bs)

unfoldable pub list_or_empty : Value → Result Exn Items
unfolding characters names_of numbers_of
list_or_empty (list vs) = ok vs
list_or_empty (text s) = ok (characters s)
list_or_empty (dict fs) = ok (names_of fs)
list_or_empty (bytes bs) = ok (numbers_of bs)
list_or_empty v = if truthy v then err (other_error "TypeError") else ok nil

-- (v or "").strip() or None; bytes, which YAML has by a tag alone, are taken for what has no `strip`
abbrev unless_empty : String → Option String
unless_empty s = if is_empty s then none else some s

unfoldable pub proxy_of : Value → Result Exn (Option String)
unfolding strip is_blank truthy
proxy_of (text s) = ok (unless_empty (strip is_blank s))
proxy_of v = if truthy v then err (other_error "AttributeError") else ok none

abbrev pub daily_or : Bool → Option String → Process → List (Option String) → Process
daily_or alive proxy p [] = record p { daily = proxy ∷ [] }
daily_or alive proxy p (d ∷ ds) = if alive then p else record p { daily = proxy ∷ (d ∷ ds) }

-- `alive`: whether the thread of the daily check that was started last, if any, still runs
unfoldable pub start_daily_check : Bool → Option String → Process → Process
start_daily_check alive proxy p = daily_or alive proxy p p.daily

-- What may call the accessors: a tool, or `init_server` again.
pub data Call : Type 0 where
  asks_scheduler : Call
  asks_lock_manager : Call
  asks_registry : Value → Call
  asks_audit : Value → Value → Call
  starts : Bool → Config → Call

-- `connect` is what `sqlite3.connect` and the statements after it raise on a path, and `logs` what the
-- logging library raises on a level.
module _ (connect : Value → Result Exn (Unit {0})) (logs : String → Result Exn (Unit {0})) where
  -- `Registry(db_path)`
  abbrev pub made_registry : Value → Process → Result Exn (Unit {0}) → Process × Result Exn Opened
  made_registry db_path p (err e) = (p, err e)
  made_registry db_path p (ok _) =
      let r : Opened = record { number = p.made; db_path = db_path } in
      (record p { made = p.made + 1; registry = some r }, ok r)

  abbrev pub registry_or : Value → Process → Option Opened → Process × Result Exn Opened
  registry_or db_path p (some r) = (p, ok r)
  registry_or db_path p none = made_registry db_path p (connect db_path)

  unfoldable pub get_registry : Value → Process → Process × Result Exn Opened
  get_registry db_path p = registry_or db_path p p.registry

  -- `AuditLogger(db_path, retention_days)`
  abbrev pub made_audit :
      Value → Process → Result Exn (Unit {0}) → Result Exn (Unit {0}) → Process × Result Exn Opened
  made_audit db_path p (err e) days = (p, err e)
  made_audit db_path p (ok _) (err e) = (p, err e)
  made_audit db_path p (ok _) (ok _) =
      let a : Opened = record { number = p.made; db_path = db_path } in
      (record p { made = p.made + 1; audit = some a }, ok a)

  abbrev pub audit_or : Value → Value → Process → Option Opened → Process × Result Exn Opened
  audit_or db_path days p (some a) = (p, ok a)
  audit_or db_path days p none = made_audit db_path p (connect db_path) (check_days days)

  unfoldable pub get_audit : Value → Value → Process → Process × Result Exn Opened
  unfolding check_days
  get_audit db_path retention_days p = audit_or db_path retention_days p p.audit

  -- `level.upper()` of what is no text raises.
  abbrev pub setup_logging : Value → Result Exn (Unit {0})
  setup_logging (text level) = logs level
  setup_logging v = err (other_error "AttributeError")

  module _ (alive : Bool) (cfg : Config) where
    -- `init_server`, from its last statements to its first
    abbrev pub with_proxy : Process → Result Exn (Option String) → Process × Result Exn (Unit {0})
    with_proxy p (err e) = (p, err e)
    with_proxy p (ok proxy) = (
      start_daily_check alive proxy (record p { server = record p.server { proxy = proxy } }),
      ok tt,
    )

    abbrev pub with_whitelist : Process → Result Exn Items → Process × Result Exn (Unit {0})
    with_whitelist p (err e) = (p, err e)
    with_whitelist p (ok names) =
        with_proxy
          (record p {
            server = record p.server { cmd_whitelist = names; download_dir = cfg.download_dir };
          })
          (proxy_of cfg.proxy)

    abbrev pub with_audit : Process × Result Exn Opened → Process × Result Exn (Unit {0})
    with_audit (p, err e) = (p, err e)
    with_audit (p, ok a) =
        with_whitelist (record p { server = record p.server { audit_logger = some a } })
          (list_or_empty cfg.cmd_exec_whitelist)

    abbrev pub with_registry : Process × Result Exn Opened → Process × Result Exn (Unit {0})
    with_registry (p, err e) = (p, err e)
    with_registry (p, ok r) = with_audit (
        get_audit cfg.db_path cfg.audit_retention_days
          (record p { server = record p.server { registry = some r } }))

    abbrev pub with_lock_manager : Process × ℕ → Process × Result Exn (Unit {0})
    with_lock_manager (p, m) =
        with_registry (
          get_registry cfg.db_path
            (record p { server = record p.server { lock_manager = some m } }))

    abbrev pub with_logging : Process → Result Exn (Unit {0}) → Process × Result Exn (Unit {0})
    with_logging p (err e) = (p, err e)
    with_logging p (ok _) = with_lock_manager (get_lock_manager p)

    unfoldable pub init_server : Process → Process × Result Exn (Unit {0})
    unfolding get_lock_manager get_registry get_audit list_or_empty proxy_of start_daily_check
    init_server p = with_logging p (setup_logging cfg.log_level)

  unfoldable pub perform : Call → Process → Process
  unfolding init_server get_scheduler
  perform asks_scheduler p = (get_scheduler p).0
  perform asks_lock_manager p = (get_lock_manager p).0
  perform (asks_registry db_path) p = (get_registry db_path p).0
  perform (asks_audit db_path days) p = (get_audit db_path days p).0
  perform (starts alive cfg) p = (init_server alive cfg p).0

  unfoldable pub perform_all : List Call → Process → Process
  unfolding perform
  perform_all [] p = p
  perform_all (c ∷ calls) p = perform_all calls (perform c p)
