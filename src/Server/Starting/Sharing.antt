-- ===== src/Server/Starting/Sharing.antt =====
-- Which objects the tools use once `init_server` of src/mcp_socket_server/server.py has returned.
use mcp_socket_server.Prelude.{
  ℕ, ◌+◌, String, ◌≡◌, refl, Bool, true, false, Option, none, some, List, [], ◌∷◌, Result, ok, err,
}
use mcp_socket_server.Errors.{Exn}
use mcp_socket_server.Value.{Value, Items}
use mcp_socket_server.Config.{Config}
use mcp_socket_server.Server.Starting.{
  Opened, Process, get_lock_manager, get_registry, get_audit, start_daily_check, list_or_empty,
  proxy_of, with_proxy, with_whitelist, with_audit, with_registry, with_lock_manager, with_logging,
  init_server, setup_logging, check_days, made_registry, made_audit, scheduler_or, lock_manager_or,
  registry_or, audit_or, daily_or,
}

-- The same object in two places.
pub record Same {A : Type 0} (x y : Option A) : Type 0 where
  pub object : A
  pub used : x ≡ some object
  pub kept : y ≡ some object

-- The tools use the objects of which the modules keep one.
pub record Shared (p : Process) : Type 0 where
  pub lock_manager : Same p.server.lock_manager p.lock_manager
  pub registry : Same p.server.registry p.registry
  pub audit : Same p.server.audit_logger p.audit

pub scheduler_or-Shared :
    (p : Process) (current : Option ℕ) → Shared p → Shared (scheduler_or p current).0
scheduler_or-Shared p (some n) s = s
scheduler_or-Shared p none s = record {
  lock_manager = s.lock_manager;
  registry = s.registry;
  audit = s.audit;
}

daily_or-Shared :
    (alive : Bool) (proxy : Option String) (p : Process) (daily : List (Option String))
    → Shared p
    → Shared (daily_or alive proxy p daily)
daily_or-Shared alive proxy p [] s = record {
  lock_manager = s.lock_manager;
  registry = s.registry;
  audit = s.audit;
}
daily_or-Shared true proxy p (d ∷ ds) s = s
daily_or-Shared false proxy p (d ∷ ds) s = record {
  lock_manager = s.lock_manager;
  registry = s.registry;
  audit = s.audit;
}

pub get_lock_manager_kept :
    (p : Process) (n : ℕ) → p.lock_manager ≡ some n → get_lock_manager p ≡ (p, n)
unfolding get_lock_manager
get_lock_manager_kept p n h = rw h refl

module _ (connect : Value → Result Exn (Unit {0})) (logs : String → Result Exn (Unit {0})) where
  pub get_registry_kept :
      (path : Value) (p : Process) (r : Opened)
      → p.registry ≡ some r
      → get_registry connect logs path p ≡ (p, ok r)
  unfolding get_registry
  get_registry_kept path p r h = rw h refl

  pub get_audit_kept :
      (path days : Value) (p : Process) (a : Opened)
      → p.audit ≡ some a
      → get_audit connect logs path days p ≡ (p, ok a)
  unfolding get_audit
  get_audit_kept path days p a h = rw h refl

  module _ (alive : Bool) (cfg : Config) where
    with_proxy-Shared :
        (p : Process) (proxy : Result Exn (Option String))
        → Shared p
        → Shared (with_proxy connect logs alive cfg p proxy).0
    unfolding start_daily_check
    with_proxy-Shared p (err e) s = s
    with_proxy-Shared p (ok proxy) s =
        daily_or-Shared alive proxy (record p { server = record p.server { proxy = proxy } })
          p.daily (record { lock_manager = s.lock_manager; registry = s.registry; audit = s.audit })

    with_whitelist-Shared :
        (p : Process) (names : Result Exn Items)
        → Shared p
        → Shared (with_whitelist connect logs alive cfg p names).0
    with_whitelist-Shared p (err e) s = s
    with_whitelist-Shared p (ok names) s =
        with_proxy-Shared
          (record p {
            server = record p.server { cmd_whitelist = names; download_dir = cfg.download_dir };
          })
          (proxy_of cfg.proxy)
          (record { lock_manager = s.lock_manager; registry = s.registry; audit = s.audit })

    pub with_audit-Shared :
        (p : Process) (a : Opened)
        → Same p.server.lock_manager p.lock_manager
        → Same p.server.registry p.registry
        → p.audit ≡ some a
        → Shared (with_audit connect logs alive cfg (p, ok a)).0
    with_audit-Shared p a m r h =
        with_whitelist-Shared (record p { server = record p.server { audit_logger = some a } })
          (list_or_empty cfg.cmd_exec_whitelist)
          (record {
            lock_manager = m;
            registry = r;
            audit = record { object = a; used = refl; kept = h };
          })

    -- From the audit log on
    made_audit-Shared :
        (p : Process) (opened days : Result Exn (Unit {0}))
        → Same p.server.lock_manager p.lock_manager
        → Same p.server.registry p.registry
        → (with_audit connect logs alive cfg (made_audit connect logs cfg.db_path p opened days)).1
          ≡ ok tt
        → Shared
            (with_audit connect logs alive cfg
              (made_audit connect logs cfg.db_path p opened days)).0
    made_audit-Shared p (err e) days m r good = absurd cc
    made_audit-Shared p (ok _) (err e) m r good = absurd cc
    made_audit-Shared p (ok _) (ok _) m r good =
        let a : Opened = record { number = p.made; db_path = cfg.db_path } in
        with_audit-Shared (record p { made = p.made + 1; audit = some a }) a m r refl

    audit_or-Shared :
        (p : Process) (current : Option Opened)
        → p.audit ≡ current
        → Same p.server.lock_manager p.lock_manager
        → Same p.server.registry p.registry
        → (with_audit connect logs alive cfg
            (audit_or connect logs cfg.db_path cfg.audit_retention_days p current)).1
          ≡ ok tt
        → Shared
            (with_audit connect logs alive cfg
              (audit_or connect logs cfg.db_path cfg.audit_retention_days p current)).0
    audit_or-Shared p (some a) h m r good = with_audit-Shared p a m r h
    audit_or-Shared p none h m r good =
        made_audit-Shared p (connect cfg.db_path) (check_days cfg.audit_retention_days) m r good

    -- From the registry on
    with_registry-Shared :
        (p : Process) (r : Opened)
        → Same p.server.lock_manager p.lock_manager
        → p.registry ≡ some r
        → (with_registry connect logs alive cfg (p, ok r)).1 ≡ ok tt
        → Shared (with_registry connect logs alive cfg (p, ok r)).0
    unfolding get_audit
    with_registry-Shared p r m h good =
        audit_or-Shared (record p { server = record p.server { registry = some r } }) p.audit refl m
          (record { object = r; used = refl; kept = h }) good

    made_registry-Shared :
        (p : Process) (opened : Result Exn (Unit {0}))
        → Same p.server.lock_manager p.lock_manager
        → (with_registry connect logs alive cfg (made_registry connect logs cfg.db_path p opened)).1
          ≡ ok tt
        → Shared
            (with_registry connect logs alive cfg
              (made_registry connect logs cfg.db_path p opened)).0
    made_registry-Shared p (err e) m good = absurd cc
    made_registry-Shared p (ok _) m good =
        let r : Opened = record { number = p.made; db_path = cfg.db_path } in
        with_registry-Shared (record p { made = p.made + 1; registry = some r }) r m refl good

    registry_or-Shared :
        (p : Process) (current : Option Opened)
        → p.registry ≡ current
        → Same p.server.lock_manager p.lock_manager
        → (with_registry connect logs alive cfg (registry_or connect logs cfg.db_path p current)).1
          ≡ ok tt
        → Shared
            (with_registry connect logs alive cfg
              (registry_or connect logs cfg.db_path p current)).0
    registry_or-Shared p (some r) h m good = with_registry-Shared p r m h good
    registry_or-Shared p none h m good = made_registry-Shared p (connect cfg.db_path) m good

    -- From the lock manager on
    lock_manager_or-Shared :
        (p : Process) (current : Option ℕ)
        → p.lock_manager ≡ current
        → (with_lock_manager connect logs alive cfg (lock_manager_or p current)).1 ≡ ok tt
        → Shared (with_lock_manager connect logs alive cfg (lock_manager_or p current)).0
    unfolding get_registry
    lock_manager_or-Shared p (some n) h good =
        registry_or-Shared (record p { server = record p.server { lock_manager = some n } })
          p.registry refl (record { object = n; used = refl; kept = h }) good
    lock_manager_or-Shared p none h good =
        registry_or-Shared
          (record p {
            made = p.made + 1;
            lock_manager = some p.made;
            server = record p.server { lock_manager = some p.made };
          })
          p.registry refl (record { object = p.made; used = refl; kept = refl }) good

    with_logging-Shared :
        (p : Process) (logged : Result Exn (Unit {0}))
        → (with_logging connect logs alive cfg p logged).1 ≡ ok tt
        → Shared (with_logging connect logs alive cfg p logged).0
    unfolding get_lock_manager
    with_logging-Shared p (err e) good = absurd cc
    with_logging-Shared p (ok _) good = lock_manager_or-Shared p p.lock_manager refl good

    pub init_server-Shared :
        (p : Process)
        → (init_server connect logs alive cfg p).1 ≡ ok tt
        → Shared (init_server connect logs alive cfg p).0
    unfolding init_server
    init_server-Shared p good =
        with_logging-Shared p (setup_logging connect logs cfg.log_level) good
