-- ===== src/Server/Starting/Serving.antt =====
-- Which objects the accessors hand out once `init_server` of src/mcp_socket_server/server.py has
-- returned, through any later calls.
use mcp_socket_server.Prelude.{ℕ, String, ◌≡◌, refl, Bool, some, List, [], ◌∷◌, Result, ok, err}
use mcp_socket_server.Errors.{Exn}
use mcp_socket_server.Value.{Value}
use mcp_socket_server.Config.{Config}
use mcp_socket_server.Server.Starting.{
  Opened, Process, Call, asks_scheduler, asks_lock_manager, asks_registry, asks_audit, starts,
  get_scheduler, get_lock_manager, get_registry, get_audit, with_logging, init_server, perform,
  perform_all, setup_logging,
}
use mcp_socket_server.Server.Starting.Sharing.{
  Same, Shared, scheduler_or-Shared, get_lock_manager_kept, get_registry_kept, get_audit_kept,
  with_audit-Shared, init_server-Shared,
}

module _ (connect : Value → Result Exn (Unit {0})) (logs : String → Result Exn (Unit {0})) where
  -- A later `init_server`, however it ends
  with_logging_again :
      (alive : Bool) (cfg : Config) (p : Process) (logged : Result Exn (Unit {0}))
      → Shared p
      → Shared (with_logging connect logs alive cfg p logged).0
  with_logging_again alive cfg p (err e) s = s
  with_logging_again alive cfg p (ok _) s =
      let m : Same (some s.lock_manager.object) p.lock_manager = record {
        object = s.lock_manager.object;
        used = refl;
        kept = s.lock_manager.kept;
      } in
      let r : Same (some s.registry.object) p.registry = record {
        object = s.registry.object;
        used = refl;
        kept = s.registry.kept;
      } in
      let p1 = record p {
        server = record p.server { lock_manager = some s.lock_manager.object };
      } in
      let p2 = record p1 { server = record p1.server { registry = some s.registry.object } } in
      rw (get_lock_manager_kept p s.lock_manager.object s.lock_manager.kept) (
        rw (get_registry_kept connect logs cfg.db_path p1 s.registry.object s.registry.kept) (
          rw
            (get_audit_kept connect logs cfg.db_path cfg.audit_retention_days p2 s.audit.object
              s.audit.kept)
            (with_audit-Shared connect logs alive cfg p2 s.audit.object m r s.audit.kept)))

  perform-Shared : (c : Call) (p : Process) → Shared p → Shared (perform connect logs c p)
  unfolding perform get_scheduler init_server
  perform-Shared asks_scheduler p s = scheduler_or-Shared p p.scheduler s
  perform-Shared asks_lock_manager p s =
      rw (get_lock_manager_kept p s.lock_manager.object s.lock_manager.kept, perform) s
  perform-Shared (asks_registry path) p s =
      rw (get_registry_kept connect logs path p s.registry.object s.registry.kept, perform) s
  perform-Shared (asks_audit path days) p s =
      rw (get_audit_kept connect logs path days p s.audit.object s.audit.kept, perform) s
  perform-Shared (starts alive cfg) p s =
      with_logging_again alive cfg p (setup_logging connect logs cfg.log_level) s

  perform_all-Shared :
      (calls : List Call) (p : Process) → Shared p → Shared (perform_all connect logs calls p)
  unfolding perform_all
  perform_all-Shared [] p s = s
  perform_all-Shared (c ∷ calls) p s =
      perform_all-Shared calls (perform connect logs c p) (perform-Shared c p s)

  -- The accessors hand out the objects that the tools use, whatever their arguments, and make none.
  pub record Served (p : Process) : Type 0 where
    pub lock_manager : (m : ℕ) × (p.server.lock_manager ≡ some m) × (get_lock_manager p ≡ (p, m))
    pub registry :
        (r : Opened) × (p.server.registry ≡ some r)
        × ((path : Value) → get_registry connect logs path p ≡ (p, ok r))
    pub audit :
        (a : Opened) × (p.server.audit_logger ≡ some a)
        × ((path days : Value) → get_audit connect logs path days p ≡ (p, ok a))

  Shared-Served : (p : Process) → Shared p → Served p
  Shared-Served p s = record {
    lock_manager = (
      s.lock_manager.object,
      s.lock_manager.used,
      get_lock_manager_kept p s.lock_manager.object s.lock_manager.kept,
    );
    registry = (
      s.registry.object,
      s.registry.used,
      λ path. get_registry_kept connect logs path p s.registry.object s.registry.kept,
    );
    audit = (
      s.audit.object,
      s.audit.used,
      λ path days. get_audit_kept connect logs path days p s.audit.object s.audit.kept,
    );
  }

  -- If `init_server` has returned, then after any calls of the accessors and of `init_server`, with any
  -- arguments and however they end, the tools use the lock manager, the registry and the audit log that
  -- each accessor hands out, whatever it is asked for.
  pub init_server-Served :
      (alive : Bool) (cfg : Config) (p : Process) (calls : List Call)
      → (init_server connect logs alive cfg p).1 ≡ ok tt
      → Served (perform_all connect logs calls (init_server connect logs alive cfg p).0)
  init_server-Served alive cfg p calls good =
      let q = (init_server connect logs alive cfg p).0 in
      Shared-Served (perform_all connect logs calls q)
        (perform_all-Shared calls q (init_server-Shared connect logs alive cfg p good))
