-- ===== src/Server/Writes/Whitelist.antt =====
-- The whitelist of `cmd_exec` (src/mcp_socket_server/server.py).
use text.Mathlib.TextBridge.{IsPrefix}
use mcp_socket_server.Prelude.{◌⊎◌, ◌∷◌, String, ◌≡◌, List, [], length}
use mcp_socket_server.Text.Blanks.{Stripped}
use mcp_socket_server.Value.{Value}
use mcp_socket_server.Locks.Manager.{LockManager}
use mcp_socket_server.Agent.Calls
use mcp_socket_server.Server.{Bridge, Report}
use mcp_socket_server.Server.Batch.Locking.{Restored}
use mcp_socket_server.Server.Batch.Reports.{Accounts}
use mcp_socket_server.Server.Reads.{Turn}

-- A command outside the whitelist reaches no target, and fails for each.
pub record Rejected (targets : List String) (b : Bridge) (r : Bridge × Report) : Type 0 where
  pub unchanged : r.0 ≡ b
  pub none_ok : r.1.ok ≡ 0
  pub all_fail : length r.1.failed ≡ length targets

-- A command that is allowed is accounted for on every target, and leaves the locks as they were.
pub record Executed (turns : List (String × Turn)) (m : LockManager) (r : Bridge × Report)
    : Type 0 where
  pub accounts : Accounts (length turns) r.1
  pub restored : Restored m r.0

-- The rule: there is no whitelist, or what is left of the command without the blanks around it begins
-- with an entry.
abbrev pub Entry : List String → String → Type 0
Entry [] s = ⊥
Entry (w ∷ whitelist) s = IsPrefix w s ⊎ Entry whitelist s

abbrev pub Permitted : List String → String → Type 0
Permitted whitelist args =
    (whitelist ≡ []) ⊎ ((core : String) × (Stripped args core × Entry whitelist core))

-- What `cmd_exec` has done.
abbrev pub Guarded :
    List String
    → String
    → List String
    → List (String × Turn)
    → LockManager
    → Bridge
    → Bridge × Report
    → Type 0
Guarded whitelist args targets turns m b r =
    (Permitted whitelist args × Executed turns m r)
    ⊎ ((¬ Permitted whitelist args) × Rejected targets b r)
