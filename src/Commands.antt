-- ===== src/Commands.antt =====
-- The command registry (src/mcp_socket_server/commands.py): lock classes, danger levels, the table.
use mcp_socket_server.Prelude.{ℕ, String, Option, some, List, [], ◌∷◌, Eq, Dict}

-- `LockClass.NONE` is `unlocked`: the library's `none` is Python's `None`.
pub data LockClass : Type 0 where
  unlocked capture file_io shell browser system replay : LockClass

pub data Danger : Type 0 where
  safe write danger : Danger

LockClass-discrete : Discrete LockClass
LockClass-discrete = hlevel

instance unfoldable pub lock_class_eq : Eq LockClass
unfolding LockClass-discrete
lock_class_eq = record { dec = LockClass-discrete }

-- LockClass.X.value
unfoldable pub lock_class_value : LockClass → String
lock_class_value unlocked = "none"
lock_class_value capture = "capture"
lock_class_value file_io = "file_io"
lock_class_value shell = "shell"
lock_class_value browser = "browser"
lock_class_value system = "system"
lock_class_value replay = "replay"

pub record CommandSpec : Type 0 where
  pub name : String
  pub datatype : Option ℕ
  pub lock_class : LockClass
  pub danger : Danger
  pub lock_key_fields : List String

-- A row of the table. `lock_key_fields` is empty unless given.
abbrev spec : String → ℕ → LockClass → Danger → List String → String × CommandSpec
spec name datatype lock_class level fields = (
  name,
  record {
    name = name;
    datatype = some datatype;
    lock_class = lock_class;
    danger = level;
    lock_key_fields = fields;
  },
)

-- COMMANDS
abbrev pub commands : Dict String CommandSpec
commands =
    spec "version" 14 unlocked safe []
    ∷ spec "isfile" 7 unlocked safe []
    ∷ spec "isdir" 8 unlocked safe []
    ∷ spec "pcap_flow_extract" 200 unlocked safe []
    ∷ spec "capture_start" 5 capture write ("path" ∷ [])
    ∷ spec "capture_stop" 6 capture write ("path" ∷ [])
    ∷ spec "cmd_exec" 1 shell danger []
    ∷ spec "boce_run" 131 browser write []
    ∷ spec "upgrade_run" 20 system danger []
    ∷ []
