-- ===== src/Config.antt =====
-- The configuration (src/mcp_socket_server/config.py): defaults, a file, the environment.
pub mod Merging
use mcp_socket_server.Prelude.{
  ℕ, String, Bool, true, false, Option, none, some, ◌==◌, string_eq, if◌then◌else◌, Result, ok, err,
  ◌>>=◌,
}
use mcp_socket_server.Errors.{Exn, other_error, value_error}
use mcp_socket_server.Text.{is_empty}
use mcp_socket_server.Text.Signed.{ℤ, pos, negsuc, number_of}
use mcp_socket_server.Value.{
  Value, Fields, Items, end, field, dict, text, num, negative, bool, list, nil, get, put,
}

-- `_deep_merge`, on the entries of `over` that are left, and what it writes for one of them
mutual
  merge_onto : Fields → Fields → Fields
  merge_onto out end = out
  merge_onto out (field k v over) = merge_onto (put k (merge_value (get k out) v) out) over

  merge_value : Option Value → Value → Value
  merge_value (some (dict base)) (dict over) = dict (merge_onto base over)
  merge_value old v = v

unfoldable pub deep_merge : Fields → Fields → Fields
unfolding merge_onto
deep_merge base over = merge_onto base over

-- DEFAULTS
abbrev pub defaults : Fields
defaults = field "bind" (dict (field "host" (text "0.0.0.0") (field "port" (num 8080) end))) (
    field "db_path" (text "./mcp_socket_server.db") (
      field "behind_proxy" (bool false) (
        field "audit_retention_days" (num 90) (
          field "download_dir" (text "./downloads") (
            field "proxy" (text "") (
              field "log_level" (text "INFO") (
                field "default_timeout" (num 30) (
                  field "pool"
                    (dict (
                      field "max_conn_per_target" (num 5) (
                        field "idle_timeout" (num 600) (
                          field "borrow_timeout" (num 10)
                            (field "max_global_concurrency" (num 50) end)))))
                    (field "cmd_exec_whitelist" (list nil) end)))))))))

pub record Config : Type 0 where
  pub host : Value
  pub port : Value
  pub db_path : Value
  pub behind_proxy : Value
  pub audit_retention_days : Value
  pub download_dir : Value
  pub proxy : Value
  pub log_level : Value
  pub default_timeout : Value
  pub pool : Value
  pub cmd_exec_whitelist : Value

-- MCP_BIND_HOST, MCP_BIND_PORT and MCP_LOG_LEVEL; "" where they are not set
pub record Environment : Type 0 where
  pub bind_host : String
  pub bind_port : String
  pub log_level : String

abbrev pub type_error : Exn
type_error = other_error "TypeError"

abbrev pub key_error : Exn
key_error = other_error "KeyError"

-- v[k]
unfoldable pub index : String → Value → Result Exn Value
unfolding get
index k (dict fs) = elim (get k fs) [ none ↦ err key_error | some v ↦ ok v ]
index k v = err type_error

-- data["bind"][k] = v
unfoldable pub set_bind : String → Value → Fields → Result Exn Fields
unfolding get put
set_bind k v data' = set_in (get "bind" data')
  where
    set_in : Option Value → Result Exn Fields
    set_in none = err key_error
    set_in (some (dict fs)) = ok (put "bind" (dict (put k v fs)) data')
    set_in (some w) = err type_error

-- int(s)
abbrev value_of : Option ℤ → Result Exn Value
value_of (some (pos n)) = ok (num n)
value_of (some (negsuc n)) = ok (negative n)
value_of none = err (value_error "invalid literal for int()")

unfoldable pub int_of : String → Result Exn Value
unfolding number_of
int_of s = value_of (number_of s)

-- The three overrides by the environment, in their order.
unfoldable pub override_host : String → Fields → Result Exn Fields
unfolding set_bind
override_host s data' = if is_empty s then ok data' else set_bind "host" (text s) data'

unfoldable pub override_port : String → Fields → Result Exn Fields
unfolding set_bind int_of
override_port s data' =
    let set = int_of s >>= λ n. set_bind "port" n data' in if is_empty s then ok data' else set

unfoldable pub override_level : String → Fields → Fields
unfolding put
override_level s data' = if is_empty s then data' else put "log_level" (text s) data'

-- The `Config` of the entries, each of which must be there.
unfoldable pub config_of : Fields → Result Exn Config
unfolding index
config_of data' = do
  b ← index "bind" (dict data')
  host ← index "host" b
  port ← index "port" b
  db_path ← index "db_path" (dict data')
  behind_proxy ← index "behind_proxy" (dict data')
  audit_retention_days ← index "audit_retention_days" (dict data')
  download_dir ← index "download_dir" (dict data')
  proxy ← index "proxy" (dict data')
  log_level ← index "log_level" (dict data')
  default_timeout ← index "default_timeout" (dict data')
  pool ← index "pool" (dict data')
  cmd_exec_whitelist ← index "cmd_exec_whitelist" (dict data')
  ok (record {
    host = host;
    port = port;
    db_path = db_path;
    behind_proxy = behind_proxy;
    audit_retention_days = audit_retention_days;
    download_dir = download_dir;
    proxy = proxy;
    log_level = log_level;
    default_timeout = default_timeout;
    pool = pool;
    cmd_exec_whitelist = cmd_exec_whitelist;
  })

-- `load_config`, with the entries of the file, if there is one
unfoldable pub load_config : Option Fields → Environment → Result Exn Config
unfolding deep_merge override_host override_port override_level config_of
load_config file env = do
  let data' : Fields = elim file [ none ↦ defaults | some over ↦ deep_merge defaults over ]
  with_host ← override_host env.bind_host data'
  with_port ← override_port env.bind_port with_host
  config_of (override_level env.log_level with_port)
