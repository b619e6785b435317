-- ===== src/Upgrades/Push.antt =====
-- `push_binary` (src/mcp_socket_server/upgrades.py): the binary goes to a target through its HTTP file
-- service. The reading of the file and the answer of the service are arguments.
use Prim.Native.String.{◌++◌}
use mcp_socket_server.Prelude.{ℕ, String, ◌&&◌, not, if◌then◌else◌, Result, ok, err}
use mcp_socket_server.Errors.{Exn, other_error}
use mcp_socket_server.Text.{colon, has_char, starts_with_char, after_last, decimal}
use mcp_socket_server.Value.{Value, Fields, dict, is_set}
use mcp_socket_server.Wire.{Bytes}

-- A bare IPv6 address gets brackets.
unfoldable pub bracketed : String → String
unfolding has_char starts_with_char
bracketed host =
    if has_char colon host && not (starts_with_char b'[' host) then "[" ++ (host ++ "]") else host

-- f"{host}:{http_port}"
unfoldable pub authority : String → ℕ → String
unfolding bracketed decimal
authority host http_port = bracketed host ++ (":" ++ decimal http_port)

-- The multipart form that is posted.
pub record Post : Type 0 where
  pub url : String
  pub path : String
  pub file_name : String
  pub content : Bytes

unfoldable pub staging_path : String → String
staging_path version = "/opt/socket/versions/" ++ (version ++ "/.staging/socket_server")

unfoldable pub post_of : String → String → String → ℕ → Bytes → Post
unfolding authority staging_path after_last
post_of host binary_path version http_port content = record {
  url = "http://" ++ (authority host http_port ++ "/files");
  path = staging_path version;
  file_name = after_last b'/' binary_path;
  content = content;
}

-- The texts in the second component of a failure.
pub data PushError : Type 0 where
  not_accepted : Fields → PushError
  push_failed : Exn → PushError

-- data.get("ok"), which any object but a dict lacks
unfoldable pub accepted : String → Result Exn Value → Result PushError String
unfolding is_set
accepted staging (err e) = err (push_failed e)
accepted staging (ok (dict fs)) = if is_set "ok" fs then ok staging else err (not_accepted fs)
accepted staging (ok v) = err (push_failed (other_error "AttributeError"))

unfoldable pub push_binary :
    Result Exn Bytes
    → (Post → Result Exn Value)
    → String
    → String
    → String
    → ℕ
    → Result PushError String
unfolding post_of accepted staging_path
push_binary (err e) service host binary_path version http_port = err (push_failed e)
push_binary (ok content) service host binary_path version http_port =
    accepted (staging_path version) (service (post_of host binary_path version http_port content))
