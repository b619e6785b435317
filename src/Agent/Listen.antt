-- ===== src/Agent/Listen.antt =====
-- `socket_listen` of src/mcp_socket_server/socket_client.py: one method for five actions.
pub mod Fetch
use mcp_socket_server.Prelude.{
  ℕ, String, Bool, true, false, Option, none, some, List, [], ◌∷◌, ◌++◌, ◌==◌, if◌then◌else◌,
  Result, ok, err, eqb, not, list_eq, nat_eq, string_eq,
}
use mcp_socket_server.Errors.{Exn, connection_error, value_error}
use mcp_socket_server.Text.{is_empty}
use mcp_socket_server.Value.{Value, Fields, end, field, null, text, bytes, num}
use mcp_socket_server.Pool.{Client}
use mcp_socket_server.Wire.{
  Bytes, Exec, ◌>>=◌, ◌>>◌, pure, raise, lift, recv_n, recv_until_timeout, little_endian,
}
use mcp_socket_server.Agent.{
  Codec, with_socket, send, send_json, recv_text_response, recv_text_json,
}
use mcp_socket_server.Agent.Replies.{listen_start_result}

pub data Action : Type 0 where
  starts : ℕ → Action
  cleans : Action
  stops : Action
  -- the file, "" or None where none is given
  saves : String → Action
  fetches : Action
  unknown : String → Action

-- resp != b"ok"
abbrev ok_bytes : Bytes
ok_bytes = b'o' ∷ b'k' ∷ []

unfoldable pub expect_ok : String → Bytes → Exec Value
unfolding list_eq nat_eq pure raise
expect_ok failure reply =
    if reply == ok_bytes then pure (bytes reply) else raise (connection_error failure)

-- head[0:1] == b"{"
unfoldable pub starts_json : Bytes → Bool
starts_json [] = false
starts_json (b ∷ bs) = eqb b b'{'

module _ (codec : Codec) (c : Client) where
  open codec use {gunzip}

  -- The end of `fetch`, when the first eight bytes are read.
  unfoldable pub fetch_rest : Bytes → Exec Value
  unfolding starts_json with_socket pure raise lift ◌>>=◌
  fetch_rest head =
      if starts_json head
      then (do
        with_socket c (recv_until_timeout c.timeout 5)
        raise (connection_error "listen fetch failed"))
      else (do
        content ← with_socket c (recv_n c.timeout (little_endian head))
        plain ← lift (gunzip content)
        pure (bytes plain))

  unfoldable pub fetch : Exec Value
  unfolding fetch_rest send with_socket ◌>>=◌
  fetch = do send c 174 []; head ← with_socket c (recv_n c.timeout 8); fetch_rest head

  unfoldable pub socket_listen : Action → Exec Value
  unfolding fetch expect_ok send send_json recv_text_response recv_text_json raise lift ◌>>=◌
  socket_listen (starts listen_port) = do
    send_json codec c 171 (field "host" null (field "port" (num listen_port) end))
    reply ← recv_text_json codec c
    lift (listen_start_result reply)
  socket_listen cleans = do
    send c 172 []
    reply ← recv_text_response c
    expect_ok "listen clean failed" reply
  socket_listen stops = do
    send c 175 []
    reply ← recv_text_response c
    expect_ok "listen stop failed" reply
  socket_listen (saves file) =
      if is_empty file then raise (value_error "save requires file") else do
        send_json codec c 173 (field "file" (text file) end)
        reply ← recv_text_response c
        expect_ok "listen save failed" reply
  socket_listen fetches = fetch
  socket_listen (unknown action) = raise (value_error "unknown action")
