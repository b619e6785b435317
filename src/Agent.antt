-- ===== src/Agent.antt =====
-- The client of one target (`SocketServerClient` of src/mcp_socket_server/socket_client.py): a request
-- with its datatype and payload, and the reply read as the datatype wants it.
pub mod Replies
pub mod Calls
pub mod Requests
pub mod Listen
use mcp_socket_server.Prelude.{
  ℕ, ◌*◌, String, Bool, true, false, Option, none, some, List, [], ◌∷◌, if◌then◌else◌, Result, ok,
  err,
}
use mcp_socket_server.Errors.{Exn, other_error}
use mcp_socket_server.Value.{Value, Fields, end, field, text, bool}
use mcp_socket_server.Pool.{Client}
use mcp_socket_server.Wire.{
  Bytes, Sock, Exec, ◌>>=◌, ◌>>◌, pure, raise, lift, send_frame, recv_n, recv_until_timeout,
  recv_prefixed, recv_long,
}

-- The libraries that turn objects into bytes and back: `json.dumps(…).encode()`, `json.loads` of bytes
-- decoded as UTF-8, and `gzip.decompress`.
pub record Codec : Type 0 where
  pub dumps : Value → Bytes
  pub loads : Bytes → Result Exn Value
  pub gunzip : Bytes → Result Exn Bytes

-- `assert self._sock is not None`
unfoldable pub with_socket {ℓ} : {A : Type ℓ} → Client → Exec A → Exec A
unfolding raise
with_socket c m = if c.connected then m else raise (other_error "AssertionError")

-- self._send(datatype, payload)
unfoldable pub send : Client → ℕ → Bytes → Exec (Unit {0})
unfolding with_socket
send c datatype payload = with_socket c (send_frame c.timeout datatype payload)

-- `recv_text_response` and `recv_ok`: what comes until half a second of silence
unfoldable pub recv_text_response : Client → Exec Bytes
unfolding with_socket
recv_text_response c = with_socket c (recv_until_timeout c.timeout 5)

module _ (codec : Codec) where
  open codec use {dumps, loads, gunzip}

  -- json.loads(self.recv_text_response().decode("utf-8", "replace"))
  unfoldable pub recv_text_json : Client → Exec Value
  unfolding recv_text_response lift ◌>>=◌
  recv_text_json c = do reply ← recv_text_response c; lift (loads reply)

  -- [4B len i][json]
  unfoldable pub recv_lenprefixed_json : Client → Exec Value
  unfolding with_socket lift ◌>>=◌
  recv_lenprefixed_json c = do reply ← with_socket c (recv_prefixed c.timeout); lift (loads reply)

  -- [4B len i][gzip json]
  unfoldable pub recv_gzip_response : Client → Exec Value
  unfolding with_socket lift ◌>>=◌
  recv_gzip_response c = do
    packed ← with_socket c (recv_prefixed c.timeout)
    plain ← lift (gunzip packed)
    lift (loads plain)

  -- [8B <Q len][content]
  unfoldable pub recv_file_response : Client → Bool → Exec (ℕ × Bytes)
  unfolding with_socket pure lift ◌>>=◌
  recv_file_response c decompress = do
    (n, body) ← with_socket c (recv_long c.timeout)
    if decompress then (do plain ← lift (gunzip body); pure (n, plain)) else pure (n, body)

  -- A request whose payload is the JSON of a dict.
  unfoldable pub send_json : Client → ℕ → Fields → Exec (Unit {0})
  unfolding send
  send_json c datatype fs = send c datatype (dumps (Value.dict fs))
