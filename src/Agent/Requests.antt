-- ===== src/Agent/Requests.antt =====
-- Requests on an open socket (src/mcp_socket_server/socket_client.py): what they leave to be read.
use mcp_socket_server.Prelude.{
  ℕ, ◌+◌, ◌^◌, ◌<◌, ◌≡◌, refl, sym, ap, ◌∙◌, true, none, length, Result, ok,
}
use mcp_socket_server.Errors.{Exn}
use mcp_socket_server.Pool.{Client}
use mcp_socket_server.Wire.{Bytes, Sock, Exec, send_frame}
use mcp_socket_server.Wire.Frames.{send_frame_sent}
use mcp_socket_server.Agent.{with_socket, send}

module _ (c : Client) (open_socket : c.connected ≡ true) where
  pub with_open_socket : {A : Type 0} (m : Exec A) → with_socket c m ≡ m
  unfolding with_socket
  with_open_socket m = rw open_socket refl

  -- A request that fits and is accepted leaves what comes in as it is.
  pub after_send :
      (datatype : ℕ) (payload : Bytes) (s : Sock)
      → datatype < 2 ^ 31
      → length payload + 4 < 2 ^ 31
      → s.refuses ≡ none
      → (s' : Sock) × (send c datatype payload s ≡ (ok tt, s')) × (s'.incoming ≡ s.incoming)
  unfolding send
  after_send datatype payload s d l h =
      let sent = send_frame_sent c.timeout datatype payload s d l h in
      (
        (send_frame c.timeout datatype payload s).1,
        ap (λ (m : Exec (Unit {0})). m s) (with_open_socket (send_frame c.timeout datatype payload))
            ∙ sent
            ∙ ap (λ s'. (ok tt, s')) (sym (ap (λ (r : Result Exn (Unit {0}) × Sock). r.1) sent)),
        ap (λ (r : Result Exn (Unit {0}) × Sock). r.1.incoming) sent,
      )
