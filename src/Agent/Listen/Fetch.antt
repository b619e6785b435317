-- ===== src/Agent/Listen/Fetch.antt =====
-- The reply to `fetch` of `socket_listen` (src/mcp_socket_server/socket_client.py): eight bytes of
-- length and the content, or a JSON text of an error.
use mcp_socket_server.Prelude.{
  ℕ, zero, suc, ◌*◌, ◌/◌, ◌%◌, ◌^◌, ◌<◌, ◌≡◌, ◌≢◌, refl, inl, inr, ap, ◌∙◌, [], ◌∷◌, ◌++◌, true,
  none, Result, ok, err, length, arith, eqb, Bool-cases,
}
use mcp_socket_server.Errors.{Exn, connection_error}
use mcp_socket_server.Value.{Value, bytes}
use mcp_socket_server.Pool.{Client}
use mcp_socket_server.Wire.{
  Bytes, Sock, Exec, ◌>>=◌, raise, recv_n, recv_until_timeout, little_endian,
}
use mcp_socket_server.Wire.Reading.{content}
use mcp_socket_server.Wire.Frames.{recv_n_next}
use mcp_socket_server.Agent.{Codec}
use mcp_socket_server.Agent.Requests.{with_open_socket, after_send}
use mcp_socket_server.Agent.Listen.{starts_json, fetch_rest, fetch}

-- So many bytes of a number, lowest first.
abbrev pub low_bytes : ℕ → ℕ → Bytes
low_bytes zero n = []
low_bytes (suc k) n = n % 256 ∷ low_bytes k (n / 256)

-- struct.pack("<Q", n)
abbrev pub long_bytes : ℕ → Bytes
long_bytes n = low_bytes 8 n

abbrev room_of : ℕ → ℕ
room_of zero = 1
room_of (suc k) = 256 * room_of k

little_endian-low_bytes : (k n : ℕ) → n < room_of k → little_endian (low_bytes k n) ≡ n
unfolding little_endian
little_endian-low_bytes zero n h = omega arith
little_endian-low_bytes (suc k) n h =
    omega (arith, little_endian-low_bytes k (n / 256) (omega arith))

raise_after :
    (x : Exn) (r : Result Exn Bytes) (s' : Sock) (m : Exec Bytes) (s : Sock)
    → m s ≡ (r, s')
    → (e : Exn) × (((m >>= λ _. raise {A = Value} x) s).0 ≡ err e)
unfolding ◌>>=◌ raise
raise_after x (ok bs) s' m s h = (x, rw h refl)
raise_after x (err e) s' m s h = (e, rw h refl)

then_raise :
    (x : Exn) (m : Exec Bytes) (s : Sock)
    → (e : Exn) × (((m >>= λ _. raise {A = Value} x) s).0 ≡ err e)
then_raise x m s = raise_after x (m s).0 (m s).1 m s refl

module _ (c : Client) (open_socket : c.connected ≡ true) where
  -- `fetch` up to its test of the first byte.
  fetch_head :
      (codec : Codec) (n : ℕ) (more : Bytes) (s : Sock)
      → s.refuses ≡ none
      → content s.incoming ≡ long_bytes n ++ more
      → (s' : Sock) × (fetch codec c s ≡ fetch_rest codec c (long_bytes n) s')
        × (content s'.incoming ≡ more)
  unfolding fetch
  fetch_head codec n more s h e =
      let (u, wrote, same) = after_send c open_socket 174 [] s (omega arith) (omega arith) h in
      let read = recv_n_next c.timeout 8 (long_bytes n) more u refl (ap content same ∙ e) in
      (
        read.0,
        rw wrote (rw (with_open_socket c open_socket (recv_n c.timeout 8)) (rw (read.1) refl)),
        read.2,
      )

  -- On an open socket that accepts the request: if eight bytes of length and so many bytes of
  -- content come, the length fits eight bytes, its lowest byte is not 123 (an open brace), and the
  -- content unpacks, then `fetch` returns what is unpacked.
  pub fetch-content :
      (codec : Codec) (n : ℕ) (body more plain : Bytes) (s : Sock)
      → s.refuses ≡ none
      → content s.incoming ≡ long_bytes n ++ body ++ more
      → length body ≡ n
      → n < 2 ^ 64
      → n % 256 ≢ 123
      → codec.gunzip body ≡ ok plain
      → (fetch codec c s).0 ≡ ok (bytes plain)
  unfolding fetch_rest starts_json
  fetch-content codec n body more plain s h e size small other unpacked =
      let (u, start, ahead) = fetch_head codec n (body ++ more) s h e in
      let read = recv_n_next c.timeout n body more u size ahead in
      let value = little_endian-low_bytes 8 n (omega arith) in
      rw start (elim (Bool-cases (eqb (n % 256) b'{')) [
        | inl same ↦ absurd (other (ground arith))
        | inr differs ↦ rw differs (
            rw value (
              rw (with_open_socket c open_socket (recv_n c.timeout n))
                (rw (read.1) (rw unpacked refl))))
      ])

  -- On an open socket that accepts the request: if eight bytes of a length come whose lowest byte
  -- is 123 (an open brace), `fetch` raises, whatever follows, the content of that length included.
  pub fetch_misread :
      (codec : Codec) (n : ℕ) (more : Bytes) (s : Sock)
      → s.refuses ≡ none
      → content s.incoming ≡ long_bytes n ++ more
      → n % 256 ≡ 123
      → (e : Exn) × ((fetch codec c s).0 ≡ err e)
  unfolding fetch_rest starts_json
  fetch_misread codec n more s h e low =
      let (u, start, ahead) = fetch_head codec n more s h e in
      rw start (
        rw low (
          rw (with_open_socket c open_socket (recv_until_timeout c.timeout 5)) (
            then_raise (connection_error "listen fetch failed") (recv_until_timeout c.timeout 5)
              u)))
