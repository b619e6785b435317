-- ===== src/Tests/Frames.antt =====
-- Tests of the client of a target (src/mcp_socket_server/socket_client.py).
use mcp_socket_server.Prelude.{◌≡◌, refl, arith, none, [], ◌∷◌, ok, err, take, drop}
use mcp_socket_server.Errors.{Exn}
use mcp_socket_server.Value.{bytes, null}
use mcp_socket_server.Wire.{
  Bytes, piece, Sock, recv_n, recv_prefixed, send_frame, unpack_int, pos, closed_early, set_timeout,
  send_all, lift, pack_int, ◌>>=◌,
}
use mcp_socket_server.Wire.Ints.{int_bytes}
use mcp_socket_server.Wire.{recv_until_timeout}
use mcp_socket_server.Wire.Draining.{failure_of, recv_until_timeout-content}
use mcp_socket_server.Wire.Reading.{content, ending, Reads, recv_n-Reads, recv_n_short}
use mcp_socket_server.Wire.Frames.{recv_prefixed-frame, send_frame_received}
use mcp_socket_server.Agent.{Codec}
use mcp_socket_server.Agent.Listen.{fetch}
use mcp_socket_server.Agent.Listen.Fetch.{fetch-content, fetch_misread}
use mcp_socket_server.Tests.Fixtures.{client_a}

abbrev quiet : Sock
quiet = record { incoming = []; sent = []; timeout = 0; refuses = none }

-- Three bytes in two pieces, and then the end of the connection.
abbrev split_up : Sock
split_up = record quiet { incoming = piece (7 ∷ 8 ∷ []) ∷ piece (9 ∷ []) ∷ piece [] ∷ [] }

recv_n-Reads_example :
    Reads 3 [] split_up.incoming ((recv_n 30 3 split_up).0, (recv_n 30 3 split_up).1.incoming)
unfolding content
recv_n-Reads_example = recv_n-Reads 30 3 split_up (omega arith)

recv_n_short_run : (recv_n 30 4 split_up).0 ≡ err closed_early
unfolding content ending
recv_n_short_run = recv_n_short 30 4 split_up (omega arith)

-- A frame of two bytes, cut within its length, and one byte of the next.
abbrev framed : Sock
framed = record quiet {
  incoming = piece (2 ∷ 0 ∷ []) ∷ piece (0 ∷ 0 ∷ 5 ∷ []) ∷ piece (6 ∷ 9 ∷ []) ∷ [];
}

recv_prefixed-frame_run :
    (s' : Sock) × (recv_prefixed 30 framed ≡ (ok (5 ∷ 6 ∷ []), s'))
    × (content s'.incoming ≡ 9 ∷ [])
    × (s'.sent ≡ framed.sent)
unfolding content int_bytes
recv_prefixed-frame_run = recv_prefixed-frame 30 (5 ∷ 6 ∷ []) (9 ∷ []) framed (omega arith) refl

-- The peer of a client that asks for the version with the payload "1".
abbrev peer : Sock
peer = record quiet { incoming = piece (5 ∷ 0 ∷ 0 ∷ 0 ∷ 14 ∷ 0 ∷ 0 ∷ 0 ∷ 1 ∷ []) ∷ [] }

send_frame_received_example :
    (body : Bytes) × (peer' : Sock) × (recv_prefixed 30 peer ≡ (ok body, peer'))
    × (unpack_int (take 4 body) ≡ ok (pos 14))
    × (drop 4 body ≡ 1 ∷ [])
    × (content peer'.incoming ≡ [])
unfolding content send_frame set_timeout send_all lift ◌>>=◌ pack_int
send_frame_received_example =
    send_frame_received 30 14 (1 ∷ []) [] quiet peer (omega arith) (omega arith) refl refl

-- A codec under which nothing is packed.
abbrev plain_codec : Codec
plain_codec = record { dumps = λ v. []; loads = λ bs. ok null; gunzip = λ bs. ok bs }

abbrev two_bytes : Sock
two_bytes = record quiet { incoming = piece (2 ∷ 0 ∷ 0 ∷ 0 ∷ 0 ∷ 0 ∷ 0 ∷ 0 ∷ 5 ∷ 6 ∷ []) ∷ [] }

fetch-content_example : (fetch plain_codec client_a two_bytes).0 ≡ ok (bytes (5 ∷ 6 ∷ []))
unfolding content
fetch-content_example =
    fetch-content client_a refl plain_codec 2 (5 ∷ 6 ∷ []) [] (5 ∷ 6 ∷ []) two_bytes refl refl refl
      (omega arith) (omega arith) refl

-- The length of a content of 123 bytes.
abbrev brace_length : Sock
brace_length = record quiet { incoming = piece (123 ∷ 0 ∷ 0 ∷ 0 ∷ 0 ∷ 0 ∷ 0 ∷ 0 ∷ 5 ∷ []) ∷ [] }

fetch_misread_example : (e : Exn) × ((fetch plain_codec client_a brace_length).0 ≡ err e)
unfolding content
fetch_misread_example =
    fetch_misread client_a refl plain_codec 123 (5 ∷ []) brace_length refl refl refl

recv_until_timeout-content_example : (recv_until_timeout 30 5 split_up).0 ≡ ok (7 ∷ 8 ∷ 9 ∷ [])
unfolding content failure_of
recv_until_timeout-content_example = recv_until_timeout-content 30 5 split_up
