-- ===== src/Wire/Frames.antt =====
-- Frames of src/mcp_socket_server/socket_client.py: what `_send` writes, and what the reading methods
-- make of it.
use mathlib.Core.List.{append_assoc, tail, head-eq_of_cons-eq}
use mcp_socket_server.Prelude.{
  ℕ, ◌+◌, ◌^◌, ◌<◌, ◌≡◌, refl, sym, ap, ap₂, ◌∙◌, [], ◌∷◌, ◌++◌, arith, Result, ok, length, take,
  drop, length-append, none, ◌*◌,
}
use mcp_socket_server.Errors.{Exn}
use mcp_socket_server.Wire.{Bytes, Sock, unpack_int, pos, recv_n, recv_prefixed, send_frame}
use mcp_socket_server.Wire.Ints.{int_bytes, length-int_bytes, pack_int-fits, unpack_int-int_bytes}
use mcp_socket_server.Wire.Reading.{content, recv_n-Reads}

-- [4B len i][body]
abbrev pub frame : Bytes → Bytes
frame body = int_bytes (length body) ++ body

-- `_send` writes one frame, with the datatype in front of the payload, if its length fits an int.
pub send_frame_sent :
    (timeout datatype : ℕ) (payload : Bytes) (s : Sock)
    → datatype < 2 ^ 31
    → length payload + 4 < 2 ^ 31
    → s.refuses ≡ none
    → send_frame timeout datatype payload s ≡ (
      ok tt,
      record s { sent = s.sent ++ frame (int_bytes datatype ++ payload); timeout = 10 * timeout },
    )
unfolding send_frame
send_frame_sent timeout datatype payload s d l h =
    let fits : length (int_bytes datatype ++ payload) < 2 ^ 31 =
      omega (arith, length-append (int_bytes datatype) payload, length-int_bytes datatype) in
    rw (pack_int-fits datatype d) (rw (pack_int-fits _ fits) (simp h))

append_split :
    (xs ys us vs : Bytes) → xs ++ ys ≡ us ++ vs → length xs ≡ length us → (xs ≡ us) × (ys ≡ vs)
append_split [] ys [] vs e h = (refl, e)
append_split [] ys (u ∷ us) vs e h = absurd (omega arith)
append_split (x ∷ xs) ys [] vs e h = absurd (omega arith)
append_split (x ∷ xs) ys (u ∷ us) vs e h =
    let rest = append_split xs ys us vs (ap tail e) (omega arith) in
    (ap₂ ◌∷◌ (head-eq_of_cons-eq e) rest.0, rest.1)

-- The next n bytes are read, whatever the pieces.
pub recv_n_next :
    (timeout n : ℕ) (xs ys : Bytes) (s : Sock)
    → length xs ≡ n
    → content s.incoming ≡ xs ++ ys
    → (s' : Sock) × (recv_n timeout n s ≡ (ok xs, s'))
      × (content s'.incoming ≡ ys)
      × (s'.sent ≡ s.sent)
recv_n_next timeout n xs ys s size e =
    let r = recv_n-Reads timeout n s (omega (arith, ap length e, length-append xs ys)) in
    let split = append_split xs ys r.got _ (sym e ∙ r.consumed) (size ∙ sym r.counted) in
    (
      (recv_n timeout n s).1,
      λ i. ((r.returned ∙ ap ok (sym split.0)) i, (recv_n timeout n s).1),
      sym split.1,
      unfold recv_n in refl,
    )

-- For a body whose length fits an int: the reading of a length-prefixed reply returns the body of
-- the next frame, however the frame is cut into pieces, and leaves what follows it to the next
-- call.
pub recv_prefixed-frame :
    (timeout : ℕ) (body more : Bytes) (s : Sock)
    → length body < 2 ^ 31
    → content s.incoming ≡ frame body ++ more
    → (s' : Sock) × (recv_prefixed timeout s ≡ (ok body, s'))
      × (content s'.incoming ≡ more)
      × (s'.sent ≡ s.sent)
unfolding recv_prefixed
recv_prefixed-frame timeout body more s fits e =
    let first =
      recv_n_next timeout 4 (int_bytes (length body)) (body ++ more) s
        (length-int_bytes (length body)) (e ∙ append_assoc (int_bytes (length body)) body more) in
    let second = recv_n_next timeout (length body) body more first.0 refl first.2 in
    (
      second.0,
      rw (first.1) (rw (unpack_int-int_bytes (length body) fits) second.1),
      second.2,
      second.3 ∙ first.3,
    )

datatype_of :
    (datatype : ℕ) (payload : Bytes)
    → datatype < 2 ^ 31
    → (unpack_int (take 4 (int_bytes datatype ++ payload)) ≡ ok (pos datatype))
      × (drop 4 (int_bytes datatype ++ payload) ≡ payload)
unfolding int_bytes
datatype_of datatype payload d = (unpack_int-int_bytes datatype d, refl)

-- On a socket that accepts the bytes, for a datatype and a payload whose sizes fit an int: from
-- what `_send` writes, a peer that reads a length-prefixed frame gets the datatype and then the
-- payload, byte for byte, with the reading left at what was sent afterwards.
pub send_frame_received :
    (timeout datatype : ℕ) (payload more : Bytes) (s peer : Sock)
    → datatype < 2 ^ 31
    → length payload + 4 < 2 ^ 31
    → s.refuses ≡ none
    → s.sent ++ content peer.incoming ≡ (send_frame timeout datatype payload s).1.sent ++ more
    → (body : Bytes) × (peer' : Sock) × (recv_prefixed timeout peer ≡ (ok body, peer'))
      × (unpack_int (take 4 body) ≡ ok (pos datatype))
      × (drop 4 body ≡ payload)
      × (content peer'.incoming ≡ more)
send_frame_received timeout datatype payload more s peer d l h e =
    let body : Bytes = int_bytes datatype ++ payload in
    let wrote = send_frame_sent timeout datatype payload s d l h in
    let split =
      append_split s.sent (content peer.incoming) s.sent (frame body ++ more)
        (e
          ∙ ap (λ (r : Result Exn (Unit {0}) × Sock). r.1.sent ++ more) wrote
          ∙ append_assoc s.sent (frame body) more)
        refl in
    let read =
      recv_prefixed-frame timeout body more peer
        (omega (arith, length-append (int_bytes datatype) payload, length-int_bytes datatype))
        split.1 in
    let (kind, rest) = datatype_of datatype payload d in (body, read.0, read.1, kind, rest, read.2)
