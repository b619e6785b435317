-- ===== src/Wire/Draining.antt =====
-- `_recv_until_timeout` (src/mcp_socket_server/socket_client.py) reads all that comes before a silence.
use mathlib.Core.List.{append_assoc, append-nil}
use mcp_socket_server.Prelude.{
  ℕ, zero, suc, ◌+◌, ◌≤◌, ◌<◌, ◌≡◌, refl, sym, ap, ◌∙◌, List, [], ◌∷◌, ◌++◌, Option, none, some,
  Result, ok, err, length, take, drop, arith,
}
use mcp_socket_server.Errors.{Exn}
use mcp_socket_server.Wire.{
  Bytes, Arrival, piece, silence, broken, Sock, push_back, weight, drain_loop, first_piece,
  recv_until_timeout,
}
use mcp_socket_server.Wire.Reading.{content, piece_split}

-- The error that stops the stream, if it is one: a silence and the end of the connection are none.
unfoldable pub failure_of : List Arrival → Option Exn
failure_of [] = none
failure_of (piece [] ∷ s) = none
failure_of (piece (b ∷ bs) ∷ s) = failure_of s
failure_of (silence ∷ s) = none
failure_of (broken e ∷ s) = some e

-- The bytes, unless the stream fails.
abbrev pub unless_failed : Option Exn → Bytes → Result Exn Bytes
unless_failed none bs = ok bs
unless_failed (some e) bs = err e

failure_of-push_back : (bs : Bytes) (s : List Arrival) → failure_of (push_back bs s) ≡ failure_of s
unfolding failure_of
failure_of-push_back [] s = refl
failure_of-push_back (b ∷ bs) s = refl

weight-push_back :
    (bs : Bytes) (s : List Arrival) → weight (push_back bs s) ≤ length bs + 1 + weight s
unfolding weight
weight-push_back [] s = omega arith
weight-push_back (b ∷ bs) s = omega arith

length-drop : (n : ℕ) (bs : Bytes) → length (drop n bs) ≤ length bs
length-drop zero bs = omega arith
length-drop (suc n) [] = omega arith
length-drop (suc n) (b ∷ bs) = omega (arith, length-drop n bs)

-- One turn keeps what is read and what is to come together.
turn_keeps :
    (k b : ℕ) (bs buf : Bytes) (s : List Arrival)
    → (buf ++ take k (b ∷ bs)) ++ content (push_back (drop k (b ∷ bs)) s)
      ≡ buf ++ content (piece (b ∷ bs) ∷ s)
turn_keeps k b bs buf s =
    append_assoc buf (take k (b ∷ bs)) _ ∙ ap (◌++◌ buf) (sym (piece_split k b bs s))

drain_loop-content :
    (fuel : ℕ) (buf : Bytes) (s : List Arrival)
    → weight s < fuel
    → (drain_loop fuel buf s).0 ≡ unless_failed (failure_of s) (buf ++ content s)
unfolding drain_loop failure_of content weight
drain_loop-content zero buf s h = absurd (omega arith)
drain_loop-content (suc fuel) buf [] h = ap ok (sym (append-nil buf))
drain_loop-content (suc fuel) buf (silence ∷ s) h = ap ok (sym (append-nil buf))
drain_loop-content (suc fuel) buf (broken e ∷ s) h = refl
drain_loop-content (suc fuel) buf (piece [] ∷ s) h = ap ok (sym (append-nil buf))
drain_loop-content (suc fuel) buf (piece (b ∷ bs) ∷ s) h =
    let rest = drop 65536 (b ∷ bs) in
    drain_loop-content fuel (buf ++ take 65536 (b ∷ bs)) (push_back rest s)
      (omega (arith, weight-push_back rest s, length-drop 65535 bs))
    ∙ ap (unless_failed (failure_of (push_back rest s))) (turn_keeps 65536 b bs buf s)
    ∙ ap (λ o. unless_failed o (buf ++ content (piece (b ∷ bs) ∷ s))) (failure_of-push_back rest s)

first_piece-content :
    (s : List Arrival) → (first_piece s).0 ≡ unless_failed (failure_of s) (content s)
unfolding first_piece failure_of content
first_piece-content [] = refl
first_piece-content (silence ∷ s) = refl
first_piece-content (broken e ∷ s) = refl
first_piece-content (piece [] ∷ s) = refl
first_piece-content (piece (b ∷ bs) ∷ s) =
    let rest = drop 65536 (b ∷ bs) in
    drain_loop-content (weight (push_back rest s) + 1) (take 65536 (b ∷ bs)) (push_back rest s)
      (omega arith)
    ∙ ap (unless_failed (failure_of (push_back rest s))) (turn_keeps 65536 b bs [] s)
    ∙ ap (λ o. unless_failed o (content (piece (b ∷ bs) ∷ s))) (failure_of-push_back rest s)

-- `_recv_until_timeout` returns all bytes that come before the stream falls silent or is closed, however
-- they are cut into pieces; it raises only an error of the connection that comes before that.
pub recv_until_timeout-content :
    (timeout quiet : ℕ) (s : Sock)
    → (recv_until_timeout timeout quiet s).0
      ≡ unless_failed (failure_of s.incoming) (content s.incoming)
unfolding recv_until_timeout
recv_until_timeout-content timeout quiet s = first_piece-content s.incoming
