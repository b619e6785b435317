-- ===== src/Wire/Reading.antt =====
-- `_recv_n` (src/mcp_socket_server/socket_client.py) reads exactly what it is asked for, however the
-- bytes are cut into pieces, or raises.
use mathlib.Core.List.{append_assoc, append-nil}
use mcp_socket_server.Prelude.{
  ℕ, zero, suc, ◌+◌, ◌-◌, ◌≤◌, ◌<◌, min, ◌≡◌, refl, sym, ap, ◌∙◌, List, [], ◌∷◌, ◌++◌, arith,
  Result, ok, err, length, take, drop, length-append, take-append-drop, length-take, lt→ltb, ltb-ge,
}
use mcp_socket_server.Errors.{Exn}
use mcp_socket_server.Wire.{
  Bytes, Arrival, piece, silence, broken, Sock, socket_timeout, closed_early, push_back, after_recv,
  recv_from, recv_loop, recv_n,
}

-- The bytes that come before the first silence, end or error.
unfoldable pub content : List Arrival → Bytes
content [] = []
content (piece [] ∷ s) = []
content (piece (b ∷ bs) ∷ s) = b ∷ (bs ++ content s)
content (silence ∷ s) = []
content (broken e ∷ s) = []

-- What stops them.
unfoldable pub ending : List Arrival → Exn
ending [] = socket_timeout
ending (piece [] ∷ s) = closed_early
ending (piece (b ∷ bs) ∷ s) = ending s
ending (silence ∷ s) = socket_timeout
ending (broken e ∷ s) = e

content-push_back : (bs : Bytes) (s : List Arrival) → content (push_back bs s) ≡ bs ++ content s
unfolding content
content-push_back [] s = refl
content-push_back (b ∷ bs) s = refl

ending-push_back : (bs : Bytes) (s : List Arrival) → ending (push_back bs s) ≡ ending s
unfolding ending
ending-push_back [] s = refl
ending-push_back (b ∷ bs) s = refl

-- So many bytes are read, and the stream goes on behind them.
pub record Reads (n : ℕ) (buf : Bytes) (s : List Arrival) (r : Result Exn Bytes × List Arrival)
    : Type 0 where
  pub got : Bytes
  pub returned : r.0 ≡ ok (buf ++ got)
  pub counted : length got ≡ n
  pub consumed : content s ≡ got ++ content r.1

-- One piece: the part that a `recv` of k bytes returns, and the rest.
pub piece_split :
    (k b : ℕ) (bs : Bytes) (s : List Arrival)
    → content (piece (b ∷ bs) ∷ s) ≡ take k (b ∷ bs) ++ content (push_back (drop k (b ∷ bs)) s)
piece_split k b bs s =
    unfold content in
    (ap (λ l. l ++ content s) (sym (take-append-drop k (b ∷ bs))))
    ∙ append_assoc (take k (b ∷ bs)) (drop k (b ∷ bs)) (content s)
    ∙ ap (◌++◌ (take k (b ∷ bs))) (sym (content-push_back (drop k (b ∷ bs)) s))

-- One turn of the loop that finds a piece.
after_recv_piece :
    (go : Bytes → List Arrival → Result Exn Bytes × List Arrival) (k b : ℕ) (bs : Bytes)
    (s : List Arrival)
    → 0 < k
    → after_recv go (recv_from k (piece (b ∷ bs) ∷ s))
      ≡ go (take k (b ∷ bs)) (push_back (drop k (b ∷ bs)) s)
unfolding recv_from
after_recv_piece go zero b bs s h = absurd (omega arith)
after_recv_piece go (suc k) b bs s h = refl

abbrev asked : ℕ → Bytes → ℕ
asked want buf = min 65536 (want - length buf)

recv_loop_turn :
    (fuel want : ℕ) (buf : Bytes) (b : ℕ) (bs : Bytes) (s : List Arrival)
    → length buf < want
    → recv_loop (suc fuel) want buf (piece (b ∷ bs) ∷ s)
      ≡ recv_loop fuel want
          (buf ++ take (asked want buf) (b ∷ bs))
          (push_back (drop (asked want buf) (b ∷ bs)) s)
unfolding recv_loop
recv_loop_turn fuel want buf b bs s h = rw (lt→ltb _ _ h) (
    after_recv_piece (λ chunk s'. recv_loop fuel want (buf ++ chunk) s') (asked want buf) b bs s
      (omega arith))

abbrev turn : ℕ → ℕ → Bytes → List Arrival → Result Exn Bytes × List Arrival
turn fuel want buf s =
    after_recv (λ chunk s'. recv_loop fuel want (buf ++ chunk) s') (recv_from (asked want buf) s)

recv_loop_next :
    (fuel want : ℕ) (buf : Bytes) (s : List Arrival)
    → length buf < want
    → recv_loop (suc fuel) want buf s ≡ turn fuel want buf s
unfolding recv_loop
recv_loop_next fuel want buf s h = rw (lt→ltb _ _ h) refl

-- A `recv` that finds no byte ends the loop.
turn_stop :
    (fuel want : ℕ) (buf : Bytes) (s : List Arrival)
    → content s ≡ []
    → (turn fuel want buf s).0 ≡ err (ending s)
unfolding recv_from content ending
turn_stop fuel want buf [] h = refl
turn_stop fuel want buf (piece [] ∷ s) h = closed_turn (asked want buf)
  where
    closed_turn :
        (k : ℕ)
        → (after_recv
            (λ chunk s'. recv_loop fuel want (buf ++ chunk) s')
            (recv_from k (piece [] ∷ s))).0
          ≡ err closed_early
    closed_turn zero = refl
    closed_turn (suc k) = refl
turn_stop fuel want buf (piece (b ∷ bs) ∷ s) h = cc
turn_stop fuel want buf (silence ∷ s) h = refl
turn_stop fuel want buf (broken e ∷ s) h = refl

recv_loop_done :
    (fuel want : ℕ) (buf : Bytes) (s : List Arrival)
    → want ≤ length buf
    → recv_loop (suc fuel) want buf s ≡ (ok buf, s)
unfolding recv_loop
recv_loop_done fuel want buf s h = rw (ltb-ge (length buf) want h) refl

take_bounds :
    (k b : ℕ) (bs : Bytes) → 0 < k → (0 < length (take k (b ∷ bs))) × (length (take k (b ∷ bs)) ≤ k)
take_bounds k b bs h = omega (arith, length-take k (b ∷ bs))

module _ (want : ℕ) where
  recv_loop-Reads :
      (fuel n : ℕ) (buf : Bytes) (s : List Arrival)
      → length buf + n ≡ want
      → n < fuel
      → n ≤ length (content s)
      → Reads n buf s (recv_loop fuel want buf s)
  recv_loop-Reads zero n buf s e f h = absurd (omega arith)
  recv_loop-Reads (suc fuel) zero buf s e f h =
      rw (recv_loop_done fuel want buf s (omega arith)) (record {
        got = [];
        returned = ap ok (sym (append-nil buf));
        counted = refl;
        consumed = refl;
      })
  recv_loop-Reads (suc fuel) (suc n) buf [] e f h = absurd (unfold content in (omega arith))
  recv_loop-Reads (suc fuel) (suc n) buf (silence ∷ s) e f h =
      absurd (unfold content in (omega arith))
  recv_loop-Reads (suc fuel) (suc n) buf (broken x ∷ s) e f h =
      absurd (unfold content in (omega arith))
  recv_loop-Reads (suc fuel) (suc n) buf (piece [] ∷ s) e f h =
      absurd (unfold content in (omega arith))
  recv_loop-Reads (suc fuel) (suc n) buf (piece (b ∷ bs) ∷ s) e f h =
      let g : Bytes = take (asked want buf) (b ∷ bs) in
      let s' : List Arrival = push_back (drop (asked want buf) (b ∷ bs)) s in
      let bounds = take_bounds (asked want buf) b bs (omega arith) in
      let split = piece_split (asked want buf) b bs s in
      let later : Reads (suc n - length g) (buf ++ g) s' (recv_loop fuel want (buf ++ g) s') =
        recv_loop-Reads fuel (suc n - length g) (buf ++ g) s'
          (omega (arith, length-append buf g, bounds)) (omega (arith, bounds))
          (omega (arith, bounds, ap length split, length-append g (content s'))) in
      rw (recv_loop_turn fuel want buf b bs s (omega arith)) (record {
        got = g ++ later.got;
        returned = later.returned ∙ ap ok (append_assoc buf g later.got);
        counted = omega (arith, length-append g later.got, later.counted, bounds);
        consumed = split ∙ ap (◌++◌ g) later.consumed ∙ sym (append_assoc g later.got _);
      })

  stops_now :
      (fuel : ℕ) (buf : Bytes) (s : List Arrival)
      → content s ≡ []
      → length buf + length (content s) < want
      → (recv_loop (suc fuel) want buf s).0 ≡ err (ending s)
  stops_now fuel buf s e h =
      rw (recv_loop_next fuel want buf s (omega arith)) (turn_stop fuel want buf s e)

  -- With fewer bytes to come, the loop raises what stops them.
  recv_loop_short :
      (fuel : ℕ) (buf : Bytes) (s : List Arrival)
      → want < length buf + fuel
      → length buf + length (content s) < want
      → (recv_loop fuel want buf s).0 ≡ err (ending s)
  unfolding ending
  recv_loop_short zero buf s f h = absurd (omega arith)
  recv_loop_short (suc fuel) buf (piece (b ∷ bs) ∷ s) f h =
      let g : Bytes = take (asked want buf) (b ∷ bs) in
      let s' : List Arrival = push_back (drop (asked want buf) (b ∷ bs)) s in
      let bounds = take_bounds (asked want buf) b bs (omega arith) in
      let split = piece_split (asked want buf) b bs s in
      rw (recv_loop_turn fuel want buf b bs s (omega arith)) (
        recv_loop_short fuel (buf ++ g) s' (omega (arith, length-append buf g, bounds))
          (omega (arith, length-append buf g, ap length split, length-append g (content s')))
        ∙ ap err (ending-push_back (drop (asked want buf) (b ∷ bs)) s))
  recv_loop_short (suc fuel) buf [] f h = stops_now fuel buf [] (unfold content in refl) h
  recv_loop_short (suc fuel) buf (piece [] ∷ s) f h =
      stops_now fuel buf (piece [] ∷ s) (unfold content in refl) h
  recv_loop_short (suc fuel) buf (silence ∷ s) f h =
      stops_now fuel buf (silence ∷ s) (unfold content in refl) h
  recv_loop_short (suc fuel) buf (broken e ∷ s) f h =
      stops_now fuel buf (broken e ∷ s) (unfold content in refl) h

-- If n bytes are to come before the stream stops, `_recv_n(n)` returns the next n of them, however
-- they are cut into pieces, and leaves the stream behind them.
pub recv_n-Reads :
    (timeout n : ℕ) (s : Sock)
    → n ≤ length (content s.incoming)
    → Reads n [] s.incoming ((recv_n timeout n s).0, (recv_n timeout n s).1.incoming)
unfolding recv_n
recv_n-Reads timeout n s h = recv_loop-Reads n (n + 1) n [] s.incoming (omega arith) (omega arith) h

-- If fewer than n bytes are to come before the stream stops, `_recv_n(n)` raises: the timeout, the
-- error of the connection, or that the peer has closed, whichever stops it.
pub recv_n_short :
    (timeout n : ℕ) (s : Sock)
    → length (content s.incoming) < n
    → (recv_n timeout n s).0 ≡ err (ending s.incoming)
unfolding recv_n
recv_n_short timeout n s h = recv_loop_short n (n + 1) [] s.incoming (omega arith) (omega arith)
