-- ===== src/Wire.antt =====
-- Bytes on a socket (the sending and receiving methods of src/mcp_socket_server/socket_client.py).
-- `struct` writes the native `int` of the machines that run the code: four bytes, lowest first.
pub mod Ints
pub mod Reading
pub mod Frames
pub mod Draining
use mcp_socket_server.Prelude.{
  ℕ, zero, suc, ◌+◌, ◌-◌, ◌*◌, ◌/◌, ◌%◌, ◌^◌, min, String, Bool, true, false, Option, none, some,
  List, [], ◌∷◌, ◌++◌, if◌then◌else◌, ltb, leb, length, take, drop, Result, ok, err,
}
use mcp_socket_server.Errors.{Exn, os_error, connection_error, other_error}

abbrev pub Bytes : Type 0
Bytes = List ℕ

-- What a `recv` finds: bytes that have come in one piece (none: the peer has closed), nothing until
-- the timeout, or an error of the connection. Where the list ends, nothing more comes.
pub data Arrival : Type 0 where
  piece : Bytes → Arrival
  silence : Arrival
  broken : Exn → Arrival

pub record Sock : Type 0 where
  pub incoming : List Arrival
  pub sent : Bytes
  -- what `settimeout` was last given, in tenths of a second
  pub timeout : ℕ
  -- what `sendall` raises, if it does
  pub refuses : Option Exn

-- A call on a socket: it returns or raises, and leaves the socket changed.
abbrev pub Exec {ℓ} : Type ℓ → Type ℓ
Exec A = Sock → Result Exn A × Sock

module _ {ℓ} {A : Type ℓ} where
  unfoldable pub pure : A → Exec A
  pure a s = (ok a, s)

  unfoldable pub raise : Exn → Exec A
  raise e s = (err e, s)

  unfoldable pub lift : Result Exn A → Exec A
  lift r s = (r, s)

module _ {ℓ κ} {A : Type ℓ} {B : Type κ} where
  abbrev continue : Result Exn A → (A → Exec B) → Exec B
  continue (ok a) f s = f a s
  continue (err e) f s = (err e, s)

  infixl 10 ◌>>=◌ ◌>>◌
  unfoldable pub ◌>>=◌ : Exec A → (A → Exec B) → Exec B
  unfolding pure raise lift
  ◌>>=◌ m f s = let (r, s') = m s in continue r f s'

  abbrev pub ◌>>◌ : Exec A → Exec B → Exec B
  m >> n = m >>= λ _. n

abbrev pub socket_timeout : Exn
socket_timeout = os_error "timed out"

abbrev pub closed_early : Exn
closed_early = connection_error "连接在读取完成前关闭"

-- struct.pack("i", n); `struct.error` where n does not fit
unfoldable pub pack_int : ℕ → Result Exn Bytes
pack_int n =
    if ltb n (2 ^ 31)
    then ok (n % 256 ∷ n / 256 % 256 ∷ n / 65536 % 256 ∷ n / 16777216 ∷ [])
    else err (other_error "struct.error")

-- struct.unpack("i", bs)[0]
pub data ℤ : Type 0 where
  pos : ℕ → ℤ
  -- -(n + 1)
  negsuc : ℕ → ℤ

abbrev pub signed32 : ℕ → ℤ
signed32 w = if ltb w (2 ^ 31) then pos w else negsuc (2 ^ 32 - w - 1)

unfoldable pub unpack_int : Bytes → Result Exn ℤ
unpack_int (a ∷ b ∷ c ∷ d ∷ []) = ok (signed32 (a + 256 * b + 65536 * c + 16777216 * d))
unpack_int _ = err (other_error "struct.error")

-- struct.unpack("<Q", bs)[0]: eight bytes, lowest first
unfoldable pub little_endian : Bytes → ℕ
little_endian [] = 0
little_endian (b ∷ bs) = b + 256 * little_endian bs

-- range(n) for a signed n: a negative length reads nothing
abbrev pub read_length : ℤ → ℕ
read_length (pos n) = n
read_length (negsuc n) = 0

unfoldable pub set_timeout : ℕ → Exec (Unit {0})
set_timeout t s = (ok tt, record s { timeout = t })

-- sock.sendall(bs)
unfoldable pub send_all : Bytes → Exec (Unit {0})
send_all bs s = elim s.refuses [
  | none ↦ (ok tt, record s { sent = s.sent ++ bs })
  | some e ↦ (err e, s)
]

abbrev pub push_back : Bytes → List Arrival → List Arrival
push_back [] rest = rest
push_back (b ∷ bs) rest = piece (b ∷ bs) ∷ rest

-- sock.recv(k), on what comes in: at most k bytes of the first piece
unfoldable pub recv_from : ℕ → List Arrival → Result Exn Bytes × List Arrival
recv_from k [] = (err socket_timeout, [])
recv_from k (silence ∷ rest) = (err socket_timeout, rest)
recv_from k (broken e ∷ rest) = (err e, rest)
recv_from k (piece bs ∷ rest) = (ok (take k bs), push_back (drop k bs) rest)

-- `if not chunk: raise ConnectionError`, and on with what came
abbrev pub after_recv :
    (Bytes → List Arrival → Result Exn Bytes × List Arrival)
    → Result Exn Bytes × List Arrival
    → Result Exn Bytes × List Arrival
after_recv go (ok [], s) = (err closed_early, s)
after_recv go (ok (b ∷ bs), s) = go (b ∷ bs) s
after_recv go (err e, s) = (err e, s)

-- The loop of `_recv_n`, with the bytes that it has and the number that it wants. Each turn brings at
-- least one byte or is the last, so one turn more than the number is fuel enough.
unfoldable pub recv_loop : ℕ → ℕ → Bytes → List Arrival → Result Exn Bytes × List Arrival
unfolding recv_from
recv_loop zero want buf s = (err (other_error "out of fuel"), s)
recv_loop (suc fuel) want buf s =
    let turn =
      after_recv (λ (chunk : Bytes) (s' : List Arrival). recv_loop fuel want (buf ++ chunk) s')
        (recv_from (min 65536 (want - length buf)) s) in
    if ltb (length buf) want then turn else (ok buf, s)

-- `_recv_n(n)`, on a client with this timeout in seconds
unfoldable pub recv_n : ℕ → ℕ → Exec Bytes
unfolding recv_loop
recv_n timeout n s =
    let (r, rest) = recv_loop (n + 1) n [] s.incoming in
    (r, record s { incoming = rest; timeout = 10 * timeout })

-- The `while True` loop of `_recv_until_timeout`: all that comes until it is still for the timeout.
-- An arrival is taken in at most one turn for each of its bytes.
unfoldable pub drain_loop : ℕ → Bytes → List Arrival → Result Exn Bytes × List Arrival
unfolding recv_from
drain_loop zero buf s = (err (other_error "out of fuel"), s)
drain_loop (suc fuel) buf [] = (ok buf, [])
drain_loop (suc fuel) buf (silence ∷ s) = (ok buf, s)
drain_loop (suc fuel) buf (broken e ∷ s) = (err e, s)
drain_loop (suc fuel) buf (piece [] ∷ s) = (ok buf, s)
drain_loop (suc fuel) buf (piece (b ∷ bs) ∷ s) =
    drain_loop fuel (buf ++ take 65536 (b ∷ bs)) (push_back (drop 65536 (b ∷ bs)) s)

-- the turns that a stream can take
unfoldable pub weight : List Arrival → ℕ
weight [] = 0
weight (piece bs ∷ s) = length bs + 1 + weight s
weight (_ ∷ s) = 1 + weight s

-- `_recv_until_timeout(quiet)`: the first piece within the client's timeout, then the rest
unfoldable pub first_piece : List Arrival → Result Exn Bytes × List Arrival
unfolding drain_loop weight
first_piece [] = (ok [], [])
first_piece (silence ∷ s) = (ok [], s)
first_piece (broken e ∷ s) = (err e, s)
first_piece (piece [] ∷ s) = (ok [], s)
first_piece (piece (b ∷ bs) ∷ s) =
    let s' = push_back (drop 65536 (b ∷ bs)) s in
    drain_loop (weight s' + 1) (take 65536 (b ∷ bs)) s'

-- whether a first piece comes, after which the short timeout is set
abbrev pub begins : List Arrival → Bool
begins (piece (b ∷ bs) ∷ s) = true
begins _ = false

unfoldable pub recv_until_timeout : ℕ → ℕ → Exec Bytes
unfolding first_piece
recv_until_timeout timeout quiet s =
    let (r, rest) = first_piece s.incoming in
    (r, record s { incoming = rest; timeout = if begins s.incoming then quiet else 10 * timeout })

-- `_send(datatype, payload)`
unfoldable pub send_frame : ℕ → ℕ → Bytes → Exec (Unit {0})
unfolding set_timeout send_all lift ◌>>=◌
send_frame timeout datatype payload = do
  set_timeout (10 * timeout)
  kind ← lift (pack_int datatype)
  let body = kind ++ payload
  head ← lift (pack_int (length body))
  send_all (head ++ body)

-- `_send_raw(msg)`
unfoldable pub send_raw : ℕ → Bytes → Exec (Unit {0})
unfolding set_timeout send_all lift ◌>>=◌
send_raw timeout msg = do
  set_timeout (10 * timeout)
  head ← lift (pack_int (length msg))
  send_all (head ++ msg)

-- [4B len i][content]: the length, then so many bytes
unfoldable pub recv_prefixed : ℕ → Exec Bytes
unfolding lift ◌>>=◌
recv_prefixed timeout = do
  head ← recv_n timeout 4
  n ← lift (unpack_int head)
  recv_n timeout (read_length n)

-- [8B <Q len][content]
unfoldable pub recv_long : ℕ → Exec (ℕ × Bytes)
unfolding pure ◌>>=◌
recv_long timeout = do
  head ← recv_n timeout 8
  let n = little_endian head
  body ← recv_n timeout n
  pure (n, body)
