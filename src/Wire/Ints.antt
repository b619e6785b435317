-- ===== src/Wire/Ints.antt =====
-- The integers of a frame: `struct.pack("i", n)` and back.
use mcp_socket_server.Prelude.{
  ℕ, ◌+◌, ◌*◌, ◌/◌, ◌%◌, ◌^◌, ◌<◌, ◌≡◌, refl, [], ◌∷◌, arith, ok, length, lt→ltb,
}
use mcp_socket_server.Wire.{Bytes, pack_int, unpack_int, pos}

-- The four bytes of a number.
unfoldable pub int_bytes : ℕ → Bytes
int_bytes n = n % 256 ∷ n / 256 % 256 ∷ n / 65536 % 256 ∷ n / 16777216 ∷ []

pub pack_int-fits : (n : ℕ) → n < 2 ^ 31 → pack_int n ≡ ok (int_bytes n)
unfolding pack_int int_bytes
pack_int-fits n h = ground arith

regroup :
    (n : ℕ)
    → n % 256 + 256 * (n / 256 % 256) + 65536 * (n / 65536 % 256) + 16777216 * (n / 16777216) ≡ n
regroup n = omega arith

-- What is packed is read back as the same number.
pub unpack_int-int_bytes : (n : ℕ) → n < 2 ^ 31 → unpack_int (int_bytes n) ≡ ok (pos n)
unfolding unpack_int int_bytes
unpack_int-int_bytes n h = rw (regroup n, lt→ltb n (2 ^ 31) h) refl

pub length-int_bytes : (n : ℕ) → length (int_bytes n) ≡ 4
unfolding int_bytes
length-int_bytes n = refl
