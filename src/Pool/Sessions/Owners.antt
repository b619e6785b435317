-- ===== src/Pool/Sessions/Owners.antt =====
-- How often a connection of a shared pool (src/mcp_socket_server/pool.py) is owned.
use mcp_socket_server.Prelude.{
  ℕ, ◌+◌, ◌≤◌, ◌≡◌, refl, Option, none, some, List, [], ◌∷◌, ◌++◌, length, arith, ◌==◌, nat_eq,
  if◌then◌else◌, ◌⊎◌, inr,
}
use mcp_socket_server.Pool.{Client, Popped, PooledConn, pop_idle}
use mcp_socket_server.Pool.Sessions.{World}

-- 1 if the client has this number, and 0 otherwise.
abbrev pub is_number : ℕ → Client → ℕ
is_number n c = if c.number == n then 1 else 0

-- How often the client with this number stands in a list.
unfoldable pub idle_count : ℕ → List PooledConn → ℕ
idle_count n [] = 0
idle_count n (pc ∷ l) = is_number n pc.client + idle_count n l

abbrev pub reuse_number : ℕ → Option Client → ℕ
reuse_number n none = 0
reuse_number n (some c) = is_number n c

unfoldable pub reserved_count : ℕ → List Popped → ℕ
reserved_count n [] = 0
reserved_count n (p ∷ l) = reuse_number n p.reuse + reserved_count n l

unfoldable pub leased_count : ℕ → List Client → ℕ
leased_count n [] = 0
leased_count n (c ∷ l) = is_number n c + leased_count n l

-- How many threads or places own the connection.
abbrev pub owners : ℕ → World → ℕ
owners n w = idle_count n w.pool.idle + reserved_count n w.reserved + leased_count n w.leased

pub reserved_count_middle :
    (n : ℕ) (xs : List Popped) (p : Popped) (ys : List Popped)
    → reserved_count n (xs ++ p ∷ ys) ≡ reuse_number n p.reuse + reserved_count n (xs ++ ys)
unfolding reserved_count
reserved_count_middle n [] p ys = refl
reserved_count_middle n (x ∷ xs) p ys = omega (arith, reserved_count_middle n xs p ys)

pub leased_count_middle :
    (n : ℕ) (xs : List Client) (c : Client) (ys : List Client)
    → leased_count n (xs ++ c ∷ ys) ≡ is_number n c + leased_count n (xs ++ ys)
unfolding leased_count
leased_count_middle n [] c ys = refl
leased_count_middle n (x ∷ xs) c ys = omega (arith, leased_count_middle n xs c ys)

pub pop_idle_count :
    (n now : ℕ) (l : List PooledConn)
    → reuse_number n (pop_idle now l).reuse + idle_count n (pop_idle now l).rest ≤ idle_count n l
unfolding pop_idle idle_count
pop_idle_count n now [] = omega arith
pop_idle_count n now (pc ∷ l) = ground (arith, pop_idle_count n now l)

-- A connection that is reused leaves the idle list; without one the idle list is used up.
pub pop_idle-length :
    (now : ℕ) (l : List PooledConn)
    → (length (pop_idle now l).rest + 1 ≤ length l) ⊎ (length (pop_idle now l).rest ≡ 0)
unfolding pop_idle
pop_idle-length now [] = inr refl
pop_idle-length now (pc ∷ l) = ground (arith, pop_idle-length now l)
