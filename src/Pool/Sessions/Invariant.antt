-- ===== src/Pool/Sessions/Invariant.antt =====
-- The accounts of a shared pool (src/mcp_socket_server/pool.py): places, connections, ownership.
use mcp_socket_server.Prelude.{
  ℕ, ◌+◌, ◌≤◌, ◌<◌, String, ◌≡◌, ◌≢◌, refl, Bool, true, false, Option, none, some, List, [], ◌∷◌,
  ◌++◌, Result, ok, err, length, length_middle, subst, ap, arith, nat_eq,
}
use mcp_socket_server.Errors.{Exn}
use mcp_socket_server.Pool.{
  Client, Popped, PooledConn, new_pool, max_conn_per_target, take_place, finish_acquire, release,
  close_all,
}
use mcp_socket_server.Pool.Sessions.{
  World, start, lease, Step, takes, finishes, releases, closes, Reach, here, next,
}
use mcp_socket_server.Pool.Sessions.Owners.{
  is_number, idle_count, reserved_count, leased_count, owners, reserved_count_middle,
  leased_count_middle, pop_idle_count, pop_idle-length,
}

pub record Inv (w : World) : Type 0 where
  -- every place in use belongs to one thread
  pub places : w.pool.inuse ≡ length w.reserved + length w.leased
  -- connections that are idle or in use, being opened or not
  pub bounded : length w.pool.idle + w.pool.inuse ≤ max_conn_per_target
  pub unshared : (n : ℕ) → owners n w ≤ 1
  pub unused : (n : ℕ) → w.fresh ≤ n → owners n w ≡ 0

start-Inv : (host : String) (port : ℕ) → Inv (start host port)
unfolding new_pool idle_count reserved_count leased_count
start-Inv host port = record {
  places = refl;
  bounded = omega arith;
  unshared = λ n. omega arith;
  unused = λ n h. refl;
}

takes-Inv :
    (w : World) (now : ℕ)
    → w.pool.inuse < max_conn_per_target
    → Inv w
    → Inv (record w {
      pool = (take_place now w.pool).1;
      reserved = (take_place now w.pool).0 ∷ w.reserved;
    })
unfolding take_place reserved_count
takes-Inv w now free v = record {
  places = omega (arith, v.places);
  bounded = ground (arith, pop_idle-length now w.pool.idle);
  unshared = λ n. omega (arith, v.unshared n, pop_idle_count n now w.pool.idle);
  unused = λ n h. omega (arith, v.unused n h, pop_idle_count n now w.pool.idle);
}

-- The world when a thread with a place is through with `acquire`.
abbrev finished : World → ℕ → Result Exn (Unit {0}) → List Popped → List Popped → Popped → World
finished w socket_timeout connect before after popped = record w {
  pool = (finish_acquire socket_timeout w.fresh connect popped w.pool).0;
  reserved = before ++ after;
  leased = lease (finish_acquire socket_timeout w.fresh connect popped w.pool).1 w.leased;
  fresh = w.fresh + 1;
}

module _ (w : World) (before after : List Popped) where
  abbrev with_popped : Popped → World
  with_popped popped = record w { reserved = before ++ popped ∷ after }

  finishes-Inv :
      (socket_timeout : ℕ) (expired : List Client) (rest : List PooledConn) (reuse : Option Client)
      (connect : Result Exn (Unit {0}))
      → let popped : Popped = record { expired = expired; reuse = reuse; rest = rest } in
        Inv (with_popped popped) → Inv (finished w socket_timeout connect before after popped)
  unfolding finish_acquire leased_count
  finishes-Inv socket_timeout expired rest (some c) connect v =
      let popped : Popped = record { expired = expired; reuse = some c; rest = rest } in
      record {
        places = omega (arith, v.places, length_middle before popped after);
        bounded = v.bounded;
        unshared = λ n. omega (arith, v.unshared n, reserved_count_middle n before popped after);
        unused = λ n h. omega (arith, v.unused n, reserved_count_middle n before popped after);
      }
  finishes-Inv socket_timeout expired rest none (ok _) v =
      let popped : Popped = record { expired = expired; reuse = none; rest = rest } in
      record {
        places = omega (arith, v.places, length_middle before popped after);
        bounded = v.bounded;
        unshared = λ n.
            ground (arith, v.unshared n, v.unused n, reserved_count_middle n before popped after);
        unused = λ n h. ground (arith, v.unused n, reserved_count_middle n before popped after);
      }
  finishes-Inv socket_timeout expired rest none (err e) v =
      let popped : Popped = record { expired = expired; reuse = none; rest = rest } in
      record {
        places = omega (arith, v.places, length_middle before popped after);
        bounded = omega (arith, v.bounded);
        unshared = λ n. omega (arith, v.unshared n, reserved_count_middle n before popped after);
        unused = λ n h. omega (arith, v.unused n, reserved_count_middle n before popped after);
      }

same_number : (n : ℕ) (c d : Client) → d.number ≡ c.number → is_number n d ≡ is_number n c
same_number n c d e = rw e

module _ (w : World) (before after : List Client) (c d : Client) (same : d.number ≡ c.number) where
  releases-Inv :
      (now : ℕ) (healthy : Bool)
      → Inv (record w { leased = before ++ c ∷ after })
      → Inv (record w { pool = release now d healthy w.pool; leased = before ++ after })
  unfolding release idle_count
  releases-Inv now true v = record {
    places = omega (arith, v.places, length_middle before c after);
    bounded = omega (arith, v.places, v.bounded, length_middle before c after);
    unshared = λ n.
        omega (arith, v.unshared n, leased_count_middle n before c after, same_number n c d same);
    unused = λ n h.
        omega (arith, v.unused n h, leased_count_middle n before c after, same_number n c d same);
  }
  releases-Inv now false v = record {
    places = omega (arith, v.places, length_middle before c after);
    bounded = omega (arith, v.bounded);
    unshared = λ n. omega (arith, v.unshared n, leased_count_middle n before c after);
    unused = λ n h. omega (arith, v.unused n h, leased_count_middle n before c after);
  }

closes-Inv : (w : World) → Inv w → Inv (record w { pool = (close_all w.pool).0 })
unfolding close_all idle_count
closes-Inv w v = record {
  places = v.places;
  bounded = omega (arith, v.bounded);
  unshared = λ n. omega (arith, v.unshared n);
  unused = λ n h. omega (arith, v.unused n h);
}

pub Step-Inv : {w u : World} → Step w u → Inv w → Inv u
Step-Inv {w} (takes now free) v = takes-Inv w now free v
Step-Inv {w} (finishes socket_timeout connect before after popped e) v =
    finishes-Inv w before after socket_timeout popped.expired popped.rest popped.reuse connect
      (subst (λ l. Inv (record w { reserved = l })) e v)
Step-Inv {w} (releases now healthy before after c d e same) v =
    releases-Inv w before after c d same now healthy
      (subst (λ l. Inv (record w { leased = l })) e v)
Step-Inv {w} closes v = closes-Inv w v

-- Whatever the threads do and the sockets answer, from a new pool on: every place in use belongs to one
-- thread, so none is lost when a connect fails; at most five connections are idle or in use; and no
-- connection has two owners, be they threads or the idle list.
pub Reach-Inv : (host : String) (port : ℕ) {w : World} → Reach (start host port) w → Inv w
Reach-Inv host port here = start-Inv host port
Reach-Inv host port (next r st) = Step-Inv st (Reach-Inv host port r)

leased_count-append :
    (n : ℕ) (xs ys : List Client)
    → leased_count n (xs ++ ys) ≡ leased_count n xs + leased_count n ys
unfolding leased_count
leased_count-append n [] ys = omega arith
leased_count-append n (x ∷ xs) ys = omega (arith, leased_count-append n xs ys)

two_leased :
    (xs ys zs : List Client) (c d : Client)
    → c.number ≡ d.number
    → 2 ≤ leased_count c.number (xs ++ c ∷ (ys ++ d ∷ zs))
unfolding leased_count
two_leased xs ys zs c d same = ground (
  arith,
  leased_count-append c.number xs (c ∷ (ys ++ d ∷ zs)),
  leased_count-append c.number ys (d ∷ zs),
)

-- In any state that the threads can reach from a new pool, two clients that are lent at the same
-- time are different connections.
pub leased_distinct :
    (host : String) (port : ℕ) {w : World} (xs ys zs : List Client) (c d : Client)
    → Reach (start host port) w
    → w.leased ≡ xs ++ c ∷ (ys ++ d ∷ zs)
    → c.number ≢ d.number
leased_distinct host port xs ys zs c d r e same = absurd (
    omega (
      arith,
      (Reach-Inv host port r).unshared c.number,
      ap (leased_count c.number) e,
      two_leased xs ys zs c d same,
    ))
