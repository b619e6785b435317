-- ===== src/Tests/Pools.antt =====
-- Tests of the connection pool (src/mcp_socket_server/pool.py).
use mcp_socket_server.Prelude.{ℕ, true, ◌≡◌, ◌≢◌, refl, arith, none, [], ◌∷◌, ◌++◌, ok, err}
use mcp_socket_server.Value.{bool}
use mcp_socket_server.Wire.{Bytes, Sock}
use mcp_socket_server.Agent.{send}
use mcp_socket_server.Errors.{other_error, os_error}
use mcp_socket_server.Pool.{
  Client, TargetPool, Popped, new_pool, take_place, finish_acquire, pop_idle,
}
use mcp_socket_server.Pool.Waiting.{Turn, Explained, await, await-Explained, await_ends, waits}
use mcp_socket_server.Pool.Sessions.{World, start, takes, finishes, Reach, here, next}
use mcp_socket_server.Pool.Sessions.Invariant.{Inv, Reach-Inv, leased_distinct}
use mcp_socket_server.Pool.Sessions.Draining.{Drains, Reach-Drains}
use mcp_socket_server.Pool.Scheduler.{acquire, run_one}
use mcp_socket_server.Pool.Scheduler.Reuse.{acquire-run_one, closed_reused}
use mcp_socket_server.Tests.Fixtures.{host_a, client_a, visit_a, closing}

abbrev full_turn : Turn
full_turn = record { pool = record (new_pool host_a 9000) { inuse = 5 }; now = 3 }

abbrev late_turn : Turn
late_turn = record full_turn { now = 10 }

await-Explained_run :
    Explained 10 (full_turn ∷ late_turn ∷ []) (await 10 (full_turn ∷ late_turn ∷ []))
await-Explained_run = await-Explained 10 (full_turn ∷ late_turn ∷ [])

await_ends_example : await 10 ((full_turn ∷ []) ++ late_turn ∷ []) ≢ waits
await_ends_example = await_ends 10 (full_turn ∷ []) [] late_turn (omega arith)

abbrev one_place : World
one_place = record {
  pool = (take_place 0 (new_pool host_a 9000)).1;
  reserved = (take_place 0 (new_pool host_a 9000)).0 ∷ [];
  leased = [];
  fresh = 0;
}

one_place-Reach : Reach (start host_a 9000) one_place
unfolding new_pool
one_place-Reach = next here (takes 0 (omega arith))

Reach-Inv_example : Inv one_place
Reach-Inv_example = Reach-Inv host_a 9000 one_place-Reach

abbrev client_b : Client
client_b = record client_a { number = 1 }

-- Two threads have taken places and opened connections.
abbrev both_lent : World
both_lent = record {
  pool = record (new_pool host_a 9000) { inuse = 2 };
  reserved = [];
  leased = client_b ∷ client_a ∷ [];
  fresh = 2;
}

abbrev nothing_idle : Popped
nothing_idle = record { expired = []; reuse = none; rest = [] }

both_lent-Reach : Reach (start host_a 9000) both_lent
unfolding new_pool take_place pop_idle finish_acquire
both_lent-Reach =
    next
      (next (next (next here (takes 0 (omega arith))) (takes 1 (omega arith)))
        (finishes 30 (ok tt) [] (nothing_idle ∷ []) nothing_idle refl))
      (finishes 30 (ok tt) [] [] nothing_idle refl)

leased_distinct_run : client_b.number ≢ client_a.number
leased_distinct_run = leased_distinct host_a 9000 [] [] [] client_b client_a both_lent-Reach refl

-- The pool when the new client is lent.
abbrev lent_pool : TargetPool
lent_pool = record (new_pool host_a 9000) { inuse = 1 }

lends_visit : acquire 30 visit_a (new_pool host_a 9000) ≡ (lent_pool, ok client_a)
unfolding acquire new_pool take_place pop_idle finish_acquire
lends_visit = refl

lends_closing : acquire 30 closing (new_pool host_a 9000) ≡ (lent_pool, ok client_a)
unfolding acquire new_pool take_place pop_idle finish_acquire
lends_closing = refl

acquire-run_one_example :
    (acquire 15 visit_a (run_one 30 visit_a (new_pool host_a 9000)).0).1
    ≡ ok (record client_a { timeout = 15 })
acquire-run_one_example =
    acquire-run_one 30 15 visit_a visit_a (new_pool host_a 9000) lent_pool client_a client_a
      (bool true) lends_visit refl (omega arith)

closed_reused_example :
    (d : Client) × ((acquire 15 visit_a (run_one 30 closing (new_pool host_a 9000)).0).1 ≡ ok d)
    × ((datatype : ℕ) (payload : Bytes) (s : Sock)
        → send d datatype payload s ≡ (err (other_error "AssertionError"), s))
closed_reused_example =
    closed_reused 30 15 closing visit_a (new_pool host_a 9000) lent_pool client_a (bool true)
      lends_closing refl (omega arith)

Reach-Drains_example : Drains (λ n. err (os_error "refused")) both_lent
Reach-Drains_example =
    Reach-Drains (λ n. err (os_error "refused")) host_a 9000 both_lent both_lent-Reach
