-- ===== src/Pool/Sessions/Draining.antt =====
-- That the places of a shared pool come free again (src/mcp_socket_server/pool.py), once the threads that
-- hold them run on.
use mcp_socket_server.Prelude.{
  ℕ, ◌+◌, String, ◌≡◌, refl, ap, ◌∙◌, true, List, [], ◌∷◌, length, Result, arith,
}
use mcp_socket_server.Errors.{Exn}
use mcp_socket_server.Pool.{Client, Popped, finish_acquire, release}
use mcp_socket_server.Pool.Sessions.{
  World, start, lease, Step, takes, finishes, releases, closes, Reach,
}
use mcp_socket_server.Pool.Sessions.Invariant.{Inv, Step-Inv, Reach-Inv}

-- The steps of threads that have a place: one returns from `acquire`, with `connect` as the network
-- answers the client of that number, or gives its client back.
abbrev pub IsReturn : (ℕ → Result Exn (Unit {0})) → (u v : World) → Step u v → Type 0
IsReturn answer u v (takes now free) = ⊥
IsReturn answer u v (finishes socket_timeout connect before after popped e) =
    connect ≡ answer u.fresh
IsReturn answer u v (releases now healthy before after c d e same) = Unit
IsReturn answer u v closes = ⊥

pub data Returns (answer : ℕ → Result Exn (Unit {0})) : World → World → Type 0 where
  done : {w : World} → Returns answer w w
  more :
      {w u v : World}
      → (s : Step w u) → IsReturn answer w u s
      → Returns answer u v
      → Returns answer w v

module _ (answer : ℕ → Result Exn (Unit {0})) where
  -- A state with no place in use that such steps lead to.
  pub record Drains (w : World) : Type 0 where
    pub end : World
    pub steps : Returns answer w end
    pub free : end.pool.inuse ≡ 0

  first : {w u : World} (s : Step w u) → IsReturn answer w u s → Drains u → Drains w
  first s h d = record { end = d.end; steps = more s h d.steps; free = d.free }

  drain_leased : (cs : List Client) (w : World) → w.leased ≡ cs → w.reserved ≡ [] → Inv w → Drains w
  drain_leased [] w e none_reserved v = record {
    end = w;
    steps = done;
    free = v.places ∙ omega (arith, ap length e, ap length none_reserved);
  }
  drain_leased (c ∷ cs) w e none_reserved v =
      let u : World = record w { pool = release 0 c true w.pool; leased = cs } in
      let step : Step w u = releases 0 true [] cs c c e refl in
      first step tt (drain_leased cs u refl none_reserved (Step-Inv step v))

  drain : (ps : List Popped) (w : World) → w.reserved ≡ ps → Inv w → Drains w
  drain [] w e v = drain_leased w.leased w refl e v
  drain (p ∷ ps) w e v =
      let got = finish_acquire 30 w.fresh (answer w.fresh) p w.pool in
      let u : World = record w {
        pool = got.0;
        reserved = ps;
        leased = lease got.1 w.leased;
        fresh = w.fresh + 1;
      } in
      let step : Step w u = finishes 30 (answer w.fresh) [] ps p e in
      first step refl (drain ps u refl (Step-Inv step v))

  -- From every state that the threads can reach from a new pool, whatever `connect` answers from then
  -- on, the threads that hold places can run on, with no other call, until no place is in use: so none
  -- is lost, and a waiting thread finds room.
  pub Reach-Drains : (host : String) (port : ℕ) (w : World) → Reach (start host port) w → Drains w
  Reach-Drains host port w r = drain w.reserved w refl (Reach-Inv host port r)
