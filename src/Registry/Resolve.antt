-- ===== src/Registry/Resolve.antt =====
-- What `Registry.resolve` (src/mcp_socket_server/registry.py) answers, told without its tag map.
use mathlib.Core.List.{append_assoc, append-nil}
use Prim.Native.String.{String}
use mcp_socket_server.Prelude.{
  ◌≡◌, refl, sym, ap, ◌∙◌, false, List, [], ◌∷◌, ◌++◌, ◌==◌, string_eq, if◌then◌else◌, lookup,
  lookup-insert, lookup-nil, Dict, arith, All, All-append, ap₂, ◌&&◌, Option-cases, Bool-cases, inl,
  inr,
}
use mcp_socket_server.Text.{
  colon, at_sign, has_char, starts_with_char, drop_first, after_char, before_char, is_digits,
}
use mcp_socket_server.Text.Colons.{has_char-before_char, starts_with_char-before_char}
use mcp_socket_server.Registry.{
  Row, Registry, hosts_of, append_host, append_tags, build_tag_map, resolve_item, resolve_items,
  resolve,
}

-- The host, once for each time that the tag stands in the list.
pub host_if : String → List String → String → List String
host_if tag [] host = []
host_if tag (t ∷ tags) host = (if tag == t then host ∷ [] else []) ++ host_if tag tags host

-- The hosts of the rows that carry the tag, in the order of the rows.
pub tagged : String → List Row → List String
unfolding host_if
tagged tag [] = []
tagged tag (row ∷ rows) = host_if tag row.tags row.host ++ tagged tag rows

hosts_of-append_host :
    (tag t host : String) (m : Dict String (List String))
    → hosts_of tag (append_host t host m) ≡ hosts_of tag m ++ (if tag == t then host ∷ [] else [])
unfolding append_host
hosts_of-append_host tag t host m = elim (Option-cases (lookup t m)) [
  | inl e ↦
      rw (e, append_host)
        (ground (arith, lookup-insert tag t (host ∷ []) m, append-nil (hosts_of tag m)))
  | inr (hosts, e) ↦
      rw (e, append_host)
        (ground (arith, lookup-insert tag t (hosts ++ host ∷ []) m, append-nil (hosts_of tag m)))
]

hosts_of-append_tags :
    (tag : String) (tags : List String) (host : String) (m : Dict String (List String))
    → hosts_of tag (append_tags tags host m) ≡ hosts_of tag m ++ host_if tag tags host
unfolding append_tags host_if
hosts_of-append_tags tag [] host m = sym (append-nil (hosts_of tag m))
hosts_of-append_tags tag (t ∷ tags) host m =
    hosts_of-append_tags tag tags host (append_host t host m)
    ∙ rw (hosts_of-append_host tag t host m) (append_assoc (hosts_of tag m) _ _)

hosts_of-build_tag_map :
    (tag : String) (rows : List Row) (m : Dict String (List String))
    → hosts_of tag (build_tag_map rows m) ≡ hosts_of tag m ++ tagged tag rows
unfolding build_tag_map tagged
hosts_of-build_tag_map tag [] m = sym (append-nil (hosts_of tag m))
hosts_of-build_tag_map tag (row ∷ rows) m =
    hosts_of-build_tag_map tag rows (append_tags row.tags row.host m)
    ∙ rw (hosts_of-append_tags tag row.tags row.host m) (append_assoc (hosts_of tag m) _ _)

-- What an item of `targets` stands for: a tag for the hosts of its rows, `host:digits` for the host,
-- and anything else for itself.
pub denotes : List Row → String → List String
denotes rows item =
    if starts_with_char at_sign item
    then tagged (drop_first item) rows
    else if has_char colon item && is_digits (after_char colon item)
    then before_char colon item ∷ []
    else item ∷ []

pub denote_all : List Row → List String → List String
denote_all rows [] = []
denote_all rows (item ∷ items) = denotes rows item ++ denote_all rows items

resolve_item-denotes :
    (rows : List Row) (item : String)
    → resolve_item (build_tag_map rows []) item ≡ denotes rows item
unfolding resolve_item denotes
resolve_item-denotes rows item = ground (
  arith,
  hosts_of-build_tag_map (drop_first item) rows [],
  lookup-nil {V = List String} (drop_first item),
)

-- `resolve` replaces each item by what it stands for, in order, with no host dropped or added.
pub resolve-denotes :
    (targets : List String) (r : Registry) → resolve targets r ≡ denote_all r.rows targets
unfolding resolve resolve_items denote_all
resolve-denotes [] r = refl
resolve-denotes (item ∷ items) r =
    ap₂ ◌++◌ (resolve_item-denotes r.rows item) (resolve-denotes items r)

-- A host that `resolve` would leave as it is.
pub record IsPlain (host : String) : Type 0 where
  pub no_tag : starts_with_char at_sign host ≡ false
  pub no_port : (has_char colon host && is_digits (after_char colon host)) ≡ false

before_char-IsPlain :
    (item : String) → starts_with_char at_sign item ≡ false → IsPlain (before_char colon item)
before_char-IsPlain item h = record {
  no_tag = starts_with_char-before_char colon at_sign item h;
  no_port = rw (has_char-before_char colon item) refl;
}

host_if-IsPlain :
    (tag : String) (tags : List String) (host : String)
    → IsPlain host
    → All IsPlain (host_if tag tags host)
unfolding host_if
host_if-IsPlain tag [] host h = tt
host_if-IsPlain tag (t ∷ tags) host h = elim (Bool-cases (tag == t)) [
  | inl e ↦ rw e (h, host_if-IsPlain tag tags host h)
  | inr e ↦ rw e (host_if-IsPlain tag tags host h)
]

tagged-IsPlain :
    (tag : String) (rows : List Row)
    → All (λ row. IsPlain row.host) rows
    → All IsPlain (tagged tag rows)
unfolding tagged
tagged-IsPlain tag [] h = tt
tagged-IsPlain tag (row ∷ rows) h =
    All-append IsPlain (host_if tag row.tags row.host) (tagged tag rows)
      (host_if-IsPlain tag row.tags row.host h.0) (tagged-IsPlain tag rows h.1)

denotes-IsPlain :
    (rows : List Row) (item : String)
    → All (λ row. IsPlain row.host) rows
    → All IsPlain (denotes rows item)
unfolding denotes
denotes-IsPlain rows item h = elim (Bool-cases (starts_with_char at_sign item)) [
  | inl tag ↦ rw tag (tagged-IsPlain (drop_first item) rows h)
  | inr bare ↦ elim (Bool-cases (has_char colon item && is_digits (after_char colon item))) [
    | inl port ↦ rw (bare, port) (before_char-IsPlain item bare, tt)
    | inr plain ↦ rw (bare, plain) (record { no_tag = bare; no_port = plain }, tt)
  ]
]

denote_all-IsPlain :
    (rows : List Row) (items : List String)
    → All (λ row. IsPlain row.host) rows
    → All IsPlain (denote_all rows items)
unfolding denote_all
denote_all-IsPlain rows [] h = tt
denote_all-IsPlain rows (item ∷ items) h =
    All-append IsPlain (denotes rows item) (denote_all rows items) (denotes-IsPlain rows item h)
      (denote_all-IsPlain rows items h)

denote_all_plain :
    (rows : List Row) (hosts : List String) → All IsPlain hosts → denote_all rows hosts ≡ hosts
unfolding denote_all denotes
denote_all_plain rows [] h = refl
denote_all_plain rows (host ∷ hosts) h =
    rw (h.0.no_tag, h.0.no_port) (ap (◌∷◌ host) (denote_all_plain rows hosts h.1))

-- The tools resolve their targets, and `_run_batch` resolves the result once more. If no registered
-- host starts with an at sign or has digits alone after its first colon, the second time changes
-- nothing.
pub resolve_idem :
    (targets : List String) (r : Registry)
    → All (λ row. IsPlain row.host) r.rows
    → resolve (resolve targets r) r ≡ resolve targets r
resolve_idem targets r h =
    rw (resolve-denotes targets r, resolve-denotes (denote_all r.rows targets) r)
      (denote_all_plain r.rows _ (denote_all-IsPlain r.rows targets h))
