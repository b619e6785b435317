-- ===== src/Value.antt =====
-- The Python objects that travel as JSON, in arguments, replies and results. A float is not told apart
-- from other objects: the code under src/mcp_socket_server computes with none.
use mcp_socket_server.Prelude.{
  ℕ, zero, suc, ◌≡◌, refl, String, Bool, true, false, not, Option, none, some, List, ◌==◌,
  string_eq, if◌then◌else◌, eqb, is_nonempty, arith,
}
use mcp_socket_server.Text.{is_empty}

mutual
  pub data Value : Type 0 where
    null : Value
    bool : Bool → Value
    num : ℕ → Value
    -- -(n + 1)
    negative : ℕ → Value
    text : String → Value
    bytes : List ℕ → Value
    list : Items → Value
    dict : Fields → Value
    other : ℕ → Value

  pub data Items : Type 0 where
    nil : Items
    cons : Value → Items → Items

  -- A dict with texts as keys, in insertion order.
  pub data Fields : Type 0 where
    end : Fields
    field : String → Value → Fields → Fields

-- d.get(k)
unfoldable pub get : String → Fields → Option Value
get k end = none
get k (field j v fs) = if k == j then some v else get k fs

-- d[k] = v
unfoldable pub put : String → Value → Fields → Fields
put k v end = field k v end
put k v (field j w fs) = if k == j then field j v fs else field j w (put k v fs)

-- k in d
unfoldable pub has : String → Fields → Bool
unfolding get
has k fs = elim (get k fs) [ none ↦ false | some _ ↦ true ]

-- {**d, **e}
unfoldable pub merge : Fields → Fields → Fields
unfolding put
merge d end = d
merge d (field k v e) = merge (put k v d) e

unfoldable pub items_length : Items → ℕ
items_length nil = 0
items_length (cons v vs) = suc (items_length vs)

unfoldable pub items_take : ℕ → Items → Items
items_take zero vs = nil
items_take (suc n) nil = nil
items_take (suc n) (cons v vs) = cons v (items_take n vs)

-- bool(v)
unfoldable pub truthy : Value → Bool
truthy null = false
truthy (bool b) = b
truthy (num n) = not (eqb n 0)
truthy (negative n) = true
truthy (text s) = not (is_empty s)
truthy (bytes bs) = is_nonempty bs
truthy (list nil) = false
truthy (list (cons _ _)) = true
truthy (dict end) = false
truthy (dict (field _ _ _)) = true
truthy (other n) = true

-- d.get(k, default), and its truth where the code tests `d.get(k)`
abbrev pub get_or : String → Value → Fields → Value
get_or k d fs = elim (get k fs) [ none ↦ d | some v ↦ v ]

unfoldable pub is_set : String → Fields → Bool
unfolding get truthy
is_set k fs = truthy (get_or k null fs)

-- d.get(k) is False
abbrev pub is_false : Value → Bool
is_false (bool false) = true
is_false _ = false

pub get-put :
    (j k : String) (v : Value) (fs : Fields)
    → get j (put k v fs) ≡ (if j == k then some v else get j fs)
unfolding get put
get-put j k v end = refl
get-put j k v (field i w fs) = ground (arith, get-put j k v fs)
