-- ===== src/Audit/Loop.antt =====
-- The loop of `_truncate_params` (src/mcp_socket_server/audit.py) as a map over the values of a dict.
use mcp_socket_server.Prelude.{String, ◌≡◌, refl, ap, sym, ◌∙◌, none, string_eq, arith}
use mcp_socket_server.Value.{Value, Fields, end, field, get, put, get-put}
use mcp_socket_server.Audit.{truncated, truncate_from, truncate_params}

-- No key stands twice, as in every dict.
abbrev pub Distinct : Fields → Type 0
Distinct end = Unit
Distinct (field k v fs) = (get k fs ≡ none) × Distinct fs

abbrev pub map_values : (Value → Value) → Fields → Fields
map_values f end = end
map_values f (field k v fs) = field k (f v) (map_values f fs)

abbrev join : Fields → Fields → Fields
join end gs = gs
join (field k v fs) gs = field k v (join fs gs)

get-join : (j : String) (fs gs : Fields) → get j fs ≡ none → get j (join fs gs) ≡ get j gs
unfolding get
get-join j end gs h = refl
get-join j (field k v fs) gs h = ground (arith, get-join j fs gs)

put_fresh :
    (k : String) (v : Value) (fs : Fields) → get k fs ≡ none → put k v fs ≡ join fs (field k v end)
unfolding get put
put_fresh k v end h = refl
put_fresh k v (field j w fs) h = ground (arith, put_fresh k v fs)

join_assoc : (fs gs hs : Fields) → join (join fs gs) hs ≡ join fs (join gs hs)
join_assoc end gs hs = refl
join_assoc (field k v fs) gs hs = ap (field k v) (join_assoc fs gs hs)

join-end : (fs : Fields) → join fs end ≡ fs
join-end end = refl
join-end (field k v fs) = ap (field k v) (join-end fs)

-- None of the keys of the second dict is in the first.
abbrev Apart : Fields → Fields → Type 0
Apart result end = Unit
Apart result (field k v fs) = (get k result ≡ none) × Apart result fs

put-Apart :
    (k : String) (v : Value) (result fs : Fields)
    → get k fs ≡ none
    → Apart result fs
    → Apart (put k v result) fs
unfolding get
put-Apart k v result end h apart = tt
put-Apart k v result (field j w fs) h (first, rest) =
    (ground (arith, get-put j k v result), put-Apart k v result fs (ground arith) rest)

end-Apart : (fs : Fields) → Apart end fs
unfolding get
end-Apart end = tt
end-Apart (field k v fs) = (refl, end-Apart fs)

module _ (str : Value → String) where
  truncate_from-join :
      (result fs : Fields)
      → Distinct fs
      → Apart result fs
      → truncate_from str result fs ≡ join result (map_values (truncated str) fs)
  unfolding truncate_from
  truncate_from-join result end distinct apart = sym (join-end result)
  truncate_from-join result (field k v fs) (fresh, distinct) (first, apart) =
      truncate_from-join (put k (truncated str v) result) fs distinct
        (put-Apart k (truncated str v) result fs fresh apart)
      ∙ ap (λ r. join r (map_values (truncated str) fs))
          (put_fresh k (truncated str v) result first)
      ∙ join_assoc result (field k (truncated str v) end) (map_values (truncated str) fs)

  -- The keys stay, in their order.
  pub truncate_params-map_values :
      (fs : Fields) → Distinct fs → truncate_params str fs ≡ map_values (truncated str) fs
  unfolding truncate_params
  truncate_params-map_values fs distinct = truncate_from-join end fs distinct (end-Apart fs)

pub map_values-Distinct :
    (f : Value → Value) (fs : Fields) → Distinct fs → Distinct (map_values f fs)
unfolding get
map_values-Distinct f end distinct = tt
map_values-Distinct f (field k v fs) (fresh, distinct) =
    (absent fs fresh, map_values-Distinct f fs distinct)
  where
    absent : (gs : Fields) → get k gs ≡ none → get k (map_values f gs) ≡ none
    absent end h = refl
    absent (field j w gs) h = ground (arith, absent gs)
