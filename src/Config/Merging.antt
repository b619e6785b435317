-- ===== src/Config/Merging.antt =====
-- What `_deep_merge` of src/mcp_socket_server/config.py answers for each key.
use mcp_socket_server.Prelude.{
  String, ◌≡◌, refl, sym, ap, ◌∙◌, Option, none, some, Bool-cases, inl, inr, ◌==◌, ==_iff,
  string_eq,
}
use mcp_socket_server.Value.{Value, Fields, end, field, dict, get, put, get-put}
use mcp_socket_server.Config.{deep_merge, merge_onto, merge_value}

-- The keys are distinct, as those of a dict are.
abbrev pub DistinctKeys : Fields → Type 0
DistinctKeys end = Unit
DistinctKeys (field k v fs) = (get k fs ≡ none) × DistinctKeys fs

-- The entry of a key after the merge, from those before.
abbrev pub merged : Option Value → Option Value → Option Value
merged old none = old
merged (some (dict base)) (some (dict over)) = some (dict (deep_merge base over))
merged old new = new

merge_value-merged :
    (old : Option Value) (v : Value) → some (merge_value old v) ≡ merged old (some v)
unfolding merge_value deep_merge
merge_value-merged (some (dict base)) (dict over) = refl
merge_value-merged old v = refl

get-merge_onto :
    (k : String) (over out : Fields)
    → DistinctKeys over
    → get k (merge_onto out over) ≡ merged (get k out) (get k over)
unfolding merge_onto get
get-merge_onto k end out u = refl
get-merge_onto k (field j v over) out (fresh, u) = elim (Bool-cases (k == j)) [
  | inl same ↦
      let e = (==_iff k j).0 same in
      let absent = ap (λ i. get i over) e ∙ fresh in
      rw same (
        get-merge_onto k over (put j (merge_value (get j out) v) out) u
        ∙ ap (merged (get k (put j (merge_value (get j out) v) out))) absent
        ∙ get-put k j (merge_value (get j out) v) out
        ∙ rw same
            (ap (λ i. some (merge_value (get i out) v)) (sym e) ∙ merge_value-merged (get k out) v))
  | inr other ↦ rw other (
      get-merge_onto k over (put j (merge_value (get j out) v) out) u
      ∙ ap (λ o. merged o (get k over))
          (get-put k j (merge_value (get j out) v) out ∙ rw other refl))
]

-- If the keys of `over` are distinct: a key that it lacks keeps the value of `base`; one that
-- `base` lacks gets that of `over`; where both have it, two dicts are merged in the same way, and
-- otherwise the value of `over` is taken.
pub get-deep_merge :
    (k : String) (base over : Fields)
    → DistinctKeys over
    → get k (deep_merge base over) ≡ merged (get k base) (get k over)
unfolding deep_merge
get-deep_merge k base over u = get-merge_onto k over base u
