-- ===== src/Audit/Params.antt =====
-- What `_truncate_params` (src/mcp_socket_server/audit.py) keeps of the arguments of a tool.

use Prim.Native.String.{◌++◌}
use package.text.Mathlib.TextLemmas.{nil-append, cons-append}
use mcp_socket_server.Prelude.{
  ℕ, zero, suc, ◌+◌, ◌≤◌, ◌<◌, String, ◌≡◌, refl, ap, ap₂, sym, List, [], ◌∷◌, ◌∙◌, true, false,
  ltb, arith, Bool-cases, inl, inr, ltb→lt, lt→ltb,
}
use mcp_socket_server.Text.{text_length, text_take}
use mcp_socket_server.Value.{Value, Fields, end, field, text}
use mcp_socket_server.Audit.Loop.{
  Distinct, map_values, truncate_params-map_values, map_values-Distinct,
}
use mcp_socket_server.Audit.{max_len, truncated, truncate_params}

text_length-append : (s t : String) → text_length (s ++ t) ≡ text_length s + text_length t
unfolding text_length
text_length-append String.[] t = ap text_length (nil-append t) ∙ omega arith
text_length-append (String.◌∷◌ c s) t =
    ap text_length (cons-append c s t) ∙ omega (arith, text_length-append s t)

text_length-text_take : (n : ℕ) (s : String) → n ≤ text_length s → text_length (text_take n s) ≡ n
unfolding text_length text_take
text_length-text_take zero s h = refl
text_length-text_take (suc n) String.[] h = absurd (omega arith)
text_length-text_take (suc n) (String.◌∷◌ c s) h =
    omega (arith, text_length-text_take n s (omega arith))

-- Cutting once more at the same place changes nothing.
text_take_again :
    (n : ℕ) (s t : String) → n ≤ text_length s → text_take n (text_take n s ++ t) ≡ text_take n s
unfolding text_length text_take
text_take_again zero s t h = refl
text_take_again (suc n) String.[] t h = absurd (omega arith)
text_take_again (suc n) (String.◌∷◌ c s) t h =
    ap (text_take (suc n)) (cons-append c (text_take n s) t)
    ∙ ap (String.◌∷◌ c) (text_take_again n s t (omega arith))

abbrev pub keys_of : Fields → List String
keys_of end = []
keys_of (field k v fs) = k ∷ keys_of fs

abbrev pub AllValues : (Value → Type 0) → Fields → Type 0
AllValues P end = Unit
AllValues P (field k v fs) = P v × AllValues P fs

module _ (str : Value → String) where
  keys_of-map_values : (fs : Fields) → keys_of (map_values (truncated str) fs) ≡ keys_of fs
  keys_of-map_values end = refl
  keys_of-map_values (field k v fs) = ap (◌∷◌ k) (keys_of-map_values fs)

  -- What has become of a dict of parameters.
  pub record Truncated (fs gs : Fields) : Type 0 where
    pub keys : keys_of gs ≡ keys_of fs
    pub short : AllValues (λ v. text_length (str v) ≤ 203) gs
    pub again : truncate_params str gs ≡ gs

  cut_length :
      (s : String) → max_len < text_length s → text_length (text_take max_len s ++ "...") ≡ 203
  cut_length s long =
      text_length-append (text_take max_len s) "..."
      ∙ omega (arith, text_length-text_take max_len s (omega arith), dots)
    where
      dots : text_length "..." ≡ 3
      dots = unfold text_length in refl

  cut :
      (v : Value)
      → ltb max_len (text_length (str v)) ≡ true
      → truncated str v ≡ text (text_take max_len (str v) ++ "...")
  cut v long = rw long refl

  kept : (v : Value) → ltb max_len (text_length (str v)) ≡ false → truncated str v ≡ v
  kept v short = rw short refl

  -- `str` of a text is the text.
  module _ (same : (s : String) → str (text s) ≡ s) where
    truncated-bounded : (v : Value) → text_length (str (truncated str v)) ≤ 203
    truncated-bounded v = elim (Bool-cases (ltb max_len (text_length (str v)))) [
      | inl long ↦
          rw
            (
              cut v long,
              same (text_take max_len (str v) ++ "..."),
              cut_length (str v) (ltb→lt _ _ long),
            )
            (omega arith)
      | inr short ↦ rw (kept v short) (ground arith)
    ]

    truncated_again : (v : Value) → truncated str (truncated str v) ≡ truncated str v
    truncated_again v = elim (Bool-cases (ltb max_len (text_length (str v)))) [
      | inl long ↦
          let t = text_take max_len (str v) ++ "..." in
          let e = cut_length (str v) (ltb→lt _ _ long) in
          let long' : ltb max_len (text_length (str (text t))) ≡ true =
            rw (same t) (lt→ltb _ _ (omega (arith, e))) in
          ap (truncated str) (cut v long)
          ∙ cut (text t) long'
          ∙ ap (λ s. text (text_take max_len s ++ "...")) (same t)
          ∙ ap (λ s. text (s ++ "..."))
              (text_take_again max_len (str v) "..." (omega (arith, ltb→lt _ _ long)))
          ∙ sym (cut v long)
      | inr short ↦ ap (truncated str) (kept v short)
    ]

    short_values :
        (fs : Fields) → AllValues (λ v. text_length (str v) ≤ 203) (map_values (truncated str) fs)
    short_values end = tt
    short_values (field k v fs) = (truncated-bounded v, short_values fs)

    map_values_again :
        (fs : Fields)
        → map_values (truncated str) (map_values (truncated str) fs) ≡ map_values (truncated str) fs
    map_values_again end = refl
    map_values_again (field k v fs) = ap₂ (field k) (truncated_again v) (map_values_again fs)

    -- The parameters that the audit log keeps have the keys of the call, in their order; no value is
    -- longer than 203 characters as a text; and cutting them once more changes nothing. Here `str` of a
    -- text is the text, and no key stands twice.
    pub truncate_params-Truncated :
        (fs : Fields) → Distinct fs → Truncated fs (truncate_params str fs)
    truncate_params-Truncated fs distinct =
        let e = truncate_params-map_values str fs distinct in
        let distinct' = map_values-Distinct (truncated str) fs distinct in
        record {
          keys = ap keys_of e ∙ keys_of-map_values fs;
          short = rw e (short_values fs);
          again =
              ap (truncate_params str) e
              ∙ truncate_params-map_values str (map_values (truncated str) fs) distinct'
              ∙ map_values_again fs
              ∙ sym e;
        }
