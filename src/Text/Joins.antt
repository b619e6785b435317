-- ===== src/Text/Joins.antt =====
-- Texts that are joined at a character, and taken apart there again.
use Prim.Native.Char.{Char}
use Prim.Native.String.{String, ◌++◌}
use text.Mathlib.TextLemmas.{nil-append, cons-append}
use mcp_socket_server.Prelude.{
  and_both, or_true, or_first, or_false_both, ℕ, zero, suc, ◌+◌, ◌/◌, ◌%◌, ◌<◌, ◌≡◌, refl, ap, ◌∙◌,
  Bool, true, false, ◌||◌, ◌&&◌, ltb, arith, Bool-cases, inl, inr,
}
use mcp_socket_server.Text.Numbers.{shorter}
use mcp_socket_server.Text.{
  is_char, has_char, before_last, after_last, count_char, is_digits, all_digits, is_digit, decimal,
  decimal_loop, digit_text,
}

pub has_char-append : (n : ℕ) (s t : String) → has_char n (s ++ t) ≡ (has_char n s || has_char n t)
unfolding has_char
has_char-append n String.[] t = ap (has_char n) (nil-append t)
has_char-append n (String.◌∷◌ c s) t =
    ap (has_char n) (cons-append c s t)
    ∙ ap (◌||◌ (is_char n c)) (has_char-append n s t)
    ∙ or_assoc (is_char n c) (has_char n s) (has_char n t)
  where
    or_assoc : (a b c : Bool) → (a || (b || c)) ≡ ((a || b) || c)
    or_assoc true b c = refl
    or_assoc false b c = refl

pub count_char-append :
    (n : ℕ) (s t : String) → count_char n (s ++ t) ≡ count_char n s + count_char n t
unfolding count_char
count_char-append n String.[] t = ap (count_char n) (nil-append t) ∙ omega arith
count_char-append n (String.◌∷◌ c s) t =
    ap (count_char n) (cons-append c s t) ∙ omega (arith, count_char-append n s t)

pub count_char_none : (n : ℕ) (s : String) → has_char n s ≡ false → count_char n s ≡ 0
unfolding count_char has_char
count_char_none n String.[] h = refl
count_char_none n (String.◌∷◌ c s) h =
    let (first, rest) = or_false_both (is_char n c) (has_char n s) h in
    rw first (omega (arith, count_char_none n s rest))

pub count_char_some : (n : ℕ) (s : String) → has_char n s ≡ true → 0 < count_char n s
unfolding count_char has_char
count_char_some n String.[] h = cc
count_char_some n (String.◌∷◌ c s) h = ground (arith, count_char_some n s)

module _ (n : ℕ) (c : Char) (same : is_char n c ≡ true) where
  has_char_here : (s t : String) → has_char n (s ++ String.◌∷◌ c t) ≡ true
  unfolding has_char
  has_char_here s t =
      has_char-append n s (String.◌∷◌ c t)
      ∙ ap (◌||◌ (has_char n s)) (or_first _ (has_char n t) same)
      ∙ or_true (has_char n s)

  pub before_last-join :
      (s t : String) → has_char n t ≡ false → before_last n (s ++ String.◌∷◌ c t) ≡ s
  unfolding before_last
  before_last-join String.[] t h = ap (before_last n) (nil-append (String.◌∷◌ c t)) ∙ rw h refl
  before_last-join (String.◌∷◌ d s) t h =
      ap (before_last n) (cons-append d s (String.◌∷◌ c t))
      ∙ rw (has_char_here s t) (ap (String.◌∷◌ d) (before_last-join s t h))

  pub after_last-join :
      (s t : String) → has_char n t ≡ false → after_last n (s ++ String.◌∷◌ c t) ≡ t
  unfolding after_last
  after_last-join String.[] t h =
      ap (after_last n) (nil-append (String.◌∷◌ c t)) ∙ rw h (rw same refl)
  after_last-join (String.◌∷◌ d s) t h =
      ap (after_last n) (cons-append d s (String.◌∷◌ c t))
      ∙ rw (has_char_here s t) (after_last-join s t h)

-- The digits of a number.
digits-append : (s t : String) → all_digits (s ++ t) ≡ (all_digits s && all_digits t)
unfolding all_digits
digits-append String.[] t = ap all_digits (nil-append t)
digits-append (String.◌∷◌ c s) t =
    ap all_digits (cons-append c s t)
    ∙ ap (◌&&◌ (is_digit c)) (digits-append s t)
    ∙ and_assoc (is_digit c) (all_digits s) (all_digits t)
  where
    and_assoc : (a b c : Bool) → (a && (b && c)) ≡ ((a && b) && c)
    and_assoc true b c = refl
    and_assoc false b c = refl

digit_text-digits : (d : ℕ) → d < 10 → is_digits (digit_text d) ≡ true
unfolding is_digits
digit_text-digits zero h = refl
digit_text-digits (suc zero) h = refl
digit_text-digits (suc (suc zero)) h = refl
digit_text-digits (suc (suc (suc zero))) h = refl
digit_text-digits (suc (suc (suc (suc zero)))) h = refl
digit_text-digits (suc (suc (suc (suc (suc zero))))) h = refl
digit_text-digits (suc (suc (suc (suc (suc (suc zero)))))) h = refl
digit_text-digits (suc (suc (suc (suc (suc (suc (suc zero))))))) h = refl
digit_text-digits (suc (suc (suc (suc (suc (suc (suc (suc zero)))))))) h = refl
digit_text-digits (suc (suc (suc (suc (suc (suc (suc (suc (suc zero))))))))) h = refl
digit_text-digits (suc (suc (suc (suc (suc (suc (suc (suc (suc (suc d)))))))))) h =
    absurd (omega arith)

pub is_digits-all : (s : String) → is_digits s ≡ true → all_digits s ≡ true
unfolding is_digits all_digits
is_digits-all String.[] h = refl
is_digits-all (String.◌∷◌ c s) h = h

is_digits-append :
    (s t : String) → all_digits s ≡ true → is_digits t ≡ true → is_digits (s ++ t) ≡ true
unfolding is_digits all_digits
is_digits-append String.[] t h k = ap is_digits (nil-append t) ∙ k
is_digits-append (String.◌∷◌ c s) t h k =
    let (first, rest) = and_both (is_digit c) (all_digits s) h in
    ap is_digits (cons-append c s t) ∙ rw (first, digits-append s t, rest) (is_digits-all t k)

decimal_loop-digits : (fuel n : ℕ) → n < fuel → is_digits (decimal_loop fuel n) ≡ true
decimal_loop-digits zero n h = absurd (omega arith)
decimal_loop-digits (suc fuel) n h = elim (Bool-cases (ltb n 10)) [
  | inl small ↦ rw small (digit_text-digits (n % 10) (omega arith))
  | inr large ↦ rw large (
      is_digits-append (decimal_loop fuel (n / 10)) (digit_text (n % 10))
        (is_digits-all _ (decimal_loop-digits fuel (n / 10) (shorter n fuel large h)))
        (digit_text-digits (n % 10) (omega arith)))
]

-- The decimal text of a number has digits alone, at least one.
pub is_digits-decimal : (n : ℕ) → is_digits (decimal n) ≡ true
unfolding decimal
is_digits-decimal n = decimal_loop-digits (n + 1) n (omega arith)
