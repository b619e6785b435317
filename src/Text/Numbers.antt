-- ===== src/Text/Numbers.antt =====
-- Numbers written in decimal digits and read back (`str` and `int`).

use Prim.Native.String.{String, ◌++◌}
use text.Mathlib.TextLemmas.{nil-append, cons-append}
use mcp_socket_server.Prelude.{
  ltb→lt, ℕ, zero, suc, ◌+◌, ◌*◌, ◌/◌, ◌%◌, ◌<◌, ◌≤◌, ◌≡◌, ap, ◌∙◌, arith, false, ltb, Bool-cases,
  inl, inr,
}
use mcp_socket_server.Text.{decimal, decimal_loop, digit_text, digits_from, digits_value}

digits_from-append :
    (s t : String) (n : ℕ) → digits_from n (s ++ t) ≡ digits_from (digits_from n s) t
digits_from-append String.[] t n = ap (digits_from n) (nil-append t)
digits_from-append (String.◌∷◌ c s) t n =
    ap (digits_from n) (cons-append c s t) ∙ digits_from-append s t _

digits_from-digit_text : (n d : ℕ) → d < 10 → digits_from n (digit_text d) ≡ 10 * n + d
digits_from-digit_text n zero h = omega arith
digits_from-digit_text n (suc zero) h = omega arith
digits_from-digit_text n (suc (suc zero)) h = omega arith
digits_from-digit_text n (suc (suc (suc zero))) h = omega arith
digits_from-digit_text n (suc (suc (suc (suc zero)))) h = omega arith
digits_from-digit_text n (suc (suc (suc (suc (suc zero))))) h = omega arith
digits_from-digit_text n (suc (suc (suc (suc (suc (suc zero)))))) h = omega arith
digits_from-digit_text n (suc (suc (suc (suc (suc (suc (suc zero))))))) h = omega arith
digits_from-digit_text n (suc (suc (suc (suc (suc (suc (suc (suc zero)))))))) h = omega arith
digits_from-digit_text n (suc (suc (suc (suc (suc (suc (suc (suc (suc zero))))))))) h = omega arith
digits_from-digit_text n (suc (suc (suc (suc (suc (suc (suc (suc (suc (suc d)))))))))) h =
    absurd (omega arith)

ten-le : {n : ℕ} → ltb n 10 ≡ false → 10 ≤ n
ten-le h = ground arith

pub shorter : (n fuel : ℕ) → ltb n 10 ≡ false → n < suc fuel → n / 10 < fuel
shorter n fuel large h = omega (arith, ten-le large)

decimal_loop-value : (fuel n : ℕ) → n < fuel → digits_from 0 (decimal_loop fuel n) ≡ n
decimal_loop-value zero n h = absurd (omega arith)
decimal_loop-value (suc fuel) n h =
    let digit = digits_from-digit_text in
    elim (Bool-cases (ltb n 10)) [
      | inl small ↦ rw small (omega (arith, digit 0 (n % 10) (omega arith), ltb→lt n 10 small))
      | inr large ↦ rw large (
          digits_from-append (decimal_loop fuel (n / 10)) (digit_text (n % 10)) 0
          ∙ ap (λ k. digits_from k (digit_text (n % 10)))
              (decimal_loop-value fuel (n / 10) (shorter n fuel large h))
          ∙ digit (n / 10) (n % 10) (omega arith)
          ∙ omega arith)
    ]

-- A number that is written is read back: the fuel of `decimal` is enough.
pub digits_value-decimal : (n : ℕ) → digits_value (decimal n) ≡ n
unfolding digits_value decimal
digits_value-decimal n = decimal_loop-value (n + 1) n (omega arith)
