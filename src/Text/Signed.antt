-- ===== src/Text/Signed.antt =====
-- `int(s)` of a text (src/mcp_socket_server/server.py and config.py): blanks around it, a sign, and
-- underscores between digits. Python's bound on the number of digits is left out.

use mcp_socket_server.Prelude.{
  ℕ, zero, suc, String, Bool, true, false, Option, none, some, List, [], ◌∷◌, if◌then◌else◌, ltb,
  eqb, all,
}
use mcp_socket_server.Text.{
  is_char, is_blank, is_digits, digits_value, strip, starts_with_char, drop_first, before_part,
}

pub data ℤ : Type 0 where
  pos : ℕ → ℤ
  -- -(n + 1)
  negsuc : ℕ → ℤ

-- -n
abbrev pub neg : ℕ → ℤ
neg zero = pos 0
neg (suc n) = negsuc n

-- a < b and a == b
abbrev pub ltz : ℤ → ℤ → Bool
ltz (pos a) (pos b) = ltb a b
ltz (pos a) (negsuc b) = false
ltz (negsuc a) (pos b) = true
ltz (negsuc a) (negsuc b) = ltb b a

abbrev pub eqz : ℤ → ℤ → Bool
eqz (pos a) (pos b) = eqb a b
eqz (negsuc a) (negsuc b) = eqb a b
eqz _ _ = false

-- The runs of characters between underscores, at least one, and the text without the underscores.
unfoldable pub split_underscores : String → List String
unfolding is_char
split_underscores String.[] = String.[] ∷ []
split_underscores (String.◌∷◌ c s) =
    let parts = split_underscores s in
    if is_char b'_' c then String.[] ∷ parts else before_part c parts

unfoldable pub drop_underscores : String → String
unfolding is_char
drop_underscores String.[] = String.[]
drop_underscores (String.◌∷◌ c s) =
    let rest = drop_underscores s in if is_char b'_' c then rest else String.◌∷◌ c rest

-- A text of digits with single underscores between them, under a sign.
unfoldable pub signed : (ℕ → ℤ) → String → Option ℤ
unfolding split_underscores drop_underscores is_digits digits_value
signed sign s =
    if all is_digits (split_underscores s)
    then some (sign (digits_value (drop_underscores s)))
    else none

abbrev pub number_of_stripped : String → Option ℤ
number_of_stripped s =
    if starts_with_char b'-' s
    then signed neg (drop_first s)
    else if starts_with_char b'+' s
    then signed pos (drop_first s)
    else signed pos s

unfoldable pub number_of : String → Option ℤ
unfolding strip is_blank signed starts_with_char drop_first
number_of s = number_of_stripped (strip is_blank s)
