-- ===== src/Text.antt =====
-- The methods of `str` that the code calls, on native texts. Character classes are those of ASCII.
pub mod Colons
pub mod Numbers
pub mod Joins
pub mod Blanks
pub mod Signed
use Prim.Native.Char.{Char, code}
use Prim.Native.String
use Prim.Native.String.{String, ◌++◌, slice}
use text.Mathlib.Text
use mcp_socket_server.Prelude.{
  ℕ, zero, suc, ◌+◌, ◌*◌, ◌/◌, ◌%◌, Bool, true, false, ◌&&◌, ◌||◌, not, Option, none, some, List,
  [], ◌∷◌, if◌then◌else◌, leb, ltb, eqb, ◌-◌,
}

unfoldable pub is_char : ℕ → Char → Bool
is_char n c = eqb (code c) n

abbrev pub colon : ℕ
colon = b':'

abbrev pub at_sign : ℕ
at_sign = b'@'

-- c in s
unfoldable pub has_char : ℕ → String → Bool
unfolding is_char
has_char n String.[] = false
has_char n (String.◌∷◌ c s) = is_char n c || has_char n s

-- s.startswith(c), and the rest, s[1:]
unfoldable pub starts_with_char : ℕ → String → Bool
unfolding is_char
starts_with_char n String.[] = false
starts_with_char n (String.◌∷◌ c s) = is_char n c

unfoldable pub drop_first : String → String
drop_first String.[] = String.[]
drop_first (String.◌∷◌ c s) = s

-- s[s.index(c)+1:]
unfoldable pub after_char : ℕ → String → String
unfolding is_char
after_char n String.[] = String.[]
after_char n (String.◌∷◌ c s) = if is_char n c then s else after_char n s

-- s.split(c, 1)[0]
unfoldable pub before_char : ℕ → String → String
unfolding is_char
before_char n String.[] = String.[]
before_char n (String.◌∷◌ c s) = if is_char n c then String.[] else String.◌∷◌ c (before_char n s)

-- s.rpartition(c)[0] and s.rpartition(c)[2], if c in s
unfoldable pub before_last : ℕ → String → String
unfolding has_char is_char
before_last n String.[] = String.[]
before_last n (String.◌∷◌ c s) = if has_char n s then String.◌∷◌ c (before_last n s) else String.[]

unfoldable pub after_last : ℕ → String → String
unfolding has_char is_char
after_last n String.[] = String.[]
after_last n (String.◌∷◌ c s) =
    if has_char n s then after_last n s else if is_char n c then s else String.◌∷◌ c s

-- s.count(c)
unfoldable pub count_char : ℕ → String → ℕ
unfolding is_char
count_char n String.[] = 0
count_char n (String.◌∷◌ c s) = (if is_char n c then 1 else 0) + count_char n s

abbrev pub is_digit : Char → Bool
is_digit c = leb b'0' (code c) && leb (code c) b'9'

unfoldable pub all_digits : String → Bool
all_digits String.[] = true
all_digits (String.◌∷◌ c s) = is_digit c && all_digits s

-- s.isdigit(): at least one character, and all are digits
unfoldable pub is_digits : String → Bool
unfolding all_digits
is_digits String.[] = false
is_digits (String.◌∷◌ c s) = is_digit c && all_digits s

abbrev pub is_empty : String → Bool
is_empty String.[] = true
is_empty (String.◌∷◌ c s) = false

-- s.lstrip(…) and s.rstrip(…), for the characters that `drop` accepts
unfoldable pub strip_left : (Char → Bool) → String → String
strip_left p String.[] = String.[]
strip_left p (String.◌∷◌ c s) = if p c then strip_left p s else String.◌∷◌ c s

abbrev pub cons_unless_blank : (Char → Bool) → Char → String → String
cons_unless_blank p c String.[] = if p c then String.[] else String.◌∷◌ c String.[]
cons_unless_blank p c (String.◌∷◌ d s) = String.◌∷◌ c (String.◌∷◌ d s)

unfoldable pub strip_right : (Char → Bool) → String → String
strip_right p String.[] = String.[]
strip_right p (String.◌∷◌ c s) = cons_unless_blank p c (strip_right p s)

unfoldable pub strip : (Char → Bool) → String → String
unfolding strip_left strip_right
strip p s = strip_right p (strip_left p s)

-- The blanks that str.strip(), str.split(), int() and `\s` know: space, tab to carriage return, and the
-- four separators from 28 on.
unfoldable pub is_blank : Char → Bool
unfolding is_char
is_blank c =
    is_char 32 c || ((leb 9 (code c) && leb (code c) 13) || (leb 28 (code c) && leb (code c) 31))

unfoldable pub is_bracket : Char → Bool
unfolding is_char
is_bracket c = is_char b'[' c || is_char b']' c

-- len(s) and s[:n], which count characters
unfoldable pub text_length : String → ℕ
text_length String.[] = 0
text_length (String.◌∷◌ c s) = suc (text_length s)

unfoldable pub text_take : ℕ → String → String
text_take zero s = String.[]
text_take (suc n) String.[] = String.[]
text_take (suc n) (String.◌∷◌ c s) = String.◌∷◌ c (text_take n s)

-- s.startswith(prefix)
abbrev pub starts_with : String → String → Bool
starts_with = Text.starts_with

-- str(n) of a natural number: its decimal digits, the highest first. Each turn drops one digit, so
-- one turn more than the number is fuel enough.
abbrev digit_text : ℕ → String
digit_text d = slice "0123456789" d (d + 1)

abbrev decimal_loop : ℕ → ℕ → String
decimal_loop zero n = ""
decimal_loop (suc fuel) n =
    let higher = decimal_loop fuel (n / 10) in
    let digit = digit_text (n % 10) in if ltb n 10 then digit else higher ++ digit

unfoldable pub decimal : ℕ → String
decimal n = decimal_loop (n + 1) n

-- int(s) of a text of digits
abbrev digits_from : ℕ → String → ℕ
digits_from n String.[] = n
digits_from n (String.◌∷◌ c s) = digits_from (10 * n + (code c - b'0')) s

unfoldable pub digits_value : String → ℕ
digits_value s = digits_from 0 s

-- s.split("."): the parts between the dots, at least one
abbrev pub before_part : Char → List String → List String
before_part c [] = String.◌∷◌ c String.[] ∷ []
before_part c (s ∷ parts) = String.◌∷◌ c s ∷ parts

unfoldable pub split_dots : String → List String
unfolding is_char
split_dots String.[] = String.[] ∷ []
split_dots (String.◌∷◌ c s) =
    let parts = split_dots s in if is_char b'.' c then String.[] ∷ parts else before_part c parts
