-- ===== src/Upgrades/Versions.antt =====
-- Which texts `version_ok` (src/mcp_socket_server/upgrades.py) accepts.
use Prim.Native.Char.{Char, code}
use mcp_socket_server.Prelude.{
  and_both, and_left, and_last, or_rest, ℕ, String, ◌≡◌, refl, ap, sym, ◌∙◌, true, false, ◌||◌,
  List, [], ◌∷◌, length, all, leb, arith, Bool-cases, inl, inr,
}
use mcp_socket_server.Text.{
  is_char, has_char, is_digit, is_digits, all_digits, split_dots, before_part,
}
use mcp_socket_server.Upgrades.{is_dotted, version_ok, drop_newline, line_feed}

abbrev pub slash : ℕ
slash = b'/'

digit-slash : (c : Char) → is_digit c ≡ true → is_char slash c ≡ false
unfolding is_char
digit-slash c h = ground (arith, and_both (leb b'0' (code c)) (leb (code c) b'9') h)

dot-slash : (c : Char) → is_char b'.' c ≡ true → is_char slash c ≡ false
unfolding is_char
dot-slash c h = ground arith

before_part-digits :
    (c : Char) (parts : List String)
    → all all_digits (before_part c parts) ≡ true
    → (is_digit c ≡ true) × (all all_digits parts ≡ true)
unfolding all_digits
before_part-digits c [] h = ((and_left (is_digit c) true true h).0, refl)
before_part-digits c (s ∷ parts) h = and_left (is_digit c) (all_digits s) (all all_digits parts) h

at_dot :
    (c : Char) (s : String)
    → is_char b'.' c ≡ true
    → split_dots (String.◌∷◌ c s) ≡ String.[] ∷ split_dots s
unfolding split_dots
at_dot c s e = rw e refl

in_part :
    (c : Char) (s : String)
    → is_char b'.' c ≡ false
    → split_dots (String.◌∷◌ c s) ≡ before_part c (split_dots s)
unfolding split_dots
in_part c s e = rw e refl

split_dots-slash : (s : String) → all all_digits (split_dots s) ≡ true → has_char slash s ≡ false
unfolding split_dots has_char all_digits
split_dots-slash String.[] h = refl
split_dots-slash (String.◌∷◌ c s) h = elim (Bool-cases (is_char b'.' c)) [
  | inl e ↦ rw (dot-slash c e) (split_dots-slash s (sym (ap (all all_digits) (at_dot c s e)) ∙ h))
  | inr e ↦
      let (digit, rest) =
        before_part-digits c (split_dots s) (sym (ap (all all_digits) (in_part c s e)) ∙ h) in
      rw (digit-slash c digit) (split_dots-slash s rest)
]

newline-slash : (c : Char) → is_char line_feed c ≡ true → is_char slash c ≡ false
unfolding is_char
newline-slash c h = ground arith

drop_newline-slash : (s : String) → has_char slash (drop_newline s) ≡ has_char slash s
unfolding drop_newline has_char
drop_newline-slash String.[] = refl
drop_newline-slash (String.◌∷◌ c String.[]) = elim (Bool-cases (is_char line_feed c)) [
  | inl e ↦ rw e (rw (newline-slash c e) refl)
  | inr e ↦ rw e refl
]
drop_newline-slash (String.◌∷◌ c (String.◌∷◌ d s)) =
    ap (◌||◌ (is_char slash c)) (drop_newline-slash (String.◌∷◌ d s))

is_digits-all : (parts : List String) → all is_digits parts ≡ true → all all_digits parts ≡ true
unfolding is_digits all_digits
is_digits-all [] h = refl
is_digits-all (String.[] ∷ parts) h = cc
is_digits-all (String.◌∷◌ c s ∷ parts) h = ground (arith, is_digits-all parts)

is_dotted-slash : (s : String) → is_dotted s ≡ true → has_char slash s ≡ false
unfolding is_dotted
is_dotted-slash s h = split_dots-slash s (
    is_digits-all (split_dots s)
      (and_last (leb 2 (length (split_dots s))) (leb (length (split_dots s)) 4) _ h))

-- A version that `version_ok` accepts holds no slash, so it is one name in a path.
pub version_ok-slash : (s : String) → version_ok s ≡ true → has_char slash s ≡ false
unfolding version_ok
version_ok-slash s h = elim (Bool-cases (is_dotted s)) [
  | inl e ↦ is_dotted-slash s e
  | inr e ↦
      sym (drop_newline-slash s) ∙ is_dotted-slash (drop_newline s) (or_rest (is_dotted s) _ h e)
]
