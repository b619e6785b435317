-- ===== src/Text/Colons.antt =====
-- Taking a text apart at its first colon.
use Prim.Native.String.{String}
use mcp_socket_server.Prelude.{ℕ, ◌≡◌, refl, false, Bool-cases, inl, inr}
use mcp_socket_server.Text.{is_char, has_char, starts_with_char, before_char}

pub has_char-before_char : (n : ℕ) (s : String) → has_char n (before_char n s) ≡ false
unfolding has_char before_char
has_char-before_char n String.[] = refl
has_char-before_char n (String.◌∷◌ c s) = elim (Bool-cases (is_char n c)) [
  | inl e ↦ rw e refl
  | inr e ↦ rw e (rw e (has_char-before_char n s))
]

pub starts_with_char-before_char :
    (n m : ℕ) (s : String)
    → starts_with_char m s ≡ false
    → starts_with_char m (before_char n s) ≡ false
unfolding starts_with_char before_char
starts_with_char-before_char n m String.[] h = refl
starts_with_char-before_char n m (String.◌∷◌ c s) h = elim (Bool-cases (is_char n c)) [
  | inl e ↦ rw e refl
  | inr e ↦ rw e h
]
