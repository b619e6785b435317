-- ===== src/Server/Transfers/Hosts.antt =====
-- The host that `file_transfer` (src/mcp_socket_server/server.py) takes out of a target, against the way
-- in which `push_binary` (src/mcp_socket_server/upgrades.py) writes a host with its port.
use Prim.Native.Char.{Char, code}
use Prim.Native.String.{◌++◌}
use text.Mathlib.TextLemmas.{nil-append, cons-append, append_assoc}
use mcp_socket_server.Prelude.{
  ℕ, String, ◌≡◌, refl, ap, ◌∙◌, true, false, ◌||◌, leb, or_true, arith, and_both, or_false_both,
  Bool-cases, inl, inr,
}
use mcp_socket_server.Text.{
  colon, is_char, is_digit, has_char, starts_with_char, strip_left, all_digits, decimal, count_char,
}
use mcp_socket_server.Text.Joins.{
  count_char-append, count_char_none, before_last-join, after_last-join, is_digits-decimal,
  is_digits-all,
}
use mcp_socket_server.Upgrades.Push.{bracketed, authority}
use mcp_socket_server.Server.Transfers.{has_close, before_close, target_host}

abbrev pub opening : ℕ
opening = b'['

abbrev pub closing : ℕ
closing = b']'

digit-colon : (c : Char) → is_digit c ≡ true → is_char colon c ≡ false
unfolding is_char
digit-colon c h = ground (arith, and_both (leb b'0' (code c)) (leb (code c) b'9') h)

digits-colon : (s : String) → all_digits s ≡ true → has_char colon s ≡ false
unfolding all_digits has_char
digits-colon String.[] h = refl
digits-colon (String.◌∷◌ c s) h =
    let (first, rest) = and_both (is_digit c) (all_digits s) h in
    rw (digit-colon c first) (digits-colon s rest)

decimal-colon : (n : ℕ) → has_char colon (decimal n) ≡ false
decimal-colon n = digits-colon (decimal n) (is_digits-all (decimal n) (is_digits-decimal n))

starts_with_none : (n : ℕ) (s : String) → has_char n s ≡ false → starts_with_char n s ≡ false
unfolding has_char starts_with_char
starts_with_none n String.[] h = refl
starts_with_none n (String.◌∷◌ c s) h = (or_false_both (is_char n c) (has_char n s) h).0

starts_with-append :
    (n : ℕ) (s t : String)
    → has_char n s ≡ false
    → starts_with_char n t ≡ false
    → starts_with_char n (s ++ t) ≡ false
unfolding has_char starts_with_char
starts_with-append n String.[] t h k = ap (starts_with_char n) (nil-append t) ∙ k
starts_with-append n (String.◌∷◌ c s) t h k =
    ap (starts_with_char n) (cons-append c s t) ∙ (or_false_both (is_char n c) (has_char n s) h).0

strip_left_none : (n : ℕ) (s : String) → has_char n s ≡ false → strip_left (is_char n) s ≡ s
unfolding strip_left has_char
strip_left_none n String.[] h = refl
strip_left_none n (String.◌∷◌ c s) h = rw (or_false_both (is_char n c) (has_char n s) h).0 refl

-- A text of one character before another text.
one_char : (c : Char) (t : String) → String.◌∷◌ c String.[] ++ t ≡ String.◌∷◌ c t
one_char c t = cons-append c String.[] t ∙ ap (String.◌∷◌ c) (nil-append t)

has_close_here : (s t : String) → has_close (s ++ String.◌∷◌ "]" (String.◌∷◌ ":" t)) ≡ true
unfolding has_close is_char starts_with_char
has_close_here String.[] t = ap has_close (nil-append (String.◌∷◌ "]" (String.◌∷◌ ":" t)))
has_close_here (String.◌∷◌ c s) t =
    ap has_close (cons-append c s _) ∙ ap (◌||◌ _) (has_close_here s t) ∙ or_true _

before_close-join :
    (s t : String)
    → has_char closing s ≡ false
    → before_close (s ++ String.◌∷◌ "]" (String.◌∷◌ ":" t)) ≡ s
unfolding before_close has_char
before_close-join String.[] t h = ap before_close (nil-append (String.◌∷◌ "]" (String.◌∷◌ ":" t)))
before_close-join (String.◌∷◌ c s) t h =
    let (first, rest) = or_false_both (is_char closing c) (has_char closing s) h in
    ap before_close (cons-append c s _) ∙ rw first (ap (String.◌∷◌ c) (before_close-join s t rest))

module _ (host : String) (port : ℕ) where
  named :
      has_char opening host ≡ false
      → has_char colon host ≡ false
      → target_host (host ++ String.◌∷◌ ":" (decimal port)) ≡ host
  unfolding target_host count_char
  named plain single =
      rw
        (
          starts_with-append opening host (String.◌∷◌ ":" (decimal port)) plain refl,
          one_colon,
          after_last-join colon ":" refl host (decimal port) (decimal-colon port),
          is_digits-decimal port,
        )
        (before_last-join colon ":" refl host (decimal port) (decimal-colon port))
    where
      one_colon : count_char colon (host ++ String.◌∷◌ ":" (decimal port)) ≡ 1
      one_colon =
          count_char-append colon host (String.◌∷◌ ":" (decimal port))
          ∙ omega (
            arith,
            count_char_none colon host single,
            count_char_none colon (decimal port) (decimal-colon port),
          )

  numbered :
      has_char opening host ≡ false
      → has_char closing host ≡ false
      → target_host (String.◌∷◌ "[" (host ++ String.◌∷◌ "]" (String.◌∷◌ ":" (decimal port)))) ≡ host
  unfolding target_host
  numbered open_free close_free = rw (has_close_here host (decimal port)) (
      ap (strip_left (is_char opening)) (before_close-join host (decimal port) close_free)
      ∙ strip_left_none opening host open_free)

  authority_named :
      has_char colon host ≡ false → authority host port ≡ host ++ String.◌∷◌ ":" (decimal port)
  unfolding authority bracketed
  authority_named single = rw single (ap (λ t. host ++ t) (one_char ":" (decimal port)))

  authority_numbered :
      has_char opening host ≡ false
      → has_char colon host ≡ true
      → authority host port
        ≡ String.◌∷◌ "[" (host ++ String.◌∷◌ "]" (String.◌∷◌ ":" (decimal port)))
  unfolding authority bracketed
  authority_numbered open_free several =
      rw (several, starts_with_none opening host open_free) joined
    where
      joined :
          ("[" ++ (host ++ "]")) ++ (":" ++ decimal port)
          ≡ String.◌∷◌ "[" (host ++ String.◌∷◌ "]" (String.◌∷◌ ":" (decimal port)))
      joined =
          ap (λ t. t ++ (":" ++ decimal port)) (one_char "[" (host ++ "]"))
          ∙ cons-append "[" (host ++ "]") (":" ++ decimal port)
          ∙ ap (String.◌∷◌ "[") (
              append_assoc host "]" (":" ++ decimal port)
              ∙ ap (λ t. host ++ t)
                  (one_char "]" (":" ++ decimal port)
                    ∙ ap (String.◌∷◌ "]") (one_char ":" (decimal port))))

  -- `file_transfer` takes back out of `host:port` the host that `push_binary` puts there, be it a name,
  -- an IPv4 address or a bare IPv6 address, as long as it has no brackets of its own.
  pub target_host-authority :
      has_char opening host ≡ false
      → has_char closing host ≡ false
      → target_host (authority host port) ≡ host
  target_host-authority open_free close_free = elim (Bool-cases (has_char colon host)) [
    | inl several ↦
        ap target_host (authority_numbered open_free several) ∙ numbered open_free close_free
    | inr single ↦ ap target_host (authority_named single) ∙ named open_free single
  ]
