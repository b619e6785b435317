-- ===== src/Upgrades.antt =====
-- Upgrades from GitHub (src/mcp_socket_server/upgrades.py): which text is a version, the query for the
-- latest one with its log, and the daily check. What the network answers is an argument.
pub mod Versions
pub mod Streaks
pub mod Files
pub mod Push
use Prim.Native.Char.{Char, code}
use Prim.Native.String
use mcp_socket_server.Prelude.{
  ℕ, zero, suc, ◌+◌, ◌-◌, min, String, Bool, true, false, ◌&&◌, ◌||◌, not, Option, none, some, List,
  [], ◌∷◌, ◌++◌, ◌==◌, nat_eq, string_eq, if◌then◌else◌, leb, eqb, all, length, Result, ok, err,
}
use mcp_socket_server.Errors.{Exn}
use mcp_socket_server.Text.{
  is_char, is_digits, is_blank, is_empty, split_dots, strip_left, before_char, has_char,
}

-- `^\d+(\.\d+){1,3}$` up to the end of the text
unfoldable pub is_dotted : String → Bool
unfolding split_dots is_digits
is_dotted s =
    leb 2 (length (split_dots s)) && (leb (length (split_dots s)) 4 && all is_digits (split_dots s))

-- `$` also stands before a newline that ends the text.
abbrev line_feed : ℕ
line_feed = 10

drop_newline : String → String
unfolding is_char
drop_newline String.[] = String.[]
drop_newline (String.◌∷◌ c String.[]) =
    if is_char line_feed c then String.[] else String.◌∷◌ c String.[]
drop_newline (String.◌∷◌ c (String.◌∷◌ d s)) = String.◌∷◌ c (drop_newline (String.◌∷◌ d s))

unfoldable pub version_ok : String → Bool
unfolding is_dotted drop_newline
version_ok s = is_dotted s || is_dotted (drop_newline s)

-- The rest of a text after a prefix.
unfoldable pub after_prefix : String → String → Option String
unfolding is_char
after_prefix String.[] s = some s
after_prefix (String.◌∷◌ p ps) String.[] = none
after_prefix (String.◌∷◌ p ps) (String.◌∷◌ c s) =
    let rest = after_prefix ps s in if is_char (code p) c then rest else none

abbrev pub quote : ℕ
quote = b'"'

-- `"([^"]+)"` at the head of a text
unfoldable pub quoted : Option String → Option String
unfolding is_char has_char before_char
quoted none = none
quoted (some String.[]) = none
quoted (some (String.◌∷◌ c s)) =
    if is_char quote c && (has_char quote s && not (is_empty (before_char quote s)))
    then some (before_char quote s)
    else none

abbrev pub skip_blanks : Option String → Option String
skip_blanks none = none
skip_blanks (some s) = some (strip_left is_blank s)

abbrev pub equals_sign : Option String → Option String
equals_sign none = none
equals_sign (some s) = after_prefix "=" s

-- `VERSION\s*=\s*"([^"]+)"` at the head of a text, and what its group holds
unfoldable pub match_version : String → Option String
unfolding after_prefix quoted strip_left is_blank
match_version s = quoted (skip_blanks (equals_sign (skip_blanks (after_prefix "VERSION" s))))

-- re.search: the first place where it matches
unfoldable pub search_version : String → Option String
unfolding match_version
search_version String.[] = none
search_version (String.◌∷◌ c s) =
    let later = search_version s in
    elim (match_version (String.◌∷◌ c s)) [ none ↦ later | some v ↦ some v ]

-- `_fail_streak` and `_announced`
pub record Checker : Type 0 where
  pub fail_streak : ℕ
  pub announced : Option String

abbrev pub new_checker : Checker
new_checker = record { fail_streak = 0; announced = none }

unfoldable pub get_elem? {ℓ} : {A : Type ℓ} → List A → ℕ → Option A
get_elem? [] n = none
get_elem? (x ∷ xs) zero = some x
get_elem? (x ∷ xs) (suc n) = get_elem? xs n

-- `_BACKOFF_STEPS`, in seconds
abbrev pub backoff_steps : List ℕ
backoff_steps = 3600 ∷ 7200 ∷ 14400 ∷ []

-- _BACKOFF_STEPS[min(n, len(_BACKOFF_STEPS) - 1)]
unfoldable pub backoff_step : ℕ → Option ℕ
unfolding get_elem?
backoff_step n = get_elem? backoff_steps (min n (length backoff_steps - 1))

unfoldable pub backoff_seconds : Checker → Option ℕ
unfolding backoff_step
backoff_seconds c = backoff_step c.fail_streak

-- The lines of the log, with what they show.
pub data Line : Type 0 where
  -- info: so many failures came before
  recovered : ℕ → Line
  -- warning: the text holds no version
  unparsed : Line
  -- warning: the first failure
  failing : Exn → Line
  -- debug: a further failure, its number and the seconds to wait
  still_failing : ℕ → Option ℕ → Exn → Line
  -- info: a version that has not been announced
  newest : String → Line

-- `except Exception` of `fetch_latest_version`, where the streak has been counted up
abbrev failure_line : ℕ → Exn → Line
failure_line n e = if eqb n 1 then failing e else still_failing n (backoff_step (n - 1)) e

abbrev recovery : ℕ → List Line
recovery zero = []
recovery (suc n) = recovered (suc n) ∷ []

-- `fetch_latest_version`: the answer is the text of `version.py`, or what the request has raised.
unfoldable pub fetch_latest_version :
    Result Exn String → Checker → Checker × List Line × Option String
unfolding backoff_step search_version
fetch_latest_version (err e) c =
    let n = c.fail_streak + 1 in (record c { fail_streak = n }, failure_line n e ∷ [], none)
fetch_latest_version (ok page) c = elim (search_version page) [
  | none ↦ (c, unparsed ∷ [], none)
  | some v ↦ (record c { fail_streak = 0 }, recovery c.fail_streak, some v)
]

abbrev pub is_announced : Option String → String → Bool
is_announced none v = false
is_announced (some w) v = v == w

-- `if v and v != _announced`
unfoldable pub announce : Option String → Checker → Checker × List Line
announce none c = (c, [])
announce (some v) c =
    if not (is_empty v) && not (is_announced c.announced v)
    then (record c { announced = some v }, newest v ∷ [])
    else (c, [])

-- One turn of `_loop`, after its sleep of a day.
unfoldable pub daily_check : Result Exn String → Checker → Checker × List Line
unfolding fetch_latest_version announce
daily_check answer c =
    let (c1, lines, v) = fetch_latest_version answer c in
    let (c2, news) = announce v c1 in (c2, lines ++ news)

-- `_loop` on the answers of so many days
unfoldable pub daily_loop : List (Result Exn String) → Checker → Checker × List Line
unfolding daily_check
daily_loop [] c = (c, [])
daily_loop (answer ∷ answers) c =
    let (c1, lines) = daily_check answer c in
    let (c2, more) = daily_loop answers c1 in (c2, lines ++ more)
