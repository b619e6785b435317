-- ===== src/Upgrades/Streaks.antt =====
-- The log and the announcements of any number of days (`fetch_latest_version`, `backoff_seconds` and
-- `_loop` of src/mcp_socket_server/upgrades.py).

use mcp_socket_server.Prelude.{
  ℕ, zero, suc, ◌+◌, min, String, ◌≡◌, refl, ap, sym, ◌∙◌, Bool, true, false, ◌&&◌, not, Option,
  none, some, List, [], ◌∷◌, ◌++◌, eqb, arith, if◌then◌else◌, inl, inr, ◌⊎◌, Option-cases, Result,
  ok, err,
}
use mcp_socket_server.Errors.{Exn}
use mcp_socket_server.Text.{is_char, is_empty, has_char, before_char}
use mcp_socket_server.Upgrades.{
  skip_blanks, equals_sign, after_prefix, Checker, Line, recovered, failing, newest, unparsed,
  still_failing, backoff_step, backoff_seconds, quoted, quote, match_version, search_version,
  fetch_latest_version, is_announced, announce, daily_check, daily_loop, get_elem?,
}

abbrev pub is_failing : Line → Bool
is_failing (failing _) = true
is_failing _ = false

abbrev pub is_recovered : Line → Bool
is_recovered (recovered _) = true
is_recovered _ = false

abbrev pub count_if {ℓ} : {A : Type ℓ} → (A → Bool) → List A → ℕ
count_if p [] = 0
count_if p (x ∷ xs) = (elim (p x) [ true ↦ 1 | false ↦ 0 ]) + count_if p xs

pub count_if-append {ℓ} :
    {A : Type ℓ} (p : A → Bool) (xs ys : List A)
    → count_if p (xs ++ ys) ≡ count_if p xs + count_if p ys
count_if-append p [] ys = omega arith
count_if-append p (x ∷ xs) ys = ground (arith, count_if-append p xs ys)

-- Whether the last answer that counted was a failure.
abbrev pub failing_now : Checker → ℕ
failing_now c = elim (eqb c.fail_streak 0) [ true ↦ 0 | false ↦ 1 ]

daily_check-balance :
    (answer : Result Exn String) (c : Checker)
    → count_if is_failing (daily_check answer c).1 + failing_now c
      ≡ count_if is_recovered (daily_check answer c).1 + failing_now (daily_check answer c).0
unfolding daily_check fetch_latest_version announce
daily_check-balance answer c = ground arith

-- Over any days, every warning of a failure but the last is followed by one line on the recovery before
-- the next warning: the warnings are as many as the recoveries, and one more while queries fail.
pub daily_loop-balance :
    (answers : List (Result Exn String)) (c : Checker)
    → count_if is_failing (daily_loop answers c).1 + failing_now c
      ≡ count_if is_recovered (daily_loop answers c).1 + failing_now (daily_loop answers c).0
unfolding daily_loop
daily_loop-balance [] c = refl
daily_loop-balance (answer ∷ answers) c =
    let (c1, lines) = daily_check answer c in
    omega (
      arith,
      daily_check-balance answer c,
      daily_loop-balance answers c1,
      count_if-append is_failing lines (daily_loop answers c1).1,
      count_if-append is_recovered lines (daily_loop answers c1).1,
    )

step_last : (n : ℕ) → backoff_step (suc (suc n)) ≡ some 14400
unfolding backoff_step get_elem?
step_last n = let e : min (suc (suc n)) 2 ≡ 2 = omega arith in rw e refl

-- The pause after so many failures before the last one.
abbrev pub pause : ℕ → ℕ
pause zero = 7200
pause (suc n) = 14400

step-pause : (n : ℕ) → backoff_step (n + 1) ≡ some (pause n)
step-pause zero = unfold backoff_step get_elem? in refl
step-pause (suc n) = let e : suc n + 1 ≡ suc (suc n) = omega arith in rw e (step_last n)

-- After the first failure `backoff_seconds` is two hours, after every further one four; it is the
-- single hour of `_BACKOFF_STEPS` only while nothing has failed.
pub backoff_seconds-fetch_latest_version :
    (e : Exn) (c : Checker)
    → backoff_seconds (fetch_latest_version (err e) c).0 ≡ some (pause c.fail_streak)
unfolding backoff_seconds fetch_latest_version
backoff_seconds-fetch_latest_version e c = step-pause c.fail_streak

chosen : (b : Bool) (w v : String) → (if b then some w else none) ≡ some v → (b ≡ true) × (w ≡ v)
chosen b w v h = ground arith

last_test : (a b c : Bool) → (a && (b && not c)) ≡ true → c ≡ false
last_test true true false h = refl
last_test true true true h = cc
last_test true false c h = cc
last_test false b c h = cc

quoted-nonempty : (o : Option String) (v : String) → quoted o ≡ some v → is_empty v ≡ false
unfolding quoted
quoted-nonempty none v h = cc
quoted-nonempty (some String.[]) v h = cc
quoted-nonempty (some (String.◌∷◌ c s)) v h =
    let (test, e) = chosen _ (before_char quote s) v h in
    ap is_empty (sym e) ∙ last_test (is_char quote c) (has_char quote s) _ test

match_version-nonempty : (s v : String) → match_version s ≡ some v → is_empty v ≡ false
unfolding match_version
match_version-nonempty s v h =
    quoted-nonempty (skip_blanks (equals_sign (skip_blanks (after_prefix "VERSION" s)))) v h

first_found :
    (o later : Option String) (v : String)
    → (elim o [ none ↦ later | some w ↦ some w ]) ≡ some v
    → (o ≡ some v) ⊎ (later ≡ some v)
first_found none later v h = inr h
first_found (some w) later v h = inl h

search_version-nonempty : (s v : String) → search_version s ≡ some v → is_empty v ≡ false
unfolding search_version
search_version-nonempty String.[] v h = cc
search_version-nonempty (String.◌∷◌ c s) v h =
    elim (first_found (match_version (String.◌∷◌ c s)) (search_version s) v h) [
      | inl here ↦ match_version-nonempty (String.◌∷◌ c s) v here
      | inr later ↦ search_version-nonempty s v later
    ]

-- The versions that the lines announce, in order.
abbrev pub versions : List Line → List String
versions [] = []
versions (newest v ∷ lines) = v ∷ versions lines
versions (_ ∷ lines) = versions lines

versions-append : (xs ys : List Line) → versions (xs ++ ys) ≡ versions xs ++ versions ys
versions-append [] ys = refl
versions-append (newest v ∷ xs) ys = ap (◌∷◌ v) (versions-append xs ys)
versions-append (recovered n ∷ xs) ys = versions-append xs ys
versions-append (unparsed ∷ xs) ys = versions-append xs ys
versions-append (failing e ∷ xs) ys = versions-append xs ys
versions-append (still_failing n p e ∷ xs) ys = versions-append xs ys

-- What the pages show, without a version that repeats the one before.
abbrev page_version : Result Exn String → Option String
page_version (err e) = none
page_version (ok page) = search_version page

abbrev pub changes : Option String → List (Result Exn String) → Option String × List String
changes last [] = (last, [])
changes last (answer ∷ answers) = elim (page_version answer) as (λ _. Option String × List String) [
  | none ↦ changes last answers
  | some v ↦ elim (is_announced last v) [
    | true ↦ changes last answers
    | false ↦ let (end, vs) = changes (some v) answers in (end, v ∷ vs)
  ]
]

daily_check-changes :
    (answer : Result Exn String) (answers : List (Result Exn String)) (c : Checker)
    → let (c', lines) = daily_check answer c in
      let (end, vs) = changes c'.announced answers in
      changes c.announced (answer ∷ answers) ≡ (end, versions lines ++ vs)
unfolding daily_check fetch_latest_version announce
daily_check-changes (err e) answers c = ground arith
daily_check-changes (ok page) answers c = elim (Option-cases (search_version page)) [
  | inl e ↦ ground arith
  | inr (v, e) ↦ let long = search_version-nonempty page v e in ground arith
]

-- Over any days, the announcements are the versions on the pages, in order, without one that repeats
-- the announcement before; and the checker remembers the last of them.
pub daily_loop-changes :
    (answers : List (Result Exn String)) (c : Checker)
    → ((daily_loop answers c).0.announced, versions (daily_loop answers c).1)
      ≡ changes c.announced answers
unfolding daily_loop
daily_loop-changes [] c = refl
daily_loop-changes (answer ∷ answers) c =
    let (c1, lines) = daily_check answer c in
    rw
      (
        daily_check-changes answer answers c,
        versions-append lines (daily_loop answers c1).1,
        ← daily_loop-changes answers c1,
      )
      refl
