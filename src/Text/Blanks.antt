-- ===== src/Text/Blanks.antt =====
-- `str.strip()`, as Text has it, against what is left of a text without the blanks around it.
use text.Mathlib.TextLemmas.{nil-append, cons-append, append-nil}
use Prim.Native.Char.{Char}
use Prim.Native.String.{String, ◌++◌}
use mcp_socket_server.Prelude.{
  ◌≡◌, refl, sym, ap, ◌∙◌, Bool, true, ◌&&◌, not, Bool-cases, inl, inr, arith, and_both,
}
use mcp_socket_server.Text.{is_blank, strip, strip_left, strip_right, cons_unless_blank}

abbrev pub all_blank : String → Bool
all_blank String.[] = true
all_blank (String.◌∷◌ c s) = is_blank c && all_blank s

-- The text does not begin with a blank, or does not end with one.
abbrev pub starts_plain : String → Bool
starts_plain String.[] = true
starts_plain (String.◌∷◌ c s) = not (is_blank c)

abbrev pub ends_plain : String → Bool
ends_plain String.[] = true
ends_plain (String.◌∷◌ c String.[]) = not (is_blank c)
ends_plain (String.◌∷◌ c (String.◌∷◌ d s)) = ends_plain (String.◌∷◌ d s)

-- The text is blanks, then this part without a blank at either end, then blanks.
pub record Stripped (s core : String) : Type 0 where
  pub before : String
  pub after : String
  pub parts : s ≡ before ++ (core ++ after)
  pub blank_before : all_blank before ≡ true
  pub blank_after : all_blank after ≡ true
  pub starts : starts_plain core ≡ true
  pub ends : ends_plain core ≡ true

record LeftPart (s t : String) : Type 0 where
  before : String
  parts : s ≡ before ++ t
  blank : all_blank before ≡ true
  starts : starts_plain t ≡ true

strip_left-LeftPart : (s : String) → LeftPart s (strip_left is_blank s)
unfolding strip_left
strip_left-LeftPart String.[] = record {
  before = String.[];
  parts = sym (nil-append String.[]);
  blank = refl;
  starts = refl;
}
strip_left-LeftPart (String.◌∷◌ c s) = elim (Bool-cases (is_blank c)) [
  | inl blank ↦
      let rest = strip_left-LeftPart s in
      rw blank (record {
        before = String.◌∷◌ c rest.before;
        parts =
            ap (String.◌∷◌ c) rest.parts ∙ sym (cons-append c rest.before (strip_left is_blank s));
        blank = rw blank rest.blank;
        starts = rest.starts;
      })
  | inr plain ↦ rw plain (record {
    before = String.[];
    parts = sym (nil-append (String.◌∷◌ c s));
    blank = refl;
    starts = rw plain refl;
  })
]

record RightPart (s t : String) : Type 0 where
  after : String
  parts : s ≡ t ++ after
  blank : all_blank after ≡ true
  ends : ends_plain t ≡ true

cons_unless_blank-RightPart :
    (c : Char) (s t : String)
    → RightPart s t
    → RightPart (String.◌∷◌ c s) (cons_unless_blank is_blank c t)
cons_unless_blank-RightPart c s String.[] r = elim (Bool-cases (is_blank c)) [
  | inl blank ↦ rw blank (record {
    after = String.◌∷◌ c r.after;
    parts =
        ap (String.◌∷◌ c) (r.parts ∙ nil-append r.after) ∙ sym (nil-append (String.◌∷◌ c r.after));
    blank = rw blank r.blank;
    ends = refl;
  })
  | inr plain ↦ rw plain (record {
    after = r.after;
    parts = ap (String.◌∷◌ c) r.parts ∙ sym (cons-append c String.[] r.after);
    blank = r.blank;
    ends = rw plain refl;
  })
]
cons_unless_blank-RightPart c s (String.◌∷◌ d t) r = record {
  after = r.after;
  parts = ap (String.◌∷◌ c) r.parts ∙ sym (cons-append c (String.◌∷◌ d t) r.after);
  blank = r.blank;
  ends = r.ends;
}

strip_right-RightPart : (s : String) → RightPart s (strip_right is_blank s)
unfolding strip_right
strip_right-RightPart String.[] = record {
  after = String.[];
  parts = sym (nil-append String.[]);
  blank = refl;
  ends = refl;
}
strip_right-RightPart (String.◌∷◌ c s) =
    cons_unless_blank-RightPart c s (strip_right is_blank s) (strip_right-RightPart s)

cons_unless_blank-starts_plain :
    (c : Char) (t : String)
    → not (is_blank c) ≡ true
    → starts_plain (cons_unless_blank is_blank c t) ≡ true
cons_unless_blank-starts_plain c String.[] h = ground arith
cons_unless_blank-starts_plain c (String.◌∷◌ d t) h = h

strip_right-starts_plain :
    (s : String) → starts_plain s ≡ true → starts_plain (strip_right is_blank s) ≡ true
unfolding strip_right
strip_right-starts_plain String.[] h = refl
strip_right-starts_plain (String.◌∷◌ c s) h =
    cons_unless_blank-starts_plain c (strip_right is_blank s) h

-- `strip` leaves the part that it should.
pub strip-Stripped : (s : String) → Stripped s (strip is_blank s)
unfolding strip
strip-Stripped s =
    let left = strip_left-LeftPart s in
    let right = strip_right-RightPart (strip_left is_blank s) in
    record {
      before = left.before;
      after = right.after;
      parts = left.parts ∙ ap (left.before ++◌) right.parts;
      blank_before = left.blank;
      blank_after = right.blank;
      starts = strip_right-starts_plain (strip_left is_blank s) left.starts;
      ends = right.ends;
    }

strip_left-blank :
    (before t : String)
    → all_blank before ≡ true
    → strip_left is_blank (before ++ t) ≡ strip_left is_blank t
unfolding strip_left
strip_left-blank String.[] t h = ap (strip_left is_blank) (nil-append t)
strip_left-blank (String.◌∷◌ c s) t h =
    let (blank, rest) = and_both (is_blank c) (all_blank s) h in
    ap (strip_left is_blank) (cons-append c s t) ∙ rw blank (strip_left-blank s t rest)

strip_right-blank : (t : String) → all_blank t ≡ true → strip_right is_blank t ≡ String.[]
unfolding strip_right
strip_right-blank String.[] h = refl
strip_right-blank (String.◌∷◌ c t) h =
    let (blank, rest) = and_both (is_blank c) (all_blank t) h in
    ap (cons_unless_blank is_blank c) (strip_right-blank t rest) ∙ rw blank refl

strip_right-core :
    (core after : String)
    → all_blank after ≡ true
    → ends_plain core ≡ true
    → strip_right is_blank (core ++ after) ≡ core
unfolding strip_right
strip_right-core String.[] after h e =
    ap (strip_right is_blank) (nil-append after) ∙ strip_right-blank after h
strip_right-core (String.◌∷◌ c String.[]) after h e =
    ap (strip_right is_blank) (cons-append c String.[] after)
    ∙ ap (cons_unless_blank is_blank c)
        (ap (strip_right is_blank) (nil-append after) ∙ strip_right-blank after h)
    ∙ ground arith
strip_right-core (String.◌∷◌ c (String.◌∷◌ d s)) after h e =
    ap (strip_right is_blank) (cons-append c (String.◌∷◌ d s) after)
    ∙ ap (cons_unless_blank is_blank c) (strip_right-core (String.◌∷◌ d s) after h e)

strip_core :
    (core after : String)
    → all_blank after ≡ true
    → starts_plain core ≡ true
    → ends_plain core ≡ true
    → strip is_blank (core ++ after) ≡ core
unfolding strip strip_left strip_right
strip_core String.[] after h b e = ap (strip_right is_blank) (
    ap (strip_left is_blank) (nil-append after ∙ sym (append-nil after))
    ∙ strip_left-blank after String.[] h)
strip_core (String.◌∷◌ c s) after h b e =
    ap (strip_right is_blank) (stays (String.◌∷◌ c s ++ after) (cons-append c s after))
    ∙ strip_right-core (String.◌∷◌ c s) after h e
  where
    stays : (t : String) → t ≡ String.◌∷◌ c (s ++ after) → strip_left is_blank t ≡ t
    stays t split = ap (strip_left is_blank) split ∙ ground arith ∙ sym split

-- Nothing else is what is left of a text.
pub Stripped-strip : (s core : String) → Stripped s core → strip is_blank s ≡ core
unfolding strip
Stripped-strip s core h =
    ap (strip is_blank) h.parts
    ∙ ap (strip_right is_blank) (strip_left-blank h.before (core ++ h.after) h.blank_before)
    ∙ strip_core core h.after h.blank_after h.starts h.ends
