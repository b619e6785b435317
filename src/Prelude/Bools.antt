-- ===== src/Prelude/Bools.antt =====
-- Laws of `or` and `and` that the components share.
use mathlib.Core.Path.{◌≡◌, refl}
use mathlib.Core.Bool.{Bool, true, false, ◌&&◌, ◌||◌}

pub or_false : (b : Bool) → b ≡ (b || false)
or_false true = refl
or_false false = refl

pub or_hit : (a c r : Bool) → ((a || c) || r) ≡ (c || ((a && true) || r))
or_hit true true r = refl
or_hit true false r = refl
or_hit false c r = refl

pub or_miss : (a c r : Bool) → (c || r) ≡ (c || ((a && false) || r))
or_miss true c r = refl
or_miss false c r = refl

pub split_hit :
    (a l x y z : Bool) → (x || y) ≡ z → (((a && true) || x) || y) ≡ ((a && (true || l)) || z)
split_hit true l x y z h = refl
split_hit false l x y z h = h

pub split_miss :
    (a l x y z : Bool)
    → (x || y) ≡ z
    → (((a && false) || x) || ((a && l) || y)) ≡ ((a && (false || l)) || z)
split_miss true true true y z h = refl
split_miss true true false y z h = refl
split_miss true false x y z h = h
split_miss false l x y z h = h

pub or_assoc : (a b c d : Bool) → (b || c) ≡ d → ((a || b) || c) ≡ (a || d)
or_assoc true b c d h = refl
or_assoc false b c d h = h

pub absorb : (f c : Bool) → (f || (c && f)) ≡ f
absorb true c = refl
absorb false true = refl
absorb false false = refl

pub only_if : (b c : Bool) → c ≡ false → (b && c) ≡ false
only_if true c h = h
only_if false c h = refl

pub repeat : (c f : Bool) → (c && (c && f)) ≡ (c && f)
repeat true f = refl
repeat false f = refl

pub and_false : (b : Bool) → (b && false) ≡ false
and_false true = refl
and_false false = refl

pub and_both : (a b : Bool) → (a && b) ≡ true → (a ≡ true) × (b ≡ true)
and_both true b h = (refl, h)
and_both false b h = cc

pub and_left : (a b c : Bool) → ((a && b) && c) ≡ true → (a ≡ true) × ((b && c) ≡ true)
and_left true b c h = (refl, h)
and_left false b c h = cc

pub and_last : (a b c : Bool) → (a && (b && c)) ≡ true → c ≡ true
and_last a b c h = (and_both b c (and_both a (b && c) h).1).1

pub or_true : (b : Bool) → (b || true) ≡ true
or_true true = refl
or_true false = refl

pub or_first : (a b : Bool) → a ≡ true → (a || b) ≡ true
or_first true b h = refl
or_first false b h = cc

pub or_false_both : (a b : Bool) → (a || b) ≡ false → (a ≡ false) × (b ≡ false)
or_false_both true b h = cc
or_false_both false b h = (refl, h)

pub or_rest : (a b : Bool) → (a || b) ≡ true → a ≡ false → b ≡ true
or_rest true b h e = cc
or_rest false b h e = h
