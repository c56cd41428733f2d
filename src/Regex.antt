-- ===== src/Regex.antt =====
-- The regular expressions of the `re` module that the scripts compile, and `Pattern.fullmatch`.
-- The scripts use classes, concatenation, alternation, `?`, `*`, `+` and counted repetition.
pub mod Laws
pub mod Shapes
use latchway_android.Base.{
  ℕ, zero, suc, String, Bool, true, false, List, [], ◌∷◌, ◌&&◌, ◌||◌, leb, codes,
}

-- A class is a list of ranges of code points, both ends included.
abbrev pub CharClass : Type 0
CharClass = List (ℕ × ℕ)

unfoldable pub in_class : CharClass → ℕ → Bool
in_class [] c = false
in_class ((lo, hi) ∷ ranges) c = leb lo c && leb c hi || in_class ranges c

pub data Regex : Type 0 where
  fail : Regex
  empty : Regex
  chars : CharClass → Regex
  seq : Regex → Regex → Regex
  alt : Regex → Regex → Regex
  star : Regex → Regex

unfoldable pub nullable : Regex → Bool
nullable fail = false
nullable empty = true
nullable (chars k) = false
nullable (seq r s) = nullable r && nullable s
nullable (alt r s) = nullable r || nullable s
nullable (star r) = true

-- `seq` and `alt` that drop what cannot match, so that derivatives stay small.
unfoldable pub then_seq : Regex → Regex → Regex
then_seq fail s = fail
then_seq empty s = s
then_seq r s = seq r s

unfoldable pub or_alt : Regex → Regex → Regex
or_alt fail s = s
or_alt r fail = r
or_alt r s = alt r s

abbrev chars_if : Bool → Regex
chars_if true = empty
chars_if false = fail

abbrev seq_if : Bool → Regex → Regex → Regex
seq_if true r s = or_alt r s
seq_if false r s = r

-- What is left to match after one character.
unfoldable pub derive : ℕ → Regex → Regex
unfolding nullable then_seq or_alt in_class
derive c fail = fail
derive c empty = fail
derive c (chars k) = chars_if (in_class k c)
derive c (seq r s) = seq_if (nullable r) (then_seq (derive c r) s) (derive c s)
derive c (alt r s) = or_alt (derive c r) (derive c s)
derive c (star r) = then_seq (derive c r) (star r)

unfoldable pub matches : Regex → List ℕ → Bool
unfolding derive
matches r [] = nullable r
matches r (c ∷ w) = matches (derive c r) w

-- `PATTERN.fullmatch(text) is not None`
unfoldable pub fullmatch : Regex → String → Bool
unfolding matches
fullmatch r text = matches r (codes text)

-- `[abc]` from single characters, a single character, a literal text.
abbrev pub one : ℕ → ℕ × ℕ
one c = (c, c)

abbrev pub char : ℕ → Regex
char c = chars (one c ∷ [])

abbrev pub lits : List ℕ → Regex
lits [] = empty
lits (c ∷ w) = seq (char c) (lits w)

abbrev pub lit : String → Regex
lit text = lits (codes text)

-- `r{n}`, `r{0,n}`, `r{lo,lo+n}`, `r?`, `r+`
abbrev pub repeated : ℕ → Regex → Regex
repeated zero r = empty
repeated (suc n) r = seq r (repeated n r)

abbrev pub up_to : ℕ → Regex → Regex
up_to zero r = empty
up_to (suc n) r = alt empty (seq r (up_to n r))

abbrev pub opt : Regex → Regex
opt r = alt empty r

abbrev pub plus : Regex → Regex
plus r = seq r (star r)
