-- ===== src/Base/Texts.antt =====
-- Texts as Python's `str` methods read and build them.
use Prim.Native.Nat.{ℕ, zero, suc, ◌+◌, ◌-◌, ◌*◌, ◌/◌, ◌%◌}
use Prim.Native.Char.{Char, code}
use Prim.Native.String.{String, ◌++◌ as ◌<>◌}
use mathlib.Core.Bool.{Bool, true, false, ◌&&◌, ◌||◌}
use mathlib.Core.List.{List, [], ◌∷◌}
use latchway_android.Base.Tests.{leb, ltb, eqb, if◌then◌else◌}

-- A character in front of the first part.
unfoldable pub before_first : Char → List String → List String
before_first c [] = String.◌∷◌ c String.[] ∷ []
before_first c (part ∷ parts) = String.◌∷◌ c part ∷ parts

-- `text.split(separator)` at a single character.
unfoldable pub split_on : ℕ → String → List String
unfolding before_first
split_on separator String.[] = String.[] ∷ []
split_on separator (String.◌∷◌ c s) =
    let rest = split_on separator s in
    if eqb (code c) separator then String.[] ∷ rest else before_first c rest

-- `text.startswith(prefix)`
unfoldable pub has_prefix : String → String → Bool
has_prefix String.[] s = true
has_prefix (String.◌∷◌ c p) String.[] = false
has_prefix (String.◌∷◌ c p) (String.◌∷◌ d s) = eqb (code c) (code d) && has_prefix p s

-- The white space of ASCII, as `str.strip` takes it.
abbrev pub is_ascii_space : ℕ → Bool
is_ascii_space c = leb 9 c && leb c 13 || leb 28 c && leb c 32

unfoldable pub last_is_space : ℕ → String → Bool
last_is_space c String.[] = is_ascii_space c
last_is_space c (String.◌∷◌ d s) = last_is_space (code d) s

-- `text.strip() != text` of an ASCII text.
unfoldable pub has_outer_space : String → Bool
unfolding last_is_space
has_outer_space String.[] = false
has_outer_space (String.◌∷◌ c s) = is_ascii_space (code c) || last_is_space (code c) s

abbrev pub digit_text : ℕ → String
digit_text zero = "0"
digit_text (suc zero) = "1"
digit_text (suc (suc zero)) = "2"
digit_text (suc (suc (suc zero))) = "3"
digit_text (suc (suc (suc (suc zero)))) = "4"
digit_text (suc (suc (suc (suc (suc zero))))) = "5"
digit_text (suc (suc (suc (suc (suc (suc zero)))))) = "6"
digit_text (suc (suc (suc (suc (suc (suc (suc zero))))))) = "7"
digit_text (suc (suc (suc (suc (suc (suc (suc (suc zero)))))))) = "8"
digit_text _ = "9"

-- `str(n)` of a number with at most `fuel` digits.
unfoldable pub decimal : ℕ → ℕ → String
decimal zero n = ""
decimal (suc fuel) n =
    let rest = decimal fuel (n / 10) in
    if ltb n 10 then digit_text n else rest <> digit_text (n % 10)

-- `\s` of `re` on texts, which is `str.isspace`.
unfoldable pub is_space : ℕ → Bool
is_space c =
    leb 9 c && leb c 13
    || leb 28 c && leb c 32
    || eqb c 0x85
    || eqb c 0xa0
    || eqb c 0x1680
    || leb 0x2000 c && leb c 0x200a
    || eqb c 0x2028
    || eqb c 0x2029
    || eqb c 0x202f
    || eqb c 0x205f
    || eqb c 0x3000

-- `\s*` before a character that is no space.
unfoldable pub skip_space : String → String
skip_space String.[] = String.[]
skip_space (String.◌∷◌ c s) =
    let rest = skip_space s in if is_space (code c) then rest else String.◌∷◌ c s

-- The text without the white space at its end.
unfoldable pub space_before : Char → String → String
space_before c String.[] = if is_space (code c) then String.[] else String.◌∷◌ c String.[]
space_before c rest = String.◌∷◌ c rest

unfoldable pub rstrip : String → String
unfolding space_before
rstrip String.[] = String.[]
rstrip (String.◌∷◌ c s) = space_before c (rstrip s)

-- `text.strip()`
unfoldable pub strip : String → String
unfolding is_space skip_space space_before rstrip
strip s = rstrip (skip_space s)

-- `int(text)` of decimal digits.
unfoldable pub digits_value : ℕ → String → ℕ
digits_value n String.[] = n
digits_value n (String.◌∷◌ c s) = digits_value (n * 10 + (code c - 48)) s
