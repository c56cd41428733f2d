-- ===== src/GpgStatus/Text.antt =====
-- The `str` methods of the script: `splitlines`, `split(" ")`, `startswith` with the slice that
-- follows it, `endswith` and `isdigit`.
use Prim.Native.Char.{Char, code}
use latchway_android.Base.{
  ℕ, String, ◌<>◌, not, Bool, true, false, Option, none, some, List, [], ◌∷◌, ◌&&◌, ◌||◌, leb, eqb,
  codes, all, if◌then◌else◌, ◌==◌,
}
use latchway_android.Regex.{CharClass, in_class}

-- The line boundaries of `splitlines`; `\r\n` does not occur in a text read in text mode.
unfoldable pub is_boundary : ℕ → Bool
is_boundary c =
    leb 10 c && leb c 13 || leb 28 c && leb c 30 || eqb c 0x85 || eqb c 0x2028 || eqb c 0x2029

-- The first part with a character in front.
unfoldable pub cons_first : String → List String → List String
cons_first c [] = c ∷ []
cons_first c (part ∷ parts) = (c <> part) ∷ parts

abbrev single : Char → String
single c = String.◌∷◌ c String.[]

-- `text.splitlines()`: no empty part after a final boundary.
unfoldable pub splitlines : String → List String
unfolding is_boundary cons_first
splitlines String.[] = []
splitlines (String.◌∷◌ c s) =
    let rest = splitlines s in
    if is_boundary (code c) then "" ∷ rest else cons_first (single c) rest

-- `text.split(" ")`
unfoldable pub split_spaces : String → List String
unfolding cons_first
split_spaces String.[] = "" ∷ []
split_spaces (String.◌∷◌ c s) =
    let rest = split_spaces s in if eqb (code c) 32 then "" ∷ rest else cons_first (single c) rest

-- `line[len(prefix):]` where `line.startswith(prefix)`.
unfoldable pub after_prefix : String → String → Option String
after_prefix String.[] s = some s
after_prefix (String.◌∷◌ c p) String.[] = none
after_prefix (String.◌∷◌ c p) (String.◌∷◌ d s) =
    let rest = after_prefix p s in if eqb (code c) (code d) then rest else none

unfoldable pub starts_with : String → String → Bool
unfolding after_prefix
starts_with s prefix = elim (after_prefix prefix s) [ none ↦ false | some rest ↦ true ]

-- `s.endswith(suffix)`
unfoldable pub ends_with : String → String → Bool
ends_with String.[] suffix = suffix == ""
ends_with (String.◌∷◌ c s) suffix = suffix == String.◌∷◌ c s || ends_with s suffix

-- The characters of which `str.isdigit` is true.
abbrev pub digit_class : CharClass
digit_class =
    (48, 57)
    ∷ (178, 179)
    ∷ (185, 185)
    ∷ (1632, 1641)
    ∷ (1776, 1785)
    ∷ (1984, 1993)
    ∷ (2406, 2415)
    ∷ (2534, 2543)
    ∷ (2662, 2671)
    ∷ (2790, 2799)
    ∷ (2918, 2927)
    ∷ (3046, 3055)
    ∷ (3174, 3183)
    ∷ (3302, 3311)
    ∷ (3430, 3439)
    ∷ (3558, 3567)
    ∷ (3664, 3673)
    ∷ (3792, 3801)
    ∷ (3872, 3881)
    ∷ (4160, 4169)
    ∷ (4240, 4249)
    ∷ (4969, 4977)
    ∷ (6112, 6121)
    ∷ (6160, 6169)
    ∷ (6470, 6479)
    ∷ (6608, 6618)
    ∷ (6784, 6793)
    ∷ (6800, 6809)
    ∷ (6992, 7001)
    ∷ (7088, 7097)
    ∷ (7232, 7241)
    ∷ (7248, 7257)
    ∷ (8304, 8304)
    ∷ (8308, 8313)
    ∷ (8320, 8329)
    ∷ (9312, 9320)
    ∷ (9332, 9340)
    ∷ (9352, 9360)
    ∷ (9450, 9450)
    ∷ (9461, 9469)
    ∷ (9471, 9471)
    ∷ (10102, 10110)
    ∷ (10112, 10120)
    ∷ (10122, 10130)
    ∷ (42528, 42537)
    ∷ (43216, 43225)
    ∷ (43264, 43273)
    ∷ (43472, 43481)
    ∷ (43504, 43513)
    ∷ (43600, 43609)
    ∷ (44016, 44025)
    ∷ (65296, 65305)
    ∷ (66720, 66729)
    ∷ (68160, 68163)
    ∷ (68912, 68921)
    ∷ (69216, 69224)
    ∷ (69714, 69722)
    ∷ (69734, 69743)
    ∷ (69872, 69881)
    ∷ (69942, 69951)
    ∷ (70096, 70105)
    ∷ (70384, 70393)
    ∷ (70736, 70745)
    ∷ (70864, 70873)
    ∷ (71248, 71257)
    ∷ (71360, 71369)
    ∷ (71472, 71481)
    ∷ (71904, 71913)
    ∷ (72016, 72025)
    ∷ (72784, 72793)
    ∷ (73040, 73049)
    ∷ (73120, 73129)
    ∷ (92768, 92777)
    ∷ (92864, 92873)
    ∷ (93008, 93017)
    ∷ (120782, 120831)
    ∷ (123200, 123209)
    ∷ (123632, 123641)
    ∷ (125264, 125273)
    ∷ (127232, 127242)
    ∷ (130032, 130041)
    ∷ []

unfoldable pub is_digits : String → Bool
unfolding in_class
is_digits s = not (s == "") && all (in_class digit_class) (codes s)
