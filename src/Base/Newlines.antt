-- ===== src/Base/Newlines.antt =====
-- Text mode of Python's `open` and `read_text` with `newline=None`: `\r\n` and `\r` are read as `\n`.
use Prim.Native.Nat.{ℕ}
use Prim.Native.Char.{Char, code}
use Prim.Native.String.{String}
use mathlib.Core.Path.{◌≡◌, refl}
use mathlib.Core.Bool.{Bool, true, false, ◌&&◌, ◌||◌}
use native.Mathlib.Omega.{arith}
use latchway_android.Base.Tests.{eqb}

abbrev newline : Char
newline = "\n"

-- `after` says that the character before was a `\r`, which has been given as `\n`.
unfoldable pub translate : Bool → String → String
translate after String.[] = String.[]
translate after (String.◌∷◌ c s) = elim (eqb (code c) 13) [
  | true ↦ String.◌∷◌ newline (translate true s)
  | false ↦ elim (eqb (code c) 10 && after) [
    | true ↦ translate false s
    | false ↦ String.◌∷◌ c (translate false s)
  ]
]

unfoldable pub universal_newlines : String → String
unfolding translate
universal_newlines = translate false

-- `character in text`
unfoldable pub has_char : ℕ → String → Bool
has_char k String.[] = false
has_char k (String.◌∷◌ c s) = eqb (code c) k || has_char k s

translate_no_return : (after : Bool) (s : String) → has_char 13 (translate after s) ≡ false
unfolding translate has_char
translate_no_return after String.[] = refl
translate_no_return after (String.◌∷◌ c s) =
    ground (arith, translate_no_return true s, translate_no_return false s)

-- No text that is read in text mode holds a carriage return.
pub universal_newlines-no_return : (s : String) → has_char 13 (universal_newlines s) ≡ false
unfolding universal_newlines
universal_newlines-no_return s = translate_no_return false s

translate-has_char : (after : Bool) (s : String) → has_char 0 (translate after s) ≡ has_char 0 s
unfolding translate has_char
translate-has_char after String.[] = refl
translate-has_char after (String.◌∷◌ c s) =
    ground (arith, translate-has_char true s, translate-has_char false s)

-- Text mode neither adds nor removes a NUL.
pub universal_newlines-has_char : (s : String) → has_char 0 (universal_newlines s) ≡ has_char 0 s
unfolding universal_newlines
universal_newlines-has_char s = translate-has_char false s
