-- ===== src/Maintainer/Inputs.antt =====
-- `git`, `regular_text` and the searches of the script in the texts it reads.
use latchway_android.Base.{
  ℕ, ◌*◌, String, Bool, true, false, not, Option, none, some, List, [], ◌∷◌, ◌&&◌, ◌||◌, leb, ltb,
  eqb, strip, universal_newlines, Result, ok, err, rejected, reject_if, ◌>>=◌, ◌>>◌,
}
use latchway_android.Disk.{FilePath}
use latchway_android.Regex.{Regex, CharClass, empty, seq, alt, star, chars, char, matches}
use latchway_android.Json.{Json}

-- SHA-256 in hexadecimal digits, UTF-8, `json.dumps` with the options of `write_intent`, the word
-- characters and the decimal digits of `re` on texts.
pub record Runtime : Type 0 where
  pub sha256 : List ℕ → String
  pub encode : String → List ℕ
  pub utf8 : List ℕ → Option String
  pub dumps : Json → String
  pub is_word : ℕ → Bool
  pub digits : CharClass

-- `run` gives what `git` prints, or `none` where it cannot be started or fails.
unfoldable pub git : (List String → Option String) → List String → Result String
git run arguments = elim (run arguments) [
  | none ↦ err (rejected "maintainer_release_git_invalid")
  | some stdout ↦ ok (strip stdout)
]

abbrev pub or_reject {ℓ} : {A : Type ℓ} → Option A → String → Result A
or_reject none code = err (rejected code)
or_reject (some a) code = ok a

unfoldable pub regular_text : Runtime → FilePath → String → Result String
regular_text host none error = err (rejected error)
regular_text host (some file) error = do
  reject_if (file.symlink || not file.regular || leb file.size 0 || ltb (1024 * 1024) file.size)
      error
  bytes ← or_reject file.bytes error
  text ← or_reject (host.utf8 bytes) error
  ok (universal_newlines text)

-- Any text.
abbrev pub anything : Regex
anything = star (chars ((0, 0x10ffff) ∷ []))

-- `\s`
abbrev pub space : Regex
space = chars (
    (9, 13)
    ∷ (28, 32)
    ∷ (0x85, 0x85)
    ∷ (0xa0, 0xa0)
    ∷ (0x1680, 0x1680)
    ∷ (0x2000, 0x200a)
    ∷ (0x2028, 0x2029)
    ∷ (0x202f, 0x202f)
    ∷ (0x205f, 0x205f)
    ∷ (0x3000, 0x3000)
    ∷ [])

abbrev differ : Bool → Bool → Bool
differ true b = not b
differ false b = b

-- `re.search(r'\b…', text)` for a pattern that takes at least one character; `before` tells whether
-- the character before is a word character.
unfoldable pub search_word : (ℕ → Bool) → Regex → Bool → List ℕ → Bool
search_word is_word r before [] = false
search_word is_word r before (c ∷ w) =
    differ before (is_word c) && matches (seq r anything) (c ∷ w)
    || search_word is_word r (is_word c) w

-- `re.search(r"(?m)^…$", text)`; `at_start` tells whether a line starts here.
unfoldable pub search_line : Regex → Bool → List ℕ → Bool
search_line r at_start [] = at_start && matches r []
search_line r at_start (c ∷ w) =
    at_start && matches (seq r (alt empty (seq (char 10) anything))) (c ∷ w)
    || search_line r (eqb c 10) w
