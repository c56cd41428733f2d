-- ===== src/Reconcile/Patterns.antt =====
-- The patterns that the script searches for.
use latchway_android.Base.{ℕ, List, [], ◌∷◌}
use latchway_android.Regex.{Regex, chars, char, seq, alt, star, plus, one, repeated}

abbrev any_case : ℕ → ℕ → Regex
any_case upper lower = chars (one upper ∷ one lower ∷ [])

-- `\s` of texts.
abbrev space : Regex
space = chars (
    (9, 13)
    ∷ (28, 32)
    ∷ one 0x85
    ∷ one 0xa0
    ∷ one 0x1680
    ∷ (0x2000, 0x200a)
    ∷ one 0x2028
    ∷ one 0x2029
    ∷ one 0x202f
    ∷ one 0x205f
    ∷ one 0x3000
    ∷ [])

abbrev in_order : List Regex → Regex
in_order [] = Regex.empty
in_order (r ∷ rs) = seq r (in_order rs)

abbrev anything : Regex
anything = star (chars ((0, 0x10ffff) ∷ []))

abbrev not_found_words : Regex
not_found_words = in_order (
    any_case b'N' b'n'
    ∷ any_case b'O' b'o'
    ∷ any_case b'T' b't'
    ∷ char b' '
    ∷ any_case b'F' b'f'
    ∷ any_case b'O' b'o'
    ∷ any_case b'U' b'u'
    ∷ any_case b'N' b'n'
    ∷ any_case b'D' b'd'
    ∷ [])

abbrev four_oh_four : Regex
four_oh_four = in_order (char b'4' ∷ char b'0' ∷ char b'4' ∷ [])

-- `HTTP\s+404|404\s+Not Found|release not found` without regard to case, anywhere in the text; the
-- long s is a case of `s`.
unfoldable pub not_found : Regex
not_found = in_order (
    anything
    ∷ alt
        (in_order (
          any_case b'H' b'h'
          ∷ any_case b'T' b't'
          ∷ any_case b'T' b't'
          ∷ any_case b'P' b'p'
          ∷ plus space
          ∷ four_oh_four
          ∷ []))
        (alt (in_order (four_oh_four ∷ plus space ∷ not_found_words ∷ [])) (
          in_order (
            any_case b'R' b'r'
            ∷ any_case b'E' b'e'
            ∷ any_case b'L' b'l'
            ∷ any_case b'E' b'e'
            ∷ any_case b'A' b'a'
            ∷ chars (one b'S' ∷ one b's' ∷ one 0x17f ∷ [])
            ∷ any_case b'E' b'e'
            ∷ char b' '
            ∷ not_found_words
            ∷ [])))
    ∷ anything
    ∷ [])

unfoldable pub commit_id : Regex
commit_id = repeated 40 (chars ((b'0', b'9') ∷ (b'a', b'f') ∷ []))
