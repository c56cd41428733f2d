-- ===== src/Maintainer/Numbers.antt =====
-- The run numbers that are accepted.
use Prim.Native.Char.{code}
use latchway_android.Base.{
  ℕ, ◌+◌, ◌-◌, ◌*◌, ◌≤◌, String, ◌≡◌, ◌++◌, inl, inr, true, digits_value, codes, [], ◌∷◌, ok,
  Bool-cases, arith,
}
use latchway_android.Regex.{in_class, fullmatch}
use latchway_android.Regex.Laws.{matches_iff}
use latchway_android.Maintainer.Constants.{run_number, maximum_json_safe_integer}
use latchway_android.Maintainer.Request.{positive_run_number}

digits_value-le : (n : ℕ) (s : String) → n ≤ digits_value n s
unfolding digits_value
digits_value-le n String.[] = omega arith
digits_value-le n (String.◌∷◌ c s) = omega (arith, digits_value-le (n * 10 + (code c - 48)) s)

first_digit : (text : String) → fullmatch run_number text ≡ true → 1 ≤ digits_value 0 text
unfolding fullmatch run_number digits_value in_class
first_digit String.[] h =
    let (u, v, e, (d, one, m), b) = (matches_iff run_number []).0 h in
    let e' : [] ≡ (d ∷ []) ++ v = rw one at e in cc
first_digit (String.◌∷◌ c s) h =
    let (u, v, e, (d, one, m), b) = (matches_iff run_number (code c ∷ codes s)).0 h in
    let same : code c ∷ codes s ≡ d ∷ v = rw one at e in
    ground (arith, m, same, digits_value-le (0 * 10 + (code c - 48)) s)

-- An accepted run number is at least one and at most 2^53 - 1, so that every reader of the intent
-- takes the same number from it.
pub positive_run_number-le :
    (value : String) (n : ℕ)
    → positive_run_number value ≡ ok n
    → (1 ≤ n) × (n ≤ maximum_json_safe_integer)
unfolding positive_run_number
positive_run_number-le value n h = elim (Bool-cases (fullmatch run_number value)) [
  | inl shape ↦ ground (arith, first_digit value shape)
  | inr other ↦ absurd (ground arith)
]
