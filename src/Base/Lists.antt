-- ===== src/Base/Lists.antt =====
-- Lists and texts: lengths over the native numbers, Boolean membership, code points.
use Prim.Native.Nat.{ℕ, suc}
use Prim.Native.Char.{code}
use Prim.Native.String.{String}
use mathlib.Core.Path.{◌≡◌, refl}
use mathlib.Core.Bool.{Bool, true, false, not, ◌&&◌, ◌||◌}
use mathlib.Core.List.{List, [], ◌∷◌, ◌++◌}
use native.Mathlib.Omega.{arith}
use latchway_android.Base.Tests.{◌==◌}

abbrev pub codes : String → List ℕ
codes String.[] = []
codes (String.◌∷◌ c s) = code c ∷ codes s

module _ {ℓ} {A : Type ℓ} where
  abbrev pub length : List A → ℕ
  length [] = 0
  length (x ∷ xs) = suc (length xs)

  abbrev pub all : (A → Bool) → List A → Bool
  all p [] = true
  all p (x ∷ xs) = p x && all p xs

  abbrev pub any : (A → Bool) → List A → Bool
  any p [] = false
  any p (x ∷ xs) = p x || any p xs

-- Every member satisfies `P`.
abbrev pub All {ℓ κ} : {A : Type ℓ} → (A → Type κ) → List A → Type κ
All P [] = Unit
All P (x ∷ xs) = P x × All P xs

-- `name in names`
unfoldable pub member : String → List String → Bool
member s [] = false
member s (t ∷ ts) = s == t || member s ts

unfoldable pub subset : List String → List String → Bool
unfolding member
subset [] ts = true
subset (s ∷ ss) ts = member s ts && subset ss ts

-- `set(left) == set(right)`
unfoldable pub same_set : List String → List String → Bool
unfolding subset
same_set ss ts = subset ss ts && subset ts ss

-- `len(names) == len(set(names))`
unfoldable pub distinct : List String → Bool
unfolding member
distinct [] = true
distinct (s ∷ ss) = not (member s ss) && distinct ss

pub subset-member :
    (s : String) (ss ts : List String)
    → subset ss ts ≡ true
    → member s ss ≡ true
    → member s ts ≡ true
unfolding subset
subset-member s [] ts h m = cc
subset-member s (r ∷ ss) ts h m = ground (arith, subset-member s ss ts)

-- The Boolean test is equality of sets.
pub same_set-member :
    (ss ts : List String) → same_set ss ts ≡ true → (s : String) → member s ss ≡ member s ts
unfolding same_set
same_set-member ss ts h s = ground (arith, subset-member s ss ts, subset-member s ts ss)

pub member-append :
    (s : String) (ss ts : List String) → member s (ss ++ ts) ≡ (member s ss || member s ts)
unfolding member
member-append s [] ts = refl
member-append s (r ∷ ss) ts = ground (arith, member-append s ss ts)
