-- ===== src/Json/Laws.antt =====
-- Case lemmas for the typed reads of JSON values.
use latchway_android.Base.{
  List, String, ◌≡◌, refl, ◌↔◌, ◌⊎◌, inl, inr, true, err, rejected, arith, ==_iff,
}
use latchway_android.Json.{
  get_last, keys_are, Json, null, str, arr, obj, Items, Fields, as_obj, as_arr, as_str, eq_str,
  is_null,
}

pub as_obj_cases :
    (v : Json) (code : String)
    → ((fs : Fields) × (v ≡ obj fs)) ⊎ (as_obj v code ≡ err (rejected code))
as_obj_cases (obj fs) code = inl (fs, refl)
as_obj_cases _ code = inr refl

pub as_arr_cases :
    (v : Json) (code : String)
    → ((xs : Items) × (v ≡ arr xs)) ⊎ (as_arr v code ≡ err (rejected code))
as_arr_cases (arr xs) code = inl (xs, refl)
as_arr_cases _ code = inr refl

pub as_str_cases :
    (v : Json) (code : String)
    → ((s : String) × (v ≡ str s)) ⊎ (as_str v code ≡ err (rejected code))
as_str_cases (str s) code = inl (s, refl)
as_str_cases _ code = inr refl

pub eq_str_iff : (v : Json) (text : String) → (eq_str v text ≡ true) ↔ (v ≡ str text)
unfolding eq_str
eq_str_iff (str s) text = (λ h. ground (arith, ==_iff s text), λ e. ground (arith, ==_iff s text))
eq_str_iff _ text = (λ h. cc, λ e. cc)

pub is_null_iff : (v : Json) → (is_null v ≡ true) ↔ (v ≡ null)
unfolding is_null
is_null_iff null = (λ h. refl, λ h. refl)
is_null_iff _ = (λ h. cc, λ e. cc)

-- What a read of a written object gives: the same fields, in any order.
pub record IsReadBack (written read : Fields) : Type 0 where
  pub same_field : (k : String) → get_last k read ≡ get_last k written
  pub same_keys : (names : List String) → keys_are read names ≡ keys_are written names
