-- ===== src/Json.antt =====
-- Values that `json.loads` returns, and the Python tests that the scripts make on them.
pub mod Laws
use latchway_android.Base.{
  ℕ, zero, suc, ◌+◌, ◌*◌, ◌^◌, String, Bool, true, false, not, List, [], ◌∷◌, ◌&&◌, ◌||◌, eqb, leb,
  ◌==◌, if◌then◌else◌, member, same_set, Result, ok, err, rejected, ◌>>=◌, ◌>>◌,
}
use latchway_android.Regex.{Regex, fullmatch}

-- `negsuc n` is -(n + 1).
pub data ℤ : Type 0 where
  pos : ℕ → ℤ
  negsuc : ℕ → ℤ

-- A float is not a number, infinite, or m / 2 ^ k.
pub data Float : Type 0 where
  nan : Float
  infinite : Bool → Float
  dyadic : ℤ → ℕ → Float

mutual
  pub data Json : Type 0 where
    null : Json
    bool : Bool → Json
    int : ℤ → Json
    float : Float → Json
    str : String → Json
    arr : Items → Json
    obj : Fields → Json

  pub data Items : Type 0 where
    nil : Items
    cons : Json → Items → Items

  pub data Fields : Type 0 where
    end : Fields
    field : String → Json → Fields → Fields

abbrev pub items : Items → List Json
items nil = []
items (cons x xs) = x ∷ items xs

abbrev pub keys : Fields → List String
keys end = []
keys (field k v fs) = k ∷ keys fs

-- `value.get(key)`: `None` for a missing key.
unfoldable pub get : String → Fields → Json
get key end = null
get key (field k v fs) = if key == k then v else get key fs

-- `set(value) == names`
unfoldable pub keys_are : Fields → List String → Bool
keys_are fs names = same_set (keys fs) names

-- `isinstance(value, dict)` with the value, `isinstance(value, list)` likewise: the branch of
-- another type is given by the code that follows.
abbrev pub as_obj : Json → String → Result Fields
as_obj (obj fs) code = ok fs
as_obj _ code = err (rejected code)

abbrev pub as_arr : Json → String → Result (List Json)
as_arr (arr xs) code = ok (items xs)
as_arr _ code = err (rejected code)

abbrev pub as_str : Json → String → Result String
as_str (str s) code = ok s
as_str _ code = err (rejected code)

unfoldable pub is_str : Json → Bool
is_str (str s) = true
is_str _ = false

unfoldable pub is_null : Json → Bool
is_null null = true
is_null _ = false

-- `value is True`, `value is False`, `isinstance(value, bool)`
unfoldable pub is_bool : Bool → Json → Bool
is_bool true (bool true) = true
is_bool false (bool false) = true
is_bool _ _ = false

unfoldable pub is_any_bool : Json → Bool
is_any_bool (bool b) = true
is_any_bool _ = false

-- `value == text`
unfoldable pub eq_str : Json → String → Bool
eq_str (str s) text = s == text
eq_str _ text = false

-- `value in (text, …)`
unfoldable pub in_strs : Json → List String → Bool
in_strs (str s) texts = member s texts
in_strs _ texts = false

-- `isinstance(value, str) and PATTERN.fullmatch(value) is not None`
unfoldable pub str_matches : Regex → Json → Bool
str_matches r (str s) = fullmatch r s
str_matches r _ = false

unfoldable pub eq_pos : ℤ → ℕ → Bool
eq_pos (pos m) n = eqb m n
eq_pos (negsuc m) n = false

-- `value == n`: Python's `True` and `False` are the integers 1 and 0, and a float is compared by
-- its exact value.
unfoldable pub eq_num : Json → ℕ → Bool
unfolding eq_pos
eq_num (int z) n = eq_pos z n
eq_num (bool true) n = eqb 1 n
eq_num (bool false) n = eqb 0 n
eq_num (float (dyadic m k)) n = eq_pos m (n * 2 ^ k)
eq_num _ n = false

-- `value == []`
unfoldable pub is_empty_arr : Json → Bool
is_empty_arr (arr nil) = true
is_empty_arr _ = false

-- `isinstance(value, int) and not isinstance(value, bool)`
unfoldable pub is_int : Json → Bool
is_int (int z) = true
is_int _ = false

-- `json.loads(text, object_pairs_hook=strict)` on the pairs as they stand in the text: each object
-- is refused if a key occurs in it twice.
unfoldable pub has_duplicate : Fields → Bool
has_duplicate end = false
has_duplicate (field k v fs) = member k (keys fs) || has_duplicate fs

unfoldable mutual
  pub strict : String → Json → Result (Unit {0})
  strict code (arr xs) = strict_items code xs
  strict code (obj fs) = do
    strict_fields code fs
    if has_duplicate fs then err (rejected code) else ok tt
  strict code _ = ok tt

  pub strict_items : String → Items → Result (Unit {0})
  strict_items code nil = ok tt
  strict_items code (cons x xs) = do strict code x; strict_items code xs

  pub strict_fields : String → Fields → Result (Unit {0})
  strict_fields code end = ok tt
  strict_fields code (field k v fs) = do strict code v; strict_fields code fs

-- `json.loads(text).get(key)` with no hook: of the pairs with one key the last counts.
unfoldable pub get_last : String → Fields → Json
get_last key end = null
get_last key (field k v fs) =
    let later = get_last key fs in
    if member key (keys fs) then later else (if key == k then v else null)
