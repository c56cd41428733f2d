-- ===== src/CoreRelease/Inputs.antt =====
-- `regular`, `read_json`, `sha256`, `exact_fields`, `json_integer`, and Python's equality of values.
use latchway_android.Base.{
  ℕ, String, Bool, true, false, not, Option, none, some, List, [], ◌∷◌, ◌&&◌, ◌||◌, leb, ltb, eqb,
  ◌==◌, member, universal_newlines, Result, ok, err, rejected, os_error, type_error, reject_if,
  ◌>>=◌, ◌>>◌,
}
use latchway_android.Disk.{File, FilePath}
use latchway_android.Json.{
  Json, null, bool, int, float, str, arr, obj, pos, Items, nil, cons, Fields, end, field, keys, get,
  keys_are, strict, as_obj, as_str, eq_str, eq_num, is_null, str_matches,
}
use latchway_android.CoreRelease.Constants.{max_file, sha256_hash}

-- SHA-256 in hexadecimal digits, UTF-8, the JSON decoder (an object holds its pairs as they stand in
-- the text), and `str(value)` of a value that is no text.
pub record Runtime : Type 0 where
  pub sha256 : List ℕ → String
  pub utf8 : List ℕ → Option String
  pub loads : String → Option Json
  pub show : Json → String

unfoldable pub regular : FilePath → Result File
regular none = err (rejected "core_release_file_missing")
regular (some file) = do
  reject_if (file.symlink || not file.regular || not (ltb 0 file.size && leb file.size max_file))
      "core_release_file_unsafe"
  ok file

abbrev pub or_reject {ℓ} : {A : Type ℓ} → Option A → String → Result A
or_reject none code = err (rejected code)
or_reject (some a) code = ok a

unfoldable pub exact_fields : Json → List String → String → Result Fields
exact_fields value names code = do
  fs ← as_obj value code
  reject_if (not (keys_are fs names)) code
  ok fs

-- `json_integer(value, expected=n)` and `json_integer(value, minimum=n)`
unfoldable pub is_integer : Json → ℕ → Bool
is_integer (int (pos m)) n = eqb m n
is_integer _ n = false

unfoldable pub is_at_least : Json → ℕ → Bool
is_at_least (int (pos m)) n = leb n m
is_at_least _ n = false

-- `bool(value)`
unfoldable pub truthy : Json → Bool
truthy null = false
truthy (bool b) = b
truthy (int z) = not (eq_num (int z) 0)
truthy (float x) = not (eq_num (float x) 0)
truthy (str s) = not (s == "")
truthy (arr nil) = false
truthy (arr (cons x xs)) = true
truthy (obj end) = false
truthy (obj (field k v fs)) = true

-- `value == expected`, where the script compares: with texts, Booleans (which equal 0 and 1), `None`,
-- lists and objects of these. An object holds each key once.
unfoldable mutual
  pub equals : Json → Json → Bool
  equals value (str s) = eq_str value s
  equals value (bool true) = eq_num value 1
  equals value (bool false) = eq_num value 0
  equals value null = is_null value
  equals (arr xs) (arr ys) = equals_items xs ys
  equals (obj fs) (obj gs) = keys_are fs (keys gs) && equals_fields fs gs
  equals value expected = false

  pub equals_items : Items → Items → Bool
  equals_items nil nil = true
  equals_items (cons x xs) (cons y ys) = equals x y && equals_items xs ys
  equals_items _ _ = false

  pub equals_fields : Fields → Fields → Bool
  equals_fields fs end = true
  equals_fields fs (field k v gs) = equals (get k fs) v && equals_fields fs gs

-- `name in names`, which hashes the name.
unfoldable pub among : Json → List String → Result Bool
among (arr xs) names = err type_error
among (obj fs) names = err type_error
among (str s) names = ok (member s names)
among _ names = ok false

module _ (host : Runtime) where
  unfoldable pub read_json : FilePath → Result Fields
  read_json path = do
    file ← regular path
    bytes ← or_reject file.bytes "core_release_json_invalid"
    text ← or_reject (host.utf8 bytes) "core_release_json_invalid"
    value ← or_reject (host.loads (universal_newlines text)) "core_release_json_invalid"
    strict "core_release_json_duplicate_member" value
    as_obj value "core_release_json_invalid"

  unfoldable pub hash_file : FilePath → Result String
  hash_file path = do
    file ← regular path
    elim file.bytes [ none ↦ err os_error | some bytes ↦ ok (host.sha256 bytes) ]

  -- One round of the loops over `{"path": …, "sha256": …}`, with the names so far.
  unfoldable pub read_asset :
      (String → FilePath) → List String → String → Json → List String → Result (String × String)
  read_asset root names code value seen = do
    item ← exact_fields value ("path" ∷ "sha256" ∷ []) code
    known ← among (get "path" item) names
    reject_if (not known) code
    name ← as_str (get "path" item) code
    reject_if (member name seen || not (str_matches sha256_hash (get "sha256" item))) code
    actual ← hash_file (root name)
    reject_if (not (eq_str (get "sha256" item) actual)) code
    ok (name, actual)

  unfoldable pub read_assets :
      (String → FilePath)
      → List String
      → String
      → List Json
      → List String
      → Result (List (String × String))
  read_assets root names code [] seen = ok []
  read_assets root names code (value ∷ values) seen = do
    (name, digest) ← read_asset root names code value seen
    more ← read_assets root names code values (name ∷ seen)
    ok ((name, digest) ∷ more)
