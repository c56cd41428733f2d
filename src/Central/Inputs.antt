-- ===== src/Central/Inputs.antt =====
-- The runtime, the files and the JSON values that the deployment script reads: `regular_file`,
-- `load_json`, `sha256_file`, `canonical_bytes` and the patterns.
use latchway_android.Base.{
  ℕ, ◌*◌, String, ◌<>◌, Bool, true, false, not, Option, none, some, List, [], ◌∷◌, ◌||◌, ◌&&◌, leb,
  ltb, universal_newlines, Result, ok, err, rejected, os_error, reject_if, ◌>>=◌, ◌>>◌,
}
use latchway_android.Disk.{File, FilePath}
use latchway_android.Regex.{Regex, CharClass, chars, seq, alt, star, plus, char, one, repeated}
use latchway_android.Json.{
  Json, null, int, pos, str, arr, Items, nil, cons, Fields, end, field, get_last, as_obj, eq_str,
  eq_num, is_null,
}

-- `hashlib.new(algorithm)`, the decoders of UTF-8, ASCII and JSON, `json.dumps(…, indent=2,
-- sort_keys=True)`, `str.encode`, and the text that an f-string gives for a value.
pub record Runtime : Type 0 where
  pub digest : String → List ℕ → String
  pub utf8 : List ℕ → Option String
  pub ascii : List ℕ → Option String
  pub loads : String → Option Json
  pub dumps : Json → String
  pub dumps_line : Json → String
  pub encode : String → List ℕ
  pub format : Json → String

abbrev pub lower_hex : CharClass
lower_hex = (b'0', b'9') ∷ (b'a', b'f') ∷ []

-- `0|[1-9][0-9]*`
abbrev number : Regex
number = alt (char b'0') (seq (chars ((b'1', b'9') ∷ [])) (star (chars ((b'0', b'9') ∷ []))))

unfoldable pub version_pattern : Regex
version_pattern = seq number (seq (char b'.') (seq number (seq (char b'.') number)))

unfoldable pub commit_hash : Regex
commit_hash = repeated 40 (chars lower_hex)

unfoldable pub sha256_hash : Regex
sha256_hash = repeated 64 (chars lower_hex)

abbrev letters : CharClass
letters = (b'A', b'Z') ∷ (b'a', b'z') ∷ (b'0', b'9') ∷ []

unfoldable pub namespace_pattern : Regex
namespace_pattern =
    seq (plus (chars letters))
      (star (seq (chars (one b'.' ∷ one b'_' ∷ one b'-' ∷ [])) (plus (chars letters))))

-- Hexadecimal digits of either case, as `re.I` takes them.
abbrev pub any_hex : CharClass
any_hex = (b'0', b'9') ∷ (b'a', b'f') ∷ (b'A', b'F') ∷ []

unfoldable pub uuid_pattern : Regex
uuid_pattern = seq (repeated 8 (chars any_hex)) (
    seq (char b'-') (
      seq (repeated 4 (chars any_hex)) (
        seq (char b'-') (
          seq (chars ((b'1', b'8') ∷ [])) (
            seq (repeated 3 (chars any_hex)) (
              seq (char b'-') (
                seq (chars (one b'8' ∷ one b'9' ∷ one b'a' ∷ one b'b' ∷ one b'A' ∷ one b'B' ∷ [])) (
                  seq (repeated 3 (chars any_hex))
                    (seq (char b'-') (repeated 12 (chars any_hex)))))))))))

abbrev pub maximum_json_bytes : ℕ
maximum_json_bytes = 2 * 1024 * 1024

abbrev pub maximum_archive_bytes : ℕ
maximum_archive_bytes = 2 * 1024 * 1024 * 1024

abbrev pub maximum_signature_bytes : ℕ
maximum_signature_bytes = 64 * 1024

abbrev over : Option ℕ → ℕ → Bool
over none size = false
over (some maximum) size = ltb maximum size

unfoldable pub regular_file : Option ℕ → FilePath → Result File
regular_file maximum none = err os_error
regular_file maximum (some file) = do
  reject_if (not file.regular || file.symlink || leb file.size 0)
      "expected a non-empty regular file"
  reject_if (over maximum file.size) "file exceeds the reviewed size bound"
  ok file

unfoldable pub read_bytes : FilePath → Result (List ℕ)
read_bytes none = err os_error
read_bytes (some file) = elim file.bytes [ none ↦ err os_error | some bytes ↦ ok bytes ]

abbrev pub or_reject {ℓ} : {A : Type ℓ} → Option A → String → Result A
or_reject none code = err (rejected code)
or_reject (some a) code = ok a

-- `value == expected` for the kinds of values that the script expects: texts, lists of texts,
-- counts and `None`.
unfoldable pub same_items : Items → Items → Bool
same_items nil nil = true
same_items (cons v vs) (cons (str s) es) = eq_str v s && same_items vs es
same_items _ _ = false

unfoldable pub same_value : Json → Json → Bool
unfolding same_items
same_value v null = is_null v
same_value v (str s) = eq_str v s
same_value v (int (pos n)) = eq_num v n
same_value (arr vs) (arr es) = same_items vs es
same_value _ _ = false

-- `for field, value in expected.items()`: each field has its expected value.
unfoldable pub check_fields : String → String → Fields → Fields → Result (Unit {0})
check_fields before after end fs = ok tt
check_fields before after (field k v more) fs = do
  reject_if (not (same_value (get_last k fs) v)) (before <> k <> after)
  check_fields before after more fs

unfoldable pub str_items : List String → Items
str_items [] = nil
str_items (s ∷ ss) = cons (str s) (str_items ss)

-- A list of texts as a JSON value.
unfoldable pub str_list : List String → Json
unfolding str_items
str_list ss = arr (str_items ss)

module _ (host : Runtime) where
  unfoldable pub canonical_bytes : Json → List ℕ
  canonical_bytes value = host.encode (host.dumps value <> "\n")

  unfoldable pub sha256_bytes : List ℕ → String
  sha256_bytes bytes = host.digest "sha256" bytes

  unfoldable pub digest_file : String → FilePath → Result String
  digest_file algorithm path = do bytes ← read_bytes path; ok (host.digest algorithm bytes)

  unfoldable pub sha256_file : FilePath → Result String
  sha256_file path = digest_file "sha256" path

  -- The read and the decoding of a JSON file, whose error has the code.
  unfoldable pub decode_json : FilePath → String → Result Json
  decode_json path code = do
    file ← regular_file (some maximum_json_bytes) path
    bytes ← read_bytes path
    text ← or_reject (host.utf8 bytes) code
    or_reject (host.loads (universal_newlines text)) code

  unfoldable pub load_json : FilePath → Result Fields
  load_json path = do value ← decode_json path "invalid JSON"; as_obj value "expected a JSON object"
