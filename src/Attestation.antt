-- ===== src/Attestation.antt =====
-- scripts/verify-github-release-attestation.py: the release attestation that GitHub verified,
-- against the promoted tag, commit and tag message.
pub mod Soundness
use latchway_android.Base.{
  ℕ, ◌*◌, String, ◌<>◌, Bool, true, false, not, Option, none, some, List, [], ◌∷◌, ◌||◌, ◌&&◌, leb,
  ltb, eqb, ◌==◌, if◌then◌else◌, codes, length, has_char, universal_newlines, Result, ok, err,
  Error, rejected, os_error, runtime_error, exit_with, type_error, reject_if, ◌>>=◌, ◌>>◌,
}
use latchway_android.Disk.{File, FilePath}
use latchway_android.Regex.{
  Regex, CharClass, chars, char, one, seq, alt, star, plus, repeated, fullmatch,
}
use latchway_android.Json.{
  ℤ, pos, negsuc, Float, nan, infinite, dyadic, Json, null, bool, int, float, str, arr, obj, Items,
  nil, cons, Fields, end, field, items, get_last, keys_are, as_obj, as_arr, as_str, eq_str, eq_num,
}
use latchway_android.GpgStatus.Text.{starts_with, is_digits}

-- SHA-256 in hexadecimal digits, `str.encode`, the decoders of UTF-8 and JSON, of base 64 with the
-- JSON in it, and `json.dumps(…, sort_keys=True, separators=(",", ":"))`.
pub record Runtime : Type 0 where
  pub sha256 : List ℕ → String
  pub encode : String → List ℕ
  pub utf8 : List ℕ → Option String
  pub loads : String → Option Json
  pub loads_base64 : String → Option Json
  pub dumps_compact : Json → String

abbrev hex_digits : CharClass
hex_digits = (b'0', b'9') ∷ (b'a', b'f') ∷ []

unfoldable pub git_object : Regex
git_object = alt (repeated 40 (chars hex_digits)) (repeated 64 (chars hex_digits))

abbrev pub maximum_release_bytes : ℕ
maximum_release_bytes = 8 * 1024 * 1024

unfoldable pub read_text : FilePath → ℕ → String → Result (List ℕ)
read_text none maximum code = err os_error
read_text (some file) maximum code = do
  reject_if (not file.regular || file.symlink || not (ltb 0 file.size && leb file.size maximum))
      code
  elim file.bytes [ none ↦ err os_error | some bytes ↦ ok bytes ]

abbrev or_reject {ℓ} : {A : Type ℓ} → Option A → String → Result A
or_reject none code = err (rejected code)
or_reject (some a) code = ok a

-- `bool(value)`
unfoldable pub is_truthy : Json → Bool
is_truthy null = false
is_truthy (bool b) = b
is_truthy (int (pos n)) = not (eqb n 0)
is_truthy (int (negsuc n)) = true
is_truthy (float (dyadic (pos n) k)) = not (eqb n 0)
is_truthy (float x) = true
is_truthy (str s) = not (s == "")
is_truthy (arr nil) = false
is_truthy (arr (cons v vs)) = true
is_truthy (obj end) = false
is_truthy (obj (field k v fs)) = true

-- `value["signatures"]` is one object with a signature.
unfoldable pub is_signed : Json → Bool
is_signed (arr (cons (obj fs) nil)) = is_truthy (get_last "sig" fs)
is_signed _ = false

unfoldable pub is_full_object : Json → Bool
is_full_object (obj fs) = is_truthy (obj fs)
is_full_object _ = false

unfoldable pub is_url : Json → Bool
is_url (str s) = starts_with s "https://"
is_url _ = false

unfoldable pub is_digit_text : Json → Bool
is_digit_text (str s) = is_digits s
is_digit_text _ = false

-- The fields of `subject`: those of a tag or those of a file.
unfoldable pub subject_fields : Json → Result Fields
subject_fields value = do
  fs ← as_obj value "release statement contains an invalid subject"
  reject_if
      (not (keys_are fs ("uri" ∷ "digest" ∷ [])) && not (keys_are fs ("name" ∷ "digest" ∷ [])))
      "release statement contains an invalid subject"
  ok fs

-- `[subject for subject in subjects if subject.get("uri") == purl]`
unfoldable pub matching_subjects : String → List Json → Result (List Fields)
matching_subjects purl [] = ok []
matching_subjects purl (value ∷ more) = do
  fs ← subject_fields value
  rest ← matching_subjects purl more
  ok (if eq_str (get_last "uri" fs) purl then fs ∷ rest else rest)

-- `value == {algorithm: text}`
unfoldable pub is_digest : Json → String → String → Bool
is_digest (obj fs) algorithm text =
    keys_are fs (algorithm ∷ []) && eq_str (get_last algorithm fs) text
is_digest _ algorithm text = false

unfoldable pub one_digest : List Fields → String → String → Bool
one_digest (fs ∷ []) algorithm text = is_digest (get_last "digest" fs) algorithm text
one_digest _ algorithm text = false

abbrev pub algorithm_of : String → String
algorithm_of tag_object = if eqb (length (codes tag_object)) 40 then "sha1" else "sha256"

unfoldable pub check_predicate : Fields → String → String → Result (Unit {0})
check_predicate predicate repository tag = do
  reject_if
      (not (
        keys_are predicate
          ("ownerId" ∷ "purl" ∷ "releaseId" ∷ "repository" ∷ "repositoryId" ∷ "tag" ∷ [])))
      "release predicate schema is invalid"
  reject_if
      (not (eq_str (get_last "repository" predicate) repository)
        || not (eq_str (get_last "tag" predicate) tag)
        || not (eq_str (get_last "purl" predicate) ("pkg:github/" <> repository <> "@" <> tag)))
      "release predicate identity is invalid"
  reject_if (not (is_digit_text (get_last "ownerId" predicate)))
      "release predicate ownerId is invalid"
  reject_if (not (is_digit_text (get_last "releaseId" predicate)))
      "release predicate releaseId is invalid"
  reject_if (not (is_digit_text (get_last "repositoryId" predicate)))
      "release predicate repositoryId is invalid"

-- `load_json`
unfoldable pub load_object : Runtime → FilePath → Result Fields
load_object host path = do
  bytes ← read_text path maximum_release_bytes "expected a bounded regular JSON file"
  text ← or_reject (host.utf8 bytes) "invalid JSON"
  value ← or_reject (host.loads (universal_newlines text)) "invalid JSON"
  as_obj value "expected one verified JSON object"

unfoldable pub validate_binding : Runtime → Fields → String → String → String → Result String
validate_binding host binding tag commit message = do
  reject_if
      (not
        (keys_are binding ("schema" ∷ "tag" ∷ "tag_object_sha" ∷ "commit" ∷ "message_sha256" ∷ [])))
      "tag binding schema is invalid"
  reject_if (not (eq_str (get_last "schema" binding) "latchway.github-release-tag-binding.v1"))
      "tag binding version is invalid"
  reject_if
      (not (eq_str (get_last "tag" binding) tag) || not (eq_str (get_last "commit" binding) commit))
      "tag binding does not target the promoted tag and commit"
  tag_object ← as_str (get_last "tag_object_sha" binding) "tag binding object identifier is invalid"
  reject_if (not (fullmatch git_object tag_object)) "tag binding object identifier is invalid"
  reject_if (not (eq_str (get_last "message_sha256" binding) (host.sha256 (host.encode message))))
      "tag binding message hash is invalid"
  ok tag_object

-- The statement, with the bundle that holds it.
unfoldable pub release_statement : Runtime → Fields → Result (Json × Fields)
release_statement host value = do
  reject_if (not (keys_are value ("attestation" ∷ "verificationResult" ∷ [])))
      "GitHub verification result schema is invalid"
  reject_if (not (is_full_object (get_last "verificationResult" value)))
      "GitHub verification result does not contain cryptographic verification evidence"
  let envelope_code : String = "GitHub verified attestation envelope is invalid"
  attestation ← as_obj (get_last "attestation" value) envelope_code
  reject_if (not (keys_are attestation ("bundle" ∷ "bundle_url" ∷ "initiator" ∷ []))) envelope_code
  reject_if (not (is_url (get_last "bundle_url" attestation)))
      "GitHub verified attestation URL is invalid"
  bundle ← as_obj (get_last "bundle" attestation) "Sigstore bundle schema is invalid"
  reject_if (not (keys_are bundle ("mediaType" ∷ "verificationMaterial" ∷ "dsseEnvelope" ∷ [])))
      "Sigstore bundle schema is invalid"
  reject_if
      (not (eq_str (get_last "mediaType" bundle) "application/vnd.dev.sigstore.bundle.v0.3+json"))
      "Sigstore bundle media type is invalid"
  envelope ← as_obj (get_last "dsseEnvelope" bundle) "DSSE envelope schema is invalid"
  reject_if (not (keys_are envelope ("payload" ∷ "payloadType" ∷ "signatures" ∷ [])))
      "DSSE envelope schema is invalid"
  reject_if (not (eq_str (get_last "payloadType" envelope) "application/vnd.in-toto+json"))
      "DSSE payload type is invalid"
  reject_if (not (is_signed (get_last "signatures" envelope))) "DSSE signature set is invalid"
  payload ← as_str (get_last "payload" envelope) "DSSE payload is invalid"
  decoded ← or_reject (host.loads_base64 payload) "DSSE release statement is invalid"
  statement ← as_obj decoded "DSSE release statement is not an object"
  ok (get_last "bundle" attestation, statement)

-- What `verify` returns, less its constant schema.
pub record Proof : Type 0 where
  pub repository : String
  pub tag : String
  pub tag_object_sha : String
  pub commit : String
  pub release_predicate_type : Json
  pub verified_bundle_sha256 : String

unfoldable pub check_statement : Fields → String → String → String → Result (Unit {0})
check_statement statement repository tag tag_object = do
  reject_if (not (keys_are statement ("_type" ∷ "subject" ∷ "predicateType" ∷ "predicate" ∷ [])))
      "release statement fields are invalid"
  reject_if (not (eq_str (get_last "_type" statement) "https://in-toto.io/Statement/v1"))
      "release statement type is invalid"
  reject_if
      (not
        (eq_str (get_last "predicateType" statement) "https://in-toto.io/attestation/release/v0.1"))
      "release predicate type is invalid"
  predicate ← as_obj (get_last "predicate" statement) "release predicate schema is invalid"
  check_predicate predicate repository tag
  subjects ← as_arr (get_last "subject" statement) "release statement subjects are invalid"
  reject_if (eqb (length subjects) 0) "release statement subjects are invalid"
  matching ← matching_subjects ("pkg:github/" <> repository <> "@" <> tag) subjects
  reject_if (not (one_digest matching (algorithm_of tag_object) tag_object))
      "release attestation subject is not the exact annotated tag object"

unfoldable pub verify_attestation :
    Runtime → Fields → Fields → String → String → String → String → Result Proof
verify_attestation host release binding repository tag commit message = do
  tag_object ← validate_binding host binding tag commit message
  found ← release_statement host release
  check_statement found.1 repository tag tag_object
  ok (record {
    repository = repository;
    tag = tag;
    tag_object_sha = tag_object;
    commit = commit;
    release_predicate_type = get_last "predicateType" found.1;
    verified_bundle_sha256 = host.sha256 (host.encode (host.dumps_compact found.0));
  })

-- `bounded_message`; a message that is not UTF-8 raises `UnicodeDecodeError`, which `main` handles
-- as a rejection.
unfoldable pub bounded_message : Runtime → FilePath → Result String
bounded_message host path = do
  bytes ← read_text path (64 * 1024) "tag message is not a bounded regular file"
  decoded ← or_reject (host.utf8 bytes) "UnicodeDecodeError"
  let message = universal_newlines decoded
  reject_if (has_char 13 message || has_char 0 message) "tag message contains unsafe bytes"
  ok message

-- `main` on the files at the paths of its options: the proof it prints.
unfoldable pub attest :
    Runtime → FilePath → FilePath → FilePath → String → String → String → Result Proof
attest host release_path binding_path message_path repository tag commit = do
  release ← load_object host release_path
  binding ← load_object host binding_path
  message ← bounded_message host message_path
  verify_attestation host release binding repository tag commit message
