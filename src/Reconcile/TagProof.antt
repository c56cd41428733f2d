-- ===== src/Reconcile/TagProof.antt =====
-- The durable proof of a tag's binding: `load_tag_message`, `tag_binding_payload`,
-- `load_tag_binding` and `write_tag_binding`.
use latchway_android.Base.{
  ℕ, ◌*◌, String, ◌<>◌, Bool, true, false, not, Option, none, some, List, [], ◌∷◌, ◌||◌, ◌&&◌, leb,
  ltb, ◌==◌, if◌then◌else◌, has_char, universal_newlines, Result, ok, err, rejected, os_error,
  reject_if, ◌>>=◌, ◌>>◌,
}
use latchway_android.Disk.{FilePath}
use latchway_android.Regex.{Regex, CharClass, chars, alt, repeated, fullmatch}
use latchway_android.Json.{
  Json, str, obj, Fields, end, field, get_last, keys_are, as_obj, as_str, eq_str,
}
use latchway_android.Gateway.Inputs.{same_bytes}
use latchway_android.Reconcile.Client.{TagBinding}

-- SHA-256 in hexadecimal digits, UTF-8, `json.loads`, and `json.dumps(…, indent=2, sort_keys=True)`.
pub record Runtime : Type 0 where
  pub sha256 : List ℕ → String
  pub encode : String → List ℕ
  pub utf8 : List ℕ → Option String
  pub loads : String → Option Json
  pub dumps : Json → String

abbrev hex_digits : CharClass
hex_digits = (b'0', b'9') ∷ (b'a', b'f') ∷ []

unfoldable pub git_object_id : Regex
git_object_id = alt (repeated 40 (chars hex_digits)) (repeated 64 (chars hex_digits))

-- The tests on a small file and its contents.
unfoldable pub read_small : FilePath → String → Result (List ℕ)
read_small none code = err os_error
read_small (some file) code = do
  reject_if (not file.regular || file.symlink || not (ltb 0 file.size && leb file.size (64 * 1024)))
      code
  elim file.bytes [ none ↦ err os_error | some bytes ↦ ok bytes ]

abbrev or_reject {ℓ} : {A : Type ℓ} → Option A → String → Result A
or_reject none code = err (rejected code)
or_reject (some a) code = ok a

-- The payload in front of which stands the identifier of the tag object, if it is there.
unfoldable pub payload_fields : Runtime → String → String → String → Fields → Fields
payload_fields host tag commit message more =
    field "schema" (str "latchway.github-release-tag-binding.v1") (
      field "tag" (str tag) (
        field "commit" (str commit)
          (field "message_sha256" (str (host.sha256 (host.encode message))) more)))

-- The object at the output path: `path.exists()` follows a link.
pub record Output : Type 0 where
  pub exists : Bool
  pub symlink : Bool
  pub bytes : Option (List ℕ)

-- `for field, expected_value in expected.items()`, all of them texts.
unfoldable pub check_payload : Fields → Fields → Result (Unit {0})
check_payload end fs = ok tt
check_payload (field k (str s) more) fs = do
  reject_if (not (eq_str (get_last k fs) s)) ("Existing tag-binding proof " <> k <> " is invalid.")
  check_payload more fs
check_payload (field k v more) fs =
    err (rejected ("Existing tag-binding proof " <> k <> " is invalid."))

module _ (host : Runtime) where
  unfoldable pub load_tag_message : FilePath → Result String
  load_tag_message path = do
    bytes ← read_small path "Expected annotated tag message must be a bounded regular file."
    decoded ← or_reject (host.utf8 bytes) "Expected annotated tag message is not UTF-8."
    let message = universal_newlines decoded
    reject_if (has_char 0 message || has_char 13 message || message == "")
        "Expected annotated tag message contains unsafe bytes."
    ok message

  unfoldable pub tag_binding_payload : TagBinding → Fields
  tag_binding_payload b =
      payload_fields host b.tag b.commit b.message
        (field "tag_object_sha" (str b.tag_object_sha) end)

  unfoldable pub load_tag_binding : FilePath → String → String → String → Result String
  load_tag_binding path tag commit message = do
    bytes ← read_small path "Existing tag-binding proof must be a bounded regular file."
    text ← or_reject (host.utf8 bytes) "Existing tag-binding proof is invalid JSON."
    value ←
        or_reject (host.loads (universal_newlines text))
          "Existing tag-binding proof is invalid JSON."
    fs ← as_obj value "Existing tag-binding proof schema is invalid."
    reject_if
        (not (keys_are fs ("schema" ∷ "tag" ∷ "commit" ∷ "message_sha256" ∷ "tag_object_sha" ∷ [])))
        "Existing tag-binding proof schema is invalid."
    check_payload (payload_fields host tag commit message end) fs
    sha ←
        as_str (get_last "tag_object_sha" fs)
          "Existing tag-binding proof object identifier is invalid."
    reject_if (not (fullmatch git_object_id sha))
        "Existing tag-binding proof object identifier is invalid."
    ok sha

  -- The file that a write leaves; `mkdir` and the write may also raise `OSError`.
  unfoldable pub write_tag_binding : Output → TagBinding → Result Output
  write_tag_binding output binding =
      let encoded = host.encode (host.dumps (obj (tag_binding_payload binding)) <> "\n") in
      if output.exists
      then (do
        reject_if output.symlink
            "Existing immutable tag-binding proof differs from the current remote tag."
        bytes ← elim output.bytes [ none ↦ err os_error | some bytes ↦ ok bytes ]
        reject_if (not (same_bytes bytes encoded))
            "Existing immutable tag-binding proof differs from the current remote tag."
        ok output)
      else ok (record { exists = true; symlink = false; bytes = some encoded })
