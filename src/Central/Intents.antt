-- ===== src/Central/Intents.antt =====
-- The upload intent: `create_intent`, `validate_intent` and `validate_intent_inputs`.
use latchway_android.Base.{
  ◌+◌, String, ◌<>◌, Bool, not, List, [], ◌∷◌, ◌||◌, ltb, eqb, ◌==◌, codes, length, some, ◌*◌,
  Result, ok, reject_if, ◌>>=◌, ◌>>◌,
}
use latchway_android.Disk.{FilePath}
use latchway_android.Regex.{fullmatch}
use latchway_android.Json.{
  Json, int, pos, str, Fields, end, field, get_last, keys_are, as_str, eq_str, eq_num,
}
use latchway_android.Central.Paths.{
  first_chars, expected_purls, primary_repository_paths, expected_repository_paths,
}
use latchway_android.Central.Inputs.{
  Runtime, version_pattern, commit_hash, sha256_hash, namespace_pattern, regular_file, same_value,
  check_fields, str_list, sha256_file, load_json,
}
use latchway_android.Central.Archives.{Repository, Archive, repository_manifest, validate_archive}

abbrev pub intent_keys : List String
intent_keys =
    "schema" ∷ "repository" ∷ "source_commit" ∷ "release_tag" ∷ "version" ∷ "namespace"
    ∷ "deployment_name" ∷ "publishing_type" ∷ "reviewed_repository_archive_sha256"
    ∷ "reviewed_repository_manifest_sha256" ∷ "reviewed_repository_file_count"
    ∷ "reviewed_portal_bundle_sha256" ∷ "reviewed_portal_bundle_file_count"
    ∷ "reviewed_public_key_sha256" ∷ "expected_purls" ∷ "authorization" ∷ []

-- A validated intent: its texts, and the object as it was read.
pub record Intent : Type 0 where
  pub version : String
  pub source_commit : String
  pub namespace : String
  pub deployment_name : String
  pub portal_sha256 : String
  pub fields : Fields

unfoldable pub deployment_name_of : String → String → String → String
deployment_name_of version commit portal =
    "latchway-android-v" <> version <> "-" <> first_chars 12 commit <> "-" <> portal

-- `isinstance(item, str) and SHA256.fullmatch(item) is not None` of one field.
unfoldable pub sha256_field : Fields → String → Result String
sha256_field fs name = do
  item ← as_str (get_last name fs) ("upload intent " <> name <> " is invalid")
  reject_if (not (fullmatch sha256_hash item)) ("upload intent " <> name <> " is invalid")
  ok item

-- The text that an f-string gives for a value.
abbrev formatted : Runtime → Json → String
formatted host (str s) = s
formatted host value = host.format value

-- The counts of the files in the repository and in the Portal bundle.
unfoldable pub check_counts : Fields → String → Result (Unit {0})
check_counts fs version = do
  let count = length (expected_repository_paths version)
  reject_if (not (eq_num (get_last "reviewed_repository_file_count" fs) count))
      "upload intent repository file count is invalid"
  reject_if
      (not (
        eq_num (get_last "reviewed_portal_bundle_file_count" fs)
          (count + length (primary_repository_paths version))))
      "upload intent Portal bundle file count is invalid"

module _ (host : Runtime) where
  unfoldable pub validate_intent : Fields → Result Intent
  validate_intent fs = do
    reject_if
        (not (keys_are fs intent_keys)
          || not (eq_str (get_last "schema" fs) "latchway.maven-central-upload-intent.v2"))
        "upload intent schema is invalid"
    version ← as_str (get_last "version" fs) "upload intent version is invalid"
    reject_if (not (fullmatch version_pattern version)) "upload intent version is invalid"
    reject_if
        (not (eq_str (get_last "release_tag" fs) ("v" <> version))
          || not (eq_str (get_last "repository" fs) "Latchway/latchway-android"))
        "upload intent release identity is invalid"
    commit ← as_str (get_last "source_commit" fs) "upload intent source commit is invalid"
    reject_if (not (fullmatch commit_hash commit)) "upload intent source commit is invalid"
    namespace ← as_str (get_last "namespace" fs) "upload intent namespace is invalid"
    reject_if (not (fullmatch namespace_pattern namespace)) "upload intent namespace is invalid"
    let portal = formatted host (get_last "reviewed_portal_bundle_sha256" fs)
    name ← as_str (get_last "deployment_name" fs) "upload intent deployment name is invalid"
    reject_if
        (not (name == deployment_name_of version commit portal) || ltb 128 (length (codes name)))
        "upload intent deployment name is invalid"
    reject_if (not (eq_str (get_last "publishing_type" fs) "user_managed"))
        "upload intent must use recoverable user-managed publication"
    archive ← sha256_field fs "reviewed_repository_archive_sha256"
    manifest ← sha256_field fs "reviewed_repository_manifest_sha256"
    portal_sha256 ← sha256_field fs "reviewed_portal_bundle_sha256"
    public_key ← sha256_field fs "reviewed_public_key_sha256"
    check_counts fs version
    reject_if
        (not
          (same_value (get_last "expected_purls" fs) (str_list (expected_purls namespace version))))
        "upload intent PURLs are invalid"
    reject_if (not (eq_str (get_last "authorization" fs) "recoverable_exact_upload"))
        "upload intent authorization is invalid"
    ok (record {
      version = version;
      source_commit = commit;
      namespace = namespace;
      deployment_name = name;
      portal_sha256 = portal_sha256;
      fields = fs;
    })

  -- `validate_intent(load_json(path))`
  unfoldable pub load_intent : FilePath → Result Intent
  load_intent path = do fs ← load_json host path; validate_intent fs

  unfoldable pub create_intent :
      Repository
      → Archive
      → Archive
      → FilePath
      → String
      → String
      → String
      → String
      → String
      → Result Fields
  create_intent repository archive portal_bundle public_key version commit tag namespace
        publishing =
      do
        reject_if (not (fullmatch version_pattern version) || not (tag == "v" <> version))
            "release version and tag are invalid"
        reject_if (not (fullmatch commit_hash commit)) "source commit is invalid"
        reject_if (not (fullmatch namespace_pattern namespace)) "namespace is invalid"
        key ← regular_file (some (1024 * 1024)) public_key
        manifest ← repository_manifest host repository version
        archive_files ← validate_archive host archive repository version Bool.false
        portal_files ← validate_archive host portal_bundle repository version Bool.true
        reject_if (not (eqb archive_files manifest.1))
            "reviewed repository archive does not contain the exact repository"
        portal_sha256 ← sha256_file host portal_bundle.file
        archive_sha256 ← sha256_file host archive.file
        key_sha256 ← sha256_file host public_key
        ok (
            field "schema" (str "latchway.maven-central-upload-intent.v2") (
              field "repository" (str "Latchway/latchway-android") (
                field "source_commit" (str commit) (
                  field "release_tag" (str tag) (
                    field "version" (str version) (
                      field "namespace" (str namespace) (
                        field "deployment_name"
                          (str (deployment_name_of version commit portal_sha256))
                          (field "publishing_type" (str publishing) (
                            field "reviewed_repository_archive_sha256" (str archive_sha256) (
                              field "reviewed_repository_manifest_sha256" (str manifest.0) (
                                field "reviewed_repository_file_count" (int (pos manifest.1)) (
                                  field "reviewed_portal_bundle_sha256" (str portal_sha256) (
                                    field "reviewed_portal_bundle_file_count"
                                      (int (pos portal_files))
                                      (field "reviewed_public_key_sha256" (str key_sha256) (
                                        field "expected_purls"
                                          (str_list (expected_purls namespace version))
                                          (field "authorization" (str "recoverable_exact_upload")
                                            end))))))))))))))))

  unfoldable pub validate_intent_inputs :
      FilePath → Repository → Archive → Archive → FilePath → Result (Unit {0})
  validate_intent_inputs intent_path repository archive portal_bundle public_key = do
    intent ← load_intent intent_path
    key ← regular_file (some (1024 * 1024)) public_key
    manifest ← repository_manifest host repository intent.version
    archive_files ← validate_archive host archive repository intent.version Bool.false
    portal_files ← validate_archive host portal_bundle repository intent.version Bool.true
    archive_sha256 ← sha256_file host archive.file
    portal_sha256 ← sha256_file host portal_bundle.file
    key_sha256 ← sha256_file host public_key
    reject_if (not (eqb archive_files manifest.1))
        "reviewed archive is not equivalent to the reviewed repository"
    check_fields "upload intent " " does not match the supplied release input"
        (field "reviewed_repository_archive_sha256" (str archive_sha256) (
          field "reviewed_repository_manifest_sha256" (str manifest.0) (
            field "reviewed_repository_file_count" (int (pos manifest.1)) (
              field "reviewed_portal_bundle_sha256" (str portal_sha256) (
                field "reviewed_portal_bundle_file_count" (int (pos portal_files))
                  (field "reviewed_public_key_sha256" (str key_sha256) end))))))
        intent.fields
