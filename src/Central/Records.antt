-- ===== src/Central/Records.antt =====
-- The deployment record: `record_common`, `create_record`, `public_manifest_from_evidence`,
-- `create_adoption_record` and `validate_record`.
use Prim.Native.Char.{Char, code}
use latchway_android.Base.{
  String, not, List, [], ◌∷◌, ◌++◌, ◌||◌, Result, ok, err, rejected, reject_if, ◌>>=◌, ◌>>◌,
  if◌then◌else◌, eqb,
}
use latchway_android.Disk.{FilePath}
use latchway_android.Regex.{fullmatch}
use latchway_android.Json.{
  Json, null, str, Fields, end, field, get_last, keys_are, as_str, eq_str, eq_num, is_null,
  str_matches,
}
use latchway_android.Central.Paths.{expected_purls}
use latchway_android.Central.Inputs.{
  Runtime, sha256_hash, uuid_pattern, check_fields, str_list, sha256_file, load_json,
}
use latchway_android.Central.Intents.{Intent, load_intent}

-- `text.lower()` of a UUID: only A to F have a lower case.
unfoldable pub lower_digit : Char → Char
lower_digit c =
    if eqb (code c) 65
    then "a"
    else if eqb (code c) 66
    then "b"
    else if eqb (code c) 67
    then "c"
    else if eqb (code c) 68
    then "d"
    else if eqb (code c) 69
    then "e"
    else if eqb (code c) 70
    then "f"
    else c

unfoldable pub lower : String → String
unfolding lower_digit
lower String.[] = String.[]
lower (String.◌∷◌ c s) = String.◌∷◌ (lower_digit c) (lower s)

abbrev pub common_keys : List String
common_keys =
    "schema" ∷ "intent_sha256" ∷ "deployment_name" ∷ "publishing_type" ∷ "namespace" ∷ "version"
    ∷ "source_commit" ∷ "expected_purls" ∷ "reviewed_portal_bundle_sha256" ∷ []

-- The fields that all records of an intent share, in front of others.
unfoldable pub common_fields : Intent → String → Fields → Fields
common_fields intent intent_sha256 more =
    field "schema" (str "latchway.maven-central-deployment.v2") (
      field "intent_sha256" (str intent_sha256) (
        field "deployment_name" (str intent.deployment_name) (
          field "publishing_type" (str "user_managed") (
            field "namespace" (str intent.namespace) (
              field "version" (str intent.version) (
                field "source_commit" (str intent.source_commit) (
                  field "expected_purls" (str_list (expected_purls intent.namespace intent.version))
                    (field "reviewed_portal_bundle_sha256" (str intent.portal_sha256) more))))))))

-- A record that was validated: its object and the three fields that its kind decides.
pub record DeploymentRecord : Type 0 where
  pub fields : Fields
  pub kind : Json
  pub deployment_id : Json
  pub manifest : Json

module _ (host : Runtime) where
  unfoldable pub record_common : FilePath → Result (Intent × String)
  record_common intent_path = do
    intent ← load_intent host intent_path
    sha256 ← sha256_file host intent_path
    ok (intent, sha256)

  unfoldable pub create_record : FilePath → String → Result Fields
  create_record intent_path deployment_id = do
    common ← record_common intent_path
    reject_if (not (fullmatch uuid_pattern deployment_id)) "Portal deployment ID is not a UUID"
    ok (
        common_fields common.0 common.1 (
          field "record_kind" (str "portal_deployment") (
            field "deployment_id" (str (lower deployment_id))
              (field "public_manifest_sha256" null end))))

  unfoldable pub public_manifest_from_evidence : FilePath → String → Result String
  public_manifest_from_evidence path version = do
    evidence ← load_json host path
    reject_if
        (not (eq_num (get_last "schema_version" evidence) 2)
          || not (eq_str (get_last "registry" evidence) "maven_central"))
        "public registry evidence schema is invalid"
    reject_if
        (not (eq_str (get_last "namespace" evidence) "dev.latchway")
          || not (eq_str (get_last "version" evidence) version))
        "public registry evidence coordinates are invalid"
    digest ←
        as_str (get_last "public_manifest_sha256" evidence)
          "public registry evidence manifest is invalid"
    reject_if (not (fullmatch sha256_hash digest)) "public registry evidence manifest is invalid"
    ok digest

  unfoldable pub create_adoption_record : FilePath → FilePath → Result Fields
  create_adoption_record intent_path evidence_path = do
    common ← record_common intent_path
    digest ← public_manifest_from_evidence evidence_path common.0.version
    ok (
        common_fields common.0 common.1 (
          field "record_kind" (str "public_registry_adoption")
            (field "deployment_id" null (field "public_manifest_sha256" (str digest) end))))

-- What the two kinds of records ask of the other fields.
unfoldable pub check_kind : Fields → Result (Unit {0})
check_kind record_fields =
    if eq_str (get_last "record_kind" record_fields) "portal_deployment"
    then (do
      reject_if (not (str_matches uuid_pattern (get_last "deployment_id" record_fields)))
          "deployment record ID is invalid"
      reject_if (not (is_null (get_last "public_manifest_sha256" record_fields)))
          "Portal deployment record contains adoption state")
    else if eq_str (get_last "record_kind" record_fields) "public_registry_adoption"
    then (do
      reject_if (not (is_null (get_last "deployment_id" record_fields)))
          "public adoption record contains a Portal deployment ID"
      reject_if (not (str_matches sha256_hash (get_last "public_manifest_sha256" record_fields)))
          "public adoption manifest is invalid")
    else err (rejected "deployment record kind is invalid")

unfoldable pub validate_record : Runtime → FilePath → FilePath → Result DeploymentRecord
validate_record host intent_path record_path = do
  common ← record_common host intent_path
  fs ← load_json host record_path
  reject_if
      (not (
          keys_are fs
            (common_keys ++ "record_kind" ∷ "deployment_id" ∷ "public_manifest_sha256" ∷ []))
        || not (eq_str (get_last "schema" fs) "latchway.maven-central-deployment.v2"))
      "deployment record schema is invalid"
  check_fields "deployment record " " does not match the upload intent"
      (common_fields common.0 common.1 end) fs
  check_kind fs
  ok (record {
    fields = fs;
    kind = get_last "record_kind" fs;
    deployment_id = get_last "deployment_id" fs;
    manifest = get_last "public_manifest_sha256" fs;
  })
