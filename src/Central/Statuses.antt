-- ===== src/Central/Statuses.antt =====
-- The deployment status: `validate_portal_status`, `create_adoption_status` and
-- `validate_normalized_status`.
use latchway_android.Base.{
  String, Bool, true, false, not, List, [], ◌∷◌, ◌++◌, ◌||◌, ◌&&◌, ltb, ◌==◌, all, any, length,
  member, subset, distinct, Result, ok, err, rejected, type_error, reject_if, ◌>>=◌, ◌>>◌,
  if◌then◌else◌,
}
use latchway_android.Disk.{FilePath}
use latchway_android.Json.{
  Json, null, bool, int, float, str, arr, obj, nil, Fields, end, field, keys, get_last, keys_are,
  as_arr, eq_str, is_str, is_null,
}
use latchway_android.Central.Paths.{sorted, deduplicated, expected_purls}
use latchway_android.Central.Inputs.{
  Runtime, maximum_json_bytes, same_value, check_fields, str_list, sha256_file, sha256_bytes,
  canonical_bytes, load_json,
}
use latchway_android.Central.Intents.{load_intent}
use latchway_android.Central.Records.{
  DeploymentRecord, public_manifest_from_evidence, validate_record,
}
use latchway_android.Central.Archives.{same_list}

abbrev pub states : List String
states = "PENDING" ∷ "VALIDATING" ∷ "VALIDATED" ∷ "PUBLISHING" ∷ "PUBLISHED" ∷ "FAILED" ∷ []

abbrev pub complete_states : List String
complete_states = "VALIDATED" ∷ "PUBLISHING" ∷ "PUBLISHED" ∷ []

-- `state not in STATES`: a list or an object has no hash.
unfoldable pub read_state : Json → String → Result String
read_state (str s) code = if member s states then ok s else err (rejected code)
read_state (arr xs) code = err type_error
read_state (obj fs) code = err type_error
read_state _ code = err (rejected code)

-- A list of texts.
unfoldable pub texts_of : List Json → String → Result (List String)
texts_of [] code = ok []
texts_of (str s ∷ vs) code = do rest ← texts_of vs code; ok (s ∷ rest)
texts_of (_ ∷ vs) code = err (rejected code)

unfoldable pub is_unhashable : Json → Bool
is_unhashable (arr xs) = true
is_unhashable (obj fs) = true
is_unhashable _ = false

unfoldable pub is_number : Json → Bool
is_number (int z) = true
is_number (float x) = true
is_number (bool b) = true
is_number _ = false

-- `purls != sorted(set(purls)) or not set(purls).issubset(…)`: a member without a hash and members
-- that have no order between them raise `TypeError`, and members of another type are refused.
unfoldable pub sorted_purls : List Json → List String → String → Result (List String)
sorted_purls values expected code =
    if all is_str values
    then (do
      purls ← texts_of values code
      reject_if (not (same_list purls (sorted (deduplicated purls))) || not (subset purls expected))
          code
      ok purls)
    else if any is_unhashable values
    then err type_error
    else if all is_number values || all is_null values
    then err (rejected code)
    else err type_error

-- `raw.get("purls", [])`
unfoldable pub get_purls : Fields → Json
get_purls raw = if member "purls" (keys raw) then get_last "purls" raw else arr nil

abbrev pub status_keys : List String
status_keys =
    "schema" ∷ "intent_sha256" ∷ "record_sha256" ∷ "record_kind" ∷ "deployment_id"
    ∷ "deployment_name" ∷ "deployment_state" ∷ "purls" ∷ "public_manifest_sha256" ∷ []

-- `result["errors_sha256"]` of a failed deployment.
unfoldable pub errors_field : Runtime → String → Json → Result Fields
errors_field host state errors =
    if state == "FAILED"
    then (do
      reject_if (is_null errors) "failed Portal deployment omitted error details"
      let encoded = canonical_bytes host errors
      reject_if (ltb maximum_json_bytes (length encoded))
          "Portal deployment errors exceed the evidence bound"
      ok (field "errors_sha256" (str (sha256_bytes host encoded)) end))
    else ok end

module _ (host : Runtime) where
  unfoldable pub validate_portal_status : FilePath → FilePath → FilePath → Result Fields
  validate_portal_status intent_path record_path status_path = do
    intent ← load_intent host intent_path
    deployment ← validate_record host intent_path record_path
    reject_if (not (eq_str deployment.kind "portal_deployment"))
        "Portal status cannot be applied to a public adoption record"
    raw ← load_json host status_path
    reject_if (not (same_value (get_last "deploymentId" raw) deployment.deployment_id))
        "Portal status deployment ID mismatch"
    reject_if (not (eq_str (get_last "deploymentName" raw) intent.deployment_name))
        "Portal status deployment name mismatch"
    state ←
        read_state (get_last "deploymentState" raw) "Portal returned an unknown deployment state"
    values ← as_arr (get_purls raw) "Portal status PURLs are invalid"
    purls ← texts_of values "Portal status PURLs are invalid"
    let expected = expected_purls intent.namespace intent.version
    reject_if (not (distinct purls) || not (subset purls expected))
        "Portal status contains unexpected or duplicate PURLs"
    reject_if (member state complete_states && not (same_list (sorted purls) (sorted expected)))
        "Portal final deployment does not contain every exact coordinate"
    intent_sha256 ← sha256_file host intent_path
    record_sha256 ← sha256_file host record_path
    more ← errors_field host state (get_last "errors" raw)
    ok (
        field "schema" (str "latchway.maven-central-deployment-status.v2") (
          field "intent_sha256" (str intent_sha256) (
            field "record_sha256" (str record_sha256) (
              field "record_kind" deployment.kind (
                field "deployment_id" deployment.deployment_id (
                  field "deployment_name" (str intent.deployment_name) (
                    field "deployment_state" (str state) (
                      field "purls" (str_list (sorted purls))
                        (field "public_manifest_sha256" null more)))))))))

  unfoldable pub create_adoption_status : FilePath → FilePath → FilePath → Result Fields
  create_adoption_status intent_path record_path evidence_path = do
    intent ← load_intent host intent_path
    deployment ← validate_record host intent_path record_path
    digest ← public_manifest_from_evidence host evidence_path intent.version
    reject_if
        (not (eq_str deployment.kind "public_registry_adoption")
          || not (eq_str deployment.manifest digest))
        "public adoption record does not bind the verified public manifest"
    intent_sha256 ← sha256_file host intent_path
    record_sha256 ← sha256_file host record_path
    ok (
        field "schema" (str "latchway.maven-central-deployment-status.v2") (
          field "intent_sha256" (str intent_sha256) (
            field "record_sha256" (str record_sha256) (
              field "record_kind" deployment.kind (
                field "deployment_id" null (
                  field "deployment_name" (str intent.deployment_name) (
                    field "deployment_state" (str "PUBLISHED") (
                      field "purls"
                        (str_list (sorted (expected_purls intent.namespace intent.version)))
                        (field "public_manifest_sha256" (str digest) end)))))))))

-- `expected_keys` of a normalized status.
unfoldable pub normalized_keys : Fields → List String
normalized_keys fs =
    if eq_str (get_last "deployment_state" fs) "FAILED"
    then status_keys ++ "errors_sha256" ∷ []
    else status_keys

-- The manifest that the two kinds of records ask of a status.
unfoldable pub check_manifest : DeploymentRecord → String → Fields → Result (Unit {0})
check_manifest deployment state fs =
    if eq_str deployment.kind "public_registry_adoption"
    then reject_if
        (not (state == "PUBLISHED")
          || not (same_value (get_last "public_manifest_sha256" fs) deployment.manifest))
        "public adoption status is incomplete"
    else reject_if (not (is_null (get_last "public_manifest_sha256" fs)))
        "Portal status contains a public adoption manifest"

-- A normalized status with the values read from it.
pub record Normalized : Type 0 where
  pub state : String
  pub purls : List String
  pub kind : Json
  pub manifest : Json

unfoldable pub validate_normalized_status :
    Runtime → FilePath → FilePath → FilePath → Result Normalized
validate_normalized_status host intent_path record_path status_path = do
  intent ← load_intent host intent_path
  deployment ← validate_record host intent_path record_path
  fs ← load_json host status_path
  reject_if
      (not (keys_are fs (normalized_keys fs))
        || not (eq_str (get_last "schema" fs) "latchway.maven-central-deployment-status.v2"))
      "deployment status schema is invalid"
  intent_sha256 ← sha256_file host intent_path
  record_sha256 ← sha256_file host record_path
  check_fields "deployment status " " binding is invalid"
      (field "intent_sha256" (str intent_sha256) (
        field "record_sha256" (str record_sha256) (
          field "record_kind" deployment.kind (
            field "deployment_id" deployment.deployment_id
              (field "deployment_name" (str intent.deployment_name) end)))))
      fs
  state ← read_state (get_last "deployment_state" fs) "deployment status state is invalid"
  let expected = expected_purls intent.namespace intent.version
  values ← as_arr (get_last "purls" fs) "deployment status PURLs are invalid"
  purls ← sorted_purls values expected "deployment status PURLs are invalid"
  reject_if (member state complete_states && not (same_list purls (sorted expected)))
      "deployment status omits required coordinates"
  check_manifest deployment state fs
  ok (record {
    state = state;
    purls = purls;
    kind = get_last "record_kind" fs;
    manifest = get_last "public_manifest_sha256" fs;
  })
