-- ===== src/Gateway/Statement.antt =====
-- `validate_expected_arguments`, `parse_timestamp` and `validate_statement`.
use latchway_android.Base.{
  ℕ, ◌+◌, ◌-◌, String, ◌<>◌, Bool, false, not, List, [], ◌∷◌, ◌&&◌, ◌||◌, leb, ltb, eqb, ◌==◌,
  if◌then◌else◌, codes, length, Result, ok, reject_if, ◌>>=◌, ◌>>◌,
}
use latchway_android.Regex.{Regex, fullmatch}
use latchway_android.Json.{
  Json, str, obj, Fields, get, keys_are, as_obj, as_arr, as_str, eq_str, str_matches,
}
use latchway_android.Gateway.Constants.{
  maximum_validity, clock_skew, top_level_fields, core_commit_pattern, hash_pattern, oci_digest,
  contract_semver, bounded_id, environment_pattern, rfc3339_utc,
}
use latchway_android.Gateway.Inputs.{Runtime, or_reject, same_bytes, canonical_json}
use latchway_android.Gateway.Origin.{canonical_origin}
use latchway_android.Gateway.Clients.{validate_client, same_client, same_scalar}

-- The arguments of the command line, and what `validate_expected_arguments` makes of them.
pub record Expected : Type 0 where
  pub key_id : String
  pub gateway_origin : String
  pub environment : String
  pub core_commit : String
  pub contract_version : String
  pub contract_bundle_sha256 : String
  pub gateway_image_digest : String
  pub gateway_configuration_sha256 : String

-- `str(value.get(name, ""))`
unfoldable pub shown : Runtime → Json → String
shown host (str s) = s
shown host value = host.text_of value

-- `dict[str, str].items()`, in the order of the literal.
abbrev pub expected_items : Expected → List (String × String)
expected_items e =
    ("key_id", e.key_id)
    ∷ ("gateway_origin", e.gateway_origin)
    ∷ ("environment", e.environment)
    ∷ ("core_commit", e.core_commit)
    ∷ ("contract_version", e.contract_version)
    ∷ ("contract_bundle_sha256", e.contract_bundle_sha256)
    ∷ ("gateway_image_digest", e.gateway_image_digest)
    ∷ ("gateway_configuration_sha256", e.gateway_configuration_sha256)
    ∷ []

-- `hmac.compare_digest` is equality of texts; `origin` stands for the field of the origin.
unfoldable pub check_expected : Fields → String → List (String × String) → Result (Unit {0})
check_expected fs origin [] = ok tt
check_expected fs origin ((name, expected) ∷ more) = do
  reject_if (not (eq_str (if name == "gateway_origin" then str origin else get name fs) expected))
      ("statement_" <> name <> "_mismatch")
  check_expected fs origin more

-- The loop over the validated clients: no two with one identity or one encoding.
unfoldable pub member_bytes : List ℕ → List (List ℕ) → Bool
member_bytes b [] = false
member_bytes b (c ∷ cs) = same_bytes b c || member_bytes b cs

unfoldable pub same_identity : Fields → Fields → Bool
same_identity fs gs =
    same_scalar (get "platform" fs) (get "platform" gs)
    && same_scalar (get "application_identifier" fs) (get "application_identifier" gs)

unfoldable pub has_identity : Fields → List Fields → Bool
has_identity fs [] = false
has_identity fs (gs ∷ more) = same_identity fs gs || has_identity fs more

unfoldable pub count_matches : Fields → List Fields → ℕ
count_matches expected [] = 0
count_matches expected (fs ∷ more) =
    (if same_client fs expected then 1 else 0) + count_matches expected more

-- `value[:-1] + "+00:00"`
unfoldable pub utc_offset : String → String
utc_offset String.[] = "+00:00"
utc_offset (String.◌∷◌ c String.[]) = "+00:00"
utc_offset (String.◌∷◌ c (String.◌∷◌ d s)) = String.◌∷◌ c (utc_offset (String.◌∷◌ d s))

unfoldable pub validate_clients : List Json → Result (List Fields)
validate_clients [] = ok []
validate_clients (value ∷ more) = do
  fs ← validate_client value
  rest ← validate_clients more
  ok (fs ∷ rest)

module _ (host : Runtime) where
  -- `seen` are the clients whose identity and encoding are in the two sets.
  unfoldable pub check_duplicates : List Fields → List (List ℕ) → List Fields → Result (Unit {0})
  check_duplicates seen encodings [] = ok tt
  check_duplicates seen encodings (fs ∷ more) = do
    encoding ← canonical_json host (obj fs)
    reject_if (has_identity fs seen || member_bytes encoding encodings) "statement_client_duplicate"
    check_duplicates (fs ∷ seen) (encoding ∷ encodings) more

  unfoldable pub parse_timestamp : Json → String → Result ℕ
  parse_timestamp value label = do
    text ← as_str value (label <> "_invalid")
    reject_if (not (fullmatch rfc3339_utc text)) (label <> "_invalid")
    parsed ← or_reject (host.fromisoformat (utc_offset text)) (label <> "_invalid")
    reject_if (not parsed.utc) (label <> "_invalid")
    ok parsed.instant

  unfoldable pub validate_expected : Expected → String → Result Expected
  validate_expected q public_key_sha256 = do
    reject_if (not (fullmatch bounded_id q.key_id)) "expected_key_id_invalid"
    reject_if (not (fullmatch environment_pattern q.environment)) "expected_environment_invalid"
    reject_if (not (fullmatch core_commit_pattern q.core_commit)) "expected_core_commit_invalid"
    reject_if
        (ltb 64 (length (codes q.contract_version))
          || not (fullmatch contract_semver q.contract_version))
        "expected_contract_version_invalid"
    reject_if (not (fullmatch hash_pattern q.contract_bundle_sha256))
        "expected_contract_bundle_invalid"
    reject_if (not (fullmatch oci_digest q.gateway_image_digest)) "expected_gateway_image_invalid"
    reject_if (not (fullmatch hash_pattern q.gateway_configuration_sha256))
        "expected_gateway_configuration_invalid"
    reject_if (not (fullmatch hash_pattern public_key_sha256)) "expected_public_key_pin_invalid"
    origin ← canonical_origin host (str q.gateway_origin)
    ok (record q { gateway_origin = origin })

  -- A field of the statement whose text does not match.
  abbrev differs : Fields → String → Regex → Bool
  differs fs name pattern = not (fullmatch pattern (shown host (get name fs)))

  -- The tests on the fields before those on their values.
  unfoldable pub check_header : Fields → Result (Unit {0})
  check_header fs = do
    reject_if (not (keys_are fs top_level_fields)) "statement_fields_invalid"
    reject_if (not (eq_str (get "schema_version" fs) "latchway.gateway-deployment-statement.v1"))
        "statement_schema_invalid"
    reject_if (not (eq_str (get "audience" fs) "latchway-physical-evidence"))
        "statement_audience_invalid"
    reject_if (not (str_matches bounded_id (get "deployment_id" fs)))
        "statement_deployment_id_invalid"
    reject_if (differs fs "key_id" bounded_id) "statement_key_id_invalid"
    reject_if (differs fs "environment" environment_pattern) "statement_environment_invalid"
    reject_if (differs fs "core_commit" core_commit_pattern) "statement_core_commit_invalid"
    reject_if
        (ltb 64 (length (codes (shown host (get "contract_version" fs))))
          || differs fs "contract_version" contract_semver)
        "statement_contract_version_invalid"
    reject_if (differs fs "contract_bundle_sha256" hash_pattern) "statement_contract_bundle_invalid"
    reject_if (differs fs "gateway_image_digest" oci_digest) "statement_gateway_image_invalid"
    reject_if (differs fs "gateway_configuration_sha256" hash_pattern)
        "statement_gateway_configuration_invalid"

  -- The validity window, at the time `now`.
  unfoldable pub check_validity : Fields → ℕ → Result (Unit {0})
  check_validity fs now = do
    issued_at ← parse_timestamp (get "issued_at" fs) "statement_issued_at"
    expires_at ← parse_timestamp (get "expires_at" fs) "statement_expires_at"
    reject_if (leb expires_at issued_at || ltb maximum_validity (expires_at - issued_at))
        "statement_validity_window_invalid"
    reject_if (ltb (now + clock_skew) issued_at) "statement_not_yet_valid"
    reject_if (leb (expires_at + clock_skew) now) "statement_expired"

  unfoldable pub check_clients : Json → Fields → Result (Unit {0})
  check_clients value expected_client = do
    values ← as_arr value "statement_clients_invalid"
    reject_if (not (leb 1 (length values) && leb (length values) 64)) "statement_clients_invalid"
    clients ← validate_clients values
    check_duplicates [] [] clients
    reject_if (not (eqb (count_matches expected_client clients) 1))
        "statement_current_client_mismatch"

  unfoldable pub validate_statement : Json → Expected → Fields → ℕ → Result Fields
  validate_statement value expected expected_client now = do
    fs ← as_obj value "statement_fields_invalid"
    check_header fs
    origin ← canonical_origin host (get "gateway_origin" fs)
    check_expected fs origin (expected_items expected)
    check_validity fs now
    check_clients (get "clients" fs) expected_client
    ok fs
