-- ===== src/Tests/Gateway.antt =====
-- A signed statement of one gateway with one Android client, and its files.
use latchway_android.Base.{
  ℕ, zero, suc, ◌++◌, ◌≤◌, String, ◌<>◌, ◌≡◌, refl, true, false, Option, none, some, List, [], ◌∷◌,
  length, Result, ok, eqb, ◌==◌, String-discrete, member, subset, same_set, if◌then◌else◌, split_on,
  has_outer_space, decimal, has_char,
}
use latchway_android.Regex.{fullmatch}
use latchway_android.Json.{
  Json, bool, str, arr, obj, nil, cons, Fields, end, field, keys, get, keys_are, eq_str,
  str_matches, is_bool, has_duplicate,
}
use latchway_android.GpgStatus.Text.{ends_with}
use latchway_android.Gateway.{Request, Summary, verify_deployment}
use latchway_android.Gateway.Constants
use latchway_android.Gateway.Inputs
use latchway_android.Gateway.Inputs.{
  Url, Timestamp, Process, Openssl, Runtime, Stat, Opening, read_regular_file,
}
use latchway_android.Gateway.Origin
use latchway_android.Gateway.Origin.{canonical_origin, port_text}
use latchway_android.Gateway.Clients
use latchway_android.Gateway.Clients.{validate_client}
use latchway_android.Gateway.Statement
use latchway_android.Gateway.Statement.{Expected}
use latchway_android.Gateway.Signature
use latchway_android.Gateway.Reads.{IsGuarded, read_regular_file-IsGuarded}
use latchway_android.Gateway.Canonical.{IsCanonicalUrl, canonical_origin-IsCanonicalUrl}
use latchway_android.Gateway.Policy.{IsReleaseClient, validate_client-IsReleaseClient}
use latchway_android.Gateway.Soundness.{IsDeployment, verify_deployment-IsDeployment}

abbrev hex64 : String
hex64 = "0123456789abcdef0123456789abcdef0123456789abcdef0123456789abcdef"

abbrev commit : String
commit = "0123456789abcdef0123456789abcdef01234567"

abbrev origin : String
origin = "https://gateway.example.com:8443/v1"

abbrev client : Fields
client = field "platform" (str "android_play_integrity") (
    field "application_identifier" (str "dev.latchway.app") (
      field "app_version" (str "1.0.0") (
        field "build_number" (str "7") (
          field "signing_certificate_sha256" (str hex64) (
            field "cloud_project_number" (str "123") (
              field "installer_package" (str "com.android.vending") (
                field "play_track" (str "internal") (
                  field "provider" (str "play_integrity") (
                    field "minimum_trust_level" (str "device_verified") (
                      field "require_request_hash" (bool true) (
                        field "require_play_recognized" (bool true) (
                          field "require_licensed" (bool true) (
                            field "allow_testing" (bool false)
                              (field "allow_debug" (bool false) end))))))))))))))

abbrev statement : Fields
statement = field "schema_version" (str "latchway.gateway-deployment-statement.v1") (
    field "audience" (str "latchway-physical-evidence") (
      field "key_id" (str "key-1") (
        field "deployment_id" (str "d-1") (
          field "gateway_origin" (str origin) (
            field "environment" (str "staging") (
              field "issued_at" (str "2026-01-01T00:00:00Z") (
                field "expires_at" (str "2026-01-01T12:00:00Z") (
                  field "core_commit" (str commit) (
                    field "contract_version" (str "1.2.0-rc.1") (
                      field "contract_bundle_sha256" (str hex64) (
                        field "gateway_image_digest" (str ("sha256:" <> hex64)) (
                          field "gateway_configuration_sha256" (str hex64)
                            (field "clients" (arr (cons (obj client) nil)) end)))))))))))))

abbrev texts : List ℕ → Option String
texts [] = none
texts (b ∷ _) = if eqb b 1 then some "statement" else some "policy"

abbrev documents : String → Option Json
documents text = if text == "statement" then some (obj statement) else some (obj client)

abbrev encoded : Json → Option (List ℕ)
encoded (obj fs) = if member "clients" (keys fs) then some (1 ∷ []) else some (4 ∷ [])
encoded _ = none

abbrev url : Url
url = record {
  scheme = "https";
  netloc = "gateway.example.com:8443";
  path = "/v1";
  query = "";
  fragment = "";
  hostname = some "gateway.example.com";
  port = some 8443;
  username = none;
  password = none;
}

abbrev zeros : ℕ → List ℕ
zeros zero = []
zeros (suc n) = 0 ∷ zeros n

abbrev key : List ℕ
key = Constants.p256_spki_prefix ++ zeros 64

abbrev host : Runtime
host = record {
  sha256 = λ bytes. hex64;
  utf8 = texts;
  loads = documents;
  dumps = encoded;
  text_of = λ value. "";
  urlsplit = λ text. some url;
  fromisoformat = λ text. some (record {
    instant = if text == "2026-01-01T00:00:00+00:00" then 63902822400000000 else 63902865600000000;
    utc = true;
  });
  openssl = some (record {
    convert = λ bytes. some (record { returncode = 0; stdout = key });
    verify = λ k s b. some (record { returncode = 0; stdout = [] });
  });
}

abbrev stat : Stat
stat = record { regular = true; link = false; device = 1; inode = 2; size = 1 }

abbrev opening : ℕ → Opening
opening b = record {
  initial = some stat;
  opens = true;
  info = some stat;
  reads = some (b ∷ []) ∷ [];
}

abbrev request : Request
request = record {
  statement = opening 1;
  signature = opening 2;
  public_key = opening 3;
  client_policy = opening 4;
  public_key_sha256 = hex64;
  expected = record {
    key_id = "key-1";
    gateway_origin = origin;
    environment = "staging";
    core_commit = commit;
    contract_version = "1.2.0-rc.1";
    contract_bundle_sha256 = hex64;
    gateway_image_digest = "sha256:" <> hex64;
    gateway_configuration_sha256 = hex64;
  };
  now = 63902826000000000;
}

abbrev summary : Summary
summary = record {
  deployment_id = str "d-1";
  expires_at = str "2026-01-01T12:00:00Z";
  key_id = str "key-1";
  statement_sha256 = hex64;
}

run_origin : Runtime → Json → Result String
unfolding canonical_origin Origin.origin_text Origin.check_url Origin.has_upper Origin.valid_label
    Origin.valid_path Origin.valid_port Origin.port_text Constants.label_pattern
    Constants.path_pattern split_on has_outer_space decimal has_char ends_with fullmatch
    String-discrete member
run_origin = canonical_origin

origin_accepted : canonical_origin host (str origin) ≡ ok origin
unfolding run_origin
origin_accepted = refl

canonical_origin-IsCanonicalUrl_example :
    (found : Url) × (hostname : String) × (str origin ≡ str origin)
    × (host.urlsplit origin ≡ some found)
    × IsCanonicalUrl found hostname
    × (origin ≡ "https://" <> hostname <> port_text found.port <> found.path)
canonical_origin-IsCanonicalUrl_example =
    canonical_origin-IsCanonicalUrl host (str origin) origin origin_accepted

run_client : Json → Result Fields
unfolding validate_client Clients.check_platform Clients.check_android Clients.check_ios
    Clients.in_set Clients.bounded_text Constants.identifier Constants.hash_pattern
    Constants.team_id_pattern Constants.cloud_project get keys_are eq_str str_matches is_bool
    fullmatch String-discrete member subset same_set
run_client = validate_client

client_accepted : validate_client (obj client) ≡ ok client
unfolding run_client
client_accepted = refl

validate_client-IsReleaseClient_example : IsReleaseClient (obj client) client
validate_client-IsReleaseClient_example =
    validate_client-IsReleaseClient (obj client) client client_accepted

run_read : Opening → ℕ → String → Result (List ℕ)
unfolding read_regular_file Inputs.read_chunks
run_read = read_regular_file

abbrev first_bytes : List ℕ
first_bytes = 1 ∷ []

read_accepted : read_regular_file (opening 1) 32768 "statement" ≡ ok first_bytes
unfolding run_read
read_accepted = refl

read_regular_file-IsGuarded_example : IsGuarded (opening 1) × (length first_bytes ≤ 32768)
read_regular_file-IsGuarded_example =
    read_regular_file-IsGuarded (opening 1) 32768 "statement" first_bytes read_accepted

run : Runtime → Request → Result Summary
unfolding verify_deployment run_origin run_client run_read Inputs.load_canonical_json
    Inputs.canonical_json Inputs.run_hooks Inputs.same_bytes has_duplicate Clients.same_client
    Clients.same_values Clients.same_scalar Statement.validate_expected Statement.validate_statement
    Statement.check_header Statement.check_expected Statement.check_validity
    Statement.parse_timestamp Statement.utc_offset Statement.check_clients
    Statement.validate_clients Statement.check_duplicates Statement.has_identity
    Statement.member_bytes Statement.count_matches Statement.shown Signature.verify_signature
    Signature.starts_with_bytes Constants.bounded_id Constants.environment_pattern
    Constants.core_commit_pattern Constants.contract_semver Constants.oci_digest
    Constants.rfc3339_utc
run = verify_deployment

accepted : verify_deployment host request ≡ ok summary
unfolding run
accepted = refl

verify_deployment-IsDeployment_example : IsDeployment host request summary
verify_deployment-IsDeployment_example =
    verify_deployment-IsDeployment host request summary accepted
