-- ===== src/Gateway/Constants.antt =====
-- The constants and patterns of the deployment verifier.
use latchway_android.Base.{ℕ, ◌*◌, String, List, [], ◌∷◌}
use latchway_android.Regex.{
  Regex, CharClass, chars, seq, alt, star, opt, plus, char, one, lit, repeated, up_to,
}

abbrev pub maximum_statement_bytes : ℕ
maximum_statement_bytes = 32 * 1024

abbrev pub maximum_client_policy_bytes : ℕ
maximum_client_policy_bytes = 8 * 1024

abbrev pub maximum_public_key_bytes : ℕ
maximum_public_key_bytes = 8 * 1024

abbrev pub maximum_signature_bytes : ℕ
maximum_signature_bytes = 256

-- `dt.timedelta(hours=24)` and `dt.timedelta(minutes=5)` in microseconds.
abbrev pub maximum_validity : ℕ
maximum_validity = 24 * 3600 * 1000000

abbrev pub clock_skew : ℕ
clock_skew = 5 * 60 * 1000000

abbrev pub top_level_fields : List String
top_level_fields =
    "schema_version" ∷ "audience" ∷ "key_id" ∷ "deployment_id" ∷ "gateway_origin" ∷ "environment"
    ∷ "issued_at" ∷ "expires_at" ∷ "core_commit" ∷ "contract_version" ∷ "contract_bundle_sha256"
    ∷ "gateway_image_digest" ∷ "gateway_configuration_sha256" ∷ "clients" ∷ []

abbrev pub ios_client_fields : List String
ios_client_fields =
    "platform" ∷ "application_identifier" ∷ "app_version" ∷ "build_number" ∷ "team_id"
    ∷ "signing_certificate_sha256" ∷ "app_attest_environment" ∷ "provider" ∷ "minimum_trust_level"
    ∷ "require_request_hash" ∷ "require_play_recognized" ∷ "require_licensed" ∷ "allow_testing"
    ∷ "allow_debug" ∷ []

abbrev pub android_client_fields : List String
android_client_fields =
    "platform" ∷ "application_identifier" ∷ "app_version" ∷ "build_number"
    ∷ "signing_certificate_sha256" ∷ "cloud_project_number" ∷ "installer_package" ∷ "play_track"
    ∷ "provider" ∷ "minimum_trust_level" ∷ "require_request_hash" ∷ "require_play_recognized"
    ∷ "require_licensed" ∷ "allow_testing" ∷ "allow_debug" ∷ []

abbrev pub ios_platforms : List String
ios_platforms = "ios_app_attest" ∷ "react_native_ios_app_attest" ∷ []

abbrev pub android_platforms : List String
android_platforms = "android_play_integrity" ∷ "react_native_android_play_integrity" ∷ []

abbrev pub trust_levels : List String
trust_levels = "device_verified" ∷ "strong_device_verified" ∷ []

abbrev pub play_tracks : List String
play_tracks = "internal" ∷ "closed" ∷ "open" ∷ "production" ∷ []

abbrev hex : CharClass
hex = (b'0', b'9') ∷ (b'a', b'f') ∷ []

abbrev letters : CharClass
letters = (b'A', b'Z') ∷ (b'a', b'z') ∷ (b'0', b'9') ∷ []

abbrev small_letters : CharClass
small_letters = (b'a', b'z') ∷ (b'0', b'9') ∷ []

-- COMMIT
unfoldable pub core_commit_pattern : Regex
core_commit_pattern = repeated 40 (chars hex)

-- SHA256
unfoldable pub hash_pattern : Regex
hash_pattern = repeated 64 (chars hex)

unfoldable pub oci_digest : Regex
oci_digest = seq (lit "sha256:") (repeated 64 (chars hex))

-- `0|[1-9][0-9]*`
abbrev number : Regex
number = alt (char b'0') (seq (chars ((b'1', b'9') ∷ [])) (star (chars ((b'0', b'9') ∷ []))))

-- `[0-9A-Za-z-]+(?:\.[0-9A-Za-z-]+)*` after a mark.
abbrev labels_after : ℕ → Regex
labels_after mark = opt (
    seq (char mark) (
      seq (plus (chars (one b'-' ∷ letters)))
        (star (seq (char b'.') (plus (chars (one b'-' ∷ letters)))))))

unfoldable pub contract_semver : Regex
contract_semver = seq number (
    seq (char b'.')
      (seq number (seq (char b'.') (seq number (seq (labels_after b'-') (labels_after b'+'))))))

-- `r{lo,lo+n}`
unfoldable pub identifier : Regex
identifier = seq (chars letters) (
    seq (repeated 2 (chars (one b'.' ∷ one b'_' ∷ one b'-' ∷ letters)))
      (up_to 252 (chars (one b'.' ∷ one b'_' ∷ one b'-' ∷ letters))))

unfoldable pub bounded_id : Regex
bounded_id =
    seq (chars letters) (up_to 127 (chars (one b'.' ∷ one b'_' ∷ one b':' ∷ one b'-' ∷ letters)))

unfoldable pub environment_pattern : Regex
environment_pattern =
    seq (chars small_letters) (up_to 63 (chars (one b'.' ∷ one b'_' ∷ one b'-' ∷ small_letters)))

unfoldable pub team_id_pattern : Regex
team_id_pattern = repeated 10 (chars ((b'A', b'Z') ∷ (b'0', b'9') ∷ []))

unfoldable pub cloud_project : Regex
cloud_project = seq (chars ((b'1', b'9') ∷ [])) (up_to 18 (chars ((b'0', b'9') ∷ [])))

abbrev digits : ℕ → Regex
digits n = repeated n (chars ((b'0', b'9') ∷ []))

unfoldable pub rfc3339_utc : Regex
rfc3339_utc = seq (digits 4) (
    seq (char b'-') (
      seq (digits 2) (
        seq (char b'-') (
          seq (digits 2) (
            seq (char b'T') (
              seq (digits 2) (
                seq (char b':') (
                  seq (digits 2) (
                    seq (char b':') (
                      seq (digits 2) (
                        seq (opt (seq (char b'.') (seq (digits 1) (up_to 5 (digits 1)))))
                          (char b'Z'))))))))))))

-- The expressions of `canonical_origin`.
unfoldable pub label_pattern : Regex
label_pattern =
    seq (chars small_letters)
      (opt (seq (star (chars (one b'-' ∷ small_letters))) (chars small_letters)))

abbrev segment : Regex
segment = seq (char b'/') (plus (chars (one b'_' ∷ one b'~' ∷ one b'.' ∷ one b'-' ∷ letters)))

unfoldable pub path_pattern : Regex
path_pattern = seq segment (star segment)

-- `P256_SPKI_PREFIX`
abbrev pub p256_spki_prefix : List ℕ
p256_spki_prefix =
    0x30 ∷ 0x59 ∷ 0x30 ∷ 0x13 ∷ 0x06 ∷ 0x07 ∷ 0x2a ∷ 0x86 ∷ 0x48 ∷ 0xce ∷ 0x3d ∷ 0x02 ∷ 0x01 ∷ 0x06
    ∷ 0x08 ∷ 0x2a ∷ 0x86 ∷ 0x48 ∷ 0xce ∷ 0x3d ∷ 0x03 ∷ 0x01 ∷ 0x07 ∷ 0x03 ∷ 0x42 ∷ 0x00 ∷ 0x04 ∷ []
