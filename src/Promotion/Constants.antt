-- ===== src/Promotion/Constants.antt =====
-- The sets, bounds and patterns at the head of scripts/verify-release-promotion.py.
use latchway_android.Base.{ℕ, ◌*◌, String, List, [], ◌∷◌, ◌++◌}
use latchway_android.Regex.{
  CharClass, Regex, chars, seq, alt, star, one, char, lit, repeated, up_to, opt, plus,
}
use latchway_android.Clock.{decimal_digits}

abbrev pub maximum_report_bytes : ℕ
maximum_report_bytes = 2 * 1024 * 1024

abbrev pub maximum_local_metadata_bytes : ℕ
maximum_local_metadata_bytes = 1024 * 1024

-- Seven days, in seconds.
abbrev pub maximum_age : ℕ
maximum_age = 604800

abbrev pub repository_ids : List String
repository_ids = "core" ∷ "javascript" ∷ "ios" ∷ "android" ∷ "react_native" ∷ []

abbrev pub promotion_domains : List String
promotion_domains =
    "live_sdk_conformance" ∷ "physical_devices" ∷ "live_provider" ∷ "cloud_deployments"
    ∷ "operational_resilience" ∷ "supply_chain" ∷ []

abbrev pub publication_domains : List String
publication_domains = "public_tags" ∷ "public_registries" ∷ []

abbrev pub local_domains : List String
local_domains = "local_source" ∷ "local_promotion" ∷ "local_release" ∷ []

abbrev pub all_domains : List String
all_domains = local_domains ++ promotion_domains ++ publication_domains

abbrev pub report_fields : List String
report_fields =
    "schema_version" ∷ "kind" ∷ "scope" ∷ "verdict" ∷ "source_conformance_passed"
    ∷ "promotion_ready" ∷ "release_ready" ∷ "contract" ∷ "repositories" ∷ "evidence_window"
    ∷ "evidence_domains" ∷ "checks" ∷ []

abbrev pub contract_fields : List String
contract_fields =
    "version" ∷ "status" ∷ "released_at" ∷ "wire_protocol" ∷ "bundle_file_name" ∷ "bundle_sha256"
    ∷ "core_release" ∷ "oci_image_digest" ∷ []

abbrev pub domain_fields : List String
domain_fields =
    "id" ∷ "required" ∷ "status" ∷ "started_at" ∷ "finished_at" ∷ "document_sha256"
    ∷ "oci_image_digest" ∷ "artifact_sha256" ∷ []

abbrev pub check_fields : List String
check_fields = "id" ∷ "domain" ∷ "required" ∷ "status" ∷ "summary" ∷ "reason" ∷ "details" ∷ []

abbrev pub required_domains : List String
required_domains = "local_source" ∷ "local_promotion" ∷ promotion_domains

abbrev pub decimal : Regex
decimal = chars decimal_digits

-- `(?:0|[1-9]\d*)`
abbrev pub number : Regex
number = alt (char b'0') (seq (chars ((b'1', b'9') ∷ [])) (star decimal))

-- `[0-9A-Za-z-]`
abbrev pub label : CharClass
label = (b'0', b'9') ∷ (b'A', b'Z') ∷ (b'a', b'z') ∷ one b'-' ∷ []

unfoldable pub semver : Regex
semver = seq number (
    seq (char b'.') (
      seq number (
        seq (char b'.') (
          seq number (
            opt (
              seq (char b'-')
                (seq (plus (chars label)) (star (seq (char b'.') (plus (chars label)))))))))))

unfoldable pub tag_pattern : Regex
unfolding semver
tag_pattern = seq (char b'v') semver

abbrev pub hex : CharClass
hex = (b'0', b'9') ∷ (b'a', b'f') ∷ []

unfoldable pub commit_pattern : Regex
commit_pattern = repeated 40 (chars hex)

unfoldable pub sha256_pattern : Regex
sha256_pattern = repeated 64 (chars hex)

unfoldable pub oci_digest_pattern : Regex
oci_digest_pattern = seq (lit "ghcr.io/latchway/latchway@sha256:") (repeated 64 (chars hex))

-- `\d{4}-\d{2}-\d{2}T\d{2}:\d{2}:\d{2}Z`
unfoldable pub canonical_time : Regex
canonical_time = seq (repeated 4 decimal) (
    seq (char b'-') (
      seq (repeated 2 decimal) (
        seq (char b'-') (
          seq (repeated 2 decimal) (
            seq (char b'T') (
              seq (repeated 2 decimal) (
                seq (char b':') (
                  seq (repeated 2 decimal)
                    (seq (char b':') (seq (repeated 2 decimal) (char b'Z')))))))))))

-- `[a-z][a-z0-9_.]{0,127}`
unfoldable pub check_identifier : Regex
check_identifier =
    seq (chars ((b'a', b'z') ∷ []))
      (up_to 127 (chars ((b'a', b'z') ∷ (b'0', b'9') ∷ one b'_' ∷ one b'.' ∷ [])))

-- `[a-z][a-z0-9_]{0,127}`
unfoldable pub domain_identifier : Regex
domain_identifier =
    seq (chars ((b'a', b'z') ∷ []))
      (up_to 127 (chars ((b'a', b'z') ∷ (b'0', b'9') ∷ one b'_' ∷ [])))

-- `[A-Za-z0-9_.-]{1,128}`
unfoldable pub diagnostic_key : Regex
diagnostic_key =
    let key : Regex =
      chars ((b'A', b'Z') ∷ (b'a', b'z') ∷ (b'0', b'9') ∷ one b'_' ∷ one b'.' ∷ one b'-' ∷ []) in
    seq key (up_to 127 key)
