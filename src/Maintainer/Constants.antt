-- ===== src/Maintainer/Constants.antt =====
-- The constants of the script.
use latchway_android.Base.{ℕ, String, List, [], ◌∷◌}
use latchway_android.Regex.{Regex, CharClass, chars, repeated, seq, up_to}

abbrev pub profile : String
profile = "single_maintainer_v1"

abbrev pub repository : String
repository = "Latchway/latchway-android"

abbrev pub version : String
version = "1.0.0"

abbrev pub release_tag : String
release_tag = "v1.0.0"

abbrev pub confirmation : String
confirmation = "publish-v1.0.0-with-deferred-assurance"

abbrev hex_digits : CharClass
hex_digits = (b'0', b'9') ∷ (b'a', b'f') ∷ []

unfoldable pub commit_id : Regex
commit_id = repeated 40 (chars hex_digits)

unfoldable pub sha256_hash : Regex
sha256_hash = repeated 64 (chars hex_digits)

unfoldable pub run_number : Regex
run_number = seq (chars ((b'1', b'9') ∷ [])) (up_to 15 (chars ((b'0', b'9') ∷ [])))

abbrev pub maximum_json_safe_integer : ℕ
maximum_json_safe_integer = 9007199254740991

abbrev pub deferred_evidence : List String
deferred_evidence =
    "independent_human_review" ∷ "live_sdk_conformance" ∷ "physical_devices"
    ∷ "apple_distribution_and_extensions" ∷ "play_integrity_and_android_device"
    ∷ "firebase_app_check" ∷ "turnstile" ∷ "live_provider" ∷ "cloud_deployments"
    ∷ "operational_resilience" ∷ "public_registries.documentation_production_verified"
    ∷ "mintlify_production" ∷ []

abbrev pub forbidden_claims : List String
forbidden_claims = "release_qualified" ∷ "fully_evidence_gated" ∷ "independently_reviewed" ∷ []

abbrev pub maven_coordinates : List String
maven_coordinates =
    "dev.latchway:latchway-core:1.0.0" ∷ "dev.latchway:latchway-okhttp:1.0.0"
    ∷ "dev.latchway:latchway-play-integrity:1.0.0" ∷ "dev.latchway:latchway-firebase-auth:1.0.0"
    ∷ "dev.latchway:latchway-bom:1.0.0" ∷ []

abbrev pub downstream_gates : List String
downstream_gates =
    "complete_local_release_tests_before_tag" ∷ "dependency_vulnerability_scan_before_tag"
    ∷ "deterministic_maven_repository_before_tag" ∷ "annotated_tag_exact_commit"
    ∷ "openpgp_signed_maven_artifacts" ∷ "exact_maven_central_byte_verification"
    ∷ "build_provenance_attestation" ∷ "exact_github_release" ∷ []
