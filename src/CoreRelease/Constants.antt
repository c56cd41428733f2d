-- ===== src/CoreRelease/Constants.antt =====
-- The constants of the script.
use latchway_android.Base.{ℕ, ◌*◌, String, false, List, [], ◌∷◌}
use latchway_android.Regex.{Regex, CharClass, chars, lit, repeated, seq, up_to}
use latchway_android.Json.{Json, bool, str, obj, end, field}

abbrev pub release_tag : String
release_tag = "v1.0.0"

abbrev pub version : String
version = "1.0.0"

abbrev pub core_repository : String
core_repository = "ghcr.io/latchway/latchway"

abbrev hex_digits : CharClass
hex_digits = (b'0', b'9') ∷ (b'a', b'f') ∷ []

unfoldable pub commit_id : Regex
commit_id = repeated 40 (chars hex_digits)

unfoldable pub sha256_hash : Regex
sha256_hash = repeated 64 (chars hex_digits)

unfoldable pub oci_digest : Regex
oci_digest = seq (lit "sha256:") (repeated 64 (chars hex_digits))

unfoldable pub run_id : Regex
run_id = seq (chars ((b'1', b'9') ∷ [])) (up_to 19 (chars ((b'0', b'9') ∷ [])))

abbrev pub max_file : ℕ
max_file = 32 * 1024 * 1024

abbrev pub candidate_assets : List String
candidate_assets =
    "latchway-contract.tar.gz" ∷ "latchway-linux-amd64.spdx.json" ∷ "latchway-linux-arm64.spdx.json"
    ∷ "latchway-linux-amd64-vulnerability.json" ∷ "latchway-linux-arm64-vulnerability.json"
    ∷ "latchway-linux-amd64-license.json" ∷ "latchway-linux-arm64-license.json" ∷ []

abbrev pub evidence_assets : List String
evidence_assets =
    "latchway-candidate.json" ∷ "latchway-candidate.attestation.sigstore.json" ∷ candidate_assets

abbrev pub expected_files : List String
expected_files = "SHA256SUMS" ∷ "latchway-single-maintainer-v1.json" ∷ evidence_assets

abbrev pub deferred_evidence : List String
deferred_evidence =
    "independent_human_review" ∷ "live_sdk_conformance" ∷ "physical_devices"
    ∷ "apple_distribution_and_extensions" ∷ "play_integrity_and_android_device"
    ∷ "firebase_app_check" ∷ "turnstile" ∷ "live_provider" ∷ "cloud_deployments"
    ∷ "operational_resilience" ∷ "public_registries.documentation_production_verified"
    ∷ "mintlify_production" ∷ []

abbrev pub release_policy : Json
release_policy = obj (
    field "mode" (str "single_maintainer_v1") (
      field "independent_reviewer_required" (bool false) (
        field "strict_full_controls_satisfied" (bool false) (
          field "environment_policy_ids"
            (obj (
              field "release_evidence_signing"
                (str
                  "latchway-release-profile-v1:latchway:single_maintainer_v1:release-evidence-signing")
                (field "release_image_publishing"
                  (str
                    "latchway-release-profile-v1:latchway:single_maintainer_v1:release-image-publishing")
                  end)))
            end))))
