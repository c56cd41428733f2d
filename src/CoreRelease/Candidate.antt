-- ===== src/CoreRelease/Candidate.antt =====
-- `verify_candidate`.
use latchway_android.Base.{
  String, ◌<>◌, not, List, [], ◌∷◌, ◌||◌, eqb, ◌==◌, distinct, same_set, length, if◌then◌else◌,
  Result, ok, reject_if, ◌>>=◌, ◌>>◌,
}
use latchway_android.Disk.{FilePath}
use latchway_android.Regex.{fullmatch}
use latchway_android.Json.{
  Json, str, obj, Fields, end, field, get, keys_are, as_obj, as_arr, as_str, eq_str,
}
use latchway_android.CoreRelease.Constants.{
  release_tag, version, core_repository, commit_id, sha256_hash, oci_digest, candidate_assets,
}
use latchway_android.CoreRelease.Inputs.{Runtime, exact_fields, is_integer, read_json, read_assets}
use latchway_android.CoreRelease.Checksums.{Sums, names_of}
use latchway_android.CoreRelease.Scans.{verify_scan, verify_sbom}

-- The entries of the candidate that `verify` uses.
pub record Candidate : Type 0 where
  pub commit : String
  pub index_digest : String
  pub platforms : Json

abbrev candidate_keys : List String
candidate_keys =
    "schema_version" ∷ "kind" ∷ "status" ∷ "created_at" ∷ "candidate_commit" ∷ "intended_tag"
    ∷ "version" ∷ "contract" ∷ "image" ∷ "artifacts" ∷ []

-- `text` with a value in it: a text stands as it is.
abbrev shown : Runtime → Json → String
shown host (str s) = s
shown host value = host.show value

-- The values of the platforms, each of which must be a digest.
unfoldable pub platform_digests : Fields → Result (List String)
platform_digests end = ok []
platform_digests (field k v fs) = do
  digest ← as_str v "core_candidate_image_invalid"
  reject_if (not (fullmatch oci_digest digest)) "core_candidate_image_invalid"
  more ← platform_digests fs
  ok (digest ∷ more)

unfoldable pub check_identity : Fields → Result String
check_identity candidate = do
  reject_if
      (not (is_integer (get "schema_version" candidate) 1)
        || not (eq_str (get "kind" candidate) "latchway_release_candidate")
        || not (eq_str (get "status" candidate) "passed"))
      "core_candidate_identity_invalid"
  commit ← as_str (get "candidate_commit" candidate) "core_candidate_identity_invalid"
  reject_if
      (not (fullmatch commit_id commit)
        || not (eq_str (get "intended_tag" candidate) release_tag)
        || not (eq_str (get "version" candidate) version))
      "core_candidate_identity_invalid"
  ok commit

-- The digest of the contract's bundle.
unfoldable pub check_contract : Runtime → Json → Result String
check_contract host value = do
  contract ←
      exact_fields value
        ("version" ∷ "status" ∷ "released_at" ∷ "bundle_file_name" ∷ "bundle_sha256" ∷ [])
        "core_candidate_contract_invalid"
  reject_if
      (not (eq_str (get "status" contract) "released")
        || not (
            eq_str (get "bundle_file_name" contract)
              ("latchway-contract-" <> shown host (get "version" contract) <> ".tar.gz")))
      "core_candidate_contract_invalid"
  bundle ← as_str (get "bundle_sha256" contract) "core_candidate_contract_invalid"
  reject_if (not (fullmatch sha256_hash bundle)) "core_candidate_contract_invalid"
  ok bundle

-- The digest of the image and its platforms.
unfoldable pub check_image : Json → Result (String × Fields)
check_image value = do
  image ←
      exact_fields value ("repository" ∷ "index_digest" ∷ "platforms" ∷ [])
        "core_candidate_image_invalid"
  reject_if (not (eq_str (get "repository" image) core_repository)) "core_candidate_image_invalid"
  index_digest ← as_str (get "index_digest" image) "core_candidate_image_invalid"
  reject_if (not (fullmatch oci_digest index_digest)) "core_candidate_image_invalid"
  platforms ← as_obj (get "platforms" image) "core_candidate_image_invalid"
  reject_if (not (keys_are platforms ("linux/amd64" ∷ "linux/arm64" ∷ [])))
      "core_candidate_image_invalid"
  digests ← platform_digests platforms
  reject_if (not (distinct digests)) "core_candidate_image_invalid"
  ok (index_digest, platforms)

-- `observed[name]` of a name that is there.
unfoldable pub digest_of : String → Sums → String
digest_of name [] = ""
digest_of name ((n, digest) ∷ more) = if name == n then digest else digest_of name more

module _ (host : Runtime) (root : String → FilePath) where
  unfoldable pub check_artifacts : Json → String → Result Sums
  check_artifacts value bundle = do
    artifacts ← as_arr value "core_candidate_artifacts_invalid"
    reject_if (not (eqb (length artifacts) (length candidate_assets)))
        "core_candidate_artifacts_invalid"
    observed ←
        read_assets host root candidate_assets "core_candidate_artifacts_invalid" artifacts []
    reject_if
        (not (same_set (names_of observed) candidate_assets)
          || not (digest_of "latchway-contract.tar.gz" observed == bundle))
        "core_candidate_artifacts_invalid"
    ok observed

  unfoldable pub check_architecture : String → Result (Unit {0})
  check_architecture architecture = do
    verify_scan host (root ("latchway-linux-" <> architecture <> "-vulnerability.json"))
        "Vulnerabilities"
    verify_scan host (root ("latchway-linux-" <> architecture <> "-license.json")) "Licenses"
    verify_sbom host (root ("latchway-linux-" <> architecture <> ".spdx.json"))

  unfoldable pub verify_candidate : Result Candidate
  verify_candidate = do
    candidate ← read_json host (root "latchway-candidate.json")
    exact ← exact_fields (obj candidate) candidate_keys "core_candidate_fields_invalid"
    commit ← check_identity candidate
    bundle ← check_contract host (get "contract" candidate)
    (index_digest, platforms) ← check_image (get "image" candidate)
    observed ← check_artifacts (get "artifacts" candidate) bundle
    attestation ← read_json host (root "latchway-candidate.attestation.sigstore.json")
    check_architecture "amd64"
    check_architecture "arm64"
    ok (record { commit = commit; index_digest = index_digest; platforms = obj platforms })
