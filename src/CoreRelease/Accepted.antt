-- ===== src/CoreRelease/Accepted.antt =====
-- What an accepted candidate shows.
use latchway_android.Base.{
  String, ◌≡◌, inl, inr, true, List, [], ◌∷◌, distinct, ok, Result-cases, arith,
}
use latchway_android.Disk.{FilePath}
use latchway_android.Regex.{fullmatch}
use latchway_android.Json.{Json, obj, str, Fields, get, keys_are}
use latchway_android.Json.Laws.{as_obj_cases, as_str_cases, eq_str_iff}
use latchway_android.CoreRelease.Constants.{
  core_repository, commit_id, sha256_hash, oci_digest, candidate_assets,
}
use latchway_android.CoreRelease.Inputs.{Runtime, exact_fields, read_json, hash_file}
use latchway_android.CoreRelease.Checksums.{Sums}
use latchway_android.CoreRelease.Candidate.{
  Candidate, check_identity, check_contract, check_image, platform_digests, check_artifacts,
  check_architecture, verify_candidate,
}
use latchway_android.CoreRelease.Soundness.{
  AreListed, IsScanned, check_artifacts-AreListed, check_architecture-IsScanned,
}

identity_commit :
    (candidate : Fields) (commit : String)
    → check_identity candidate ≡ ok commit
    → (get "candidate_commit" candidate ≡ str commit) × (fullmatch commit_id commit ≡ true)
unfolding check_identity
identity_commit candidate commit h =
    elim (as_str_cases (get "candidate_commit" candidate) "core_candidate_identity_invalid") [
      | inr failed ↦ absurd (ground arith)
      | inl (text, e) ↦ let same : text ≡ commit = ground arith in (rw same at e, ground arith)
    ]

-- The image names its digest and two platforms with different digests.
pub record IsImage (value : Json) (index_digest : String) (platforms : Fields) : Type 0 where
  pub image : Fields
  pub is_object : value ≡ obj image
  pub repository : get "repository" image ≡ str core_repository
  pub index : get "index_digest" image ≡ str index_digest
  pub index_shape : fullmatch oci_digest index_digest ≡ true
  pub has_platforms : get "platforms" image ≡ obj platforms
  pub both : keys_are platforms ("linux/amd64" ∷ "linux/arm64" ∷ []) ≡ true
  pub digests : List String
  pub are_digests : platform_digests platforms ≡ ok digests
  pub differ : distinct digests ≡ true

check_image-IsImage :
    (value : Json) (index_digest : String) (platforms : Fields)
    → check_image value ≡ ok (index_digest, platforms)
    → IsImage value index_digest platforms
unfolding check_image exact_fields
check_image-IsImage value index_digest platforms h =
    elim (as_obj_cases value "core_candidate_image_invalid") [
      | inr failed ↦ absurd (ground arith)
      | inl (image, e) ↦
          elim (as_str_cases (get "index_digest" image) "core_candidate_image_invalid") [
            | inr failed ↦ absurd (ground arith)
            | inl (index, is_index) ↦
                elim (as_obj_cases (get "platforms" image) "core_candidate_image_invalid") [
                  | inr failed ↦ absurd (ground arith)
                  | inl (found, is_platforms) ↦ elim (Result-cases (platform_digests found)) [
                    | inr (raised, failed) ↦ absurd (ground arith)
                    | inl (digests, read) ↦
                        let same : index ≡ index_digest = ground arith in
                        let same' : found ≡ platforms = ground arith in
                        record {
                          image = image;
                          is_object = e;
                          repository =
                              (eq_str_iff (get "repository" image) core_repository).0
                                (ground arith);
                          index = rw same at is_index;
                          index_shape = ground arith;
                          has_platforms = rw same' at is_platforms;
                          both = ground arith;
                          digests = digests;
                          are_digests = rw same' at read;
                          differ = ground arith;
                        }
                  ]
                ]
          ]
    ]

contract_bundle :
    (host : Runtime) (value : Json) (bundle : String)
    → check_contract host value ≡ ok bundle
    → (contract : Fields) × (value ≡ obj contract)
      × (get "bundle_sha256" contract ≡ str bundle)
      × (fullmatch sha256_hash bundle ≡ true)
unfolding check_contract exact_fields
contract_bundle host value bundle h = elim (as_obj_cases value "core_candidate_contract_invalid") [
  | inr failed ↦ absurd (ground arith)
  | inl (contract, e) ↦
      elim (as_str_cases (get "bundle_sha256" contract) "core_candidate_contract_invalid") [
        | inr failed ↦ absurd (ground arith)
        | inl (text, is_text) ↦
            let same : text ≡ bundle = ground arith in
            (contract, e, rw same at is_text, ground arith)
      ]
]

-- The candidate that is accepted, its files, and the entries that the record is held against.
pub record IsCandidate (host : Runtime) (root : String → FilePath) (c : Candidate) : Type 0 where
  pub document : Fields
  pub read : read_json host (root "latchway-candidate.json") ≡ ok document
  pub commit : get "candidate_commit" document ≡ str c.commit
  pub commit_shape : fullmatch commit_id c.commit ≡ true
  pub platforms : Fields
  pub same_platforms : c.platforms ≡ obj platforms
  pub image : IsImage (get "image" document) c.index_digest platforms
  pub contract : Fields
  pub has_contract : get "contract" document ≡ obj contract
  pub bundle : String
  pub has_bundle : get "bundle_sha256" contract ≡ str bundle
  pub is_bundle : hash_file host (root "latchway-contract.tar.gz") ≡ ok bundle
  pub artifacts : AreListed host root (get "artifacts" document) candidate_assets
  pub amd64 : IsScanned host root "amd64"
  pub arm64 : IsScanned host root "arm64"

module _ (host : Runtime) (root : String → FilePath) where
  candidate_of :
      (document : Fields) (c : Candidate) (commit bundle : String) (index_digest : String)
      (platforms : Fields) (observed : Sums)
      → read_json host (root "latchway-candidate.json") ≡ ok document
      → check_identity document ≡ ok commit
      → check_contract host (get "contract" document) ≡ ok bundle
      → check_image (get "image" document) ≡ ok (index_digest, platforms)
      → check_artifacts host root (get "artifacts" document) bundle ≡ ok observed
      → verify_candidate host root ≡ ok c
      → IsCandidate host root c
  unfolding verify_candidate
  candidate_of document c commit bundle index_digest platforms observed read a b i o h =
      elim (Result-cases (read_json host (root "latchway-candidate.attestation.sigstore.json"))) [
        | inr (raised, failed) ↦ absurd (ground arith)
        | inl (attestation, signed) ↦ elim (Result-cases (check_architecture host root "amd64")) [
          | inr (raised, failed) ↦ absurd (ground arith)
          | inl (done, first) ↦ elim (Result-cases (check_architecture host root "arm64")) [
            | inr (raised, failed) ↦ absurd (ground arith)
            | inl (done', second) ↦
                let same_commit : c.commit ≡ commit = ground arith in
                let same_index : c.index_digest ≡ index_digest = ground arith in
                let (has_commit, shape) = identity_commit document commit a in
                let (contract, has_contract, has_bundle, _) =
                  contract_bundle host (get "contract" document) bundle b in
                let (artifacts, is_bundle) =
                  check_artifacts-AreListed host root (get "artifacts" document) bundle observed
                    o in
                record {
                  document = document;
                  read = read;
                  commit = rw same_commit has_commit;
                  commit_shape = rw same_commit shape;
                  platforms = platforms;
                  same_platforms = ground arith;
                  image =
                      rw same_index
                        (check_image-IsImage (get "image" document) index_digest platforms i);
                  contract = contract;
                  has_contract = has_contract;
                  bundle = bundle;
                  has_bundle = has_bundle;
                  is_bundle = is_bundle;
                  artifacts = artifacts;
                  amd64 = check_architecture-IsScanned host root "amd64" first;
                  arm64 = check_architecture-IsScanned host root "arm64" second;
                }
          ]
        ]
      ]

  pub verify_candidate-IsCandidate :
      (c : Candidate) → verify_candidate host root ≡ ok c → IsCandidate host root c
  unfolding verify_candidate
  verify_candidate-IsCandidate c h =
      elim (Result-cases (read_json host (root "latchway-candidate.json"))) [
        | inr (raised, failed) ↦ absurd (ground arith)
        | inl (document, read) ↦ elim (Result-cases (check_identity document)) [
          | inr (raised, failed) ↦ absurd (ground arith)
          | inl (commit, a) ↦ elim (Result-cases (check_contract host (get "contract" document))) [
            | inr (raised, failed) ↦ absurd (ground arith)
            | inl (bundle, b) ↦ elim (Result-cases (check_image (get "image" document))) [
              | inr (raised, failed) ↦ absurd (ground arith)
              | inl ((index_digest, platforms), i) ↦
                  elim (Result-cases
                    (check_artifacts host root (get "artifacts" document) bundle)) [
                      | inr (raised, failed) ↦ absurd (ground arith)
                      | inl (observed, o) ↦
                          candidate_of document c commit bundle index_digest platforms observed read
                            a b i o h
                    ]
            ]
          ]
        ]
      ]
