-- ===== src/CoreRelease/Soundness.antt =====
-- What an accepted release directory shows.
use latchway_android.Base.{
  String, ◌<>◌, ◌≡◌, refl, ◌∙◌, inl, inr, true, false, some, List, [], ◌∷◌, map, any, not, ◌||◌,
  member, String-discrete, same_set, same_set-member, ok, Result-cases, Option-cases, arith,
}
use latchway_android.Disk.{FilePath}
use latchway_android.GpgStatus.Text.{splitlines}
use latchway_android.Json.{Json, arr, items, Items}
use latchway_android.Json.Laws.{as_arr_cases}
use latchway_android.CoreRelease.Constants.{candidate_assets, evidence_assets, expected_files}
use latchway_android.CoreRelease.Inputs.{Runtime, read_assets, hash_file}
use latchway_android.CoreRelease.Checksums.{
  Entry, Directory, Sums, names_of, read_sums, sums_text, verify_checksums,
}
use latchway_android.CoreRelease.Scans.{verify_scan}
use latchway_android.CoreRelease.Candidate.{check_artifacts, check_architecture, digest_of}
use latchway_android.CoreRelease.Record.{check_evidence}
use latchway_android.CoreRelease.Scanned.{IsScan, IsSbom, verify_scan-IsScan, verify_sbom-IsSbom}
use latchway_android.CoreRelease.Listed.{
  IsListed, AreSums, read_assets-IsListed, read_assets-digest, check_sums-AreSums,
}

-- The directory holds exactly the expected plain files, and SHA256SUMS has the digest of each but
-- itself.
pub record IsClosed (host : Runtime) (directory : Directory) : Type 0 where
  pub entries : List Entry
  pub present : directory.entries ≡ some entries
  pub names : same_set (map (λ e. e.name) entries) expected_files ≡ true
  pub plain : any (λ e. e.symlink || not e.is_file) entries ≡ false
  pub text : String
  pub read : sums_text host directory ≡ ok text
  pub sums : Sums
  pub collected : read_sums (splitlines text) [] ≡ ok sums
  pub complete :
      same_set (names_of sums) ("latchway-single-maintainer-v1.json" ∷ evidence_assets) ≡ true
  pub digests : AreSums host directory.file sums

pub verify_checksums-IsClosed :
    (host : Runtime) (directory : Directory)
    → verify_checksums host directory ≡ ok tt
    → IsClosed host directory
unfolding verify_checksums
verify_checksums-IsClosed host directory h = elim (Option-cases directory.entries) [
  | inl absent ↦ absurd (ground arith)
  | inr (entries, present) ↦ elim (Result-cases (sums_text host directory)) [
    | inr (raised, failed) ↦ absurd (ground arith)
    | inl (text, read) ↦ elim (Result-cases (read_sums (splitlines text) [])) [
      | inr (raised, failed) ↦ absurd (ground arith)
      | inl (sums, collected) ↦ record {
        entries = entries;
        present = present;
        names = ground arith;
        plain = ground arith;
        text = text;
        read = read;
        sums = sums;
        collected = collected;
        complete = ground arith;
        digests = check_sums-AreSums host directory sums (ground arith);
      }
    ]
  ]
]

-- The list names each of the names with the digest of its file.
abbrev pub AreListed : Runtime → (String → FilePath) → Json → List String → Type 0
AreListed host root value names =
    (values : Items) × (value ≡ arr values)
    × ((name : String) → member name names ≡ true → IsListed host root (items values) name)

listed_names :
    (host : Runtime) (root : String → FilePath) (names : List String) (code : String)
    (values : List Json) (observed : Sums)
    → read_assets host root names code values [] ≡ ok observed
    → same_set (names_of observed) names ≡ true
    → (name : String) → member name names ≡ true
    → IsListed host root values name
listed_names host root names code values observed h complete name m =
    read_assets-IsListed host root names code values [] observed name h
      (same_set-member (names_of observed) names complete name ∙ m)

pub check_evidence-AreListed :
    (host : Runtime) (directory : Directory) (value : Json)
    → check_evidence host directory value ≡ ok tt
    → AreListed host directory.file value evidence_assets
unfolding check_evidence
check_evidence-AreListed host directory value h =
    elim (as_arr_cases value "core_release_record_assets_invalid") [
      | inr failed ↦ absurd (ground arith)
      | inl (values, e) ↦
          elim (Result-cases (
            read_assets host directory.file evidence_assets "core_release_record_assets_invalid"
              (items values) [])) [
                | inr (raised, failed) ↦ absurd (ground arith)
                | inl (observed, read) ↦ (
                  values,
                  e,
                  listed_names host directory.file evidence_assets
                      "core_release_record_assets_invalid" (items values) observed read
                      (ground arith),
                )
              ]
    ]

-- The artifacts of the candidate are its assets with the digests of their files.
pub check_artifacts-AreListed :
    (host : Runtime) (root : String → FilePath) (value : Json) (bundle : String) (observed : Sums)
    → check_artifacts host root value bundle ≡ ok observed
    → AreListed host root value candidate_assets
      × (hash_file host (root "latchway-contract.tar.gz") ≡ ok bundle)
unfolding check_artifacts
check_artifacts-AreListed host root value bundle observed h =
    elim (as_arr_cases value "core_candidate_artifacts_invalid") [
      | inr failed ↦ absurd (ground arith)
      | inl (values, e) ↦
          elim (Result-cases (
            read_assets host root candidate_assets "core_candidate_artifacts_invalid" (items values)
              [])) [
                | inr (raised, failed) ↦ absurd (ground arith)
                | inl (seen, read) ↦
                    let complete : same_set (names_of seen) candidate_assets ≡ true =
                      ground arith in
                    let same : digest_of "latchway-contract.tar.gz" seen ≡ bundle = ground arith in
                    let there =
                      same_set-member (names_of seen) candidate_assets complete
                        "latchway-contract.tar.gz" in
                    let hashed =
                      read_assets-digest host root candidate_assets
                        "core_candidate_artifacts_invalid" (items values) [] seen
                        "latchway-contract.tar.gz" read
                        (there ∙ unfold member String-discrete in refl) in
                    (
                      (
                        values,
                        e,
                        listed_names host root candidate_assets "core_candidate_artifacts_invalid"
                            (items values) seen read complete,
                      ),
                      rw same at hashed,
                    )
              ]
    ]

-- The scans and the software list of one architecture are accepted.
pub record IsScanned (host : Runtime) (root : String → FilePath) (architecture : String)
    : Type 0 where
  pub vulnerabilities :
      IsScan host
        (root ("latchway-linux-" <> architecture <> "-vulnerability.json"))
        "Vulnerabilities"
  pub licenses :
      IsScan host (root ("latchway-linux-" <> architecture <> "-license.json")) "Licenses"
  pub software : IsSbom host (root ("latchway-linux-" <> architecture <> ".spdx.json"))

pub check_architecture-IsScanned :
    (host : Runtime) (root : String → FilePath) (architecture : String)
    → check_architecture host root architecture ≡ ok tt
    → IsScanned host root architecture
unfolding check_architecture
check_architecture-IsScanned host root architecture h =
    elim (Result-cases (
      verify_scan host (root ("latchway-linux-" <> architecture <> "-vulnerability.json"))
        "Vulnerabilities")) [
          | inr (raised, failed) ↦ absurd (ground arith)
          | inl (done, first) ↦
              elim (Result-cases (
                verify_scan host (root ("latchway-linux-" <> architecture <> "-license.json"))
                  "Licenses")) [
                    | inr (raised, failed) ↦ absurd (ground arith)
                    | inl (done', second) ↦ record {
                      vulnerabilities = verify_scan-IsScan host _ "Vulnerabilities" first;
                      licenses = verify_scan-IsScan host _ "Licenses" second;
                      software = verify_sbom-IsSbom host _ (ground arith);
                    }
                  ]
        ]
