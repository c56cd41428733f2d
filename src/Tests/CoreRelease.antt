-- ===== src/Tests/CoreRelease.antt =====
-- A small release directory of the public core.
use latchway_android.Base.{
  ℕ, String, ◌<>◌, ◌≡◌, refl, true, false, Option, none, some, List, [], ◌∷◌, map, eqb, ◌==◌,
  if◌then◌else◌, Result, ok, String-discrete, member, subset, same_set, distinct, has_prefix,
  universal_newlines,
}
use latchway_android.Disk.{FilePath}
use latchway_android.Regex
use latchway_android.Json
use latchway_android.Json.{
  Json, bool, int, pos, str, arr, obj, Items, nil, cons, Fields, end, field,
}
use latchway_android.GpgStatus.Text
use latchway_android.Central.Paths
use latchway_android.CoreRelease.Constants
use latchway_android.CoreRelease.Constants.{release_policy, deferred_evidence}
use latchway_android.CoreRelease.Inputs
use latchway_android.CoreRelease.Inputs.{Runtime}
use latchway_android.CoreRelease.Checksums
use latchway_android.CoreRelease.Checksums.{Entry, Directory}
use latchway_android.CoreRelease.Scans
use latchway_android.CoreRelease.Scans.{verify_scan}
use latchway_android.CoreRelease.Candidate
use latchway_android.CoreRelease.Record
use latchway_android.CoreRelease.Record.{Summary, verify}
use latchway_android.CoreRelease.Scanned.{IsScan, verify_scan-IsScan}
use latchway_android.CoreRelease.Verified.{IsCoreRelease, verify-IsCoreRelease}

abbrev hex40 : String
hex40 = "0123456789abcdef0123456789abcdef01234567"

abbrev hex64 : String
hex64 = "0123456789abcdef0123456789abcdef0123456789abcdef0123456789abcdef"

abbrev listed_names : List String
listed_names =
    "latchway-candidate.attestation.sigstore.json" ∷ "latchway-candidate.json"
    ∷ "latchway-contract.tar.gz" ∷ "latchway-linux-amd64-license.json"
    ∷ "latchway-linux-amd64-vulnerability.json" ∷ "latchway-linux-amd64.spdx.json"
    ∷ "latchway-linux-arm64-license.json" ∷ "latchway-linux-arm64-vulnerability.json"
    ∷ "latchway-linux-arm64.spdx.json" ∷ []

abbrev record_name : String
record_name = "latchway-single-maintainer-v1.json"

abbrev sum_lines : List String → String
sum_lines [] = hex64 <> "  " <> record_name <> "\n"
sum_lines (name ∷ names) = hex64 <> "  " <> name <> "\n" <> sum_lines names

abbrev one_asset : String → Json
one_asset name = obj (field "path" (str name) (field "sha256" (str hex64) end))

abbrev assets_of : List String → Items
assets_of [] = nil
assets_of (name ∷ names) = cons (one_asset name) (assets_of names)

abbrev index_digest : String
index_digest = "sha256:" <> hex64

abbrev platforms : Json
platforms = obj (
    field "linux/amd64" (str ("sha256:" <> hex64)) (
      field "linux/arm64"
        (str "sha256:1123456789abcdef0123456789abcdef0123456789abcdef0123456789abcdef") end))

abbrev coordinate : String
coordinate =
    "ghcr.io/latchway/latchway@sha256:0123456789abcdef0123456789abcdef0123456789abcdef0123456789abcdef"

abbrev candidate_json : Json
candidate_json = obj (
    field "schema_version" (int (pos 1)) (
      field "kind" (str "latchway_release_candidate") (
        field "status" (str "passed") (
          field "created_at" (str "2026-01-01T00:00:00Z") (
            field "candidate_commit" (str hex40) (
              field "intended_tag" (str "v1.0.0") (
                field "version" (str "1.0.0") (
                  field "contract"
                    (obj (
                      field "version" (str "1.0.0") (
                        field "status" (str "released") (
                          field "released_at" (str "2026-01-01") (
                            field "bundle_file_name" (str "latchway-contract-1.0.0.tar.gz")
                              (field "bundle_sha256" (str hex64) end))))))
                    (field "image"
                      (obj (
                        field "repository" (str "ghcr.io/latchway/latchway") (
                          field "index_digest" (str index_digest)
                            (field "platforms" platforms end))))
                      (field "artifacts" (arr (assets_of Constants.candidate_assets)) end))))))))))

abbrev candidate : Candidate.Candidate
candidate = record { commit = hex40; index_digest = index_digest; platforms = platforms }

abbrev record_json : Json
record_json = obj (
    field "schema_version" (int (pos 1)) (
      field "kind" (str "latchway_single_maintainer_v1_core_release") (
        field "profile" (str "single_maintainer_v1") (
          field "profile_status" (str "incomplete") (
            field "release_policy" release_policy (
              field "core_publication_gate" (str "passed") (
                field "candidate_commit" (str hex40) (
                  field "tag" (str "v1.0.0") (
                    field "version" (str "1.0.0") (
                      field "image" (Record.expected_image candidate coordinate) (
                        field "candidate_run"
                          (obj (field "run_id" (str "12") (field "run_attempt" (int (pos 1)) end)))
                          (field "deployment_evidence" (obj end) (
                            field "supply_chain" Record.expected_supply (
                              field "github_release" (Record.expected_release hex40 coordinate) (
                                field "claims" Record.expected_claims (
                                  field "deferred_evidence"
                                    (arr (Record.str_items deferred_evidence))
                                    (field "assets" (arr (assets_of listed_names))
                                      end)))))))))))))))))

abbrev scan_json : Json
scan_json = obj (
    field "SchemaVersion" (int (pos 2)) (
      field "Results"
        (arr (
          cons
            (obj (
              field "Vulnerabilities" (arr (cons (obj (field "Severity" (str "LOW") end)) nil))
                end))
            nil))
        end))

abbrev sbom_json : Json
sbom_json = obj (
    field "spdxVersion" (str "SPDX-2.3") (
      field "packages"
        (arr (cons (obj (field "SPDXID" (str "SPDXRef-a") (field "name" (str "a") end))) nil)) end))

abbrev tag_of : String → ℕ
tag_of name =
    if name == "SHA256SUMS"
    then 0
    else (if name == "latchway-candidate.json"
        then 1
        else (if name == record_name
            then 2
            else (if name == "latchway-linux-amd64.spdx.json"
                then 3
                else (if name == "latchway-linux-arm64.spdx.json" then 3 else 4))))

abbrev text_at : List ℕ → Option String
text_at [] = none
text_at (k ∷ rest) =
    if eqb k 0
    then some (sum_lines listed_names)
    else (if eqb k 1
        then some "candidate"
        else (if eqb k 2 then some "record" else (if eqb k 3 then some "sbom" else some "scan")))

abbrev parsed : String → Option Json
parsed text =
    if text == "candidate"
    then some candidate_json
    else (if text == "record"
        then some record_json
        else (if text == "sbom" then some sbom_json else some scan_json))

abbrev runtime : Runtime
runtime = record { sha256 = λ bytes. hex64; utf8 = text_at; loads = parsed; show = λ value. "" }

abbrev plain_entry : String → Entry
plain_entry name = record { name = name; symlink = false; is_file = true }

abbrev directory : Directory
directory = record {
  entries = some (map plain_entry ("SHA256SUMS" ∷ record_name ∷ listed_names));
  file = λ name.
      some (record { regular = true; symlink = false; size = 10; bytes = some (tag_of name ∷ []) });
}

run : String → Result Summary
unfolding verify String-discrete member subset same_set distinct has_prefix universal_newlines
    Regex.matches Regex.fullmatch Text.splitlines Text.is_boundary Text.cons_first Paths.sorted
    Paths.insert Paths.codes_leb Json.get Json.keys_are Json.eq_str Json.eq_num Json.is_null
    Json.str_matches Json.strict Json.strict_items Json.strict_fields Json.has_duplicate
    Constants.commit_id Constants.sha256_hash Constants.oci_digest Constants.run_id Inputs.regular
    Inputs.exact_fields Inputs.is_integer Inputs.is_at_least Inputs.truthy Inputs.equals
    Inputs.equals_items Inputs.equals_fields Inputs.among Inputs.read_json Inputs.hash_file
    Inputs.read_asset Inputs.read_assets Checksums.checksum_line Checksums.first_chars
    Checksums.without_first Checksums.read_sums Checksums.same_texts Checksums.check_sums
    Checksums.sums_text Checksums.verify_checksums Scans.list_or_empty Scans.check_findings
    Scans.check_results Scans.has_spdx_id Scans.is_package Scans.verify_scan Scans.verify_sbom
    Candidate.platform_digests Candidate.check_identity Candidate.check_contract
    Candidate.check_image Candidate.digest_of Candidate.check_artifacts Candidate.check_architecture
    Candidate.verify_candidate Record.release_body Record.tag_message Record.expected_supply
    Record.expected_claims Record.expected_image Record.expected_release Record.record_differs
    Record.check_run Record.check_evidence
run locked = verify runtime directory locked

abbrev summary : Summary
summary = record {
  candidate_commit = hex40;
  locked_commit = hex40;
  image = coordinate;
  title = "Latchway v1.0.0 — single_maintainer_v1";
  body = Record.release_body hex40 coordinate;
  tag_message = Record.tag_message hex40 coordinate;
}

accepted : run hex40 ≡ ok summary
unfolding run
accepted = refl

accepted_result : verify runtime directory hex40 ≡ ok summary
unfolding run
accepted_result = accepted

verify-IsCoreRelease_example : IsCoreRelease runtime directory hex40 summary
verify-IsCoreRelease_example = verify-IsCoreRelease runtime directory hex40 summary accepted_result

abbrev scan_path : FilePath
scan_path = some (record { regular = true; symlink = false; size = 10; bytes = some (4 ∷ []) })

scanned : verify_scan runtime scan_path "Vulnerabilities" ≡ ok tt
unfolding run verify_scan
scanned = refl

verify_scan-IsScan_example : IsScan runtime scan_path "Vulnerabilities"
verify_scan-IsScan_example = verify_scan-IsScan runtime scan_path "Vulnerabilities" scanned
