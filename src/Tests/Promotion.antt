-- ===== src/Tests/Promotion.antt =====
-- A promotion report that `verify` accepts.
use latchway_android.Base.{
  ℕ, ◌≤◌, ◌<◌, ◌+◌, String, ◌<>◌, ◌≡◌, ◌↔◌, refl, Bool, true, false, Option, none, some, List, [],
  ◌∷◌, member, same_set, Result, ok, String-discrete, subset, universal_newlines, distinct, ◌==◌,
  if◌then◌else◌, skip_space, is_space,
}
use latchway_android.Regex.{matches, fullmatch}
use latchway_android.Json.{
  Json, null, bool, int, pos, str, arr, obj, Items, nil, cons, Fields, end, field, items, get,
  keys_are, is_null, is_bool, is_any_bool, eq_str, in_strs, str_matches, eq_num, is_empty_arr,
  has_duplicate, strict,
}
use latchway_android.Clock.{strptime, instant}
use latchway_android.Promotion.Constants.{
  promotion_domains, semver, tag_pattern, commit_pattern, sha256_pattern, oci_digest_pattern,
  canonical_time, check_identifier, domain_identifier, diagnostic_key,
}
use latchway_android.Promotion.Report
use latchway_android.Promotion.Report.Window.{
  IsTime, IsWindow, IsContract, validate_window_iff, validate_contract_iff,
}
use latchway_android.Promotion.Report.Domains.Passed.{IsPassed, check_promotion_iff}
use latchway_android.Promotion.Report.Checks.Coverage.{IsChecked, validate_checks_sound}
use latchway_android.Promotion.Report.Domains.Collected.{Holds}
use latchway_android.Promotion.Report.Domains
use latchway_android.Promotion.Report.Checks
use latchway_android.Promotion.Files
use latchway_android.Disk.{FilePath}
use latchway_android.Promotion.Files.{Runtime}
use latchway_android.Promotion
use latchway_android.Promotion.{Request, Environment, Output, verify}
use latchway_android.Promotion.Soundness.{IsPromoted, verify_sound, verify_recent}

abbrev hex40 : String
hex40 = "0123456789abcdef0123456789abcdef01234567"

abbrev hex64 : String
hex64 = "0123456789abcdef0123456789abcdef0123456789abcdef0123456789abcdef"

abbrev image : String
image = "ghcr.io/latchway/latchway@sha256:" <> hex64

abbrev coordinate : String → String → Json
coordinate id version = obj (
    field "id" (str id) (
      field "commit" (str hex40)
        (field "version" (str version) (field "intended_tag" (str ("v" <> version)) end))))

abbrev simple : String → Bool → String → Json
simple id required status = obj (
    field "id" (str id) (
      field "required" (bool required) (
        field "status" (str status) (
          field "started_at" null (
            field "finished_at" null (
              field "document_sha256" null
                (field "oci_image_digest" null (field "artifact_sha256" (arr nil) end))))))))

abbrev passed : String → Json
passed id = obj (
    field "id" (str id) (
      field "required" (bool true) (
        field "status" (str "passed") (
          field "started_at" (str "2026-07-02T10:00:00Z") (
            field "finished_at" (str "2026-07-02T11:00:00Z") (
              field "document_sha256" (str hex64) (
                field "oci_image_digest" (str image)
                  (field "artifact_sha256" (arr (cons (str hex64) nil)) end))))))))

abbrev check : String → Json
check domain = obj (
    field "id" (str ("check." <> domain)) (
      field "domain" (str domain) (
        field "required" (bool true)
          (field "status" (str "passed") (field "summary" (str "fine") end)))))

abbrev list : List Json → Items
list [] = nil
list (x ∷ xs) = cons x (list xs)

abbrev report : Fields
report = field "schema_version" (int (pos 1)) (
    field "kind" (str "latchway_cross_repository_conformance_evidence") (
      field "scope" (str "promotion") (
        field "verdict" (str "passed") (
          field "source_conformance_passed" (bool true) (
            field "promotion_ready" (bool true) (
              field "release_ready" (bool false) (
                field "contract"
                  (obj (
                    field "version" (str "1.2.0") (
                      field "status" (str "released") (
                        field "released_at" (str "2026-07-01T00:00:00Z") (
                          field "wire_protocol" (int (pos 3)) (
                            field "bundle_file_name" (str "latchway-contract-1.2.0.tar.gz") (
                              field "bundle_sha256" (str hex64) (
                                field "core_release" (str "v2.0.0")
                                  (field "oci_image_digest" (str image) end)))))))))
                  (field "repositories"
                    (arr (
                      list (
                        coordinate "core" "2.0.0"
                        ∷ coordinate "javascript" "1.0.0"
                        ∷ coordinate "ios" "1.0.0"
                        ∷ coordinate "android" "1.0.0"
                        ∷ coordinate "react_native" "1.0.0"
                        ∷ [])))
                    (field "evidence_window"
                      (obj (
                        field "started_at" (str "2026-07-02T10:00:00Z") (
                          field "finished_at" (str "2026-07-02T11:00:00Z")
                            (field "maximum_age_seconds" (int (pos 604800)) end))))
                      (field "evidence_domains"
                        (arr (
                          list (
                            simple "local_source" true "passed"
                            ∷ simple "local_promotion" true "passed"
                            ∷ simple "local_release" false "unverified"
                            ∷ simple "public_tags" false "unverified"
                            ∷ simple "public_registries" false "unverified"
                            ∷ passed "live_sdk_conformance"
                            ∷ passed "physical_devices"
                            ∷ passed "live_provider"
                            ∷ passed "cloud_deployments"
                            ∷ passed "operational_resilience"
                            ∷ passed "supply_chain"
                            ∷ [])))
                        (field "checks"
                          (arr (
                            list (
                              check "local_source"
                              ∷ check "local_promotion"
                              ∷ check "live_sdk_conformance"
                              ∷ check "physical_devices"
                              ∷ check "live_provider"
                              ∷ check "cloud_deployments"
                              ∷ check "operational_resilience"
                              ∷ check "supply_chain"
                              ∷ [])))
                          end)))))))))))

-- A runtime whose digest is fixed, and whose decoders give the sources and the report.
abbrev host : Runtime
host = record {
  sha256 = λ _. hex64;
  utf8 = λ _. some "const val LATCHWAY_SDK_VERSION: String = \"1.0.0\"";
  loads = λ _. some (obj report);
  is_word = λ _. false;
}

abbrev file : FilePath
file = some (record { regular = true; symlink = false; size = 100; bytes = some [] })

abbrev run_git : List String → Option (ℕ × String)
run_git [] = none
run_git (command ∷ _) = some (0, if command == "status" then "" else hex40 <> "\n")

abbrev env : Environment
env = record { report = file; tree = λ _. file; run_git = run_git; order = promotion_domains }

abbrev request : Request
request = record {
  report_url =
      "https://github.com/Latchway/latchway/releases/download/v2.0.0/latchway-cross-repository-promotion.json";
  report_sha256 = hex64;
  repository_id = "android";
  repository_commit = hex40;
  repository_version = "1.0.0";
  repository_tag = "v1.0.0";
  workflow_commit = hex40;
  core_tag = "v2.0.0";
  oci_image_digest = image;
  now = 63918633600;
}

abbrev output : Output
output = record {
  release_commit = hex40;
  release_tag = "v1.0.0";
  release_version = "1.0.0";
  core_tag = "v2.0.0";
  oci_image_digest = image;
  report_sha256 = hex64;
}

-- The whole script, open.
run : Runtime → Environment → Request → Result Output
unfolding verify Promotion.dispatch_invalid Promotion.expected_url Promotion.check_worktree
    Promotion.check_report Promotion.report_not_ready Promotion.check_repositories
    Promotion.collect_coordinates Promotion.coordinate_ids Promotion.by_id Promotion.binding_differs
    Files.git Files.rstrip_newlines Files.sha256_file Files.read_bounded Files.load_json
    Files.local_version Files.read_version Files.local_metadata Files.search_from
    Files.android_version Files.strip_prefix skip_space Files.assignment Files.quoted
    Files.before_rest is_space Files.until_quote Report.parse_time Report.validate_coordinate
    Report.validate_contract Report.is_positive_int Report.validate_window Domains.validate_domains
    Domains.collect Domains.names Domains.find Domains.check_simple Domains.simple_invalid
    Domains.check_promotions Domains.check_promotion Domains.earliest Domains.latest
    Domains.check_artifacts Domains.is_hashable Domains.texts_of Domains.window_is_tight
    Checks.validate_checks Checks.check_loop Checks.read_check Checks.judge Checks.summary_valid
    String-discrete member subset same_set distinct universal_newlines matches fullmatch semver
    tag_pattern commit_pattern sha256_pattern oci_digest_pattern canonical_time check_identifier
    domain_identifier diagnostic_key get keys_are is_null is_bool is_any_bool eq_str in_strs
    str_matches eq_num is_empty_arr has_duplicate strict strptime instant
run = verify

accepted : verify host env request ≡ ok output
unfolding run
accepted = refl

ordered : same_set env.order promotion_domains ≡ true
unfolding same_set String-discrete
ordered = refl

verify_sound_example : IsPromoted host env request output
verify_sound_example = verify_sound host env request output ordered accepted

domain_known : member "supply_chain" promotion_domains ≡ true
unfolding member String-discrete
domain_known = refl

verify_recent_example :
    (report : Fields) × (xs : Items) × (fs : Fields) × (s : ℕ) × (f : ℕ) × (Files.load_json host
        env.report
      ≡ ok report)
    × (get "evidence_domains" report ≡ arr xs)
    × Holds "supply_chain" (items xs) fs
    × IsTime (get "started_at" fs) s
    × IsTime (get "finished_at" fs) f
    × (request.now ≤ s + 604800)
    × (s < f)
    × (f ≤ request.now)
verify_recent_example =
    verify_recent host env request output "supply_chain" ordered accepted domain_known

abbrev window : Json
window = obj (
    field "started_at" (str "2026-07-02T10:00:00Z") (
      field "finished_at" (str "2026-07-02T11:00:00Z")
        (field "maximum_age_seconds" (int (pos 604800)) end)))

validate_window_iff_example :
    (Report.validate_window window 63918460800 63918633600 ≡ ok (63918583200, 63918586800))
    ↔ IsWindow window 63918460800 63918633600 63918583200 63918586800
validate_window_iff_example =
    validate_window_iff window 63918460800 63918633600 63918583200 63918586800

abbrev contract : Json
contract = obj (
    field "version" (str "1.2.0") (
      field "status" (str "released") (
        field "released_at" (str "2026-07-01T00:00:00Z") (
          field "wire_protocol" (int (pos 3)) (
            field "bundle_file_name" (str "latchway-contract-1.2.0.tar.gz") (
              field "bundle_sha256" (str hex64) (
                field "core_release" (str "v2.0.0")
                  (field "oci_image_digest" (str image) end))))))))

validate_contract_iff_example :
    ((fs : Fields) × (Report.validate_contract contract "v2.0.0" image 63918633600
        ≡ ok (63918460800, fs)))
    ↔ IsContract contract "v2.0.0" image 63918633600 63918460800
validate_contract_iff_example =
    validate_contract_iff "v2.0.0" image 63918633600 contract 63918460800

abbrev supply_chain_fields : Fields
supply_chain_fields = field "id" (str "supply_chain") (
    field "required" (bool true) (
      field "status" (str "passed") (
        field "started_at" (str "2026-07-02T10:00:00Z") (
          field "finished_at" (str "2026-07-02T11:00:00Z") (
            field "document_sha256" (str hex64) (
              field "oci_image_digest" (str image)
                (field "artifact_sha256" (arr (cons (str hex64) nil)) end)))))))

check_promotion_iff_example :
    (Domains.check_promotion supply_chain_fields 63918583200 63918586800 image
      ≡ ok (63918583200, 63918586800))
    ↔ IsPassed supply_chain_fields 63918583200 63918586800 image 63918583200 63918586800
check_promotion_iff_example =
    check_promotion_iff supply_chain_fields 63918583200 63918586800 image 63918583200 63918586800

abbrev checks : Json
checks = arr (
    list (
      check "local_source"
      ∷ check "local_promotion"
      ∷ check "live_sdk_conformance"
      ∷ check "physical_devices"
      ∷ check "live_provider"
      ∷ check "cloud_deployments"
      ∷ check "operational_resilience"
      ∷ check "supply_chain"
      ∷ []))

checked : Checks.validate_checks checks ≡ ok tt
unfolding Checks.validate_checks Checks.check_loop Checks.read_check Checks.judge
    Checks.summary_valid String-discrete member subset same_set fullmatch matches check_identifier
    domain_identifier get keys_are is_any_bool is_bool eq_str in_strs str_matches
checked = refl

validate_checks_sound_example : IsChecked checks
validate_checks_sound_example = validate_checks_sound checks checked
