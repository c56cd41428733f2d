-- ===== src/Promotion.antt =====
-- scripts/verify-release-promotion.py: one SDK publication against an attested promotion report.
pub mod Constants
pub mod Report
pub mod Files
pub mod Bound
pub mod Soundness
use latchway_android.Base.{
  ℕ, suc, String, ◌<>◌, Bool, true, false, not, Option, none, some, List, [], ◌∷◌, ◌&&◌, ◌||◌, eqb,
  ◌==◌, if◌then◌else◌, length, member, same_set, has_char, Result, ok, err, rejected, reject_if,
  ◌>>=◌, ◌>>◌, Error,
}
use latchway_android.Regex.{fullmatch}
use latchway_android.Json.{Json, Fields, get, keys_are, as_arr, eq_str, eq_num, is_bool}
use Constants.{
  repository_ids, report_fields, semver, tag_pattern, commit_pattern, sha256_pattern,
  oci_digest_pattern,
}
use Report.{Coordinate, validate_coordinate, validate_contract, validate_window}
use Report.Domains.{validate_domains}
use Report.Checks.{validate_checks}
use latchway_android.Disk.{FilePath}
use Files.{Runtime, sha256_file, load_json, local_version, git}

-- The arguments of `verify` after the paths, with `now` in seconds.
pub record Request : Type 0 where
  pub report_url : String
  pub report_sha256 : String
  pub repository_id : String
  pub repository_commit : String
  pub repository_version : String
  pub repository_tag : String
  pub workflow_commit : String
  pub core_tag : String
  pub oci_image_digest : String
  pub now : ℕ

-- What the script finds outside: the report's file, the repository's tree and `git` in it, and the
-- order in which Python iterates over `PROMOTION_DOMAINS`.
pub record Environment : Type 0 where
  pub report : FilePath
  pub tree : String → FilePath
  pub run_git : List String → Option (ℕ × String)
  pub order : List String

pub record Output : Type 0 where
  pub release_commit : String
  pub release_tag : String
  pub release_version : String
  pub core_tag : String
  pub oci_image_digest : String
  pub report_sha256 : String

-- The second test of `verify`, on the coordinates of the dispatch.
unfoldable pub dispatch_invalid : Request → Bool
dispatch_invalid q =
    not (fullmatch sha256_pattern q.report_sha256)
    || not (fullmatch commit_pattern q.repository_commit)
    || not (fullmatch commit_pattern q.workflow_commit)
    || not (q.workflow_commit == q.repository_commit)
    || not (fullmatch semver q.repository_version)
    || not (q.repository_tag == "v" <> q.repository_version)
    || not (fullmatch tag_pattern q.repository_tag)
    || not (fullmatch tag_pattern q.core_tag)
    || not (fullmatch oci_digest_pattern q.oci_image_digest)

unfoldable pub report_not_ready : Fields → Bool
report_not_ready report =
    not (eq_num (get "schema_version" report) 1)
    || not (eq_str (get "kind" report) "latchway_cross_repository_conformance_evidence")
    || not (eq_str (get "scope" report) "promotion")
    || not (eq_str (get "verdict" report) "passed")
    || not (is_bool true (get "source_conformance_passed" report))
    || not (is_bool true (get "promotion_ready" report))
    || not (is_bool false (get "release_ready" report))

-- The loop over `repositories`; `by_id` in the order of insertion.
unfoldable pub collect_coordinates : List Json → List String → Result (List Coordinate)
collect_coordinates [] seen = ok []
collect_coordinates (value ∷ rest) seen = do
  coordinate ← validate_coordinate value
  reject_if (member coordinate.id seen) "promotion_repositories_invalid"
  more ← collect_coordinates rest (coordinate.id ∷ seen)
  ok (coordinate ∷ more)

unfoldable pub coordinate_ids : List Coordinate → List String
coordinate_ids [] = []
coordinate_ids (c ∷ cs) = c.id ∷ coordinate_ids cs

abbrev pub no_coordinate : Coordinate
no_coordinate = record { id = ""; commit = ""; version = ""; intended_tag = "" }

-- `by_id[identifier]`, where the identifier is a key.
unfoldable pub by_id : String → List Coordinate → Coordinate
by_id k [] = no_coordinate
by_id k (c ∷ cs) = if k == c.id then c else by_id k cs

unfoldable pub binding_differs : Coordinate → Request → Bool
binding_differs c q =
    not (c.id == q.repository_id)
    || not (c.commit == q.repository_commit)
    || not (c.version == q.repository_version)
    || not (c.intended_tag == q.repository_tag)

-- The tests on the fields `repositories` of the report.
unfoldable pub check_repositories : Json → Request → Result (Unit {0})
check_repositories value q = do
  xs ← as_arr value "promotion_repositories_invalid"
  reject_if (not (eqb (length xs) 5)) "promotion_repositories_invalid"
  coordinates ← collect_coordinates xs []
  reject_if (not (same_set (coordinate_ids coordinates) repository_ids))
      "promotion_repositories_invalid"
  reject_if (binding_differs (by_id q.repository_id coordinates) q)
      "promotion_repository_binding_mismatch"
  reject_if (not ((by_id "core" coordinates).intended_tag == q.core_tag))
      "promotion_core_tag_mismatch"

-- The tests on the report, once it is read.
unfoldable pub check_report : List String → Fields → Request → Result (Unit {0})
check_report order report q = do
  reject_if (not (keys_are report report_fields)) "promotion_report_fields_invalid"
  reject_if (report_not_ready report) "promotion_report_not_ready"
  (released_at, contract) ←
      validate_contract (get "contract" report) q.core_tag q.oci_image_digest q.now
  check_repositories (get "repositories" report) q
  (window_started, window_finished) ←
      validate_window (get "evidence_window" report) released_at q.now
  validate_domains order (get "evidence_domains" report) window_started window_finished
      q.oci_image_digest
  validate_checks (get "checks" report)

-- The tests on the working copy.
unfoldable pub check_worktree : Runtime → Environment → Request → Result (Unit {0})
check_worktree host env q = do
  head ← git env.run_git ("rev-parse" ∷ "--verify" ∷ "HEAD" ∷ [])
  reject_if (not (head == q.repository_commit)) "promotion_local_commit_mismatch"
  status ← git env.run_git ("status" ∷ "--porcelain=v1" ∷ "--untracked-files=all" ∷ [])
  reject_if (not (status == "")) "promotion_local_worktree_dirty"
  version ← local_version host env.tree q.repository_id
  reject_if (not (version == q.repository_version)) "promotion_local_version_mismatch"

-- `expected_url`
unfoldable pub expected_url : String → String
expected_url core_tag =
    "https://github.com/Latchway/latchway/releases/download/" <> core_tag
    <> "/latchway-cross-repository-promotion.json"

unfoldable pub verify : Runtime → Environment → Request → Result Output
verify host env q = do
  reject_if (not (member q.repository_id ("javascript" ∷ "ios" ∷ "android" ∷ "react_native" ∷ [])))
      "promotion_repository_id_invalid"
  reject_if (dispatch_invalid q) "promotion_dispatch_coordinate_invalid"
  reject_if (not (q.report_url == expected_url q.core_tag)) "promotion_report_url_invalid"
  actual ← sha256_file host env.report
  reject_if (not (actual == q.report_sha256)) "promotion_report_sha256_mismatch"
  check_worktree host env q
  report ← load_json host env.report
  check_report env.order report q
  ok (record {
    release_commit = q.repository_commit;
    release_tag = q.repository_tag;
    release_version = q.repository_version;
    core_tag = q.core_tag;
    oci_image_digest = q.oci_image_digest;
    report_sha256 = actual;
  })

-- `append_github_output`: the lines written, in the order of the keys, and the failure if a value
-- holds a line break. What was written before the failure stays.
unfoldable pub append_lines : List (String × String) → List String × Result (Unit {0})
append_lines [] = ([], ok tt)
append_lines ((key, value) ∷ rest) =
    let (lines, outcome) = append_lines rest in
    if has_char 10 value || has_char 13 value
    then ([], err (rejected "promotion_output_invalid"))
    else ((key <> "=" <> value <> "\n") ∷ lines, outcome)

-- `sorted(values)` of the output of `verify`.
unfoldable pub sorted_output : Output → List (String × String)
sorted_output o =
    ("core_tag", o.core_tag)
    ∷ ("oci_image_digest", o.oci_image_digest)
    ∷ ("release_commit", o.release_commit)
    ∷ ("release_tag", o.release_tag)
    ∷ ("release_version", o.release_version)
    ∷ ("report_sha256", o.report_sha256)
    ∷ []

unfoldable pub status_after_lines : List String × Result (Unit {0}) → Option ℕ × List String
status_after_lines (lines, ok _) = (some 0, lines)
status_after_lines (lines, err _) = (some 1, lines)

unfoldable pub status_of : Result Output → Option ℕ × List String
status_of (ok o) = status_after_lines (append_lines (sorted_output o))
status_of (err (rejected code)) = (some 1, [])
status_of (err _) = (none, [])

-- `main` with `--github-output` given, its file open for appending: the exit status, if it is one
-- of those that `main` returns, and the lines appended. A `TypeError` is not caught.
unfoldable pub main : Runtime → Environment → Request → Option ℕ × List String
main host env q = status_of (verify host env q)
