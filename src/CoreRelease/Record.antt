-- ===== src/CoreRelease/Record.antt =====
-- `release_body` and `verify`.
use latchway_android.Base.{
  String, ◌<>◌, Bool, true, false, not, List, [], ◌∷◌, ◌||◌, eqb, same_set, length, Result, ok,
  reject_if, ◌>>=◌, ◌>>◌,
}
use latchway_android.Regex.{fullmatch}
use latchway_android.Central.Paths.{sorted}
use latchway_android.Json.{
  Json, bool, str, arr, obj, Items, nil, cons, Fields, end, field, get, as_arr, eq_str, str_matches,
}
use latchway_android.CoreRelease.Constants.{
  release_tag, version, core_repository, commit_id, run_id, evidence_assets, deferred_evidence,
  release_policy,
}
use latchway_android.CoreRelease.Inputs.{
  Runtime, exact_fields, equals, is_integer, is_at_least, read_json, read_assets,
}
use latchway_android.CoreRelease.Checksums.{Directory, names_of, same_texts, verify_checksums}
use latchway_android.CoreRelease.Candidate.{Candidate, verify_candidate}

-- `"\n".join(lines)`
abbrev joined : String → List String → String
joined line [] = line
joined line (next ∷ lines) = line <> "\n" <> joined next lines

unfoldable pub release_body : String → String → String
release_body commit image = joined "Latchway v1.0.0 core release." (
    ""
    ∷ "Release profile: single_maintainer_v1"
    ∷ "Profile status: incomplete until every required public package and registry check passes."
    ∷ "Authenticated profile-wide publication readiness is not claimed by this core-only record."
    ∷ ("Candidate commit: " <> commit)
    ∷ ("Image: " <> image)
    ∷ "Deployment evidence: deferred by this publication profile; no deployment target is claimed as verified."
    ∷ ""
    ∷ "Deferred evidence remains unverified. This release is not release-qualified, fully evidence-gated, or independently reviewed."
    ∷ [])

unfoldable pub tag_message : String → String → String
tag_message commit image = joined "Latchway v1.0.0" (
    ""
    ∷ "Release profile: single_maintainer_v1"
    ∷ ("Candidate commit: " <> commit)
    ∷ ("Image: " <> image)
    ∷ [])

abbrev release_title : String
release_title = "Latchway v1.0.0 — single_maintainer_v1"

abbrev record_keys : List String
record_keys =
    "schema_version" ∷ "kind" ∷ "profile" ∷ "profile_status" ∷ "release_policy"
    ∷ "core_publication_gate" ∷ "candidate_commit" ∷ "tag" ∷ "version" ∷ "image" ∷ "candidate_run"
    ∷ "deployment_evidence" ∷ "supply_chain" ∷ "github_release" ∷ "claims" ∷ "deferred_evidence"
    ∷ "assets" ∷ []

abbrev flags : Bool → List String → Fields
flags b [] = end
flags b (name ∷ names) = field name (bool b) (flags b names)

unfoldable pub expected_supply : Json
expected_supply = obj (
    flags true (
      "multi_arch_image_verified" ∷ "vulnerability_scan_verified" ∷ "license_scan_verified"
      ∷ "sbom_verified" ∷ "signature_verified" ∷ "provenance_verified" ∷ []))

unfoldable pub expected_claims : Json
expected_claims =
    obj (flags false ("release_qualified" ∷ "fully_evidence_gated" ∷ "independently_reviewed" ∷ []))

abbrev pub str_items : List String → Items
str_items [] = nil
str_items (s ∷ ss) = cons (str s) (str_items ss)

unfoldable pub expected_image : Candidate → String → Json
expected_image candidate coordinate = obj (
    field "repository" (str core_repository) (
      field "index_digest" (str candidate.index_digest)
        (field "coordinate" (str coordinate) (field "platforms" candidate.platforms end))))

unfoldable pub expected_release : String → String → Json
expected_release commit coordinate = obj (
    field "title" (str release_title) (
      field "body" (str (release_body commit coordinate))
        (field "tag_message" (str (tag_message commit coordinate)) end)))

-- Does the record differ from the one that belongs to the candidate?
unfoldable pub record_differs : Fields → Candidate → String → Bool
record_differs fs candidate coordinate =
    not (is_integer (get "schema_version" fs) 1)
    || not (eq_str (get "kind" fs) "latchway_single_maintainer_v1_core_release")
    || not (eq_str (get "profile" fs) "single_maintainer_v1")
    || not (eq_str (get "profile_status" fs) "incomplete")
    || not (equals (get "release_policy" fs) release_policy)
    || not (eq_str (get "core_publication_gate" fs) "passed")
    || not (eq_str (get "candidate_commit" fs) candidate.commit)
    || not (eq_str (get "tag" fs) release_tag)
    || not (eq_str (get "version" fs) version)
    || not (equals (get "image" fs) (expected_image candidate coordinate))
    || not (equals (get "deployment_evidence" fs) (obj end))
    || not (equals (get "supply_chain" fs) expected_supply)
    || not (equals (get "claims" fs) expected_claims)
    || not (equals (get "deferred_evidence" fs) (arr (str_items deferred_evidence)))
    || not (equals (get "github_release" fs) (expected_release candidate.commit coordinate))

unfoldable pub check_run : Json → Result (Unit {0})
check_run value = do
  run ← exact_fields value ("run_id" ∷ "run_attempt" ∷ []) "core_candidate_run_invalid"
  reject_if
      (not (str_matches run_id (get "run_id" run)) || not (is_at_least (get "run_attempt" run) 1))
      "core_candidate_run_invalid"

-- The texts that `verify` returns; `release` is equal to the expected one.
pub record Summary : Type 0 where
  pub candidate_commit : String
  pub locked_commit : String
  pub image : String
  pub title : String
  pub body : String
  pub tag_message : String

module _ (host : Runtime) (directory : Directory) where
  unfoldable pub check_evidence : Json → Result (Unit {0})
  check_evidence value = do
    assets ← as_arr value "core_release_record_assets_invalid"
    reject_if (not (eqb (length assets) (length evidence_assets)))
        "core_release_record_assets_invalid"
    observed ←
        read_assets host directory.file evidence_assets "core_release_record_assets_invalid" assets
          []
    reject_if
        (not (same_set (names_of observed) evidence_assets)
          || not (same_texts (names_of observed) (sorted (names_of observed))))
        "core_release_record_assets_invalid"

  unfoldable pub verify : String → Result Summary
  verify locked_commit = do
    reject_if (not (fullmatch commit_id locked_commit)) "core_locked_commit_invalid"
    verify_checksums host directory
    candidate ← verify_candidate host directory.file
    let coordinate = core_repository <> "@" <> candidate.index_digest
    fs ← read_json host (directory.file "latchway-single-maintainer-v1.json")
    exact ← exact_fields (obj fs) record_keys "core_release_record_fields_invalid"
    reject_if (record_differs fs candidate coordinate) "core_release_record_identity_invalid"
    check_run (get "candidate_run" fs)
    check_evidence (get "assets" fs)
    ok (record {
      candidate_commit = candidate.commit;
      locked_commit = locked_commit;
      image = coordinate;
      title = release_title;
      body = release_body candidate.commit coordinate;
      tag_message = tag_message candidate.commit coordinate;
    })
