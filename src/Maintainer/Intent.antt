-- ===== src/Maintainer/Intent.antt =====
-- The document that `verify` writes.
use latchway_android.Base.{ℕ, String, false, List, [], ◌∷◌}
use latchway_android.Json.{
  Json, bool, int, pos, str, arr, obj, Items, nil, cons, Fields, end, field,
}
use latchway_android.Maintainer.Constants.{
  profile, repository, version, release_tag, deferred_evidence, forbidden_claims, maven_coordinates,
  downstream_gates,
}
use latchway_android.Maintainer.Lock.{Contract}

abbrev str_items : List String → Items
str_items [] = nil
str_items (s ∷ ss) = cons (str s) (str_items ss)

unfoldable pub texts : List String → Json
texts ss = arr (str_items ss)

-- `source` of the document.
unfoldable pub source_fields : String → String → Fields
source_fields commit workflow_ref = field "repository" (str repository) (
    field "commit" (str commit) (
      field "version" (str version)
        (field "tag" (str release_tag) (field "ref" (str workflow_ref) end))))

unfoldable pub contract_fields : Contract → Fields
contract_fields contract = field "core_commit" (str contract.core_commit) (
    field "core_tag" (str contract.core_release) (
      field "bundle_sha256" (str contract.bundle_sha256) (field "wire_protocol" (int (pos 2)) end)))

unfoldable pub workflow_fields : ℕ → ℕ → Fields
workflow_fields run_id run_attempt =
    field "file" (str ".github/workflows/single-maintainer-release.yml") (
      field "event" (str "workflow_dispatch")
        (field "run_id" (int (pos run_id)) (field "run_attempt" (int (pos run_attempt)) end)))

unfoldable pub release_intent : String → String → Contract → ℕ → ℕ → Fields
release_intent commit workflow_ref contract run_id run_attempt =
    field "schema_version" (int (pos 1)) (
      field "kind" (str "latchway_single_maintainer_release_intent") (
        field "profile" (str profile) (
          field "status" (str "maintainer_requested") (
            field "status_claim" (str "v1_publication_in_progress_with_deferred_assurance") (
              field "publication_ready" (bool false) (
                field "release_qualified" (bool false) (
                  field "requires_independent_human_review" (bool false) (
                    field "source" (obj (source_fields commit workflow_ref)) (
                      field "contract" (obj (contract_fields contract)) (
                        field "workflow" (obj (workflow_fields run_id run_attempt)) (
                          field "maintainer_confirmation" (str "accepted_exact_phrase") (
                            field "maven_coordinates" (texts maven_coordinates) (
                              field "deferred_evidence" (texts deferred_evidence) (
                                field "forbidden_claims" (texts forbidden_claims) (
                                  field "global_profile_required_evidence" (arr nil) (
                                    field "downstream_required_gates" (texts downstream_gates)
                                      end))))))))))))))))
