-- ===== src/Promotion/Report.antt =====
-- The parts of the promotion report: `validate_coordinate`, `validate_contract`, `validate_window`.
pub mod Domains
pub mod Checks
pub mod Window
use latchway_android.Base.{
  ℕ, ◌-◌, String, ◌<>◌, Bool, true, false, not, none, some, List, [], ◌∷◌, ◌||◌, leb, ltb, ◌==◌,
  if◌then◌else◌, member, codes, Result, ok, err, rejected, reject_if, ◌>>=◌, ◌>>◌,
}
use latchway_android.Regex.{Regex, fullmatch}
use latchway_android.Json.{
  Json, str, int, pos, Fields, get, keys_are, as_obj, as_str, eq_str, eq_num, str_matches,
}
use latchway_android.Clock.{instant, strptime}
use latchway_android.Promotion.Constants.{
  maximum_age, repository_ids, contract_fields, semver, tag_pattern, commit_pattern, sha256_pattern,
  canonical_time,
}

-- The instant of the time, in seconds.
unfoldable pub parse_time : Json → String → Result ℕ
parse_time (str text) code =
    if fullmatch canonical_time text
    then elim (strptime (codes text)) [ none ↦ err (rejected code) | some t ↦ ok (instant t) ]
    else err (rejected code)
parse_time _ code = err (rejected code)

pub record Coordinate : Type 0 where
  pub id : String
  pub commit : String
  pub version : String
  pub intended_tag : String

unfoldable pub validate_coordinate : Json → Result Coordinate
validate_coordinate value = do
  let code : String = "promotion_repository_coordinate_invalid"
  fs ← as_obj value code
  reject_if (not (keys_are fs ("id" ∷ "commit" ∷ "version" ∷ "intended_tag" ∷ []))) code
  repository_id ← as_str (get "id" fs) code
  reject_if (not (member repository_id repository_ids)) code
  commit ← as_str (get "commit" fs) code
  reject_if (not (fullmatch commit_pattern commit)) code
  version ← as_str (get "version" fs) code
  reject_if (not (fullmatch semver version)) code
  intended_tag ← as_str (get "intended_tag" fs) code
  reject_if (not (intended_tag == "v" <> version) || not (fullmatch tag_pattern intended_tag)) code
  ok (record {
    id = repository_id;
    commit = commit;
    version = version;
    intended_tag = intended_tag;
  })

-- `isinstance(value, int) and not isinstance(value, bool) and value >= 1`
unfoldable pub is_positive_int : Json → Bool
is_positive_int (int (pos n)) = leb 1 n
is_positive_int _ = false

unfoldable pub validate_contract : Json → String → String → ℕ → Result (ℕ × Fields)
validate_contract value core_tag oci_image_digest now = do
  let code : String = "promotion_contract_invalid"
  fs ← as_obj value code
  reject_if (not (keys_are fs contract_fields)) code
  released_at ← parse_time (get "released_at" fs) "promotion_contract_time_invalid"
  version ← as_str (get "version" fs) code
  reject_if
      (not (fullmatch semver version)
        || not (eq_str (get "status" fs) "released")
        || not (is_positive_int (get "wire_protocol" fs))
        || not (eq_str (get "bundle_file_name" fs) ("latchway-contract-" <> version <> ".tar.gz"))
        || not (str_matches sha256_pattern (get "bundle_sha256" fs))
        || not (eq_str (get "core_release" fs) core_tag)
        || not (eq_str (get "oci_image_digest" fs) oci_image_digest)
        || ltb now released_at
        || ltb maximum_age (now - released_at))
      code
  ok (released_at, fs)

unfoldable pub validate_window : Json → ℕ → ℕ → Result (ℕ × ℕ)
validate_window value released_at now = do
  let code : String = "promotion_evidence_window_invalid"
  fs ← as_obj value code
  reject_if (not (keys_are fs ("started_at" ∷ "finished_at" ∷ "maximum_age_seconds" ∷ []))) code
  started ← parse_time (get "started_at" fs) code
  finished ← parse_time (get "finished_at" fs) code
  reject_if
      (not (eq_num (get "maximum_age_seconds" fs) maximum_age)
        || ltb started released_at
        || leb finished started
        || ltb now finished
        || ltb maximum_age (now - finished)
        || ltb maximum_age (finished - started))
      code
  ok (started, finished)
