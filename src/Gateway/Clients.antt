-- ===== src/Gateway/Clients.antt =====
-- `bounded_text` and `validate_client`: the policy for one client of a deployment.
use latchway_android.Base.{
  ℕ, String, Bool, true, false, not, List, [], ◌∷◌, ◌&&◌, ◌||◌, leb, eqb, ◌==◌, if◌then◌else◌,
  codes, length, all, member, same_set, Result, ok, err, rejected, type_error, reject_if, ◌>>=◌,
  ◌>>◌,
}
use latchway_android.Json.{
  Json, bool, str, arr, obj, Fields, keys, get, keys_are, as_obj, eq_str, str_matches, is_bool,
}
use latchway_android.Gateway.Constants.{
  ios_client_fields, android_client_fields, ios_platforms, android_platforms, trust_levels,
  play_tracks, hash_pattern, identifier, team_id_pattern, cloud_project,
}

-- `value in texts` for a set of texts: a list or an object has no hash.
unfoldable pub in_set : Json → List String → Result Bool
in_set (str s) texts = ok (member s texts)
in_set (arr xs) texts = err type_error
in_set (obj fs) texts = err type_error
in_set _ texts = ok false

unfoldable pub bounded_text : Json → ℕ → Bool
bounded_text (str s) maximum =
    leb 1 (length (codes s))
    && leb (length (codes s)) maximum
    && all (λ c. leb 0x20 c && not (eqb c 0x7f)) (codes s)
bounded_text _ maximum = false

unfoldable pub check_ios : Fields → Result (Unit {0})
check_ios fs = do
  reject_if (not (keys_are fs ios_client_fields)) "client_fields_invalid"
  reject_if (not (eq_str (get "provider" fs) "app_attest")) "client_provider_invalid"
  reject_if (not (eq_str (get "app_attest_environment" fs) "production"))
      "client_app_attest_environment_invalid"
  reject_if (not (str_matches team_id_pattern (get "team_id" fs))) "client_team_id_invalid"
  reject_if
      (not (is_bool false (get "require_play_recognized" fs))
        || not (is_bool false (get "require_licensed" fs)))
      "client_play_policy_invalid"

unfoldable pub check_android : Fields → Result (Unit {0})
check_android fs = do
  reject_if (not (keys_are fs android_client_fields)) "client_fields_invalid"
  reject_if (not (eq_str (get "provider" fs) "play_integrity")) "client_provider_invalid"
  reject_if (not (str_matches cloud_project (get "cloud_project_number" fs)))
      "client_cloud_project_invalid"
  reject_if (not (eq_str (get "installer_package" fs) "com.android.vending"))
      "client_installer_invalid"
  track ← in_set (get "play_track" fs) play_tracks
  reject_if (not track) "client_play_track_invalid"
  reject_if
      (not (is_bool true (get "require_play_recognized" fs))
        || not (is_bool true (get "require_licensed" fs)))
      "client_play_policy_invalid"

-- The branch on the platform.
unfoldable pub check_platform : Fields → Result (Unit {0})
check_platform fs = do
  ios ← in_set (get "platform" fs) ios_platforms
  android ← in_set (get "platform" fs) android_platforms
  (if ios
      then check_ios fs
      else if android
      then check_android fs
      else err (rejected "client_platform_invalid"))

unfoldable pub validate_client : Json → Result Fields
validate_client value = do
  fs ← as_obj value "client_invalid"
  check_platform fs
  reject_if (not (str_matches identifier (get "application_identifier" fs)))
      "client_application_identifier_invalid"
  reject_if
      (not (bounded_text (get "app_version" fs) 64)
        || not (bounded_text (get "build_number" fs) 64))
      "client_version_invalid"
  reject_if (not (str_matches hash_pattern (get "signing_certificate_sha256" fs)))
      "client_signing_certificate_invalid"
  trusted ← in_set (get "minimum_trust_level" fs) trust_levels
  reject_if (not trusted) "client_trust_policy_invalid"
  reject_if (not (is_bool true (get "require_request_hash" fs)))
      "client_request_hash_policy_invalid"
  reject_if
      (not (is_bool false (get "allow_testing" fs)) || not (is_bool false (get "allow_debug" fs)))
      "client_release_policy_invalid"
  ok fs

-- `left == right` of values of validated clients, which are texts and Booleans.
unfoldable pub same_scalar : Json → Json → Bool
same_scalar (str s) (str t) = s == t
same_scalar (bool true) (bool true) = true
same_scalar (bool false) (bool false) = true
same_scalar _ _ = false

unfoldable pub same_values : List String → Fields → Fields → Bool
same_values [] fs gs = true
same_values (k ∷ ks) fs gs = same_scalar (get k fs) (get k gs) && same_values ks fs gs

-- `client == expected_client`
unfoldable pub same_client : Fields → Fields → Bool
same_client fs gs = same_set (keys fs) (keys gs) && same_values (keys fs) fs gs
