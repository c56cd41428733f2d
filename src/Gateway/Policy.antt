-- ===== src/Gateway/Policy.antt =====
-- What the policy for a client says.
use latchway_android.Base.{
  String, ◌≡◌, refl, ◌⊎◌, inl, inr, true, false, List, member, ok, Result-cases, Bool-cases, arith,
}
use latchway_android.Json.{Json, str, obj, Fields, get, keys_are, eq_str, str_matches, is_bool}
use latchway_android.Json.Laws.{as_obj_cases}
use latchway_android.Gateway.Constants.{
  ios_client_fields, android_client_fields, ios_platforms, android_platforms, trust_levels,
  play_tracks, hash_pattern, identifier, team_id_pattern, cloud_project,
}
use latchway_android.Gateway.Clients.{
  in_set, bounded_text, check_ios, check_android, check_platform, validate_client,
}

-- A text of a set.
abbrev pub IsOneOf : Json → List String → Type 0
IsOneOf v texts = (s : String) × (v ≡ str s) × (member s texts ≡ true)

-- An application of a named team, attested by Apple in production, with no demand on Play.
pub record IsIos (fs : Fields) : Type 0 where
  pub platform : IsOneOf (get "platform" fs) ios_platforms
  pub exact_keys : keys_are fs ios_client_fields ≡ true
  pub provider : eq_str (get "provider" fs) "app_attest" ≡ true
  pub attest : eq_str (get "app_attest_environment" fs) "production" ≡ true
  pub team : str_matches team_id_pattern (get "team_id" fs) ≡ true
  pub not_recognized : is_bool false (get "require_play_recognized" fs) ≡ true
  pub not_licensed : is_bool false (get "require_licensed" fs) ≡ true

-- An application of a numbered cloud project that Play recognises, installed by the Play store
-- under a licence from one of the release tracks.
pub record IsAndroid (fs : Fields) : Type 0 where
  pub platform : IsOneOf (get "platform" fs) android_platforms
  pub exact_keys : keys_are fs android_client_fields ≡ true
  pub provider : eq_str (get "provider" fs) "play_integrity" ≡ true
  pub project : str_matches cloud_project (get "cloud_project_number" fs) ≡ true
  pub installer : eq_str (get "installer_package" fs) "com.android.vending" ≡ true
  pub track : IsOneOf (get "play_track" fs) play_tracks
  pub recognized : is_bool true (get "require_play_recognized" fs) ≡ true
  pub licensed : is_bool true (get "require_licensed" fs) ≡ true

-- A client that may be released: the tests of its platform, an identifier, bounded texts for its
-- version and build, the hash of its certificate, a trust level of the device, a hash of each
-- request, no testing and no debugging.
pub record IsReleaseClient (value : Json) (fs : Fields) : Type 0 where
  pub is_object : value ≡ obj fs
  pub platform : IsIos fs ⊎ IsAndroid fs
  pub application : str_matches identifier (get "application_identifier" fs) ≡ true
  pub app_version : bounded_text (get "app_version" fs) 64 ≡ true
  pub build_number : bounded_text (get "build_number" fs) 64 ≡ true
  pub certificate : str_matches hash_pattern (get "signing_certificate_sha256" fs) ≡ true
  pub trust : IsOneOf (get "minimum_trust_level" fs) trust_levels
  pub request_hash : is_bool true (get "require_request_hash" fs) ≡ true
  pub no_testing : is_bool false (get "allow_testing" fs) ≡ true
  pub no_debug : is_bool false (get "allow_debug" fs) ≡ true

in_set-true : (v : Json) (texts : List String) → in_set v texts ≡ ok true → IsOneOf v texts
unfolding in_set
in_set-true (str s) texts h = (s, refl, ground arith)
in_set-true _ texts h = cc

IsIos-of :
    (fs : Fields)
    → in_set (get "platform" fs) ios_platforms ≡ ok true
    → check_ios fs ≡ ok tt
    → IsIos fs
unfolding check_ios
IsIos-of fs platform h = record {
  platform = in_set-true (get "platform" fs) ios_platforms platform;
  exact_keys = ground arith;
  provider = ground arith;
  attest = ground arith;
  team = ground arith;
  not_recognized = ground arith;
  not_licensed = ground arith;
}

IsAndroid-of :
    (fs : Fields)
    → in_set (get "platform" fs) android_platforms ≡ ok true
    → check_android fs ≡ ok tt
    → IsAndroid fs
unfolding check_android
IsAndroid-of fs platform h = elim (Result-cases (in_set (get "play_track" fs) play_tracks)) [
  | inr (e, failed) ↦ absurd (ground arith)
  | inl (track, found) ↦
      let listed : in_set (get "play_track" fs) play_tracks ≡ ok true = ground arith in
      record {
        platform = in_set-true (get "platform" fs) android_platforms platform;
        exact_keys = ground arith;
        provider = ground arith;
        project = ground arith;
        installer = ground arith;
        track = in_set-true (get "play_track" fs) play_tracks listed;
        recognized = ground arith;
        licensed = ground arith;
      }
]

platform_of : (fs : Fields) → check_platform fs ≡ ok tt → IsIos fs ⊎ IsAndroid fs
unfolding check_platform
platform_of fs h = elim (Result-cases (in_set (get "platform" fs) ios_platforms)) [
  | inr (e, failed) ↦ absurd (ground arith)
  | inl (ios, i) ↦ elim (Result-cases (in_set (get "platform" fs) android_platforms)) [
    | inr (e, failed) ↦ absurd (ground arith)
    | inl (android, a) ↦ elim (Bool-cases ios) [
      | inl yes_ios ↦ inl (IsIos-of fs (rw yes_ios at i) (ground arith))
      | inr no_ios ↦ elim (Bool-cases android) [
        | inl yes_android ↦ inr (IsAndroid-of fs (rw yes_android at a) (ground arith))
        | inr no_android ↦ absurd (ground arith)
      ]
    ]
  ]
]

-- A client that is accepted has a text as identifier and hash of its certificate in their form, a
-- version and a build number of 1 to 64 printable characters, a trust level of the set, asks for
-- request hashes and allows neither testing nor debugging. On iOS its provider is App Attest in
-- production, with a team and no demand on Play; on Android it is Play Integrity with a cloud
-- project, the Play store as installer, a release track, recognition and a licence. It has exactly
-- the fields of its platform.
pub validate_client-IsReleaseClient :
    (value : Json) (fs : Fields) → validate_client value ≡ ok fs → IsReleaseClient value fs
unfolding validate_client
validate_client-IsReleaseClient value fs h = elim (as_obj_cases value "client_invalid") [
  | inr failed ↦ absurd (ground arith)
  | inl (gs, e) ↦ elim (Result-cases (check_platform gs)) [
    | inr (c, failed) ↦ absurd (ground arith)
    | inl (_, platform) ↦ elim (Result-cases (in_set (get "minimum_trust_level" gs) trust_levels)) [
      | inr (c, failed) ↦ absurd (ground arith)
      | inl (trusted, t) ↦
          let same : gs ≡ fs = ground arith in
          let listed : in_set (get "minimum_trust_level" fs) trust_levels ≡ ok true =
            ground arith in
          record {
            is_object = rw same at e;
            platform = platform_of fs (rw same at platform);
            application = ground arith;
            app_version = ground arith;
            build_number = ground arith;
            certificate = ground arith;
            trust = in_set-true (get "minimum_trust_level" fs) trust_levels listed;
            request_hash = ground arith;
            no_testing = ground arith;
            no_debug = ground arith;
          }
    ]
  ]
]
