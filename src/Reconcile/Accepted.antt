-- ===== src/Reconcile/Accepted.antt =====
-- What `validate_release` accepts.
use latchway_android.Base.{
  inl, inr, String, ◌≡◌, refl, ==_iff, Bool, true, false, List, [], ◌∷◌, All, map, member, distinct,
  ok, Result-cases, arith,
}
use latchway_android.Json.{
  as_arr, Json, str, arr, obj, Items, items, Fields, get, eq_str, is_bool, is_any_bool,
}
use latchway_android.Json.Laws.{as_obj_cases, as_arr_cases, as_str_cases}
use latchway_android.Reconcile.Release.{
  Expected, Observed, observed_names, is_positive_id, validate_assets, validate_release,
}

-- An asset of the release under its own name, which is expected; it is fully uploaded and has an
-- identifier.
pub record IsObserved (names : List String) (o : String × Fields) : Type 0 where
  pub own_name : get "name" o.1 ≡ str o.0
  pub is_expected : member o.0 names ≡ true
  pub is_uploaded : eq_str (get "state" o.1) "uploaded" ≡ true
  pub has_id : is_positive_id (get "id" o.1) ≡ true

abbrev pub objects : Observed → List Json
objects observed = map (λ o. obj o.1) observed

-- The release has the tag, the title and the prerelease state that are expected, and its assets are
-- the observed ones with pairwise different names.
pub record IsAccepted (release : Fields) (expected : Expected) (observed : Observed) : Type 0 where
  pub same_tag : eq_str (get "tag_name" release) expected.tag ≡ true
  pub same_title : eq_str (get "name" release) expected.title ≡ true
  pub same_prerelease : is_bool expected.prerelease (get "prerelease" release) ≡ true
  pub draft_or_not : is_any_bool (get "draft" release) ≡ true
  pub assets : Items
  pub listed : get "assets" release ≡ arr assets
  pub all_observed : items assets ≡ objects observed
  pub each : All (IsObserved expected.names) observed
  pub names_differ : distinct (observed_names observed) ≡ true

-- What the loop gives from here on, with the names so far.
record AreObserved (names seen : List String) (raw : List Json) (observed : Observed) : Type 0 where
  same_objects : raw ≡ objects observed
  each : All (IsObserved names) observed
  names_differ : distinct (observed_names observed) ≡ true
  apart : (n : String) → member n seen ≡ true → member n (observed_names observed) ≡ false

validate_assets-AreObserved :
    (raw : List Json) (names seen : List String) (observed : Observed)
    → validate_assets raw names seen ≡ ok observed
    → AreObserved names seen raw observed
unfolding validate_assets observed_names distinct member
validate_assets-AreObserved [] names seen observed h =
    let same : observed ≡ [] = ground arith in
    rw same (record { same_objects = refl; each = tt; names_differ = refl; apart = λ n m. refl })
validate_assets-AreObserved (value ∷ rest) names seen observed h =
    elim (as_obj_cases value "Existing GitHub release has invalid asset metadata.") [
      | inr failed ↦ absurd (ground arith)
      | inl (asset, e) ↦
          elim (as_str_cases (get "name" asset)
            "Existing GitHub release has invalid asset metadata.") [
              | inr failed ↦ absurd (ground arith)
              | inl (name, named) ↦ elim (Result-cases (validate_assets rest names (name ∷ seen))) [
                | inr (c, failed) ↦ absurd (ground arith)
                | inl (more, read) ↦
                    let same : observed ≡ (name, asset) ∷ more = ground arith in
                    let fresh : member name seen ≡ false = ground arith in
                    let later = validate_assets-AreObserved rest names (name ∷ seen) more read in
                    rw same (record {
                      same_objects = rw (e, later.same_objects) refl;
                      each = (
                        record {
                          own_name = named;
                          is_expected = ground arith;
                          is_uploaded = ground arith;
                          has_id = ground arith;
                        },
                        later.each,
                      );
                      names_differ = ground (arith, later.apart name, later.names_differ);
                      apart = λ n m. ground (arith, later.apart n, fresh, m, ==_iff n name);
                    })
              ]
            ]
    ]

pub validate_release-IsAccepted :
    (release : Fields) (expected : Expected) (allow_draft require_immutable : Bool)
    (observed : Observed)
    → validate_release release expected allow_draft require_immutable ≡ ok observed
    → IsAccepted release expected observed
unfolding validate_release
validate_release-IsAccepted release expected allow_draft require_immutable observed h =
    elim (as_arr_cases (get "assets" release)
      "Existing GitHub release has an invalid asset list.") [
        | inr failed ↦ absurd (ground arith)
        | inl (assets, listed) ↦
            let read : validate_assets (items assets) expected.names [] ≡ ok observed =
              ground arith in
            let found =
              validate_assets-AreObserved (items assets) expected.names [] observed read in
            record {
              same_tag = ground arith;
              same_title = ground arith;
              same_prerelease = ground arith;
              draft_or_not = ground arith;
              assets = assets;
              listed = listed;
              all_observed = found.same_objects;
              each = found.each;
              names_differ = found.names_differ;
            }
      ]

-- A release that is accepted as final is no draft and is immutable.
pub validate_release-final :
    (release : Fields) (expected : Expected) (observed : Observed)
    → validate_release release expected false true ≡ ok observed
    → (is_bool true (get "draft" release) ≡ false) × (is_bool true (get "immutable" release) ≡ true)
unfolding validate_release
validate_release-final release expected observed h =
    elim (Result-cases
      (as_arr (get "assets" release) "Existing GitHub release has an invalid asset list.")) [
        | inr (c, failed) ↦ absurd (ground arith)
        | inl (raw, listed) ↦ (ground arith, ground arith)
      ]
