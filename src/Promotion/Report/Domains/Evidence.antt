-- ===== src/Promotion/Report/Domains/Evidence.antt =====
-- What `validate_domains` accepts: six passed domains that span the evidence window exactly.
use latchway_android.Base.{
  ℕ, String, ◌≡◌, refl, ◌⊎◌, inl, inr, Bool, true, false, List, [], ◌∷◌, length, arith, member,
  same_set, same_set-member, ok, Result-cases,
}
use latchway_android.Json.{
  Json, arr, Items, items, Fields, get, is_null, is_bool, eq_str, is_empty_arr,
}
use latchway_android.Promotion.Constants.{all_domains, promotion_domains}
use latchway_android.Promotion.Report.Domains.{
  Domains, names, find, collect, check_promotion, check_promotions, window_is_tight,
  validate_domains, expected_simple, check_simple, simple_invalid,
}
use latchway_android.Promotion.Report.Domains.Passed.{IsPassed, check_promotion_iff}
use latchway_android.Promotion.Report.Domains.Collected.{Holds, collect_holds}
use latchway_android.Promotion.Report.Domains.Spans.{
  Spans, check_promotions-Spans, span_of_member, tight-Ends,
}

-- A domain that the promotion report only names: no evidence is attached to it.
pub record IsSimple (fs : Fields) (required : Bool) (status : String) : Type 0 where
  pub is_required : is_bool required (get "required" fs) ≡ true
  pub has_status : eq_str (get "status" fs) status ≡ true
  pub no_start : is_null (get "started_at" fs) ≡ true
  pub no_finish : is_null (get "finished_at" fs) ≡ true
  pub no_document : is_null (get "document_sha256" fs) ≡ true
  pub no_image : is_null (get "oci_image_digest" fs) ≡ true
  pub no_artifacts : is_empty_arr (get "artifact_sha256" fs) ≡ true

-- The triple stands in the list.
abbrev pub Lists : String → Bool → String → List (String × Bool × String) → Type 0
Lists k required status [] = ⊥
Lists k required status ((j, r, s) ∷ more) =
    ((k ≡ j) × (required ≡ r) × (status ≡ s)) ⊎ Lists k required status more

simple_sound :
    (fs : Fields) (required : Bool) (status : String)
    → simple_invalid fs required status ≡ false
    → IsSimple fs required status
unfolding simple_invalid
simple_sound fs required status h = record {
  is_required = ground arith;
  has_status = ground arith;
  no_start = ground arith;
  no_finish = ground arith;
  no_document = ground arith;
  no_image = ground arith;
  no_artifacts = ground arith;
}

check_simple_sound :
    (ds : Domains) (expected : List (String × Bool × String)) (k : String) (required : Bool)
    (status : String)
    → check_simple ds expected ≡ ok tt
    → Lists k required status expected
    → IsSimple (find k ds) required status
unfolding check_simple
check_simple_sound ds [] k required status h m = absurd m
check_simple_sound ds ((j, r, s) ∷ more) k required status h (inl (e, e', e'')) =
    simple_sound (find k ds) required status (rw (e, e', e'') (ground arith))
check_simple_sound ds ((j, r, s) ∷ more) k required status h (inr m) =
    check_simple_sound ds more k required status (ground arith) m

Lists-member :
    (k : String) (required : Bool) (status : String)
    → Lists k required status expected_simple
    → member k all_domains ≡ true
unfolding member
Lists-member k required status h = ground arith

promotion_member : (k : String) → member k promotion_domains ≡ true → member k all_domains ≡ true
unfolding member
promotion_member k h = ground arith

pub record IsEvidence (value : Json) (window_started window_finished : ℕ) (image : String)
    : Type 0 where
  pub list : Items
  pub is_list : value ≡ arr list
  pub eleven : length (items list) ≡ 11
  pub simple :
      (k : String) (required : Bool) (status : String)
      → Lists k required status expected_simple
      → (fs : Fields) × Holds k (items list) fs × IsSimple fs required status
  pub passed :
      (k : String)
      → member k promotion_domains ≡ true
      → (fs : Fields) × (s : ℕ) × (f : ℕ) × Holds k (items list) fs
        × IsPassed fs window_started window_finished image s f
  pub first :
      (k : String) × (fs : Fields) × (f : ℕ) × (member k promotion_domains ≡ true)
      × Holds k (items list) fs
      × IsPassed fs window_started window_finished image window_started f
  pub last :
      (k : String) × (fs : Fields) × (s : ℕ) × (member k promotion_domains ≡ true)
      × Holds k (items list) fs
      × IsPassed fs window_started window_finished image s window_finished

module _ (order : List String) (window_started window_finished : ℕ) (image : String) where
  IsEvidence-at :
      (xs : Items) (ds : Domains) (spans : List (ℕ × ℕ))
      → same_set order promotion_domains ≡ true
      → length (items xs) ≡ 11
      → collect (items xs) [] ≡ ok ds
      → same_set (names ds) all_domains ≡ true
      → check_simple ds expected_simple ≡ ok tt
      → check_promotions order ds window_started window_finished image ≡ ok spans
      → window_is_tight spans window_started window_finished ≡ true
      → IsEvidence (arr xs) window_started window_finished image
  IsEvidence-at xs ds spans ordered eleven collected complete simple passed tight = record {
    list = xs;
    is_list = refl;
    eleven = eleven;
    simple = λ k required status m. (
      find k ds,
      at k (Lists-member k required status m),
      check_simple_sound ds expected_simple k required status simple m,
    );
    passed = λ k m.
        let (s, f, e) =
          span_of_member ds window_started window_finished image order spans k every
            (rw (same_set-member order promotion_domains ordered k) m) in
        (find k ds, s, f, at k (promotion_member k m), sound (find k ds) s f e);
    first =
        let (k, f, m, e) =
          (tight-Ends ds window_started window_finished image order spans every tight).0 in
        (
          k,
          find k ds,
          f,
          promoted k m,
          at k (promotion_member k (promoted k m)),
          sound (find k ds) window_started f e,
        );
    last =
        let (k, s, m, e) =
          (tight-Ends ds window_started window_finished image order spans every tight).1 in
        (
          k,
          find k ds,
          s,
          promoted k m,
          at k (promotion_member k (promoted k m)),
          sound (find k ds) s window_finished e,
        );
  }
    where
      every : Spans ds window_started window_finished image order spans
      every = check_promotions-Spans ds window_started window_finished image order spans passed

      at : (k : String) → member k all_domains ≡ true → Holds k (items xs) (find k ds)
      at k m =
          collect_holds (items xs) [] ds k collected
            (rw (same_set-member (names ds) all_domains complete k) m)

      promoted : (k : String) → member k order ≡ true → member k promotion_domains ≡ true
      promoted k m = rw (same_set-member order promotion_domains ordered k) at m

      sound :
          (fs : Fields) (s f : ℕ)
          → check_promotion fs window_started window_finished image ≡ ok (s, f)
          → IsPassed fs window_started window_finished image s f
      sound fs s f = (check_promotion_iff fs window_started window_finished image s f).0

  -- Whatever the order of iteration, an accepted list of domains is evidence for the window: each
  -- promotion domain passed inside it on the image, both its ends are reached, and the other
  -- domains carry no evidence.
  pub validate_domains_sound :
      (value : Json)
      → same_set order promotion_domains ≡ true
      → validate_domains order value window_started window_finished image ≡ ok tt
      → IsEvidence value window_started window_finished image
  unfolding validate_domains
  validate_domains_sound (arr xs) ordered h = elim (Result-cases (collect (items xs) [])) [
    | inl (ds, collected) ↦
        elim (Result-cases (check_promotions order ds window_started window_finished image)) [
          | inl (spans, passed) ↦
              IsEvidence-at xs ds spans ordered (ground arith) collected (ground arith)
                (ground arith) passed (ground arith)
          | inr (e, failed) ↦ absurd (ground arith)
        ]
    | inr (e, failed) ↦ absurd (ground arith)
  ]
  validate_domains_sound _ ordered h = cc
