-- ===== src/Promotion/Report/Domains/Passed.antt =====
-- What one round of the loop over `PROMOTION_DOMAINS` accepts.
use latchway_android.Base.{
  ℕ, ◌≤◌, ◌<◌, String, ◌≡◌, refl, inl, inr, ◌↔◌, true, List, [], ◌∷◌, length, all, arith, distinct,
  ok,
}
use latchway_android.Json.{Json, str, arr, Items, items, Fields, get, is_bool, eq_str, str_matches}
use latchway_android.Json.Laws.{as_arr_cases}
use latchway_android.Promotion.Constants.{sha256_pattern}
use latchway_android.Promotion.Report.Window.{IsTime, parse_time_iff}
use latchway_android.Promotion.Report.Domains.{
  check_artifacts, check_promotion, invalid, is_hashable, texts_of,
}

-- One promotion domain that passed within the window, bound to the image.
pub record IsPassed (fs : Fields) (window_started window_finished : ℕ) (image : String)
    (started finished : ℕ) : Type 0 where
  pub required : is_bool true (get "required" fs) ≡ true
  pub passed : eq_str (get "status" fs) "passed" ≡ true
  pub document : str_matches sha256_pattern (get "document_sha256" fs) ≡ true
  pub bound : eq_str (get "oci_image_digest" fs) image ≡ true
  pub artifacts : Items
  pub has_artifacts : get "artifact_sha256" fs ≡ arr artifacts
  pub some_artifacts : 1 ≤ length (items artifacts)
  pub few_artifacts : length (items artifacts) ≤ 64
  pub digests : all (str_matches sha256_pattern) (items artifacts) ≡ true
  pub no_repeats : distinct (texts_of (items artifacts)) ≡ true
  pub starts : IsTime (get "started_at" fs) started
  pub finishes : IsTime (get "finished_at" fs) finished
  pub inside_start : window_started ≤ started
  pub nonempty : started < finished
  pub inside_end : finished ≤ window_finished

all-is_hashable :
    (xs : List Json) → all (str_matches sha256_pattern) xs ≡ true → all is_hashable xs ≡ true
unfolding str_matches is_hashable
all-is_hashable [] h = refl
all-is_hashable (str s ∷ xs) h = all-is_hashable xs (ground arith)
all-is_hashable (_ ∷ xs) h = cc

module _ (fs : Fields) (window_started window_finished : ℕ) (image : String) where
  passed_sound_at :
      (xs : Items) (started finished : ℕ)
      → get "artifact_sha256" fs ≡ arr xs
      → check_promotion fs window_started window_finished image ≡ ok (started, finished)
      → IsPassed fs window_started window_finished image started finished
  unfolding check_promotion check_artifacts
  passed_sound_at xs started finished is_list h = record {
    required = ground arith;
    passed = ground arith;
    document = ground arith;
    bound = ground arith;
    artifacts = xs;
    has_artifacts = is_list;
    some_artifacts = ground arith;
    few_artifacts = ground arith;
    digests = ground arith;
    no_repeats = ground arith;
    starts = (parse_time_iff (get "started_at" fs) invalid started).0 (ground arith);
    finishes = (parse_time_iff (get "finished_at" fs) invalid finished).0 (ground arith);
    inside_start = ground arith;
    nonempty = ground arith;
    inside_end = ground arith;
  }

  passed_sound :
      (started finished : ℕ)
      → check_promotion fs window_started window_finished image ≡ ok (started, finished)
      → IsPassed fs window_started window_finished image started finished
  unfolding check_promotion
  passed_sound started finished h = elim (as_arr_cases (get "artifact_sha256" fs) invalid) [
    | inl (xs, is_list) ↦ passed_sound_at xs started finished is_list h
    | inr refused ↦ absurd (ground arith)
  ]

  passed_complete :
      (started finished : ℕ)
      → IsPassed fs window_started window_finished image started finished
      → check_promotion fs window_started window_finished image ≡ ok (started, finished)
  unfolding check_promotion check_artifacts
  passed_complete started finished w = ground (
    arith,
    (parse_time_iff (get "started_at" fs) invalid started).1 w.starts,
    (parse_time_iff (get "finished_at" fs) invalid finished).1 w.finishes,
    all-is_hashable (items w.artifacts) w.digests,
  )

  -- One round of the loop over `PROMOTION_DOMAINS` accepts exactly the passed domains.
  pub check_promotion_iff :
      (started finished : ℕ)
      → (check_promotion fs window_started window_finished image ≡ ok (started, finished))
        ↔ IsPassed fs window_started window_finished image started finished
  check_promotion_iff started finished =
      (passed_sound started finished, passed_complete started finished)
