-- ===== src/Promotion/Report/Domains.antt =====
-- `validate_domains`: the eleven evidence domains of the report.
pub mod Passed
pub mod Collected
pub mod Spans
pub mod Evidence
use latchway_android.Base.{
  ℕ, String, Bool, true, false, not, List, [], ◌∷◌, ◌&&◌, ◌||◌, leb, ltb, eqb, ◌==◌, if◌then◌else◌,
  length, all, member, same_set, distinct, Result, ok, err, type_error, reject_if, ◌>>=◌, ◌>>◌,
}
use latchway_android.Json.{
  Json, str, arr, obj, Fields, end, get, keys_are, as_obj, as_arr, as_str, is_null, is_bool, eq_str,
  is_empty_arr, str_matches,
}
use latchway_android.Promotion.Constants.{domain_fields, all_domains, sha256_pattern}
use latchway_android.Promotion.Report.{parse_time}

abbrev pub invalid : String
invalid = "promotion_evidence_domains_invalid"

-- `domains`, a dictionary in insertion order whose keys are distinct.
abbrev pub Domains : Type 0
Domains = List (String × Fields)

unfoldable pub names : Domains → List String
names [] = []
names ((k, _) ∷ ds) = k ∷ names ds

-- `domains[identifier]`, where the identifier is a key.
unfoldable pub find : String → Domains → Fields
find k [] = end
find k ((j, fs) ∷ ds) = if k == j then fs else find k ds

-- The first loop, from the domains seen so far.
unfoldable pub collect : List Json → List String → Result Domains
collect [] seen = ok []
collect (domain ∷ rest) seen = do
  fs ← as_obj domain invalid
  reject_if (not (keys_are fs domain_fields)) invalid
  identifier ← as_str (get "id" fs) invalid
  reject_if (member identifier seen || not (member identifier all_domains)) invalid
  more ← collect rest (identifier ∷ seen)
  ok ((identifier, fs) ∷ more)

-- `expected_simple`
abbrev pub expected_simple : List (String × Bool × String)
expected_simple =
    ("local_source", true, "passed")
    ∷ ("local_promotion", true, "passed")
    ∷ ("local_release", false, "unverified")
    ∷ ("public_tags", false, "unverified")
    ∷ ("public_registries", false, "unverified")
    ∷ []

unfoldable pub simple_invalid : Fields → Bool → String → Bool
simple_invalid fs required status =
    not (is_bool required (get "required" fs))
    || not (eq_str (get "status" fs) status)
    || not (is_null (get "started_at" fs))
    || not (is_null (get "finished_at" fs))
    || not (is_null (get "document_sha256" fs))
    || not (is_null (get "oci_image_digest" fs))
    || not (is_empty_arr (get "artifact_sha256" fs))

unfoldable pub check_simple : Domains → List (String × Bool × String) → Result (Unit {0})
check_simple ds [] = ok tt
check_simple ds ((k, required, status) ∷ more) = do
  reject_if (simple_invalid (find k ds) required status) invalid
  check_simple ds more

-- A list or a dictionary cannot be a member of a set.
unfoldable pub is_hashable : Json → Bool
is_hashable (arr xs) = false
is_hashable (obj fs) = false
is_hashable _ = true

-- The texts of a list all of whose members are texts.
unfoldable pub texts_of : List Json → List String
texts_of [] = []
texts_of (str s ∷ xs) = s ∷ texts_of xs
texts_of (_ ∷ xs) = texts_of xs

-- The tests of `artifacts` after the one of its length. `len(set(artifacts))` raises on an
-- unhashable member before any member is known to be a text. A list with a member that is no text
-- is refused by one of the two tests that follow, with the same code.
unfoldable pub check_artifacts : List Json → Result (Unit {0})
check_artifacts xs =
    if not (all is_hashable xs)
    then err type_error
    else reject_if (not (all (str_matches sha256_pattern) xs) || not (distinct (texts_of xs)))
        invalid

-- One round of the loop over `PROMOTION_DOMAINS`.
unfoldable pub check_promotion : Fields → ℕ → ℕ → String → Result (ℕ × ℕ)
check_promotion fs window_started window_finished oci_image_digest = do
  started ← parse_time (get "started_at" fs) invalid
  finished ← parse_time (get "finished_at" fs) invalid
  reject_if
      (not (is_bool true (get "required" fs))
        || not (eq_str (get "status" fs) "passed")
        || not (str_matches sha256_pattern (get "document_sha256" fs))
        || not (eq_str (get "oci_image_digest" fs) oci_image_digest))
      invalid
  artifacts ← as_arr (get "artifact_sha256" fs) invalid
  reject_if (not (leb 1 (length artifacts) && leb (length artifacts) 64)) invalid
  check_artifacts artifacts
  reject_if (ltb started window_started || ltb window_finished finished || leb finished started)
      invalid
  ok (started, finished)

unfoldable pub check_promotions : List String → Domains → ℕ → ℕ → String → Result (List (ℕ × ℕ))
check_promotions [] ds window_started window_finished oci_image_digest = ok []
check_promotions (k ∷ ks) ds window_started window_finished oci_image_digest = do
  span ← check_promotion (find k ds) window_started window_finished oci_image_digest
  more ← check_promotions ks ds window_started window_finished oci_image_digest
  ok (span ∷ more)

-- `min(required_started)` and `max(required_finished)`
unfoldable pub earliest : ℕ → List (ℕ × ℕ) → ℕ
earliest least [] = least
earliest least ((started, _) ∷ spans) =
    earliest (if ltb started least then started else least) spans

unfoldable pub latest : ℕ → List (ℕ × ℕ) → ℕ
latest most [] = most
latest most ((_, finished) ∷ spans) = latest (if ltb most finished then finished else most) spans

unfoldable pub window_is_tight : List (ℕ × ℕ) → ℕ → ℕ → Bool
window_is_tight [] window_started window_finished = false
window_is_tight ((s, f) ∷ spans) window_started window_finished =
    eqb (earliest s spans) window_started && eqb (latest f spans) window_finished

-- `order` is the order in which Python iterates over the set `PROMOTION_DOMAINS`.
unfoldable pub validate_domains : List String → Json → ℕ → ℕ → String → Result (Unit {0})
validate_domains order value window_started window_finished oci_image_digest = do
  xs ← as_arr value invalid
  reject_if (not (eqb (length xs) 11)) invalid
  domains ← collect xs []
  reject_if (not (same_set (names domains) all_domains)) invalid
  check_simple domains expected_simple
  spans ← check_promotions order domains window_started window_finished oci_image_digest
  reject_if (not (window_is_tight spans window_started window_finished))
      "promotion_evidence_window_invalid"
