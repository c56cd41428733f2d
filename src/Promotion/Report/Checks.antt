-- ===== src/Promotion/Report/Checks.antt =====
-- `validate_checks`: the diagnostic checks of the report.
pub mod Coverage
use latchway_android.Base.{
  String, count, Bool, true, false, not, List, [], ◌∷◌, ◌&&◌, ◌||◌, leb, ltb, if◌then◌else◌, length,
  all, member, same_set, subset, Result, ok, any, reject_if, ◌>>=◌, ◌>>◌,
}
use latchway_android.Regex.{fullmatch}
use latchway_android.Json.{
  Json, float, str, arr, obj, Fields, end, field, items, keys, get, as_obj, as_arr, as_str, is_bool,
  is_any_bool, in_strs, eq_str, str_matches,
}
use latchway_android.Promotion.Constants.{
  check_fields, all_domains, required_domains, check_identifier, domain_identifier, diagnostic_key,
}

abbrev pub invalid : String
invalid = "promotion_checks_invalid"

abbrev pub failed : String
failed = "promotion_required_check_failed"

unfoldable pub diagnostic_scalar : Json → Bool
diagnostic_scalar (float f) = false
diagnostic_scalar (arr xs) = false
diagnostic_scalar (obj fs) = false
diagnostic_scalar _ = true

abbrev pub values : Fields → List Json
values end = []
values (field k v fs) = v ∷ values fs

unfoldable pub diagnostic_value : Json → Bool
diagnostic_value (arr xs) = leb (length (items xs)) 128 && all diagnostic_scalar (items xs)
diagnostic_value (obj fs) =
    leb (length (keys fs)) 128
    && all (fullmatch diagnostic_key) (keys fs)
    && all diagnostic_scalar (values fs)
diagnostic_value v = diagnostic_scalar v

-- The test of `details` where the check has that key.
unfoldable pub details_invalid : Json → Bool
details_invalid (obj fs) =
    ltb 64 (length (keys fs))
    || any (λ key. not (fullmatch domain_identifier key)) (keys fs)
    || any (λ value. not (diagnostic_value value)) (values fs)
details_invalid _ = true

-- `1 <= len(summary) <= 500` of a text
unfoldable pub summary_valid : Json → Bool
summary_valid (str s) = leb 1 (count s) && leb (count s) 500
summary_valid _ = false

-- What one check of the list says, once its form is accepted.
pub record Check : Type 0 where
  pub identifier : String
  pub domain : String
  pub required : Bool
  pub passed : Bool
  pub unverified : Bool

-- The long test at the head of the loop.
unfoldable pub read_check : Json → List String → Result Check
read_check value identifiers = do
  check ← as_obj value invalid
  reject_if
      (not (subset (keys check) check_fields)
        || not (subset ("id" ∷ "domain" ∷ "required" ∷ "status" ∷ "summary" ∷ []) (keys check)))
      invalid
  identifier ← as_str (get "id" check) invalid
  reject_if (not (fullmatch check_identifier identifier) || member identifier identifiers) invalid
  domain ← as_str (get "domain" check) invalid
  reject_if (not (fullmatch domain_identifier domain) || not (member domain all_domains)) invalid
  reject_if
      (not (is_any_bool (get "required" check))
        || not (in_strs (get "status" check) ("passed" ∷ "failed" ∷ "unverified" ∷ []))
        || not (summary_valid (get "summary" check)))
      invalid
  reject_if
      (member "reason" (keys check) && not (str_matches domain_identifier (get "reason" check))
        || member "details" (keys check) && details_invalid (get "details" check))
      invalid
  ok (record {
    identifier = identifier;
    domain = domain;
    required = is_bool true (get "required" check);
    passed = eq_str (get "status" check) "passed";
    unverified = eq_str (get "status" check) "unverified";
  })

-- The rest of the round: does the domain count as one that a required check covers?
unfoldable pub judge : Check → Result Bool
judge c = do
  reject_if (c.required && not c.passed) failed
  if member c.domain required_domains
      then (do reject_if (not c.passed) failed; ok c.required)
      else (do reject_if (c.required || not c.unverified) invalid; ok false)

-- The loop; the result is `required_domains_seen`.
unfoldable pub check_loop : List Json → List String → List String → Result (List String)
check_loop [] identifiers seen = ok seen
check_loop (value ∷ rest) identifiers seen = do
  c ← read_check value identifiers
  covers ← judge c
  check_loop rest (c.identifier ∷ identifiers) (if covers then c.domain ∷ seen else seen)

unfoldable pub validate_checks : Json → Result (Unit {0})
validate_checks value = do
  xs ← as_arr value invalid
  reject_if (not (leb 1 (length xs) && leb (length xs) 64)) invalid
  seen ← check_loop xs [] []
  reject_if (not (same_set seen required_domains)) invalid
