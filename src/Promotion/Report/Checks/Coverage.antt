-- ===== src/Promotion/Report/Checks/Coverage.antt =====
-- What `validate_checks` accepts: no required check failed, and one covers each required domain.
use latchway_android.Base.{
  String, ◌≡◌, refl, ◌⊎◌, inl, inr, Bool, true, false, List, [], ◌∷◌, arith, if◌then◌else◌, member,
  same_set, same_set-member, ok, Result-cases, String-discrete,
}
use latchway_android.Json.{Json, str, arr, obj, Items, items, Fields, get, is_bool, eq_str}
use latchway_android.Json.Laws.{as_str_cases}
use latchway_android.Promotion.Constants.{required_domains}
use latchway_android.Promotion.Report.Checks.{
  Check, read_check, judge, check_loop, validate_checks, invalid,
}

abbrev pub Occurs : Json → List Json → Type 0
Occurs v [] = ⊥
Occurs v (x ∷ xs) = (v ≡ x) ⊎ Occurs v xs

-- The value is an object that says what `c` says.
pub record Says (v : Json) (c : Check) : Type 0 where
  pub fields : Fields
  pub is_object : v ≡ obj fields
  pub has_id : get "id" fields ≡ str c.identifier
  pub has_domain : get "domain" fields ≡ str c.domain
  pub has_required : is_bool true (get "required" fields) ≡ c.required
  pub has_passed : eq_str (get "status" fields) "passed" ≡ c.passed
  pub has_unverified : eq_str (get "status" fields) "unverified" ≡ c.unverified

-- A check of a required domain passed; any other is optional and unverified.
pub record IsSettled (c : Check) : Type 0 where
  pub required_passed : (c.required ≡ false) ⊎ (c.passed ≡ true)
  pub by_domain :
      ((member c.domain required_domains ≡ true) × (c.passed ≡ true))
      ⊎ ((member c.domain required_domains ≡ false) × (c.required ≡ false) × (c.unverified ≡ true))

Says-at :
    (fs : Fields) (ids : List String) (c : Check) (i d : String)
    → get "id" fs ≡ str i
    → get "domain" fs ≡ str d
    → read_check (obj fs) ids ≡ ok c
    → Says (obj fs) c
unfolding read_check
Says-at fs ids c i d has_id has_domain h = record {
  fields = fs;
  is_object = refl;
  has_id = ground arith;
  has_domain = ground arith;
  has_required = ground arith;
  has_passed = ground arith;
  has_unverified = ground arith;
}

says : (v : Json) (ids : List String) (c : Check) → read_check v ids ≡ ok c → Says v c
unfolding read_check
says (obj fs) ids c h = elim (as_str_cases (get "id" fs) invalid) [
  | inl (i, has_id) ↦ elim (as_str_cases (get "domain" fs) invalid) [
    | inl (d, has_domain) ↦ Says-at fs ids c i d has_id has_domain h
    | inr refused ↦ absurd (ground arith)
  ]
  | inr refused ↦ absurd (ground arith)
]
says _ ids c h = cc

settled : (c : Check) (covers : Bool) → judge c ≡ ok covers → IsSettled c
unfolding judge
settled c covers h = record { required_passed = ground arith; by_domain = ground arith }

covers_iff :
    (c : Check)
    → judge c ≡ ok true
    → (member c.domain required_domains ≡ true) × (c.required ≡ true) × (c.passed ≡ true)
unfolding judge
covers_iff c h = ground arith

-- A round of the loop that does not fail.
record Round (v : Json) (rest : List Json) (ids seen out : List String) : Type 0 where
  check : Check
  covers : Bool
  read : read_check v ids ≡ ok check
  judged : judge check ≡ ok covers
  later :
      check_loop rest (check.identifier ∷ ids) (if covers then check.domain ∷ seen else seen)
      ≡ ok out

round :
    (v : Json) (rest : List Json) (ids seen out : List String)
    → check_loop (v ∷ rest) ids seen ≡ ok out
    → Round v rest ids seen out
unfolding check_loop
round v rest ids seen out h = elim (Result-cases (read_check v ids)) [
  | inl (c, read) ↦ elim (Result-cases (judge c)) [
    | inl (covers, judged) ↦ record {
      check = c;
      covers = covers;
      read = read;
      judged = judged;
      later = ground arith;
    }
    | inr (e, failed) ↦ absurd (ground arith)
  ]
  | inr (e, failed) ↦ absurd (ground arith)
]

every-IsSettled :
    (xs : List Json) (ids seen out : List String) (v : Json)
    → check_loop xs ids seen ≡ ok out
    → Occurs v xs
    → (c : Check) × Says v c × IsSettled c
every-IsSettled [] ids seen out v h m = absurd m
every-IsSettled (x ∷ xs) ids seen out v h (inl same) =
    let r = round x xs ids seen out h in
    (r.check, rw same (says x ids r.check r.read), settled r.check r.covers r.judged)
every-IsSettled (x ∷ xs) ids seen out v h (inr m) =
    let r = round x xs ids seen out h in
    every-IsSettled xs (r.check.identifier ∷ ids) (if r.covers then r.check.domain ∷ seen else seen)
      out v r.later m

-- A required check of the list that passed and stands for the domain.
abbrev pub IsCovered : String → List Json → Type 0
IsCovered d xs =
    (v : Json) × (c : Check) × Occurs v xs
    × Says v c
    × (c.domain ≡ d)
    × (c.required ≡ true)
    × (c.passed ≡ true)

later-IsCovered : (d : String) (x : Json) (xs : List Json) → IsCovered d xs → IsCovered d (x ∷ xs)
later-IsCovered d x xs (v, c, m, s, e, r, p) = (v, c, inr m, s, e, r, p)

IsCovered-round :
    (x : Json) (xs : List Json) (ids seen : List String) (d : String) (c : Check) (covers : Bool)
    → read_check x ids ≡ ok c
    → judge c ≡ ok covers
    → (member d (if covers then c.domain ∷ seen else seen) ≡ true) ⊎ IsCovered d xs
    → (member d seen ≡ true) ⊎ IsCovered d (x ∷ xs)
unfolding member
IsCovered-round x xs ids seen d c covers read judged (inr later) =
    inr (later-IsCovered d x xs later)
IsCovered-round x xs ids seen d c false read judged (inl m) = inl m
IsCovered-round x xs ids seen d c true read judged (inl m) = elim (String-discrete d c.domain) [
  | yes same ↦
      let (known, required, passed) = covers_iff c judged in
      inr (x, c, inl refl, says x ids c read, ground arith, required, passed)
  | no differ ↦ inl (ground arith)
]

covered :
    (xs : List Json) (ids seen out : List String) (d : String)
    → check_loop xs ids seen ≡ ok out
    → member d out ≡ true
    → (member d seen ≡ true) ⊎ IsCovered d xs
covered [] ids seen out d h m = inl (let same : seen ≡ out = unfold check_loop in cc in rw same m)
covered (x ∷ xs) ids seen out d h m =
    let r = round x xs ids seen out h in
    IsCovered-round x xs ids seen d r.check r.covers r.read r.judged (
      covered xs (r.check.identifier ∷ ids) (if r.covers then r.check.domain ∷ seen else seen) out d
        r.later m)

pub record IsChecked (value : Json) : Type 0 where
  pub list : Items
  pub is_list : value ≡ arr list
  pub settled : (v : Json) → Occurs v (items list) → (c : Check) × Says v c × IsSettled c
  pub covered : (d : String) → member d required_domains ≡ true → IsCovered d (items list)

IsChecked-at :
    (xs : Items) (seen : List String)
    → check_loop (items xs) [] [] ≡ ok seen
    → same_set seen required_domains ≡ true
    → IsChecked (arr xs)
unfolding member
IsChecked-at xs seen looped complete = record {
  list = xs;
  is_list = refl;
  settled = λ v m. every-IsSettled (items xs) [] [] seen v looped m;
  covered = λ d m.
      elim (covered (items xs) [] [] seen d looped
        (rw (same_set-member seen required_domains complete d) m)) [
          | inl none_before ↦ absurd (ground arith)
          | inr found ↦ found
        ];
}

-- In an accepted list of checks none that is required, or of a required domain, failed; the others
-- are optional and unverified; and a required check that passed covers each required domain.
pub validate_checks_sound : (value : Json) → validate_checks value ≡ ok tt → IsChecked value
unfolding validate_checks
validate_checks_sound (arr xs) h = elim (Result-cases (check_loop (items xs) [] [])) [
  | inl (seen, looped) ↦ IsChecked-at xs seen looped (ground arith)
  | inr (e, failed) ↦ absurd (ground arith)
]
validate_checks_sound _ h = cc
