-- ===== src/Promotion/Report/Window.antt =====
-- What `parse_time`, `validate_contract` and `validate_window` accept.
use latchway_android.Base.{
  ℕ, suc, ◌+◌, ◌≤◌, ◌<◌, Option, none, String, ◌<>◌, ◌≡◌, refl, ◌↔◌, true, some, [], ◌∷◌, arith,
  codes, ok, inl, inr, zero,
}
use latchway_android.Regex.{fullmatch}
use latchway_android.Json.{
  Json, negsuc, str, int, pos, obj, Fields, get, keys_are, eq_num, eq_str, str_matches,
}
use latchway_android.Json.Laws.{as_str_cases}
use latchway_android.Clock.{DateTime, strptime, instant}
use latchway_android.Promotion.Constants.{
  maximum_age, contract_fields, semver, sha256_pattern, canonical_time,
}
use latchway_android.Promotion.Report.{
  parse_time, is_positive_int, validate_contract, validate_window,
}

-- The value is a text in canonical form that names the calendar time with this instant.
pub record IsTime (value : Json) (n : ℕ) : Type 0 where
  pub text : String
  pub is_text : value ≡ str text
  pub canonical : fullmatch canonical_time text ≡ true
  pub time : DateTime
  pub parsed : strptime (codes text) ≡ some time
  pub at : n ≡ instant time

parse_time_sound :
    (value : Json) (code : String) (n : ℕ) → parse_time value code ≡ ok n → IsTime value n
unfolding parse_time
parse_time_sound (str text) code n h = go (strptime (codes text)) refl
  where
    go : (o : Option DateTime) → strptime (codes text) ≡ o → IsTime (str text) n
    go none e = ground arith
    go (some t) e = record {
      text = text;
      is_text = refl;
      canonical = ground arith;
      time = t;
      parsed = e;
      at = ground arith;
    }
parse_time_sound _ code n h = cc

parse_time_complete :
    (value : Json) (code : String) (n : ℕ) → IsTime value n → parse_time value code ≡ ok n
unfolding parse_time
parse_time_complete value code n w =
    rw (w.is_text, parse_time) (rw (w.canonical, w.parsed) (ground arith))

pub parse_time_iff :
    (value : Json) (code : String) (n : ℕ) → (parse_time value code ≡ ok n) ↔ IsTime value n
parse_time_iff value code n = (parse_time_sound value code n, parse_time_complete value code n)

-- The evidence window, as a claim about instants.
pub record IsWindow (value : Json) (released_at now started finished : ℕ) : Type 0 where
  pub fields : Fields
  pub is_object : value ≡ obj fields
  pub exact_keys :
      keys_are fields ("started_at" ∷ "finished_at" ∷ "maximum_age_seconds" ∷ []) ≡ true
  pub starts : IsTime (get "started_at" fields) started
  pub finishes : IsTime (get "finished_at" fields) finished
  pub age : eq_num (get "maximum_age_seconds" fields) maximum_age ≡ true
  pub after_release : released_at ≤ started
  pub nonempty : started < finished
  pub past : finished ≤ now
  pub recent : now ≤ finished + maximum_age
  pub short : finished ≤ started + maximum_age

IsWindow-sound :
    (value : Json) (released_at now : ℕ) {started finished : ℕ}
    → validate_window value released_at now ≡ ok (started, finished)
    → IsWindow value released_at now started finished
unfolding validate_window
IsWindow-sound (obj fs) released_at now {started} {finished} h = record {
  fields = fs;
  is_object = refl;
  exact_keys = ground arith;
  starts =
      parse_time_sound (get "started_at" fs) "promotion_evidence_window_invalid" started
        (ground arith);
  finishes =
      parse_time_sound (get "finished_at" fs) "promotion_evidence_window_invalid" finished
        (ground arith);
  age = ground arith;
  after_release = ground arith;
  nonempty = ground arith;
  past = ground arith;
  recent = ground arith;
  short = ground arith;
}
IsWindow-sound _ released_at now h = cc

window_complete :
    (value : Json) (released_at now started finished : ℕ)
    → IsWindow value released_at now started finished
    → validate_window value released_at now ≡ ok (started, finished)
unfolding validate_window
window_complete value released_at now started finished w =
    rw (w.is_object, validate_window)
      (ground (
        arith,
        parse_time_complete (get "started_at" w.fields) "promotion_evidence_window_invalid" started
            w.starts,
        parse_time_complete (get "finished_at" w.fields) "promotion_evidence_window_invalid"
            finished w.finishes,
      ))

-- `validate_window` accepts exactly the windows of the specification, with their ends.
pub validate_window_iff :
    (value : Json) (released_at now started finished : ℕ)
    → (validate_window value released_at now ≡ ok (started, finished))
      ↔ IsWindow value released_at now started finished
validate_window_iff value released_at now started finished =
    (IsWindow-sound value released_at now, window_complete value released_at now started finished)

-- The released contract: its bundle is named after its version, it binds the core release and the
-- image, and it is at most `maximum_age` old.
pub record IsContract (value : Json) (core_tag oci_image_digest : String) (now released_at : ℕ)
    : Type 0 where
  pub fields : Fields
  pub is_object : value ≡ obj fields
  pub exact_keys : keys_are fields contract_fields ≡ true
  pub version : String
  pub has_version : get "version" fields ≡ str version
  pub is_semver : fullmatch semver version ≡ true
  pub is_released : eq_str (get "status" fields) "released" ≡ true
  pub protocol : ℕ
  pub wire_protocol : get "wire_protocol" fields ≡ int (pos (suc protocol))
  pub bundle_name :
      eq_str (get "bundle_file_name" fields) ("latchway-contract-" <> version <> ".tar.gz") ≡ true
  pub bundle_digest : str_matches sha256_pattern (get "bundle_sha256" fields) ≡ true
  pub core : eq_str (get "core_release" fields) core_tag ≡ true
  pub image : eq_str (get "oci_image_digest" fields) oci_image_digest ≡ true
  pub at : IsTime (get "released_at" fields) released_at
  pub past : released_at ≤ now
  pub recent : now ≤ released_at + maximum_age

positive_int : (v : Json) → is_positive_int v ≡ true → (p : ℕ) × (v ≡ int (pos (suc p)))
unfolding is_positive_int
positive_int (int (pos (suc p))) h = (p, refl)
positive_int (int (pos zero)) h = cc
positive_int (int (negsuc n)) h = cc
positive_int _ h = cc

module _ (core_tag oci_image_digest : String) (now : ℕ) where
  IsContract-sound_at :
      (fs : Fields) (version : String) (n : ℕ)
      → get "version" fs ≡ str version
      → validate_contract (obj fs) core_tag oci_image_digest now ≡ ok (n, fs)
      → IsContract (obj fs) core_tag oci_image_digest now n
  unfolding validate_contract
  IsContract-sound_at fs version n named h =
      let positive : is_positive_int (get "wire_protocol" fs) ≡ true = ground arith in
      let (p, is_int) = positive_int (get "wire_protocol" fs) positive in
      record {
        fields = fs;
        is_object = refl;
        exact_keys = ground arith;
        version = version;
        has_version = named;
        is_semver = ground arith;
        is_released = ground arith;
        protocol = p;
        wire_protocol = is_int;
        bundle_name = ground arith;
        bundle_digest = ground arith;
        core = ground arith;
        image = ground arith;
        at =
            parse_time_sound (get "released_at" fs) "promotion_contract_time_invalid" n
              (ground arith);
        past = ground arith;
        recent = ground arith;
      }

  IsContract-sound :
      (value : Json) (n : ℕ) (fs : Fields)
      → validate_contract value core_tag oci_image_digest now ≡ ok (n, fs)
      → IsContract value core_tag oci_image_digest now n
  unfolding validate_contract
  IsContract-sound (obj fs) n gs h =
      elim (as_str_cases (get "version" fs) "promotion_contract_invalid") [
        | inl (s, is_str) ↦ IsContract-sound_at fs s n is_str (ground arith)
        | inr refused ↦ absurd (ground arith)
      ]
  IsContract-sound _ n gs h = cc

  contract_complete :
      (value : Json) (n : ℕ)
      → IsContract value core_tag oci_image_digest now n
      → (fs : Fields) × (validate_contract value core_tag oci_image_digest now ≡ ok (n, fs))
  unfolding validate_contract is_positive_int
  contract_complete value n w = (
    w.fields,
    rw (w.is_object, validate_contract)
        (ground (
          arith,
          parse_time_complete (get "released_at" w.fields) "promotion_contract_time_invalid" n w.at,
        )),
  )

  -- `validate_contract` accepts exactly the released contracts of the specification.
  pub validate_contract_iff :
      (value : Json) (n : ℕ)
      → ((fs : Fields) × (validate_contract value core_tag oci_image_digest now ≡ ok (n, fs)))
        ↔ IsContract value core_tag oci_image_digest now n
  validate_contract_iff value n = (λ h. IsContract-sound value n h.0 h.1, contract_complete value n)
