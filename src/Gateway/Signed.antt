-- ===== src/Gateway/Signed.antt =====
-- What an accepted statement says: its fields, its window and its clients.
use latchway_android.Base.{
  ℕ, ◌+◌, ◌≤◌, ◌<◌, String, ◌≡◌, ◌⊎◌, inl, inr, true, false, List, [], ◌∷◌, All, length, ok,
  if◌then◌else◌, ◌==◌, String-discrete, Result-cases, Bool-cases, arith,
}
use latchway_android.Json.{Json, str, arr, obj, Items, items, Fields, get, eq_str}
use latchway_android.Json.Laws.{as_obj_cases, as_arr_cases, eq_str_iff}
use latchway_android.Gateway.Constants.{maximum_validity, clock_skew}
use latchway_android.Gateway.Inputs.{Runtime, canonical_json}
use latchway_android.Gateway.Origin.{canonical_origin}
use latchway_android.Gateway.Clients.{validate_client, same_client}
use latchway_android.Gateway.Statement.{
  Expected, expected_items, check_expected, same_identity, has_identity, count_matches,
  validate_clients, check_duplicates, parse_timestamp, check_header, check_validity, check_clients,
  validate_statement,
}
use latchway_android.Gateway.Policy.{IsReleaseClient, validate_client-IsReleaseClient}

-- The fields that the command line expects.
pub record HasExpected (fs : Fields) (e : Expected) : Type 0 where
  pub key_id : get "key_id" fs ≡ str e.key_id
  pub environment : get "environment" fs ≡ str e.environment
  pub core_commit : get "core_commit" fs ≡ str e.core_commit
  pub contract_version : get "contract_version" fs ≡ str e.contract_version
  pub contract_bundle : get "contract_bundle_sha256" fs ≡ str e.contract_bundle_sha256
  pub gateway_image : get "gateway_image_digest" fs ≡ str e.gateway_image_digest
  pub configuration : get "gateway_configuration_sha256" fs ≡ str e.gateway_configuration_sha256

check_next :
    (fs : Fields) (origin name expected : String) (more : List (String × String))
    → check_expected fs origin ((name, expected) ∷ more) ≡ ok tt
    → (eq_str (if name == "gateway_origin" then str origin else get name fs) expected ≡ true)
      × (check_expected fs origin more ≡ ok tt)
unfolding check_expected
check_next fs origin name expected more h = (ground arith, ground arith)

check_expected-HasExpected :
    (fs : Fields) (origin : String) (e : Expected)
    → check_expected fs origin (expected_items e) ≡ ok tt
    → HasExpected fs e × (origin ≡ e.gateway_origin)
unfolding String-discrete
check_expected-HasExpected fs origin e h =
    let (a, h1) = check_next fs origin "key_id" _ _ h in
    let (b, h2) = check_next fs origin "gateway_origin" _ _ h1 in
    let (c, h3) = check_next fs origin "environment" _ _ h2 in
    let (d, h4) = check_next fs origin "core_commit" _ _ h3 in
    let (f, h5) = check_next fs origin "contract_version" _ _ h4 in
    let (g, h6) = check_next fs origin "contract_bundle_sha256" _ _ h5 in
    let (i, h7) = check_next fs origin "gateway_image_digest" _ _ h6 in
    let (j, h8) = check_next fs origin "gateway_configuration_sha256" _ _ h7 in
    (
      record {
        key_id = (eq_str_iff _ _).0 a;
        environment = (eq_str_iff _ _).0 c;
        core_commit = (eq_str_iff _ _).0 d;
        contract_version = (eq_str_iff _ _).0 f;
        contract_bundle = (eq_str_iff _ _).0 g;
        gateway_image = (eq_str_iff _ _).0 i;
        configuration = (eq_str_iff _ _).0 j;
      },
      cc ((eq_str_iff (str origin) e.gateway_origin).0 b),
    )

-- Issued no later than five minutes from now and not yet expired, with the same tolerance, and
-- valid for 24 hours at most.
pub record IsCurrent (host : Runtime) (fs : Fields) (now : ℕ) : Type 0 where
  pub issued : ℕ
  pub is_issued : parse_timestamp host (get "issued_at" fs) "statement_issued_at" ≡ ok issued
  pub expires : ℕ
  pub does_expire : parse_timestamp host (get "expires_at" fs) "statement_expires_at" ≡ ok expires
  pub nonempty : issued < expires
  pub short : expires ≤ issued + maximum_validity
  pub begun : issued ≤ now + clock_skew
  pub not_over : now < expires + clock_skew

check_validity-IsCurrent :
    (host : Runtime) (fs : Fields) (now : ℕ)
    → check_validity host fs now ≡ ok tt
    → IsCurrent host fs now
unfolding check_validity
check_validity-IsCurrent host fs now h =
    elim (Result-cases (parse_timestamp host (get "issued_at" fs) "statement_issued_at")) [
      | inr (e, failed) ↦ absurd (ground arith)
      | inl (issued, i) ↦
          elim (Result-cases (parse_timestamp host (get "expires_at" fs) "statement_expires_at")) [
            | inr (e, failed) ↦ absurd (ground arith)
            | inl (expires, x) ↦ record {
              issued = issued;
              is_issued = i;
              expires = expires;
              does_expire = x;
              nonempty = ground arith;
              short = ground arith;
              begun = ground arith;
              not_over = ground arith;
            }
          ]
    ]

-- No two of the clients have one platform and one application.
abbrev pub Distinct : List Fields → Type 0
Distinct [] = Unit {0}
Distinct (c ∷ cs) = All (λ d. same_identity d c ≡ false) cs × Distinct cs

-- One of the clients, and no other, is the expected one.
abbrev pub OnlyExpected : Fields → List Fields → Type 0
OnlyExpected expected [] = ⊥
OnlyExpected expected (c ∷ cs) =
    ((same_client c expected ≡ true) × All (λ d. same_client d expected ≡ false) cs)
    ⊎ ((same_client c expected ≡ false) × OnlyExpected expected cs)

-- Each client is the object of a value and may be released.
abbrev pub AllRelease : List Json → List Fields → Type 0
AllRelease [] [] = Unit {0}
AllRelease (v ∷ vs) (c ∷ cs) = IsReleaseClient v c × AllRelease vs cs
AllRelease _ _ = ⊥

validate_clients-AllRelease :
    (vs : List Json) (cs : List Fields) → validate_clients vs ≡ ok cs → AllRelease vs cs
unfolding validate_clients
validate_clients-AllRelease [] [] h = tt
validate_clients-AllRelease [] (c ∷ cs) h = cc
validate_clients-AllRelease (v ∷ vs) cs h = elim (Result-cases (validate_client v)) [
  | inr (e, failed) ↦ absurd (ground arith)
  | inl (c, valid) ↦ elim (Result-cases (validate_clients vs)) [
    | inr (e, failed) ↦ absurd (ground arith)
    | inl (rest, more) ↦
        let same : cs ≡ c ∷ rest = ground arith in
        rw same
          (validate_client-IsReleaseClient v c valid, validate_clients-AllRelease vs rest more)
  ]
]

fresh_split :
    (c : Fields) (seen cs : List Fields)
    → All (λ d. has_identity d (c ∷ seen) ≡ false) cs
    → All (λ d. same_identity d c ≡ false) cs × All (λ d. has_identity d seen ≡ false) cs
unfolding has_identity
fresh_split c seen [] h = (tt, tt)
fresh_split c seen (d ∷ cs) (one, more) =
    let rest = fresh_split c seen cs more in ((ground arith, rest.0), (ground arith, rest.1))

check_duplicates-Distinct :
    (host : Runtime) (seen : List Fields) (encodings : List (List ℕ)) (cs : List Fields)
    → check_duplicates host seen encodings cs ≡ ok tt
    → All (λ d. has_identity d seen ≡ false) cs × Distinct cs
unfolding check_duplicates
check_duplicates-Distinct host seen encodings [] h = (tt, tt)
check_duplicates-Distinct host seen encodings (c ∷ cs) h =
    elim (Result-cases (canonical_json host (obj c))) [
      | inr (e, failed) ↦ absurd (ground arith)
      | inl (encoding, encoded) ↦
          let fresh : has_identity c seen ≡ false = ground arith in
          let rest =
            check_duplicates-Distinct host (c ∷ seen) (encoding ∷ encodings) cs (ground arith) in
          let parts = fresh_split c seen cs rest.0 in ((fresh, parts.1), (parts.0, rest.1))
    ]

count_none :
    (expected : Fields) (cs : List Fields)
    → count_matches expected cs ≡ 0
    → All (λ d. same_client d expected ≡ false) cs
unfolding count_matches
count_none expected [] h = tt
count_none expected (c ∷ cs) h = (ground arith, count_none expected cs (ground arith))

count_one :
    (expected : Fields) (cs : List Fields)
    → count_matches expected cs ≡ 1
    → OnlyExpected expected cs
unfolding count_matches
count_one expected [] h = absurd (omega arith)
count_one expected (c ∷ cs) h = elim (Bool-cases (same_client c expected)) [
  | inl same ↦ inl (same, count_none expected cs (ground arith))
  | inr other ↦ inr (other, count_one expected cs (ground arith))
]

-- The clients of a statement: 1 to 64, all fit for release and distinct, and one of them expected.
pub record HasClients (value : Json) (expected : Fields) : Type 0 where
  pub values : Items
  pub is_list : value ≡ arr values
  pub some_client : 1 ≤ length (items values)
  pub few_clients : length (items values) ≤ 64
  pub clients : List Fields
  pub release : AllRelease (items values) clients
  pub distinct : Distinct clients
  pub only_expected : OnlyExpected expected clients

check_clients-HasClients :
    (host : Runtime) (value : Json) (expected : Fields)
    → check_clients host value expected ≡ ok tt
    → HasClients value expected
unfolding check_clients
check_clients-HasClients host value expected h =
    elim (as_arr_cases value "statement_clients_invalid") [
      | inr failed ↦ absurd (ground arith)
      | inl (values, e) ↦ elim (Result-cases (validate_clients (items values))) [
        | inr (c, failed) ↦ absurd (ground arith)
        | inl (clients, valid) ↦ elim (Result-cases (check_duplicates host [] [] clients)) [
          | inr (c, failed) ↦ absurd (ground arith)
          | inl (_, different) ↦ record {
            values = values;
            is_list = e;
            some_client = ground arith;
            few_clients = ground arith;
            clients = clients;
            release = validate_clients-AllRelease (items values) clients valid;
            distinct = (check_duplicates-Distinct host [] [] clients different).1;
            only_expected = count_one expected clients (ground arith);
          }
        ]
      ]
    ]

-- The statement as a whole.
pub record IsStatement (host : Runtime) (value : Json) (e : Expected) (client : Fields) (now : ℕ)
    (fs : Fields) : Type 0 where
  pub is_object : value ≡ obj fs
  pub expected : HasExpected fs e
  pub origin : canonical_origin host (get "gateway_origin" fs) ≡ ok e.gateway_origin
  pub current : IsCurrent host fs now
  pub clients : HasClients (get "clients" fs) client

pub validate_statement-IsStatement :
    (host : Runtime) (value : Json) (e : Expected) (client : Fields) (now : ℕ) (fs : Fields)
    → validate_statement host value e client now ≡ ok fs
    → IsStatement host value e client now fs
unfolding validate_statement
validate_statement-IsStatement host value e client now fs h =
    elim (as_obj_cases value "statement_fields_invalid") [
      | inr failed ↦ absurd (ground arith)
      | inl (gs, o) ↦ elim (Result-cases (check_header host gs)) [
        | inr (c, failed) ↦ absurd (ground arith)
        | inl (_, header) ↦ elim (Result-cases (canonical_origin host (get "gateway_origin" gs))) [
          | inr (c, failed) ↦ absurd (ground arith)
          | inl (origin, canonical) ↦
              elim (Result-cases (check_expected gs origin (expected_items e))) [
                | inr (c, failed) ↦ absurd (ground arith)
                | inl (_, matched) ↦ elim (Result-cases (check_validity host gs now)) [
                  | inr (c, failed) ↦ absurd (ground arith)
                  | inl (_, current) ↦
                      let same : gs ≡ fs = ground arith in
                      let parts = check_expected-HasExpected gs origin e matched in
                      record {
                        is_object = rw same at o;
                        expected = rw same at (parts.0);
                        origin = rw same at (rw (parts.1) at canonical);
                        current = rw same at (check_validity-IsCurrent host gs now current);
                        clients = rw same at (
                            check_clients-HasClients host (get "clients" gs) client (ground arith));
                      }
                ]
              ]
        ]
      ]
    ]
