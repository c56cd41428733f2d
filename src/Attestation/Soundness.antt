-- ===== src/Attestation/Soundness.antt =====
-- What an accepted release attestation shows.
use latchway_android.Base.{
  String, ◌<>◌, ◌≡◌, ◌⊎◌, inl, inr, true, false, List, [], ◌∷◌, All, ok, Result-cases, Bool-cases,
  arith,
}
use latchway_android.Regex.{fullmatch}
use latchway_android.Json.{Json, str, obj, arr, Items, items, Fields, get_last, eq_str}
use latchway_android.Json.Laws.{as_obj_cases, as_arr_cases, as_str_cases, eq_str_iff}
use latchway_android.Attestation.{
  Runtime, Proof, git_object, subject_fields, matching_subjects, is_digest, one_digest,
  algorithm_of, check_predicate, validate_binding, release_statement, check_statement,
  verify_attestation,
}

-- A subject with the package URL and the digest of the tag object.
pub record IsTagSubject (purl tag_object : String) (value : Json) : Type 0 where
  pub row : Fields
  pub is_row : value ≡ obj row
  pub uri : get_last "uri" row ≡ str purl
  pub digest : is_digest (get_last "digest" row) (algorithm_of tag_object) tag_object ≡ true

-- A subject that names a file or another package.
pub record IsOtherSubject (purl : String) (value : Json) : Type 0 where
  pub row : Fields
  pub is_row : value ≡ obj row
  pub differs : eq_str (get_last "uri" row) purl ≡ false

-- Of the subjects one alone has the package URL.
abbrev pub OnlySubject : String → String → List Json → Type 0
OnlySubject purl tag_object [] = ⊥
OnlySubject purl tag_object (v ∷ vs) =
    (IsTagSubject purl tag_object v × All (IsOtherSubject purl) vs)
    ⊎ (IsOtherSubject purl v × OnlySubject purl tag_object vs)

subject_is_obj : (v : Json) (fs : Fields) → subject_fields v ≡ ok fs → v ≡ obj fs
unfolding subject_fields
subject_is_obj v fs h = elim (as_obj_cases v "release statement contains an invalid subject") [
  | inl (row, e) ↦ ground arith
  | inr failed ↦ absurd (ground arith)
]

-- One round of the loop over the subjects.
data Round (purl : String) (v : Json) (vs : List Json) (out : List Fields) : Type 0 where
  named :
      (fs : Fields) (rest : List Fields)
      → v ≡ obj fs
      → eq_str (get_last "uri" fs) purl ≡ true
      → matching_subjects purl vs ≡ ok rest
      → out ≡ fs ∷ rest
      → Round purl v vs out
  other : IsOtherSubject purl v → matching_subjects purl vs ≡ ok out → Round purl v vs out

Round-of :
    (purl : String) (v : Json) (vs : List Json) (out : List Fields)
    → matching_subjects purl (v ∷ vs) ≡ ok out
    → Round purl v vs out
unfolding matching_subjects
Round-of purl v vs out h = elim (Result-cases (subject_fields v)) [
  | inr (code, failed) ↦ absurd (ground arith)
  | inl (fs, read) ↦ elim (Result-cases (matching_subjects purl vs)) [
    | inr (code, failed) ↦ absurd (ground arith)
    | inl (rest, more) ↦ elim (Bool-cases (eq_str (get_last "uri" fs) purl)) [
      | inl same ↦ named fs rest (subject_is_obj v fs read) same more (ground arith)
      | inr differs ↦
          other (record { row = fs; is_row = subject_is_obj v fs read; differs = differs })
            (ground arith)
    ]
  ]
]

none_match :
    (purl : String) (vs : List Json)
    → matching_subjects purl vs ≡ ok []
    → All (IsOtherSubject purl) vs
none_match purl [] h = tt
none_match purl (v ∷ vs) h = elim (Round-of purl v vs [] h) [
  | named fs rest is_row same more e ↦ cc
  | other differs more ↦ (differs, none_match purl vs more)
]

one_match :
    (purl tag_object : String) (vs : List Json) (fs : Fields)
    → matching_subjects purl vs ≡ ok (fs ∷ [])
    → is_digest (get_last "digest" fs) (algorithm_of tag_object) tag_object ≡ true
    → OnlySubject purl tag_object vs
unfolding matching_subjects
one_match purl tag_object [] fs h d = cc
one_match purl tag_object (v ∷ vs) fs h d = elim (Round-of purl v vs (fs ∷ []) h) [
  | named row rest is_row same more e ↦
      let first : fs ≡ row = cc in
      let last : rest ≡ [] = cc in
      inl (
        record {
          row = row;
          is_row = is_row;
          uri = (eq_str_iff (get_last "uri" row) purl).0 same;
          digest = rw first at d;
        },
        none_match purl vs (rw last at more),
      )
  | other differs more ↦ inr (differs, one_match purl tag_object vs fs more d)
]

one_digest-OnlySubject :
    (purl tag_object : String) (vs : List Json) (out : List Fields)
    → matching_subjects purl vs ≡ ok out
    → one_digest out (algorithm_of tag_object) tag_object ≡ true
    → OnlySubject purl tag_object vs
unfolding one_digest
one_digest-OnlySubject purl tag_object vs [] h d = cc
one_digest-OnlySubject purl tag_object vs (fs ∷ []) h d = one_match purl tag_object vs fs h d
one_digest-OnlySubject purl tag_object vs (fs ∷ gs ∷ more) h d = cc

-- The statement is about the release of the repository and the tag, and its only subject with that
-- package URL is the tag object.
pub record IsStatement (repository tag tag_object : String) (statement : Fields) : Type 0 where
  pub kind : get_last "predicateType" statement ≡ str "https://in-toto.io/attestation/release/v0.1"
  pub predicate : Fields
  pub has_predicate : get_last "predicate" statement ≡ obj predicate
  pub same_repository : get_last "repository" predicate ≡ str repository
  pub same_tag : get_last "tag" predicate ≡ str tag
  pub subjects : Items
  pub has_subjects : get_last "subject" statement ≡ arr subjects
  pub only_subject :
      OnlySubject ("pkg:github/" <> repository <> "@" <> tag) tag_object (items subjects)

-- The binding of the tag names the tag, the commit, the tag object and the hash of the message.
pub record IsBinding (host : Runtime) (binding : Fields) (tag commit message tag_object : String)
    : Type 0 where
  pub same_tag : get_last "tag" binding ≡ str tag
  pub same_commit : get_last "commit" binding ≡ str commit
  pub same_object : get_last "tag_object_sha" binding ≡ str tag_object
  pub is_object : fullmatch git_object tag_object ≡ true
  pub same_message : get_last "message_sha256" binding ≡ str (host.sha256 (host.encode message))

predicate_facts :
    (predicate : Fields) (repository tag : String)
    → check_predicate predicate repository tag ≡ ok tt
    → (get_last "repository" predicate ≡ str repository) × (get_last "tag" predicate ≡ str tag)
unfolding check_predicate
predicate_facts predicate repository tag h = (
  (eq_str_iff (get_last "repository" predicate) repository).0 (ground arith),
  (eq_str_iff (get_last "tag" predicate) tag).0 (ground arith),
)

check_statement-IsStatement :
    (statement : Fields) (repository tag tag_object : String)
    → check_statement statement repository tag tag_object ≡ ok tt
    → IsStatement repository tag tag_object statement
unfolding check_statement
check_statement-IsStatement statement repository tag tag_object h =
    elim (as_obj_cases (get_last "predicate" statement) "release predicate schema is invalid") [
      | inr failed ↦ absurd (ground arith)
      | inl (predicate, p) ↦ elim (Result-cases (check_predicate predicate repository tag)) [
        | inr (code, failed) ↦ absurd (ground arith)
        | inl (_, checked) ↦
            elim (as_arr_cases (get_last "subject" statement)
              "release statement subjects are invalid") [
                | inr failed ↦ absurd (ground arith)
                | inl (subjects, s) ↦
                    elim (Result-cases (
                      matching_subjects ("pkg:github/" <> repository <> "@" <> tag)
                        (items subjects))) [
                          | inr (code, failed) ↦ absurd (ground arith)
                          | inl (out, matching) ↦
                              let facts = predicate_facts predicate repository tag checked in
                              record {
                                kind =
                                    (eq_str_iff (get_last "predicateType" statement) _).0
                                      (ground arith);
                                predicate = predicate;
                                has_predicate = p;
                                same_repository = facts.0;
                                same_tag = facts.1;
                                subjects = subjects;
                                has_subjects = s;
                                only_subject =
                                    one_digest-OnlySubject _ tag_object (items subjects) out
                                      matching (ground arith);
                              }
                        ]
              ]
      ]
    ]

validate_binding-IsBinding :
    (host : Runtime) (binding : Fields) (tag commit message tag_object : String)
    → validate_binding host binding tag commit message ≡ ok tag_object
    → IsBinding host binding tag commit message tag_object
unfolding validate_binding
validate_binding-IsBinding host binding tag commit message tag_object h =
    elim (as_str_cases (get_last "tag_object_sha" binding)
      "tag binding object identifier is invalid") [
        | inr failed ↦ absurd (ground arith)
        | inl (found, e) ↦
            let same : found ≡ tag_object = ground arith in
            record {
              same_tag = (eq_str_iff (get_last "tag" binding) tag).0 (ground arith);
              same_commit = (eq_str_iff (get_last "commit" binding) commit).0 (ground arith);
              same_object = rw same at e;
              is_object = ground arith;
              same_message = (eq_str_iff (get_last "message_sha256" binding) _).0 (ground arith);
            }
      ]

-- An attestation that verify accepts has a binding of the tag, the commit and the message to one
-- tag object, and a release statement of the repository and the tag in which that tag object is
-- the only subject with the package URL; the proof names them.
pub verify_attestation-IsStatement :
    (host : Runtime) (release binding : Fields) (repository tag commit message : String)
    (proof : Proof)
    → verify_attestation host release binding repository tag commit message ≡ ok proof
    → (bundle : Json) × (statement : Fields) × (release_statement host release
        ≡ ok (bundle, statement))
      × IsBinding host binding tag commit message proof.tag_object_sha
      × IsStatement repository tag proof.tag_object_sha statement
      × (proof.commit ≡ commit)
unfolding verify_attestation
verify_attestation-IsStatement host release binding repository tag commit message proof h =
    elim (Result-cases (validate_binding host binding tag commit message)) [
      | inr (code, failed) ↦ absurd (ground arith)
      | inl (tag_object, bound) ↦ elim (Result-cases (release_statement host release)) [
        | inr (code, failed) ↦ absurd (ground arith)
        | inl (found, read) ↦
            elim (Result-cases (check_statement found.1 repository tag tag_object)) [
              | inr (code, failed) ↦ absurd (ground arith)
              | inl (_, stated) ↦
                  let same : tag_object ≡ proof.tag_object_sha = ground arith in
                  (
                    found.0,
                    found.1,
                    read,
                    rw same at (
                        validate_binding-IsBinding host binding tag commit message tag_object
                          bound),
                    rw same at
                        (check_statement-IsStatement found.1 repository tag tag_object stated),
                    ground arith,
                  )
            ]
      ]
    ]
