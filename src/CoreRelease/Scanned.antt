-- ===== src/CoreRelease/Scanned.antt =====
-- What an accepted scan shows.
use latchway_android.Base.{
  String, ◌≡◌, refl, sym, inl, inr, true, false, List, [], ◌∷◌, All, member, any, not, ok,
  Result-cases, Bool-cases, arith,
}
use latchway_android.Disk.{FilePath}
use latchway_android.Json.{
  Json, null, str, arr, obj, Items, nil, cons, items, Fields, end, field, keys, get,
}
use latchway_android.Json.Laws.{as_obj_cases, as_arr_cases, eq_str_iff}
use latchway_android.CoreRelease.Inputs.{Runtime, read_json, among}
use latchway_android.CoreRelease.Scans.{
  list_or_empty, check_findings, check_results, verify_scan, is_package, is_nonempty, verify_sbom,
}

-- A finding whose severity is neither of the two that block.
pub record IsHarmless (value : Json) : Type 0 where
  pub finding : Fields
  pub is_object : value ≡ obj finding
  pub not_severe :
      (s : String) → get "Severity" finding ≡ str s → member s ("HIGH" ∷ "CRITICAL" ∷ []) ≡ false

-- A result whose findings under the key, if it is there, are all harmless.
pub record IsClean (key : String) (value : Json) : Type 0 where
  pub result : Fields
  pub is_object : value ≡ obj result
  pub harmless : (xs : Items) → get key result ≡ arr xs → All IsHarmless (items xs)

among-false :
    (v : Json) (names : List String) (s : String)
    → among v names ≡ ok false
    → v ≡ str s
    → member s names ≡ false
unfolding among
among-false v names s h e = let h' : among (str s) names ≡ ok false = rw e at h in ground arith

check_findings-All : (values : List Json) → check_findings values ≡ ok tt → All IsHarmless values
unfolding check_findings
check_findings-All [] h = tt
check_findings-All (value ∷ values) h = elim (as_obj_cases value "core_release_scan_failed") [
  | inr failed ↦ absurd (ground arith)
  | inl (finding, e) ↦
      elim (Result-cases (among (get "Severity" finding) ("HIGH" ∷ "CRITICAL" ∷ []))) [
        | inr (raised, failed) ↦ absurd (ground arith)
        | inl (severe, found) ↦
            let harmless : severe ≡ false = ground arith in
            (
              record {
                finding = finding;
                is_object = e;
                not_severe =
                    λ s same. among-false (get "Severity" finding) _ s (rw harmless at found) same;
              },
              check_findings-All values (ground arith),
            )
      ]
]

get-missing : (key : String) (fs : Fields) → member key (keys fs) ≡ false → get key fs ≡ null
unfolding get member
get-missing key end h = refl
get-missing key (field k v fs) h = ground (arith, get-missing key fs)

check_results-All :
    (key : String) (values : List Json)
    → check_results key values ≡ ok tt
    → All (IsClean key) values
unfolding check_results list_or_empty
check_results-All key [] h = tt
check_results-All key (value ∷ values) h = elim (as_obj_cases value "core_release_scan_invalid") [
  | inr failed ↦ absurd (ground arith)
  | inl (result, e) ↦ elim (Bool-cases (member key (keys result))) [
    | inr missing ↦ (
      record {
        result = result;
        is_object = e;
        harmless = λ xs same. let absent = get-missing key result missing in absurd (ground arith);
      },
      check_results-All key values (ground arith),
    )
    | inl there ↦ elim (as_arr_cases (get key result) "core_release_scan_invalid") [
      | inr failed ↦ absurd (ground arith)
      | inl (found, is_list) ↦ elim (Result-cases (check_findings (items found))) [
        | inr (raised, failed) ↦ absurd (ground arith)
        | inl (done, checked) ↦ (
          record {
            result = result;
            is_object = e;
            harmless = λ xs same.
                let both : found ≡ xs = ground arith in
                rw (sym both) (check_findings-All (items found) checked);
          },
          check_results-All key values (ground arith),
        )
      ]
    ]
  ]
]

-- The document that was scanned, with the results that it lists.
pub record IsScan (host : Runtime) (path : FilePath) (key : String) : Type 0 where
  pub document : Fields
  pub read : read_json host path ≡ ok document
  pub results : Items
  pub listed : get "Results" document ≡ arr results
  pub clean : All (IsClean key) (items results)

-- A scan that is accepted lists results, and no finding of any result under the key has the severity
-- HIGH or CRITICAL.
pub verify_scan-IsScan :
    (host : Runtime) (path : FilePath) (key : String)
    → verify_scan host path key ≡ ok tt
    → IsScan host path key
unfolding verify_scan
verify_scan-IsScan host path key h = elim (Result-cases (read_json host path)) [
  | inr (raised, failed) ↦ absurd (ground arith)
  | inl (document, read) ↦
      elim (as_arr_cases (get "Results" document) "core_release_scan_invalid") [
        | inr failed ↦ absurd (ground arith)
        | inl (results, listed) ↦ record {
          document = document;
          read = read;
          results = results;
          listed = listed;
          clean = check_results-All key (items results) (ground arith);
        }
      ]
]

-- The packages of the list, of which there is at least one, each with its identifier and a name.
pub record IsSbom (host : Runtime) (path : FilePath) : Type 0 where
  pub document : Fields
  pub read : read_json host path ≡ ok document
  pub version : get "spdxVersion" document ≡ str "SPDX-2.3"
  pub first : Json
  pub others : List Json
  pub packages : Items
  pub listed : get "packages" document ≡ arr packages
  pub some_package : items packages ≡ first ∷ others
  pub named : All (λ item. is_package item ≡ true) (items packages)

packages-All :
    (values : List Json)
    → any (λ item. not (is_package item)) values ≡ false
    → All (λ item. is_package item ≡ true) values
packages-All [] h = tt
packages-All (value ∷ values) h = (ground arith, packages-All values (ground arith))

some_item :
    (packages : Items)
    → is_nonempty (items packages) ≡ true
    → (first : Json) × (others : List Json) × (items packages ≡ first ∷ others)
some_item nil h = cc
some_item (cons x xs) h = (x, items xs, refl)

pub verify_sbom-IsSbom :
    (host : Runtime) (path : FilePath) → verify_sbom host path ≡ ok tt → IsSbom host path
unfolding verify_sbom
verify_sbom-IsSbom host path h = elim (Result-cases (read_json host path)) [
  | inr (raised, failed) ↦ absurd (ground arith)
  | inl (document, read) ↦
      elim (as_arr_cases (get "packages" document) "core_release_sbom_invalid") [
        | inr failed ↦ absurd (ground arith)
        | inl (packages, listed) ↦
            let (first, others, some_package) = some_item packages (ground arith) in
            record {
              document = document;
              read = read;
              version = (eq_str_iff (get "spdxVersion" document) "SPDX-2.3").0 (ground arith);
              first = first;
              others = others;
              packages = packages;
              listed = listed;
              some_package = some_package;
              named = packages-All (items packages) (ground arith);
            }
      ]
]
