-- ===== src/Osv/Policy.antt =====
-- What a passing scan shows of the findings in the report.
use latchway_android.Base.{
  ◌<◌, String, ◌≡◌, refl, ◌⊎◌, inl, inr, true, false, List, [], ◌∷◌, All, length, Option-cases, err,
  exit_with, ◌++◌, member, none, ok, Result-cases, arith,
}
use latchway_android.Disk.{FilePath}
use latchway_android.Json.{Json, str, arr, obj, nil, items, Items, Fields, end, get_last}
use latchway_android.Osv.{
  Runtime, Finding, Package, non_blocking, get_or, severity_of, read_finding, read_findings,
  read_entry, read_entries, read_results, read_report, scan, object_or_fail, list_or_fail,
  some_block, is_blocked,
}

-- A finding whose severity is a text of the policy that does not block.
pub record IsHarmless (host : Runtime) (value : Json) : Type 0 where
  pub finding : Fields
  pub is_object : value ≡ obj finding
  pub specific : Fields
  pub has_specific : get_or "database_specific" (obj end) finding ≡ obj specific
  pub severity : String
  pub has_severity : get_last "severity" specific ≡ str severity
  pub listed : member (host.upper severity) non_blocking ≡ true

severity_harmless :
    (host : Runtime) (value : Json)
    → severity_of host value ≡ none
    → (s : String) × (value ≡ str s) × (member (host.upper s) non_blocking ≡ true)
unfolding severity_of
severity_harmless host (str s) h = (s, refl, ground arith)
severity_harmless host _ h = cc

object_cases :
    (v : Json) (message : String)
    → ((fs : Fields) × (v ≡ obj fs)) ⊎ (object_or_fail v message ≡ err (exit_with message))
object_cases (obj fs) message = inl (fs, refl)
object_cases _ message = inr refl

list_cases :
    (v : Json) (message : String)
    → ((xs : Items) × (v ≡ arr xs)) ⊎ (list_or_fail v message ≡ err (exit_with message))
list_cases (arr xs) message = inl (xs, refl)
list_cases _ message = inr refl

blocks_none :
    (f : Finding) (rest : List Finding)
    → some_block (f ∷ rest) ≡ false
    → (f.blocks ≡ none) × (some_block rest ≡ false)
unfolding some_block
blocks_none f rest h = elim (Option-cases f.blocks) [
  | inl absent ↦ (absent, ground arith)
  | inr (s, present) ↦ absurd (ground arith)
]

finding-IsHarmless :
    (host : Runtime) (value : Json) (f : Finding)
    → read_finding host value ≡ ok f
    → f.blocks ≡ none
    → IsHarmless host value
unfolding read_finding
finding-IsHarmless host value f h open_ended =
    elim (object_cases value "OSV vulnerability entry is malformed") [
      | inr failed ↦ absurd (ground arith)
      | inl (finding, e) ↦
          elim (object_cases (get_or "database_specific" (obj end) finding)
            "OSV database-specific metadata is malformed") [
              | inr failed ↦ absurd (ground arith)
              | inl (specific, d) ↦
                  let (s, is_text, harmless) =
                    severity_harmless host (get_last "severity" specific) (ground arith) in
                  record {
                    finding = finding;
                    is_object = e;
                    specific = specific;
                    has_specific = d;
                    severity = s;
                    has_severity = is_text;
                    listed = harmless;
                  }
            ]
    ]

findings-IsHarmless :
    (host : Runtime) (vs : List Json) (fs : List Finding)
    → read_findings host vs ≡ ok fs
    → some_block fs ≡ false
    → All (IsHarmless host) vs
unfolding read_findings some_block
findings-IsHarmless host [] fs h clean = tt
findings-IsHarmless host (v ∷ vs) fs h clean = elim (Result-cases (read_finding host v)) [
  | inr (code, failed) ↦ absurd (ground arith)
  | inl (f, one) ↦ elim (Result-cases (read_findings host vs)) [
    | inr (code, failed) ↦ absurd (ground arith)
    | inl (rest, more) ↦
        let same : fs ≡ f ∷ rest = ground arith in
        let parts = blocks_none f rest (rw same at clean) in
        (finding-IsHarmless host v f one parts.0, findings-IsHarmless host vs rest more parts.1)
  ]
]

-- A package entry whose findings are all harmless.
pub record IsCleanEntry (host : Runtime) (value : Json) : Type 0 where
  pub entry : Fields
  pub is_object : value ≡ obj entry
  pub findings : Items
  pub has_findings : get_or "vulnerabilities" (arr nil) entry ≡ arr findings
  pub harmless : All (IsHarmless host) (items findings)

-- A result whose package entries are all clean.
pub record IsCleanResult (host : Runtime) (value : Json) : Type 0 where
  pub result : Fields
  pub is_object : value ≡ obj result
  pub entries : Items
  pub has_entries : get_last "packages" result ≡ arr entries
  pub clean : All (IsCleanEntry host) (items entries)

entry_clean :
    (host : Runtime) (value : Json) (p : Package)
    → read_entry host value ≡ ok p
    → some_block p.findings ≡ false
    → IsCleanEntry host value
unfolding read_entry
entry_clean host value p h harmless = elim (object_cases value "OSV package entry is malformed") [
  | inr failed ↦ absurd (ground arith)
  | inl (entry, e) ↦
      elim (list_cases (get_or "vulnerabilities" (arr nil) entry)
        "OSV vulnerability collection is malformed") [
          | inr failed ↦ absurd (ground arith)
          | inl (values, v) ↦ elim (Result-cases (read_findings host (items values))) [
            | inr (code, failed) ↦ absurd (ground arith)
            | inl (findings, read) ↦ record {
              entry = entry;
              is_object = e;
              findings = values;
              has_findings = v;
              harmless = findings-IsHarmless host (items values) findings read (ground arith);
            }
          ]
        ]
]

blocked_none :
    (p : Package) (rest : List Package)
    → is_blocked (p ∷ rest) ≡ false
    → (some_block p.findings ≡ false) × (is_blocked rest ≡ false)
unfolding is_blocked
blocked_none p rest h = (ground arith, ground arith)

blocked_append :
    (ps qs : List Package)
    → is_blocked (ps ++ qs) ≡ false
    → (is_blocked ps ≡ false) × (is_blocked qs ≡ false)
unfolding is_blocked
blocked_append [] qs h = (refl, h)
blocked_append (p ∷ ps) qs h =
    let parts = blocked_none p (ps ++ qs) h in
    let rest = blocked_append ps qs parts.1 in (ground (arith, parts.0, rest.0), rest.1)

entries_clean :
    (host : Runtime) (vs : List Json) (ps : List Package)
    → read_entries host vs ≡ ok ps
    → is_blocked ps ≡ false
    → All (IsCleanEntry host) vs
unfolding read_entries
entries_clean host [] ps h clean = tt
entries_clean host (v ∷ vs) ps h clean = elim (Result-cases (read_entry host v)) [
  | inr (code, failed) ↦ absurd (ground arith)
  | inl (p, one) ↦ elim (Result-cases (read_entries host vs)) [
    | inr (code, failed) ↦ absurd (ground arith)
    | inl (rest, more) ↦
        let same : ps ≡ p ∷ rest = ground arith in
        let parts = blocked_none p rest (rw same at clean) in
        (entry_clean host v p one parts.0, entries_clean host vs rest more parts.1)
  ]
]

results_clean :
    (host : Runtime) (vs : List Json) (ps : List Package)
    → read_results host vs ≡ ok ps
    → is_blocked ps ≡ false
    → All (IsCleanResult host) vs
unfolding read_results
results_clean host [] ps h clean = tt
results_clean host (v ∷ vs) ps h clean =
    elim (object_cases v "OSV result does not contain a packages array") [
      | inr failed ↦ absurd (ground arith)
      | inl (result, e) ↦
          elim (list_cases (get_last "packages" result)
            "OSV result does not contain a packages array") [
              | inr failed ↦ absurd (ground arith)
              | inl (entries, listed) ↦ elim (Result-cases (read_entries host (items entries))) [
                | inr (code, failed) ↦ absurd (ground arith)
                | inl (first, read) ↦ elim (Result-cases (read_results host vs)) [
                  | inr (code, failed) ↦ absurd (ground arith)
                  | inl (rest, more) ↦
                      let same : ps ≡ first ++ rest = ground arith in
                      let parts = blocked_append first rest (rw same at clean) in
                      (
                        record {
                          result = result;
                          is_object = e;
                          entries = entries;
                          has_entries = listed;
                          clean = entries_clean host (items entries) first read parts.0;
                        },
                        results_clean host vs rest more parts.1,
                      )
                ]
              ]
            ]
    ]

-- A scan that ends with exit code 0 has read a report with at least one package in which each
-- vulnerability of each package has a severity text that the policy lists as not blocking.
pub scan_passes :
    (host : Runtime) (report : FilePath) (source_commit inventory database : String)
    (packages : List Package)
    → scan host report source_commit inventory database ≡ ok (packages, true)
    → (document : Fields) × (results : Items) × (read_report host report ≡ ok document)
      × (get_last "results" document ≡ arr results)
      × All (IsCleanResult host) (items results)
      × (0 < length packages)
unfolding scan
scan_passes host report source_commit inventory database packages h =
    elim (Result-cases (read_report host report)) [
      | inr (code, failed) ↦ absurd (ground arith)
      | inl (document, read) ↦
          elim (list_cases (get_last "results" document)
            "OSV report does not contain a results array") [
              | inr failed ↦ absurd (ground arith)
              | inl (results, listed) ↦ elim (Result-cases (read_results host (items results))) [
                | inr (code, failed) ↦ absurd (ground arith)
                | inl (found, every) ↦ (
                  document,
                  results,
                  read,
                  listed,
                  results_clean host (items results) found every (ground arith),
                  ground arith,
                )
              ]
            ]
    ]
