-- ===== src/Osv/Recorded.antt =====
-- What the evidence file says of a scan.
use latchway_android.Base.{
  ℕ, ◌>>=◌, Result, String, ◌<>◌, ◌≡◌, ◌↔◌, refl, sym, inl, inr, Bool, true, false, not, Option,
  none, some, List, [], ◌∷◌, ◌++◌, length, Error, ok, err, Result-cases, Option-cases, Bool-cases,
  arith,
}
use latchway_android.Disk.{FilePath}
use latchway_android.Json.{obj, get_last}
use latchway_android.Osv.{
  Runtime, Finding, Package, some_block, is_blocked, list_or_fail, read_report, read_results, scan,
}
use latchway_android.Osv.Writing.{IsKept, write-Ends, written}
use latchway_android.Osv.Evidence.{
  Row, has_row, unique, severe_rows, blocking_rows, blocking_count, scan_evidence, Printer, Target,
  after_step, make_directory, make_temporary, or_remove, fill_and_move, write_evidence, status_of,
  run_scan,
}

severe_iff :
    (name version : String) (fs : List Finding)
    → (some_block fs ≡ false) ↔ (severe_rows name version fs ≡ [])
unfolding some_block severe_rows
severe_iff name version [] = (λ h. refl, λ h. refl)
severe_iff name version (f ∷ more) = elim (Option-cases f.blocks) [
  | inl absent ↦ rw absent (severe_iff name version more)
  | inr (s, present) ↦ rw present (λ h. cc, λ h. cc)
]

append_empty : (xs ys : List Row) → (xs ++ ys ≡ []) ↔ (xs ≡ []) × (ys ≡ [])
append_empty [] ys = (λ h. (refl, h), λ h. h.1)
append_empty (x ∷ xs) ys = (λ h. cc, λ h. cc)

blocked_iff : (ps : List Package) → (is_blocked ps ≡ false) ↔ (blocking_rows ps ≡ [])
unfolding is_blocked blocking_rows
blocked_iff [] = (λ h. refl, λ h. refl)
blocked_iff (p ∷ more) =
    let s = severe_iff p.name p.version p.findings in
    let b = blocked_iff more in
    let a = append_empty (severe_rows p.name p.version p.findings) (blocking_rows more) in
    (
      λ h. a.1 (s.0 (ground arith), b.0 (ground arith)),
      λ h. let (here, later) = a.0 h in ground (arith, s.1 here, b.1 later),
    )

unique_empty : (rows : List Row) → unique rows ≡ [] → rows ≡ []
unfolding unique has_row
unique_empty [] h = refl
unique_empty (r ∷ rows) h = elim (Bool-cases (has_row r rows)) [
  | inr fresh ↦ absurd (ground arith)
  | inl again ↦
      let nothing : rows ≡ [] = unique_empty rows (ground arith) in
      let missing : has_row r [] ≡ true = rw nothing at again in absurd (ground arith)
]

length_zero : (rows : List Row) → length rows ≡ 0 → rows ≡ []
length_zero [] h = refl
length_zero (r ∷ rows) h = absurd (omega arith)

count_iff : (ps : List Package) → (not (is_blocked ps) ≡ true) ↔ (blocking_count ps ≡ 0)
unfolding blocking_count unique
count_iff ps =
    let b = blocked_iff ps in
    (
      λ h. let none_left = b.0 (ground arith) in rw none_left refl,
      λ h. ground (
        arith,
        b.1 (unique_empty (blocking_rows ps) (length_zero (unique (blocking_rows ps)) h)),
      ),
    )

-- The evidence at the path is that of the packages that the scan read, and no temporary file is
-- left.
pub record IsRecorded (host : Runtime) (printer : Printer) (report : FilePath)
    (source_commit inventory database : String) (passes : Bool) (target : Option Target)
    : Type 0 where
  pub packages : List Package
  pub scanned : scan host report source_commit inventory database ≡ ok (packages, passes)
  pub after : Target
  pub there : target ≡ some after
  pub bytes :
      after.bytes
      ≡ some (
          printer.encode (
            printer.dumps
              (obj (scan_evidence source_commit inventory database packages (status_of passes)))
            <> "\n"))
  pub cleared : after.temporary ≡ none
  pub agrees : (passes ≡ true) ↔ (blocking_count packages ≡ 0)

scan-not_blocked :
    (host : Runtime) (report : FilePath) (source_commit inventory database : String)
    (ps : List Package) (passes : Bool)
    → scan host report source_commit inventory database ≡ ok (ps, passes)
    → passes ≡ not (is_blocked ps)
unfolding scan
scan-not_blocked host report source_commit inventory database ps passes h =
    elim (Result-cases (read_report host report)) [
      | inr (e, failed) ↦ absurd (ground arith)
      | inl (document, read) ↦
          elim (Result-cases (
            list_or_fail (get_last "results" document)
              "OSV report does not contain a results array")) [
                | inr (e, failed) ↦ absurd (ground arith)
                | inl (values, listed) ↦ elim (Result-cases (read_results host values)) [
                  | inr (e, failed) ↦ absurd (ground arith)
                  | inl (packages, collected) ↦ ground arith
                ]
              ]
    ]

then_fails : (r : Result (Unit {0})) (b : Bool) (e : Error) → (r >>= λ _. ok b) ≡ err e → r ≡ err e
then_fails (ok u) b e h = cc
then_fails (err x) b e h = cc

module _ (host : Runtime) (printer : Printer) (report : FilePath)
    (source_commit inventory database : String) (target : Target)
    (fresh : target.temporary ≡ none) where
  abbrev result : Result Bool × Option Target
  result = run_scan host printer report source_commit inventory database (some target)

  abbrev text : List Package → Bool → List ℕ
  text packages passed = printer.encode (
      printer.dumps
        (obj (scan_evidence source_commit inventory database packages (status_of passed)))
      <> "\n")

  IsRecorded-or_kept :
      ((passes : Bool)
        → result.0 ≡ ok passes
        → IsRecorded host printer report source_commit inventory database passes result.1)
      × ((e : Error) → result.0 ≡ err e → IsKept target result.1)
  unfolding run_scan write_evidence
  IsRecorded-or_kept = elim (Result-cases (scan host report source_commit inventory database)) [
    | inr (e, failed) ↦ rw failed (
      λ passes h. cc,
      λ e h. record { after = target; there = refl; bytes = refl; cleared = inl fresh },
    )
    | inl ((ps, passed), done) ↦
        let counted : (passed ≡ true) ↔ (blocking_count ps ≡ 0) =
          rw (scan-not_blocked host report source_commit inventory database ps passed done)
            (count_iff ps) in
        let pair =
          after_step (make_directory target)
            λ t. after_step (make_temporary t) λ t. or_remove (fill_and_move (text ps passed) t) in
        let ends =
          written (text ps passed) target pair.0 pair.1
            (write-Ends (text ps passed) target fresh) in
        elim (Result-cases pair.0) [
          | inr (e, failed) ↦
              rw done (λ passes h. ground arith, λ e h. ends.1 e (then_fails pair.0 passed e h))
          | inl (u, wrote) ↦ rw done (
            λ passes h.
                let same : passed ≡ passes = ground arith in
                rw (sym same) (record {
                  packages = ps;
                  scanned = done;
                  after = pair.1;
                  there = refl;
                  bytes = (ends.0 u wrote).0;
                  cleared = (ends.0 u wrote).1;
                  agrees = counted;
                }),
            λ e h. absurd (ground arith),
          )
        ]
  ]

  -- A scan that is cut off by an error, also in the middle of the write, leaves the bytes at the
  -- path of the evidence as they were, and no temporary file unless its removal fails. Before the
  -- scan there is no temporary file.
  pub run_scan-keeps :
      (e : Error)
      → (run_scan host printer report source_commit inventory database (some target)).0 ≡ err e
      → IsKept target
          (run_scan host printer report source_commit inventory database (some target)).1
  run_scan-keeps = IsRecorded-or_kept.1
