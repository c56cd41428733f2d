-- ===== src/Osv/Evidence.antt =====
-- The evidence file of the OSV scan, and the script with it.
use latchway_android.Base.{
  ℕ, String, ◌<>◌, Bool, true, false, Option, none, some, List, [], ◌∷◌, ◌++◌, ◌&&◌, ◌||◌, ◌==◌,
  if◌then◌else◌, length, Result, ok, err, os_error, ◌>>=◌,
}
use latchway_android.Disk.{FilePath}
use latchway_android.Json.{Json, int, pos, str, obj, Fields, end, field}
use latchway_android.Osv.{Runtime, Finding, Package, scan}

-- A tuple of texts.
abbrev pub Row : Type 0
Row = List String

unfoldable pub same_row : Row → Row → Bool
same_row [] [] = true
same_row (s ∷ ss) (t ∷ ts) = s == t && same_row ss ts
same_row _ _ = false

unfoldable pub has_row : Row → List Row → Bool
has_row r [] = false
has_row r (row ∷ rows) = same_row r row || has_row r rows

-- The members of the set that the rows make.
unfoldable pub unique : List Row → List Row
unique [] = []
unique (r ∷ rows) = let rest = unique rows in if has_row r rows then rest else r ∷ rest

-- What each package adds to `packages`, `vulnerabilities` and `blocking`.
unfoldable pub package_rows : List Package → List Row
package_rows [] = []
package_rows (p ∷ more) = (p.ecosystem ∷ p.name ∷ p.version ∷ []) ∷ package_rows more

unfoldable pub finding_rows : String → String → List Finding → List Row
finding_rows name version [] = []
finding_rows name version (f ∷ more) =
    (f.identifier ∷ name ∷ version ∷ []) ∷ finding_rows name version more

unfoldable pub vulnerability_rows : List Package → List Row
vulnerability_rows [] = []
vulnerability_rows (p ∷ more) = finding_rows p.name p.version p.findings ++ vulnerability_rows more

unfoldable pub severe_rows : String → String → List Finding → List Row
severe_rows name version [] = []
severe_rows name version (f ∷ more) = elim f.blocks [
  | none ↦ severe_rows name version more
  | some severity ↦ (f.identifier ∷ name ∷ version ∷ severity ∷ []) ∷ severe_rows name version more
]

unfoldable pub blocking_rows : List Package → List Row
blocking_rows [] = []
blocking_rows (p ∷ more) = severe_rows p.name p.version p.findings ++ blocking_rows more

unfoldable pub blocking_count : List Package → ℕ
blocking_count packages = length (unique (blocking_rows packages))

unfoldable pub scan_evidence : String → String → String → List Package → String → Fields
scan_evidence source_commit inventory database packages status =
    field "schema_version" (str "latchway.dependency-vulnerability-scan.v1") (
      field "scanner"
        (obj (
          field "name" (str "OSV-Scanner") (
            field "version" (str "2.4.0") (
              field "commit" (str "b56b5191101d5f27d4787d5583d8d01e9518a7af")
                (field "mode" (str "offline") end)))))
        (field "source_commit" (str source_commit) (
          field "inventory_sha256" (str inventory) (
            field "database_sha256" (str database) (
              field "package_count" (int (pos (length (unique (package_rows packages))))) (
                field "vulnerability_count"
                  (int (pos (length (unique (vulnerability_rows packages)))))
                  (field "blocking_vulnerability_count" (int (pos (blocking_count packages))) (
                    field "policy" (str "block-critical-high-and-unknown-severity")
                      (field "status" (str status) end)))))))))

-- `json.dump` with the options of the script, UTF-8.
pub record Printer : Type 0 where
  pub dumps : Json → String
  pub encode : String → List ℕ

-- The path of the evidence with its bytes, the temporary file beside it, and how the calls of the
-- system go: whether the directory and the temporary file are made, after how many bytes the write
-- fails, if it does, and whether the mode is set, the file is moved and a file is removed.
pub record Target : Type 0 where
  pub bytes : Option (List ℕ)
  pub temporary : Option (List ℕ)
  pub makes_directory : Bool
  pub makes_temporary : Bool
  pub cut : Option ℕ
  pub sets_mode : Bool
  pub moves : Bool
  pub removes : Bool

abbrev pub Step : Type 0
Step = Target → Result (Unit {0}) × Target

abbrev pub after_step : Result (Unit {0}) × Target → Step → Result (Unit {0}) × Target
after_step (ok u, t) next = next t
after_step (err e, t) next = (err e, t)

-- A call of the system that goes well or raises `OSError`.
abbrev pub system_call : Bool → Target → Step
system_call true changed t = (ok tt, changed)
system_call false changed t = (err os_error, t)

-- `parent.mkdir(parents=True, exist_ok=True)`
unfoldable pub make_directory : Step
make_directory t = system_call t.makes_directory t t

-- `tempfile.mkstemp`: a new file, which is empty.
unfoldable pub make_temporary : Step
make_temporary t = system_call t.makes_temporary (record t { temporary = some [] }) t

abbrev first_bytes : ℕ → List ℕ → List ℕ
first_bytes ℕ.zero bytes = []
first_bytes (ℕ.suc n) [] = []
first_bytes (ℕ.suc n) (b ∷ bytes) = b ∷ first_bytes n bytes

-- `json.dump`, the line feed and the end of the `with`; a write that fails leaves what it wrote.
unfoldable pub write_temporary : List ℕ → Step
write_temporary bytes t = elim t.cut [
  | none ↦ (ok tt, record t { temporary = some bytes })
  | some n ↦ (err os_error, record t { temporary = some (first_bytes n bytes) })
]

-- `os.chmod`
unfoldable pub set_mode : Step
set_mode t = system_call t.sets_mode t t

-- `os.replace`
unfoldable pub move_temporary : Step
move_temporary t = system_call t.moves (record t { bytes = t.temporary; temporary = none }) t

-- `unlink(missing_ok=True)`
unfoldable pub remove_temporary : Step
remove_temporary t = system_call t.removes (record t { temporary = none }) t

-- The handler of every exception: the temporary file is removed and the exception raised again.
abbrev pub or_remove : Result (Unit {0}) × Target → Result (Unit {0}) × Target
or_remove (ok u, t) = (ok u, t)
or_remove (err e, t) = after_step (remove_temporary t) (λ t. (err e, t))

-- The body of the `try`.
unfoldable pub fill_and_move : List ℕ → Step
fill_and_move bytes t =
    after_step (write_temporary bytes t) λ t. after_step (set_mode t) move_temporary

unfoldable pub write_evidence : Printer → Option Target → Fields → Result (Unit {0}) × Option Target
write_evidence printer none evidence = (ok tt, none)
write_evidence printer (some target) evidence =
    let bytes = printer.encode (printer.dumps (obj evidence) <> "\n") in
    let (r, after) =
      after_step (make_directory target)
        λ t. after_step (make_temporary t) λ t. or_remove (fill_and_move bytes t) in
    (r, some after)

-- `"passed" if not blocking else "failed"`
abbrev pub status_of : Bool → String
status_of true = "passed"
status_of false = "failed"

abbrev pub recorded :
    Printer
    → String
    → String
    → String
    → Option Target
    → Result (List Package × Bool)
    → Result Bool × Option Target
recorded printer source_commit inventory database target (err e) = (err e, target)
recorded printer source_commit inventory database target (ok (packages, passes)) =
    let (r, after) =
      write_evidence printer target
        (scan_evidence source_commit inventory database packages (status_of passes)) in
    (r >>= λ _. ok passes, after)

-- The whole script: whether it ends with exit code 0, and the path of the evidence after it.
unfoldable pub run_scan :
    Runtime
    → Printer
    → FilePath
    → String
    → String
    → String
    → Option Target
    → Result Bool × Option Target
run_scan host printer report source_commit inventory database target =
    recorded printer source_commit inventory database target
      (scan host report source_commit inventory database)
