-- ===== src/Tests/Osv.antt =====
-- A report of one package with a harmless finding.
use latchway_android.Base.{
  ◌<◌, ℕ, Option, String, ◌≡◌, refl, true, false, none, err, os_error, some, List, [], ◌∷◌, All,
  length, ok, String-discrete, member, universal_newlines,
}
use latchway_android.Disk.{FilePath}
use latchway_android.Regex.{fullmatch}
use latchway_android.Json.{str, arr, obj, Items, items, nil, cons, Fields, end, field, get_last}
use latchway_android.Osv
use latchway_android.Osv.{Runtime, Package, read_report, scan}
use latchway_android.Osv.Evidence
use latchway_android.Osv.Evidence.{Printer, Target, run_scan}
use latchway_android.Osv.Writing.{IsKept}
use latchway_android.Osv.Recorded.{run_scan-keeps}
use latchway_android.Osv.Policy.{IsCleanResult, scan_passes}

abbrev document : Fields
document =
    field "results"
      (arr (
        cons
          (obj (
            field "packages"
              (arr (
                cons
                  (obj (
                    field "package"
                      (obj (
                        field "name" (str "okhttp")
                          (field "version" (str "4.12.0") (field "ecosystem" (str "Maven") end))))
                      (field "vulnerabilities"
                        (arr (
                          cons
                            (obj (
                              field "id" (str "GHSA-1") (
                                field "database_specific" (obj (field "severity" (str "LOW") end))
                                  end)))
                            nil))
                        end)))
                  nil))
              end))
          nil))
      end

abbrev host : Runtime
host = record {
  utf8 = λ bytes. some "report";
  loads = λ text. some (obj document);
  upper = λ text. text;
}

abbrev report : FilePath
report = some (record { regular = true; symlink = false; size = 9; bytes = some [] })

abbrev commit : String
commit = "0123456789abcdef0123456789abcdef01234567"

abbrev sha : String
sha = "0123456789abcdef0123456789abcdef0123456789abcdef0123456789abcdef"

abbrev packages : List Package
packages =
    record {
      ecosystem = "Maven";
      name = "okhttp";
      version = "4.12.0";
      findings = record { identifier = "GHSA-1"; blocks = none } ∷ [];
    }
    ∷ []

passes : scan host report commit sha sha ≡ ok (packages, true)
unfolding scan read_report Osv.read_results Osv.read_entries Osv.read_entry Osv.read_findings
    Osv.read_finding Osv.severity_of Osv.get_or Osv.require_safe Osv.some_block Osv.is_blocked
    Osv.source_commit_pattern Osv.digest_pattern Osv.safe_id Osv.safe_package Osv.safe_version
    get_last universal_newlines fullmatch String-discrete member
passes = refl

scan_passes_example :
    (found : Fields) × (results : Items) × (read_report host report ≡ ok found)
    × (get_last "results" found ≡ arr results)
    × All (IsCleanResult host) (items results)
    × (0 < length packages)
scan_passes_example = scan_passes host report commit sha sha packages passes

abbrev printer : Printer
printer = record { dumps = λ value. "{}"; encode = λ text. 8 ∷ [] }

-- A disk on which the write fails after the bytes that are given, if any are.
abbrev target : Option ℕ → Target
target cut = record {
  bytes = some (7 ∷ []);
  temporary = none;
  makes_directory = true;
  makes_temporary = true;
  cut = cut;
  sets_mode = true;
  moves = true;
  removes = true;
}

not_recorded :
    (run_scan host printer report commit sha sha (some (target (some 1)))).0 ≡ err os_error
unfolding run_scan Evidence.write_evidence Evidence.make_directory Evidence.make_temporary
    Evidence.write_temporary Evidence.remove_temporary Evidence.fill_and_move
not_recorded = rw passes refl

run_scan-keeps_example :
    IsKept
      (target (some 1))
      (run_scan host printer report commit sha sha (some (target (some 1)))).1
run_scan-keeps_example =
    run_scan-keeps host printer report commit sha sha (target (some 1)) refl os_error not_recorded
