-- ===== src/Osv.antt =====
-- scripts/verify-osv-report.py: the bounded vulnerability report and the severity policy.
pub mod Policy
pub mod Evidence
pub mod Writing
pub mod Recorded
use latchway_android.Base.{
  ℕ, ◌*◌, String, ◌<>◌, Bool, true, false, not, Option, none, some, List, [], ◌∷◌, ◌++◌, ◌||◌, ◌&&◌,
  ltb, eqb, leb, ◌==◌, if◌then◌else◌, length, member, universal_newlines, Result, ok, err, Error,
  exit_with, ◌>>=◌, ◌>>◌,
}
use latchway_android.Disk.{File, FilePath}
use latchway_android.Regex.{Regex, CharClass, chars, one, seq, up_to, repeated, fullmatch}
use latchway_android.Json.{Json, str, arr, obj, Items, nil, Fields, end, keys, items, get_last}

-- The decoders of UTF-8 and JSON, and `str.upper`.
pub record Runtime : Type 0 where
  pub utf8 : List ℕ → Option String
  pub loads : String → Option Json
  pub upper : String → String

abbrev lower_hex_digits : CharClass
lower_hex_digits = (b'0', b'9') ∷ (b'a', b'f') ∷ []

unfoldable pub source_commit_pattern : Regex
source_commit_pattern = repeated 40 (chars lower_hex_digits)

unfoldable pub digest_pattern : Regex
digest_pattern = repeated 64 (chars lower_hex_digits)

abbrev alphanumeric : CharClass
alphanumeric = (b'A', b'Z') ∷ (b'a', b'z') ∷ (b'0', b'9') ∷ []

unfoldable pub safe_id : Regex
safe_id =
    seq (chars alphanumeric)
      (up_to 127 (chars (one b'.' ∷ one b'_' ∷ one b':' ∷ one b'-' ∷ alphanumeric)))

unfoldable pub safe_package : Regex
safe_package = seq (chars (one b'@' ∷ alphanumeric)) (
    up_to 199 (
      chars (
        one b'@' ∷ one b'.' ∷ one b'_' ∷ one b'/' ∷ one b'+' ∷ one b':' ∷ one b'-' ∷ alphanumeric)))

unfoldable pub safe_version : Regex
safe_version =
    seq (chars alphanumeric)
      (up_to 127 (chars (one b'.' ∷ one b'_' ∷ one b'+' ∷ one b':' ∷ one b'-' ∷ alphanumeric)))

abbrev pub maximum_osv_bytes : ℕ
maximum_osv_bytes = 32 * 1024 * 1024

abbrev pub non_blocking : List String
non_blocking = "LOW" ∷ "MEDIUM" ∷ "MODERATE" ∷ "NONE" ∷ []

abbrev pub blocking_severities : List String
blocking_severities = "HIGH" ∷ "CRITICAL" ∷ []

-- `if test: fail(message)`
abbrev fail_if : Bool → String → Result (Unit {0})
fail_if true message = err (exit_with message)
fail_if false message = ok tt

-- The fields of an object, the members of a list.
abbrev pub object_or_fail : Json → String → Result Fields
object_or_fail (obj fs) message = ok fs
object_or_fail _ message = err (exit_with message)

abbrev pub list_or_fail : Json → String → Result (List Json)
list_or_fail (arr xs) message = ok (items xs)
list_or_fail _ message = err (exit_with message)

abbrev text_or_fail : Json → String → Result String
text_or_fail (str s) message = ok s
text_or_fail _ message = err (exit_with message)

unfoldable pub require_safe : Json → Regex → String → Result String
require_safe value pattern label = do
  text ← text_or_fail value ("OSV report contains an invalid " <> label)
  fail_if (not (fullmatch pattern text)) ("OSV report contains an invalid " <> label)
  ok text

-- `value.get(key, default)`
unfoldable pub get_or : String → Json → Fields → Json
get_or key default fs = if member key (keys fs) then get_last key fs else default

-- A finding, with the severity that blocks, if one does.
pub record Finding : Type 0 where
  pub identifier : String
  pub blocks : Option String

-- The severity under the policy: none if it does not block, UNKNOWN for any other text or value.
unfoldable pub severity_of : Runtime → Json → Option String
severity_of host (str s) =
    if member (host.upper s) non_blocking
    then none
    else some (if member (host.upper s) blocking_severities then host.upper s else "UNKNOWN")
severity_of host _ = some "UNKNOWN"

unfoldable pub read_finding : Runtime → Json → Result Finding
read_finding host value = do
  finding ← object_or_fail value "OSV vulnerability entry is malformed"
  identifier ← require_safe (get_last "id" finding) safe_id "vulnerability ID"
  specific ←
      object_or_fail (get_or "database_specific" (obj end) finding)
        "OSV database-specific metadata is malformed"
  ok (record { identifier = identifier; blocks = severity_of host (get_last "severity" specific) })

unfoldable pub read_findings : Runtime → List Json → Result (List Finding)
read_findings host [] = ok []
read_findings host (value ∷ more) = do
  finding ← read_finding host value
  rest ← read_findings host more
  ok (finding ∷ rest)

-- A package of the report with its findings.
pub record Package : Type 0 where
  pub ecosystem : String
  pub name : String
  pub version : String
  pub findings : List Finding

unfoldable pub read_entry : Runtime → Json → Result Package
read_entry host value = do
  entry ← object_or_fail value "OSV package entry is malformed"
  named ← object_or_fail (get_last "package" entry) "OSV package entry is malformed"
  name ← require_safe (get_last "name" named) safe_package "package name"
  version ← require_safe (get_last "version" named) safe_version "package version"
  ecosystem ← require_safe (get_last "ecosystem" named) safe_package "ecosystem"
  values ←
      list_or_fail (get_or "vulnerabilities" (arr nil) entry)
        "OSV vulnerability collection is malformed"
  findings ← read_findings host values
  ok (record { ecosystem = ecosystem; name = name; version = version; findings = findings })

unfoldable pub read_entries : Runtime → List Json → Result (List Package)
read_entries host [] = ok []
read_entries host (value ∷ more) = do
  first ← read_entry host value
  rest ← read_entries host more
  ok (first ∷ rest)

unfoldable pub read_results : Runtime → List Json → Result (List Package)
read_results host [] = ok []
read_results host (value ∷ more) = do
  result ← object_or_fail value "OSV result does not contain a packages array"
  values ← list_or_fail (get_last "packages" result) "OSV result does not contain a packages array"
  packages ← read_entries host values
  rest ← read_results host more
  ok (packages ++ rest)

unfoldable pub some_block : List Finding → Bool
some_block [] = false
some_block (f ∷ more) = elim f.blocks [ none ↦ some_block more | some severity ↦ true ]

-- `bool(blocking)`
unfoldable pub is_blocked : List Package → Bool
is_blocked [] = false
is_blocked (p ∷ more) = some_block p.findings || is_blocked more

-- `arguments.report.stat()` and the read with their bounds.
unfoldable pub read_report : Runtime → FilePath → Result Fields
read_report host none = err (exit_with "OSV report is unavailable")
read_report host (some file) = do
  fail_if (leb file.size 0 || ltb maximum_osv_bytes file.size)
      "OSV report is empty or exceeds the 32 MiB policy limit"
  let broken : String = "OSV report is not valid bounded UTF-8 JSON"
  bytes ← elim file.bytes [ none ↦ err (exit_with broken) | some bytes ↦ ok bytes ]
  text ← elim (host.utf8 bytes) [ none ↦ err (exit_with broken) | some text ↦ ok text ]
  value ← elim (host.loads (universal_newlines text)) [
    | none ↦ err (exit_with broken)
    | some value ↦ ok value
  ]
  object_or_fail value "OSV report does not contain a results array"

-- The whole script up to its evidence: the packages, and whether it ends with exit code 0.
unfoldable pub scan : Runtime → FilePath → String → String → String → Result (List Package × Bool)
scan host report source_commit inventory database = do
  fail_if (not (fullmatch source_commit_pattern source_commit))
      "source commit must be a lowercase 40-character Git commit"
  fail_if (not (fullmatch digest_pattern inventory))
      "inventory SHA-256 must be lowercase hexadecimal"
  fail_if (not (fullmatch digest_pattern database)) "database SHA-256 must be lowercase hexadecimal"
  document ← read_report host report
  values ← list_or_fail (get_last "results" document) "OSV report does not contain a results array"
  packages ← read_results host values
  fail_if (eqb (length packages) 0) "OSV scan inventoried zero packages"
  ok (packages, not (is_blocked packages))
