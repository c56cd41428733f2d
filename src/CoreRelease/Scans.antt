-- ===== src/CoreRelease/Scans.antt =====
-- `verify_scan` and `verify_sbom`.
use latchway_android.Base.{
  String, Bool, true, false, not, List, [], ◌∷◌, ◌&&◌, ◌||◌, if◌then◌else◌, any, member, has_prefix,
  Result, ok, reject_if, ◌>>=◌, ◌>>◌,
}
use latchway_android.Disk.{FilePath}
use latchway_android.Json.{Json, str, obj, Fields, get, keys, as_obj, as_arr, eq_str}
use latchway_android.CoreRelease.Inputs.{Runtime, read_json, is_at_least, among, truthy}

-- `value.get(key, [])`, which must be a list.
unfoldable pub list_or_empty : String → Fields → String → Result (List Json)
list_or_empty key fs code = if member key (keys fs) then as_arr (get key fs) code else ok []

unfoldable pub check_findings : List Json → Result (Unit {0})
check_findings [] = ok tt
check_findings (value ∷ values) = do
  finding ← as_obj value "core_release_scan_failed"
  severe ← among (get "Severity" finding) ("HIGH" ∷ "CRITICAL" ∷ [])
  reject_if severe "core_release_scan_failed"
  check_findings values

unfoldable pub check_results : String → List Json → Result (Unit {0})
check_results key [] = ok tt
check_results key (value ∷ values) = do
  result ← as_obj value "core_release_scan_invalid"
  findings ← list_or_empty key result "core_release_scan_invalid"
  check_findings findings
  check_results key values

-- `str(item.get("SPDXID", "")).startswith("SPDXRef-")`: no value but a text is printed so.
unfoldable pub has_spdx_id : Json → Bool
has_spdx_id (str s) = has_prefix "SPDXRef-" s
has_spdx_id _ = false

unfoldable pub is_package : Json → Bool
is_package (obj fs) = has_spdx_id (get "SPDXID" fs) && truthy (get "name" fs)
is_package _ = false

abbrev pub is_nonempty : List Json → Bool
is_nonempty [] = false
is_nonempty (x ∷ xs) = true

module _ (host : Runtime) where
  unfoldable pub verify_scan : FilePath → String → Result (Unit {0})
  verify_scan path key = do
    value ← read_json host path
    reject_if (not (is_at_least (get "SchemaVersion" value) 1)) "core_release_scan_invalid"
    results ← as_arr (get "Results" value) "core_release_scan_invalid"
    check_results key results

  unfoldable pub verify_sbom : FilePath → Result (Unit {0})
  verify_sbom path = do
    value ← read_json host path
    reject_if (not (eq_str (get "spdxVersion" value) "SPDX-2.3")) "core_release_sbom_invalid"
    packages ← as_arr (get "packages" value) "core_release_sbom_invalid"
    reject_if (not (is_nonempty packages) || any (λ item. not (is_package item)) packages)
        "core_release_sbom_invalid"
