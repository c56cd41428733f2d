-- ===== src/Maintainer/Lock.antt =====
-- `contract_lock` and `verify_android_release_metadata`.
use Prim.Native.Char.{code}
use latchway_android.Base.{
  String, Bool, true, false, not, Option, none, some, List, [], ◌∷◌, ◌||◌, eqb, ◌==◌, if◌then◌else◌,
  codes, member, same_set, skip_space, Result, ok, err, type_error, reject_if, ◌>>=◌, ◌>>◌,
}
use latchway_android.Disk.{FilePath}
use latchway_android.Regex.{Regex, chars, char, lit, repeated, seq, alt, star, plus, opt, fullmatch}
use latchway_android.GpgStatus.Text.{splitlines}
use latchway_android.Maintainer.Constants.{version, release_tag, commit_id, sha256_hash}
use latchway_android.Maintainer.Inputs.{Runtime, regular_text, space, search_word, search_line}

abbrev in_order : List Regex → Regex
in_order [] = Regex.empty
in_order (r ∷ rs) = seq r (in_order rs)

abbrev not_quote : Regex
not_quote = chars ((0, 33) ∷ (35, 0x10ffff) ∷ [])

-- Between the characters of `space`.
abbrev not_space : Regex
not_space = chars (
    (0, 8)
    ∷ (14, 27)
    ∷ (33, 0x84)
    ∷ (0x86, 0x9f)
    ∷ (0xa1, 0x167f)
    ∷ (0x1681, 0x1fff)
    ∷ (0x200b, 0x2027)
    ∷ (0x202a, 0x202e)
    ∷ (0x2030, 0x205e)
    ∷ (0x2060, 0x2fff)
    ∷ (0x3001, 0x10ffff)
    ∷ [])

abbrev quoted : Regex
quoted = in_order (char 34 ∷ star not_quote ∷ char 34 ∷ [])

-- `([a-z0-9_]+):\s*(?:"([^"]*)"|([^\s]+))`
unfoldable pub lock_line : Regex
lock_line = in_order (
    plus (chars ((b'a', b'z') ∷ (b'0', b'9') ∷ (b'_', b'_') ∷ []))
    ∷ char b':'
    ∷ star space
    ∷ alt quoted (plus not_space)
    ∷ [])

-- The first group, which ends at the first colon, and what follows that colon.
unfoldable pub before_colon : String → String
before_colon String.[] = String.[]
before_colon (String.◌∷◌ c s) =
    let rest = before_colon s in if eqb (code c) b':' then String.[] else String.◌∷◌ c rest

unfoldable pub after_colon : String → String
after_colon String.[] = String.[]
after_colon (String.◌∷◌ c s) = let rest = after_colon s in if eqb (code c) b':' then s else rest

unfoldable pub until_quote : String → String
until_quote String.[] = String.[]
until_quote (String.◌∷◌ c s) =
    let rest = until_quote s in if eqb (code c) 34 then String.[] else String.◌∷◌ c rest

abbrev inside : String → String
inside String.[] = String.[]
inside (String.◌∷◌ c s) = until_quote s

-- `match.group(2) or match.group(3)` of the text after the spaces: `none` for two quotation marks.
unfoldable pub lock_value : String → Option String
lock_value text =
    if fullmatch quoted text
    then (let quoted_text = inside text in if quoted_text == "" then none else some quoted_text)
    else some text

abbrev pub Lock : Type 0
Lock = List (String × Option String)

unfoldable pub lock_keys : Lock → List String
lock_keys [] = []
lock_keys ((k, _) ∷ more) = k ∷ lock_keys more

-- `values[key]` of a key that is there.
unfoldable pub lock_entry : String → Lock → Option String
lock_entry key [] = none
lock_entry key ((k, v) ∷ more) = let rest = lock_entry key more in if key == k then v else rest

-- The loop over the lines, with the keys so far.
unfoldable pub read_lines : List String → List String → Result Lock
read_lines [] seen = ok []
read_lines (line ∷ lines) seen = do
  reject_if (not (fullmatch lock_line line) || member (before_colon line) seen)
      "maintainer_release_contract_lock_invalid"
  more ← read_lines lines (before_colon line ∷ seen)
  ok ((before_colon line, lock_value (skip_space (after_colon line))) ∷ more)

abbrev pub required_keys : List String
required_keys =
    "contract_version" ∷ "wire_protocol" ∷ "core_release" ∷ "core_commit" ∷ "bundle_sha256"
    ∷ "minimum_server_version" ∷ "maximum_tested_server_version" ∷ []

unfoldable pub is_entry : String → Lock → String → Bool
is_entry key values text = elim (lock_entry key values) [ none ↦ false | some v ↦ v == text ]

-- `PATTERN.fullmatch(values[key])`, which takes no `None`.
unfoldable pub entry_text : String → Lock → Result String
entry_text key values = elim (lock_entry key values) [ none ↦ err type_error | some v ↦ ok v ]

-- The entries that the script uses after the tests; `contract_version` and `core_release` are the
-- constants.
pub record Contract : Type 0 where
  pub contract_version : String
  pub core_release : String
  pub core_commit : String
  pub bundle_sha256 : String

unfoldable pub check_lock : Lock → Result Contract
check_lock values = do
  reject_if
      (not (same_set (lock_keys values) required_keys)
        || not (is_entry "contract_version" values version)
        || not (is_entry "wire_protocol" values "2")
        || not (is_entry "core_release" values release_tag))
      "maintainer_release_contract_lock_invalid"
  core_commit ← entry_text "core_commit" values
  reject_if (not (fullmatch commit_id core_commit)) "maintainer_release_contract_lock_invalid"
  bundle ← entry_text "bundle_sha256" values
  reject_if (not (fullmatch sha256_hash bundle)) "maintainer_release_contract_lock_invalid"
  ok (record {
    contract_version = version;
    core_release = release_tag;
    core_commit = core_commit;
    bundle_sha256 = bundle;
  })

-- `\bNAME:\s*String\s*=\s*"1\.0\.0"`, without the boundary.
unfoldable pub constant_pattern : String → Regex
constant_pattern name = in_order (
    lit name
    ∷ char b':'
    ∷ star space
    ∷ lit "String"
    ∷ star space
    ∷ char b'='
    ∷ star space
    ∷ char 34
    ∷ lit "1.0.0"
    ∷ char 34
    ∷ [])

module _ (host : Runtime) where
  unfoldable pub contract_lock : FilePath → Result Contract
  contract_lock path = do
    text ← regular_text host path "maintainer_release_contract_lock_invalid"
    values ← read_lines (splitlines text) []
    check_lock values

  -- `## \[1\.0\.0\](?:\s+-\s+\d{4}-\d{2}-\d{2})?`
  unfoldable pub changelog_pattern : Regex
  changelog_pattern =
      let digit = chars host.digits in
      in_order (
        lit "## [1.0.0]"
        ∷ opt (
            in_order (
              plus space
              ∷ char b'-'
              ∷ plus space
              ∷ repeated 4 digit
              ∷ char b'-'
              ∷ repeated 2 digit
              ∷ char b'-'
              ∷ repeated 2 digit
              ∷ []))
        ∷ [])

  unfoldable pub declares : String → String → Bool
  declares text name = search_word host.is_word (constant_pattern name) false (codes text)

  -- `files` is the repository's tree, by paths from its root.
  unfoldable pub verify_android_release_metadata :
      (String → FilePath) → Contract → Result (Unit {0})
  verify_android_release_metadata files contract = do
    source ←
        regular_text host (files "latchway-core/src/main/kotlin/dev/latchway/core/LatchwayApi.kt")
          "maintainer_release_local_version_invalid"
    reject_if
        (not (declares source "LATCHWAY_SDK_VERSION")
          || not (declares source "LATCHWAY_CONTRACT_VERSION")
          || not (contract.contract_version == version))
        "maintainer_release_local_version_invalid"
    changelog ← regular_text host (files "CHANGELOG.md") "maintainer_release_changelog_invalid"
    reject_if (not (search_line changelog_pattern true (codes changelog)))
        "maintainer_release_changelog_invalid"
