-- ===== src/Promotion/Files.antt =====
-- The reads of the promotion script: `sha256_file`, `load_json`, `git`, `local_metadata` and
-- `local_version`. Files, `git` and the decoders of the runtime are parameters.
use latchway_android.Base.{
  ℕ, String, skip_space, Bool, true, not, Option, none, some, List, ◌||◌, ltb, eqb, ◌==◌,
  if◌then◌else◌, universal_newlines, Result, ok, err, rejected, reject_if, ◌>>=◌, ◌>>◌,
}
use Prim.Native.Char.{Char, code}
use latchway_android.Disk.{FilePath}
use latchway_android.Regex.{fullmatch}
use latchway_android.Json.{Json, str, obj, Fields, get_last, strict, as_obj}
use latchway_android.Promotion.Constants.{
  maximum_report_bytes, maximum_local_metadata_bytes, semver,
}

-- What the runtime supplies: `hashlib.sha256(…).hexdigest()`, UTF-8 decoding, the JSON decoder (an
-- object holds its pairs as they stand in the text) and the word characters of `re`.
pub record Runtime : Type 0 where
  pub sha256 : List ℕ → String
  pub utf8 : List ℕ → Option String
  pub loads : String → Option Json
  pub is_word : ℕ → Bool

-- `path.lstat()`, the tests on it and the read, which are refused alike.
unfoldable pub read_bounded : FilePath → ℕ → String → Result (List ℕ)
read_bounded none maximum code = err (rejected code)
read_bounded (some file) maximum code = do
  reject_if (not file.regular || file.symlink || ltb maximum file.size) code
  elim file.bytes [ none ↦ err (rejected code) | some bytes ↦ ok bytes ]

abbrev or_reject {ℓ} : {A : Type ℓ} → Option A → String → Result A
or_reject none code = err (rejected code)
or_reject (some a) code = ok a

unfoldable pub before_rest : Char → String → String
before_rest c String.[] = if eqb (code c) 10 then String.[] else String.◌∷◌ c String.[]
before_rest c rest = String.◌∷◌ c rest

-- `str.rstrip("\n")`
unfoldable pub rstrip_newlines : String → String
rstrip_newlines String.[] = String.[]
rstrip_newlines (String.◌∷◌ c s) = before_rest c (rstrip_newlines s)

unfoldable pub strip_prefix : String → String → Option String
strip_prefix String.[] s = some s
strip_prefix (String.◌∷◌ c p) String.[] = none
strip_prefix (String.◌∷◌ c p) (String.◌∷◌ d s) =
    let rest = strip_prefix p s in if eqb (code c) (code d) then rest else none

-- The characters up to a quotation mark, which must follow.
unfoldable pub until_quote : String → Option String
until_quote String.[] = none
until_quote (String.◌∷◌ c s) =
    if eqb (code c) 34
    then some String.[]
    else elim (until_quote s) [ none ↦ none | some t ↦ some (String.◌∷◌ c t) ]

-- `"([^"]+)"`
unfoldable pub quoted : String → Option String
quoted (String.◌∷◌ c s) =
    if eqb (code c) 34
    then elim (until_quote s) [ none ↦ none | some t ↦ (if t == "" then none else some t) ]
    else none
quoted String.[] = none

abbrev after_prefix : String → (String → Option String) → String → Option String
after_prefix prefix rest s = elim (strip_prefix prefix s) [ none ↦ none | some t ↦ rest t ]

-- `\s*=\s*"([^"]+)"`
unfoldable pub assignment : String → Option String
assignment s = after_prefix "=" (λ t. quoted (skip_space t)) (skip_space s)

-- `LATCHWAY_SDK_VERSION:\s*String\s*=\s*"([^"]+)"` at one position
unfoldable pub android_version : String → Option String
android_version =
    after_prefix "LATCHWAY_SDK_VERSION:" λ t. after_prefix "String" assignment (skip_space t)

-- `sdk\s*=\s*"([^"]+)"` at one position
unfoldable pub ios_version : String → Option String
ios_version = after_prefix "sdk" assignment

-- `re.search(…)` and its first group: the first position at which the pattern matches. With a
-- leading `\b` the character before the position must be no word character, as `before` says.
unfoldable pub search_from : (ℕ → Bool) → Bool → (String → Option String) → String → Option String
search_from allowed before pattern String.[] = none
search_from allowed before pattern (String.◌∷◌ c s) =
    let rest = search_from allowed (allowed (code c)) pattern s in
    if before
    then elim (pattern (String.◌∷◌ c s)) [ none ↦ rest | some found ↦ some found ]
    else rest

module _ (host : Runtime) where
  unfoldable pub sha256_file : FilePath → Result String
  sha256_file path = do
    bytes ← read_bounded path maximum_report_bytes "promotion_report_file_invalid"
    ok (host.sha256 bytes)

  -- `load_json`, with the hook `strict_object`.
  unfoldable pub load_json : FilePath → Result Fields
  load_json path = do
    bytes ← read_bounded path maximum_report_bytes "promotion_report_file_invalid"
    text ← or_reject (host.utf8 bytes) "promotion_report_json_invalid"
    value ← or_reject (host.loads (universal_newlines text)) "promotion_report_json_invalid"
    strict "promotion_report_duplicate_key" value
    as_obj value "promotion_report_json_invalid"

  unfoldable pub local_metadata : FilePath → Result String
  local_metadata path = do
    bytes ← read_bounded path maximum_local_metadata_bytes "promotion_local_version_invalid"
    text ← or_reject (host.utf8 bytes) "promotion_local_version_invalid"
    ok (universal_newlines text)

  -- `value.get("version") if isinstance(value, dict) else None` of `package.json`
  unfoldable pub package_version : Json → Option String
  package_version (obj fs) = elim (get_last "version" fs) [ str s ↦ some s | _ ↦ none ]
  package_version _ = none

  -- `files` is the repository's tree, by paths from its root.
  unfoldable pub read_version : (String → FilePath) → String → Result (Option String)
  read_version files repository_id =
      if repository_id == "javascript" || repository_id == "react_native"
      then (do
        text ← local_metadata (files "package.json")
        value ← or_reject (host.loads text) "promotion_local_version_invalid"
        ok (package_version value))
      else (if repository_id == "ios"
          then (do
            source ← local_metadata (files "Sources/Latchway/LatchwayVersion.swift")
            ok (search_from (λ c. not (host.is_word c)) true ios_version source))
          else (if repository_id == "android"
              then (do
                source ←
                    local_metadata
                      (files "latchway-core/src/main/kotlin/dev/latchway/core/LatchwayApi.kt")
                ok (search_from (λ c. true) true android_version source))
              else err (rejected "promotion_repository_id_invalid")))

  unfoldable pub local_version : (String → FilePath) → String → Result String
  local_version files repository_id = do
    found ← read_version files repository_id
    version ← or_reject found "promotion_local_version_invalid"
    reject_if (not (fullmatch semver version)) "promotion_local_version_invalid"
    ok version

-- `git` of the script: `run` is the outcome of the subprocess, an exit status and what it printed,
-- or `none` where it cannot be started or times out.
unfoldable pub git : (List String → Option (ℕ × String)) → List String → Result String
git run arguments = elim (run arguments) [
  | none ↦ err (rejected "promotion_local_git_invalid")
  | some (status, stdout) ↦
      if eqb status 0
      then ok (rstrip_newlines stdout)
      else err (rejected "promotion_local_git_invalid")
]
