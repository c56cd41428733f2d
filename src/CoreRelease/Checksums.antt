-- ===== src/CoreRelease/Checksums.antt =====
-- `verify_checksums`.
use latchway_android.Base.{
  ℕ, zero, suc, String, Bool, true, false, not, Option, List, [], ◌∷◌, ◌&&◌, ◌||◌, ◌==◌, any, map,
  member, same_set, universal_newlines, Result, ok, reject_if, ◌>>=◌, ◌>>◌,
}
use latchway_android.Disk.{FilePath}
use latchway_android.Regex.{Regex, chars, char, seq, up_to, fullmatch}
use latchway_android.GpgStatus.Text.{splitlines}
use latchway_android.Central.Paths.{sorted}
use latchway_android.CoreRelease.Constants.{sha256_hash, evidence_assets, expected_files}
use latchway_android.CoreRelease.Inputs.{Runtime, regular, or_reject, hash_file}

-- An entry of the directory, as `iterdir`, `is_symlink` and `is_file` tell of it.
pub record Entry : Type 0 where
  pub name : String
  pub symlink : Bool
  pub is_file : Bool

-- The release directory: `none` where it cannot be listed, and the file at each name.
pub record Directory : Type 0 where
  pub entries : Option (List Entry)
  pub file : String → FilePath

-- `([0-9a-f]{64})  ([A-Za-z0-9][A-Za-z0-9._-]{0,255})`
unfoldable pub checksum_line : Regex
checksum_line = seq sha256_hash (
    seq (char b' ') (
      seq (char b' ') (
        seq (chars ((b'A', b'Z') ∷ (b'a', b'z') ∷ (b'0', b'9') ∷ [])) (
          up_to 255 (
            chars (
              (b'A', b'Z')
              ∷ (b'a', b'z')
              ∷ (b'0', b'9')
              ∷ (b'.', b'.')
              ∷ (b'_', b'_')
              ∷ (b'-', b'-')
              ∷ []))))))

-- The first group, which has 64 characters, and the second, which begins two characters later.
unfoldable pub first_chars : ℕ → String → String
first_chars zero s = ""
first_chars (suc n) String.[] = ""
first_chars (suc n) (String.◌∷◌ c s) = String.◌∷◌ c (first_chars n s)

unfoldable pub without_first : ℕ → String → String
without_first zero s = s
without_first (suc n) String.[] = ""
without_first (suc n) (String.◌∷◌ c s) = without_first n s

abbrev pub Sums : Type 0
Sums = List (String × String)

abbrev pub names_of : Sums → List String
names_of [] = []
names_of ((name, _) ∷ more) = name ∷ names_of more

-- The loop over the lines, with the names so far.
unfoldable pub read_sums : List String → List String → Result Sums
read_sums [] seen = ok []
read_sums (line ∷ lines) seen = do
  let name = without_first 66 line
  reject_if (not (fullmatch checksum_line line) || member name seen)
      "core_release_checksums_invalid"
  more ← read_sums lines (name ∷ seen)
  ok ((name, first_chars 64 line) ∷ more)

-- `left == right` of lists of texts.
unfoldable pub same_texts : List String → List String → Bool
same_texts [] [] = true
same_texts (s ∷ ss) (t ∷ ts) = s == t && same_texts ss ts
same_texts _ _ = false

module _ (host : Runtime) (directory : Directory) where
  -- `any(sha256(root / name) != digest for …)`, which stops at the first that differs.
  unfoldable pub check_sums : Sums → Result (Unit {0})
  check_sums [] = ok tt
  check_sums ((name, digest) ∷ more) = do
    actual ← hash_file host (directory.file name)
    reject_if (not (actual == digest)) "core_release_checksum_mismatch"
    check_sums more

  unfoldable pub sums_text : Result String
  sums_text = do
    file ← regular (directory.file "SHA256SUMS")
    bytes ← or_reject file.bytes "core_release_checksums_invalid"
    text ← or_reject (host.utf8 bytes) "core_release_checksums_invalid"
    ok (universal_newlines text)

  unfoldable pub verify_checksums : Result (Unit {0})
  verify_checksums = do
    entries ← or_reject directory.entries "core_release_directory_invalid"
    reject_if
        (not (same_set (map (λ e. e.name) entries) expected_files)
          || any (λ e. e.symlink || not e.is_file) entries)
        "core_release_asset_closure_invalid"
    text ← sums_text
    sums ← read_sums (splitlines text) []
    reject_if
        (not (same_set (names_of sums) ("latchway-single-maintainer-v1.json" ∷ evidence_assets))
          || not (same_texts (names_of sums) (sorted (names_of sums))))
        "core_release_checksums_invalid"
    check_sums sums
