-- ===== src/Central/Archives.antt =====
-- The reviewed repository and the ZIP archives: `repository_manifest`, `validate_zip_entry` and
-- `validate_archive`.
use Prim.Native.Char.{code}
use latchway_android.Base.{
  ℕ, ◌+◌, ◌/◌, ◌%◌, String, ◌<>◌, Bool, true, false, not, Option, none, some, List, [], ◌∷◌, ◌++◌,
  map, ◌||◌, ◌&&◌, leb, ltb, eqb, ◌==◌, if◌then◌else◌, length, any, member, same_set, distinct,
  has_char, universal_newlines, Result, ok, err, os_error, reject_if, ◌>>=◌, ◌>>◌,
}
use latchway_android.Disk.{FilePath}
use latchway_android.Json.{int, pos, str, arr, obj, Items, nil, cons, end, field}
use latchway_android.GpgStatus.Text.{ends_with, starts_with}
use latchway_android.Central.Paths.{
  checksum_algorithms, primary_repository_paths, expected_repository_paths,
}
use latchway_android.Central.Inputs.{
  Runtime, maximum_archive_bytes, maximum_signature_bytes, regular_file, read_bytes, or_reject,
  canonical_bytes, sha256_bytes, digest_file, sha256_file,
}

-- One path below the repository's root, relative to it; `directory` is
-- `path.is_dir() and not path.is_symlink()`.
pub record Node : Type 0 where
  pub path : String
  pub directory : Bool
  pub file : FilePath

-- The root, and `sorted(repository.rglob("*"))`.
pub record Repository : Type 0 where
  pub is_dir : Bool
  pub is_symlink : Bool
  pub nodes : List Node

-- What `zipfile` gives for a member; `contents` is `none` where reading it raises `BadZipFile`.
pub record Entry : Type 0 where
  pub filename : String
  pub is_dir : Bool
  pub flag_bits : ℕ
  pub external_attr : ℕ
  pub file_size : ℕ
  pub contents : Option (List ℕ)

-- An archive's file and its members, which are `none` where opening it raises `BadZipFile`.
pub record Archive : Type 0 where
  pub file : FilePath
  pub infos : Option (List Entry)

-- `repository / relative`
unfoldable pub file_at : String → List Node → FilePath
file_at path [] = none
file_at path (n ∷ nodes) = let rest = file_at path nodes in if path == n.path then n.file else rest

-- The loop over the paths, with the relative paths of the files.
unfoldable pub observed_files : List Node → Result (List String)
observed_files [] = ok []
observed_files (n ∷ nodes) =
    let rest = observed_files nodes in
    if n.directory
    then rest
    else (do file ← regular_file none n.file; more ← rest; ok (n.path ∷ more))

-- `left == right` on lists of texts.
unfoldable pub same_list : List String → List String → Bool
same_list [] [] = true
same_list (s ∷ ss) (t ∷ ts) = s == t && same_list ss ts
same_list _ _ = false

-- `text.split("/")`
unfoldable pub split_path : String → List String
split_path String.[] = "" ∷ []
split_path (String.◌∷◌ c s) = elim (split_path s) [
  | [] ↦ "" ∷ []
  | part ∷ parts ↦ if eqb (code c) 47 then "" ∷ part ∷ parts else String.◌∷◌ c part ∷ parts
]

-- The mode in the upper half of the attributes: none, or that of a regular file.
unfoldable pub is_special_mode : ℕ → Bool
is_special_mode attributes =
    let mode = attributes / 65536 % 65536 in not (eqb mode 0) && not (eqb (mode / 4096) 8)

unfoldable pub validate_zip_entry : Entry → Result (Unit {0})
validate_zip_entry info = do
  reject_if (info.is_dir || eqb (info.flag_bits % 2) 1)
      "archive contains a directory or encrypted entry"
  reject_if
      (starts_with info.filename "/"
        || has_char 92 info.filename
        || any (λ part. member part ("" ∷ "." ∷ ".." ∷ [])) (split_path info.filename))
      "archive contains an unsafe path"
  reject_if (is_special_mode info.external_attr) "archive contains a non-regular entry"

module _ (host : Runtime) where
  -- One checksum file against its artifact.
  unfoldable pub check_checksum : List Node → String → String → Result (Unit {0})
  check_checksum nodes primary algorithm = do
    bytes ← read_bytes (file_at (primary <> "." <> algorithm) nodes)
    text ← or_reject (host.ascii bytes) "reviewed checksum is not ASCII"
    expected ← digest_file host algorithm (file_at primary nodes)
    reject_if (not (universal_newlines text == expected))
        "reviewed checksum does not match its exact artifact"

  unfoldable pub check_algorithms : List Node → String → List String → Result (Unit {0})
  check_algorithms nodes primary [] = ok tt
  check_algorithms nodes primary (a ∷ more) = do
    check_checksum nodes primary a
    check_algorithms nodes primary more

  unfoldable pub check_checksums : List Node → List String → Result (Unit {0})
  check_checksums nodes [] = ok tt
  check_checksums nodes (primary ∷ more) = do
    check_algorithms nodes primary checksum_algorithms
    check_checksums nodes more

  abbrev size_of : FilePath → Result ℕ
  size_of none = err os_error
  size_of (some file) = ok file.size

  unfoldable pub manifest_rows : List Node → List String → Result Items
  manifest_rows nodes [] = ok nil
  manifest_rows nodes (relative ∷ more) = do
    size ← size_of (file_at relative nodes)
    sha256 ← sha256_file host (file_at relative nodes)
    rest ← manifest_rows nodes more
    ok (
        cons
          (obj (
            field "path" (str relative)
              (field "bytes" (int (pos size)) (field "sha256" (str sha256) end))))
          rest)

  unfoldable pub repository_manifest : Repository → String → Result (String × ℕ)
  repository_manifest repository version = do
    reject_if (not repository.is_dir || repository.is_symlink)
        "reviewed repository is missing or unsafe"
    let expected = expected_repository_paths version
    observed ← observed_files repository.nodes
    reject_if (not (same_list observed expected))
        "reviewed repository is not the exact closed artifact set"
    check_checksums repository.nodes (primary_repository_paths version)
    rows ← manifest_rows repository.nodes expected
    ok (sha256_bytes host (canonical_bytes host (arr rows)), length expected)

  -- An entry's contents against the reviewed file; a signature has only its size bounded.
  unfoldable pub check_content : List Node → Entry → String → Result (Unit {0})
  check_content nodes info archived =
      if ends_with info.filename ".asc"
      then reject_if (not (ltb 0 info.file_size && leb info.file_size maximum_signature_bytes))
          "archive signature has an invalid size"
      else (do
        size ← size_of (file_at info.filename nodes)
        sha256 ←
            (if eqb info.file_size size
              then sha256_file host (file_at info.filename nodes)
              else ok "")
        reject_if (not (eqb info.file_size size) || not (archived == sha256))
            "archive entry differs from the reviewed repository")

  unfoldable pub check_entries : List Node → ℕ → List Entry → Result (Unit {0})
  check_entries nodes total [] = ok tt
  check_entries nodes total (info ∷ more) = do
    validate_zip_entry info
    reject_if (ltb maximum_archive_bytes (total + info.file_size))
        "archive uncompressed contents exceed the reviewed size bound"
    contents ← or_reject info.contents "invalid ZIP archive"
    check_content nodes info (sha256_bytes host contents)
    check_entries nodes (total + info.file_size) more

  -- The set of expected names, as a list without duplicates.
  unfoldable pub archive_names : String → Bool → List String
  archive_names version signed =
      expected_repository_paths version
      ++ (if signed then map (λ path. path <> ".asc") (primary_repository_paths version) else [])

  unfoldable pub validate_archive : Archive → Repository → String → Bool → Result ℕ
  validate_archive archive repository version signed = do
    file ← regular_file (some maximum_archive_bytes) archive.file
    let expected = archive_names version signed
    infos ← or_reject archive.infos "invalid ZIP archive"
    let names = map (λ info. info.filename) infos
    reject_if (not (distinct names)) "archive contains duplicate entries"
    reject_if (not (same_set names expected)) "archive is not the exact closed artifact set"
    check_entries repository.nodes 0 infos
    ok (length expected)
