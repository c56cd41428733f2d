-- ===== src/Reconcile/Assets.antt =====
-- `sha256_file` and `inspect_assets`: the local assets of a run.
use latchway_android.Base.{
  ℕ, ◌*◌, String, ◌<>◌, Bool, not, none, some, List, [], ◌∷◌, ◌||◌, leb, ltb, if◌then◌else◌, codes,
  member, has_char, Result, ok, err, rejected, os_error, reject_if, ◌>>=◌, ◌>>◌,
}
use latchway_android.Disk.{File, FilePath}
use latchway_android.Central.Paths.{codes_leb}
use latchway_android.Reconcile.Client.{Asset}

abbrev pub maximum_asset_bytes : ℕ
maximum_asset_bytes = 2 * 1024 * 1024 * 1024

-- `Path(raw_path)`: its text, its `name`, its `resolve()` and what it holds.
pub record LocalPath : Type 0 where
  pub shown : String
  pub name : String
  pub resolved : String
  pub file : FilePath

-- `name in {"", ".", ".."} or "/" in name or "\\" in name`
unfoldable pub unsafe_name : String → Bool
unsafe_name name = member name ("" ∷ "." ∷ ".." ∷ []) || has_char b'/' name || has_char 92 name

-- `sorted(assets, key=lambda asset: asset.name)`, which keeps the order of equal names.
unfoldable pub insert_asset : Asset → List Asset → List Asset
insert_asset a [] = a ∷ []
insert_asset a (b ∷ more) =
    let rest = insert_asset a more in
    if codes_leb (codes a.name) (codes b.name) then a ∷ b ∷ more else b ∷ rest

unfoldable pub sort_assets : List Asset → List Asset
sort_assets [] = []
sort_assets (a ∷ more) = insert_asset a (sort_assets more)

module _ (sha256 : List ℕ → String) where
  unfoldable pub hash_file : File → Result String
  hash_file file = elim file.bytes [ none ↦ err os_error | some bytes ↦ ok (sha256 bytes) ]

  abbrev metadata : FilePath → Result File
  metadata none = err os_error
  metadata (some file) = ok file

  -- One round of the loop, with the names so far.
  unfoldable pub inspect_asset : LocalPath → List String → Result Asset
  inspect_asset path names = do
    file ← metadata path.file
    reject_if (not file.regular || file.symlink)
        ("Release asset must be a regular file: " <> path.shown)
    reject_if (leb file.size 0 || ltb maximum_asset_bytes file.size)
        ("Release asset has an invalid size: " <> path.shown)
    reject_if (unsafe_name path.name || member path.name names)
        ("Release asset has an unsafe or duplicate name: " <> path.name)
    digest ← hash_file file
    ok (record { path = path.resolved; name = path.name; size = file.size; sha256 = digest })

  unfoldable pub inspect_paths : List LocalPath → List String → Result (List Asset)
  inspect_paths [] names = ok []
  inspect_paths (path ∷ more) names = do
    asset ← inspect_asset path names
    rest ← inspect_paths more (path.name ∷ names)
    ok (asset ∷ rest)

  abbrev some_paths : List LocalPath → Result (Unit {0})
  some_paths [] = err (rejected "At least one release asset is required.")
  some_paths (path ∷ more) = ok tt

  unfoldable pub inspect_assets : List LocalPath → Result (List Asset)
  inspect_assets paths = do
    some_paths paths
    assets ← inspect_paths paths []
    ok (sort_assets assets)
