-- ===== src/Reconcile/Local.antt =====
-- What `inspect_assets` accepts.
use latchway_android.Base.{
  ℕ, ◌≤◌, String, ◌≡◌, ◌⊎◌, refl, ◌∙◌, inl, inr, true, false, some, List, [], ◌∷◌, ==_iff, All,
  length, member, distinct, ok, Result-cases, Option-cases, arith,
}
use latchway_android.Disk.{File}
use latchway_android.Reconcile.Client.{Asset}
use latchway_android.Reconcile.Steps.{asset_names}
use latchway_android.Reconcile.Assets.{
  maximum_asset_bytes, LocalPath, unsafe_name, sort_assets, hash_file, inspect_asset, inspect_paths,
  inspect_assets,
}
use latchway_android.Reconcile.Sorted.{
  InOrder, sort-InOrder, sort-All, sort-distinct, member-sort, length-sort,
}

abbrev pub Given : LocalPath → List LocalPath → Type 0
Given p [] = ⊥
Given p (q ∷ more) = (p ≡ q) ⊎ Given p more

abbrev pub path_names : List LocalPath → List String
path_names [] = []
path_names (p ∷ more) = p.name ∷ path_names more

-- The asset describes the regular file at one of the paths: its place, its name, its size and the
-- SHA-256 of its bytes; the name is safe and the size in the range that a release takes.
pub record IsInspected (sha256 : List ℕ → String) (paths : List LocalPath) (a : Asset)
    : Type 0 where
  pub source : LocalPath
  pub is_given : Given source paths
  pub file : File
  pub found : source.file ≡ some file
  pub regular : file.regular ≡ true
  pub no_link : file.symlink ≡ false
  pub bytes : List ℕ
  pub content : file.bytes ≡ some bytes
  pub same_path : a.path ≡ source.resolved
  pub same_name : a.name ≡ source.name
  pub same_size : a.size ≡ file.size
  pub digest : a.sha256 ≡ sha256 bytes
  pub safe : unsafe_name a.name ≡ false
  pub some_byte : 1 ≤ a.size
  pub bounded : a.size ≤ maximum_asset_bytes

-- The assets that the paths become.
pub record AreSafe (sha256 : List ℕ → String) (paths : List LocalPath) (assets : List Asset)
    : Type 0 where
  pub each : All (IsInspected sha256 paths) assets
  pub some_asset : 1 ≤ length assets
  pub one_each : length assets ≡ length paths
  pub same_names : (n : String) → member n (asset_names assets) ≡ member n (path_names paths)
  pub names_differ : distinct (asset_names assets) ≡ true
  pub sorted : InOrder assets

module _ (sha256 : List ℕ → String) where
  inspect_asset-IsInspected :
      (all : List LocalPath) (path : LocalPath) (names : List String) (a : Asset)
      → Given path all
      → inspect_asset sha256 path names ≡ ok a
      → IsInspected sha256 all a × (a.name ≡ path.name) × (member path.name names ≡ false)
  unfolding inspect_asset hash_file
  inspect_asset-IsInspected all path names a own h = elim (Option-cases path.file) [
    | inl absent ↦ absurd (ground arith)
    | inr (file, found) ↦ elim (Option-cases file.bytes) [
      | inl unreadable ↦ absurd (ground arith)
      | inr (bytes, content) ↦
          let size : a.size ≡ file.size = ground arith in
          let name : a.name ≡ path.name = ground arith in
          (
            record {
              source = path;
              is_given = own;
              file = file;
              found = found;
              regular = ground arith;
              no_link = ground arith;
              bytes = bytes;
              content = content;
              same_path = ground arith;
              same_name = name;
              same_size = size;
              digest = ground arith;
              safe = rw name (ground arith);
              some_byte = ground arith;
              bounded = ground arith;
            },
            name,
            ground arith,
          )
    ]
  ]

  -- What the loop gives for the paths from here on, which are among all the paths.
  record AreInspected (all paths : List LocalPath) (names : List String) (assets : List Asset)
      : Type 0 where
    each : All (IsInspected sha256 all) assets
    one_each : length assets ≡ length paths
    same_names : (n : String) → member n (asset_names assets) ≡ member n (path_names paths)
    names_differ : distinct (asset_names assets) ≡ true
    apart : (n : String) → member n names ≡ true → member n (asset_names assets) ≡ false

  inspect_paths-AreInspected :
      (all paths : List LocalPath) (names : List String) (assets : List Asset)
      → ((p : LocalPath) → Given p paths → Given p all)
      → inspect_paths sha256 paths names ≡ ok assets
      → AreInspected all paths names assets
  unfolding inspect_paths distinct member
  inspect_paths-AreInspected all [] names assets own h =
      let same : assets ≡ [] = ground arith in
      rw same (record {
        each = tt;
        one_each = refl;
        same_names = λ n. refl;
        names_differ = refl;
        apart = λ n m. refl;
      })
  inspect_paths-AreInspected all (path ∷ more) names assets own h =
      elim (Result-cases (inspect_asset sha256 path names)) [
        | inr (e, failed) ↦ absurd (ground arith)
        | inl (a, inspected) ↦ elim (Result-cases (inspect_paths sha256 more (path.name ∷ names))) [
          | inr (e, failed) ↦ absurd (ground arith)
          | inl (rest, read) ↦
              let same : assets ≡ a ∷ rest = ground arith in
              let (one, name, fresh) =
                inspect_asset-IsInspected all path names a (own path (inl refl)) inspected in
              let later =
                inspect_paths-AreInspected all more (path.name ∷ names) rest (λ p m. own p (inr m))
                  read in
              rw same (record {
                each = (one, later.each);
                one_each = ground (arith, later.one_each);
                same_names = λ n. ground (arith, later.same_names n, name);
                names_differ = ground (arith, later.apart path.name, name, later.names_differ);
                apart = λ n m. ground (arith, later.apart n, name, fresh, m, ==_iff n path.name);
              })
        ]
      ]

-- The local assets that are accepted are at least one and one for each path. Each describes the
-- regular file at one of the paths, with its size and the digest of its bytes, and has a safe name
-- and a size from one byte to 2 GiB. The names are those of the paths, are pairwise different, and
-- stand in their order.
pub inspect_assets-AreSafe :
    (sha256 : List ℕ → String) (paths : List LocalPath) (assets : List Asset)
    → inspect_assets sha256 paths ≡ ok assets
    → AreSafe sha256 paths assets
unfolding inspect_assets
inspect_assets-AreSafe sha256 [] assets h = absurd (ground arith)
inspect_assets-AreSafe sha256 (path ∷ more) assets h =
    elim (Result-cases (inspect_paths sha256 (path ∷ more) [])) [
      | inr (e, failed) ↦ absurd (ground arith)
      | inl (unsorted, read) ↦
          let same : assets ≡ sort_assets unsorted = ground arith in
          let paths = path ∷ more in
          let found = inspect_paths-AreInspected sha256 paths paths [] unsorted (λ p m. m) read in
          rw same (record {
            each = sort-All (IsInspected sha256 paths) unsorted found.each;
            some_asset = ground (arith, length-sort unsorted, found.one_each);
            one_each = length-sort unsorted ∙ found.one_each;
            same_names = λ n. member-sort n unsorted ∙ found.same_names n;
            names_differ = sort-distinct unsorted ∙ found.names_differ;
            sorted = sort-InOrder unsorted;
          })
    ]
