-- ===== src/CoreRelease/Listed.antt =====
-- What accepted lists of files and digests show of the files.
use latchway_android.Base.{
  String, ◌≡◌, sym, inl, inr, true, false, List, [], ◌∷◌, member, ok, ◌||◌, ◌==◌, ==_iff,
  Result-cases, Bool-cases, arith,
}
use latchway_android.Disk.{FilePath}
use latchway_android.Json.{Json, str, obj, Fields, get, eq_str}
use latchway_android.Json.Laws.{as_obj_cases, as_str_cases, eq_str_iff}
use latchway_android.Promotion.Report.Checks.Coverage.{Occurs}
use latchway_android.CoreRelease.Inputs.{
  Runtime, exact_fields, among, hash_file, read_asset, read_assets,
}
use latchway_android.CoreRelease.Candidate.{digest_of}
use latchway_android.CoreRelease.Checksums.{Directory, Sums, names_of, check_sums}

-- The list names the file with the digest that its bytes have.
pub record IsListed (host : Runtime) (root : String → FilePath) (values : List Json) (name : String)
    : Type 0 where
  pub item : Fields
  pub listed : Occurs (obj item) values
  pub path : get "path" item ≡ str name
  pub digest : String
  pub sha256 : get "sha256" item ≡ str digest
  pub actual : hash_file host (root name) ≡ ok digest

among-true :
    (v : Json) (names : List String) (s : String)
    → among v names ≡ ok true
    → v ≡ str s
    → member s names ≡ true
unfolding among
among-true v names s h e = let h' : among (str s) names ≡ ok true = rw e at h in ground arith

IsListed-later :
    (host : Runtime) (root : String → FilePath) (value : Json) (values : List Json) (name : String)
    → IsListed host root values name
    → IsListed host root (value ∷ values) name
IsListed-later host root value values name l = record {
  item = l.item;
  listed = inr l.listed;
  path = l.path;
  digest = l.digest;
  sha256 = l.sha256;
  actual = l.actual;
}

module _ (host : Runtime) (root : String → FilePath) (names : List String) (code : String) where
  read_asset-item :
      (value : Json) (seen : List String) (name digest : String)
      → read_asset host root names code value seen ≡ ok (name, digest)
      → (item : Fields) × (value ≡ obj item)
        × (get "path" item ≡ str name)
        × (get "sha256" item ≡ str digest)
        × (hash_file host (root name) ≡ ok digest)
        × (member name names ≡ true)
        × (member name seen ≡ false)
  unfolding read_asset exact_fields
  read_asset-item value seen name digest h = elim (as_obj_cases value code) [
    | inr failed ↦ absurd (ground arith)
    | inl (item, is_object) ↦ elim (Result-cases (among (get "path" item) names)) [
      | inr (raised, failed) ↦ absurd (ground arith)
      | inl (known, found) ↦ elim (as_str_cases (get "path" item) code) [
        | inr failed ↦ absurd (ground arith)
        | inl (text, is_path) ↦ elim (Result-cases (hash_file host (root text))) [
          | inr (raised, failed) ↦ absurd (ground arith)
          | inl (actual, hashed) ↦
              let same : text ≡ name = ground arith in
              let same_digest : actual ≡ digest = ground arith in
              let is_known : known ≡ true = ground arith in
              let there : member text names ≡ true =
                among-true (get "path" item) names text (rw is_known at found) is_path in
              let digest_is : eq_str (get "sha256" item) actual ≡ true = ground arith in
              (
                item,
                is_object,
                rw same at is_path,
                (eq_str_iff (get "sha256" item) digest).0 (rw same_digest at digest_is),
                rw (same, same_digest) at hashed,
                rw same at there,
                ground arith,
              )
        ]
      ]
    ]
  ]

  pub read_assets-IsListed :
      (values : List Json) (seen : List String) (observed : Sums) (name : String)
      → read_assets host root names code values seen ≡ ok observed
      → member name (names_of observed) ≡ true
      → IsListed host root values name
  unfolding read_assets member
  read_assets-IsListed [] seen observed name h m =
      let same : observed ≡ [] = ground arith in let nothing : false ≡ true = rw same at m in cc
  read_assets-IsListed (value ∷ values) seen observed name h m =
      elim (Result-cases (read_asset host root names code value seen)) [
        | inr (raised, failed) ↦ absurd (ground arith)
        | inl ((first, digest), read) ↦
            elim (Result-cases (read_assets host root names code values (first ∷ seen))) [
              | inr (raised, failed) ↦ absurd (ground arith)
              | inl (more, rest) ↦
                  let same : observed ≡ (first, digest) ∷ more = ground arith in
                  let there : (name == first || member name (names_of more)) ≡ true =
                    rw same at m in
                  elim (Bool-cases (name == first)) [
                    | inl here ↦
                        let (item, is_object, path, sha256, actual, _, _) =
                          read_asset-item value seen first digest read in
                        let is_first : name ≡ first = (==_iff name first).0 here in
                        rw is_first (record {
                          item = item;
                          listed = inl (sym is_object);
                          path = path;
                          digest = digest;
                          sha256 = sha256;
                          actual = actual;
                        })
                    | inr other ↦
                        IsListed-later host root value values name
                          (read_assets-IsListed values (first ∷ seen) more name rest (ground arith))
                  ]
            ]
      ]

  -- The digest that was read for a name is that of its file.
  pub read_assets-digest :
      (values : List Json) (seen : List String) (observed : Sums) (name : String)
      → read_assets host root names code values seen ≡ ok observed
      → member name (names_of observed) ≡ true
      → hash_file host (root name) ≡ ok (digest_of name observed)
  unfolding read_assets member digest_of
  read_assets-digest [] seen observed name h m =
      let same : observed ≡ [] = ground arith in let nothing : false ≡ true = rw same at m in cc
  read_assets-digest (value ∷ values) seen observed name h m =
      elim (Result-cases (read_asset host root names code value seen)) [
        | inr (raised, failed) ↦ absurd (ground arith)
        | inl ((first, digest), read) ↦
            elim (Result-cases (read_assets host root names code values (first ∷ seen))) [
              | inr (raised, failed) ↦ absurd (ground arith)
              | inl (more, rest) ↦
                  let same : observed ≡ (first, digest) ∷ more = ground arith in
                  let there : (name == first || member name (names_of more)) ≡ true =
                    rw same at m in
                  let (item, is_object, path, sha256, actual, _, _) =
                    read_asset-item value seen first digest read in
                  elim (Bool-cases (name == first)) [
                    | inl here ↦
                        let is_first : name ≡ first = (==_iff name first).0 here in
                        rw (same, here) (rw is_first actual)
                    | inr other ↦
                        let later =
                          read_assets-digest values (first ∷ seen) more name rest (ground arith) in
                        rw (same, other) later
                  ]
            ]
      ]

-- Every name stands with the digest of the bytes of its file.
abbrev pub AreSums : Runtime → (String → FilePath) → Sums → Type 0
AreSums host root [] = Unit {0}
AreSums host root ((name, digest) ∷ more) =
    (hash_file host (root name) ≡ ok digest) × AreSums host root more

pub check_sums-AreSums :
    (host : Runtime) (directory : Directory) (sums : Sums)
    → check_sums host directory sums ≡ ok tt
    → AreSums host directory.file sums
unfolding check_sums
check_sums-AreSums host directory [] h = tt
check_sums-AreSums host directory ((name, digest) ∷ more) h =
    elim (Result-cases (hash_file host (directory.file name))) [
      | inr (raised, failed) ↦ absurd (ground arith)
      | inl (actual, hashed) ↦ (
        ground (arith, ==_iff actual digest),
        check_sums-AreSums host directory more (ground arith),
      )
    ]
