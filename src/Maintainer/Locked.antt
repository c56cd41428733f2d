-- ===== src/Maintainer/Locked.antt =====
-- What an accepted contract.lock holds.
use latchway_android.Base.{
  String, ◌≡◌, refl, inl, inr, true, false, some, List, [], ◌∷◌, ==_iff, skip_space, distinct,
  member, same_set, ok, Result-cases, Option-cases, arith,
}
use latchway_android.Disk.{FilePath}
use latchway_android.Regex.{fullmatch}
use latchway_android.GpgStatus.Text.{splitlines}
use latchway_android.Maintainer.Constants.{version, release_tag, commit_id, sha256_hash}
use latchway_android.Maintainer.Inputs.{Runtime, regular_text}
use latchway_android.Maintainer.Lock.{
  Lock, Contract, lock_line, before_colon, after_colon, lock_value, lock_keys, lock_entry, is_entry,
  entry_text, required_keys, read_lines, check_lock, contract_lock,
}

-- The lines that were read each have the form of an entry.
abbrev pub AreLines : List String → Type 0
AreLines [] = Unit {0}
AreLines (line ∷ lines) = (fullmatch lock_line line ≡ true) × AreLines lines

-- The entries of the lock are the required ones, each once, with the fixed release and well-formed
-- identifiers.
pub record IsLock (values : Lock) (c : Contract) : Type 0 where
  pub once : distinct (lock_keys values) ≡ true
  pub required : same_set (lock_keys values) required_keys ≡ true
  pub same_version : lock_entry "contract_version" values ≡ some version
  pub protocol : lock_entry "wire_protocol" values ≡ some "2"
  pub same_release : lock_entry "core_release" values ≡ some release_tag
  pub core_commit : lock_entry "core_commit" values ≡ some c.core_commit
  pub commit_shape : fullmatch commit_id c.core_commit ≡ true
  pub bundle : lock_entry "bundle_sha256" values ≡ some c.bundle_sha256
  pub bundle_shape : fullmatch sha256_hash c.bundle_sha256 ≡ true
  pub version_is : c.contract_version ≡ version
  pub release_is : c.core_release ≡ release_tag

read_lines-distinct :
    (lines seen : List String) (values : Lock)
    → read_lines lines seen ≡ ok values
    → AreLines lines
      × (distinct (lock_keys values) ≡ true)
      × ((k : String) → member k seen ≡ true → member k (lock_keys values) ≡ false)
unfolding read_lines distinct member lock_keys
read_lines-distinct [] seen values h =
    let same : values ≡ [] = ground arith in rw same (tt, refl, λ k m. refl)
read_lines-distinct (line ∷ lines) seen values h =
    elim (Result-cases (read_lines lines (before_colon line ∷ seen))) [
      | inr (e, failed) ↦ absurd (ground arith)
      | inl (more, read) ↦
          let (shapes, differ, apart) =
            read_lines-distinct lines (before_colon line ∷ seen) more read in
          let same : values
              ≡ (before_colon line, lock_value (skip_space (after_colon line))) ∷ more =
            ground arith in
          let shape : fullmatch lock_line line ≡ true = ground arith in
          let fresh : member (before_colon line) seen ≡ false = ground arith in
          rw same (
            (shape, shapes),
            ground (arith, apart (before_colon line), differ),
            λ k m. ground (arith, apart k, fresh, m, ==_iff k (before_colon line)),
          )
    ]

entry_of :
    (key text : String) (values : Lock)
    → is_entry key values text ≡ true
    → lock_entry key values ≡ some text
unfolding is_entry
entry_of key text values h = elim (Option-cases (lock_entry key values)) [
  | inl absent ↦ absurd (ground arith)
  | inr (v, found) ↦ ground arith
]

text_of :
    (key text : String) (values : Lock)
    → entry_text key values ≡ ok text
    → lock_entry key values ≡ some text
unfolding entry_text
text_of key text values h = elim (Option-cases (lock_entry key values)) [
  | inl absent ↦ absurd (ground arith)
  | inr (v, found) ↦ ground arith
]

check_lock-IsLock :
    (values : Lock) (c : Contract)
    → distinct (lock_keys values) ≡ true
    → check_lock values ≡ ok c
    → IsLock values c
unfolding check_lock
check_lock-IsLock values c once h = elim (Result-cases (entry_text "core_commit" values)) [
  | inr (e, failed) ↦ absurd (ground arith)
  | inl (commit, found) ↦ elim (Result-cases (entry_text "bundle_sha256" values)) [
    | inr (e, failed) ↦ absurd (ground arith)
    | inl (bundle, had) ↦
        let same_commit : c.core_commit ≡ commit = ground arith in
        let same_bundle : c.bundle_sha256 ≡ bundle = ground arith in
        record {
          once = once;
          required = ground arith;
          same_version = entry_of "contract_version" version values (ground arith);
          protocol = entry_of "wire_protocol" "2" values (ground arith);
          same_release = entry_of "core_release" release_tag values (ground arith);
          core_commit = rw same_commit (text_of "core_commit" commit values found);
          commit_shape = ground arith;
          bundle = rw same_bundle (text_of "bundle_sha256" bundle values had);
          bundle_shape = ground arith;
          version_is = ground arith;
          release_is = ground arith;
        }
  ]
]

-- The lock of a file is the entries of its lines, in their order.
pub record IsLockFile (host : Runtime) (path : FilePath) (c : Contract) : Type 0 where
  pub text : String
  pub read : regular_text host path "maintainer_release_contract_lock_invalid" ≡ ok text
  pub lines : AreLines (splitlines text)
  pub values : Lock
  pub collected : read_lines (splitlines text) [] ≡ ok values
  pub lock : IsLock values c

-- An accepted contract.lock consists of lines of the form of an entry, which name each required key
-- exactly once and no other; its version, protocol and release are the fixed ones, and the commit
-- and the digest that are passed on are its entries and have their form.
pub contract_lock-IsLockFile :
    (host : Runtime) (path : FilePath) (c : Contract)
    → contract_lock host path ≡ ok c
    → IsLockFile host path c
unfolding contract_lock
contract_lock-IsLockFile host path c h =
    elim (Result-cases (regular_text host path "maintainer_release_contract_lock_invalid")) [
      | inr (e, failed) ↦ absurd (ground arith)
      | inl (text, read) ↦ elim (Result-cases (read_lines (splitlines text) [])) [
        | inr (e, failed) ↦ absurd (ground arith)
        | inl (values, collected) ↦
            let (lines, once, _) = read_lines-distinct (splitlines text) [] values collected in
            record {
              text = text;
              read = read;
              lines = lines;
              values = values;
              collected = collected;
              lock = check_lock-IsLock values c once (ground arith);
            }
      ]
    ]
