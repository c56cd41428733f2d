-- ===== src/Gateway/Reads.antt =====
-- What the guarded read of a file gives.
use latchway_android.Base.{
  ℕ, ◌+◌, ◌≤◌, String, ◌≡◌, inl, inr, true, false, Option, none, some, List, [], ◌∷◌, ◌++◌, length,
  ok, Result-cases, Option-cases, arith,
}
use latchway_android.Gateway.Inputs.{Stat, Opening, read_chunks, read_regular_file}

length-append {ℓ} : {A : Type ℓ} (xs ys : List A) → length (xs ++ ys) ≡ length xs + length ys
length-append [] ys = omega arith
length-append (x ∷ xs) ys = omega (arith, length-append xs ys)

read_chunks-le :
    (maximum total : ℕ) (label : String) (reads : List (Option (List ℕ))) (bytes : List ℕ)
    → total ≤ maximum
    → read_chunks maximum total label reads ≡ ok bytes
    → total + length bytes ≤ maximum
unfolding read_chunks
read_chunks-le maximum total label [] bytes low h = ground arith
read_chunks-le maximum total label (none ∷ more) bytes low h = cc
read_chunks-le maximum total label (some [] ∷ more) bytes low h = ground arith
read_chunks-le maximum total label (some (b ∷ bs) ∷ more) bytes low h =
    elim (Result-cases (read_chunks maximum (total + length (b ∷ bs)) label more)) [
      | inr (e, failed) ↦ absurd (ground arith)
      | inl (rest, read) ↦
          let same : bytes ≡ (b ∷ bs) ++ rest = ground arith in
          let bound : total + length (b ∷ bs) ≤ maximum = ground arith in
          rw same (
            omega (
              arith,
              length-append {0} (b ∷ bs) rest,
              read_chunks-le maximum (total + length (b ∷ bs)) label more rest bound read,
            ))
    ]

-- The file that was opened is regular and is the one that `lstat` found, which is no link.
pub record IsGuarded (path : Opening) : Type 0 where
  pub initial : Stat
  pub found : path.initial ≡ some initial
  pub plain : initial.link ≡ false
  pub info : Stat
  pub opened : path.info ≡ some info
  pub regular : info.regular ≡ true
  pub same_device : info.device ≡ initial.device
  pub same_inode : info.inode ≡ initial.inode

guarded :
    (path : Opening) (maximum : ℕ) (label : String) (bytes : List ℕ) (initial info : Stat)
    → path.initial ≡ some initial
    → path.info ≡ some info
    → read_regular_file path maximum label ≡ ok bytes
    → IsGuarded path × (length bytes ≤ maximum)
unfolding read_regular_file
guarded path maximum label bytes initial info found opened h = (
  record {
    initial = initial;
    found = found;
    plain = ground arith;
    info = info;
    opened = opened;
    regular = ground arith;
    same_device = ground arith;
    same_inode = ground arith;
  },
  ground (arith, read_chunks-le maximum 0 label path.reads bytes),
)

-- A read that is accepted has at most the allowed number of bytes, however long the file has grown
-- since it was opened, and is of the regular file that `lstat` found before it was opened.
pub read_regular_file-IsGuarded :
    (path : Opening) (maximum : ℕ) (label : String) (bytes : List ℕ)
    → read_regular_file path maximum label ≡ ok bytes
    → IsGuarded path × (length bytes ≤ maximum)
unfolding read_regular_file
read_regular_file-IsGuarded path maximum label bytes h = elim (Option-cases path.initial) [
  | inl absent ↦ absurd (ground arith)
  | inr (initial, found) ↦ elim (Option-cases path.info) [
    | inl absent ↦ absurd (ground arith)
    | inr (info, opened) ↦ guarded path maximum label bytes initial info found opened h
  ]
]
