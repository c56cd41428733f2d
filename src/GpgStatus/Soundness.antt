-- ===== src/GpgStatus/Soundness.antt =====
-- What an accepted status stream proves, and what the guard against control bytes lets through.
use latchway_android.Base.{
  ℕ, ◌≤◌, ◌<◌, String, ◌≡◌, refl, ◌⊎◌, inl, inr, true, false, Option, some, List, [], ◌∷◌, ◌∙◌,
  Option-cases, codes, length, all, member, has_char, universal_newlines,
  universal_newlines-no_return, universal_newlines-has_char, ok, Result-cases, arith,
}
use latchway_android.Regex.{in_class, fullmatch}
use latchway_android.Regex.Shapes.{fullmatch-repeated}
use latchway_android.Disk.{File, FilePath}
use latchway_android.GpgStatus.Text.{splitlines, split_spaces, after_prefix, ends_with}
use latchway_android.GpgStatus.Status.{
  Status, Verdict, upper_hex, fingerprint, maximum_status_bytes, required_hash_algorithm,
  approved_public_key_algorithms, allowed_tags, invalid_tags, bounded_text, status_of, read_status,
  read_statuses, by_tag, nth, the_only, lines_of, primary_of, check_valid, check_good,
  check_considered, check_counts, judge, validate,
}

abbrev pub Occurs : Status → List Status → Type 0
Occurs s [] = ⊥
Occurs s (t ∷ more) = (s ≡ t) ⊎ Occurs s more

-- Each of the lists is the pair of the key and "0".
abbrev pub AllOf : String → List (List String) → Type 0
AllOf key [] = Unit {0}
AllOf key (c ∷ more) = (c ≡ key ∷ "0" ∷ []) × AllOf key more

-- One valid and one good signature, made with SHA-512 over a binary document by a key that descends
-- from the pinned primary key, and no other key considered.
pub record IsPinned (statuses : List Status) (expected : String) (v : Verdict) : Type 0 where
  pub valid : List String
  pub only_valid : by_tag "VALIDSIG" statuses ≡ valid ∷ []
  pub primary : primary_of valid ≡ expected
  pub reported : v.primary_fingerprint ≡ expected
  pub signing : nth 0 valid ≡ v.signing_fingerprint
  pub signing_length : length (codes v.signing_fingerprint) ≡ 40
  pub signing_hex : all (in_class upper_hex) (codes v.signing_fingerprint) ≡ true
  pub algorithm : member v.public_key_algorithm approved_public_key_algorithms ≡ true
  pub digest : v.hash_algorithm ≡ required_hash_algorithm
  pub signature_class : nth 8 valid ≡ "00"
  pub good : List String
  pub only_good : by_tag "GOODSIG" statuses ≡ good ∷ []
  pub same_key :
      (nth 0 good ≡ v.signing_fingerprint)
      ⊎ ((length (codes (nth 0 good)) ≡ 16) × (ends_with v.signing_fingerprint (nth 0 good) ≡ true))
  pub considered : AllOf expected (by_tag "KEY_CONSIDERED" statuses)
  pub some_considered : 0 < length (by_tag "KEY_CONSIDERED" statuses)
  pub lines : v.status_lines ≡ lines_of statuses

one_only : (xs : List (List String)) → length xs ≡ 1 → xs ≡ the_only xs ∷ []
unfolding the_only
one_only [] h = absurd (omega arith)
one_only (x ∷ []) h = refl
one_only (x ∷ y ∷ xs) h = absurd (omega arith)

pair_of :
    (c : List String) (a b : String) → length c ≡ 2 → nth 0 c ≡ a → nth 1 c ≡ b → c ≡ a ∷ b ∷ []
unfolding nth
pair_of [] a b h p q = absurd (omega arith)
pair_of (x ∷ []) a b h p q = absurd (omega arith)
pair_of (x ∷ y ∷ []) a b h p q = cc
pair_of (x ∷ y ∷ z ∷ xs) a b h p q = absurd (omega arith)

check_considered-AllOf :
    (cs : List (List String)) (expected : String)
    → check_considered cs expected ≡ ok tt
    → AllOf expected cs
unfolding check_considered
check_considered-AllOf [] expected h = tt
check_considered-AllOf (c ∷ more) expected h = (
  pair_of c expected "0" (ground arith) (ground arith) (ground arith),
  check_considered-AllOf more expected (ground arith),
)

judge_parts :
    (statuses : List Status) (expected : String) (v : Verdict)
    → judge statuses expected ≡ ok v
    → (check_counts statuses ≡ ok tt)
      × (check_valid (the_only (by_tag "VALIDSIG" statuses)) expected ≡ ok tt)
      × (check_good (the_only (by_tag "GOODSIG" statuses)) v.signing_fingerprint ≡ ok tt)
      × (check_considered (by_tag "KEY_CONSIDERED" statuses) expected ≡ ok tt)
      × (nth 0 (the_only (by_tag "VALIDSIG" statuses)) ≡ v.signing_fingerprint)
      × (v.primary_fingerprint ≡ primary_of (the_only (by_tag "VALIDSIG" statuses)))
      × (v.public_key_algorithm ≡ nth 6 (the_only (by_tag "VALIDSIG" statuses)))
      × (v.hash_algorithm ≡ nth 7 (the_only (by_tag "VALIDSIG" statuses)))
      × (v.status_lines ≡ lines_of statuses)
unfolding judge
judge_parts statuses expected v h = ground arith

counts_once :
    (statuses : List Status)
    → check_counts statuses ≡ ok tt
    → (length (by_tag "VALIDSIG" statuses) ≡ 1)
      × (length (by_tag "GOODSIG" statuses) ≡ 1)
      × (0 < length (by_tag "KEY_CONSIDERED" statuses))
unfolding check_counts
counts_once statuses h = ground arith

valid_facts :
    (valid : List String) (expected : String)
    → check_valid valid expected ≡ ok tt
    → (fullmatch fingerprint (nth 0 valid) ≡ true)
      × (primary_of valid ≡ expected)
      × (member (nth 6 valid) approved_public_key_algorithms ≡ true)
      × (nth 7 valid ≡ required_hash_algorithm)
      × (nth 8 valid ≡ "00")
unfolding check_valid
valid_facts valid expected h = ground arith

good_facts :
    (good : List String) (signing : String)
    → check_good good signing ≡ ok tt
    → (nth 0 good ≡ signing)
      ⊎ ((length (codes (nth 0 good)) ≡ 16) × (ends_with signing (nth 0 good) ≡ true))
unfolding check_good
good_facts good signing h = ground arith

fingerprint_shape :
    (s : String)
    → fullmatch fingerprint s ≡ true
    → (length (codes s) ≡ 40) × (all (in_class upper_hex) (codes s) ≡ true)
unfolding fingerprint
fingerprint_shape s h = (fullmatch-repeated 40 upper_hex s).0 h

judge-IsPinned :
    (statuses : List Status) (expected : String) (v : Verdict)
    → judge statuses expected ≡ ok v
    → IsPinned statuses expected v
judge-IsPinned statuses expected v h =
    let (counts, valid, good, considered, signing, primary, algorithm, digest, lines) =
      judge_parts statuses expected v h in
    let (one_valid, one_good, some_considered) = counts_once statuses counts in
    let (shape, descends, approved, sha512, binary) =
      valid_facts (the_only (by_tag "VALIDSIG" statuses)) expected valid in
    let hex = fingerprint_shape v.signing_fingerprint (rw signing at shape) in
    record {
      valid = the_only (by_tag "VALIDSIG" statuses);
      only_valid = one_only (by_tag "VALIDSIG" statuses) one_valid;
      primary = descends;
      reported = primary ∙ descends;
      signing = signing;
      signing_length = hex.0;
      signing_hex = hex.1;
      algorithm = rw algorithm approved;
      digest = digest ∙ sha512;
      signature_class = binary;
      good = the_only (by_tag "GOODSIG" statuses);
      only_good = one_only (by_tag "GOODSIG" statuses) one_good;
      same_key = good_facts (the_only (by_tag "GOODSIG" statuses)) v.signing_fingerprint good;
      considered = check_considered-AllOf (by_tag "KEY_CONSIDERED" statuses) expected considered;
      some_considered = some_considered;
      lines = lines;
    }

status_of_line :
    (line : String) (parts : List String) (s : Status) → status_of line parts ≡ ok s → s.line ≡ line
unfolding status_of
status_of_line line [] s h = cc
status_of_line line (tag ∷ arguments) s h = ground arith

-- A status that is read has a reviewed tag, which reports no failure, and keeps its line.
record IsReviewed (line : String) (s : Status) : Type 0 where
  allowed : member s.tag allowed_tags ≡ true
  not_invalid : member s.tag invalid_tags ≡ false
  same_line : s.line ≡ line

IsReviewed-at :
    (line payload : String) (s : Status)
    → after_prefix "[GNUPG:] " line ≡ some payload
    → read_status line ≡ ok s
    → IsReviewed line s
unfolding read_status
IsReviewed-at line payload s prefixed h =
    elim (Result-cases (status_of line (split_spaces payload))) [
      | inl (t, parsed) ↦
          let same : t ≡ s = ground arith in
          record {
            allowed = ground arith;
            not_invalid = ground arith;
            same_line = status_of_line line (split_spaces payload) s (rw same at parsed);
          }
      | inr (e, failed) ↦ absurd (ground arith)
    ]

read_status-IsReviewed : (line : String) (s : Status) → read_status line ≡ ok s → IsReviewed line s
unfolding read_status
read_status-IsReviewed line s h = elim (Option-cases (after_prefix "[GNUPG:] " line)) [
  | inl absent ↦ absurd (ground arith)
  | inr (payload, prefixed) ↦ IsReviewed-at line payload s prefixed h
]

-- The statuses in their order, each from its line.
abbrev pub FromLines : List String → List Status → Type 0
FromLines [] [] = Unit {0}
FromLines [] (_ ∷ _) = ⊥
FromLines (_ ∷ _) [] = ⊥
FromLines (line ∷ lines) (s ∷ more) =
    ((s.line ≡ line) × (member s.tag allowed_tags ≡ true) × (member s.tag invalid_tags ≡ false))
    × FromLines lines more

read_statuses-FromLines :
    (lines : List String) (statuses : List Status)
    → read_statuses lines ≡ ok statuses
    → FromLines lines statuses
unfolding read_statuses
read_statuses-FromLines [] [] h = tt
read_statuses-FromLines [] (_ ∷ _) h = cc
read_statuses-FromLines (line ∷ lines) statuses h = elim (Result-cases (read_status line)) [
  | inl (s, one) ↦ elim (Result-cases (read_statuses lines)) [
    | inl (more, rest) ↦
        let r = read_status-IsReviewed line s one in
        let same : statuses ≡ s ∷ more = ground arith in
        rw same ((r.same_line, r.allowed, r.not_invalid), read_statuses-FromLines lines more rest)
    | inr (e, failed) ↦ absurd (ground arith)
  ]
  | inr (e, failed) ↦ absurd (ground arith)
]

-- A status stream that is accepted splits into lines of which each has a reviewed tag that reports
-- no failure, and they prove one signature made with SHA-512 by a key that descends from the
-- pinned primary key.
pub validate_sound :
    (utf8 : List ℕ → Option String) (path : FilePath) (expected : String) (v : Verdict)
    → validate utf8 path expected ≡ ok v
    → (text : String) × (statuses : List Status) × (bounded_text utf8 path ≡ ok text)
      × FromLines (splitlines text) statuses
      × IsPinned statuses expected v
unfolding validate
validate_sound utf8 path expected v h = elim (Result-cases (bounded_text utf8 path)) [
  | inl (text, bounded) ↦ elim (Result-cases (read_statuses (splitlines text))) [
    | inl (statuses, parsed) ↦ (
      text,
      statuses,
      bounded,
      read_statuses-FromLines (splitlines text) statuses parsed,
      judge-IsPinned statuses expected v (ground arith),
    )
    | inr (e, failed) ↦ absurd (ground arith)
  ]
  | inr (e, failed) ↦ absurd (ground arith)
]

-- The file is read in text mode, so the guard against a carriage return never refuses one: a
-- regular file of an allowed size whose text holds no NUL is accepted whatever carriage returns it
-- holds, each given as a line feed.
pub bounded_text_return :
    (utf8 : List ℕ → Option String) (file : File) (bytes : List ℕ) (decoded : String)
    → file.regular ≡ true
    → file.symlink ≡ false
    → 0 < file.size
    → file.size ≤ maximum_status_bytes
    → file.bytes ≡ some bytes
    → utf8 bytes ≡ some decoded
    → has_char 0 decoded ≡ false
    → bounded_text utf8 (some file) ≡ ok (universal_newlines decoded)
unfolding bounded_text
bounded_text_return utf8 file bytes decoded regular plain low high read text clean =
    ground (arith, universal_newlines-no_return decoded, universal_newlines-has_char decoded)
