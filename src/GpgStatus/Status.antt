-- ===== src/GpgStatus/Status.antt =====
-- `validate` of scripts/verify-gpg-status.py.
use latchway_android.Base.{
  ℕ, zero, suc, ◌*◌, String, ◌<>◌, Bool, not, Option, none, some, List, [], ◌∷◌, ◌&&◌, ◌||◌, leb,
  ltb, eqb, ◌==◌, if◌then◌else◌, codes, length, any, member, has_char, universal_newlines, Result,
  ok, err, rejected, os_error, reject_if, ◌>>=◌, ◌>>◌,
}
use latchway_android.Regex.{Regex, CharClass, chars, seq, alt, star, one, repeated, fullmatch}
use latchway_android.Disk.{FilePath}
use latchway_android.GpgStatus.Text.{
  splitlines, split_spaces, after_prefix, starts_with, ends_with, is_digits,
}

abbrev pub upper_hex : CharClass
upper_hex = (b'0', b'9') ∷ (b'A', b'F') ∷ []

unfoldable pub fingerprint : Regex
fingerprint = repeated 40 (chars upper_hex)

unfoldable pub status_tag : Regex
status_tag =
    seq (chars ((b'A', b'Z') ∷ [])) (star (chars ((b'A', b'Z') ∷ (b'0', b'9') ∷ one b'_' ∷ [])))

unfoldable pub key_id : Regex
key_id = alt (repeated 16 (chars upper_hex)) (repeated 40 (chars upper_hex))

abbrev pub maximum_status_bytes : ℕ
maximum_status_bytes = 64 * 1024

abbrev pub approved_public_key_algorithms : List String
approved_public_key_algorithms = "1" ∷ "3" ∷ "19" ∷ "22" ∷ "27" ∷ []

abbrev pub required_hash_algorithm : String
required_hash_algorithm = "10"

abbrev pub allowed_tags : List String
allowed_tags =
    "NEWSIG" ∷ "KEY_CONSIDERED" ∷ "SIG_ID" ∷ "GOODSIG" ∷ "VALIDSIG" ∷ "TRUST_UNDEFINED"
    ∷ "TRUST_NEVER" ∷ "TRUST_MARGINAL" ∷ "TRUST_FULLY" ∷ "TRUST_ULTIMATE"
    ∷ "VERIFICATION_COMPLIANCE_MODE" ∷ []

abbrev pub invalid_tags : List String
invalid_tags =
    "BADSIG" ∷ "ERRSIG" ∷ "EXPSIG" ∷ "EXPKEYSIG" ∷ "REVKEYSIG" ∷ "NO_PUBKEY" ∷ "NODATA" ∷ "BADARMOR"
    ∷ "FAILURE" ∷ "ERROR" ∷ "INV_SGNR" ∷ "DECRYPTION_FAILED" ∷ "KEYEXPIRED" ∷ "SIGEXPIRED"
    ∷ "KEYREVOKED" ∷ []

-- `_bounded_text`; `utf8` decodes, and `lstat` and the read may raise `OSError`.
unfoldable pub bounded_text : (List ℕ → Option String) → FilePath → Result String
bounded_text utf8 none = err os_error
bounded_text utf8 (some file) = do
  reject_if
      (not file.regular || file.symlink || leb file.size 0 || ltb maximum_status_bytes file.size)
      "GnuPG status output has an invalid size"
  bytes ← elim file.bytes [ none ↦ err os_error | some bytes ↦ ok bytes ]
  decoded ← elim (utf8 bytes) [
    | none ↦ err (rejected "GnuPG status output is not UTF-8")
    | some decoded ↦ ok decoded
  ]
  let text = universal_newlines decoded
  reject_if (has_char 0 text || has_char 13 text)
      "GnuPG status output contains unsafe control bytes"
  ok text

pub record Status : Type 0 where
  pub tag : String
  pub arguments : List String
  pub line : String

-- `fields[0], fields[1:]`; the parts of a text are never none.
unfoldable pub status_of : String → List String → Result Status
status_of line [] = err (rejected "GnuPG status fields are malformed")
status_of line (tag ∷ arguments) = ok (record { tag = tag; arguments = arguments; line = line })

-- One round of the loop over the lines.
unfoldable pub read_status : String → Result Status
read_status line = do
  payload ← elim (after_prefix "[GNUPG:] " line) [
    | none ↦ err (rejected "GnuPG emitted a non-status line")
    | some payload ↦ ok payload
  ]
  reject_if (payload == "" || any (λ c. ltb c 32) (codes payload)) "GnuPG status line is malformed"
  let fields = split_spaces payload
  reject_if (any (λ f. f == "") fields) "GnuPG status fields are malformed"
  status ← status_of line fields
  reject_if (not (fullmatch status_tag status.tag)) "GnuPG status tag is malformed"
  reject_if (member status.tag invalid_tags) ("GnuPG rejected the signature with " <> status.tag)
  reject_if (not (member status.tag allowed_tags))
      ("GnuPG emitted unreviewed status " <> status.tag)
  ok status

unfoldable pub read_statuses : List String → Result (List Status)
read_statuses [] = ok []
read_statuses (line ∷ lines) = do
  status ← read_status line
  more ← read_statuses lines
  ok (status ∷ more)

-- `by_tag.get(tag, [])`
unfoldable pub by_tag : String → List Status → List (List String)
by_tag tag [] = []
by_tag tag (s ∷ more) =
    let rest = by_tag tag more in if tag == s.tag then s.arguments ∷ rest else rest

-- The keys of `by_tag` that start with `TRUST_`.
unfoldable pub trust_tags : List Status → List String
trust_tags [] = []
trust_tags (s ∷ more) =
    let rest = trust_tags more in
    if starts_with s.tag "TRUST_" && not (member s.tag rest) then s.tag ∷ rest else rest

-- `values[i]`, where the index is in range.
unfoldable pub nth : ℕ → List String → String
nth i [] = ""
nth zero (x ∷ xs) = x
nth (suc i) (x ∷ xs) = nth i xs

unfoldable pub the_only : List (List String) → List String
the_only [] = []
the_only (x ∷ xs) = x

pub record Verdict : Type 0 where
  pub primary_fingerprint : String
  pub signing_fingerprint : String
  pub public_key_algorithm : String
  pub hash_algorithm : String
  pub status_lines : List String

unfoldable pub lines_of : List Status → List String
lines_of [] = []
lines_of (s ∷ more) = s.line ∷ lines_of more

-- The fields of VALIDSIG.
unfoldable pub primary_of : List String → String
primary_of valid = if eqb (length valid) 10 then nth 9 valid else nth 0 valid

unfoldable pub check_valid : List String → String → Result (Unit {0})
check_valid valid expected = do
  reject_if (not (eqb (length valid) 9 || eqb (length valid) 10))
      "GnuPG VALIDSIG field count is invalid"
  reject_if (not (fullmatch fingerprint (nth 0 valid))) "GnuPG signing fingerprint is invalid"
  reject_if (not (fullmatch fingerprint (primary_of valid))) "GnuPG primary fingerprint is invalid"
  reject_if (not (primary_of valid == expected))
      "GnuPG signature does not descend from the pinned primary key"
  reject_if (not (member (nth 4 valid) ("4" ∷ "5" ∷ "6" ∷ [])) || not (nth 5 valid == "0"))
      "GnuPG VALIDSIG protocol fields are invalid"
  reject_if (not (member (nth 6 valid) approved_public_key_algorithms))
      "GnuPG signature uses an unapproved public-key algorithm"
  reject_if (not (nth 7 valid == required_hash_algorithm))
      "GnuPG signature does not use the pinned SHA-512 digest"
  reject_if (not (nth 8 valid == "00"))
      "GnuPG signature is not a detached binary document signature"

-- The fields of GOODSIG.
unfoldable pub check_good : List String → String → Result (Unit {0})
check_good good signing = do
  reject_if (ltb (length good) 2 || not (fullmatch key_id (nth 0 good)))
      "GnuPG GOODSIG fields are invalid"
  reject_if
      (not (
        nth 0 good == signing
        || eqb (length (codes (nth 0 good))) 16 && ends_with signing (nth 0 good)))
      "GnuPG GOODSIG key ID does not match VALIDSIG"

-- The loop over KEY_CONSIDERED.
unfoldable pub check_considered : List (List String) → String → Result (Unit {0})
check_considered [] expected = ok tt
check_considered (c ∷ more) expected = do
  reject_if (not (eqb (length c) 2) || not (nth 0 c == expected))
      "GnuPG considered a key other than the pinned primary key"
  reject_if (not (nth 1 c == "0")) "GnuPG KEY_CONSIDERED did not select the usable pinned key"
  check_considered more expected

abbrev once : String → List Status → Bool
once tag statuses = eqb (length (by_tag tag statuses)) 1

unfoldable pub check_counts : List Status → Result (Unit {0})
check_counts statuses = do
  reject_if (not (once "NEWSIG" statuses)) "GnuPG did not describe exactly one new signature"
  reject_if (not (once "GOODSIG" statuses)) "GnuPG did not report exactly one good signature"
  reject_if (not (once "VALIDSIG" statuses)) "GnuPG did not report exactly one valid signature"
  reject_if (not (once "SIG_ID" statuses)) "GnuPG did not report exactly one signature identifier"
  reject_if (eqb (length (by_tag "KEY_CONSIDERED" statuses)) 0)
      "GnuPG did not bind the signature to the reviewed key"

-- The tests after KEY_CONSIDERED.
unfoldable pub check_rest : List Status → Result (Unit {0})
check_rest statuses = do
  let signature_id = the_only (by_tag "SIG_ID" statuses)
  reject_if (not (eqb (length signature_id) 3) || any (λ f. f == "") signature_id)
      "GnuPG SIG_ID fields are invalid"
  let trust = trust_tags statuses
  reject_if (ltb 1 (length trust) || any (λ tag. not (once tag statuses)) trust)
      "GnuPG trust status is ambiguous"
  let compliance = by_tag "VERIFICATION_COMPLIANCE_MODE" statuses
  reject_if
      (ltb 1 (length compliance)
        || any (λ item. not (eqb (length item) 1) || not (is_digits (nth 0 item))) compliance)
      "GnuPG verification compliance status is invalid"

-- From the parsed lines on.
unfoldable pub judge : List Status → String → Result Verdict
judge statuses expected = do
  check_counts statuses
  let valid = the_only (by_tag "VALIDSIG" statuses)
  check_valid valid expected
  check_good (the_only (by_tag "GOODSIG" statuses)) (nth 0 valid)
  check_considered (by_tag "KEY_CONSIDERED" statuses) expected
  check_rest statuses
  ok (record {
    primary_fingerprint = primary_of valid;
    signing_fingerprint = nth 0 valid;
    public_key_algorithm = nth 6 valid;
    hash_algorithm = nth 7 valid;
    status_lines = lines_of statuses;
  })

unfoldable pub validate : (List ℕ → Option String) → FilePath → String → Result Verdict
validate utf8 path expected = do
  reject_if (not (fullmatch fingerprint expected)) "expected primary fingerprint is invalid"
  text ← bounded_text utf8 path
  statuses ← read_statuses (splitlines text)
  judge statuses expected
