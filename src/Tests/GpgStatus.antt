-- ===== src/Tests/GpgStatus.antt =====
-- A status stream of one good signature, and one that holds carriage returns.
use latchway_android.Base.{
  ℕ, ◌<>◌, String, ◌≡◌, refl, true, false, Option, some, List, [], ◌∷◌, Result, ok, member,
  has_char, universal_newlines, String-discrete, arith,
}
use latchway_android.Regex.{fullmatch}
use latchway_android.Disk.{File, FilePath}
use latchway_android.GpgStatus.Text
use latchway_android.GpgStatus.Status
use latchway_android.GpgStatus.Status.{Verdict, validate, bounded_text}
use latchway_android.GpgStatus.Soundness.{FromLines, IsPinned, validate_sound, bounded_text_return}

abbrev key : String
key = "0123456789ABCDEF0123456789ABCDEF01234567"

abbrev stream : String
stream =
    "[GNUPG:] NEWSIG\r\n[GNUPG:] KEY_CONSIDERED 0123456789ABCDEF0123456789ABCDEF01234567 0\n"
    <> "[GNUPG:] SIG_ID abc 2026-01-01 1\n[GNUPG:] GOODSIG 89ABCDEF01234567 Release\n"
    <> "[GNUPG:] VALIDSIG 0123456789ABCDEF0123456789ABCDEF01234567 2026-01-01 1 0 4 0 22 10 00\n"

abbrev utf8 : List ℕ → Option String
utf8 _ = some stream

abbrev file : File
file = record { regular = true; symlink = false; size = 300; bytes = some [] }

abbrev verdict : Verdict
verdict = record {
  primary_fingerprint = key;
  signing_fingerprint = key;
  public_key_algorithm = "22";
  hash_algorithm = "10";
  status_lines =
      "[GNUPG:] NEWSIG" ∷ "[GNUPG:] KEY_CONSIDERED 0123456789ABCDEF0123456789ABCDEF01234567 0"
      ∷ "[GNUPG:] SIG_ID abc 2026-01-01 1" ∷ "[GNUPG:] GOODSIG 89ABCDEF01234567 Release"
      ∷ "[GNUPG:] VALIDSIG 0123456789ABCDEF0123456789ABCDEF01234567 2026-01-01 1 0 4 0 22 10 00"
      ∷ [];
}

run : (List ℕ → Option String) → FilePath → String → Result Verdict
unfolding validate bounded_text Status.read_statuses Status.read_status Status.status_of
    Status.judge Status.check_counts Status.check_valid Status.check_good Status.check_considered
    Status.check_rest Status.by_tag Status.trust_tags Status.nth Status.the_only Status.lines_of
    Status.primary_of Status.fingerprint Status.status_tag Status.key_id Text.splitlines
    Text.split_spaces Text.after_prefix Text.starts_with Text.ends_with Text.is_digits
    universal_newlines has_char fullmatch String-discrete member
run = validate

accepted : validate utf8 (some file) key ≡ ok verdict
unfolding run
accepted = refl

validate_sound_example :
    (text : String) × (statuses : List Status.Status) × (bounded_text utf8 (some file) ≡ ok text)
    × FromLines (Text.splitlines text) statuses
    × IsPinned statuses key verdict
validate_sound_example = validate_sound utf8 (some file) key verdict accepted

no_nul : has_char 0 stream ≡ false
unfolding has_char
no_nul = refl

bounded_text_return_example : bounded_text utf8 (some file) ≡ ok (universal_newlines stream)
bounded_text_return_example =
    bounded_text_return utf8 file [] stream refl refl (omega arith) (omega arith) refl refl no_nul
