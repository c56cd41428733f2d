-- ===== src/Tests/Maintainer.antt =====
-- A dispatch of the release from a small checkout.
use latchway_android.Base.{
  ℕ, String, ◌≡◌, refl, true, false, Option, none, some, List, [], ◌∷◌, ◌||◌, leb, eqb, ◌==◌, ◌≤◌,
  if◌then◌else◌, Result, ok, err, rejected, String-discrete, member, subset, same_set, has_char,
  skip_space, strip, is_space, digits_value, universal_newlines,
}
use latchway_android.Disk.{FilePath}
use latchway_android.Regex
use latchway_android.GpgStatus.Text
use latchway_android.Maintainer.Constants
use latchway_android.Maintainer.Constants.{maximum_json_safe_integer}
use latchway_android.Maintainer.Inputs
use latchway_android.Maintainer.Inputs.{Runtime}
use latchway_android.Maintainer.Lock
use latchway_android.Maintainer.Lock.{Contract, contract_lock}
use latchway_android.Maintainer.Output
use latchway_android.Maintainer.Output.{Place}
use latchway_android.Maintainer.Request
use latchway_android.Maintainer.Request.{
  Arguments, Checkout, Verified, positive_run_number, verify, run_script,
}
use latchway_android.Maintainer.Locked.{IsLockFile, contract_lock-IsLockFile}
use latchway_android.Maintainer.Numbers.{positive_run_number-le}
use latchway_android.Maintainer.Soundness.{IsRequested, verify-IsRequested}
use latchway_android.Maintainer.Outputs.{with_lines, run_script-with_lines}

abbrev commit : String
commit = "0123456789abcdef0123456789abcdef01234567"

abbrev bundle : String
bundle = "0123456789abcdef0123456789abcdef0123456789abcdef0123456789abcdef"

abbrev lock_text : String
lock_text =
    "contract_version: \"1.0.0\"\nwire_protocol: 2\ncore_release: v1.0.0\ncore_commit: 0123456789abcdef0123456789abcdef01234567\nbundle_sha256: \"0123456789abcdef0123456789abcdef0123456789abcdef0123456789abcdef\"\nminimum_server_version: 1.0.0\nmaximum_tested_server_version: 1.0.0\n"

abbrev source_text : String
source_text =
    "const val LATCHWAY_SDK_VERSION: String = \"1.0.0\"\nconst val LATCHWAY_CONTRACT_VERSION: String = \"1.0.0\"\n"

abbrev text_at : List ℕ → Option String
text_at [] = none
text_at (k ∷ rest) =
    if eqb k 0
    then some lock_text
    else (if eqb k 1 then some source_text else some "# Changes\n\n## [1.0.0] - 2026-01-02\n")

abbrev runtime : Runtime
runtime = record {
  sha256 = λ bytes. "d";
  encode = λ text. 7 ∷ [];
  utf8 = text_at;
  dumps = λ value. "{}";
  is_word = λ c. leb 65 c;
  digits = (48, 57) ∷ [];
}

abbrev holding : ℕ → FilePath
holding k = some (record { regular = true; symlink = false; size = 100; bytes = some (k ∷ []) })

abbrev tree : String → FilePath
tree path =
    if path == "contract.lock"
    then holding 0
    else (if path == "CHANGELOG.md" then holding 2 else holding 1)

abbrev git_of : List String → Option String
git_of [] = none
git_of (word ∷ rest) =
    if word == "rev-parse" then some "0123456789abcdef0123456789abcdef01234567\n" else some ""

abbrev checkout : Checkout
checkout = record { root_name = "latchway-android"; files = tree; run_git = git_of }

abbrev request : Arguments
request = record {
  repository_name = "Latchway/latchway-android";
  profile = "single_maintainer_v1";
  release_commit = commit;
  release_version = "1.0.0";
  workflow_commit = commit;
  workflow_ref = "refs/heads/main";
  run_id = "1234567";
  run_attempt = "1";
  confirmation = "publish-v1.0.0-with-deferred-assurance";
}

abbrev place : Place
place = record {
  directory_made = true;
  exists = false;
  symlink = false;
  is_file = false;
  written = true;
  bytes = none;
}

abbrev outputs : List (String × String)
outputs =
    ("commit", commit)
    ∷ ("core_commit", commit)
    ∷ ("core_tag", "v1.0.0")
    ∷ ("intent_sha256", "d")
    ∷ ("tag", "v1.0.0")
    ∷ ("version", "1.0.0")
    ∷ []

abbrev verified : Verified
verified = record {
  outputs = outputs;
  place = record place { exists = true; is_file = true; bytes = some (7 ∷ []) };
}

run : Arguments → Result Verified
unfolding verify String-discrete member subset same_set skip_space strip is_space digits_value
    universal_newlines Regex.matches Regex.fullmatch Text.splitlines Text.is_boundary
    Text.cons_first Constants.commit_id Constants.sha256_hash Constants.run_number Inputs.git
    Inputs.regular_text Inputs.search_word Inputs.search_line Lock.lock_line Lock.before_colon
    Lock.after_colon Lock.until_quote Lock.lock_value Lock.lock_keys Lock.lock_entry Lock.read_lines
    Lock.is_entry Lock.entry_text Lock.check_lock Lock.constant_pattern Lock.contract_lock
    Lock.changelog_pattern Lock.declares Lock.verify_android_release_metadata Output.write_intent
    Request.positive_run_number Request.dispatch_differs Request.check_worktree
run a = verify runtime checkout a place

accepted : run request ≡ ok verified
unfolding run
accepted = refl

no_break : (bytes : List ℕ) → (has_char 10 "d" || has_char 13 "d") ≡ false
unfolding has_char
no_break bytes = refl

accepted_result : verify runtime checkout request place ≡ ok verified
unfolding run
accepted_result = accepted

verify-IsRequested_example : IsRequested runtime checkout request place verified
verify-IsRequested_example =
    verify-IsRequested runtime checkout request place verified accepted_result

run_script-with_lines_example :
    run_script runtime checkout request place (some (some "old\n"))
    ≡ (ok verified, some (some (with_lines "old\n" outputs)))
run_script-with_lines_example =
    run_script-with_lines runtime checkout request place "old\n" verified no_break accepted_result

numbered : positive_run_number "9007199254740991" ≡ ok 9007199254740991
unfolding run positive_run_number
numbered = refl

too_large :
    positive_run_number "9007199254740992"
    ≡ err (rejected "maintainer_release_run_identity_invalid")
unfolding run positive_run_number
too_large = refl

positive_run_number-le_example :
    (1 ≤ 9007199254740991) × (9007199254740991 ≤ maximum_json_safe_integer)
positive_run_number-le_example = positive_run_number-le "9007199254740991" 9007199254740991 numbered

abbrev locked : Contract
locked = record {
  contract_version = "1.0.0";
  core_release = "v1.0.0";
  core_commit = commit;
  bundle_sha256 = bundle;
}

locks : contract_lock runtime (holding 0) ≡ ok locked
unfolding run contract_lock
locks = refl

contract_lock-IsLockFile_example : IsLockFile runtime (holding 0) locked
contract_lock-IsLockFile_example = contract_lock-IsLockFile runtime (holding 0) locked locks
