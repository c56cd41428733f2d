-- ===== src/Central/Commands.antt =====
-- `write_no_clobber` and `main` of the deployment script: its commands and their exit codes.
use latchway_android.Base.{
  ℕ, String, Bool, true, false, not, Option, none, some, List, [], ◌∷◌, ◌&&◌, eqb, ◌==◌, length,
  Result, ok, err, rejected, os_error, reject_if, ◌>>=◌, ◌>>◌, if◌then◌else◌,
}
use latchway_android.Disk.{FilePath}
use latchway_android.Regex.{fullmatch}
use latchway_android.Json.{Json, str, obj, Fields, get_last, eq_str}
use latchway_android.Central.Inputs.{
  Runtime, maximum_json_bytes, sha256_hash, regular_file, read_bytes, canonical_bytes,
}
use latchway_android.Central.Archives.{Repository, Archive}
use latchway_android.Central.Intents.{create_intent, load_intent, validate_intent_inputs}
use latchway_android.Central.Records.{create_record, create_adoption_record, validate_record}
use latchway_android.Central.Statuses.{
  Normalized, validate_portal_status, create_adoption_status, validate_normalized_status,
}
use latchway_android.Central.Listing.{select_deployment}

unfoldable pub same_bytes : List ℕ → List ℕ → Bool
same_bytes [] [] = true
same_bytes (b ∷ bs) (c ∷ cs) = eqb b c && same_bytes bs cs
same_bytes _ _ = false

-- The output path: `path.exists()` follows a symbolic link, and `os.link` does not replace what
-- `lstat` finds.
pub record Output : Type 0 where
  pub exists : Bool
  pub file : FilePath

abbrev written : List ℕ → Output
written payload = record {
  exists = true;
  file =
      some
        (record { regular = true; symlink = false; size = length payload; bytes = some payload });
}

unfoldable pub write_no_clobber : Runtime → Output → Fields → Result Output
write_no_clobber host output value =
    let payload = canonical_bytes host (obj value) in
    if output.exists
    then (do
      file ← regular_file (some maximum_json_bytes) output.file
      bytes ← read_bytes output.file
      reject_if (not (same_bytes bytes payload)) "existing immutable state differs"
      ok output)
    else elim output.file [ none ↦ ok (written payload) | some file ↦ err os_error ]

-- The commands, with the files at the paths of their options.
pub data Command : Type 0 where
  make_intent :
      Repository
      → Archive
      → Archive
      → FilePath
      → String
      → String
      → String
      → String
      → String
      → Output
      → Command
  make_record : FilePath → String → Output → Command
  make_adoption_record : FilePath → FilePath → Output → Command
  make_adoption_status : FilePath → FilePath → FilePath → Output → Command
  check_intent : FilePath → Option String → Command
  check_inputs : FilePath → Repository → Archive → Archive → FilePath → Command
  check_record : FilePath → FilePath → Option String → Command
  check_status : FilePath → FilePath → FilePath → Output → Command
  check_complete : FilePath → FilePath → FilePath → String → Command
  select : FilePath → FilePath → Command

unfoldable pub validate_complete :
    Runtime → FilePath → FilePath → FilePath → String → Result Normalized
validate_complete host intent_path record_path status_path public_manifest = do
  result ← validate_normalized_status host intent_path record_path status_path
  reject_if (not (result.state == "PUBLISHED")) "deployment evidence is not complete and PUBLISHED"
  reject_if (not (fullmatch sha256_hash public_manifest)) "public manifest SHA-256 is invalid"
  reject_if
      (eq_str result.kind "public_registry_adoption"
        && not (eq_str result.manifest public_manifest))
      "public adoption does not bind the current public manifest"
  ok result

-- What a command leaves: the output file, and the value it prints.
abbrev pub Outcome : Type 0
Outcome = Option Output × Option Json

abbrev stored : Result Output → Result Outcome
stored r = r >>= λ output. ok (some output, none)

abbrev picked : Option String → Fields → Json
picked none fs = obj fs
picked (some name) fs = get_last name fs

unfoldable pub run_command : Runtime → Command → Result Outcome
run_command host
      (make_intent repository archive portal key version commit tag namespace publishing output) =
    stored (
      create_intent host repository archive portal key version commit tag namespace publishing
      >>= write_no_clobber host output)
run_command host (make_record intent id output) =
    stored (create_record host intent id >>= write_no_clobber host output)
run_command host (make_adoption_record intent evidence output) =
    stored (create_adoption_record host intent evidence >>= write_no_clobber host output)
run_command host (make_adoption_status intent deployment evidence output) =
    stored (create_adoption_status host intent deployment evidence >>= write_no_clobber host output)
run_command host (check_intent intent name) = do
  value ← load_intent host intent
  ok (none, some (picked name value.fields))
run_command host (check_inputs intent repository archive portal key) = do
  validate_intent_inputs host intent repository archive portal key
  ok (none, none)
run_command host (check_record intent deployment name) = do
  value ← validate_record host intent deployment
  ok (none, some (picked name value.fields))
run_command host (check_status intent deployment status output) = do
  result ← validate_portal_status host intent deployment status
  stored_at ← write_no_clobber host output result
  ok (some stored_at, some (get_last "deployment_state" result))
run_command host (check_complete intent deployment status manifest) = do
  result ← validate_complete host intent deployment status manifest
  ok (none, some result.kind)
run_command host (select intent listing) = do
  id ← select_deployment host intent listing
  ok (none, some (str id))

-- The handler of `main`, which returns 1; an exception of another class passes through it.
unfoldable pub exit_code : Result Outcome → Result ℕ
exit_code (ok outcome) = ok 0
exit_code (err (rejected code)) = ok 1
exit_code (err os_error) = ok 1
exit_code (err other) = err other

unfoldable pub main : Runtime → Command → Result ℕ
main host command = exit_code (run_command host command)
