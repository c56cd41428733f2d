-- ===== src/Tests/Script.antt =====
-- The whole reconciliation script on a small release, and the proof that it leaves.
use latchway_android.Base.{
  ℕ, String, ◌≡◌, refl, true, false, none, some, [], ◌∷◌, Result, ok, String-discrete, member,
  subset, same_set, distinct, has_char, universal_newlines, arith,
}
use latchway_android.Disk.{File}
use latchway_android.Regex
use latchway_android.Json
use latchway_android.Json.{Json, str, obj, Fields, end, field, get}
use latchway_android.Central.Paths
use latchway_android.Reconcile.Client
use latchway_android.Reconcile.Client.{TagBinding, Client, State, ◌>>=◌}
use latchway_android.Reconcile.Release
use latchway_android.Reconcile.Steps
use latchway_android.Reconcile.Assets
use latchway_android.Reconcile.Assets.{LocalPath}
use latchway_android.Reconcile.TagProof
use latchway_android.Reconcile.TagProof.{Runtime, Output, tag_binding_payload, load_tag_binding}
use latchway_android.Reconcile.Patterns
use latchway_android.Reconcile.Main
use latchway_android.Reconcile.Main.{Arguments, Outcome, run_script}
use latchway_android.Reconcile.Script.{IsReleased, run_script-IsReleased}
use latchway_android.Reconcile.ReadBack.{HoldsProof, load_tag_binding-proof_bytes}
use latchway_android.Tests.Reconcile.{Remote, remote}

abbrev commit : String
commit = "0123456789abcdef0123456789abcdef01234567"

abbrev binding : TagBinding
binding = record { tag = "v1.0.0"; tag_object_sha = commit; commit = commit; message = "m" }

abbrev client : Client Remote
client = record remote { tag_binding = λ w. (ok binding, w) }

abbrev payload : Fields
payload = field "schema" (str "latchway.github-release-tag-binding.v1") (
    field "tag" (str "v1.0.0") (
      field "commit" (str commit)
        (field "message_sha256" (str "d") (field "tag_object_sha" (str commit) end))))

abbrev host : Runtime
host = record {
  sha256 = λ bytes. "d";
  encode = λ text. 5 ∷ [];
  utf8 = λ bytes. some "m";
  loads = λ text. some (obj payload);
  dumps = λ value. "{}";
}

abbrev content : ℕ → File
content k = record { regular = true; symlink = false; size = 3; bytes = some (k ∷ []) }

abbrev request : Arguments
request = record {
  repository = "Latchway/latchway-android";
  tag = "v1.0.0";
  title = "Latchway";
  expected_commit = commit;
  tag_message = some (content 1);
  binding_output = some (record { exists = false; symlink = false; bytes = none }, none);
  prerelease = false;
  draft_only = false;
  allowed_asset_names = [];
  guard_asset = "";
  assets =
      record {
        shown = "out/a.aar";
        name = "a.aar";
        resolved = "out/a.aar";
        file = some (content 2);
      }
      ∷ [];
}

abbrev outcome : Outcome
outcome = record {
  proof = some (record { exists = true; symlink = false; bytes = some (5 ∷ []) });
  guard_uploaded = false;
}

run : Arguments → Result Outcome × State Remote
unfolding run_script Steps.reconcile ◌>>=◌ Client.call_immutability Client.call_tag_binding
    Client.call_release Client.call_create Client.call_download Client.call_upload
    Client.call_finalize Steps.validate_tag_binding Steps.prepare Steps.supply Steps.confirm
    Steps.end_draft Steps.publish Steps.check_final Steps.end_final Steps.verify_remote_asset
    Steps.verify_present Steps.verify_all Steps.upload_missing Steps.digest_differs
    Release.validate_release Release.validate_assets Release.observed_names Release.find
    Release.is_positive_id get Json.eq_str Json.eq_num Json.is_bool Json.is_any_bool Json.is_null
    String-discrete member subset same_set distinct has_char universal_newlines Regex.matches
    Regex.fullmatch Assets.unsafe_name Assets.insert_asset Assets.sort_assets Assets.hash_file
    Assets.inspect_asset Assets.inspect_paths Assets.inspect_assets Paths.codes_leb
    TagProof.read_small TagProof.load_tag_message TagProof.payload_fields TagProof.git_object_id
    TagProof.tag_binding_payload TagProof.write_tag_binding Patterns.commit_id
    Main.repository_pattern Main.release_tag_pattern Main.check_arguments Main.prepare_request
    Main.write_proof
run a = run_script client host true a (record { world = Remote.absent; trace = [] })

accepted : (run request).0 ≡ ok outcome
unfolding run
accepted = refl

accepted_result :
    (run_script client host true request (record { world = Remote.absent; trace = [] })).0
    ≡ ok outcome
unfolding run
accepted_result = accepted

run_script-IsReleased_example :
    IsReleased host request outcome
      (run_script client host true request (record { world = Remote.absent; trace = [] })).1
run_script-IsReleased_example =
    run_script-IsReleased client host request Remote.absent outcome refl accepted_result

same_payload : tag_binding_payload host binding ≡ payload
unfolding run
same_payload = refl

holds : HoldsProof host binding (content 5)
holds = record {
  regular = refl;
  no_link = refl;
  some_byte = omega arith;
  bounded = omega arith;
  content = refl;
  text = "m";
  decoded = refl;
  value = payload;
  loaded = refl;
  same = rw same_payload (record { same_field = λ k. refl; same_keys = λ names. refl });
}

shaped : Regex.fullmatch TagProof.git_object_id commit ≡ true
unfolding run
shaped = refl

load_tag_binding-proof_bytes_example :
    load_tag_binding host (some (content 5)) "v1.0.0" commit "m" ≡ ok commit
load_tag_binding-proof_bytes_example =
    load_tag_binding-proof_bytes host binding (content 5) holds shaped
