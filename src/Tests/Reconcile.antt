-- ===== src/Tests/Reconcile.antt =====
-- A remote repository in which a release is made from nothing.
use latchway_android.Base.{
  ℕ, String, ◌≡◌, refl, Bool, true, false, Option, none, some, List, [], ◌∷◌, Result, ok,
  String-discrete, member, subset, same_set,
}
use latchway_android.Json.{
  Json, bool, int, pos, str, arr, nil, cons, Fields, end, field, get, eq_str, eq_num, is_bool,
  is_any_bool, is_null,
}
use latchway_android.Reconcile.Client
use latchway_android.Reconcile.Client.{Asset, TagBinding, Downloaded, Client, State, Event, ◌>>=◌}
use latchway_android.Reconcile.Release
use latchway_android.Reconcile.Steps
use latchway_android.Reconcile.Steps.{Request, reconcile}
use latchway_android.Reconcile.Safe.{IsSafe, IsExpected}
use latchway_android.Reconcile.Phases.{IsPublished, Confirmed}
use latchway_android.Reconcile.Safety.{reconcile-IsSafe, reconcile-IsPublished, reconcile-Confirmed}

-- How far the release has come.
pub data Remote : Type 0 where
  absent empty filled public : Remote

abbrev asset_fields : Fields
asset_fields = field "name" (str "a.aar") (
    field "state" (str "uploaded")
      (field "id" (int (pos 7)) (field "size" (int (pos 3)) (field "digest" (str "sha256:d") end))))

abbrev asset_json : Json
asset_json = Json.obj asset_fields

abbrev release_json : Bool → Json → Fields
release_json draft assets = field "tag_name" (str "v1.0.0") (
    field "name" (str "Latchway") (
      field "prerelease" (bool false)
        (field "draft" (bool draft) (field "immutable" (bool true) (field "assets" assets end)))))

abbrev document : Remote → Option Fields
document absent = none
document empty = some (release_json true (arr nil))
document filled = some (release_json true (arr (cons asset_json nil)))
document public = some (release_json false (arr (cons asset_json nil)))

abbrev binding : TagBinding
binding = record { tag = "v1.0.0"; tag_object_sha = "t"; commit = "c"; message = "m" }

abbrev pub remote : Client Remote
remote = record {
  immutability_enabled = λ w. (ok true, w);
  tag_binding = λ w. (ok binding, w);
  release = λ w. (ok (document w), w);
  create = λ title prerelease w. (ok tt, empty);
  download = λ id w. (ok (record { regular = true; size = 3; bytes = [] }), w);
  upload = λ path w. (ok tt, filled);
  finalize = λ prerelease w. (ok tt, public);
}

abbrev digest : List ℕ → String
digest _ = "d"

abbrev request : Bool → Request
request draft_only = record {
  tag = "v1.0.0";
  title = "Latchway";
  prerelease = false;
  assets = record { path = "out/a.aar"; name = "a.aar"; size = 3; sha256 = "d" } ∷ [];
  expected_commit = "c";
  expected_tag_message = "m";
  expected_tag_object_sha = none;
  draft_only = draft_only;
  allowed_asset_names = [];
}

abbrev start : State Remote
start = record { world = absent; trace = [] }

run : Request → Result (List String × TagBinding) × State Remote
unfolding reconcile ◌>>=◌ Client.call_immutability Client.call_tag_binding Client.call_release
    Client.call_create Client.call_download Client.call_upload Client.call_finalize
    Steps.validate_tag_binding Steps.prepare Steps.supply Steps.confirm Steps.end_draft
    Steps.publish Steps.check_final Steps.end_final Steps.verify_remote_asset Steps.verify_present
    Steps.verify_all Steps.upload_missing Steps.digest_differs Release.validate_release
    Release.validate_assets Release.observed_names Release.find Release.is_positive_id get eq_str
    eq_num is_bool is_any_bool is_null String-discrete member subset same_set
run q = reconcile remote digest q start

published : (run (request false)).0 ≡ ok ("a.aar" ∷ [], binding)
unfolding run
published = refl

published_world : (run (request false)).1.world ≡ public
unfolding run
published_world = refl

drafted : (run (request true)).0 ≡ ok ("a.aar" ∷ [], binding)
unfolding run
drafted = refl

drafted_world : (run (request true)).1.world ≡ filled
unfolding run
drafted_world = refl

reconcile-IsSafe_example :
    IsSafe digest (request false) (reconcile remote digest (request false) start).1.trace
reconcile-IsSafe_example = reconcile-IsSafe remote digest (request false) start tt

published_result : (reconcile remote digest (request false) start).0 ≡ ok ("a.aar" ∷ [], binding)
unfolding run
published_result = published

reconcile-IsPublished_example :
    IsExpected (request false) binding
    × IsPublished digest (request false) (reconcile remote digest (request false) start).1.trace
reconcile-IsPublished_example =
    reconcile-IsPublished remote digest (request false) start ("a.aar" ∷ [], binding) tt refl
      published_result

drafted_result : (reconcile remote digest (request true) start).0 ≡ ok ("a.aar" ∷ [], binding)
unfolding run
drafted_result = drafted

reconcile-Confirmed_example :
    IsExpected (request true) binding
    × (release : Fields) × (observed : Release.Observed) × Confirmed digest
        (request true)
        release
        observed
        (reconcile remote digest (request true) start).1.trace
reconcile-Confirmed_example =
    reconcile-Confirmed remote digest (request true) start ("a.aar" ∷ [], binding) tt refl
      drafted_result

abbrev rest : State Remote
rest = record { world = public; trace = [] }
