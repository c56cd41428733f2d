-- ===== src/Tests/Token.antt =====
-- A remote side that remembers whether a process has seen the administration token.
use latchway_android.Base.{
  String, ◌≡◌, refl, Bool, true, false, not, Option, some, List, [], ◌||◌, ◌==◌, String-discrete,
  Result, err, rejected, none, member,
}
use latchway_android.Json
use latchway_android.Json.{Json, bool, str, obj, Fields, end, field}
use latchway_android.Regex
use latchway_android.Reconcile.Client
use latchway_android.Reconcile.Client.{TagBinding, State, ◌>>=◌}
use latchway_android.Reconcile.Steps
use latchway_android.Reconcile.Steps.{Request, reconcile}
use latchway_android.Reconcile.TagProof
use latchway_android.Reconcile.GitHub
use latchway_android.Reconcile.GitHub.{Session, Runtime, github_client}
use latchway_android.Reconcile.TokenFree.{settings_line, reconcile-Spent}

abbrev reply : Json
reply = obj (
    field "enabled" (bool true) (
      field "object"
        (obj (
          field "type" (str "tag")
            (field "sha" (str "0123456789abcdef0123456789abcdef01234567") end)))
        end))

-- The token is set for a call other than the one for the settings.
abbrev leaks : Option String → List String → Bool
leaks none line = false
leaks (some gh_token) line = not (member "repos/a/b/immutable-releases" line)

abbrev host : Runtime Bool
host = record {
  run = λ token gh_token line seen. (
    record { returncode = 0; stdout = "{}"; stderr = "" },
    not (token == "") || leaks gh_token line || seen,
  );
  loads = λ text. some reply;
  quote = λ text. text;
  show = λ value. "7";
  downloaded = λ seen. err (rejected "");
}

abbrev request : Request
request = record {
  tag = "v1.0.0";
  title = "Latchway";
  prerelease = false;
  assets = [];
  expected_commit = "c";
  expected_tag_message = "m";
  expected_tag_object_sha = none;
  draft_only = false;
  allowed_asset_names = [];
}

abbrev start : State (Session Bool)
start = record { world = record { world = false; token = "secret" }; trace = [] }

run : Request → Result (List String × TagBinding) × State (Session Bool)
unfolding reconcile ◌>>=◌ Client.call_immutability Client.call_tag_binding
    Steps.validate_tag_binding Steps.prepare github_client GitHub.immutability_enabled
    GitHub.immutability_of GitHub.is_enabled GitHub.lookup_tag GitHub.api_document
    GitHub.tag_object_of GitHub.binding_of TagProof.git_object_id Regex.matches Regex.fullmatch
    Json.get_last member Json.eq_str Json.is_bool String-discrete
run q = reconcile (github_client host "a/b" "v1.0.0") (λ bytes. "d") q start

refused : (run request).0 ≡ err (rejected "Promoted annotated tag does not target a commit.")
unfolding run
refused = refl

kept : (line : List String) (seen : Bool) → seen ≡ false → (host.run "" none line seen).1 ≡ false
unfolding String-discrete
kept line seen h = h

asked :
    (seen : Bool)
    → seen ≡ false
    → (host.run "" (some "secret") (settings_line "a/b") seen).1 ≡ false
unfolding String-discrete member
asked seen h = h

reconcile-Spent_example :
    ((reconcile (github_client host "a/b" "v1.0.0") (λ bytes. "d") request start).1.world.token
      ≡ "")
    × ((reconcile (github_client host "a/b" "v1.0.0") (λ bytes. "d") request start).1.world.world
        ≡ false)
reconcile-Spent_example =
    reconcile-Spent host "a/b" "v1.0.0" "secret" (λ seen. seen ≡ false) kept asked (λ bytes. "d")
      request start refl refl
