-- ===== src/Reconcile/Main.antt =====
-- `parse_arguments` and `main` of the reconciliation script.
use latchway_android.Base.{
  String, Bool, true, false, not, Option, none, some, List, [], ◌∷◌, ◌||◌, ◌&&◌, ltb, ◌==◌,
  if◌then◌else◌, any, map, codes, length, member, distinct, has_char, Result, ok, err,
  runtime_error, exit_with, ◌>>=◌, ◌>>◌,
}
use latchway_android.Disk.{FilePath}
use latchway_android.Regex.{
  Regex, CharClass, chars, char, one, seq, alt, star, plus, opt, fullmatch,
}
use latchway_android.Reconcile.Client.{Asset, TagBinding, Client, State}
use latchway_android.Reconcile.Steps.{Request, reconcile}
use latchway_android.Reconcile.Assets.{LocalPath, unsafe_name, inspect_assets}
use latchway_android.Reconcile.TagProof.{
  Runtime, Output, load_tag_message, load_tag_binding, write_tag_binding,
}
use latchway_android.Reconcile.Patterns.{commit_id}

abbrev word : CharClass
word = (b'A', b'Z') ∷ (b'a', b'z') ∷ (b'0', b'9') ∷ []

unfoldable pub repository_pattern : Regex
repository_pattern =
    seq (plus (chars (one b'_' ∷ one b'.' ∷ one b'-' ∷ word)))
      (seq (char b'/') (plus (chars (one b'_' ∷ one b'.' ∷ one b'-' ∷ word))))

abbrev number : Regex
number = alt (char b'0') (seq (chars ((b'1', b'9') ∷ [])) (star (chars ((b'0', b'9') ∷ []))))

unfoldable pub release_tag_pattern : Regex
release_tag_pattern = seq (char b'v') (
    seq number (
      seq (char b'.') (
        seq number (
          seq (char b'.') (
            seq number (
              opt (
                seq (char b'-') (
                  seq (plus (chars (one b'-' ∷ word)))
                    (star (seq (char b'.') (plus (chars (one b'-' ∷ word)))))))))))))

-- The values of the command line, with the files at their paths.
pub record Arguments : Type 0 where
  pub repository : String
  pub tag : String
  pub title : String
  pub expected_commit : String
  pub tag_message : FilePath
  pub binding_output : Option (Output × FilePath)
  pub prerelease : Bool
  pub draft_only : Bool
  pub allowed_asset_names : List String
  pub guard_asset : String
  pub assets : List LocalPath

abbrev usage_if : Bool → String → Result (Unit {0})
usage_if true message = err (exit_with message)
usage_if false message = ok tt

abbrev pub is_given : List String → Bool
is_given [] = false
is_given (name ∷ names) = true

-- The tests of `parse_arguments`; `parser.error` raises `SystemExit`.
unfoldable pub check_arguments : Arguments → Result (Unit {0})
check_arguments a = do
  usage_if (not (fullmatch repository_pattern a.repository))
      "--repository must be an owner/repository name"
  usage_if (not (fullmatch release_tag_pattern a.tag))
      "--tag must be a canonical semantic-version release tag"
  usage_if (not (fullmatch commit_id a.expected_commit))
      "--expected-commit must be a lowercase 40-character commit"
  usage_if (a.title == "" || has_char 10 a.title || has_char 13 a.title)
      "--title must be a non-empty single line"
  usage_if (any (λ name. unsafe_name name || ltb 255 (length (codes name))) a.allowed_asset_names)
      "--allowed-asset-name must be a safe file name"
  usage_if (not (distinct a.allowed_asset_names)) "--allowed-asset-name values must be unique"
  usage_if (is_given a.allowed_asset_names && not a.draft_only)
      "--allowed-asset-name is only valid with --draft-only"
  usage_if (not (a.guard_asset == "") && not a.draft_only)
      "--guard-asset is only valid with --draft-only"
  usage_if
      (not (a.guard_asset == "") && not (member a.guard_asset (map (λ path. path.name) a.assets)))
      "--guard-asset must name one supplied local asset"

-- The identifier of the tag object in the durable proof, if there is one.
abbrev pub earlier_object : Runtime → Arguments → String → Result (Option String)
earlier_object host a message = elim a.binding_output [
  | none ↦ ok none
  | some (output, file) ↦
      if output.exists
      then (do sha ← load_tag_binding host file a.tag a.expected_commit message; ok (some sha))
      else ok none
]

abbrev pub request_of : Arguments → String → Option String → List Asset → Request
request_of a message object assets = record {
  tag = a.tag;
  title = a.title;
  prerelease = a.prerelease;
  assets = assets;
  expected_commit = a.expected_commit;
  expected_tag_message = message;
  expected_tag_object_sha = object;
  draft_only = a.draft_only;
  allowed_asset_names = a.allowed_asset_names;
}

-- Up to the call of `reconcile`; `gh_ready` tells whether require-gh-version.py accepts `gh`.
unfoldable pub prepare_request : Runtime → Bool → Arguments → Result Request
prepare_request host gh_ready a = do
  check_arguments a
  (if gh_ready
      then ok tt
      else err (runtime_error "GitHub CLI does not satisfy the release security baseline."))
  message ← load_tag_message host a.tag_message
  object ← earlier_object host a message
  assets ← inspect_assets host.sha256 a.assets
  ok (request_of a message object assets)

-- The proof of the binding, if its path is given.
unfoldable pub write_proof : Runtime → Arguments → TagBinding → Result (Option Output)
write_proof host a binding = elim a.binding_output [
  | none ↦ ok none
  | some (output, file) ↦ (do after ← write_tag_binding host output binding; ok (some after))
]

-- What a run leaves: the proof of the binding, and whether the guard was uploaded.
pub record Outcome : Type 0 where
  pub proof : Option Output
  pub guard_uploaded : Bool

abbrev pub finish : Runtime → Arguments → Result (List String × TagBinding) → Result Outcome
finish host a r = do
  (uploaded, binding) ← r
  proof ← write_proof host a binding
  ok (record { proof = proof; guard_uploaded = member a.guard_asset uploaded })

module _ {W : Type 0} (client : Client W) (host : Runtime) where
  abbrev run_request : Arguments → Result Request → State W → Result Outcome × State W
  run_request a (err e) s = (err e, s)
  run_request a (ok q) s = let (r, t) = reconcile client host.sha256 q s in (finish host a r, t)

  unfoldable pub run_script : Bool → Arguments → State W → Result Outcome × State W
  run_script gh_ready a s = run_request a (prepare_request host gh_ready a) s
