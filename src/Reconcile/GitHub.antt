-- ===== src/Reconcile/GitHub.antt =====
-- `GitHubClient`: the protocol's calls by the program `gh`.
use latchway_android.Base.{
  ℕ, String, ◌<>◌, Bool, true, false, not, Option, none, some, List, [], ◌∷◌, eqb, ◌==◌,
  if◌then◌else◌, Result, ok, err, runtime_error, reject_if, ◌>>=◌, ◌>>◌,
}
use latchway_android.Regex.{fullmatch}
use latchway_android.Json.{Json, Fields, obj, get_last, as_obj, as_str, eq_str, is_bool}
use latchway_android.Reconcile.Client.{TagBinding, Downloaded, Client}
use latchway_android.Reconcile.TagProof.{git_object_id}
use latchway_android.Reconcile.Patterns.{not_found, commit_id}

-- A finished process; `stdout` and `stderr` are texts.
pub record Process : Type 0 where
  pub returncode : ℕ
  pub stdout : String
  pub stderr : String

-- The remote state, and the token of the one administrative call in the environment.
pub record Session (W : Type 0) : Type 0 where
  pub world : W
  pub token : String

-- `subprocess.run` on a command line, with the administration token in the environment that the
-- process inherits (no text where there is none) and `GH_TOKEN` where the call sets it;
-- `json.loads`, `quote(…, safe='')`, `str(asset_id)`, and the file that a download leaves.
pub record Runtime (W : Type 0) : Type 0 where
  pub run : String → Option String → List String → W → Process × W
  pub loads : String → Option Json
  pub quote : String → String
  pub show : Json → String
  pub downloaded : W → Result Downloaded

abbrev pub api : String → List String
api endpoint =
    "gh" ∷ "api" ∷ "-H" ∷ "Accept: application/vnd.github+json" ∷ "-H"
    ∷ "X-GitHub-Api-Version: 2026-03-10" ∷ endpoint ∷ []

-- `isinstance(value, dict) and value.get("enabled") is True`
unfoldable pub is_enabled : Json → Bool
is_enabled (obj fs) = is_bool true (get_last "enabled" fs)
is_enabled _ = false

module _ {W : Type 0} (host : Runtime W) (repository tag : String) where
  -- `subprocess.run` in the environment of the process.
  abbrev run_gh : List String → Session W → Process × Session W
  run_gh line s = let (p, w) = host.run s.token none line s.world in (p, record s { world = w })

  abbrev or_runtime : Option Json → String → Result Json
  or_runtime none message = err (runtime_error message)
  or_runtime (some value) message = ok value

  abbrev object_of : Json → String → Result Fields
  object_of (obj fs) message = ok fs
  object_of _ message = err (runtime_error message)

  -- `_api_json` on the finished process.
  unfoldable pub api_document : Process → String → Result Fields
  api_document p description =
      if eqb p.returncode 0
      then (do
        value ←
            or_runtime (host.loads p.stdout) ("GitHub returned invalid " <> description <> " JSON.")
        object_of value ("GitHub returned an invalid " <> description <> " document."))
      else err (runtime_error ("GitHub " <> description <> " lookup failed"))

  -- `immutability_enabled` on the finished process.
  unfoldable pub immutability_of : Process → Result Bool
  immutability_of p =
      if eqb p.returncode 0
      then (do
        value ←
            or_runtime (host.loads p.stdout)
              "GitHub returned invalid immutable-release settings JSON."
        ok (is_enabled value))
      else ok false

  -- The token leaves the environment with this call.
  unfoldable pub immutability_enabled : Session W → Result Bool × Session W
  immutability_enabled s =
      if s.token == ""
      then (
        err (
            runtime_error
              "LATCHWAY_GITHUB_RELEASE_ADMIN_TOKEN is required to read immutable-release settings."),
        s,
      )
      else (let (p, w) =
            host.run "" (some s.token) (api ("repos/" <> repository <> "/immutable-releases"))
              s.world in
          (immutability_of p, record { world = w; token = "" }))

  -- `release` on the finished process.
  unfoldable pub release_of : Process → Result (Option Fields)
  release_of p =
      if eqb p.returncode 0
      then (do
        value ← or_runtime (host.loads p.stdout) "GitHub returned invalid release JSON."
        fs ← object_of value "GitHub returned an invalid release document."
        ok (some fs))
      else if fullmatch not_found p.stderr
      then ok none
      else err (runtime_error "GitHub release lookup failed")

  unfoldable pub lookup_release : Session W → Result (Option Fields) × Session W
  lookup_release s =
      let (p, t) = run_gh (api ("repos/" <> repository <> "/releases/tags/" <> host.quote tag)) s in
      (release_of p, t)

  -- The identifier of the annotated tag object in the reference.
  unfoldable pub tag_object_of : Fields → Result String
  tag_object_of reference = do
    target ←
        as_obj (get_last "object" reference) "Promoted release tag is not an annotated tag object."
    reject_if (not (eq_str (get_last "type" target) "tag"))
        "Promoted release tag is not an annotated tag object."
    sha ← as_str (get_last "sha" target) "Promoted annotated tag object has an invalid identifier."
    reject_if (not (fullmatch git_object_id sha))
        "Promoted annotated tag object has an invalid identifier."
    ok sha

  -- The binding in the annotated tag object.
  unfoldable pub binding_of : String → Fields → Result TagBinding
  binding_of tag_object_sha tag_object = do
    commit ←
        as_obj (get_last "object" tag_object) "Promoted annotated tag does not target a commit."
    reject_if (not (eq_str (get_last "type" commit) "commit"))
        "Promoted annotated tag does not target a commit."
    reject_if (not (eq_str (get_last "tag" tag_object) tag))
        "Promoted annotated tag identity or commit is invalid."
    sha ← as_str (get_last "sha" commit) "Promoted annotated tag identity or commit is invalid."
    reject_if (not (fullmatch commit_id sha))
        "Promoted annotated tag identity or commit is invalid."
    message ← as_str (get_last "message" tag_object) "Promoted annotated tag message is invalid."
    ok (record { tag = tag; tag_object_sha = tag_object_sha; commit = sha; message = message })

  -- The second lookup, where the first gave an identifier.
  abbrev pub read_tag_object : Result String → Session W → Result TagBinding × Session W
  read_tag_object (err e) s = (err e, s)
  read_tag_object (ok sha) s =
      let (p, t) = run_gh (api ("repos/" <> repository <> "/git/tags/" <> sha)) s in
      (api_document p "annotated tag object" >>= binding_of sha, t)

  unfoldable pub lookup_tag : Session W → Result TagBinding × Session W
  lookup_tag s =
      let (p, t) = run_gh (api ("repos/" <> repository <> "/git/ref/tags/" <> host.quote tag)) s in
      read_tag_object (api_document p "tag reference" >>= tag_object_of) t

  -- `_run`
  unfoldable pub run_command : List String → String → Session W → Result (Unit {0}) × Session W
  run_command line operation s =
      let (p, t) = run_gh line s in
      (if eqb p.returncode 0 then ok tt else err (runtime_error (operation <> " failed")), t)

  abbrev pub create_line : String → Bool → List String
  create_line title prerelease =
      "gh"
      ∷ "release"
      ∷ "create"
      ∷ tag
      ∷ "--repo"
      ∷ repository
      ∷ "--verify-tag"
      ∷ "--draft"
      ∷ "--generate-notes"
      ∷ "--title"
      ∷ title
      ∷ (if prerelease then "--prerelease" ∷ [] else [])

  abbrev pub upload_line : String → List String
  upload_line path = "gh" ∷ "release" ∷ "upload" ∷ tag ∷ path ∷ "--repo" ∷ repository ∷ []

  abbrev pub finalize_line : Bool → List String
  finalize_line prerelease =
      "gh"
      ∷ "release"
      ∷ "edit"
      ∷ tag
      ∷ "--repo"
      ∷ repository
      ∷ "--draft=false"
      ∷ (if prerelease then "--prerelease" ∷ [] else "--prerelease=false" ∷ "--latest" ∷ [])

  abbrev download_line : Json → List String
  download_line id =
      "gh"
      ∷ "api"
      ∷ "--method"
      ∷ "GET"
      ∷ "-H"
      ∷ "Accept: application/octet-stream"
      ∷ "-H"
      ∷ "X-GitHub-Api-Version: 2026-03-10"
      ∷ ("repos/" <> repository <> "/releases/assets/" <> host.show id)
      ∷ []

  -- The output of the download stands at the destination.
  unfoldable pub download_asset : Json → Session W → Result Downloaded × Session W
  download_asset id s =
      let (p, t) = run_gh (download_line id) s in
      (
        if eqb p.returncode 0
            then host.downloaded t.world
            else err (runtime_error "GitHub release asset download failed"),
        t,
      )

  unfoldable pub github_client : Client (Session W)
  github_client = record {
    immutability_enabled = immutability_enabled;
    tag_binding = lookup_tag;
    release = lookup_release;
    create = λ title prerelease.
        run_command (create_line title prerelease) "GitHub draft release creation";
    download = download_asset;
    upload = λ path. run_command (upload_line path) "GitHub release asset upload";
    finalize = λ prerelease. run_command (finalize_line prerelease) "GitHub release finalization";
  }
