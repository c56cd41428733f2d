-- ===== src/Reconcile/Steps.antt =====
-- `verify_remote_asset`, `validate_tag_binding` and `reconcile`.
use latchway_android.Base.{
  ℕ, String, ◌<>◌, Bool, true, false, not, Option, none, some, List, [], ◌∷◌, ◌&&◌, ◌||◌, eqb, ◌==◌,
  if◌then◌else◌, member, subset, same_set, err, runtime_error,
}
use latchway_android.Json.{Json, Fields, get, eq_str, eq_num, is_bool, is_null}
use latchway_android.Reconcile.Client.{
  Asset, TagBinding, Client, Action, pure, lift, ◌>>=◌, ◌>>◌, refuse_if, call_immutability,
  call_tag_binding, call_release, call_create, call_download, call_upload, call_finalize,
}
use latchway_android.Reconcile.Release.{Expected, Observed, observed_names, find, validate_release}

-- The arguments of `reconcile`; `allowed_asset_names` is empty where it is not given.
pub record Request : Type 0 where
  pub tag : String
  pub title : String
  pub prerelease : Bool
  pub assets : List Asset
  pub expected_commit : String
  pub expected_tag_message : String
  pub expected_tag_object_sha : Option String
  pub draft_only : Bool
  pub allowed_asset_names : List String

abbrev pub asset_names : List Asset → List String
asset_names [] = []
asset_names (a ∷ more) = a.name ∷ asset_names more

-- `set(allowed_asset_names or local_names)`
abbrev pub or_else : List String → List String → List String
or_else [] others = others
or_else (n ∷ names) others = n ∷ names

abbrev pub expected_names : Request → List String
expected_names q = or_else q.allowed_asset_names (asset_names q.assets)

abbrev pub expected_of : Request → Expected
expected_of q = record {
  tag = q.tag;
  title = q.title;
  prerelease = q.prerelease;
  names = expected_names q;
}

-- `advertised_digest not in (None, "", f"sha256:{local.sha256}")`
unfoldable pub digest_differs : Json → Asset → Bool
digest_differs advertised asset =
    not
      (is_null advertised || eq_str advertised "" || eq_str advertised ("sha256:" <> asset.sha256))

module _ {W : Type 0} where
  -- `observed` must hold a release, or the run ends with a `RuntimeError`.
  abbrev pub present : Option Fields → String → Action W Fields
  present none message = lift (err (runtime_error message))
  present (some release) message = pure release

module _ {W : Type 0} (client : Client W) (sha256 : List ℕ → String) where
  unfoldable pub verify_remote_asset : Asset → Fields → Action W (Unit {0})
  verify_remote_asset asset remote = do
    refuse_if (not (eq_num (get "size" remote) asset.size))
        ("Existing GitHub release asset " <> asset.name <> " has different bytes.")
    refuse_if (digest_differs (get "digest" remote) asset)
        ("Existing GitHub release asset " <> asset.name <> " has a different digest.")
    file ← call_download client (get "id" remote)
    refuse_if (not file.regular || not (eqb file.size asset.size))
        ("Existing GitHub release asset " <> asset.name <> " downloaded with a different size.")
    refuse_if (not (sha256 file.bytes == asset.sha256))
        ("Existing GitHub release asset " <> asset.name <> " is not byte-identical.")

  -- The first loop over the assets: those that the release holds.
  unfoldable pub verify_present : List Asset → Observed → Action W (Unit {0})
  verify_present [] observed = pure tt
  verify_present (asset ∷ more) observed =
      let rest = verify_present more observed in
      if member asset.name (observed_names observed)
      then (do verify_remote_asset asset (find asset.name observed); rest)
      else rest

  -- The loops that verify every asset.
  unfoldable pub verify_all : List Asset → Observed → Action W (Unit {0})
  verify_all [] observed = pure tt
  verify_all (asset ∷ more) observed = do
    verify_remote_asset asset (find asset.name observed)
    verify_all more observed

  -- The second loop: the result is `uploaded`.
  unfoldable pub upload_missing : List Asset → Observed → Bool → Action W (List String)
  upload_missing [] observed draft = pure []
  upload_missing (asset ∷ more) observed draft =
      let rest = upload_missing more observed draft in
      if member asset.name (observed_names observed) then rest else (do
        refuse_if (not draft)
            ("Final GitHub release is missing immutable asset " <> asset.name <> ".")
        call_upload client asset.path
        names ← rest
        pure (asset.name ∷ names))

  -- `expected_tag_object_sha is not None and binding.tag_object_sha != expected_tag_object_sha`
  abbrev pub object_differs : Option String → TagBinding → Bool
  object_differs none binding = false
  object_differs (some sha) binding = not (binding.tag_object_sha == sha)

  unfoldable pub validate_tag_binding : Request → Option String → Action W TagBinding
  validate_tag_binding q expected_sha = do
    binding ← call_tag_binding client
    refuse_if (not (binding.tag == q.tag) || not (binding.commit == q.expected_commit))
        "Remote annotated tag no longer targets the promoted release commit."
    refuse_if (not (binding.message == q.expected_tag_message))
        "Remote annotated tag message no longer matches the promotion evidence."
    refuse_if (object_differs expected_sha binding)
        "Remote annotated tag object changed after its durable release binding was created."
    pure binding

  -- The release, created as a draft if there is none.
  abbrev pub or_create : Request → Option Fields → Action W Fields
  or_create q (some release) = pure release
  or_create q none = do
    call_create client q.title q.prerelease
    found ← call_release client
    present found "GitHub did not expose the newly created draft release."

  -- Up to the tag's first check and the expected set of names.
  unfoldable pub prepare : Request → Action W TagBinding
  prepare q = do
    enabled ← call_immutability client
    refuse_if (not enabled) "GitHub immutable releases are not enabled for this repository."
    binding ← validate_tag_binding q q.expected_tag_object_sha
    refuse_if (not (subset (asset_names q.assets) (expected_names q)))
        "Local release assets are not included in the fixed asset set."
    refuse_if (not q.draft_only && not (same_set (expected_names q) (asset_names q.assets)))
        "Final reconciliation requires every fixed release asset locally."
    pure binding

  -- From the first read of the release to the uploads.
  unfoldable pub supply : Request → Action W (List String)
  supply q = do
    found ← call_release client
    release ← or_create q found
    observed ← lift (validate_release release (expected_of q) true false)
    verify_present q.assets observed
    upload_missing q.assets observed (is_bool true (get "draft" release))

  -- The second read of the release, with every asset verified.
  unfoldable pub confirm : Request → Action W (Fields × Observed)
  confirm q = do
    found ← call_release client
    release ← present found "GitHub release disappeared during asset reconciliation."
    observed ← lift (validate_release release (expected_of q) true false)
    refuse_if (not (subset (asset_names q.assets) (observed_names observed)))
        "GitHub draft release does not contain every supplied immutable asset."
    verify_all q.assets observed
    pure (release, observed)

  -- The end of a run with `draft_only`.
  unfoldable pub end_draft : Request → Fields → Observed → Action W (Unit {0})
  end_draft q release observed = if is_bool true (get "draft" release) then pure tt else (do
    refuse_if (not (same_set (observed_names observed) (expected_names q)))
        "Final GitHub release does not contain the fixed asset set."
    refuse_if (not (is_bool true (get "immutable" release)))
        "Final GitHub release is not immutable.")

  -- The tag is read again just before the one-way transition.
  unfoldable pub publish : Request → Fields → TagBinding → Action W TagBinding
  publish q release binding =
      if is_bool true (get "draft" release)
      then (do
        again ← validate_tag_binding q (some binding.tag_object_sha)
        call_finalize client q.prerelease
        pure again)
      else pure binding

  -- The last read of the release.
  unfoldable pub check_final : Request → Action W (Unit {0})
  check_final q = do
    found ← call_release client
    final ← present found "GitHub release disappeared after finalization."
    observed ← lift (validate_release final (expected_of q) false true)
    refuse_if (not (same_set (observed_names observed) (asset_names q.assets)))
        "Final GitHub release does not contain the complete immutable asset set."
    verify_all q.assets observed

  -- The end of a run without `draft_only`.
  unfoldable pub end_final : Request → Fields → Observed → TagBinding → Action W TagBinding
  end_final q release observed binding = do
    refuse_if (not (same_set (observed_names observed) (expected_names q)))
        "GitHub draft release does not contain the complete immutable asset set."
    again ← publish q release binding
    check_final q
    pure again

  -- `reconcile`: the names that were uploaded and the tag's binding.
  unfoldable pub reconcile : Request → Action W (List String × TagBinding)
  reconcile q = do
    binding ← prepare q
    uploaded ← supply q
    (release, observed) ← confirm q
    if q.draft_only
        then (do end_draft q release observed; pure (uploaded, binding))
        else (do again ← end_final q release observed binding; pure (uploaded, again))
