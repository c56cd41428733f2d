-- ===== src/Reconcile/Safe.antt =====
-- What the calls of a safe run may be, and what a finished run has established: predicates on the
-- trace, newest event first.
use latchway_android.Base.{
  ℕ, String, ◌≡◌, ◌⊎◌, Bool, true, false, Option, none, some, List, [], ◌∷◌, member, same_set,
  Result, ok,
}
use latchway_android.Json.{Json, Fields, get, eq_num, is_bool}
use latchway_android.Reconcile.Client.{
  Asset, TagBinding, Downloaded, Event, read_binding, read_release, created, downloaded, uploaded,
  finalized,
}
use latchway_android.Reconcile.Release.{Observed, observed_names, find, validate_release}
use latchway_android.Reconcile.Accepted.{IsAccepted}
use latchway_android.Reconcile.Steps.{Request, digest_differs, expected_names, expected_of}

-- The answer to the latest read of the release.
abbrev pub last_release : List Event → Option (Result (Option Fields))
last_release [] = none
last_release (read_release r ∷ es) = some r
last_release (_ ∷ es) = last_release es

-- The download of `id` gave the asset: it is the remote asset's own, whose size and digest agree, and
-- a regular file with the asset's size and the asset's SHA-256.
pub record IsSame (sha256 : List ℕ → String) (a : Asset) (remote : Fields) (id : Json)
    (file : Downloaded) : Type 0 where
  pub own : id ≡ get "id" remote
  pub remote_size : eq_num (get "size" remote) a.size ≡ true
  pub remote_digest : digest_differs (get "digest" remote) a ≡ false
  pub regular : file.regular ≡ true
  pub size : file.size ≡ a.size
  pub digest : sha256 file.bytes ≡ a.sha256

-- The asset was downloaded from its remote asset and found the same after the latest read of the
-- release.
abbrev pub Verified : (List ℕ → String) → Asset → Fields → List Event → Type 0
Verified sha256 a remote [] = ⊥
Verified sha256 a remote (read_release r ∷ es) = ⊥
Verified sha256 a remote (downloaded id (ok file) ∷ es) =
    IsSame sha256 a remote id file ⊎ Verified sha256 a remote es
Verified sha256 a remote (_ ∷ es) = Verified sha256 a remote es

abbrev pub Listed : Asset → List Asset → Type 0
Listed a [] = ⊥
Listed a (b ∷ more) = (a ≡ b) ⊎ Listed a more

-- The tag object is the one that is expected, if one is.
abbrev pub SameObject : Option String → TagBinding → Type 0
SameObject expected b = (expected ≡ none) ⊎ (expected ≡ some b.tag_object_sha)

-- The binding is the one that the promotion evidence names, with the tag object that is given.
pub record IsBound (q : Request) (expected : Option String) (b : TagBinding) : Type 0 where
  pub same_tag : b.tag ≡ q.tag
  pub same_commit : b.commit ≡ q.expected_commit
  pub same_message : b.message ≡ q.expected_tag_message
  pub same_object : SameObject expected b

-- The tag object is that of the durable proof of the binding, if there is one.
abbrev pub IsExpected : Request → TagBinding → Type 0
IsExpected q b = IsBound q q.expected_tag_object_sha b

-- The release that was read last, as the run has accepted it: with the tag, the title, the
-- prerelease state and only expected, fully uploaded assets.
pub record IsRead (q : Request) (es : List Event) (release : Fields) (observed : Observed)
    : Type 0 where
  pub latest : last_release es ≡ some (ok (some release))
  pub accepted : validate_release release (expected_of q) true false ≡ ok observed
  pub checked : IsAccepted release (expected_of q) observed

-- An upload: the release that was read last is a draft without that asset, and each asset of the
-- run that it does hold has been verified since.
pub record MayUpload (sha256 : List ℕ → String) (q : Request) (path : String) (es : List Event)
    : Type 0 where
  pub asset : Asset
  pub is_own : Listed asset q.assets
  pub has_path : asset.path ≡ path
  pub release : Fields
  pub observed : Observed
  pub read : IsRead q es release observed
  pub is_draft : is_bool true (get "draft" release) ≡ true
  pub is_missing : member asset.name (observed_names observed) ≡ false
  pub verified_first :
      (b : Asset)
      → Listed b q.assets
      → member b.name (observed_names observed) ≡ true
      → Verified sha256 b (find b.name observed) es

-- The call before was a read of the tag that gave the expected binding.
abbrev pub JustBound : Request → List Event → Type 0
JustBound q (read_binding (ok b) ∷ es) = IsExpected q b
JustBound q _ = ⊥

-- The publication: not in a run for drafts; the release that was read last is a draft with exactly
-- the fixed set of assets, each verified since; and the tag has just been read and was right.
pub record MayFinalize (sha256 : List ℕ → String) (q : Request) (prerelease : Bool)
    (es : List Event) : Type 0 where
  pub not_draft_only : q.draft_only ≡ false
  pub same_prerelease : prerelease ≡ q.prerelease
  pub release : Fields
  pub observed : Observed
  pub read : IsRead q es release observed
  pub is_draft : is_bool true (get "draft" release) ≡ true
  pub complete : same_set (observed_names observed) (expected_names q) ≡ true
  pub all_verified : (b : Asset) → Listed b q.assets → Verified sha256 b (find b.name observed) es
  pub just_bound : JustBound q es

abbrev pub Permitted : (List ℕ → String) → Request → Event → List Event → Type 0
Permitted sha256 q created es = last_release es ≡ some (ok none)
Permitted sha256 q (uploaded path) es = MayUpload sha256 q path es
Permitted sha256 q (finalized prerelease) es = MayFinalize sha256 q prerelease es
Permitted sha256 q _ es = Unit {0}

-- Every mutation of the trace was permitted by what came before it.
abbrev pub IsSafe : (List ℕ → String) → Request → List Event → Type 0
IsSafe sha256 q [] = Unit {0}
IsSafe sha256 q (e ∷ es) = Permitted sha256 q e es × IsSafe sha256 q es
