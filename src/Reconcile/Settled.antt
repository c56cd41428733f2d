-- ===== src/Reconcile/Settled.antt =====
-- A run on a release that is already published as it should be.
use latchway_android.Base.{
  ℕ, String, ◌≡◌, true, false, some, List, [], ◌∷◌, All, subset, same_set, ok,
}
use latchway_android.Json.{Json, Fields, get, eq_num}
use latchway_android.Reconcile.Client.{
  Asset, TagBinding, Downloaded, Client, Event, created, uploaded, finalized, State, Action,
}
use latchway_android.Reconcile.Release.{Observed, observed_names, find, validate_release}
use latchway_android.Reconcile.Steps.{
  Request, asset_names, expected_names, expected_of, digest_differs, object_differs,
}

-- No call of the trace changed the remote repository.
abbrev pub IsQuiet : List Event → Type 0
IsQuiet [] = Unit {0}
IsQuiet (created ∷ es) = ⊥
IsQuiet (uploaded path ∷ es) = ⊥
IsQuiet (finalized prerelease ∷ es) = ⊥
IsQuiet (_ ∷ es) = IsQuiet es

-- The remote asset has the size and the digest of the local one, and its download has its bytes.
pub record IsServed {W : Type 0} (client : Client W) (sha256 : List ℕ → String) (w : W)
    (remote : Fields) (a : Asset) : Type 0 where
  pub size : eq_num (get "size" remote) a.size ≡ true
  pub digest : digest_differs (get "digest" remote) a ≡ false
  pub file : Downloaded
  pub download : client.download (get "id" remote) w ≡ (ok file, w)
  pub regular : file.regular ≡ true
  pub same_size : file.size ≡ a.size
  pub same_digest : sha256 file.bytes ≡ a.sha256

-- The remote repository at rest, with the tag as expected and a public, immutable release that
-- holds exactly the assets of the run.
pub record IsSettled {W : Type 0} (client : Client W) (sha256 : List ℕ → String) (q : Request)
    (b : TagBinding) (w : W) : Type 0 where
  pub enabled : client.immutability_enabled w ≡ (ok true, w)
  pub bound : client.tag_binding w ≡ (ok b, w)
  pub same_tag : b.tag ≡ q.tag
  pub same_commit : b.commit ≡ q.expected_commit
  pub same_message : b.message ≡ q.expected_tag_message
  pub same_object : object_differs client sha256 q.expected_tag_object_sha b ≡ false
  pub release : Fields
  pub released : client.release w ≡ (ok (some release), w)
  pub observed : Observed
  pub valid : validate_release release (expected_of q) false true ≡ ok observed
  pub complete : same_set (observed_names observed) (asset_names q.assets) ≡ true
  pub final : q.draft_only ≡ false
  pub own_names : same_set (expected_names q) (asset_names q.assets) ≡ true
  pub own_subset : subset (asset_names q.assets) (expected_names q) ≡ true
  pub observed_expected : same_set (observed_names observed) (expected_names q) ≡ true
  pub all_observed : subset (asset_names q.assets) (observed_names observed) ≡ true
  pub served : All (λ a. IsServed client sha256 w (find a.name observed) a) q.assets

module _ {W : Type 0} (w : W) where
  -- From the remote state `w` the action gives the value, and leaves the state and the quiet.
  abbrev Keeps : {A : Type 0} → Action W A → A → Type 0
  Keeps m a =
      (s : State W)
      → s.world ≡ w
      → IsQuiet s.trace
      → ((m s).0 ≡ ok a) × ((m s).1.world ≡ w) × IsQuiet (m s).1.trace
