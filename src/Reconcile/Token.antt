-- ===== src/Reconcile/Token.antt =====
-- The administration token of a run reaches no process by the environment.
use latchway_android.Base.{
  ℕ, String, inl, inr, Bool, true, false, Option, none, some, List, [], ◌∷◌, member, Result-cases,
  if◌then◌else◌,
}
use latchway_android.Json.{Json, Fields, get, is_bool}
use latchway_android.Reconcile.Client.{
  Asset, TagBinding, Client, State, Action, ◌>>=◌, refuse_if, call_immutability, call_tag_binding,
  call_release, call_create, call_download, call_upload, call_finalize,
}
use latchway_android.Reconcile.Release.{Observed, observed_names, find}
use latchway_android.Reconcile.Steps.{
  Request, present, or_create, verify_remote_asset, verify_present, verify_all, upload_missing,
  validate_tag_binding, prepare, supply, confirm, end_draft, publish, check_final, end_final,
  reconcile,
}

module _ {W : Type 0} where
  -- From a remote state with `J` the action leads to one with `I`, whether it fails or not.
  abbrev Leads : {A : Type 0} → (W → Type 0) → Action W A → (W → Type 0) → Type 0
  Leads J m I = (s : State W) → J s.world → I (m s).1.world

  bind-Leads :
      {A B : Type 0} (J I : W → Type 0) (m : Action W A) (f : A → Action W B)
      → Leads J m I
      → ((a : A) → Leads I (f a) I)
      → Leads J (m >>= f) I
  unfolding ◌>>=◌
  bind-Leads J I m f first next s j = elim (Result-cases (m s).0) [
    | inl (a, done) ↦ rw done (next a (m s).1 (first s j))
    | inr (e, failed) ↦ rw failed (first s j)
  ]

  refuse-Leads : (I : W → Type 0) (b : Bool) (message : String) → Leads I (refuse_if b message) I
  refuse-Leads I true message = λ s i. i
  refuse-Leads I false message = λ s i. i

  present-Leads :
      (I : W → Type 0) (r : Option Fields) (message : String) → Leads I (present r message) I
  present-Leads I none message = λ s i. i
  present-Leads I (some release) message = λ s i. i

  choose-Leads :
      {A : Type 0} (I : W → Type 0) (b : Bool) (m n : Action W A)
      → Leads I m I
      → Leads I n I
      → Leads I (if b then m else n) I
  choose-Leads I true m n a b = a
  choose-Leads I false m n a b = b

-- The first call of a run leads from `J` to `I`, and the others keep `I`.
pub record Carries {W : Type 0} (client : Client W) (J I : W → Type 0) : Type 0 where
  pub immutability : (w : W) → J w → I (client.immutability_enabled w).1
  pub tag : (w : W) → I w → I (client.tag_binding w).1
  pub release : (w : W) → I w → I (client.release w).1
  pub create :
      (title : String) (prerelease : Bool) (w : W) → I w → I (client.create title prerelease w).1
  pub download : (id : Json) (w : W) → I w → I (client.download id w).1
  pub upload : (path : String) (w : W) → I w → I (client.upload path w).1
  pub finalize : (prerelease : Bool) (w : W) → I w → I (client.finalize prerelease w).1

module _ {W : Type 0} (client : Client W) (sha256 : List ℕ → String) (J I : W → Type 0)
    (c : Carries client J I) where
  tag-Leads : Leads I (call_tag_binding client) I
  unfolding call_tag_binding
  tag-Leads s i = c.tag s.world i

  release-Leads : Leads I (call_release client) I
  unfolding call_release
  release-Leads s i = c.release s.world i

  create-Leads :
      (title : String) (prerelease : Bool) → Leads I (call_create client title prerelease) I
  unfolding call_create
  create-Leads title prerelease s i = c.create title prerelease s.world i

  download-Leads : (id : Json) → Leads I (call_download client id) I
  unfolding call_download
  download-Leads id s i = c.download id s.world i

  upload-Leads : (path : String) → Leads I (call_upload client path) I
  unfolding call_upload
  upload-Leads path s i = c.upload path s.world i

  finalize-Leads : (prerelease : Bool) → Leads I (call_finalize client prerelease) I
  unfolding call_finalize
  finalize-Leads prerelease s i = c.finalize prerelease s.world i

  then_Leads :
      {A B : Type 0} (m : Action W A) (f : A → Action W B)
      → Leads I m I
      → ((a : A) → Leads I (f a) I)
      → Leads I (m >>= f) I
  then_Leads m f a b = bind-Leads I I m f a b

  verify-Leads :
      (a : Asset) (remote : Fields) → Leads I (verify_remote_asset client sha256 a remote) I
  unfolding verify_remote_asset
  verify-Leads a remote = then_Leads _ _ (refuse-Leads I _ _) λ _.
      then_Leads _ _ (refuse-Leads I _ _) λ _.
        then_Leads _ _ (download-Leads (get "id" remote))
          λ file. then_Leads _ _ (refuse-Leads I _ _) λ _. refuse-Leads I _ _

  verify_all-Leads :
      (assets : List Asset) (observed : Observed)
      → Leads I (verify_all client sha256 assets observed) I
  unfolding verify_all
  verify_all-Leads [] observed = λ s i. i
  verify_all-Leads (a ∷ more) observed =
      then_Leads _ _ (verify-Leads a (find a.name observed)) λ _. verify_all-Leads more observed

  verify_present-Leads :
      (assets : List Asset) (observed : Observed)
      → Leads I (verify_present client sha256 assets observed) I
  unfolding verify_present
  verify_present-Leads [] observed = λ s i. i
  verify_present-Leads (a ∷ more) observed =
      choose-Leads I (member a.name (observed_names observed)) _ _
        (then_Leads _ _ (verify-Leads a (find a.name observed))
          λ _. verify_present-Leads more observed)
        (verify_present-Leads more observed)

  upload_missing-Leads :
      (assets : List Asset) (observed : Observed) (draft : Bool)
      → Leads I (upload_missing client sha256 assets observed draft) I
  unfolding upload_missing
  upload_missing-Leads [] observed draft = λ s i. i
  upload_missing-Leads (a ∷ more) observed draft =
      choose-Leads I (member a.name (observed_names observed)) _ _
        (upload_missing-Leads more observed draft)
        (then_Leads _ _ (refuse-Leads I _ _) λ _.
          then_Leads _ _ (upload-Leads a.path)
            λ _. then_Leads _ _ (upload_missing-Leads more observed draft) λ names s i. i)

  validate-Leads :
      (q : Request) (expected : Option String)
      → Leads I (validate_tag_binding client sha256 q expected) I
  unfolding validate_tag_binding
  validate-Leads q expected = then_Leads _ _ tag-Leads λ b.
      then_Leads _ _ (refuse-Leads I _ _)
        λ _. then_Leads _ _ (refuse-Leads I _ _) λ _. then_Leads _ _ (refuse-Leads I _ _) λ _ s i. i

  create_if-Leads :
      (q : Request) (found : Option Fields) → Leads I (or_create client sha256 q found) I
  create_if-Leads q (some release) = λ s i. i
  create_if-Leads q none =
      then_Leads _ _ (create-Leads q.title q.prerelease)
        λ _. then_Leads _ _ release-Leads λ found. present-Leads I found _

  prepare-Leads : (q : Request) → Leads J (prepare client sha256 q) I
  unfolding prepare call_immutability
  prepare-Leads q =
      bind-Leads J I _ _ (λ s j. c.immutability s.world j)
        λ enabled. then_Leads _ _ (refuse-Leads I _ _) λ _.
          then_Leads _ _ (validate-Leads q q.expected_tag_object_sha) λ b.
            then_Leads _ _ (refuse-Leads I _ _) λ _. then_Leads _ _ (refuse-Leads I _ _) λ _ s i. i

  supply-Leads : (q : Request) → Leads I (supply client sha256 q) I
  unfolding supply
  supply-Leads q = then_Leads _ _ release-Leads λ found.
      then_Leads _ _ (create_if-Leads q found) λ release.
        then_Leads _ _ (λ s i. i)
          λ observed.
            then_Leads _ _ (verify_present-Leads q.assets observed)
              λ _. upload_missing-Leads q.assets observed _

  confirm-Leads : (q : Request) → Leads I (confirm client sha256 q) I
  unfolding confirm
  confirm-Leads q = then_Leads _ _ release-Leads λ found.
      then_Leads _ _ (present-Leads I found _) λ release.
        then_Leads _ _ (λ s i. i)
          λ observed.
            then_Leads _ _ (refuse-Leads I _ _)
              λ _. then_Leads _ _ (verify_all-Leads q.assets observed) λ _ s i. i

  final-Leads : (q : Request) → Leads I (check_final client sha256 q) I
  unfolding check_final
  final-Leads q = then_Leads _ _ release-Leads λ found.
      then_Leads _ _ (present-Leads I found _) λ release.
        then_Leads _ _ (λ s i. i)
          λ observed. then_Leads _ _ (refuse-Leads I _ _) λ _. verify_all-Leads q.assets observed

  publish-Leads :
      (q : Request) (release : Fields) (b : TagBinding)
      → Leads I (publish client sha256 q release b) I
  unfolding publish
  publish-Leads q release b =
      choose-Leads I (is_bool true (get "draft" release)) _ _
        (then_Leads _ _ (validate-Leads q (some b.tag_object_sha))
          λ again. then_Leads _ _ (finalize-Leads q.prerelease) λ _ s i. i)
        (λ s i. i)

  draft-Leads :
      (q : Request) (release : Fields) (observed : Observed)
      → Leads I (end_draft client sha256 q release observed) I
  unfolding end_draft
  draft-Leads q release observed =
      choose-Leads I (is_bool true (get "draft" release)) _ _ (λ s i. i)
        (then_Leads _ _ (refuse-Leads I _ _) λ _. refuse-Leads I _ _)

  end-Leads :
      (q : Request) (release : Fields) (observed : Observed) (b : TagBinding)
      → Leads I (end_final client sha256 q release observed b) I
  unfolding end_final
  end-Leads q release observed b = then_Leads _ _ (refuse-Leads I _ _) λ _.
      then_Leads _ _ (publish-Leads q release b) λ again. then_Leads _ _ (final-Leads q) λ _ s i. i

  -- Whatever the calls of the client keep, a run keeps, failed or not.
  pub reconcile-Leads : (q : Request) → Leads J (reconcile client sha256 q) I
  unfolding reconcile
  reconcile-Leads q = bind-Leads J I _ _ (prepare-Leads q) λ b.
      then_Leads _ _ (supply-Leads q) λ names. then_Leads _ _ (confirm-Leads q) λ pair.
        choose-Leads I q.draft_only _ _ (then_Leads _ _ (draft-Leads q pair.0 pair.1) λ _ s i. i)
          (then_Leads _ _ (end-Leads q pair.0 pair.1 b) λ again s i. i)
