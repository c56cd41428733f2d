-- ===== src/Reconcile/Verification.antt =====
-- The loops of `reconcile`: what is verified, and what is uploaded.
use latchway_android.Base.{
  false, not, ◌||◌, ◌==◌, eqb, ℕ, ◌≡◌, refl, inl, inr, String, Bool, true, List, [], ◌∷◌, arith,
  member, ok,
}
use latchway_android.Json.{Fields, get, eq_num, is_bool}
use latchway_android.Reconcile.Client.{
  Downloaded, Asset, Client, Event, read_release, downloaded, uploaded,
}
use latchway_android.Reconcile.Release.{Observed, observed_names, find}
use latchway_android.Reconcile.Steps.{
  Request, digest_differs, verify_remote_asset, verify_present, verify_all, upload_missing,
}
use latchway_android.Reconcile.Safe.{IsSame, last_release, Verified, Listed, IsRead}
use latchway_android.Reconcile.Triple.{
  Triple, Triple-bind, Triple-pure, Triple-if, Triple-refuse_if, Triple-refuse_last, Triple-weaken,
}
use latchway_android.Reconcile.Calls.{Triple-call_download, Triple-call_upload}

-- An event after which the latest read of the release is the same.
abbrev pub IsQuiet : Event → Type 0
IsQuiet (read_release r) = ⊥
IsQuiet _ = Unit {0}

pub last_release-IsQuiet :
    (e : Event) (es : List Event) → IsQuiet e → last_release (e ∷ es) ≡ last_release es
last_release-IsQuiet (read_release r) es h = absurd h
last_release-IsQuiet _ es h = refl

pub Verified-IsQuiet :
    (sha256 : List ℕ → String) (a : Asset) (remote : Fields) (e : Event) (es : List Event)
    → IsQuiet e
    → Verified sha256 a remote es
    → Verified sha256 a remote (e ∷ es)
Verified-IsQuiet sha256 a remote (read_release r) es h v = absurd h
Verified-IsQuiet sha256 a remote (downloaded id (ok file)) es h v = inr v
Verified-IsQuiet sha256 a remote _ es h v = v

-- A fact about the trace that quiet events keep.
abbrev pub Stable : (List Event → Type 0) → Type 0
Stable R = (e : Event) (es : List Event) → IsQuiet e → R es → R (e ∷ es)

pub IsRead-Stable :
    (q : Request) (release : Fields) (observed : Observed)
    → Stable (λ es. IsRead q es release observed)
IsRead-Stable q release observed e es quiet r = record {
  latest = rw (last_release-IsQuiet e es quiet) r.latest;
  accepted = r.accepted;
  checked = r.checked;
}

-- Those of the assets for which `test` holds are verified, each against its remote asset.
abbrev pub AllVerified :
    (List ℕ → String) → Observed → List Asset → (String → Bool) → List Event → Type 0
AllVerified sha256 observed assets test es =
    (b : Asset) → Listed b assets → test b.name ≡ true → Verified sha256 b (find b.name observed) es

pub AllVerified-Stable :
    (sha256 : List ℕ → String) (observed : Observed) (assets : List Asset) (test : String → Bool)
    → Stable (AllVerified sha256 observed assets test)
AllVerified-Stable sha256 observed assets test e es quiet h b m t =
    Verified-IsQuiet sha256 b (find b.name observed) e es quiet (h b m t)

AllVerified-cons :
    (sha256 : List ℕ → String) (observed : Observed) (a : Asset) (more : List Asset)
    (test : String → Bool) (es : List Event)
    → (test a.name ≡ true → Verified sha256 a (find a.name observed) es)
    → AllVerified sha256 observed more test es
    → AllVerified sha256 observed (a ∷ more) test es
AllVerified-cons sha256 observed a more test es here later b (inl same) t =
    rw same (here (rw same at t))
AllVerified-cons sha256 observed a more test es here later b (inr m) t = later b m t

module _ {W : Type 0} (client : Client W) (sha256 : List ℕ → String) (q : Request) where
  IsSame-download :
      (a : Asset) (fs : Fields) (d : Downloaded)
      → not (eq_num (get "size" fs) a.size) ≡ false
      → digest_differs (get "digest" fs) a ≡ false
      → (not d.regular || not (eqb d.size a.size)) ≡ false
      → not (sha256 d.bytes == a.sha256) ≡ false
      → IsSame sha256 a fs (get "id" fs) d
  IsSame-download a fs d size digest file bytes = record {
    own = refl;
    remote_size = ground arith;
    remote_digest = digest;
    regular = ground arith;
    size = ground arith;
    digest = ground arith;
  }

  pub Triple-verify_remote_asset :
      (R : List Event → Type 0) (a : Asset) (fs : Fields)
      → Stable R
      → Triple sha256 q R
          (verify_remote_asset client sha256 a fs)
          (λ _ es. R es × Verified sha256 a fs es)
  unfolding verify_remote_asset
  Triple-verify_remote_asset R a fs stable = Triple-refuse_if sha256 q R _ _ _ _ λ size.
      Triple-refuse_if sha256 q R _ _ _ _ λ digest.
        Triple-bind sha256 q R _ _
          (λ d es. R es × (es' : List Event) × (es ≡ downloaded (get "id" fs) (ok d) ∷ es')) _
          (Triple-call_download client sha256 q R (get "id" fs) _
            λ d es r. (stable (downloaded (get "id" fs) (ok d)) es tt r, es, refl))
          λ d. Triple-refuse_if sha256 q _ _ _ _ _ λ file.
            Triple-refuse_last sha256 q _ _ _ _
              λ bytes es h. (h.0, rw h.2 (inl (IsSame-download a fs d size digest file bytes)))

  pub Triple-verify_all :
      (R : List Event → Type 0) (assets : List Asset) (observed : Observed)
      → Stable R
      → Triple sha256 q R
          (verify_all client sha256 assets observed)
          (λ _ es. R es × AllVerified sha256 observed assets (λ _. true) es)
  unfolding verify_all
  Triple-verify_all R [] observed stable =
      Triple-pure sha256 q R tt _ (λ es r. (r, λ b m t. absurd m))
  Triple-verify_all R (a ∷ more) observed stable =
      Triple-bind sha256 q R _ _ (λ _ es. R es × Verified sha256 a (find a.name observed) es) _
        (Triple-verify_remote_asset R a _ stable)
        λ _.
          Triple-weaken sha256 q (λ es. R es × Verified sha256 a (find a.name observed) es)
            (λ es. R es × Verified sha256 a (find a.name observed) es) _
            (λ _ es.
              (R es × Verified sha256 a (find a.name observed) es)
              × AllVerified sha256 observed more (λ _. true) es)
            _ (λ es h. h)
            (λ _ es h.
              (h.0.0, AllVerified-cons sha256 observed a more (λ _. true) es (λ _. h.0.1) h.1))
            (Triple-verify_all (λ es. R es × Verified sha256 a (find a.name observed) es) more
              observed
              λ e es quiet h. (
                stable e es quiet h.0,
                Verified-IsQuiet sha256 a (find a.name observed) e es quiet h.1,
              ))

  pub Triple-verify_present :
      (R : List Event → Type 0) (assets : List Asset) (observed : Observed)
      → Stable R
      → Triple sha256 q R (verify_present client sha256 assets observed) (λ _ es.
        R es × AllVerified sha256 observed assets (λ k. member k (observed_names observed)) es)
  unfolding verify_present
  Triple-verify_present R [] observed stable =
      Triple-pure sha256 q R tt _ (λ es r. (r, λ b m t. absurd m))
  Triple-verify_present R (a ∷ more) observed stable =
      Triple-if sha256 q R (member a.name (observed_names observed)) _ _ _
        (λ here.
          Triple-bind sha256 q R _ _ (λ _ es. R es × Verified sha256 a (find a.name observed) es) _
            (Triple-verify_remote_asset R a _ stable)
            λ _.
              Triple-weaken sha256 q (λ es. R es × Verified sha256 a (find a.name observed) es)
                (λ es. R es × Verified sha256 a (find a.name observed) es) _
                (λ _ es.
                  (R es × Verified sha256 a (find a.name observed) es)
                  × AllVerified sha256 observed more (λ k. member k (observed_names observed)) es)
                _ (λ es h. h)
                (λ _ es h. (h.0.0, AllVerified-cons sha256 observed a more _ es (λ _. h.0.1) h.1))
                (Triple-verify_present (λ es. R es × Verified sha256 a (find a.name observed) es)
                  more observed
                  λ e es quiet h. (
                    stable e es quiet h.0,
                    Verified-IsQuiet sha256 a (find a.name observed) e es quiet h.1,
                  )))
        (λ absent.
          Triple-weaken sha256 q R R _
            (λ _ es.
              R es × AllVerified sha256 observed more (λ k. member k (observed_names observed)) es)
            _ (λ es h. h)
            (λ _ es h. (
              h.0,
              AllVerified-cons sha256 observed a more _ es
                  (λ present. absurd (cc (absent, present))) h.1,
            ))
            (Triple-verify_present R more observed stable))

  -- What holds during the uploads.
  abbrev pub Supplying : Fields → Observed → List Event → Type 0
  Supplying release observed es =
      IsRead q es release observed
      × AllVerified sha256 observed q.assets (λ k. member k (observed_names observed)) es

  Supplying-Stable : (release : Fields) (observed : Observed) → Stable (Supplying release observed)
  Supplying-Stable release observed e es quiet h = (
    IsRead-Stable q release observed e es quiet h.0,
    AllVerified-Stable sha256 observed q.assets _ e es quiet h.1,
  )

  pub Triple-upload_missing :
      (release : Fields) (observed : Observed) (assets : List Asset)
      → ((b : Asset) → Listed b assets → Listed b q.assets)
      → Triple sha256 q
          (Supplying release observed)
          (upload_missing client sha256 assets observed (is_bool true (get "draft" release)))
          (λ _. Supplying release observed)
  unfolding upload_missing
  Triple-upload_missing release observed [] own =
      Triple-pure sha256 q (Supplying release observed) [] _ (λ es h. h)
  Triple-upload_missing release observed (a ∷ more) own =
      let more_uploads : Triple sha256 q (Supplying release observed)
          (upload_missing client sha256 more observed (is_bool true (get "draft" release)))
          (λ _. Supplying release observed) =
        Triple-upload_missing release observed more (λ b m. own b (inr m)) in
      Triple-if sha256 q (Supplying release observed) (member a.name (observed_names observed)) _ _
        _ (λ here. more_uploads)
        λ absent. Triple-refuse_if sha256 q (Supplying release observed) _ _ _ _ λ draft.
          Triple-bind sha256 q (Supplying release observed) _ _ (λ _. (Supplying release observed))
            _
            (Triple-call_upload client sha256 q (Supplying release observed) a.path
              (λ _. (Supplying release observed))
              (λ es h. record {
                asset = a;
                is_own = own a (inl refl);
                has_path = refl;
                release = release;
                observed = observed;
                read = h.0;
                is_draft = ground arith;
                is_missing = absent;
                verified_first = h.1;
              })
              λ u es h. Supplying-Stable release observed (uploaded a.path) es tt h)
            λ _.
              Triple-bind sha256 q (Supplying release observed) _ _
                (λ _. (Supplying release observed)) _ more_uploads
                λ names.
                  Triple-pure sha256 q (Supplying release observed) (a.name ∷ names) _ (λ es h. h)
