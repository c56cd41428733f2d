-- ===== src/Reconcile/Phases.antt =====
-- The steps of `reconcile` as triples: what each needs of the trace and what it establishes.
use latchway_android.Base.{
  ℕ, ◌≡◌, refl, String, true, false, Option, none, some, List, ◌∷◌, arith, same_set, ok,
}
use latchway_android.Json.{Fields, get, is_bool}
use latchway_android.Reconcile.Client.{Asset, TagBinding, Client, Event, read_binding}
use latchway_android.Reconcile.Release.{Observed, observed_names, find, validate_release}
use latchway_android.Reconcile.Steps.{
  Request, asset_names, expected_names, expected_of, present, validate_tag_binding, or_create,
  prepare, supply, confirm, end_draft, publish, check_final, end_final,
}
use latchway_android.Reconcile.Safe.{
  last_release, Verified, Listed, IsExpected, IsRead, IsBound, JustBound,
}
use latchway_android.Reconcile.Accepted.{
  IsAccepted, validate_release-IsAccepted, validate_release-final,
}
use latchway_android.Reconcile.Binding.{IsBound-binding, IsExpected-again}
use latchway_android.Reconcile.Triple.{
  Triple, Triple-bind, Triple-pure, Triple-if, Triple-lift, Triple-refuse_if, Triple-weaken,
  Triple-given, Triple-refuse_last,
}
use latchway_android.Reconcile.Calls.{
  Triple-call_immutability, Triple-call_tag_binding, Triple-call_release, Triple-call_create,
  Triple-call_finalize,
}
use latchway_android.Reconcile.Verification.{
  last_release-IsQuiet, Stable, AllVerified, Supplying, IsRead-Stable, AllVerified-Stable,
  Triple-verify_all, Triple-verify_present, Triple-upload_missing,
}

-- The release that was read last, accepted, with every asset of the run verified since.
abbrev pub Confirmed : (List ℕ → String) → Request → Fields → Observed → List Event → Type 0
Confirmed sha256 q release observed es =
    IsRead q es release observed × AllVerified sha256 observed q.assets (λ _. true) es

Confirmed-Stable :
    (sha256 : List ℕ → String) (q : Request) (release : Fields) (observed : Observed)
    → Stable (Confirmed sha256 q release observed)
Confirmed-Stable sha256 q release observed e es quiet h = (
  IsRead-Stable q release observed e es quiet h.0,
  AllVerified-Stable sha256 observed q.assets (λ _. true) e es quiet h.1,
)

-- The release is public: finalized, immutable, with exactly the assets of the run, each verified
-- after the latest read.
pub record IsPublished (sha256 : List ℕ → String) (q : Request) (es : List Event) : Type 0 where
  pub final : Fields
  pub observed : Observed
  pub latest : last_release es ≡ some (ok (some final))
  pub accepted : validate_release final (expected_of q) false true ≡ ok observed
  pub checked : IsAccepted final (expected_of q) observed
  pub is_public : is_bool true (get "draft" final) ≡ false
  pub is_immutable : is_bool true (get "immutable" final) ≡ true
  pub exact : same_set (observed_names observed) (asset_names q.assets) ≡ true
  pub all_verified : (b : Asset) → Listed b q.assets → Verified sha256 b (find b.name observed) es

Triple-present :
    {W : Type 0} (sha256 : List ℕ → String) (q : Request) (found : Option Fields) (message : String)
    → Triple {W = W} sha256 q
        (λ es. last_release es ≡ some (ok found))
        (present found message)
        (λ release es. last_release es ≡ some (ok (some release)))
Triple-present sha256 q none message = record { at = λ s safe p. safe }
Triple-present sha256 q (some release) message = record { at = λ s safe p. (safe, p) }

module _ {W : Type 0} (client : Client W) (sha256 : List ℕ → String) (q : Request) where
  Triple-validate_tag_binding :
      (R : List Event → Type 0) (expected_sha : Option String)
      → Stable R
      → ((b : TagBinding) → IsBound q expected_sha b → IsExpected q b)
      → Triple sha256 q R
          (validate_tag_binding client sha256 q expected_sha)
          (λ b es. R es × IsExpected q b × JustBound q es)
  unfolding validate_tag_binding
  Triple-validate_tag_binding R expected_sha stable bound =
      Triple-bind sha256 q R _ _
        (λ b es. R es × (es' : List Event) × (es ≡ read_binding (ok b) ∷ es')) _
        (Triple-call_tag_binding client sha256 q R _
          (λ b es r. (stable (read_binding (ok b)) es tt r, es, refl)))
        λ b. Triple-refuse_if sha256 q _ _ _ _ _ λ target.
          Triple-refuse_if sha256 q _ _ _ _ _ λ message.
            Triple-refuse_if sha256 q _ _ _ _ _ λ object. Triple-pure sha256 q _ b _ λ es h. (
              h.0,
              bound b (IsBound-binding client sha256 q expected_sha b target message object),
              rw h.2
                  (bound b (IsBound-binding client sha256 q expected_sha b target message object)),
            )

  pub Triple-prepare :
      Triple sha256 q (λ _. Unit {0}) (prepare client sha256 q) (λ b _. IsExpected q b)
  unfolding prepare
  Triple-prepare =
      Triple-bind sha256 q (λ _. Unit {0}) _ _ (λ _ _. Unit {0}) _
        (Triple-call_immutability client sha256 q _ _ (λ b es h. tt))
        λ enabled. Triple-refuse_if sha256 q _ _ _ _ _ λ _.
          Triple-bind sha256 q (λ _. Unit {0}) _ _ _ _
            (Triple-validate_tag_binding (λ _. Unit {0}) q.expected_tag_object_sha
              (λ e es quiet h. tt) (λ b h. h))
            λ b.
              Triple-refuse_if sha256 q _ _ _ _ _ λ _.
                Triple-refuse_if sha256 q _ _ _ _ _ λ _. Triple-pure sha256 q _ b _ (λ es h. h.1)

  Triple-or_create :
      (found : Option Fields)
      → Triple sha256 q
          (λ es. last_release es ≡ some (ok found))
          (or_create client sha256 q found)
          (λ release es. last_release es ≡ some (ok (some release)))
  Triple-or_create (some release) = Triple-pure sha256 q _ release _ (λ es h. h)
  Triple-or_create none =
      Triple-bind sha256 q _ _ _ (λ _ _. Unit {0}) _
        (Triple-call_create client sha256 q _ q.title q.prerelease _ (λ es h. h) (λ u es h. tt))
        λ _.
          Triple-bind sha256 q _ _ _ (λ found es. last_release es ≡ some (ok found)) _
            (Triple-call_release client sha256 q _ _ (λ o es h. refl))
            λ found.
              Triple-present sha256 q found "GitHub did not expose the newly created draft release."

  pub Triple-supply : Triple sha256 q (λ _. Unit {0}) (supply client sha256 q) (λ _ _. Unit {0})
  unfolding supply
  Triple-supply =
      Triple-bind sha256 q (λ _. Unit {0}) _ _ (λ found es. last_release es ≡ some (ok found)) _
        (Triple-call_release client sha256 q _ _ (λ o es h. refl))
        λ found.
          Triple-bind sha256 q _ _ _ (λ release es. last_release es ≡ some (ok (some release))) _
            (Triple-or_create found)
            λ release. Triple-lift sha256 q _ _ _ _ λ observed accepted.
              Triple-bind sha256 q _ _ _ (λ _. Supplying client sha256 q release observed) _
                (Triple-weaken sha256 q (λ es. IsRead q es release observed) _ _ _ _
                  (λ es latest. record {
                    latest = latest;
                    accepted = accepted;
                    checked =
                        validate_release-IsAccepted release (expected_of q) true false observed
                          accepted;
                  })
                  (λ u es h. h)
                  (Triple-verify_present client sha256 q (λ es. IsRead q es release observed)
                    q.assets observed (IsRead-Stable q release observed)))
                λ _.
                  Triple-weaken sha256 q _ _ _ _ _ (λ es h. h) (λ u es h. tt)
                    (Triple-upload_missing client sha256 q release observed q.assets (λ b m. m))

  pub Triple-confirm :
      Triple sha256 q
        (λ _. Unit {0})
        (confirm client sha256 q)
        (λ found es. Confirmed sha256 q found.0 found.1 es)
  unfolding confirm
  Triple-confirm =
      Triple-bind sha256 q (λ _. Unit {0}) _ _ (λ found es. last_release es ≡ some (ok found)) _
        (Triple-call_release client sha256 q _ _ (λ o es h. refl))
        λ found.
          Triple-bind sha256 q _ _ _ (λ release es. last_release es ≡ some (ok (some release))) _
            (Triple-present sha256 q found _)
            λ release. Triple-lift sha256 q _ _ _ _ λ observed accepted.
              Triple-refuse_if sha256 q _ _ _ _ _ λ _.
                Triple-bind sha256 q _ _ _ (λ _. Confirmed sha256 q release observed) _
                  (Triple-weaken sha256 q (λ es. IsRead q es release observed) _ _ _ _
                    (λ es latest. record {
                      latest = latest;
                      accepted = accepted;
                      checked =
                          validate_release-IsAccepted release (expected_of q) true false observed
                            accepted;
                    })
                    (λ u es h. h)
                    (Triple-verify_all client sha256 q (λ es. IsRead q es release observed) q.assets
                      observed (IsRead-Stable q release observed)))
                  λ _. Triple-pure sha256 q _ (release, observed) _ (λ es h. h)

  Triple-check_final :
      Triple sha256 q (λ _. Unit {0}) (check_final client sha256 q) (λ _. IsPublished sha256 q)
  unfolding check_final
  Triple-check_final =
      Triple-bind sha256 q (λ _. Unit {0}) _ _ (λ found es. last_release es ≡ some (ok found)) _
        (Triple-call_release client sha256 q _ _ (λ o es h. refl))
        λ found.
          Triple-bind sha256 q _ _ _ (λ release es. last_release es ≡ some (ok (some release))) _
            (Triple-present sha256 q found _)
            λ final. Triple-lift sha256 q _ _ _ _ λ observed accepted.
              Triple-refuse_if sha256 q _ _ _ _ _ λ exact.
                Triple-weaken sha256 q _ _ _ _ _ (λ es h. h)
                  (λ u es h. record {
                    final = final;
                    observed = observed;
                    latest = h.0;
                    accepted = accepted;
                    checked =
                        validate_release-IsAccepted final (expected_of q) false true observed
                          accepted;
                    is_public = (validate_release-final final (expected_of q) observed accepted).0;
                    is_immutable =
                        (validate_release-final final (expected_of q) observed accepted).1;
                    exact = ground arith;
                    all_verified = λ b m. h.1 b m refl;
                  })
                  (Triple-verify_all client sha256 q
                    (λ es. last_release es ≡ some (ok (some final))) q.assets observed
                    (λ e es quiet h. rw (last_release-IsQuiet e es quiet) h))

  Triple-publish :
      (release : Fields) (observed : Observed) (b : TagBinding)
      → q.draft_only ≡ false
      → same_set (observed_names observed) (expected_names q) ≡ true
      → IsExpected q b
      → Triple sha256 q
          (Confirmed sha256 q release observed)
          (publish client sha256 q release b)
          (λ again _. IsExpected q again)
  unfolding publish
  Triple-publish release observed b final complete expected =
      Triple-if sha256 q _ (is_bool true (get "draft" release)) _ _ _
        (λ draft.
          Triple-bind sha256 q _ _ _ _ _
            (Triple-validate_tag_binding (Confirmed sha256 q release observed)
              (some b.tag_object_sha) (Confirmed-Stable sha256 q release observed)
              (λ again h. IsExpected-again q b again expected h))
            λ again.
              Triple-bind sha256 q _ _ _ (λ _ _. IsExpected q again) _
                (Triple-call_finalize client sha256 q _ q.prerelease _
                  (λ es h. record {
                    not_draft_only = final;
                    same_prerelease = refl;
                    release = release;
                    observed = observed;
                    read = h.0.0;
                    is_draft = draft;
                    complete = complete;
                    all_verified = λ a m. h.0.1 a m refl;
                    just_bound = h.2;
                  })
                  (λ u es h. h.1))
                λ _. Triple-pure sha256 q _ again _ (λ es h. h))
        (λ public. Triple-pure sha256 q _ b _ (λ es h. expected))

  pub Triple-end_final :
      (release : Fields) (observed : Observed) (b : TagBinding)
      → q.draft_only ≡ false
      → IsExpected q b
      → Triple sha256 q
          (Confirmed sha256 q release observed)
          (end_final client sha256 q release observed b)
          (λ again es. IsExpected q again × IsPublished sha256 q es)
  unfolding end_final
  Triple-end_final release observed b final expected =
      Triple-refuse_if sha256 q _ _ _ _ _ λ complete.
        Triple-bind sha256 q _ _ _ (λ again _. IsExpected q again) _
          (Triple-publish release observed b final (ground arith) expected)
          λ again. Triple-given sha256 q _ _ λ bound.
            Triple-bind sha256 q _ _ _ (λ _. IsPublished sha256 q) _ Triple-check_final
              λ _. Triple-pure sha256 q _ again _ (λ es h. (bound, h))

  pub Triple-end_draft :
      (release : Fields) (observed : Observed)
      → Triple sha256 q
          (Confirmed sha256 q release observed)
          (end_draft client sha256 q release observed)
          (λ _. Confirmed sha256 q release observed)
  unfolding end_draft
  Triple-end_draft release observed =
      Triple-if sha256 q _ (is_bool true (get "draft" release)) _ _ _
        (λ draft. Triple-pure sha256 q _ tt _ (λ es h. h))
        (λ public.
          Triple-refuse_if sha256 q _ _ _ _ _
            λ _. Triple-refuse_last sha256 q _ _ _ _ (λ _ es h. h))
