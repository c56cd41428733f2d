-- ===== src/Reconcile/Safety.antt =====
-- `reconcile` as a whole: every mutation is permitted, and a successful run is complete.
use latchway_android.Base.{
  ℕ, ◌≡◌, refl, String, Bool, true, false, List, if◌then◌else◌, Result, ok, err,
}
use mathlib.Core.Path.{subst}
use latchway_android.Json.{Fields}
use latchway_android.Reconcile.Client.{TagBinding, Client, Event, State, pure, ◌>>=◌}
use latchway_android.Reconcile.Release.{Observed}
use latchway_android.Reconcile.Steps.{Request, end_draft, end_final, reconcile}
use latchway_android.Reconcile.Safe.{IsExpected, IsSafe}
use latchway_android.Reconcile.Triple.{Triple, Triple-bind, Triple-pure, Triple-given, Ends}
use latchway_android.Reconcile.Phases.{
  Confirmed, IsPublished, Triple-prepare, Triple-supply, Triple-confirm, Triple-end_final,
  Triple-end_draft,
}

IsSafe-of :
    {A : Type 0} (sha256 : List ℕ → String) (q : Request) (Q : A → List Event → Type 0)
    (r : Result A) (es : List Event)
    → Ends sha256 q Q r es
    → IsSafe sha256 q es
IsSafe-of sha256 q Q (ok a) es h = h.0
IsSafe-of sha256 q Q (err e) es h = h

done_of :
    {A : Type 0} (sha256 : List ℕ → String) (q : Request) (Q : A → List Event → Type 0)
    (r : Result A) (es : List Event) (a : A)
    → r ≡ ok a
    → Ends sha256 q Q r es
    → Q a es
done_of sha256 q Q (ok b) es a e h = let same : b ≡ a = cc in subst (λ c. Q c es) same h.1
done_of sha256 q Q (err x) es a e h = cc

module _ {W : Type 0} (client : Client W) (sha256 : List ℕ → String) (q : Request) where
  -- What a successful run has established.
  abbrev pub Reconciled : List String × TagBinding → List Event → Type 0
  Reconciled result es =
      IsExpected q result.1
      × (q.draft_only ≡ false → IsPublished sha256 q es)
      × (q.draft_only ≡ true
          → (release : Fields) × (observed : Observed) × Confirmed sha256 q release observed es)

  Triple-finish :
      (names : List String) (release : Fields) (observed : Observed) (b : TagBinding) (draft : Bool)
      → q.draft_only ≡ draft
      → IsExpected q b
      → Triple sha256 q
          (Confirmed sha256 q release observed)
          (if draft
            then (end_draft client sha256 q release observed >>= λ _. pure (names, b))
            else (end_final client sha256 q release observed b >>= λ again. pure (names, again)))
          Reconciled
  Triple-finish names release observed b true is_draft expected =
      Triple-bind sha256 q _ _ _ (λ _. Confirmed sha256 q release observed) _
        (Triple-end_draft client sha256 q release observed)
        λ _.
          Triple-pure sha256 q _ (names, b) _
            λ es h. (expected, λ final. absurd (cc (is_draft, final)), λ _. (release, observed, h))
  Triple-finish names release observed b false is_final expected =
      Triple-bind sha256 q _ _ _ (λ again es. IsExpected q again × IsPublished sha256 q es) _
        (Triple-end_final client sha256 q release observed b is_final expected)
        λ again.
          Triple-pure sha256 q _ (names, again) _
            λ es h. (h.0, λ _. h.1, λ draft. absurd (cc (is_final, draft)))

  Triple-reconcile : Triple sha256 q (λ _. Unit {0}) (reconcile client sha256 q) Reconciled
  unfolding reconcile
  Triple-reconcile =
      Triple-bind sha256 q (λ _. Unit {0}) _ _ (λ b _. IsExpected q b) _
        (Triple-prepare client sha256 q)
        λ b. Triple-given sha256 q _ _ λ expected.
          Triple-bind sha256 q _ _ _ (λ _ _. Unit {0}) _ (Triple-supply client sha256 q)
            λ names.
              Triple-bind sha256 q _ _ _ (λ found es. Confirmed sha256 q found.0 found.1 es) _
                (Triple-confirm client sha256 q)
                λ found. Triple-finish names found.0 found.1 b q.draft_only refl expected

  -- Whatever the remote state is and however it changes between the calls, and whether the run
  -- ends well or raises: a release is created only where the last read found none; an asset is
  -- uploaded only to a draft that lacks it, after every asset that the draft holds was verified;
  -- and the draft is published only by a final run, with exactly the fixed assets, all verified,
  -- directly after the tag was read again and found right. Verified means: since the last read of
  -- the release the asset was downloaded by the identifier of its remote asset, which advertises its
  -- size and no other digest, and the file was regular, of its size and with its SHA-256.
  pub reconcile-IsSafe :
      (s : State W)
      → IsSafe sha256 q s.trace
      → IsSafe sha256 q (reconcile client sha256 q s).1.trace
  reconcile-IsSafe s safe =
      IsSafe-of sha256 q _ (reconcile client sha256 q s).0 _ (Triple-reconcile.at s safe tt)

  Reconciled-of :
      (s : State W) (result : List String × TagBinding)
      → IsSafe sha256 q s.trace
      → (reconcile client sha256 q s).0 ≡ ok result
      → Reconciled result (reconcile client sha256 q s).1.trace
  Reconciled-of s result safe h =
      done_of sha256 q Reconciled (reconcile client sha256 q s).0 _ result h
        (Triple-reconcile.at s safe tt)

  -- A final run that succeeds returns the expected tag binding (tag, commit, message and, if one is
  -- given, tag object), and has read a public, immutable release with the expected tag, title and
  -- prerelease state, with exactly its assets, and verified each of them after that read: downloaded
  -- by the identifier of its remote asset, which advertises its size and no other digest, as a
  -- regular file of its size and with its SHA-256.
  pub reconcile-IsPublished :
      (s : State W) (result : List String × TagBinding)
      → IsSafe sha256 q s.trace
      → q.draft_only ≡ false
      → (reconcile client sha256 q s).0 ≡ ok result
      → IsExpected q result.1 × IsPublished sha256 q (reconcile client sha256 q s).1.trace
  reconcile-IsPublished s result safe final h =
      let done = Reconciled-of s result safe h in (done.0, done.1 final)

  -- A run for drafts that succeeds returns the expected tag binding (tag, commit, message and, if one
  -- is given, tag object), and has read a release that it accepts, with the expected tag, title and
  -- prerelease state, and verified each of its assets after that read: downloaded by the identifier
  -- of its remote asset, which advertises its size and no other digest, as a regular file of its
  -- size and with its SHA-256.
  pub reconcile-Confirmed :
      (s : State W) (result : List String × TagBinding)
      → IsSafe sha256 q s.trace
      → q.draft_only ≡ true
      → (reconcile client sha256 q s).0 ≡ ok result
      → IsExpected q result.1
        × (release : Fields) × (observed : Observed) × Confirmed sha256 q release observed
            (reconcile client sha256 q s).1.trace
  reconcile-Confirmed s result safe draft h =
      let done = Reconciled-of s result safe h in
      let (release, observed, confirmed) = done.2 draft in (done.0, release, observed, confirmed)
