-- ===== src/Reconcile/Calls.antt =====
-- The calls of the protocol as triples: what must hold for a mutation, and what holds after a call.
use latchway_android.Base.{
  ℕ, ◌≡◌, refl, Bool, String, Option, none, some, List, ◌∷◌, Result, ok, err,
}
use latchway_android.Json.{Json, Fields}
use latchway_android.Reconcile.Client.{
  TagBinding, Downloaded, Client, Event, asked_immutability, read_binding, read_release, created,
  downloaded, uploaded, finalized, call_immutability, call_tag_binding, call_release, call_create,
  call_download, call_upload, call_finalize,
}
use latchway_android.Reconcile.Steps.{Request}
use latchway_android.Reconcile.Safe.{IsSafe, Permitted, MayUpload, MayFinalize, last_release}
use latchway_android.Reconcile.Triple.{Triple, Ends}

-- A call that adds one permitted event.
Ends-after :
    {A : Type 0} (sha256 : List ℕ → String) (q : Request) (Q : A → List Event → Type 0)
    (r : Result A) (e : Event) (es : List Event)
    → IsSafe sha256 q es
    → Permitted sha256 q e es
    → ((a : A) → r ≡ ok a → Q a (e ∷ es))
    → Ends sha256 q Q r (e ∷ es)
Ends-after sha256 q Q (ok a) e es safe permitted h = ((permitted, safe), h a refl)
Ends-after sha256 q Q (err x) e es safe permitted h = (permitted, safe)

module _ {W : Type 0} (client : Client W) (sha256 : List ℕ → String) (q : Request)
    (P : List Event → Type 0) where
  pub Triple-call_immutability :
      (Q : Bool → List Event → Type 0)
      → ((b : Bool) (es : List Event) → P es → Q b (asked_immutability ∷ es))
      → Triple sha256 q P (call_immutability client) Q
  unfolding call_immutability
  Triple-call_immutability Q h = record {
    at = λ s safe p.
        Ends-after sha256 q Q (client.immutability_enabled s.world).0 asked_immutability s.trace
          safe tt (λ b e. h b s.trace p);
  }

  pub Triple-call_tag_binding :
      (Q : TagBinding → List Event → Type 0)
      → ((b : TagBinding) (es : List Event) → P es → Q b (read_binding (ok b) ∷ es))
      → Triple sha256 q P (call_tag_binding client) Q
  unfolding call_tag_binding
  Triple-call_tag_binding Q h = record {
    at = λ s safe p.
        Ends-after sha256 q Q (client.tag_binding s.world).0
          (read_binding (client.tag_binding s.world).0) s.trace safe tt
          (λ b e. rw e (h b s.trace p));
  }

  pub Triple-call_release :
      (Q : Option Fields → List Event → Type 0)
      → ((o : Option Fields) (es : List Event) → P es → Q o (read_release (ok o) ∷ es))
      → Triple sha256 q P (call_release client) Q
  unfolding call_release
  Triple-call_release Q h = record {
    at = λ s safe p.
        Ends-after sha256 q Q (client.release s.world).0 (read_release (client.release s.world).0)
          s.trace safe tt (λ o e. rw e (h o s.trace p));
  }

  pub Triple-call_create :
      (title : String) (prerelease : Bool) (Q : Unit {0} → List Event → Type 0)
      → ((es : List Event) → P es → last_release es ≡ some (ok none))
      → ((u : Unit {0}) (es : List Event) → P es → Q u (created ∷ es))
      → Triple sha256 q P (call_create client title prerelease) Q
  unfolding call_create
  Triple-call_create title prerelease Q may h = record {
    at = λ s safe p.
        Ends-after sha256 q Q (client.create title prerelease s.world).0 created s.trace safe
          (may s.trace p) (λ u e. h u s.trace p);
  }

  pub Triple-call_download :
      (id : Json) (Q : Downloaded → List Event → Type 0)
      → ((d : Downloaded) (es : List Event) → P es → Q d (downloaded id (ok d) ∷ es))
      → Triple sha256 q P (call_download client id) Q
  unfolding call_download
  Triple-call_download id Q h = record {
    at = λ s safe p.
        Ends-after sha256 q Q (client.download id s.world).0
          (downloaded id (client.download id s.world).0) s.trace safe tt
          (λ d e. rw e (h d s.trace p));
  }

  pub Triple-call_upload :
      (path : String) (Q : Unit {0} → List Event → Type 0)
      → ((es : List Event) → P es → MayUpload sha256 q path es)
      → ((u : Unit {0}) (es : List Event) → P es → Q u (uploaded path ∷ es))
      → Triple sha256 q P (call_upload client path) Q
  unfolding call_upload
  Triple-call_upload path Q may h = record {
    at = λ s safe p.
        Ends-after sha256 q Q (client.upload path s.world).0 (uploaded path) s.trace safe
          (may s.trace p) (λ u e. h u s.trace p);
  }

  pub Triple-call_finalize :
      (prerelease : Bool) (Q : Unit {0} → List Event → Type 0)
      → ((es : List Event) → P es → MayFinalize sha256 q prerelease es)
      → ((u : Unit {0}) (es : List Event) → P es → Q u (finalized prerelease ∷ es))
      → Triple sha256 q P (call_finalize client prerelease) Q
  unfolding call_finalize
  Triple-call_finalize prerelease Q may h = record {
    at = λ s safe p.
        Ends-after sha256 q Q (client.finalize prerelease s.world).0 (finalized prerelease) s.trace
          safe (may s.trace p) (λ u e. h u s.trace p);
  }
