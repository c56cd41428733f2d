-- ===== src/Reconcile/Client.antt =====
-- `Asset`, `TagBinding` and the protocol `Client` of scripts/reconcile-github-release.py, with the
-- actions that call it.
use latchway_android.Base.{
  ℕ, String, Bool, true, false, Option, List, ◌∷◌, Result, ok, err, rejected,
}
use latchway_android.Json.{Json, Fields}

pub record Asset : Type 0 where
  pub path : String
  pub name : String
  pub size : ℕ
  pub sha256 : String

pub record TagBinding : Type 0 where
  pub tag : String
  pub tag_object_sha : String
  pub commit : String
  pub message : String

-- What a download leaves at the destination.
pub record Downloaded : Type 0 where
  pub regular : Bool
  pub size : ℕ
  pub bytes : List ℕ

-- The protocol over a remote state `W`, which each call may change and others may change between
-- the calls. The repository and the tag are the same in every call of one run and are left out.
pub record Client (W : Type 0) : Type 0 where
  pub immutability_enabled : W → Result Bool × W
  pub tag_binding : W → Result TagBinding × W
  pub release : W → Result (Option Fields) × W
  pub create : String → Bool → W → Result (Unit {0}) × W
  pub download : Json → W → Result Downloaded × W
  pub upload : String → W → Result (Unit {0}) × W
  pub finalize : Bool → W → Result (Unit {0}) × W

-- The calls of the protocol with what they were given or gave. A call that raises is recorded too.
pub data Event : Type 0 where
  asked_immutability : Event
  read_binding : Result TagBinding → Event
  read_release : Result (Option Fields) → Event
  created : Event
  downloaded : Json → Result Downloaded → Event
  uploaded : String → Event
  finalized : Bool → Event

-- The remote state and the trace, newest event first.
pub record State (W : Type 0) : Type 0 where
  pub world : W
  pub trace : List Event

abbrev pub Action : Type 0 → Type 0 → Type 0
Action W A = State W → Result A × State W

module _ {W A : Type 0} where
  abbrev pub pure : A → Action W A
  pure a s = (ok a, s)

  abbrev pub lift : Result A → Action W A
  lift r s = (r, s)

module _ {W A B : Type 0} where
  abbrev pub continue : Result A → (A → Action W B) → Action W B
  continue (ok a) f s = f a s
  continue (err e) f s = (err e, s)

  infixl 5 ◌>>=◌ ◌>>◌
  unfoldable pub ◌>>=◌ : Action W A → (A → Action W B) → Action W B
  ◌>>=◌ m f s = continue (m s).0 f (m s).1

  abbrev pub ◌>>◌ : Action W A → Action W B → Action W B
  m >> n = m >>= λ _. n

module _ {W : Type 0} where
  abbrev pub refuse_if : Bool → String → Action W (Unit {0})
  refuse_if true message s = (err (rejected message), s)
  refuse_if false message s = (ok tt, s)

module _ {W : Type 0} (client : Client W) where
  unfoldable pub call_immutability : Action W Bool
  call_immutability s =
      let (r, w) = client.immutability_enabled s.world in
      (r, record { world = w; trace = asked_immutability ∷ s.trace })

  unfoldable pub call_tag_binding : Action W TagBinding
  call_tag_binding s =
      let (r, w) = client.tag_binding s.world in
      (r, record { world = w; trace = read_binding r ∷ s.trace })

  unfoldable pub call_release : Action W (Option Fields)
  call_release s =
      let (r, w) = client.release s.world in
      (r, record { world = w; trace = read_release r ∷ s.trace })

  unfoldable pub call_create : String → Bool → Action W (Unit {0})
  call_create title prerelease s =
      let (r, w) = client.create title prerelease s.world in
      (r, record { world = w; trace = created ∷ s.trace })

  unfoldable pub call_download : Json → Action W Downloaded
  call_download id s =
      let (r, w) = client.download id s.world in
      (r, record { world = w; trace = downloaded id r ∷ s.trace })

  unfoldable pub call_upload : String → Action W (Unit {0})
  call_upload path s =
      let (r, w) = client.upload path s.world in
      (r, record { world = w; trace = uploaded path ∷ s.trace })

  unfoldable pub call_finalize : Bool → Action W (Unit {0})
  call_finalize prerelease s =
      let (r, w) = client.finalize prerelease s.world in
      (r, record { world = w; trace = finalized prerelease ∷ s.trace })
