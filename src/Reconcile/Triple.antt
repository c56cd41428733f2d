-- ===== src/Reconcile/Triple.antt =====
-- Preconditions and postconditions of actions on the trace; a safe trace stays safe, also where an
-- action raises.
use latchway_android.Base.{
  ℕ, ◌≡◌, refl, Bool, true, false, String, List, Result, ok, err, if◌then◌else◌,
}
use latchway_android.Reconcile.Client.{Event, State, Action, continue, ◌>>=◌, pure, lift, refuse_if}
use latchway_android.Reconcile.Steps.{Request}
use latchway_android.Reconcile.Safe.{IsSafe}

abbrev pub Ends :
    {A : Type 0}
    → (List ℕ → String)
    → Request
    → (A → List Event → Type 0)
    → Result A
    → List Event
    → Type 0
Ends sha256 q Q (ok a) es = IsSafe sha256 q es × Q a es
Ends sha256 q Q (err e) es = IsSafe sha256 q es

pub record Triple {W A : Type 0} (sha256 : List ℕ → String) (q : Request) (P : List Event → Type 0)
    (m : Action W A) (Q : A → List Event → Type 0) : Type 0 where
  pub at :
      (s : State W) → IsSafe sha256 q s.trace → P s.trace → Ends sha256 q Q (m s).0 (m s).1.trace

module _ {W A : Type 0} (sha256 : List ℕ → String) (q : Request) (P : List Event → Type 0) where
  pub Triple-pure :
      (a : A) (Q : A → List Event → Type 0)
      → ((es : List Event) → P es → Q a es)
      → Triple {W = W} sha256 q P (pure a) Q
  Triple-pure a Q h = record { at = λ s safe p. (safe, h s.trace p) }

  pub Triple-if :
      (b : Bool) (m n : Action W A) (Q : A → List Event → Type 0)
      → (b ≡ true → Triple sha256 q P m Q)
      → (b ≡ false → Triple sha256 q P n Q)
      → Triple sha256 q P (if b then m else n) Q
  Triple-if true m n Q hm hn = hm refl
  Triple-if false m n Q hm hn = hn refl

module _ {W A B : Type 0} (sha256 : List ℕ → String) (q : Request) (P : List Event → Type 0) where
  Ends-continue :
      (r : Result A) (s : State W) (Q : A → List Event → Type 0) (R : B → List Event → Type 0)
      (f : A → Action W B)
      → Ends sha256 q Q r s.trace
      → ((a : A) → Triple sha256 q (Q a) (f a) R)
      → Ends sha256 q R (continue r f s).0 (continue r f s).1.trace
  Ends-continue (ok a) s Q R f (safe, p) next = (next a).at s safe p
  Ends-continue (err e) s Q R f safe next = safe

  pub Triple-bind :
      (m : Action W A) (f : A → Action W B) (Q : A → List Event → Type 0)
      (R : B → List Event → Type 0)
      → Triple sha256 q P m Q
      → ((a : A) → Triple sha256 q (Q a) (f a) R)
      → Triple sha256 q P (m >>= f) R
  unfolding ◌>>=◌
  Triple-bind m f Q R first next = record {
    at = λ s safe p. Ends-continue (m s).0 (m s).1 Q R f (first.at s safe p) next;
  }

  pub Triple-lift :
      (r : Result A) (f : A → Action W B) (R : B → List Event → Type 0)
      → ((a : A) → r ≡ ok a → Triple sha256 q P (f a) R)
      → Triple sha256 q P (lift r >>= f) R
  unfolding ◌>>=◌
  Triple-lift (ok a) f R next = next a refl
  Triple-lift (err e) f R next = record { at = λ s safe p. safe }

module _ {W B : Type 0} (sha256 : List ℕ → String) (q : Request) (P : List Event → Type 0) where
  -- What follows a test may use that it did not refuse.
  pub Triple-refuse_if :
      (b : Bool) (message : String) (m : Action W B) (R : B → List Event → Type 0)
      → (b ≡ false → Triple sha256 q P m R)
      → Triple sha256 q P (refuse_if b message >>= λ _. m) R
  unfolding ◌>>=◌
  Triple-refuse_if true message m R next = record { at = λ s safe p. safe }
  Triple-refuse_if false message m R next = next refl

-- A stronger precondition, a weaker postcondition.
pub Triple-weaken :
    {W A : Type 0} (sha256 : List ℕ → String) (q : Request) (P P' : List Event → Type 0)
    (m : Action W A) (Q Q' : A → List Event → Type 0)
    → ((es : List Event) → P' es → P es)
    → ((a : A) (es : List Event) → Q a es → Q' a es)
    → Triple sha256 q P m Q
    → Triple sha256 q P' m Q'
Triple-weaken {A} sha256 q P P' m Q Q' before after t = record {
  at = λ s safe p. ends (m s).0 (m s).1.trace (t.at s safe (before s.trace p));
}
  where
    ends : (r : Result A) (es : List Event) → Ends sha256 q Q r es → Ends sha256 q Q' r es
    ends (ok a) es (safe, h) = (safe, after a es h)
    ends (err e) es safe = safe

-- A precondition that does not speak of the trace is a hypothesis.
pub Triple-given :
    {W A C : Type 0} (sha256 : List ℕ → String) (q : Request) (m : Action W A)
    (Q : A → List Event → Type 0)
    → (C → Triple sha256 q (λ _. Unit {0}) m Q)
    → Triple sha256 q (λ _. C) m Q
Triple-given sha256 q m Q h = record { at = λ s safe c. (h c).at s safe tt }

pub Triple-refuse_last :
    {W : Type 0} (sha256 : List ℕ → String) (q : Request) (P : List Event → Type 0) (b : Bool)
    (message : String) (Q : Unit {0} → List Event → Type 0)
    → (b ≡ false → (es : List Event) → P es → Q tt es)
    → Triple {W = W} sha256 q P (refuse_if b message) Q
Triple-refuse_last sha256 q P true message Q h = record { at = λ s safe p. safe }
Triple-refuse_last sha256 q P false message Q h = record {
  at = λ s safe p. (safe, h refl s.trace p);
}
