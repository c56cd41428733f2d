-- ===== src/Reconcile/Binding.antt =====
-- What the tests of `validate_tag_binding` say of a binding.
use latchway_android.Base.{
  ℕ, String, ◌≡◌, ◌∙◌, refl, inl, inr, false, not, Option, none, some, List, arith, ◌==◌, ◌||◌,
}
use latchway_android.Reconcile.Client.{TagBinding, Client}
use latchway_android.Reconcile.Steps.{Request, object_differs}
use latchway_android.Reconcile.Safe.{SameObject, IsBound, IsExpected}

module _ {W : Type 0} (client : Client W) (sha256 : List ℕ → String) where
  object_differs-SameObject :
      (expected : Option String) (b : TagBinding)
      → object_differs client sha256 expected b ≡ false
      → SameObject expected b
  object_differs-SameObject none b h = inl refl
  object_differs-SameObject (some sha) b h =
      let same : sha ≡ b.tag_object_sha = ground arith in inr (rw same refl)

  pub IsBound-binding :
      (q : Request) (expected : Option String) (b : TagBinding)
      → (not (b.tag == q.tag) || not (b.commit == q.expected_commit)) ≡ false
      → not (b.message == q.expected_tag_message) ≡ false
      → object_differs client sha256 expected b ≡ false
      → IsBound q expected b
  IsBound-binding q expected b h k object = record {
    same_tag = ground arith;
    same_commit = ground arith;
    same_message = ground arith;
    same_object = object_differs-SameObject expected b object;
  }

-- A binding with the tag object of an expected binding is expected.
pub IsExpected-again :
    (q : Request) (b again : TagBinding)
    → IsExpected q b
    → IsBound q (some b.tag_object_sha) again
    → IsExpected q again
IsExpected-again q b again e h = record {
  same_tag = h.same_tag;
  same_commit = h.same_commit;
  same_message = h.same_message;
  same_object = elim (e.same_object) [
    | inl nothing ↦ inl nothing
    | inr given ↦ elim (h.same_object) [ inl absent ↦ cc | inr same ↦ inr (given ∙ same) ]
  ];
}
