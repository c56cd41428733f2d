-- ===== src/Central/Paths/Members.antt =====
-- Members of lists of texts, as they are joined, mapped and sorted.
use latchway_android.Base.{
  String, ◌≡◌, ◌↔◌, ◌⊎◌, refl, sym, ◌∙◌, inl, inr, true, ◌==◌, ==_iff, List, [], ◌∷◌, ◌++◌, member,
  Bool-cases, arith,
}
use mathlib.Core.Path.{subst}
use latchway_android.Central.Paths.{insert, sorted, flat_map}

-- `P` holds of a member.
abbrev pub Some : {A : Type 0} → (A → Type 0) → List A → Type 0
Some P [] = ⊥
Some P (x ∷ xs) = P x ⊎ Some P xs

module _ {A : Type 0} where
  pub Some-append-to : (P : A → Type 0) (xs ys : List A) → Some P (xs ++ ys) → Some P xs ⊎ Some P ys
  Some-append-to P [] ys h = inr h
  Some-append-to P (x ∷ xs) ys (inl p) = inl (inl p)
  Some-append-to P (x ∷ xs) ys (inr h) = elim (Some-append-to P xs ys h) [
    | inl p ↦ inl (inr p)
    | inr q ↦ inr q
  ]

  pub Some-append-of : (P : A → Type 0) (xs ys : List A) → Some P xs ⊎ Some P ys → Some P (xs ++ ys)
  Some-append-of P [] ys (inl h) = absurd h
  Some-append-of P [] ys (inr h) = h
  Some-append-of P (x ∷ xs) ys (inl (inl p)) = inl p
  Some-append-of P (x ∷ xs) ys (inl (inr h)) = inr (Some-append-of P xs ys (inl h))
  Some-append-of P (x ∷ xs) ys (inr h) = inr (Some-append-of P xs ys (inr h))

module _ {A : Type 0} where
  pub Some-flat_map-to :
      (P : String → Type 0) (f : A → List String) (xs : List A)
      → Some P (flat_map f xs)
      → Some {A = A} (λ x. Some P (f x)) xs
  unfolding flat_map
  Some-flat_map-to P f [] h = h
  Some-flat_map-to P f (x ∷ xs) h = elim (Some-append-to P (f x) (flat_map f xs) h) [
    | inl p ↦ inl p
    | inr q ↦ inr (Some-flat_map-to P f xs q)
  ]

  pub Some-flat_map-of :
      (P : String → Type 0) (f : A → List String) (xs : List A)
      → Some {A = A} (λ x. Some P (f x)) xs
      → Some P (flat_map f xs)
  unfolding flat_map
  Some-flat_map-of P f [] h = h
  Some-flat_map-of P f (x ∷ xs) (inl p) = Some-append-of P (f x) (flat_map f xs) (inl p)
  Some-flat_map-of P f (x ∷ xs) (inr q) =
      Some-append-of P (f x) (flat_map f xs) (inr (Some-flat_map-of P f xs q))

module _ {A : Type 0} where
  pub Some-either-to :
      (P Q : A → Type 0) (xs : List A) → Some P xs ⊎ Some Q xs → Some (λ x. P x ⊎ Q x) xs
  Some-either-to P Q [] (inl h) = h
  Some-either-to P Q [] (inr h) = h
  Some-either-to P Q (x ∷ xs) (inl (inl p)) = inl (inl p)
  Some-either-to P Q (x ∷ xs) (inl (inr h)) = inr (Some-either-to P Q xs (inl h))
  Some-either-to P Q (x ∷ xs) (inr (inl q)) = inl (inr q)
  Some-either-to P Q (x ∷ xs) (inr (inr h)) = inr (Some-either-to P Q xs (inr h))

  pub Some-either-of :
      (P Q : A → Type 0) (xs : List A) → Some (λ x. P x ⊎ Q x) xs → Some P xs ⊎ Some Q xs
  Some-either-of P Q [] h = inl h
  Some-either-of P Q (x ∷ xs) (inl (inl p)) = inl (inl p)
  Some-either-of P Q (x ∷ xs) (inl (inr q)) = inr (inl q)
  Some-either-of P Q (x ∷ xs) (inr h) = elim (Some-either-of P Q xs h) [
    | inl p ↦ inl (inr p)
    | inr q ↦ inr (inr q)
  ]

pub member-Some : (s : String) (ss : List String) → (member s ss ≡ true) ↔ Some (λ t. s ≡ t) ss
unfolding member
member-Some s [] = (λ h. cc, λ h. absurd h)
member-Some s (t ∷ ts) = elim (Bool-cases (s == t)) [
  | inl same ↦ (λ h. inl ((==_iff s t).0 same), λ h. ground arith)
  | inr other ↦ (
    λ h. inr ((member-Some s ts).0 (ground arith)),
    λ h. elim h [
      | inl e ↦ let same = (==_iff s t).1 e in ground arith
      | inr later ↦ let found = (member-Some s ts).1 later in ground arith
    ],
  )
]

member-insert : (n s : String) (ss : List String) → member n (insert s ss) ≡ member n (s ∷ ss)
unfolding insert member
member-insert n s [] = refl
member-insert n s (t ∷ ts) = ground (arith, member-insert n s ts)

member-sorted : (n : String) (ss : List String) → member n (sorted ss) ≡ member n ss
unfolding sorted member
member-sorted n [] = refl
member-sorted n (s ∷ ss) = ground (arith, member-insert n s (sorted ss), member-sorted n ss)

Some-member :
    (P : String → Type 0) (ss : List String) → Some P ss → (t : String) × (member t ss ≡ true) × P t
unfolding member
Some-member P [] h = absurd h
Some-member P (s ∷ ss) (inl p) = (s, rw ((==_iff s s).1 refl) refl, p)
Some-member P (s ∷ ss) (inr h) = let (t, m, p) = Some-member P ss h in (t, ground arith, p)

Some-of_member :
    (P : String → Type 0) (ss : List String) (t : String) → Some (λ s. t ≡ s) ss → P t → Some P ss
Some-of_member P [] t h p = h
Some-of_member P (s ∷ ss) t (inl same) p = inl (subst P same p)
Some-of_member P (s ∷ ss) t (inr h) p = inr (Some-of_member P ss t h p)

-- The order of the texts does not count.
pub Some-sorted : (P : String → Type 0) (ss : List String) → Some P (sorted ss) ↔ Some P ss
Some-sorted P ss = (
  λ h.
      let (t, m, p) = Some-member P (sorted ss) h in
      Some-of_member P ss t ((member-Some t ss).0 (sym (member-sorted t ss) ∙ m)) p,
  λ h.
      let (t, m, p) = Some-member P ss h in
      Some-of_member P (sorted ss) t ((member-Some t (sorted ss)).0 (member-sorted t ss ∙ m)) p,
)
