-- ===== src/Promotion/Report/Domains/Spans.antt =====
-- The spans of the promotion domains, and where the ends of the window are reached.
use latchway_android.Base.{
  ℕ, String, ◌≡◌, refl, ◌⊎◌, inl, inr, true, List, [], ◌∷◌, ltb, arith, member, ok, Result-cases,
  String-discrete, Bool-cases,
}
use latchway_android.Promotion.Report.Domains.{
  Domains, find, check_promotion, check_promotions, earliest, latest, window_is_tight,
}

module _ (ds : Domains) (window_started window_finished : ℕ) (image : String) where
  -- The spans that the loop collects, each from its domain.
  abbrev pub Spans : List String → List (ℕ × ℕ) → Type 0
  Spans [] [] = Unit
  Spans [] (_ ∷ _) = ⊥
  Spans (_ ∷ _) [] = ⊥
  Spans (k ∷ ks) ((s, f) ∷ spans) =
      (check_promotion (find k ds) window_started window_finished image ≡ ok (s, f))
      × Spans ks spans

  pub check_promotions-Spans :
      (ks : List String) (spans : List (ℕ × ℕ))
      → check_promotions ks ds window_started window_finished image ≡ ok spans
      → Spans ks spans
  unfolding check_promotions
  check_promotions-Spans [] [] h = tt
  check_promotions-Spans [] (_ ∷ _) h = cc
  check_promotions-Spans (k ∷ ks) spans h =
      elim (Result-cases (check_promotion (find k ds) window_started window_finished image)) [
        | inl (span, one) ↦
            elim (Result-cases (check_promotions ks ds window_started window_finished image)) [
              | inl (more, rest) ↦
                  let same : spans ≡ span ∷ more = ground arith in
                  rw same (one, check_promotions-Spans ks more rest)
              | inr (e, failed) ↦ absurd (ground arith)
            ]
        | inr (e, failed) ↦ absurd (ground arith)
      ]

  -- A domain of the order with this start, or with this end.
  abbrev pub Starts : List String → ℕ → Type 0
  Starts ks n =
      (k : String) × (f : ℕ) × (member k ks ≡ true)
      × (check_promotion (find k ds) window_started window_finished image ≡ ok (n, f))

  abbrev pub Ends : List String → ℕ → Type 0
  Ends ks n =
      (k : String) × (s : ℕ) × (member k ks ≡ true)
      × (check_promotion (find k ds) window_started window_finished image ≡ ok (s, n))

  pub span_of_member :
      (ks : List String) (spans : List (ℕ × ℕ)) (k : String)
      → Spans ks spans
      → member k ks ≡ true
      → (s : ℕ) × (f : ℕ) × (check_promotion (find k ds) window_started window_finished image
          ≡ ok (s, f))
  unfolding member
  span_of_member [] [] k w m = cc
  span_of_member [] (_ ∷ _) k w m = absurd w
  span_of_member (j ∷ ks) [] k w m = absurd w
  span_of_member (j ∷ ks) ((s, f) ∷ spans) k w m = elim (String-discrete k j) [
    | yes same ↦ (s, f, rw same w.0)
    | no differ ↦ span_of_member ks spans k w.1 (ground arith)
  ]

  earliest-Starts :
      (ks : List String) (spans : List (ℕ × ℕ)) (least : ℕ)
      → Spans ks spans
      → (earliest least spans ≡ least) ⊎ Starts ks (earliest least spans)
  unfolding earliest member
  earliest-Starts [] [] least w = inl refl
  earliest-Starts [] (_ ∷ _) least w = absurd w
  earliest-Starts (j ∷ ks) [] least w = absurd w
  earliest-Starts (j ∷ ks) ((s, f) ∷ spans) least w = elim (Bool-cases (ltb s least)) [
    | inl less ↦ rw less (elim (earliest-Starts ks spans s w.1) [
      | inl same ↦ inr (j, f, ground arith, rw same w.0)
      | inr (k, g, m, e) ↦ inr (k, g, ground arith, e)
    ])
    | inr more ↦ rw more (elim (earliest-Starts ks spans least w.1) [
      | inl same ↦ inl same
      | inr (k, g, m, e) ↦ inr (k, g, ground arith, e)
    ])
  ]

  latest-Ends :
      (ks : List String) (spans : List (ℕ × ℕ)) (most : ℕ)
      → Spans ks spans
      → (latest most spans ≡ most) ⊎ Ends ks (latest most spans)
  unfolding latest member
  latest-Ends [] [] most w = inl refl
  latest-Ends [] (_ ∷ _) most w = absurd w
  latest-Ends (j ∷ ks) [] most w = absurd w
  latest-Ends (j ∷ ks) ((s, f) ∷ spans) most w = elim (Bool-cases (ltb most f)) [
    | inl greater ↦ rw greater (elim (latest-Ends ks spans f w.1) [
      | inl same ↦ inr (j, s, ground arith, rw same w.0)
      | inr (k, g, m, e) ↦ inr (k, g, ground arith, e)
    ])
    | inr fewer ↦ rw fewer (elim (latest-Ends ks spans most w.1) [
      | inl same ↦ inl same
      | inr (k, g, m, e) ↦ inr (k, g, ground arith, e)
    ])
  ]

  pub tight-Ends :
      (ks : List String) (spans : List (ℕ × ℕ))
      → Spans ks spans
      → window_is_tight spans window_started window_finished ≡ true
      → Starts ks window_started × Ends ks window_finished
  unfolding window_is_tight member
  tight-Ends [] [] w h = cc
  tight-Ends [] (_ ∷ _) w h = absurd w
  tight-Ends (j ∷ ks) [] w h = absurd w
  tight-Ends (j ∷ ks) ((s, f) ∷ spans) w h =
      let first : earliest s spans ≡ window_started = ground arith in
      let last : latest f spans ≡ window_finished = ground arith in
      (
        elim (earliest-Starts ks spans s w.1) [
          | inl same ↦ (j, f, ground arith, cc w.0)
          | inr (k, g, m, e) ↦ (k, g, ground arith, rw first at e)
        ],
        elim (latest-Ends ks spans f w.1) [
          | inl same ↦ (j, s, ground arith, cc w.0)
          | inr (k, g, m, e) ↦ (k, g, ground arith, rw last at e)
        ],
      )
