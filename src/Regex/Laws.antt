-- ===== src/Regex/Laws.antt =====
-- `matches` decides the language that a regular expression denotes.
use latchway_android.Base.{
  ℕ, ◌≡◌, refl, ap, ◌↔◌, ◌⊎◌, inl, inr, true, List, [], ◌∷◌, ◌++◌, arith, Bool-cases,
}
use latchway_android.Regex.{
  in_class, Regex, fail, empty, chars, seq, alt, star, nullable, then_seq, or_alt, derive, matches,
}

-- The words of a starred language: each part takes at least one character.
pub data Starred (L : List ℕ → Type 0) : List ℕ → Type 0 where
  stop : Starred L []
  more : (c : ℕ) (u v w : List ℕ) → L (c ∷ u) → Starred L v → w ≡ c ∷ (u ++ v) → Starred L w

-- The language, by what it means and not by how it is matched.
abbrev pub Language : Regex → List ℕ → Type 0
Language fail w = ⊥
Language empty w = w ≡ []
Language (chars k) w = (c : ℕ) × (w ≡ c ∷ []) × (in_class k c ≡ true)
Language (seq r s) w = (u : List ℕ) × (v : List ℕ) × (w ≡ u ++ v) × Language r u × Language s v
Language (alt r s) w = Language r w ⊎ Language s w
Language (star r) w = Starred (Language r) w

nullable_sound : (r : Regex) → nullable r ≡ true → Language r []
unfolding nullable
nullable_sound fail h = cc
nullable_sound empty h = refl
nullable_sound (chars k) h = cc
nullable_sound (seq r s) h =
    ([], [], refl, nullable_sound r (ground arith), nullable_sound s (ground arith))
nullable_sound (alt r s) h = elim (Bool-cases (nullable r)) [
  | inl left ↦ inl (nullable_sound r left)
  | inr other ↦ inr (nullable_sound s (ground arith))
]
nullable_sound (star r) h = stop

nullable_complete : (r : Regex) → Language r [] → nullable r ≡ true
unfolding nullable
nullable_complete fail h = absurd h
nullable_complete empty h = refl
nullable_complete (chars k) (c, e, h) = cc
nullable_complete (seq r s) ([], [], e, a, b) =
    ground (arith, nullable_complete r a, nullable_complete s b)
nullable_complete (seq r s) ([], c ∷ v, e, a, b) = cc
nullable_complete (seq r s) (c ∷ u, v, e, a, b) = cc
nullable_complete (alt r s) (inl a) = ground (arith, nullable_complete r a)
nullable_complete (alt r s) (inr b) = ground (arith, nullable_complete s b)
nullable_complete (star r) h = refl

module _ (s : Regex) (w : List ℕ) where
  then_seq-Language : (r : Regex) → Language (then_seq r s) w ↔ Language (seq r s) w
  unfolding then_seq
  then_seq-Language fail = (λ h. absurd h, λ h. absurd h.3)
  then_seq-Language empty = (λ h. ([], w, refl, refl, h), λ h. rw h.2 (rw h.3 h.4))
  then_seq-Language (chars k) = (λ h. h, λ h. h)
  then_seq-Language _ = (λ h. h, λ h. h)

or_alt-Language : (r s : Regex) (w : List ℕ) → Language (or_alt r s) w ↔ Language (alt r s) w
unfolding or_alt
or_alt-Language fail s w = (λ h. inr h, λ h. elim h [ inl a ↦ absurd a | inr b ↦ b ])
or_alt-Language empty fail w = (λ h. inl h, λ h. elim h [ inl a ↦ a | inr b ↦ absurd b ])
or_alt-Language r fail w = (λ h. inl h, λ h. elim h [ inl a ↦ a | inr b ↦ absurd b ])
or_alt-Language r s w = (λ h. h, λ h. h)

derive_sound : (c : ℕ) (r : Regex) (w : List ℕ) → Language (derive c r) w → Language r (c ∷ w)
unfolding derive
derive_sound c fail w h = absurd h
derive_sound c empty w h = absurd h
derive_sound c (chars k) w h = elim (Bool-cases (in_class k c)) [
  | inl e ↦ (c, ap (λ v. c ∷ v) (rw e at h), e)
  | inr e ↦ absurd (rw e at h)
]
derive_sound c (seq r s) w h = elim (Bool-cases (nullable r)) [
  | inl e ↦ elim ((or_alt-Language (then_seq (derive c r) s) (derive c s) w).0 (rw e at h)) [
    | inl a ↦
        let (u, v, e', a', b) = (then_seq-Language s w (derive c r)).0 a in
        (c ∷ u, v, ap (λ t. c ∷ t) e', derive_sound c r u a', b)
    | inr b ↦ ([], c ∷ w, refl, nullable_sound r e, derive_sound c s w b)
  ]
  | inr e ↦
      let (u, v, e', a', b) = (then_seq-Language s w (derive c r)).0 (rw e at h) in
      (c ∷ u, v, ap (λ t. c ∷ t) e', derive_sound c r u a', b)
]
derive_sound c (alt r s) w h = elim ((or_alt-Language (derive c r) (derive c s) w).0 h) [
  | inl a ↦ inl (derive_sound c r w a)
  | inr b ↦ inr (derive_sound c s w b)
]
derive_sound c (star r) w h =
    let (u, v, e, a, b) = (then_seq-Language (star r) w (derive c r)).0 h in
    more c u v (c ∷ w) (derive_sound c r u a) b (ap (λ t. c ∷ t) e)

head_eq : (c d : ℕ) (v w : List ℕ) → c ∷ v ≡ d ∷ w → (c ≡ d) × (v ≡ w)
head_eq c d v w h = ground arith

derive_complete : (c : ℕ) (r : Regex) (w : List ℕ) → Language r (c ∷ w) → Language (derive c r) w
unfolding derive
derive_complete c fail w h = absurd h
derive_complete c empty w h = cc
derive_complete c (chars k) w (d, e, m) =
    let (same, rest) = head_eq c d w [] e in
    let here : in_class k c ≡ true = rw same m in rw here rest
derive_complete c (seq r s) w (d ∷ u, v, e, a, b) =
    let (same, rest) = head_eq c d w (u ++ v) e in
    let parts : Language (then_seq (derive c r) s) w =
      (then_seq-Language s w (derive c r)).1 (u, v, rest, derive_complete c r u (rw same a), b) in
    elim (Bool-cases (nullable r)) [
      | inl n ↦ rw n ((or_alt-Language (then_seq (derive c r) s) (derive c s) w).1 (inl parts))
      | inr n ↦ rw n parts
    ]
derive_complete c (seq r s) w ([], v, e, a, b) = rw (nullable_complete r a) (
    (or_alt-Language (then_seq (derive c r) s) (derive c s) w).1
      (inr (derive_complete c s w (rw e b))))
derive_complete c (alt r s) w h =
    (or_alt-Language (derive c r) (derive c s) w).1
      (elim h [ inl a ↦ inl (derive_complete c r w a) | inr b ↦ inr (derive_complete c s w b) ])
derive_complete c (star r) w (more d u v _ a b e) =
    let (same, rest) = head_eq c d w (u ++ v) e in
    (then_seq-Language (star r) w (derive c r)).1 (u, v, rest, derive_complete c r u (rw same a), b)

-- A text matches in full exactly if it belongs to the language.
pub matches_iff : (r : Regex) (w : List ℕ) → (matches r w ≡ true) ↔ Language r w
unfolding matches
matches_iff r [] = (nullable_sound r, nullable_complete r)
matches_iff r (c ∷ w) =
    let (sound, complete) = matches_iff (derive c r) w in
    (λ h. derive_sound c r w (sound h), λ h. complete (derive_complete c r w h))
