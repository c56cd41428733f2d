-- ===== src/Osv/Writing.antt =====
-- What the steps of the write of the evidence leave, whether they end well or raise.
use latchway_android.Base.{
  ℕ, ◌≡◌, ◌⊎◌, refl, inl, inr, Bool, true, false, Option, none, some, List, [], Result, Error, ok,
  err, Option-cases, Bool-cases, arith,
}
use latchway_android.Osv.Evidence.{
  Target, Step, system_call, after_step, make_directory, make_temporary, write_temporary, set_mode,
  move_temporary, remove_temporary, or_remove, fill_and_move,
}

-- The path has the bytes that it had, and no temporary file is left unless it cannot be removed.
pub record IsKept (before : Target) (target : Option Target) : Type 0 where
  pub after : Target
  pub there : target ≡ some after
  pub bytes : after.bytes ≡ before.bytes
  pub cleared : (after.temporary ≡ none) ⊎ (before.removes ≡ false)

-- What the steps of the write lead to: the bytes with no temporary file, or the target as it was.
abbrev pub Ends : List ℕ → Target → Result (Unit {0}) × Target → Type 0
Ends bytes before (ok u, after) = (after.bytes ≡ some bytes) × (after.temporary ≡ none)
Ends bytes before (err e, after) =
    (after.bytes ≡ before.bytes) × ((after.temporary ≡ none) ⊎ (before.removes ≡ false))

-- The target before an exception that the body raises: only the temporary file is another.
abbrev Raises : List ℕ → Target → Result (Unit {0}) × Target → Type 0
Raises bytes before (ok u, after) = (after.bytes ≡ some bytes) × (after.temporary ≡ none)
Raises bytes before (err e, after) = (after.bytes ≡ before.bytes) × (after.removes ≡ before.removes)

fill_and_move-Raises :
    (bytes : List ℕ) (before : Target) → Raises bytes before (fill_and_move bytes before)
unfolding fill_and_move write_temporary set_mode move_temporary
fill_and_move-Raises bytes before = elim (Option-cases before.cut) [
  | inr (n, cut) ↦ rw cut (refl, refl)
  | inl whole ↦ elim (Bool-cases before.sets_mode) [
    | inr fixed ↦ rw (whole, fixed) (refl, refl)
    | inl set ↦ elim (Bool-cases before.moves) [
      | inr fixed ↦ rw (whole, set, fixed) (refl, refl)
      | inl moved ↦ rw (whole, set, moved) (refl, refl)
    ]
  ]
]

or_remove-Ends :
    (bytes : List ℕ) (before : Target) (r : Result (Unit {0})) (t : Target)
    → Raises bytes before (r, t)
    → Ends bytes before (or_remove (r, t))
unfolding remove_temporary
or_remove-Ends bytes before (ok u) t h = h
or_remove-Ends bytes before (err e) t (kept, same) = elim (Bool-cases t.removes) [
  | inl removed ↦ rw removed (kept, inl refl)
  | inr stuck ↦ rw stuck (kept, inr (ground arith))
]

step-Ends :
    (bytes : List ℕ) (before : Target) (goes : Bool) (changed t : Target) (next : Step)
    → (t.bytes ≡ before.bytes) × (t.temporary ≡ none)
    → Ends bytes before (next changed)
    → Ends bytes before (after_step (system_call goes changed t) next)
step-Ends bytes before true changed t next kept later = later
step-Ends bytes before false changed t next (kept, cleared) later = (kept, inl cleared)

pub write-Ends :
    (bytes : List ℕ) (target : Target)
    → target.temporary ≡ none
    → Ends bytes target (
        after_step
          (make_directory target)
          λ t. after_step (make_temporary t) λ t. or_remove (fill_and_move bytes t))
unfolding make_directory make_temporary
write-Ends bytes target fresh =
    let empty : Target = record target { temporary = some [] } in
    step-Ends bytes target target.makes_directory target target _ (refl, fresh)
      (step-Ends bytes target target.makes_temporary empty target _ (refl, fresh)
        (or_remove-Ends bytes target (fill_and_move bytes empty).0 (fill_and_move bytes empty).1
          (fill_and_move-Raises bytes empty)))

-- A write that ends well or raises, with what it leaves.
pub written :
    (bytes : List ℕ) (before : Target) (r : Result (Unit {0})) (after : Target)
    → Ends bytes before (r, after)
    → ((u : Unit {0}) → r ≡ ok u → (after.bytes ≡ some bytes) × (after.temporary ≡ none))
      × ((e : Error) → r ≡ err e → IsKept before (some after))
written bytes before (ok u) after h = (λ u e. h, λ e h. cc)
written bytes before (err x) after h =
    (λ u e. cc, λ e same. record { after = after; there = refl; bytes = h.0; cleared = h.1 })
