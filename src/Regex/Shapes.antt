-- ===== src/Regex/Shapes.antt =====
-- What the common shapes of pattern accept: so many characters of a class, and a fixed text.
use latchway_android.Base.{
  ℕ, zero, suc, String, ◌≡◌, refl, ap, ◌↔◌, true, List, [], ◌∷◌, arith, codes, length, all,
}
use latchway_android.Regex.{CharClass, in_class, chars, repeated, fullmatch}
use latchway_android.Regex.Laws.{Language, matches_iff}

repeated_sound :
    (n : ℕ) (k : CharClass) (w : List ℕ)
    → Language (repeated n (chars k)) w
    → (length w ≡ n) × (all (in_class k) w ≡ true)
repeated_sound zero k w h = rw h (refl, refl)
repeated_sound (suc n) k w (u, v, e, (c, one, m), b) =
    let (size, every) = repeated_sound n k v b in rw (e, one) (ap suc size, ground arith)

repeated_complete :
    (n : ℕ) (k : CharClass) (w : List ℕ)
    → length w ≡ n
    → all (in_class k) w ≡ true
    → Language (repeated n (chars k)) w
repeated_complete zero k [] size every = refl
repeated_complete zero k (c ∷ w) size every = absurd (omega arith)
repeated_complete (suc n) k [] size every = absurd (omega arith)
repeated_complete (suc n) k (c ∷ w) size every =
    (c ∷ [], w, refl, (c, refl, ground arith), repeated_complete n k w (omega arith) (ground arith))

-- `[class]{n}` accepts exactly the texts of `n` characters of the class.
pub fullmatch-repeated :
    (n : ℕ) (k : CharClass) (text : String)
    → (fullmatch (repeated n (chars k)) text ≡ true)
      ↔ (length (codes text) ≡ n) × (all (in_class k) (codes text) ≡ true)
unfolding fullmatch
fullmatch-repeated n k text =
    let (sound, complete) = matches_iff (repeated n (chars k)) (codes text) in
    (
      λ h. repeated_sound n k (codes text) (sound h),
      λ h. complete (repeated_complete n k (codes text) h.0 h.1),
    )
