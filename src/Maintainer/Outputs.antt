-- ===== src/Maintainer/Outputs.antt =====
-- The lines that a successful run appends.
use latchway_android.Base.{
  ℕ, String, ◌<>◌, ◌≡◌, refl, true, false, some, List, [], ◌∷◌, all, codes, has_char, ok, arith,
  ◌||◌,
}
use latchway_android.Regex.{CharClass, in_class, chars, repeated, fullmatch}
use latchway_android.Regex.Shapes.{fullmatch-repeated}
use latchway_android.Central.Paths
use latchway_android.Maintainer.Constants.{commit_id, release_tag, version}
use latchway_android.Maintainer.Inputs.{Runtime}
use latchway_android.Maintainer.Output.{Place, insert_key, sort_keys, append_lines, append_outputs}
use latchway_android.Maintainer.Request.{Arguments, Checkout, Verified, verify, run_script}
use latchway_android.Maintainer.Soundness.{verify-IsRequested}

no_char :
    (k : CharClass) (c : ℕ) (s : String)
    → in_class k c ≡ false
    → all (in_class k) (codes s) ≡ true
    → has_char c s ≡ false
unfolding has_char
no_char k c String.[] out every = refl
no_char k c (String.◌∷◌ d s) out every = ground (arith, no_char k c s)

commit_no_char :
    (n : ℕ) (k : CharClass) (c : ℕ) (s : String)
    → in_class k c ≡ false
    → fullmatch (repeated n (chars k)) s ≡ true
    → has_char c s ≡ false
commit_no_char n k c s out h = no_char k c s out ((fullmatch-repeated n k s).0 h).1

-- A text of lower-case hexadecimal digits holds no line break.
commit_one_line :
    (s : String) → fullmatch commit_id s ≡ true → (has_char 10 s || has_char 13 s) ≡ false
unfolding commit_id in_class
commit_one_line s h =
    ground (arith, commit_no_char 40 _ 10 s refl h, commit_no_char 40 _ 13 s refl h)

-- The text with one line for each pair at its end, in the order of the pairs.
abbrev pub with_lines : String → List (String × String) → String
with_lines text [] = text
with_lines text ((key, value) ∷ more) = with_lines (text <> key <> "=" <> value <> "\n") more

abbrev output_pairs : String → String → String → List (String × String)
output_pairs commit core_commit digest =
    ("commit", commit)
    ∷ ("core_commit", core_commit)
    ∷ ("core_tag", release_tag)
    ∷ ("intent_sha256", digest)
    ∷ ("tag", release_tag)
    ∷ ("version", version)
    ∷ []

append_all :
    (text commit core_commit digest : String)
    → (has_char 10 commit || has_char 13 commit) ≡ false
    → (has_char 10 core_commit || has_char 13 core_commit) ≡ false
    → (has_char 10 digest || has_char 13 digest) ≡ false
    → append_outputs (some text) (output_pairs commit core_commit digest)
      ≡ (ok tt, some (with_lines text (output_pairs commit core_commit digest)))
unfolding append_outputs append_lines sort_keys insert_key Paths.codes_leb has_char
append_all text commit core_commit digest a b c = rw (a, b, c) refl

-- A request that is accepted always reaches its end when the file of the outputs can be opened: no
-- output holds a line break, as no digest does, and each output is one line at the end of the file,
-- in the order of the keys.
pub run_script-with_lines :
    (host : Runtime) (checkout : Checkout) (a : Arguments) (place : Place) (text : String)
    (v : Verified)
    → ((bytes : List ℕ)
        → (has_char 10 (host.sha256 bytes) || has_char 13 (host.sha256 bytes)) ≡ false)
    → verify host checkout a place ≡ ok v
    → run_script host checkout a place (some (some text))
      ≡ (ok v, some (some (with_lines text v.outputs)))
unfolding run_script
run_script-with_lines host checkout a place text v one_line h =
    let r = verify-IsRequested host checkout a place v h in
    let appended =
      append_all text a.release_commit r.contract.core_commit (host.sha256 r.payload)
        (commit_one_line a.release_commit r.dispatch.commit_shape)
        (commit_one_line r.contract.core_commit r.lock.lock.commit_shape) (one_line r.payload) in
    rw (h, r.outputs, appended) refl
