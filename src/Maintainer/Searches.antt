-- ===== src/Maintainer/Searches.antt =====
-- What the searches in the source and the changelog find.
use latchway_android.Base.{
  ℕ, String, ◌≡◌, refl, ap, inl, inr, Bool, true, false, List, [], ◌∷◌, ◌++◌, eqb, codes, ok,
  Result-cases, Bool-cases, arith,
}
use latchway_android.Disk.{FilePath}
use latchway_android.Regex.{Regex, empty, seq, alt, char, matches}
use latchway_android.Regex.Laws.{Language, matches_iff}
use latchway_android.Maintainer.Inputs.{Runtime, anything, regular_text, search_word, search_line}
use latchway_android.Maintainer.Lock.{
  Contract, constant_pattern, changelog_pattern, declares, verify_android_release_metadata,
}

-- A part of the text belongs to the language.
pub record Occurs (r : Regex) (w : List ℕ) : Type 0 where
  pub before : List ℕ
  pub found : List ℕ
  pub after : List ℕ
  pub parts : w ≡ before ++ (found ++ after)
  pub belongs : Language r found

Occurs-later : (r : Regex) (c : ℕ) (w : List ℕ) → Occurs r w → Occurs r (c ∷ w)
Occurs-later r c w o = record {
  before = c ∷ o.before;
  found = o.found;
  after = o.after;
  parts = ap (λ t. c ∷ t) o.parts;
  belongs = o.belongs;
}

Occurs-here : (r s : Regex) (w : List ℕ) → matches (seq r s) w ≡ true → Occurs r w
Occurs-here r s w h =
    let (u, v, e, a, b) = (matches_iff (seq r s) w).0 h in
    record { before = []; found = u; after = v; parts = e; belongs = a }

search_word-Occurs :
    (is_word : ℕ → Bool) (r : Regex) (before : Bool) (w : List ℕ)
    → search_word is_word r before w ≡ true
    → Occurs r w
unfolding search_word
search_word-Occurs is_word r before [] h = cc
search_word-Occurs is_word r before (c ∷ w) h =
    elim (Bool-cases (matches (seq r anything) (c ∷ w))) [
      | inl here ↦ Occurs-here r anything (c ∷ w) here
      | inr later ↦ Occurs-later r c w (search_word-Occurs is_word r (is_word c) w (ground arith))
    ]

search_line-Occurs :
    (r : Regex) (at_start : Bool) (w : List ℕ) → search_line r at_start w ≡ true → Occurs r w
unfolding search_line
search_line-Occurs r at_start [] h = record {
  before = [];
  found = [];
  after = [];
  parts = refl;
  belongs = (matches_iff r []).0 (ground arith);
}
search_line-Occurs r at_start (c ∷ w) h =
    let line_end = alt empty (seq (char 10) anything) in
    elim (Bool-cases (matches (seq r line_end) (c ∷ w))) [
      | inl here ↦ Occurs-here r line_end (c ∷ w) here
      | inr later ↦ Occurs-later r c w (search_line-Occurs r (eqb c 10) w (ground arith))
    ]

-- The source declares both versions as the fixed one, and the changelog has its heading.
pub record IsDeclared (host : Runtime) (files : String → FilePath) : Type 0 where
  pub source : String
  pub read_source :
      regular_text host
        (files "latchway-core/src/main/kotlin/dev/latchway/core/LatchwayApi.kt")
        "maintainer_release_local_version_invalid"
      ≡ ok source
  pub sdk : Occurs (constant_pattern "LATCHWAY_SDK_VERSION") (codes source)
  pub contract : Occurs (constant_pattern "LATCHWAY_CONTRACT_VERSION") (codes source)
  pub changelog : String
  pub read_changelog :
      regular_text host (files "CHANGELOG.md") "maintainer_release_changelog_invalid" ≡ ok changelog
  pub heading : Occurs (changelog_pattern host) (codes changelog)

declares-Occurs :
    (host : Runtime) (text name : String)
    → declares host text name ≡ true
    → Occurs (constant_pattern name) (codes text)
unfolding declares
declares-Occurs host text name h =
    search_word-Occurs host.is_word (constant_pattern name) false (codes text) h

pub metadata-IsDeclared :
    (host : Runtime) (files : String → FilePath) (contract : Contract)
    → verify_android_release_metadata host files contract ≡ ok tt
    → IsDeclared host files
unfolding verify_android_release_metadata
metadata-IsDeclared host files contract h =
    elim (Result-cases (
      regular_text host (files "latchway-core/src/main/kotlin/dev/latchway/core/LatchwayApi.kt")
        "maintainer_release_local_version_invalid")) [
          | inr (e, failed) ↦ absurd (ground arith)
          | inl (source, read) ↦
              elim (Result-cases
                (regular_text host (files "CHANGELOG.md") "maintainer_release_changelog_invalid")) [
                  | inr (e, failed) ↦ absurd (ground arith)
                  | inl (changelog, had) ↦ record {
                    source = source;
                    read_source = read;
                    sdk = declares-Occurs host source "LATCHWAY_SDK_VERSION" (ground arith);
                    contract =
                        declares-Occurs host source "LATCHWAY_CONTRACT_VERSION" (ground arith);
                    changelog = changelog;
                    read_changelog = had;
                    heading =
                        search_line-Occurs (changelog_pattern host) true (codes changelog)
                          (ground arith);
                  }
                ]
        ]
