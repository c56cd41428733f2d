-- ===== src/Central/Paths.antt =====
-- The coordinates and the repository paths of a release: `expected_purls`,
-- `primary_repository_paths` and `expected_repository_paths`, with Python's order on texts.
pub mod Counts
pub mod Members
pub mod Contents
use latchway_android.Base.{
  ℕ, String, ◌<>◌, Bool, true, false, List, [], ◌∷◌, ◌++◌, map, ltb, eqb, ◌==◌, if◌then◌else◌,
  codes, member,
}

-- `left <= right` on texts is the lexicographic order of the code points.
unfoldable pub codes_leb : List ℕ → List ℕ → Bool
codes_leb [] ds = true
codes_leb (c ∷ cs) [] = false
codes_leb (c ∷ cs) (d ∷ ds) = let rest = codes_leb cs ds in if eqb c d then rest else ltb c d

unfoldable pub insert : String → List String → List String
unfolding codes_leb
insert s [] = s ∷ []
insert s (t ∷ ts) =
    let rest = insert s ts in if codes_leb (codes s) (codes t) then s ∷ t ∷ ts else t ∷ rest

-- `sorted(texts)`
unfoldable pub sorted : List String → List String
unfolding insert
sorted [] = []
sorted (s ∷ ss) = insert s (sorted ss)

-- `list(set(texts))`, in some order.
unfoldable pub deduplicated : List String → List String
unfolding member
deduplicated [] = []
deduplicated (s ∷ ss) = let rest = deduplicated ss in if member s ss then rest else s ∷ rest

unfoldable pub flat_map {ℓ} : {A : Type ℓ} → (A → List String) → List A → List String
flat_map f [] = []
flat_map f (x ∷ xs) = f x ++ flat_map f xs

-- `text[:n]`
unfoldable pub first_chars : ℕ → String → String
first_chars ℕ.zero s = String.[]
first_chars (ℕ.suc n) String.[] = String.[]
first_chars (ℕ.suc n) (String.◌∷◌ c s) = String.◌∷◌ c (first_chars n s)

abbrev pub modules : List String
modules =
    "latchway-core" ∷ "latchway-okhttp" ∷ "latchway-play-integrity" ∷ "latchway-firebase-auth"
    ∷ "latchway-bom" ∷ []

abbrev pub checksum_algorithms : List String
checksum_algorithms = "md5" ∷ "sha1" ∷ "sha256" ∷ "sha512" ∷ []

unfoldable pub expected_purls : String → String → List String
expected_purls namespace version =
    map (λ artifact. "pkg:maven/" <> namespace <> "/" <> artifact <> "@" <> version) modules

unfoldable pub extensions_of : String → List String
extensions_of artifact =
    "pom"
    ∷ "module"
    ∷ "sources.jar"
    ∷ "javadoc.jar"
    ∷ (if artifact == "latchway-bom" then [] else "aar" ∷ [])

unfoldable pub module_paths : String → String → List String
unfolding extensions_of member
module_paths version artifact =
    let prefix =
      "dev/latchway/" <> artifact <> "/" <> version <> "/" <> artifact <> "-" <> version in
    map
      (λ extension.
        prefix
        <> (if member extension ("pom" ∷ "module" ∷ "aar" ∷ []) then "." else "-")
        <> extension)
      (extensions_of artifact)

unfoldable pub primary_repository_paths : String → List String
unfolding module_paths flat_map sorted
primary_repository_paths version = sorted (flat_map (module_paths version) modules)

unfoldable pub expected_repository_paths : String → List String
unfolding primary_repository_paths flat_map sorted
expected_repository_paths version =
    let primaries = primary_repository_paths version in
    sorted (
      primaries
      ++ flat_map (λ path. map (λ algorithm. path <> "." <> algorithm) checksum_algorithms)
          primaries)
