-- ===== src/Central/Paths/Counts.antt =====
-- How many files a release has.
use latchway_android.Base.{
  suc, ◌+◌, ◌*◌, String, ◌<>◌, ◌≡◌, refl, List, [], ◌∷◌, ◌++◌, map, length, String-discrete, member,
  arith,
}
use latchway_android.Central.Paths.{
  modules, checksum_algorithms, insert, sorted, flat_map, extensions_of, module_paths,
  primary_repository_paths, expected_repository_paths,
}

length-insert : (s : String) (ss : List String) → length (insert s ss) ≡ suc (length ss)
unfolding insert
length-insert s [] = refl
length-insert s (t ∷ ts) = ground (arith, length-insert s ts)

length-sorted : (ss : List String) → length (sorted ss) ≡ length ss
unfolding sorted
length-sorted [] = refl
length-sorted (s ∷ ss) = ground (arith, length-insert s (sorted ss), length-sorted ss)

length-append : (ss ts : List String) → length (ss ++ ts) ≡ length ss + length ts
length-append [] ts = omega arith
length-append (s ∷ ss) ts = ground (arith, length-append ss ts)

length-checksums :
    (paths : List String)
    → length
        (flat_map (λ path. map (λ algorithm. path <> "." <> algorithm) checksum_algorithms) paths)
      ≡ 4 * length paths
unfolding flat_map
length-checksums [] = refl
length-checksums (p ∷ paths) = ground (arith, length-checksums paths)

unsorted_count : (version : String) → length (flat_map (module_paths version) modules) ≡ 24
unfolding flat_map module_paths extensions_of String-discrete member
unsorted_count version = refl

primary_count : (version : String) → length (primary_repository_paths version) ≡ 24
unfolding primary_repository_paths
primary_count version =
    ground (arith, length-sorted (flat_map (module_paths version) modules), unsorted_count version)

-- For each version a release has 24 primary files, and 120 files with their four checksums each.
pub expected_repository_paths_lem :
    (version : String)
    → (length (primary_repository_paths version) ≡ 24)
      × (length (expected_repository_paths version) ≡ 120)
unfolding expected_repository_paths
expected_repository_paths_lem version =
    let primaries = primary_repository_paths version in
    (
      primary_count version,
      ground (
        arith,
        primary_count version,
        length-checksums primaries,
        length-append primaries (
            flat_map (λ path. map (λ algorithm. path <> "." <> algorithm) checksum_algorithms)
              primaries),
        length-sorted (
            primaries
            ++ flat_map (λ path. map (λ algorithm. path <> "." <> algorithm) checksum_algorithms)
                primaries),
      ),
    )
