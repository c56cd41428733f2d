-- ===== src/Central/Paths/Contents.antt =====
-- Which files a release has.
use latchway_android.Base.{
  String, ◌<>◌, ◌≡◌, ◌↔◌, ◌⊎◌, inl, inr, true, List, [], ◌∷◌, ◌++◌, map, length, String-discrete,
  member,
}
use latchway_android.Central.Paths.{
  modules, checksum_algorithms, flat_map, extensions_of, module_paths, primary_repository_paths,
  expected_repository_paths,
}
use latchway_android.Central.Paths.Counts.{expected_repository_paths_lem}
use latchway_android.Central.Paths.Members.{
  Some, Some-append-to, Some-append-of, Some-flat_map-to, Some-flat_map-of, Some-either-to,
  Some-either-of, member-Some, Some-sorted,
}

-- The modules with the ends of the names of their files: the bill of materials has no archive.
abbrev pub release_modules : List (String × List String)
release_modules =
    ("latchway-core", ".pom" ∷ ".module" ∷ "-sources.jar" ∷ "-javadoc.jar" ∷ ".aar" ∷ [])
    ∷ ("latchway-okhttp", ".pom" ∷ ".module" ∷ "-sources.jar" ∷ "-javadoc.jar" ∷ ".aar" ∷ [])
    ∷ (
      "latchway-play-integrity",
      ".pom" ∷ ".module" ∷ "-sources.jar" ∷ "-javadoc.jar" ∷ ".aar" ∷ [],
    )
    ∷ ("latchway-firebase-auth", ".pom" ∷ ".module" ∷ "-sources.jar" ∷ "-javadoc.jar" ∷ ".aar" ∷ [])
    ∷ ("latchway-bom", ".pom" ∷ ".module" ∷ "-sources.jar" ∷ "-javadoc.jar" ∷ [])
    ∷ []

-- The start of the names of the files of a module.
abbrev pub base : String → String → String
base version artifact =
    "dev/latchway/" <> artifact <> "/" <> version <> "/" <> artifact <> "-" <> version

-- `P` holds of one of the files of a release.
abbrev pub SomeFile : (String → Type 0) → String → Type 0
SomeFile P version = Some (λ m. Some (λ tail. P (base version m.0 <> tail)) m.1) release_modules

-- The path is the file or one of its four checksums.
abbrev pub IsFileOrChecksum : String → String → Type 0
IsFileOrChecksum path file =
    (path ≡ file)
    ⊎ Some (λ tail. path ≡ file <> tail) (".md5" ∷ ".sha1" ∷ ".sha256" ∷ ".sha512" ∷ [])

unsorted-SomeFile :
    (P : String → Type 0) (version : String)
    → Some (λ artifact. Some P (module_paths version artifact)) modules ↔ SomeFile P version
unfolding module_paths extensions_of String-discrete member
unsorted-SomeFile P version = (λ h. h, λ h. h)

primary-SomeFile :
    (P : String → Type 0) (version : String)
    → Some P (primary_repository_paths version) ↔ SomeFile P version
unfolding primary_repository_paths
primary-SomeFile P version =
    let all = flat_map (module_paths version) modules in
    (
      λ h.
          (unsorted-SomeFile P version).0
            (Some-flat_map-to P (module_paths version) modules ((Some-sorted P all).0 h)),
      λ h.
          (Some-sorted P all).1
            (Some-flat_map-of P (module_paths version) modules ((unsorted-SomeFile P version).1 h)),
    )

expected-Some :
    (path version : String)
    → Some (λ t. path ≡ t) (expected_repository_paths version)
      ↔ Some (IsFileOrChecksum path) (primary_repository_paths version)
unfolding expected_repository_paths
expected-Some path version =
    let files = primary_repository_paths version in
    let with_checksums : String → List String =
      λ file. map (λ algorithm. file <> "." <> algorithm) checksum_algorithms in
    let others = flat_map with_checksums files in
    let P : String → Type 0 = λ t. path ≡ t in
    let Q : String → Type 0 =
      λ file. Some (λ tail. path ≡ file <> tail) (".md5" ∷ ".sha1" ∷ ".sha256" ∷ ".sha512" ∷ []) in
    (
      λ h. elim (Some-append-to P files others ((Some-sorted P (files ++ others)).0 h)) [
        | inl own ↦ Some-either-to P Q files (inl own)
        | inr checksum ↦
            Some-either-to P Q files (inr (Some-flat_map-to P with_checksums files checksum))
      ],
      λ h. (Some-sorted P (files ++ others)).1 (
          Some-append-of P files others (elim (Some-either-of P Q files h) [
            | inl own ↦ inl own
            | inr checksum ↦ inr (Some-flat_map-of P with_checksums files checksum)
          ])),
    )

-- For each version a path is a primary path exactly if it is the descriptor, the metadata, the
-- sources, the documentation or the archive of one of the five modules, where the bill of materials
-- has no archive; it is an expected path exactly if it is such a file or that file with the ending
-- of one of the four checksums; and the lists have 24 and 120 paths.
pub expected_repository_paths_iff :
    (version path : String)
    → ((member path (primary_repository_paths version) ≡ true)
        ↔ SomeFile (λ file. path ≡ file) version)
      × ((member path (expected_repository_paths version) ≡ true)
          ↔ SomeFile (IsFileOrChecksum path) version)
      × (length (primary_repository_paths version) ≡ 24)
      × (length (expected_repository_paths version) ≡ 120)
expected_repository_paths_iff version path =
    let one = member-Some path (primary_repository_paths version) in
    let each = primary-SomeFile (λ file. path ≡ file) version in
    let listed = member-Some path (expected_repository_paths version) in
    let split = expected-Some path version in
    let whole = primary-SomeFile (IsFileOrChecksum path) version in
    let counts = expected_repository_paths_lem version in
    (
      (λ h. each.0 (one.0 h), λ h. one.1 (each.1 h)),
      (λ h. whole.0 (split.0 (listed.0 h)), λ h. listed.1 (split.1 (whole.1 h))),
      counts.0,
      counts.1,
    )
