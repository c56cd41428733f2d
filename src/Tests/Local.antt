-- ===== src/Tests/Local.antt =====
-- Two local files given in the wrong order.
use latchway_android.Base.{
  String, ◌≡◌, refl, some, List, [], ◌∷◌, true, false, ok, String-discrete, member, has_char,
}
use latchway_android.Central.Paths
use latchway_android.Disk.{FilePath}
use latchway_android.Reconcile.Client.{Asset}
use latchway_android.Reconcile.Assets
use latchway_android.Reconcile.Assets.{LocalPath, inspect_assets}
use latchway_android.Reconcile.Local.{AreSafe, inspect_assets-AreSafe}

abbrev content : FilePath
content = some (record { regular = true; symlink = false; size = 3; bytes = some (1 ∷ 2 ∷ 3 ∷ []) })

abbrev local : String → String → LocalPath
local shown name = record { shown = shown; name = name; resolved = shown; file = content }

abbrev paths : List LocalPath
paths = local "out/b.pom" "b.pom" ∷ local "out/a.aar" "a.aar" ∷ []

abbrev described : String → String → Asset
described path name = record { path = path; name = name; size = 3; sha256 = "d" }

abbrev assets : List Asset
assets = described "out/a.aar" "a.aar" ∷ described "out/b.pom" "b.pom" ∷ []

inspected : inspect_assets (λ _. "d") paths ≡ ok assets
unfolding inspect_assets Assets.inspect_paths Assets.inspect_asset Assets.hash_file
    Assets.sort_assets Assets.insert_asset Assets.unsafe_name Paths.codes_leb String-discrete member
    has_char
inspected = refl

inspect_assets-AreSafe_example : AreSafe (λ _. "d") paths assets
inspect_assets-AreSafe_example = inspect_assets-AreSafe (λ _. "d") paths assets inspected
