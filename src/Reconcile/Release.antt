-- ===== src/Reconcile/Release.antt =====
-- `validate_release`: the release document that GitHub gives.
use latchway_android.Base.{
  suc, String, ◌<>◌, Bool, true, false, not, List, [], ◌∷◌, ◌&&◌, ◌||◌, ◌==◌, if◌then◌else◌, member,
  Result, ok, reject_if, ◌>>=◌, ◌>>◌,
}
use latchway_android.Json.{
  Json, bool, int, pos, Fields, end, get, as_obj, as_arr, as_str, eq_str, is_bool, is_any_bool,
}

-- What the caller expects of the release.
pub record Expected : Type 0 where
  pub tag : String
  pub title : String
  pub prerelease : Bool
  pub names : List String

-- `observed`, in the order of insertion.
abbrev pub Observed : Type 0
Observed = List (String × Fields)

unfoldable pub observed_names : Observed → List String
observed_names [] = []
observed_names ((k, _) ∷ more) = k ∷ observed_names more

-- `observed[name]`, where the name is a key.
unfoldable pub find : String → Observed → Fields
find k [] = end
find k ((j, fs) ∷ more) = if k == j then fs else find k more

-- `isinstance(value, int) and value > 0`, where `True` is the integer 1.
unfoldable pub is_positive_id : Json → Bool
is_positive_id (int (pos (suc n))) = true
is_positive_id (bool b) = b
is_positive_id _ = false

unfoldable pub validate_assets : List Json → List String → List String → Result Observed
validate_assets [] expected seen = ok []
validate_assets (raw ∷ rest) expected seen = do
  asset ← as_obj raw "Existing GitHub release has invalid asset metadata."
  name ← as_str (get "name" asset) "Existing GitHub release has invalid asset metadata."
  reject_if (member name seen) ("Existing GitHub release has duplicate asset " <> name <> ".")
  reject_if (not (member name expected))
      ("Existing GitHub release has unexpected asset " <> name <> ".")
  reject_if (not (eq_str (get "state" asset) "uploaded"))
      ("Existing GitHub release asset " <> name <> " is not fully uploaded.")
  reject_if (not (is_positive_id (get "id" asset)))
      ("Existing GitHub release asset " <> name <> " has an invalid identifier.")
  more ← validate_assets rest expected (name ∷ seen)
  ok ((name, asset) ∷ more)

unfoldable pub validate_release : Fields → Expected → Bool → Bool → Result Observed
validate_release release expected allow_draft require_immutable = do
  reject_if (not (eq_str (get "tag_name" release) expected.tag))
      "Existing GitHub release tag does not match the promoted tag."
  reject_if (not (eq_str (get "name" release) expected.title))
      "Existing GitHub release title does not match the promoted release."
  reject_if (not (is_bool expected.prerelease (get "prerelease" release)))
      "Existing GitHub release prerelease state does not match the promoted version."
  reject_if
      (not (is_any_bool (get "draft" release))
        || is_bool true (get "draft" release) && not allow_draft)
      "Existing GitHub release is not finalized."
  reject_if (require_immutable && not (is_bool true (get "immutable" release)))
      "Final GitHub release is not immutable."
  raw_assets ← as_arr (get "assets" release) "Existing GitHub release has an invalid asset list."
  validate_assets raw_assets expected.names []
