-- ===== src/Maintainer/Output.antt =====
-- `write_intent` and `append_outputs`: the files that the script leaves.
use latchway_android.Base.{
  ℕ, String, ◌<>◌, Bool, true, false, not, Option, none, some, List, [], ◌∷◌, ◌&&◌, ◌||◌,
  if◌then◌else◌, codes, has_char, Result, ok, err, rejected, reject_if, ◌>>◌,
}
use latchway_android.Central.Paths.{codes_leb}
use latchway_android.Json.{Json}
use latchway_android.Maintainer.Inputs.{Runtime}

-- The path of the intent: whether its directory can be made, what `exists`, `is_symlink` and
-- `is_file` tell, whether the temporary file can be written and moved, and the bytes that are there.
pub record Place : Type 0 where
  pub directory_made : Bool
  pub exists : Bool
  pub symlink : Bool
  pub is_file : Bool
  pub written : Bool
  pub bytes : Option (List ℕ)

unfoldable pub write_intent : Runtime → Place → Json → Result (String × Place)
write_intent host place value = do
  let payload = host.encode (host.dumps value <> "\n")
  reject_if (not place.directory_made) "maintainer_release_intent_output_invalid"
  reject_if (place.exists && (place.symlink || not place.is_file))
      "maintainer_release_intent_output_invalid"
  reject_if (not place.written) "maintainer_release_intent_output_invalid"
  ok (
    host.sha256 payload,
    record place { exists = true; symlink = false; is_file = true; bytes = some payload },
  )

-- `sorted(values)`, with the values.
unfoldable pub insert_key : String × String → List (String × String) → List (String × String)
insert_key p [] = p ∷ []
insert_key p (r ∷ more) =
    let rest = insert_key p more in
    if codes_leb (codes p.0) (codes r.0) then p ∷ r ∷ more else r ∷ rest

unfoldable pub sort_keys : List (String × String) → List (String × String)
sort_keys [] = []
sort_keys (p ∷ more) = insert_key p (sort_keys more)

-- The loop over the sorted pairs, with the text of the file so far.
unfoldable pub append_lines : List (String × String) → String → Result (Unit {0}) × String
append_lines [] text = (ok tt, text)
append_lines ((key, value) ∷ more) text =
    let rest = append_lines more (text <> key <> "=" <> value <> "\n") in
    if has_char 10 value || has_char 13 value
    then (err (rejected "maintainer_release_output_invalid"), text)
    else rest

-- `none` is a file that cannot be opened.
unfoldable pub append_outputs :
    Option String → List (String × String) → Result (Unit {0}) × Option String
append_outputs none values = (err (rejected "maintainer_release_output_invalid"), none)
append_outputs (some text) values =
    let (r, after) = append_lines (sort_keys values) text in (r, some after)
