-- ===== src/Central/Listing.antt =====
-- `select_deployment`: the one deployment with the intent's name in a Portal listing.
use latchway_android.Base.{
  String, Bool, false, not, List, [], ◌∷◌, ◌||◌, length, member, Result, ok, err, rejected,
  reject_if, ◌>>=◌, ◌>>◌, if◌then◌else◌, ltb,
}
use latchway_android.Disk.{FilePath}
use latchway_android.Regex.{fullmatch}
use latchway_android.Json.{
  pos, Json, int, Fields, keys, get_last, keys_are, as_obj, as_arr, as_str, eq_str, is_int, eq_num,
}
use latchway_android.Central.Inputs.{Runtime, uuid_pattern, decode_json}
use latchway_android.Central.Intents.{load_intent}
use latchway_android.Central.Records.{lower}

-- `row.get(key, row.get(other))`
unfoldable pub get_either : String → String → Fields → Json
get_either key other row = if member key (keys row) then get_last key row else get_last other row

-- `value >= 1` of an integer.
unfoldable pub is_positive : Json → Bool
is_positive (int (pos n)) = ltb 0 n
is_positive _ = false

-- `matching.add(…)`
unfoldable pub add : String → List String → List String
add s ss = if member s ss then ss else s ∷ ss

-- The identifier of a row with the name.
unfoldable pub valid_id : Fields → Result String
valid_id row = do
  id ← as_str (get_either "deploymentId" "id" row) "matching Portal deployment has an invalid ID"
  reject_if (not (fullmatch uuid_pattern id)) "matching Portal deployment has an invalid ID"
  ok id

abbrev the_id : Fields → Result (List String)
the_id row = valid_id row >>= λ id. ok (lower id ∷ [])

-- A row's identifier: none for a row of another name.
unfoldable pub row_id : String → Json → Result (List String)
row_id name value = do
  row ← as_obj value "Portal deployment listing contains a non-object row"
  (if eq_str (get_either "deploymentName" "name" row) name then the_id row else ok [])

unfoldable pub add_all : List String → List String → List String
add_all [] ss = ss
add_all (s ∷ more) ss = add_all more (add s ss)

-- The loop over the rows, with the set of identifiers so far.
unfoldable pub matching_ids : String → List String → List Json → Result (List String)
matching_ids name matching [] = ok matching
matching_ids name matching (value ∷ rows) = do
  ids ← row_id name value
  matching_ids name (add_all ids matching) rows

-- `next(iter(matching), "")`, unless there are two.
unfoldable pub the_match : List String → Result String
the_match [] = ok ""
the_match (s ∷ []) = ok s
the_match _ =
    err (rejected "Portal contains multiple deployments with the exact deterministic name")

unfoldable pub listing_rows : Json → Result (List Json)
listing_rows value = do
  raw ← as_obj value "Portal deployment listing schema is unreviewed"
  reject_if
      (not (
        keys_are raw ("deployments" ∷ "page" ∷ "pageSize" ∷ "pageCount" ∷ "totalResultCount" ∷ [])))
      "Portal deployment listing schema is unreviewed"
  rows ← as_arr (get_last "deployments" raw) "Portal deployment listing pagination is invalid"
  reject_if
      (not (is_int (get_last "page" raw))
        || not (is_int (get_last "pageSize" raw))
        || not (is_int (get_last "pageCount" raw))
        || not (is_int (get_last "totalResultCount" raw)))
      "Portal deployment listing pagination is invalid"
  reject_if
      (not (eq_num (get_last "page" raw) 0)
        || not (is_positive (get_last "pageSize" raw))
        || not (eq_num (get_last "pageCount" raw) 0 || eq_num (get_last "pageCount" raw) 1))
      "Portal deployment listing is incomplete or unexpectedly paginated"
  reject_if (not (eq_num (get_last "totalResultCount" raw) (length rows)))
      "Portal deployment listing result count is inconsistent"
  ok rows

unfoldable pub select_deployment : Runtime → FilePath → FilePath → Result String
select_deployment host intent_path listing_path = do
  intent ← load_intent host intent_path
  value ← decode_json host listing_path "Portal deployment listing is invalid JSON"
  rows ← listing_rows value
  matching ← matching_ids intent.deployment_name [] rows
  the_match matching
