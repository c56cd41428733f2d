-- ===== src/Central/Selection.antt =====
-- What `select_deployment` says of the rows of a listing.
use latchway_android.Base.{
  String, ◌≡◌, refl, ◌⊎◌, inl, inr, true, false, List, [], ◌∷◌, All, member, ok, Result-cases,
  Bool-cases, arith,
}
use latchway_android.Disk.{FilePath}
use latchway_android.Regex.{fullmatch}
use latchway_android.Json.{Json, str, obj, Fields, eq_str}
use latchway_android.Json.Laws.{as_obj_cases, as_str_cases}
use latchway_android.Central.Inputs.{Runtime, uuid_pattern, decode_json}
use latchway_android.Central.Intents.{Intent, load_intent}
use latchway_android.Central.Records.{lower}
use latchway_android.Central.Listing.{
  get_either, add, valid_id, row_id, add_all, matching_ids, the_match, listing_rows,
  select_deployment,
}

-- The row is an object with another name.
pub record IsOther (name : String) (value : Json) : Type 0 where
  pub row : Fields
  pub is_row : value ≡ obj row
  pub differs : eq_str (get_either "deploymentName" "name" row) name ≡ false

-- The row is an object with the name, and its identifier is a UUID whose lower case is `id`.
pub record IsNamed (name : String) (id : String) (value : Json) : Type 0 where
  pub row : Fields
  pub is_row : value ≡ obj row
  pub named : eq_str (get_either "deploymentName" "name" row) name ≡ true
  pub found : String
  pub at : get_either "deploymentId" "id" row ≡ str found
  pub uuid : fullmatch uuid_pattern found ≡ true
  pub lowered : lower found ≡ id

abbrev pub Some : (Json → Type 0) → List Json → Type 0
Some P [] = ⊥
Some P (v ∷ vs) = P v ⊎ Some P vs

-- The identifier is that of all rows with the name, of which there is one; with no such row it is
-- the empty text.
abbrev pub IsSelected : String → List Json → String → Type 0
IsSelected name rows id =
    ((id ≡ "") × All (IsOther name) rows)
    ⊎ (Some (IsNamed name id) rows × All (λ v. IsOther name v ⊎ IsNamed name id v) rows)

abbrev Fits : String → List String → Json → Type 0
Fits name out v = IsOther name v ⊎ ((id : String) × (member id out ≡ true) × IsNamed name id v)

valid_id_cases :
    (row : Fields) (id : String)
    → valid_id row ≡ ok id
    → (get_either "deploymentId" "id" row ≡ str id) × (fullmatch uuid_pattern id ≡ true)
unfolding valid_id
valid_id_cases row id h =
    elim (as_str_cases (get_either "deploymentId" "id" row)
      "matching Portal deployment has an invalid ID") [
        | inl (s, e) ↦ (ground arith, ground arith)
        | inr failed ↦ absurd (ground arith)
      ]

row_id_cases :
    (name : String) (v : Json) (ids : List String)
    → row_id name v ≡ ok ids
    → ((ids ≡ []) × IsOther name v) ⊎ ((id : String) × (ids ≡ id ∷ []) × IsNamed name id v)
unfolding row_id
row_id_cases name v ids h =
    elim (as_obj_cases v "Portal deployment listing contains a non-object row") [
      | inr failed ↦ absurd (ground arith)
      | inl (row, e) ↦ elim (Bool-cases (eq_str (get_either "deploymentName" "name" row) name)) [
        | inr differs ↦ inl (ground arith, record { row = row; is_row = e; differs = differs })
        | inl named ↦ elim (Result-cases (valid_id row)) [
          | inl (found, valid) ↦
              let parts = valid_id_cases row found valid in
              inr (
                lower found,
                ground arith,
                record {
                  row = row;
                  is_row = e;
                  named = named;
                  found = found;
                  at = parts.0;
                  uuid = parts.1;
                  lowered = refl;
                },
              )
          | inr (code, failed) ↦ absurd (ground arith)
        ]
      ]
    ]

add-keeps : (s t : String) (ss : List String) → member t ss ≡ true → member t (add s ss) ≡ true
unfolding add member
add-keeps s t ss h = ground arith

add-has : (s : String) (ss : List String) → member s (add s ss) ≡ true
unfolding add member
add-has s ss = ground arith

add-only :
    (s t : String) (ss : List String) → member t (add s ss) ≡ true → (t ≡ s) ⊎ (member t ss ≡ true)
unfolding add member
add-only s t ss h = ground arith

matching_ids-keeps :
    (name : String) (m : List String) (rows : List Json) (out : List String)
    → matching_ids name m rows ≡ ok out
    → (t : String) → member t m ≡ true
    → member t out ≡ true
unfolding matching_ids add_all
matching_ids-keeps name m [] out h t i = ground arith
matching_ids-keeps name m (v ∷ rows) out h t i = elim (Result-cases (row_id name v)) [
  | inr (code, failed) ↦ absurd (ground arith)
  | inl (ids, one) ↦ elim (row_id_cases name v ids one) [
    | inl (none_added, other) ↦ matching_ids-keeps name m rows out (ground arith) t i
    | inr (id, added, named) ↦
        matching_ids-keeps name (add id m) rows out (ground arith) t (add-keeps id t m i)
  ]
]

matching_ids-Fits :
    (name : String) (m : List String) (rows : List Json) (out : List String)
    → matching_ids name m rows ≡ ok out
    → All (Fits name out) rows
unfolding matching_ids add_all
matching_ids-Fits name m [] out h = tt
matching_ids-Fits name m (v ∷ rows) out h = elim (Result-cases (row_id name v)) [
  | inr (code, failed) ↦ absurd (ground arith)
  | inl (ids, one) ↦ elim (row_id_cases name v ids one) [
    | inl (none_added, other) ↦ (inl other, matching_ids-Fits name m rows out (ground arith))
    | inr (id, added, named) ↦
        let rest : matching_ids name (add id m) rows ≡ ok out = ground arith in
        (
          inr (id, matching_ids-keeps name (add id m) rows out rest id (add-has id m), named),
          matching_ids-Fits name (add id m) rows out rest,
        )
  ]
]

-- Each identifier found comes from a row, or was there before.
matching_ids-Some :
    (name : String) (m : List String) (rows : List Json) (out : List String)
    → matching_ids name m rows ≡ ok out
    → (t : String) → member t out ≡ true
    → (member t m ≡ true) ⊎ Some (IsNamed name t) rows
unfolding matching_ids add_all
matching_ids-Some name m [] out h t i = inl (ground arith)
matching_ids-Some name m (v ∷ rows) out h t i = elim (Result-cases (row_id name v)) [
  | inr (code, failed) ↦ absurd (ground arith)
  | inl (ids, one) ↦ elim (row_id_cases name v ids one) [
    | inl (none_added, other) ↦ elim (matching_ids-Some name m rows out (ground arith) t i) [
      | inl before ↦ inl before
      | inr later ↦ inr (inr later)
    ]
    | inr (id, added, named) ↦
        elim (matching_ids-Some name (add id m) rows out (ground arith) t i) [
          | inr later ↦ inr (inr later)
          | inl before ↦ elim (add-only id t m before) [
            | inl same ↦ inr (inl (rw same named))
            | inr earlier ↦ inl earlier
          ]
        ]
  ]
]

none_fit : (name : String) (rows : List Json) → All (Fits name []) rows → All (IsOther name) rows
unfolding member
none_fit name [] h = tt
none_fit name (v ∷ rows) (inl other, more) = (other, none_fit name rows more)
none_fit name (v ∷ rows) (inr (id, i, named), more) = cc

one-Fits :
    (name id : String) (rows : List Json)
    → All (Fits name (id ∷ [])) rows
    → All (λ v. IsOther name v ⊎ IsNamed name id v) rows
unfolding member
one-Fits name id [] h = tt
one-Fits name id (v ∷ rows) (inl other, more) = (inl other, one-Fits name id rows more)
one-Fits name id (v ∷ rows) (inr (found, i, named), more) =
    let same : found ≡ id = ground arith in (inr (rw same at named), one-Fits name id rows more)

the_match-IsSelected :
    (name : String) (rows : List Json) (out : List String) (id : String)
    → matching_ids name [] rows ≡ ok out
    → the_match out ≡ ok id
    → IsSelected name rows id
unfolding the_match member
the_match-IsSelected name rows [] id found h =
    inl (ground arith, none_fit name rows (matching_ids-Fits name [] rows [] found))
the_match-IsSelected name rows (s ∷ []) id found h =
    let same : s ≡ id = ground arith in
    let once : matching_ids name [] rows ≡ ok (id ∷ []) = rw same at found in
    elim (matching_ids-Some name [] rows (id ∷ []) once id (ground arith)) [
      | inl before ↦ cc
      | inr some_row ↦
          inr (some_row, one-Fits name id rows (matching_ids-Fits name [] rows (id ∷ []) once))
    ]
the_match-IsSelected name rows (s ∷ t ∷ more) id found h = cc

-- A selection that succeeds has a valid intent and a complete listing, and gives the lower-case
-- identifier that all rows with the intent's deployment name share, or the empty text when no row
-- has that name.
pub select_deployment-IsSelected :
    (host : Runtime) (intent_path listing_path : FilePath) (id : String)
    → select_deployment host intent_path listing_path ≡ ok id
    → (intent : Intent) × (value : Json) × (rows : List Json) × (load_intent host intent_path
        ≡ ok intent)
      × (decode_json host listing_path "Portal deployment listing is invalid JSON" ≡ ok value)
      × (listing_rows value ≡ ok rows)
      × IsSelected intent.deployment_name rows id
unfolding select_deployment
select_deployment-IsSelected host intent_path listing_path id h =
    elim (Result-cases (load_intent host intent_path)) [
      | inr (code, failed) ↦ absurd (ground arith)
      | inl (intent, loaded) ↦
          elim (Result-cases
            (decode_json host listing_path "Portal deployment listing is invalid JSON")) [
              | inr (code, failed) ↦ absurd (ground arith)
              | inl (value, decoded) ↦ elim (Result-cases (listing_rows value)) [
                | inr (code, failed) ↦ absurd (ground arith)
                | inl (rows, listed) ↦
                    elim (Result-cases (matching_ids intent.deployment_name [] rows)) [
                      | inr (code, failed) ↦ absurd (ground arith)
                      | inl (out, found) ↦ (
                        intent,
                        value,
                        rows,
                        loaded,
                        decoded,
                        listed,
                        the_match-IsSelected intent.deployment_name rows out id found
                            (ground arith),
                      )
                    ]
              ]
            ]
    ]
