-- ===== src/Central/Complete.antt =====
-- What the last step of a publication has shown, and what `write_no_clobber` leaves.
use latchway_android.Base.{
  ℕ, String, ◌≡◌, refl, sym, ap, ◌∙◌, String-discrete, inl, inr, true, List, [], ◌∷◌, some,
  Option-cases, ok, Result-cases, Bool-cases, ==_iff, arith, member,
}
use latchway_android.Disk.{FilePath}
use latchway_android.Regex.{fullmatch}
use latchway_android.Json.{Json, str, obj, Fields, field, end, get_last, eq_str, as_arr}
use latchway_android.Json.Laws.{eq_str_iff}
use latchway_android.Central.Paths.{sorted, expected_purls}
use latchway_android.Central.Archives.{same_list}
use latchway_android.Central.Inputs.{
  Runtime, sha256_hash, same_value, check_fields, sha256_file, load_json, read_bytes,
  canonical_bytes, regular_file, maximum_json_bytes,
}
use latchway_android.Central.Intents.{Intent, load_intent}
use latchway_android.Central.Records.{DeploymentRecord, validate_record}
use latchway_android.Central.Statuses.{
  Normalized, complete_states, read_state, sorted_purls, validate_normalized_status,
}
use latchway_android.Central.Commands.{Output, same_bytes, write_no_clobber, validate_complete}

same_list-eq : (ss ts : List String) → same_list ss ts ≡ true → ss ≡ ts
unfolding same_list
same_list-eq [] [] h = refl
same_list-eq [] (t ∷ ts) h = cc
same_list-eq (s ∷ ss) [] h = cc
same_list-eq (s ∷ ss) (t ∷ ts) h =
    let first : s ≡ t = ground (arith, ==_iff s t) in
    let rest : ss ≡ ts = same_list-eq ss ts (ground arith) in cc

same_bytes-eq : (bs cs : List ℕ) → same_bytes bs cs ≡ true → bs ≡ cs
unfolding same_bytes
same_bytes-eq [] [] h = refl
same_bytes-eq [] (c ∷ cs) h = cc
same_bytes-eq (b ∷ bs) [] h = cc
same_bytes-eq (b ∷ bs) (c ∷ cs) h =
    let first : b ≡ c = ground arith in
    let rest : bs ≡ cs = same_bytes-eq bs cs (ground arith) in cc

-- The status binds the intent and the record that it is given with.
pub record IsBound (intent_sha256 record_sha256 : String) (intent : Intent)
    (deployment : DeploymentRecord) (fs : Fields) : Type 0 where
  pub intent_bound : get_last "intent_sha256" fs ≡ str intent_sha256
  pub record_bound : get_last "record_sha256" fs ≡ str record_sha256
  pub same_kind : same_value (get_last "record_kind" fs) deployment.kind ≡ true
  pub same_id : same_value (get_last "deployment_id" fs) deployment.deployment_id ≡ true
  pub same_name : get_last "deployment_name" fs ≡ str intent.deployment_name

check_one :
    (before after k : String) (v : Json) (more fs : Fields)
    → check_fields before after (field k v more) fs ≡ ok tt
    → (same_value (get_last k fs) v ≡ true) × (check_fields before after more fs ≡ ok tt)
unfolding check_fields
check_one before after k v more fs h = (ground arith, ground arith)

same_str : (v : Json) (s : String) → same_value v (str s) ≡ true → v ≡ str s
unfolding same_value
same_str v s h = (eq_str_iff v s).0 h

-- The complete publication: a status of the intent and the record, PUBLISHED with every
-- coordinate, and for an adopted publication the given public manifest.
pub record IsComplete (host : Runtime) (intent_path record_path status_path : FilePath)
    (manifest : String) (result : Normalized) : Type 0 where
  pub intent : Intent
  pub loaded : load_intent host intent_path ≡ ok intent
  pub deployment : DeploymentRecord
  pub recorded : validate_record host intent_path record_path ≡ ok deployment
  pub status : Fields
  pub read : load_json host status_path ≡ ok status
  pub intent_sha256 : String
  pub intent_hashed : sha256_file host intent_path ≡ ok intent_sha256
  pub record_sha256 : String
  pub record_hashed : sha256_file host record_path ≡ ok record_sha256
  pub bound : IsBound intent_sha256 record_sha256 intent deployment status
  pub published : get_last "deployment_state" status ≡ str "PUBLISHED"
  pub every_purl : result.purls ≡ sorted (expected_purls intent.namespace intent.version)
  pub adopted :
      eq_str result.kind "public_registry_adoption" ≡ true
      → (result.manifest ≡ str manifest) × (fullmatch sha256_hash manifest ≡ true)

check_binding :
    (intent_sha256 record_sha256 : String) (intent : Intent) (d : DeploymentRecord) (fs : Fields)
    → check_fields "deployment status " " binding is invalid"
        (field "intent_sha256" (str intent_sha256) (
          field "record_sha256" (str record_sha256) (
            field "record_kind" d.kind (
              field "deployment_id" d.deployment_id
                (field "deployment_name" (str intent.deployment_name) end)))))
        fs
      ≡ ok tt
    → IsBound intent_sha256 record_sha256 intent d fs
check_binding i r intent d fs h =
    let (a, h1) = check_one _ _ "intent_sha256" _ _ fs h in
    let (b, h2) = check_one _ _ "record_sha256" _ _ fs h1 in
    let (c, h3) = check_one _ _ "record_kind" _ _ fs h2 in
    let (e, h4) = check_one _ _ "deployment_id" _ _ fs h3 in
    let (g, h5) = check_one _ _ "deployment_name" _ _ fs h4 in
    record {
      intent_bound = same_str _ i a;
      record_bound = same_str _ r b;
      same_kind = c;
      same_id = e;
      same_name = same_str _ intent.deployment_name g;
    }

read_state-eq : (v : Json) (code s : String) → read_state v code ≡ ok s → v ≡ str s
unfolding read_state
read_state-eq (str t) code s h = ground arith
read_state-eq _ code s h = cc

-- What `write_no_clobber` accepts is a file with the value's canonical bytes, and an output that
-- existed is left as it was.
pub write_no_clobber-keeps :
    (host : Runtime) (before after : Output) (value : Fields)
    → write_no_clobber host before value ≡ ok after
    → (read_bytes after.file ≡ ok (canonical_bytes host (obj value)))
      × ((before.exists ≡ true) → after ≡ before)
unfolding write_no_clobber read_bytes
write_no_clobber-keeps host before after value h = elim (Bool-cases before.exists) [
  | inl exists ↦ elim (Result-cases (regular_file (some maximum_json_bytes) before.file)) [
    | inr (code, failed) ↦ absurd (ground arith)
    | inl (file, regular) ↦ elim (Result-cases (read_bytes before.file)) [
      | inr (code, failed) ↦ absurd (ground arith)
      | inl (bytes, read) ↦
          let same : bytes ≡ canonical_bytes host (obj value) =
            same_bytes-eq bytes _ (ground arith) in
          let kept : before ≡ after = ground arith in (rw kept at (rw same at read), λ _. sym kept)
    ]
  ]
  | inr absent ↦ elim (Option-cases before.file) [
    | inl free ↦ (ground arith, λ exists. cc)
    | inr (file, taken) ↦ absurd (ground arith)
  ]
]

-- The values that an accepted status is made of.
record Parts (host : Runtime) (intent_path record_path status_path : FilePath) (result : Normalized)
    : Type 0 where
  intent : Intent
  loaded : load_intent host intent_path ≡ ok intent
  deployment : DeploymentRecord
  recorded : validate_record host intent_path record_path ≡ ok deployment
  status : Fields
  read : load_json host status_path ≡ ok status
  intent_sha256 : String
  intent_hashed : sha256_file host intent_path ≡ ok intent_sha256
  record_sha256 : String
  record_hashed : sha256_file host record_path ≡ ok record_sha256
  bound : IsBound intent_sha256 record_sha256 intent deployment status
  same_state : get_last "deployment_state" status ≡ str result.state
  every_purl :
      member result.state complete_states ≡ true
      → result.purls ≡ sorted (expected_purls intent.namespace intent.version)
  kind : result.kind ≡ get_last "record_kind" status
  manifest : result.manifest ≡ get_last "public_manifest_sha256" status

module _ (host : Runtime) (intent_path record_path status_path : FilePath) (result : Normalized)
    (intent : Intent) (deployment : DeploymentRecord) (status : Fields)
    (intent_sha256 record_sha256 : String) (loaded : load_intent host intent_path ≡ ok intent)
    (recorded : validate_record host intent_path record_path ≡ ok deployment)
    (read : load_json host status_path ≡ ok status)
    (intent_hashed : sha256_file host intent_path ≡ ok intent_sha256)
    (record_hashed : sha256_file host record_path ≡ ok record_sha256) where
  abbrev state_code : String
  state_code = "deployment status state is invalid"

  abbrev purls_code : String
  purls_code = "deployment status PURLs are invalid"

  rest-Parts :
      validate_normalized_status host intent_path record_path status_path ≡ ok result
      → Parts host intent_path record_path status_path result
  unfolding validate_normalized_status
  rest-Parts h = elim (Result-cases (read_state (get_last "deployment_state" status) state_code)) [
    | inr (code, failed) ↦ absurd (ground arith)
    | inl (state, stated) ↦ elim (Result-cases (as_arr (get_last "purls" status) purls_code)) [
      | inr (code, failed) ↦ absurd (ground arith)
      | inl (values, listed) ↦
          elim (Result-cases
            (sorted_purls values (expected_purls intent.namespace intent.version) purls_code)) [
              | inr (code, failed) ↦ absurd (ground arith)
              | inl (purls, sorted_once) ↦
                  let same_state : state ≡ result.state = ground arith in
                  let same_purls : purls ≡ result.purls = ground arith in
                  record {
                    intent = intent;
                    loaded = loaded;
                    deployment = deployment;
                    recorded = recorded;
                    status = status;
                    read = read;
                    intent_sha256 = intent_sha256;
                    intent_hashed = intent_hashed;
                    record_sha256 = record_sha256;
                    record_hashed = record_hashed;
                    bound =
                        check_binding intent_sha256 record_sha256 intent deployment status
                          (ground arith);
                    same_state = rw same_state at (read_state-eq _ state_code state stated);
                    every_purl = λ complete. same_list-eq result.purls _ (ground arith);
                    kind = ground arith;
                    manifest = ground arith;
                  }
            ]
    ]
  ]

normalized-Parts :
    (host : Runtime) (intent_path record_path status_path : FilePath) (result : Normalized)
    → validate_normalized_status host intent_path record_path status_path ≡ ok result
    → Parts host intent_path record_path status_path result
unfolding validate_normalized_status
normalized-Parts host intent_path record_path status_path result h =
    elim (Result-cases (load_intent host intent_path)) [
      | inr (code, failed) ↦ absurd (ground arith)
      | inl (intent, loaded) ↦ elim (Result-cases (validate_record host intent_path record_path)) [
        | inr (code, failed) ↦ absurd (ground arith)
        | inl (deployment, recorded) ↦ elim (Result-cases (load_json host status_path)) [
          | inr (code, failed) ↦ absurd (ground arith)
          | inl (status, read) ↦ elim (Result-cases (sha256_file host intent_path)) [
            | inr (code, failed) ↦ absurd (ground arith)
            | inl (i, hashed) ↦ elim (Result-cases (sha256_file host record_path)) [
              | inr (code, failed) ↦ absurd (ground arith)
              | inl (r, hashed_too) ↦
                  rest-Parts host intent_path record_path status_path result intent deployment
                    status i r loaded recorded read hashed hashed_too h
            ]
          ]
        ]
      ]
    ]

published_is_complete : member "PUBLISHED" complete_states ≡ true
unfolding member String-discrete
published_is_complete = refl

published_complete : (s : String) → s ≡ "PUBLISHED" → member s complete_states ≡ true
published_complete s e = rw e published_is_complete

-- A publication that is accepted as complete is PUBLISHED with the coordinates of its intent, all
-- of them and no other, its status binds the bytes of the intent and of the record, and an adopted
-- one has the public manifest that was given.
pub validate_complete-IsComplete :
    (host : Runtime) (intent_path record_path status_path : FilePath) (manifest : String)
    (result : Normalized)
    → validate_complete host intent_path record_path status_path manifest ≡ ok result
    → IsComplete host intent_path record_path status_path manifest result
unfolding validate_complete
validate_complete-IsComplete host intent_path record_path status_path manifest result h =
    elim (Result-cases (validate_normalized_status host intent_path record_path status_path)) [
      | inr (code, failed) ↦ absurd (ground arith)
      | inl (normalized, valid) ↦
          let same : normalized ≡ result = ground arith in
          let p =
            normalized-Parts host intent_path record_path status_path result (rw same at valid) in
          let published : result.state ≡ "PUBLISHED" =
            ground (arith, ==_iff result.state "PUBLISHED") in
          record {
            intent = p.intent;
            loaded = p.loaded;
            deployment = p.deployment;
            recorded = p.recorded;
            status = p.status;
            read = p.read;
            intent_sha256 = p.intent_sha256;
            intent_hashed = p.intent_hashed;
            record_sha256 = p.record_sha256;
            record_hashed = p.record_hashed;
            bound = p.bound;
            published = p.same_state ∙ ap str published;
            every_purl = p.every_purl (published_complete result.state published);
            adopted =
                λ adoption. ((eq_str_iff result.manifest manifest).0 (ground arith), ground arith);
          }
    ]
