-- ===== src/Tests/Central.antt =====
-- A published adoption with its intent, record and status, and a listing with one deployment.
use latchway_android.Base.{
  ◌↔◌, ℕ, String, ◌<>◌, ◌≡◌, refl, true, false, Option, none, some, List, [], ◌∷◌, Result, ok,
  String-discrete, member, subset, same_set, if◌then◌else◌, ◌==◌, eqb, length, universal_newlines,
}
use latchway_android.Disk.{FilePath}
use latchway_android.Regex.{fullmatch}
use latchway_android.Json.{
  Json, null, int, pos, str, arr, obj, nil, cons, Fields, end, field, get_last, keys_are, eq_str,
  eq_num, is_null, str_matches, is_str, is_int, eq_pos,
}
use latchway_android.Central.Paths
use latchway_android.Central.Paths.Counts.{expected_repository_paths_lem}
use latchway_android.Central.Paths.Contents.{
  SomeFile, IsFileOrChecksum, expected_repository_paths_iff,
}
use latchway_android.Central.Inputs
use latchway_android.Central.Inputs.{Runtime, str_list, load_json, decode_json}
use latchway_android.Central.Archives
use latchway_android.Central.Intents
use latchway_android.Central.Intents.{Intent, load_intent}
use latchway_android.Central.Records
use latchway_android.Central.Statuses
use latchway_android.Central.Statuses.{Normalized}
use latchway_android.Central.Listing
use latchway_android.Central.Listing.{listing_rows, select_deployment}
use latchway_android.Central.Commands
use latchway_android.Central.Commands.{Output, write_no_clobber, validate_complete}
use latchway_android.Central.Selection.{IsSelected, select_deployment-IsSelected}
use latchway_android.Central.Adoption.{create_adoption_record-validate_record}
use latchway_android.Central.Complete.{
  IsComplete, write_no_clobber-keeps, validate_complete-IsComplete,
}

abbrev sha : String
sha = "0123456789abcdef0123456789abcdef0123456789abcdef0123456789abcdef"

abbrev name : String
name =
    "latchway-android-v1.0.0-0123456789ab-0123456789abcdef0123456789abcdef0123456789abcdef0123456789abcdef"

abbrev commit : String
commit = "0123456789abcdef0123456789abcdef01234567"

abbrev purl_of : String → Json
purl_of artifact = str ("pkg:maven/dev.latchway/" <> artifact <> "@1.0.0")

abbrev purls : Json
purls = arr (
    cons (str "pkg:maven/dev.latchway/latchway-core@1.0.0") (
      cons (str "pkg:maven/dev.latchway/latchway-okhttp@1.0.0") (
        cons (str "pkg:maven/dev.latchway/latchway-play-integrity@1.0.0") (
          cons (str "pkg:maven/dev.latchway/latchway-firebase-auth@1.0.0")
            (cons (str "pkg:maven/dev.latchway/latchway-bom@1.0.0") nil)))))

abbrev sorted_list : List String
sorted_list =
    "pkg:maven/dev.latchway/latchway-bom@1.0.0" ∷ "pkg:maven/dev.latchway/latchway-core@1.0.0"
    ∷ "pkg:maven/dev.latchway/latchway-firebase-auth@1.0.0"
    ∷ "pkg:maven/dev.latchway/latchway-okhttp@1.0.0"
    ∷ "pkg:maven/dev.latchway/latchway-play-integrity@1.0.0" ∷ []

abbrev intent_json : Fields
intent_json =
    (field "schema" (str "latchway.maven-central-upload-intent.v2") (
      field "repository" (str "Latchway/latchway-android") (
        field "source_commit" (str commit) (
          field "release_tag" (str "v1.0.0") (
            field "version" (str "1.0.0") (
              field "namespace" (str "dev.latchway") (
                field "deployment_name" (str name) (
                  field "publishing_type" (str "user_managed") (
                    field "reviewed_repository_archive_sha256" (str sha) (
                      field "reviewed_repository_manifest_sha256" (str sha) (
                        field "reviewed_repository_file_count" (int (pos 120)) (
                          field "reviewed_portal_bundle_sha256" (str sha) (
                            field "reviewed_portal_bundle_file_count" (int (pos 144)) (
                              field "reviewed_public_key_sha256" (str sha) (
                                field "expected_purls" purls (
                                  field "authorization" (str "recoverable_exact_upload")
                                    end))))))))))))))))

abbrev record_json : Fields
record_json =
    (field "schema" (str "latchway.maven-central-deployment.v2") (
      field "intent_sha256" (str sha) (
        field "deployment_name" (str name) (
          field "publishing_type" (str "user_managed") (
            field "namespace" (str "dev.latchway") (
              field "version" (str "1.0.0") (
                field "source_commit" (str commit) (
                  field "expected_purls" purls (
                    field "reviewed_portal_bundle_sha256" (str sha) (
                      field "record_kind" (str "public_registry_adoption") (
                        field "deployment_id" null
                          (field "public_manifest_sha256" (str sha) end))))))))))))

abbrev evidence_json : Json
evidence_json = obj (
    field "schema_version" (int (pos 2)) (
      field "registry" (str "maven_central") (
        field "namespace" (str "dev.latchway")
          (field "version" (str "1.0.0") (field "public_manifest_sha256" (str sha) end)))))

abbrev status_json : Json
status_json = obj (
    field "schema" (str "latchway.maven-central-deployment-status.v2") (
      field "intent_sha256" (str sha) (
        field "record_sha256" (str sha) (
          field "record_kind" (str "public_registry_adoption") (
            field "deployment_id" null (
              field "deployment_name" (str name) (
                field "deployment_state" (str "PUBLISHED") (
                  field "purls"
                    (arr (
                      cons (str "pkg:maven/dev.latchway/latchway-bom@1.0.0") (
                        cons (str "pkg:maven/dev.latchway/latchway-core@1.0.0") (
                          cons (str "pkg:maven/dev.latchway/latchway-firebase-auth@1.0.0") (
                            cons (str "pkg:maven/dev.latchway/latchway-okhttp@1.0.0") (
                              cons (str "pkg:maven/dev.latchway/latchway-play-integrity@1.0.0")
                                nil))))))
                    (field "public_manifest_sha256" (str sha) end)))))))))

abbrev row : Json
row = obj (
    field "deploymentName" (str name)
      (field "deploymentId" (str "12345678-1234-1234-8234-123456789ABC") end))

abbrev other_row : Json
other_row = obj (field "name" (str "another") end)

abbrev listing_json : Json
listing_json = obj (
    field "deployments" (arr (cons other_row (cons row nil))) (
      field "page" (int (pos 0)) (
        field "pageSize" (int (pos 20))
          (field "pageCount" (int (pos 1)) (field "totalResultCount" (int (pos 2)) end)))))

abbrev texts : List ℕ → Option String
texts [] = none
texts (n ∷ _) =
    if eqb n 1
    then some "intent"
    else if eqb n 2
    then some "record"
    else if eqb n 3
    then some "status"
    else if eqb n 6
    then some "evidence"
    else some "listing"

abbrev documents : String → Option Json
documents text =
    if text == "intent"
    then some (obj intent_json)
    else if text == "record"
    then some (obj record_json)
    else if text == "status"
    then some status_json
    else if text == "evidence"
    then some evidence_json
    else some listing_json

abbrev host : Runtime
host = record {
  digest = λ algorithm bytes. sha;
  utf8 = texts;
  ascii = texts;
  loads = documents;
  dumps = λ value. "{}";
  dumps_line = λ value. "{}";
  encode = λ text. 5 ∷ [];
  format = λ value. "";
}

abbrev file : ℕ → FilePath
file n = some (record { regular = true; symlink = false; size = 9; bytes = some (n ∷ []) })

abbrev result : Normalized
result = record {
  state = "PUBLISHED";
  purls = sorted_list;
  kind = str "public_registry_adoption";
  manifest = str sha;
}

abbrev intent_value : Intent
intent_value = record {
  version = "1.0.0";
  source_commit = commit;
  namespace = "dev.latchway";
  deployment_name = name;
  portal_sha256 = sha;
  fields = intent_json;
}

counts_accepted : Intents.check_counts intent_json "1.0.0" ≡ ok tt
unfolding Intents.check_counts get_last eq_num eq_pos String-discrete member
counts_accepted =
    rw ((expected_repository_paths_lem "1.0.0").0)
      (rw ((expected_repository_paths_lem "1.0.0").1) refl)

run_intent : Runtime → FilePath → Result Intent
unfolding load_intent Intents.validate_intent Intents.deployment_name_of Intents.sha256_field
    Inputs.load_json Inputs.decode_json Inputs.regular_file Inputs.read_bytes Inputs.same_value
    Inputs.str_list Inputs.version_pattern Inputs.commit_hash Inputs.sha256_hash
    Inputs.namespace_pattern Paths.expected_purls Paths.first_chars get_last keys_are eq_str
    universal_newlines fullmatch String-discrete member subset same_set
run_intent = load_intent

loaded : load_intent host (file 1) ≡ ok intent_value
unfolding run_intent
loaded = rw counts_accepted refl

run : Runtime → FilePath → FilePath → FilePath → String → Result Normalized
unfolding validate_complete Statuses.validate_normalized_status Statuses.normalized_keys
    Statuses.check_manifest Statuses.sorted_purls Statuses.texts_of Statuses.read_state
    Records.validate_record Records.check_kind Records.record_common Records.common_fields
    Inputs.load_json Inputs.decode_json Inputs.regular_file Inputs.read_bytes Inputs.sha256_file
    Inputs.digest_file Inputs.check_fields Inputs.same_value Inputs.str_list Inputs.sha256_hash
    Paths.expected_purls Paths.sorted Paths.deduplicated Archives.same_list get_last keys_are eq_str
    is_null str_matches is_str universal_newlines fullmatch String-discrete member subset same_set
run = validate_complete

accepted : validate_complete host (file 1) (file 2) (file 3) sha ≡ ok result
unfolding run
accepted = rw loaded refl

validate_complete-IsComplete_example : IsComplete host (file 1) (file 2) (file 3) sha result
validate_complete-IsComplete_example =
    validate_complete-IsComplete host (file 1) (file 2) (file 3) sha result accepted

run_select : Runtime → FilePath → FilePath → Result String
unfolding select_deployment Inputs.decode_json Inputs.regular_file Inputs.read_bytes get_last
    keys_are eq_str eq_num universal_newlines fullmatch String-discrete member subset same_set
    listing_rows Listing.matching_ids Listing.row_id Listing.valid_id Listing.get_either
    Listing.add_all Listing.add Listing.the_match Listing.is_positive Records.lower
    Inputs.uuid_pattern is_int
run_select = select_deployment

selected : select_deployment host (file 1) (file 4) ≡ ok "12345678-1234-1234-8234-123456789abc"
unfolding run_select
selected = rw loaded refl

select_deployment-IsSelected_example :
    (intent : Intent) × (value : Json) × (rows : List Json) × (load_intent host (file 1)
      ≡ ok intent)
    × (decode_json host (file 4) "Portal deployment listing is invalid JSON" ≡ ok value)
    × (listing_rows value ≡ ok rows)
    × IsSelected intent.deployment_name rows "12345678-1234-1234-8234-123456789abc"
select_deployment-IsSelected_example =
    select_deployment-IsSelected host (file 1) (file 4) "12345678-1234-1234-8234-123456789abc"
      selected

abbrev present : Output
present = record { exists = true; file = file 5 }

unchanged : write_no_clobber host present end ≡ ok present
unfolding write_no_clobber Inputs.canonical_bytes Inputs.regular_file Inputs.read_bytes
    Commands.same_bytes
unchanged = refl

write_no_clobber-keeps_example :
    (Inputs.read_bytes present.file ≡ ok (Inputs.canonical_bytes host (obj end)))
    × ((present.exists ≡ true) → present ≡ present)
write_no_clobber-keeps_example = write_no_clobber-keeps host present present end unchanged

abbrev checksum_path : String
checksum_path = "dev/latchway/latchway-bom/1.0.0/latchway-bom-1.0.0.pom.sha256"

expected_repository_paths_example :
    ((member checksum_path (Paths.primary_repository_paths "1.0.0") ≡ true)
      ↔ SomeFile (λ file. checksum_path ≡ file) "1.0.0")
    × ((member checksum_path (Paths.expected_repository_paths "1.0.0") ≡ true)
        ↔ SomeFile (IsFileOrChecksum checksum_path) "1.0.0")
    × (length (Paths.primary_repository_paths "1.0.0") ≡ 24)
    × (length (Paths.expected_repository_paths "1.0.0") ≡ 120)
expected_repository_paths_example = expected_repository_paths_iff "1.0.0" checksum_path

created : Records.create_adoption_record host (file 1) (file 6) ≡ ok record_json
unfolding Records.create_adoption_record Records.record_common Records.common_fields
    Records.public_manifest_from_evidence Inputs.load_json Inputs.decode_json Inputs.regular_file
    Inputs.read_bytes Inputs.sha256_file Inputs.digest_file Inputs.sha256_hash Inputs.str_list
    Paths.expected_purls get_last eq_str eq_num eq_pos universal_newlines fullmatch String-discrete
    member
created = rw loaded refl

record_read : load_json host (file 2) ≡ ok record_json
unfolding load_json Inputs.decode_json Inputs.regular_file Inputs.read_bytes universal_newlines
    String-discrete
record_read = refl

create_adoption_record-validate_record_example :
    (intent : Intent) × (d : Records.DeploymentRecord) × (digest : String)
    × (Records.validate_record host (file 1) (file 2) ≡ ok d)
    × (Records.public_manifest_from_evidence host (file 6) intent.version ≡ ok digest)
    × (d.kind ≡ str "public_registry_adoption")
    × (d.manifest ≡ str digest)
create_adoption_record-validate_record_example =
    create_adoption_record-validate_record host (file 1) (file 6) (file 2) record_json record_json
      created record_read (record { same_field = λ k. refl; same_keys = λ names. refl })
