-- ===== src/Central/Adoption.antt =====
-- An adoption record that the script creates is one that it accepts.
use latchway_android.Base.{
  String, ◌≡◌, refl, ◌∙◌, inl, inr, true, List, [], ◌∷◌, ◌++◌, ok, Result-cases, String-discrete,
  member, subset, same_set, arith,
}
use latchway_android.Disk.{FilePath}
use latchway_android.Regex.{fullmatch}
use latchway_android.Json.{
  Json, null, str, Fields, end, field, get_last, keys_are, eq_str, is_null, str_matches,
}
use latchway_android.Json.Laws.{IsReadBack, as_str_cases, eq_str_iff}
use latchway_android.Central.Inputs.{
  Runtime, sha256_hash, same_items, same_value, check_fields, str_items, str_list, load_json,
}
use latchway_android.Central.Intents.{Intent}
use latchway_android.Central.Records.{
  DeploymentRecord, common_keys, common_fields, record_common, public_manifest_from_evidence,
  create_adoption_record, check_kind, validate_record,
}

same_str_refl : (s : String) → same_value (str s) (str s) ≡ true
unfolding same_value
same_str_refl s = (eq_str_iff (str s) s).1 refl

same_items_refl : (ss : List String) → same_items (str_items ss) (str_items ss) ≡ true
unfolding same_items str_items
same_items_refl [] = refl
same_items_refl (s ∷ ss) = ground (arith, (eq_str_iff (str s) s).1 refl, same_items_refl ss)

same_list_refl : (ss : List String) → same_value (str_list ss) (str_list ss) ≡ true
unfolding same_value str_list
same_list_refl ss = same_items_refl ss

check_one_more :
    (before after k : String) (v : Json) (more fs : Fields)
    → get_last k fs ≡ v
    → same_value v v ≡ true
    → check_fields before after more fs ≡ ok tt
    → check_fields before after (field k v more) fs ≡ ok tt
unfolding check_fields
check_one_more before after k v more fs e s h = ground arith

check_end : (before after : String) (fs : Fields) → check_fields before after end fs ≡ ok tt
unfolding check_fields
check_end before after fs = refl

digest_matches :
    (host : Runtime) (path : FilePath) (version digest : String)
    → public_manifest_from_evidence host path version ≡ ok digest
    → fullmatch sha256_hash digest ≡ true
unfolding public_manifest_from_evidence
digest_matches host path version digest h = elim (Result-cases (load_json host path)) [
  | inr (code, failed) ↦ absurd (ground arith)
  | inl (evidence, read) ↦
      elim (as_str_cases (get_last "public_manifest_sha256" evidence)
        "public registry evidence manifest is invalid") [
          | inl (found, e) ↦ ground arith
          | inr failed ↦ absurd (ground arith)
        ]
]

module _ (intent : Intent) (intent_sha256 digest : String) where
  abbrev adopted : Fields
  adopted = common_fields intent intent_sha256 (
      field "record_kind" (str "public_registry_adoption")
        (field "deployment_id" null (field "public_manifest_sha256" (str digest) end)))

  adopted_keys :
      keys_are adopted
        (common_keys ++ "record_kind" ∷ "deployment_id" ∷ "public_manifest_sha256" ∷ [])
      ≡ true
  unfolding common_fields keys_are same_set subset member String-discrete
  adopted_keys = refl

  adopted_kind : get_last "record_kind" adopted ≡ str "public_registry_adoption"
  unfolding common_fields get_last member String-discrete
  adopted_kind = refl

  adopted_schema : get_last "schema" adopted ≡ str "latchway.maven-central-deployment.v2"
  unfolding common_fields get_last member String-discrete
  adopted_schema = refl

  adopted_id : get_last "deployment_id" adopted ≡ null
  unfolding common_fields get_last member String-discrete
  adopted_id = refl

  adopted_manifest : get_last "public_manifest_sha256" adopted ≡ str digest
  unfolding common_fields get_last member String-discrete
  adopted_manifest = refl

  module _ (fs : Fields) (same : (k : String) → get_last k fs ≡ get_last k adopted)
      (before after : String) where
    adopted_common : check_fields before after (common_fields intent intent_sha256 end) fs ≡ ok tt
    unfolding common_fields get_last member String-discrete
    adopted_common = check_one_more before after _ _ _ fs (same "schema") (same_str_refl _) (
        check_one_more before after _ _ _ fs (same "intent_sha256") (same_str_refl _) (
          check_one_more before after _ _ _ fs (same "deployment_name") (same_str_refl _) (
            check_one_more before after _ _ _ fs (same "publishing_type") (same_str_refl _) (
              check_one_more before after _ _ _ fs (same "namespace") (same_str_refl _) (
                check_one_more before after _ _ _ fs (same "version") (same_str_refl _) (
                  check_one_more before after _ _ _ fs (same "source_commit") (same_str_refl _) (
                    check_one_more before after _ _ _ fs (same "expected_purls") (same_list_refl _)
                      (check_one_more before after _ _ _ fs (same "reviewed_portal_bundle_sha256")
                        (same_str_refl _) (check_end before after fs)))))))))

  adopted_check_kind :
      (fs : Fields)
      → ((k : String) → get_last k fs ≡ get_last k adopted)
      → fullmatch sha256_hash digest ≡ true
      → check_kind fs ≡ ok tt
  unfolding check_kind is_null str_matches eq_str String-discrete
  adopted_check_kind fs same shape =
      let kind : get_last "record_kind" fs ≡ str "public_registry_adoption" =
        same "record_kind" ∙ adopted_kind in
      let id : get_last "deployment_id" fs ≡ null = same "deployment_id" ∙ adopted_id in
      let manifest : get_last "public_manifest_sha256" fs ≡ str digest =
        same "public_manifest_sha256" ∙ adopted_manifest in
      rw (kind, id, manifest, shape) refl

adopted_is_valid :
    (host : Runtime) (intent_path record_path : FilePath) (intent : Intent)
    (intent_sha256 digest : String) (read : Fields)
    → record_common host intent_path ≡ ok (intent, intent_sha256)
    → fullmatch sha256_hash digest ≡ true
    → load_json host record_path ≡ ok read
    → IsReadBack (adopted intent intent_sha256 digest) read
    → (d : DeploymentRecord) × (validate_record host intent_path record_path ≡ ok d)
      × (d.kind ≡ str "public_registry_adoption")
      × (d.manifest ≡ str digest)
unfolding validate_record
adopted_is_valid host intent_path record_path intent intent_sha256 digest read common shape loaded
      back =
    let keys =
      back.same_keys
        (common_keys ++ "record_kind" ∷ "deployment_id" ∷ "public_manifest_sha256" ∷ [])
      ∙ adopted_keys intent intent_sha256 digest in
    let schema =
      (eq_str_iff (get_last "schema" read) "latchway.maven-central-deployment.v2").1
        (back.same_field "schema" ∙ adopted_schema intent intent_sha256 digest) in
    let fields =
      adopted_common intent intent_sha256 digest read back.same_field "deployment record "
        " does not match the upload intent" in
    let kind = adopted_check_kind intent intent_sha256 digest read back.same_field shape in
    (
      record {
        fields = read;
        kind = get_last "record_kind" read;
        deployment_id = get_last "deployment_id" read;
        manifest = get_last "public_manifest_sha256" read;
      },
      ground arith,
      back.same_field "record_kind" ∙ adopted_kind intent intent_sha256 digest,
      back.same_field "public_manifest_sha256" ∙ adopted_manifest intent intent_sha256 digest,
    )

-- An adoption record that is created for an intent and public evidence is accepted for that intent
-- when it is read back with the same fields, as an adoption of the manifest of that evidence.
pub create_adoption_record-validate_record :
    (host : Runtime) (intent_path evidence_path record_path : FilePath) (written read : Fields)
    → create_adoption_record host intent_path evidence_path ≡ ok written
    → load_json host record_path ≡ ok read
    → IsReadBack written read
    → (intent : Intent) × (d : DeploymentRecord) × (digest : String) × (validate_record host
          intent_path record_path
        ≡ ok d)
      × (public_manifest_from_evidence host evidence_path intent.version ≡ ok digest)
      × (d.kind ≡ str "public_registry_adoption")
      × (d.manifest ≡ str digest)
unfolding create_adoption_record
create_adoption_record-validate_record host intent_path evidence_path record_path written read h
      loaded back =
    elim (Result-cases (record_common host intent_path)) [
      | inr (code, failed) ↦ absurd (ground arith)
      | inl ((intent, sha256), common) ↦
          elim (Result-cases (public_manifest_from_evidence host evidence_path intent.version)) [
            | inr (code, failed) ↦ absurd (ground arith)
            | inl (digest, found) ↦
                let same : written ≡ adopted intent sha256 digest = ground arith in
                let valid =
                  adopted_is_valid host intent_path record_path intent sha256 digest read common
                    (digest_matches host evidence_path intent.version digest found) loaded
                    (rw same at back) in
                (intent, valid.0, digest, valid.1, found, valid.2, valid.3)
          ]
    ]
