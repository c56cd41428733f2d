-- ===== src/Tests/Attestation.antt =====
-- A release attestation with the tag object and one file as its subjects.
use latchway_android.Base.{
  String, ◌≡◌, refl, none, some, [], Result, ok, String-discrete, member, subset, same_set,
}
use latchway_android.Regex.{fullmatch}
use latchway_android.Json.{
  Json, null, str, arr, obj, nil, cons, Fields, end, field, get_last, keys_are, eq_str,
}
use latchway_android.GpgStatus.Text.{starts_with, is_digits}
use latchway_android.Attestation
use latchway_android.Attestation.{Runtime, Proof, release_statement, verify_attestation}
use latchway_android.Attestation.Soundness.{IsBinding, IsStatement, verify_attestation-IsStatement}

abbrev tag_object : String
tag_object = "0123456789abcdef0123456789abcdef01234567"

abbrev predicate : Fields
predicate = field "ownerId" (str "1") (
    field "purl" (str "pkg:github/o/r@v1.0.0") (
      field "releaseId" (str "2") (
        field "repository" (str "o/r")
          (field "repositoryId" (str "3") (field "tag" (str "v1.0.0") end)))))

abbrev tag_subject : Fields
tag_subject =
    field "uri" (str "pkg:github/o/r@v1.0.0")
      (field "digest" (obj (field "sha1" (str tag_object) end)) end)

abbrev file_subject : Fields
file_subject = field "name" (str "a.aar") (field "digest" (obj (field "sha256" (str "d") end)) end)

abbrev statement : Fields
statement = field "_type" (str "https://in-toto.io/Statement/v1") (
    field "subject" (arr (cons (obj tag_subject) (cons (obj file_subject) nil))) (
      field "predicateType" (str "https://in-toto.io/attestation/release/v0.1")
        (field "predicate" (obj predicate) end)))

abbrev envelope : Fields
envelope = field "payload" (str "statement") (
    field "payloadType" (str "application/vnd.in-toto+json")
      (field "signatures" (arr (cons (obj (field "sig" (str "s") end)) nil)) end))

abbrev bundle : Fields
bundle =
    field "mediaType" (str "application/vnd.dev.sigstore.bundle.v0.3+json")
      (field "verificationMaterial" null (field "dsseEnvelope" (obj envelope) end))

abbrev release : Fields
release =
    field "attestation"
      (obj (
        field "bundle" (obj bundle)
          (field "bundle_url" (str "https://u") (field "initiator" null end))))
      (field "verificationResult" (obj (field "mediaType" null end)) end)

abbrev binding : Fields
binding = field "schema" (str "latchway.github-release-tag-binding.v1") (
    field "tag" (str "v1.0.0") (
      field "tag_object_sha" (str tag_object)
        (field "commit" (str "c") (field "message_sha256" (str "d") end))))

abbrev host : Runtime
host = record {
  sha256 = λ bytes. "d";
  encode = λ text. [];
  utf8 = λ bytes. none;
  loads = λ text. none;
  loads_base64 = λ text. some (obj statement);
  dumps_compact = λ value. "{}";
}

abbrev proof : Proof
proof = record {
  repository = "o/r";
  tag = "v1.0.0";
  tag_object_sha = tag_object;
  commit = "c";
  release_predicate_type = str "https://in-toto.io/attestation/release/v0.1";
  verified_bundle_sha256 = "d";
}

run : Runtime → Fields → Fields → String → String → String → String → Result Proof
unfolding verify_attestation release_statement Attestation.validate_binding
    Attestation.check_statement Attestation.check_predicate Attestation.matching_subjects
    Attestation.subject_fields Attestation.one_digest Attestation.is_digest
    Attestation.is_digit_text Attestation.is_url Attestation.is_full_object Attestation.is_signed
    Attestation.is_truthy Attestation.git_object get_last keys_are eq_str starts_with is_digits
    fullmatch String-discrete member subset same_set
run = verify_attestation

accepted : verify_attestation host release binding "o/r" "v1.0.0" "c" "m" ≡ ok proof
unfolding run
accepted = refl

verify_attestation-IsStatement_example :
    (found : Json) × (document : Fields) × (release_statement host release ≡ ok (found, document))
    × IsBinding host binding "v1.0.0" "c" "m" tag_object
    × IsStatement "o/r" "v1.0.0" tag_object document
    × (proof.commit ≡ "c")
verify_attestation-IsStatement_example =
    verify_attestation-IsStatement host release binding "o/r" "v1.0.0" "c" "m" proof accepted
