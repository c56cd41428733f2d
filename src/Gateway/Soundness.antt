-- ===== src/Gateway/Soundness.antt =====
-- What an accepted gateway deployment shows.
use latchway_android.Base.{
  ℕ, String, ◌≡◌, inl, inr, true, some, List, length, ok, Result-cases, Option-cases, arith,
}
use latchway_android.Json.{Json, Fields, get}
use latchway_android.Gateway.Constants.{
  maximum_statement_bytes, maximum_client_policy_bytes, maximum_public_key_bytes,
  maximum_signature_bytes, p256_spki_prefix,
}
use latchway_android.Gateway.Inputs.{
  Process, Openssl, Runtime, read_regular_file, load_canonical_json,
}
use latchway_android.Gateway.Clients.{validate_client}
use latchway_android.Gateway.Statement.{Expected, validate_expected, validate_statement}
use latchway_android.Gateway.Signature.{starts_with_bytes, verify_signature}
use latchway_android.Gateway.Signed.{IsStatement, validate_statement-IsStatement}
use latchway_android.Gateway.{Request, Summary, verify_deployment}

-- The signature verifies under a P-256 key whose digest is the pin.
pub record IsSigned (host : Runtime) (statement signature public_key : List ℕ) (pin : String)
    : Type 0 where
  pub openssl : Openssl
  pub found : host.openssl ≡ some openssl
  pub key : Process
  pub converted : openssl.convert public_key ≡ some key
  pub pinned : host.sha256 key.stdout ≡ pin
  pub p256 : starts_with_bytes p256_spki_prefix key.stdout ≡ true
  pub key_length : length key.stdout ≡ 91
  pub outcome : Process
  pub verified : openssl.verify public_key signature statement ≡ some outcome
  pub passed : outcome.returncode ≡ 0

verify_signature-IsSigned :
    (host : Runtime) (statement signature public_key : List ℕ) (pin : String)
    → verify_signature host statement signature public_key pin ≡ ok tt
    → IsSigned host statement signature public_key pin
unfolding verify_signature
verify_signature-IsSigned host statement signature public_key pin h =
    elim (Option-cases host.openssl) [
      | inl absent ↦ absurd (ground arith)
      | inr (openssl, found) ↦ elim (Option-cases (openssl.convert public_key)) [
        | inl absent ↦ absurd (ground arith)
        | inr (key, converted) ↦
            elim (Option-cases (openssl.verify public_key signature statement)) [
              | inl absent ↦ absurd (ground arith)
              | inr (outcome, verified) ↦ record {
                openssl = openssl;
                found = found;
                key = key;
                converted = converted;
                pinned = ground arith;
                p256 = ground arith;
                key_length = ground arith;
                outcome = outcome;
                verified = verified;
                passed = ground arith;
              }
            ]
      ]
    ]

-- The four files, the signature and the statement of an accepted deployment.
pub record IsDeployment (host : Runtime) (q : Request) (summary : Summary) : Type 0 where
  pub expected : Expected
  pub asked : validate_expected host q.expected q.public_key_sha256 ≡ ok expected
  pub statement : List ℕ
  pub read_statement :
      read_regular_file q.statement maximum_statement_bytes "statement" ≡ ok statement
  pub signature : List ℕ
  pub read_signature :
      read_regular_file q.signature maximum_signature_bytes "signature" ≡ ok signature
  pub public_key : List ℕ
  pub read_key :
      read_regular_file q.public_key maximum_public_key_bytes "public_key" ≡ ok public_key
  pub signed : IsSigned host statement signature public_key q.public_key_sha256
  pub value : Json
  pub canonical : load_canonical_json host statement "statement" ≡ ok value
  pub policy_bytes : List ℕ
  pub read_policy :
      read_regular_file q.client_policy maximum_client_policy_bytes "client_policy"
      ≡ ok policy_bytes
  pub policy : Json
  pub decoded : load_canonical_json host policy_bytes "client_policy" ≡ ok policy
  pub client : Fields
  pub chosen : validate_client policy ≡ ok client
  pub fields : Fields
  pub stated : IsStatement host value expected client q.now fields
  pub deployment : summary.deployment_id ≡ get "deployment_id" fields
  pub digest : summary.statement_sha256 ≡ host.sha256 statement

module _ (host : Runtime) (q : Request) (summary : Summary) (expected : Expected)
    (statement signature public_key policy_bytes : List ℕ)
    (asked : validate_expected host q.expected q.public_key_sha256 ≡ ok expected)
    (a : read_regular_file q.statement maximum_statement_bytes "statement" ≡ ok statement)
    (b : read_regular_file q.signature maximum_signature_bytes "signature" ≡ ok signature)
    (c : read_regular_file q.public_key maximum_public_key_bytes "public_key" ≡ ok public_key)
    (d : read_regular_file q.client_policy maximum_client_policy_bytes "client_policy"
      ≡ ok policy_bytes) where
  IsDeployment-read : verify_deployment host q ≡ ok summary → IsDeployment host q summary
  unfolding verify_deployment
  IsDeployment-read h = elim (Result-cases (load_canonical_json host statement "statement")) [
    | inr (e, failed) ↦ absurd (ground arith)
    | inl (value, loaded) ↦
        elim (Result-cases (load_canonical_json host policy_bytes "client_policy")) [
          | inr (e, failed) ↦ absurd (ground arith)
          | inl (policy, decoded) ↦ elim (Result-cases (validate_client policy)) [
            | inr (e, failed) ↦ absurd (ground arith)
            | inl (client, chosen) ↦
                elim (Result-cases
                  (verify_signature host statement signature public_key q.public_key_sha256)) [
                    | inr (e, failed) ↦ absurd (ground arith)
                    | inl (_, signed) ↦
                        elim (Result-cases (validate_statement host value expected client q.now)) [
                          | inr (e, failed) ↦ absurd (ground arith)
                          | inl (fields, valid) ↦ record {
                            expected = expected;
                            asked = asked;
                            statement = statement;
                            read_statement = a;
                            signature = signature;
                            read_signature = b;
                            public_key = public_key;
                            read_key = c;
                            signed =
                                verify_signature-IsSigned host statement signature public_key
                                  q.public_key_sha256 signed;
                            value = value;
                            canonical = loaded;
                            policy_bytes = policy_bytes;
                            read_policy = d;
                            policy = policy;
                            decoded = decoded;
                            client = client;
                            chosen = chosen;
                            fields = fields;
                            stated =
                                validate_statement-IsStatement host value expected client q.now
                                  fields valid;
                            deployment = ground arith;
                            digest = ground arith;
                          }
                        ]
                  ]
          ]
        ]
  ]

-- A deployment that is accepted has a statement whose bytes verify under the pinned P-256 key, which
-- is canonical JSON with the expected key, origin, environment, commit, contract, image and
-- configuration, which is current for at most 24 hours, and whose clients are all fit for release,
-- distinct, and contain the client of the policy once.
pub verify_deployment-IsDeployment :
    (host : Runtime) (q : Request) (summary : Summary)
    → verify_deployment host q ≡ ok summary
    → IsDeployment host q summary
unfolding verify_deployment
verify_deployment-IsDeployment host q summary h =
    elim (Result-cases (validate_expected host q.expected q.public_key_sha256)) [
      | inr (e, failed) ↦ absurd (ground arith)
      | inl (expected, asked) ↦
          elim (Result-cases (read_regular_file q.statement maximum_statement_bytes "statement")) [
            | inr (e, failed) ↦ absurd (ground arith)
            | inl (statement, a) ↦
                elim (Result-cases
                  (read_regular_file q.signature maximum_signature_bytes "signature")) [
                    | inr (e, failed) ↦ absurd (ground arith)
                    | inl (signature, b) ↦
                        elim (Result-cases
                          (read_regular_file q.public_key maximum_public_key_bytes "public_key")) [
                            | inr (e, failed) ↦ absurd (ground arith)
                            | inl (key, c) ↦
                                elim (Result-cases (
                                  read_regular_file q.client_policy maximum_client_policy_bytes
                                    "client_policy")) [
                                      | inr (e, failed) ↦ absurd (ground arith)
                                      | inl (policy_bytes, d) ↦
                                          IsDeployment-read host q summary expected statement
                                            signature key policy_bytes asked a b c d h
                                    ]
                          ]
                  ]
          ]
    ]
