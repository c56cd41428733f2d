-- ===== src/Gateway.antt =====
-- scripts/verify-gateway-deployment.py: a signed statement about a gateway deployment.
pub mod Constants
pub mod Inputs
pub mod Origin
pub mod Clients
pub mod Statement
pub mod Signature
pub mod Reads
pub mod Canonical
pub mod Policy
pub mod Signed
pub mod Soundness
use latchway_android.Base.{ℕ, String, List, Result, ok, err, Error, rejected, ◌>>=◌, ◌>>◌}
use latchway_android.Json.{Json, Fields, get}
use latchway_android.Gateway.Constants.{
  maximum_statement_bytes, maximum_client_policy_bytes, maximum_public_key_bytes,
  maximum_signature_bytes,
}
use latchway_android.Gateway.Inputs.{Runtime, Opening, read_regular_file, load_canonical_json}
use latchway_android.Gateway.Clients.{validate_client}
use latchway_android.Gateway.Statement.{Expected, validate_expected, validate_statement}
use latchway_android.Gateway.Signature.{verify_signature}

-- The paths of the command line, its expected values, the pin of the key, and the clock.
pub record Request : Type 0 where
  pub statement : Opening
  pub signature : Opening
  pub public_key : Opening
  pub client_policy : Opening
  pub public_key_sha256 : String
  pub expected : Expected
  pub now : ℕ

-- The object that is printed, less `"valid": True`.
pub record Summary : Type 0 where
  pub deployment_id : Json
  pub expires_at : Json
  pub key_id : Json
  pub statement_sha256 : String

-- The body of `main`.
unfoldable pub verify_deployment : Runtime → Request → Result Summary
verify_deployment host q = do
  expected ← validate_expected host q.expected q.public_key_sha256
  statement_bytes ← read_regular_file q.statement maximum_statement_bytes "statement"
  signature ← read_regular_file q.signature maximum_signature_bytes "signature"
  public_key ← read_regular_file q.public_key maximum_public_key_bytes "public_key"
  policy_bytes ← read_regular_file q.client_policy maximum_client_policy_bytes "client_policy"
  statement ← load_canonical_json host statement_bytes "statement"
  policy ← load_canonical_json host policy_bytes "client_policy"
  expected_client ← validate_client policy
  verify_signature host statement_bytes signature public_key q.public_key_sha256
  validated ← validate_statement host statement expected expected_client q.now
  ok (record {
    deployment_id = get "deployment_id" validated;
    expires_at = get "expires_at" validated;
    key_id = get "key_id" validated;
    statement_sha256 = host.sha256 statement_bytes;
  })

-- The handler of `main` names `Rejected` alone.
unfoldable pub exit_code : Result Summary → Result ℕ
exit_code (ok summary) = ok 0
exit_code (err (rejected code)) = ok 1
exit_code (err other) = err other
