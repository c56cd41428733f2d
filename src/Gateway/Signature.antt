-- ===== src/Gateway/Signature.antt =====
-- `verify_signature`, over a program that converts keys and verifies signatures.
use latchway_android.Base.{
  ℕ, String, Bool, true, false, not, List, [], ◌∷◌, ◌&&◌, ◌||◌, eqb, ◌==◌, length, Result,
  reject_if, ◌>>=◌, ◌>>◌,
}
use latchway_android.Gateway.Constants.{p256_spki_prefix}
use latchway_android.Gateway.Inputs.{Runtime, or_reject}

-- `der.startswith(P256_SPKI_PREFIX)`
unfoldable pub starts_with_bytes : List ℕ → List ℕ → Bool
starts_with_bytes [] bs = true
starts_with_bytes (p ∷ ps) [] = false
starts_with_bytes (p ∷ ps) (b ∷ bs) = eqb p b && starts_with_bytes ps bs

unfoldable pub verify_signature : Runtime → List ℕ → List ℕ → List ℕ → String → Result (Unit {0})
verify_signature host statement signature public_key expected_pin = do
  openssl ← or_reject host.openssl "openssl_unavailable"
  converted ← or_reject (openssl.convert public_key) "openssl_failed"
  reject_if
      (not (eqb converted.returncode 0)
        || not (eqb (length converted.stdout) 91)
        || not (starts_with_bytes p256_spki_prefix converted.stdout))
      "public_key_not_p256"
  reject_if (not (host.sha256 converted.stdout == expected_pin)) "public_key_pin_mismatch"
  verified ← or_reject (openssl.verify public_key signature statement) "openssl_failed"
  reject_if (not (eqb verified.returncode 0)) "statement_signature_invalid"
