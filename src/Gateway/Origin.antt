-- ===== src/Gateway/Origin.antt =====
-- `canonical_origin` of the deployment verifier.
use latchway_android.Base.{
  ℕ, String, ◌<>◌, Bool, true, false, not, Option, none, some, [], ◌∷◌, ◌&&◌, ◌||◌, leb, ltb, eqb,
  ◌==◌, if◌then◌else◌, codes, length, any, all, member, has_char, split_on, has_outer_space,
  decimal, Result, ok, reject_if, ◌>>=◌, ◌>>◌,
}
use latchway_android.Regex.{fullmatch}
use latchway_android.Json.{Json, as_str}
use latchway_android.GpgStatus.Text.{ends_with}
use latchway_android.Gateway.Constants.{label_pattern, path_pattern}
use latchway_android.Gateway.Inputs.{Url, Runtime, or_reject}

abbrev is_present {ℓ} : {A : Type ℓ} → Option A → Bool
is_present none = false
is_present (some a) = true

-- An ASCII text that `lower` would change.
unfoldable pub has_upper : String → Bool
has_upper s = any (λ c. leb b'A' c && leb c b'Z') (codes s)

unfoldable pub valid_label : String → Bool
valid_label label =
    not (label == "") && leb (length (codes label)) 63 && fullmatch label_pattern label

unfoldable pub valid_path : String → Bool
valid_path path =
    not (ends_with path "/")
    && not (has_char b'%' path)
    && not (has_char 92 path)
    && fullmatch path_pattern path
    && not (any (λ segment. member segment ("." ∷ ".." ∷ [])) (split_on b'/' path))

unfoldable pub valid_port : Option ℕ → Bool
valid_port none = true
valid_port (some port) = leb 1 port && leb port 65535

-- `"" if port in (None, 443) else f":{port}"`; a port has five digits at most.
unfoldable pub port_text : Option ℕ → String
port_text none = ""
port_text (some port) = if eqb port 443 then "" else ":" <> decimal 5 port

-- `isinstance(value, str)`, `value.isascii()`, `value` and `value.strip() == value`
unfoldable pub origin_text : Json → Result String
origin_text value = do
  text ← as_str value "gateway_origin_invalid"
  reject_if (not (all (λ c. ltb c 128) (codes text)) || text == "" || has_outer_space text)
      "gateway_origin_invalid"
  ok text

-- The tests on the parts of the URL, with the host.
unfoldable pub check_url : Url → Result String
check_url url = do
  reject_if (not (url.scheme == "https") || url.netloc == "") "gateway_origin_invalid"
  hostname ← or_reject url.hostname "gateway_origin_invalid"
  reject_if
      (is_present url.username
        || is_present url.password
        || not (url.query == "")
        || not (url.fragment == ""))
      "gateway_origin_invalid"
  reject_if (has_upper hostname || ltb 253 (length (codes hostname)) || has_char b':' hostname)
      "gateway_origin_invalid"
  reject_if (not (all valid_label (split_on b'.' hostname))) "gateway_origin_invalid"
  reject_if (not (valid_port url.port)) "gateway_origin_invalid"
  reject_if (not (url.path == "") && not (valid_path url.path)) "gateway_origin_invalid"
  ok hostname

unfoldable pub canonical_origin : Runtime → Json → Result String
canonical_origin host value = do
  text ← origin_text value
  url ← or_reject (host.urlsplit text) "gateway_origin_invalid"
  hostname ← check_url url
  let result = "https://" <> hostname <> port_text url.port <> url.path
  reject_if (not (result == text)) "gateway_origin_not_canonical"
  ok result
