-- ===== src/Gateway/Canonical.antt =====
-- What a canonical origin is.
use latchway_android.Base.{
  ◌≤◌, String, ◌<>◌, ◌≡◌, ◌⊎◌, inl, inr, true, none, some, all, codes, length, split_on, ok,
  Result-cases, Option-cases, arith,
}
use latchway_android.Json.{Json, str}
use latchway_android.Json.Laws.{as_str_cases}
use latchway_android.Gateway.Inputs.{Url, Runtime}
use latchway_android.Gateway.Origin.{
  valid_label, valid_path, valid_port, port_text, origin_text, check_url, canonical_origin,
}

-- The parts of an origin: an HTTPS URL with no user, query or fragment, whose host has valid labels
-- and whose port and path are allowed.
pub record IsCanonicalUrl (url : Url) (hostname : String) : Type 0 where
  pub scheme : url.scheme ≡ "https"
  pub has_host : url.hostname ≡ some hostname
  pub no_user : url.username ≡ none
  pub no_password : url.password ≡ none
  pub no_query : url.query ≡ ""
  pub no_fragment : url.fragment ≡ ""
  pub host_length : length (codes hostname) ≤ 253
  pub labels : all valid_label (split_on b'.' hostname) ≡ true
  pub port : valid_port url.port ≡ true
  pub path : (url.path ≡ "") ⊎ (valid_path url.path ≡ true)

check_url-IsCanonicalUrl :
    (url : Url) (hostname : String) → check_url url ≡ ok hostname → IsCanonicalUrl url hostname
unfolding check_url
check_url-IsCanonicalUrl url hostname h = elim (Option-cases url.hostname) [
  | inl absent ↦ absurd (ground arith)
  | inr (found, present) ↦ record {
    scheme = ground arith;
    has_host = ground arith;
    no_user = elim (Option-cases url.username) [
      | inl none_there ↦ none_there
      | inr (u, there) ↦ absurd (ground arith)
    ];
    no_password = elim (Option-cases url.password) [
      | inl none_there ↦ none_there
      | inr (u, there) ↦ absurd (ground arith)
    ];
    no_query = ground arith;
    no_fragment = ground arith;
    host_length = ground arith;
    labels = ground arith;
    port = ground arith;
    path = ground arith;
  }
]

origin_text-eq : (value : Json) (text : String) → origin_text value ≡ ok text → value ≡ str text
unfolding origin_text
origin_text-eq value text h = elim (as_str_cases value "gateway_origin_invalid") [
  | inl (s, e) ↦ ground arith
  | inr failed ↦ absurd (ground arith)
]

-- An origin that is accepted is the value itself, letter for letter: the scheme, the host, the port
-- unless it is 443, and the path of a URL whose parts are allowed.
pub canonical_origin-IsCanonicalUrl :
    (host : Runtime) (value : Json) (result : String)
    → canonical_origin host value ≡ ok result
    → (url : Url) × (hostname : String) × (value ≡ str result)
      × (host.urlsplit result ≡ some url)
      × IsCanonicalUrl url hostname
      × (result ≡ "https://" <> hostname <> port_text url.port <> url.path)
unfolding canonical_origin
canonical_origin-IsCanonicalUrl host value result h = elim (Result-cases (origin_text value)) [
  | inr (e, failed) ↦ absurd (ground arith)
  | inl (text, read) ↦ elim (Option-cases (host.urlsplit text)) [
    | inl absent ↦ absurd (ground arith)
    | inr (url, split) ↦ elim (Result-cases (check_url url)) [
      | inr (e, failed) ↦ absurd (ground arith)
      | inl (hostname, checked) ↦
          let built : result ≡ "https://" <> hostname <> port_text url.port <> url.path =
            ground arith in
          let same : result ≡ text = ground (arith, built) in
          (
            url,
            hostname,
            rw same (origin_text-eq value text read),
            rw same split,
            check_url-IsCanonicalUrl url hostname checked,
            built,
          )
    ]
  ]
]
