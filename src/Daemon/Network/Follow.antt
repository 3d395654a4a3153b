-- ===== src/Daemon/Network/Follow.antt =====
-- The loop of `network_request` in crates/core/src/daemon.rs that follows redirects.
pub mod Laws
use tron_hawk.Common.{
  ℕ, zero, suc, ◌-◌, Bool, true, false, not, ◌&&◌, ◌||◌, Option, none, some, List, [], ◌∷◌, ◌++◌,
  Str, codes, str_eq, lowercase, is_empty, is_some, contains_text, retain, ltb, leb, ◌==◌, Result,
  ok, err, ◌>>=◌, reject_if, ok_or, if◌then◌else◌,
}
use tron_hawk.Common.Int.{minus}
use tron_hawk.Ipc.Envelope.{RpcError}
use tron_hawk.Daemon.Network.Domains.{domain_allows}

-- What the code uses of `url::Url`.
pub record UrlApi (U : Type 0) : Type 0 where
  pub parse : Str → Option U
  pub scheme : U → Str
  pub username : U → Str
  pub password : U → Option Str
  pub is_ipv6 : U → Bool
  pub host_str : U → Option Str
  pub port_or_known_default : U → Option ℕ
  pub join : U → Str → Option U

pub record OutboundResponse : Type 0 where
  pub status : ℕ
  pub headers : List (Str × Str)
  pub body : List ℕ

-- A request as it goes out, with the host and the port that its URL was checked for.
pub record Hop (U : Type 0) : Type 0 where
  pub url : U
  pub host : Str
  pub port : ℕ
  pub method : Str
  pub headers : List (Str × Str)
  pub body : List ℕ

pub record Audit : Type 0 where
  pub host : Str
  pub status : ℕ
  pub bytes : ℕ

-- What went out, what was audited, and the last host's response or the error.
pub record Exchange (U : Type 0) : Type 0 where
  pub sent : List (Hop U)
  pub audits : List Audit
  pub outcome : Result RpcError (Str × OutboundResponse)

pub data Verdict (U : Type 0) : Type 0 where
  done : Exchange U → Verdict U
  redirect : ℕ → Str → Verdict U

abbrev pub max_redirects : ℕ
max_redirects = 5

-- An error of the code -n.
abbrev pub reject : ℕ → Str → RpcError
reject n m = record { code = minus n; message = m }

-- `trim_end_matches('.')`
unfoldable pub trim_dots : Str → Str
trim_dots [] = []
trim_dots (c ∷ s) = let rest = trim_dots s in if c == b'.' && is_empty rest then [] else c ∷ rest

abbrev pub is_redirect_status : ℕ → Bool
is_redirect_status status = leb 300 status && ltb status 400

-- The first header of a name, in any case.
unfoldable pub response_header : List (Str × Str) → Str → Option Str
response_header [] name = none
response_header ((header_name, value) ∷ headers) name =
    if str_eq (lowercase header_name) (lowercase name)
    then some value
    else response_header headers name

abbrev pub is_credential : Str → Bool
is_credential name =
    let lower = lowercase name in
    str_eq lower (codes "authorization") || str_eq lower (codes "cookie")

abbrev pub without_credentials : List (Str × Str) → List (Str × Str)
without_credentials headers = retain (λ h. not (is_credential h.0)) headers

abbrev pub is_get_or_head : Str → Bool
is_get_or_head method = str_eq method (codes "GET") || str_eq method (codes "HEAD")

-- The method and the body behind a redirect.
unfoldable pub redirected : ℕ → Str → List ℕ → Str × List ℕ
redirected status method body =
    if status == 303
    then ((if str_eq method (codes "HEAD") then method else codes "GET"), [])
    else if (status == 301 || status == 302) && not (is_get_or_head method)
    then (codes "GET", [])
    else (method, body)

module _ {U : Type 0} (api : UrlApi U) where
  -- The host, in lower case, and the port of a URL that may be requested.
  unfoldable pub validate_request_url : U → Result RpcError (Str × ℕ)
  unfolding trim_dots
  validate_request_url url =
      reject_if (not (contains_text (codes "http" ∷ codes "https" ∷ []) (api.scheme url)))
        (reject 32003 (codes "only http:// and https:// URLs may be requested"))
      >>= λ _.
          reject_if (not (is_empty (api.username url)) || is_some (api.password url))
            (reject 32003 (codes "URLs containing credentials are not allowed"))
          >>= λ _.
              reject_if (api.is_ipv6 url)
                (reject 32003 (codes "IPv6 literal hosts cannot match a network.domains whitelist"))
              >>= λ _.
                  ok_or (api.host_str url) (reject 32003 (codes "url must include a host"))
                  >>= λ raw_host.
                      ok_or (api.port_or_known_default url)
                        (reject 32003 (codes "url must include a port"))
                      >>= λ port.
                          reject_if (is_empty (lowercase (trim_dots raw_host)))
                            (reject 32003 (codes "url must include a host"))
                          >>= λ _. ok (lowercase (trim_dots raw_host), port)

  -- The next request: credential headers stay behind when the host changes.
  abbrev pub hop_to : Hop U → ℕ → U → Str × ℕ → Hop U
  hop_to hop status url target = record {
    url = url;
    host = target.0;
    port = target.1;
    method = (redirected status hop.method hop.body).0;
    headers =
        if not (str_eq target.0 hop.host) then without_credentials hop.headers else hop.headers;
    body = (redirected status hop.method hop.body).1;
  }

  -- The hop that a redirect asks for.
  unfoldable pub next_hop : List Str → Str → Hop U → ℕ → Str → Result RpcError (Hop U)
  unfolding validate_request_url domain_allows redirected
  next_hop whitelist plugin_id hop status location =
      ok_or (api.join hop.url location)
        (reject 32004 (codes "redirect location could not be resolved"))
      >>= λ url. validate_request_url url >>= λ target.
          reject_if (not (domain_allows target.0 target.1 whitelist)) (
            reject 32003 (
              codes "redirect target host `"
              ++ (target.0
                  ++ (codes "` is not allowed by plugin `"
                      ++ (plugin_id ++ codes "` network.domains")))))
          >>= λ _. ok (hop_to hop status url target)

  module _ (http : ℕ → Hop U → Result Str OutboundResponse) where
    abbrev pub audit_failure : Hop U → List Audit
    audit_failure hop = record { host = hop.host; status = 0; bytes = 0 } ∷ []

    -- Where a response sends the loop: nowhere, or to a location.
    abbrev pub location_of : OutboundResponse → Option Str
    location_of response =
        if not (is_redirect_status response.status)
        then none
        else response_header response.headers (codes "location")

    -- What one hop comes to: the end of the exchange, or the status and the location of a redirect.
    unfoldable pub verdict : ℕ → Hop U → Result Str OutboundResponse → Verdict U
    unfolding response_header
    verdict left hop (err e) = done (record {
      sent = hop ∷ [];
      audits = audit_failure hop;
      outcome = err (reject 32004 (codes "network request failed: " ++ e));
    })
    verdict left hop (ok response) = elim (location_of response) [
      | none ↦ done (record { sent = hop ∷ []; audits = []; outcome = ok (hop.host, response) })
      | some location ↦
          if left == 0
          then done (record {
            sent = hop ∷ [];
            audits = audit_failure hop;
            outcome = err (reject 32004 (codes "too many redirects (limit 5)"));
          })
          else redirect response.status location
    ]

    abbrev pub prepend : Hop U → Exchange U → Exchange U
    prepend hop rest = record {
      sent = hop ∷ rest.sent;
      audits = rest.audits;
      outcome = rest.outcome;
    }

    abbrev pub refused : Hop U → RpcError → Exchange U
    refused hop e = record { sent = hop ∷ []; audits = []; outcome = err e }

    -- The loop, with the number of redirects that it may still follow; `http` is also told which
    -- of the hops it executes. With none left, `verdict` ends the exchange.
    unfoldable pub follow : List Str → Str → ℕ → Hop U → Exchange U
    unfolding verdict next_hop
    follow whitelist plugin_id zero hop = elim (verdict zero hop (http max_redirects hop)) [
      | done exchange ↦ exchange
      | redirect status location ↦ refused hop (reject 32004 (codes "too many redirects (limit 5)"))
    ]
    follow whitelist plugin_id (suc left) hop =
        elim (verdict (suc left) hop (http (max_redirects - suc left) hop)) [
          | done exchange ↦ exchange
          | redirect status location ↦ elim (next_hop whitelist plugin_id hop status location) [
            | err e ↦ refused hop e
            | ok next ↦ prepend hop (follow whitelist plugin_id left next)
          ]
        ]
