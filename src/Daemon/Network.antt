-- ===== src/Daemon/Network.antt =====
-- `network_request` of crates/core/src/daemon.rs: an HTTP request that Core makes for a plugin.
-- The `url` crate and the transport are parameters; the answer holds what was sent and audited.
pub mod Domains
pub mod Guard
pub mod Wildcard
pub mod Entries
pub mod Follow
use tron_hawk.Common.{
  ℕ, Bool, true, false, not, ◌&&◌, ◌||◌, Option, none, some, List, [], ◌∷◌, ◌++◌, map, Str, codes,
  str_eq, contains, contains_text, lowercase, is_alphanumeric, is_lower, is_empty, bytes, len,
  length, any, all, ltb, ◌==◌, ◌-◌, ◌*◌, Result, ok, err, ◌>>◌, ◌>>=◌, reject_if, ok_or,
  if◌then◌else◌,
}
use tron_hawk.Common.Int.{minus}
use tron_hawk.Common.Map.{Map}
use tron_hawk.Package.Plugin.{Plugin, NetworkManifest}
use tron_hawk.Ipc.Envelope.{RpcError}
use tron_hawk.Daemon.State.{PluginGrant, ExecutionPlan, Core, RouterError, Env}
use tron_hawk.Daemon.Installed.{installed_plugins}
use tron_hawk.Daemon.Plan.{execution_plan}
use tron_hawk.Daemon.Handlers.{find_plugin}
use tron_hawk.Daemon.Network.Domains.{domain_allows}
use tron_hawk.Daemon.Network.Follow.{
  UrlApi, OutboundResponse, Hop, Audit, Exchange, follow, max_redirects, validate_request_url,
  reject,
}

abbrev pub allowed_request_methods : List Str
allowed_request_methods =
    codes "GET" ∷ codes "HEAD" ∷ codes "POST" ∷ codes "PUT" ∷ codes "PATCH" ∷ codes "DELETE" ∷ []

abbrev pub core_controlled_headers : List Str
core_controlled_headers =
    codes "host" ∷ codes "content-length" ∷ codes "transfer-encoding" ∷ codes "connection" ∷ []

-- `to_ascii_uppercase`
abbrev pub uppercase : Str → Str
uppercase s = map (λ c. if is_lower c then c - 32 else c) s

-- The token characters of a header name.
abbrev pub valid_header_name : Str → Bool
valid_header_name name = all (λ c. is_alphanumeric c || contains c (codes "!#$%&'*+-.^_`|~")) name

unfoldable pub check_header : Str → Str → Result RpcError (Unit {0})
check_header name value =
    reject_if (is_empty name || ltb 128 (len name) || not (valid_header_name name))
      (reject 32602 (codes "invalid request header name `" ++ (name ++ codes "`")))
    >> reject_if (contains_text core_controlled_headers (lowercase name))
        (reject 32602 (codes "header `" ++ (name ++ codes "` is controlled by Core")))
    >> reject_if (ltb 8192 (len value) || contains b'\r' value || contains b'\n' value)
        (reject 32602 (codes "invalid request header value for `" ++ (name ++ codes "`")))

unfoldable pub check_headers : Map Str → Result RpcError (Unit {0})
unfolding check_header
check_headers [] = ok tt
check_headers ((name, value) ∷ headers) = check_header name value >> check_headers headers

-- The bytes of the body, under the caps of a request.
unfoldable pub check_body : Str → Option Str → Result RpcError (List ℕ)
check_body method none = ok []
check_body method (some text) =
    reject_if (ltb (1024 * 1024) (len text))
      (reject 32602 (codes "request body exceeds the 1 MiB limit"))
    >>= (λ _.
        reject_if
          ((str_eq method (codes "GET") || str_eq method (codes "HEAD")) && not (is_empty text))
          (reject 32602 (codes "request bodies are not allowed for GET or HEAD"))
        >>= λ _. ok (bytes text))

-- The caps on a response.
unfoldable pub check_response : OutboundResponse → Result RpcError (Unit {0})
check_response response =
    reject_if (ltb 128 (length response.headers))
      (reject 32004 (codes "response has too many headers (limit 128)"))
    >> reject_if (any (λ h. ltb 128 (len h.0) || ltb 8192 (len h.1)) response.headers)
        (reject 32004 (codes "response headers exceed the size limits"))
    >> reject_if (ltb (1024 * 1024) (length response.body))
        (reject 32004 (codes "response body exceeds the 1 MiB limit"))

abbrev pub find_grant : Str → List PluginGrant → Option PluginGrant
find_grant id [] = none
find_grant id (grant ∷ grants) = if str_eq grant.id id then some grant else find_grant id grants

abbrev pub domains_of : Option NetworkManifest → List Str
domains_of none = []
domains_of (some network) = network.domains

-- The whitelist of a plugin found among the installed ones.
unfoldable pub whitelist_of :
    Str → Result RouterError (List Plugin) × Core → Result RpcError (List Str) × Core
whitelist_of plugin_id (err e, core) = (err (reject 32603 (codes "internal error")), core)
whitelist_of plugin_id (ok plugins, core) = elim (find_plugin plugin_id plugins) [
  | none ↦ (err (reject 32603 (codes "internal error")), core)
  | some plugin ↦ (
    (if is_empty (domains_of plugin.network)
        then err (
            reject 32003 (
              codes "plugin `"
              ++ (plugin_id
                  ++ codes "` declares no `network.domains`; the domain whitelist is empty")))
        else ok (domains_of plugin.network)),
    core,
  )
]

unfoldable pub authorize_plan :
    Env → Str → Result RouterError ExecutionPlan × Core → Result RpcError (List Str) × Core
unfolding whitelist_of
authorize_plan env plugin_id (err e, core) = (err (reject 32603 (codes "internal error")), core)
authorize_plan env plugin_id (ok plan, core) = elim (find_grant plugin_id plan.plugins) [
  | none ↦ (
    err (
        reject 32003
          (codes "plugin `" ++ (plugin_id ++ codes "` is not in the current execution plan"))),
    core,
  )
  | some grant ↦
      if not (contains_text grant.granted (codes "network.access"))
      then (
        err (
            reject 32003
              (codes "plugin `" ++ (plugin_id ++ codes "` is not granted `network.access`"))),
        core,
      )
      else whitelist_of plugin_id (installed_plugins env core)
]

unfoldable pub authorize_network_request :
    Env → Str → Str → Core → Result RpcError (List Str) × Core
unfolding authorize_plan execution_plan
authorize_network_request env application_id plugin_id core =
    authorize_plan env plugin_id (execution_plan env application_id core)

pub record NetworkParams : Type 0 where
  pub plugin_id : Str
  pub url : Str
  pub method : Option Str
  pub headers : Option (Map Str)
  pub body : Option Str

abbrev pub method_of : Option Str → Str
method_of none = codes "GET"
method_of (some method) = uppercase method

abbrev pub headers_of : Option (Map Str) → Map Str
headers_of none = []
headers_of (some headers) = headers

-- The response that is relayed, after the caps, with the audit of a finished exchange.
unfoldable pub relay : {U : Type 0} → Exchange U → Exchange U
unfolding check_response
relay exchange = elim exchange.outcome [
  | err e ↦ exchange
  | ok (host, response) ↦ elim (check_response response) [
    | err e ↦ record { sent = exchange.sent; audits = exchange.audits; outcome = err e }
    | ok _ ↦ record {
      sent = exchange.sent;
      audits =
          exchange.audits
          ++ record { host = host; status = response.status; bytes = length response.body } ∷ [];
      outcome = ok (host, response);
    }
  ]
]

module _ {U : Type 0} (api : UrlApi U) where
  -- The URL, with a host and a port that the whitelist allows.
  unfoldable pub checked_url : NetworkParams → List Str → Result RpcError (U × (Str × ℕ))
  unfolding validate_request_url domain_allows
  checked_url params whitelist =
      reject_if (ltb (16 * 1024) (len params.url)) (reject 32602 (codes "url is too long")) >>= λ _.
      ok_or (api.parse params.url)
        (reject 32602 (codes "url must be an absolute http:// or https:// URL"))
      >>= λ url. validate_request_url api url >>= λ target.
          reject_if (not (domain_allows target.0 target.1 whitelist)) (
            reject 32003 (
              codes "host `"
              ++ (target.0
                  ++ (codes "` is not allowed by plugin `"
                      ++ (params.plugin_id ++ codes "` network.domains")))))
          >>= λ _. ok (url, target)

  -- The first hop, once the method, the body and the headers have passed too.
  unfoldable pub first_hop : NetworkParams → List Str → Result RpcError (Hop U)
  unfolding checked_url check_body check_headers
  first_hop params whitelist = checked_url params whitelist >>= λ checked.
      reject_if (not (contains_text allowed_request_methods (method_of params.method))) (
        reject 32602 (
          codes "unsupported method `"
          ++ (method_of params.method ++ codes "` (allowed: GET, HEAD, POST, PUT, PATCH, DELETE)")))
      >>= λ _. check_body (method_of params.method) params.body >>= λ body.
          reject_if (ltb 64 (length (headers_of params.headers)))
            (reject 32602 (codes "too many request headers (limit 64)"))
          >>= λ _. check_headers (headers_of params.headers) >>= λ _. ok (record {
            url = checked.0;
            host = checked.1.0;
            port = checked.1.1;
            method = method_of params.method;
            headers = headers_of params.headers;
            body = body;
          })

  module _ (http : ℕ → Hop U → Result Str OutboundResponse) where
    abbrev pub exchange_of :
        Str → Result RpcError (List Str) × Core → NetworkParams → Exchange U × Core
    exchange_of application_id (err e, core) params =
        (record { sent = []; audits = []; outcome = err e }, core)
    exchange_of application_id (ok whitelist, core) params = (
      elim (first_hop params whitelist) [
        | err e ↦ record { sent = []; audits = []; outcome = err e }
        | ok hop ↦ relay (follow api http whitelist params.plugin_id max_redirects hop)
      ],
      core,
    )

    unfoldable pub network_request : Env → Str → NetworkParams → Core → Exchange U × Core
    unfolding authorize_network_request first_hop relay follow
    network_request env application_id params core =
        exchange_of application_id
          (authorize_network_request env application_id params.plugin_id core) params
