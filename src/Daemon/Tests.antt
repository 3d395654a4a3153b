-- ===== src/Daemon/Tests.antt =====
-- The properties of crates/core/src/daemon.rs at concrete inputs.
mod Install
mod Logs
mod StateFile
use tron_hawk.Common.{
  ℕ, ◌≡◌, ◌↔◌, refl, true, false, none, some, [], ◌∷◌, ◌++◌, Str, codes, replicate, All, Result, ok,
  zero, suc, ◌≤◌, contains_text, str_eq, split, bytes, join, arith,
}
use tron_hawk.Package.Plugin.{Plugin}
use tron_hawk.Common.Map.{lookup}
use tron_hawk.Common.Decimal.{max_u64, to_decimal, parse_unsigned, saturating_add}
use tron_hawk.Ipc.Client.{Hmac}
use tron_hawk.Ipc.Hex.{is_lowercase_hex}
use tron_hawk.Ipc.Hex.Laws.{AreBytes}
use tron_hawk.Daemon.Network.{NetworkParams, network_request}
use tron_hawk.Daemon.Network.Domains.{host_allows}
use tron_hawk.Daemon.Network.Follow.{UrlApi, OutboundResponse, Hop}
use tron_hawk.Daemon.Network.Guard.{IsContained, network_request-IsContained}
use tron_hawk.Daemon.Network.Wildcard.{host_allows_iff}
use tron_hawk.Daemon.RateLimit.{ingest}
use tron_hawk.Daemon.RateLimit.Recent.{recent}
use tron_hawk.Daemon.RateLimit.Window.{IsCharged, ingest-IsCharged}
use tron_hawk.Daemon.Token.{
  launch_token_payload, is_application_id, token_future_tolerance_secs, launch_token_mac,
  sign_launch_token, verify_launch_token,
}
use tron_hawk.Json.{null}
use tron_hawk.Ipc.Hex.{constant_time_eq, hex_encode}
use tron_hawk.Ipc.Envelope.{Request, protocol_version}
use tron_hawk.Daemon.Router.{Keys, execution, handle_request}
use tron_hawk.Daemon.Router.Authorized.{
  IsAuthorized, handle_request-IsAuthorized, handle_request-sign_launch_token,
}
use tron_hawk.Daemon.Token.Laws.{verify-sign_launch_token, verify_launch_token_sound}
use tron_hawk.Daemon.State.{
  PluginPolicy, ApplicationState, DaemonState, default_state, PluginGrant, ExecutionPlan, Core,
  RouterError, Env, commit_state,
}
use tron_hawk.Daemon.Plan.{capabilities_for_support_level, execution_plan, make_plan}
use tron_hawk.Daemon.Plan.Sound.{InPlan, execution_plan-InPlan, plan_unsafe}
use tron_hawk.Daemon.Handlers.{CanonicalExecutable, save}
use tron_hawk.Daemon.Handlers.Invariant.{IsSound}
use tron_hawk.Daemon.Handlers.Policy.{PolicyParams, repeats, requested_policy, set_policy}
use tron_hawk.Daemon.Handlers.Policy.Stored.{IsStored, set_policy-IsStored}
use tron_hawk.Daemon.Control.{register, policy, developer_mode, handle_control, handled, here, next}
use tron_hawk.Daemon.Control.Reachable.{handle_control-IsKept, Reaches-IsSound}
use tron_hawk.Daemon.Handlers.Invariant.{IsKept}

abbrev app : Str
app = codes "app"

abbrev plugin : Plugin
plugin = record {
  id = codes "p";
  name = codes "P";
  version = codes "1.0.0";
  author = codes "A";
  tronhawk = codes "^0.1";
  permissions = codes "network.access" ∷ codes "renderer.css" ∷ [];
  css = some (codes "a{}");
  renderer = none;
  main = none;
  config = [];
  network = some (record { domains = codes "*.example.com" ∷ [] });
}

abbrev granted : PluginPolicy
granted = record {
  enabled = true;
  grants = codes "network.access" ∷ codes "renderer.css" ∷ [];
  config = [];
}

abbrev application : ApplicationState
application = record {
  executable_path = codes "C:\\a.exe";
  display_name = codes "a.exe";
  support_level = 2;
  plugins = (codes "p", granted) ∷ [];
}

abbrev state : DaemonState
state = record {
  schema_version = 1;
  global = record { developer_mode = false; core_autostart = true };
  applications = (app, application) ∷ [];
}

abbrev core : Core
core = record {
  state = state;
  disk = state;
  plugin_cache = none;
  renderer_gate_drops = [];
  events = [];
}

abbrev env : Env
env = record {
  write = λ s. ok tt;
  log_takes = λ e. true;
  fingerprint = some (codes "f");
  scan = ok (plugin ∷ []);
  to_json = λ grants. [];
}

abbrev grant : PluginGrant
grant = record {
  id = codes "p";
  version = codes "1.0.0";
  granted = codes "network.access" ∷ codes "renderer.css" ∷ [];
  css = some (codes "a{}");
  renderer = none;
  main = none;
  config = [];
}

abbrev plan : ExecutionPlan
plan = make_plan env (grant ∷ [])

plan_computes : (execution_plan env app core).0 ≡ ok plan
unfolding execution_plan lookup str_eq capabilities_for_support_level
plan_computes = refl

execution_plan-InPlan_example : All (InPlan env core app) plan.plugins
execution_plan-InPlan_example = execution_plan-InPlan env core app plan plan_computes

plan_unsafe_example :
    All
      (λ g.
        contains_text g.granted (codes "runtime.unsafe") ≡ true
        → (core.state.global.developer_mode ≡ true)
          × ((a : ApplicationState) × (lookup app core.state.applications ≡ some a)
              × (a.support_level ≡ 2)))
      plan.plugins
plan_unsafe_example = plan_unsafe env core app plan plan_computes

core-IsSound : IsSound core
unfolding capabilities_for_support_level str_eq
core-IsSound = (((omega arith, (((refl, (refl, tt)), λ on zero. cc zero), tt)), tt), refl)

abbrev canonical : Str → Result RouterError CanonicalExecutable
canonical path = ok (record { path = path; display_name = path })

abbrev id_for : Str → Str
id_for path = app

abbrev both : PolicyParams
both = record {
  application_id = app;
  plugin_id = codes "p";
  enabled = true;
  grants = codes "renderer.css" ∷ [];
}

handle_control-IsKept_example : IsKept core (handle_control canonical id_for env (policy both) core)
handle_control-IsKept_example =
    handle_control-IsKept canonical id_for env (policy both) core core-IsSound

set_policy_computes : (set_policy env both core).0 ≡ ok (requested_policy both application)
unfolding set_policy lookup str_eq capabilities_for_support_level repeats save commit_state
set_policy_computes = refl

set_policy-IsStored_example :
    (a : ApplicationState) × (lookup app core.state.applications ≡ some a)
    × IsStored both a
        (requested_policy both application)
        core.state
        (set_policy env both core).1.state
set_policy-IsStored_example =
    set_policy-IsStored env both core (requested_policy both application) set_policy_computes

abbrev initial : Core
initial = record {
  state = default_state;
  disk = default_state;
  plugin_cache = none;
  renderer_gate_drops = [];
  events = [];
}

abbrev registered : Core
registered = (handle_control canonical id_for env (register (codes "a") 2) initial).1

abbrev switched : Core
switched = (handle_control canonical id_for env (developer_mode true) registered).1

Reaches-IsSound_example : IsSound switched
Reaches-IsSound_example =
    Reaches-IsSound canonical id_for initial switched
      (next initial registered switched
        (handled env (register (codes "a") 2) initial registered refl)
        (next registered switched switched
          (handled env (developer_mode true) registered switched refl) (here switched)))
      (tt, refl)

-- A URL is its host here, on port 443.
abbrev api : UrlApi Str
api = record {
  parse = λ url. some url;
  scheme = λ url. codes "https";
  username = λ url. [];
  password = λ url. none;
  is_ipv6 = λ url. false;
  host_str = λ url. some url;
  port_or_known_default = λ url. some 443;
  join = λ url location. some location;
}

-- The first answer is a redirect.
abbrev http : ℕ → Hop Str → Result Str OutboundResponse
http zero hop =
    ok
      (record { status = 302; headers = (codes "Location", codes "b.example.com") ∷ []; body = [] })
http (suc n) hop = ok (record { status = 200; headers = []; body = [] })

abbrev network_params : NetworkParams
network_params = record {
  plugin_id = codes "p";
  url = codes "a.example.com";
  method = none;
  headers = some ((codes "Cookie", codes "c") ∷ []);
  body = none;
}

network_request-IsContained_example :
    IsContained api http env app network_params core
      (network_request api http env app network_params core).0.sent
network_request-IsContained_example =
    network_request-IsContained api http env app network_params core

host_allows_iff_example :
    (host_allows (codes "*.a.b") (codes "x.a.b") ≡ true)
    ↔ ((label : Str) × (codes "x.a.b" ≡ label ++ (b'.' ∷ codes "a.b")))
host_allows_iff_example = host_allows_iff (codes "*.a.b") (codes "x.a.b")

ingest-IsCharged_example : IsCharged 100 app 5 [] (ingest 100 app 5 [])
unfolding recent lookup
ingest-IsCharged_example =
    ingest-IsCharged 100 0 app 5 [] [] (omega arith) (omega arith) (λ c h. omega arith)

zeros-AreBytes : (n : ℕ) → AreBytes (replicate n 0)
zeros-AreBytes zero = tt
zeros-AreBytes (suc n) = (omega arith, zeros-AreBytes n)

abbrev hmac : Hmac
hmac = record {
  mac = λ key message. replicate 32 0;
  mac_bytes = λ key message. zeros-AreBytes 32;
  mac_length = λ key message. refl;
}

abbrev token_app : Str
token_app = codes "winexe-v1:" ++ replicate 64 b'a'

abbrev nonce : Str
nonce = replicate 16 b'b'

abbrev token : Str
token = sign_launch_token hmac (codes "key") token_app 1000 nonce

verify-sign_launch_token_example :
    verify_launch_token hmac 1001 (codes "key") token
    ≡ some (record { application_id = token_app; issued_at = 1000 })
unfolding is_application_id bytes is_lowercase_hex
verify-sign_launch_token_example =
    verify-sign_launch_token hmac (codes "key") 1001 1000 token_app nonce refl refl refl
      (ground arith) (ground arith)

token_verified :
    verify_launch_token hmac 1001 (codes "key") token
    ≡ some (record { application_id = token_app; issued_at = 1000 })
unfolding is_application_id bytes is_lowercase_hex
token_verified =
    verify-sign_launch_token hmac (codes "key") 1001 1000 token_app nonce refl refl refl
      (ground arith) (ground arith)

verify_launch_token_sound_example :
    (payload issued used : Str) × (token
      ≡ payload ++ (b'.' ∷ launch_token_mac hmac (codes "key") payload))
    × (split b'.' payload ≡ codes "v1" ∷ token_app ∷ issued ∷ used ∷ [])
    × (parse_unsigned max_u64 issued ≡ some 1000)
    × (is_application_id token_app ≡ true)
    × (1000 ≤ saturating_add 1001 token_future_tolerance_secs)
verify_launch_token_sound_example =
    verify_launch_token_sound hmac (codes "key") 1001 token
      (record { application_id = token_app; issued_at = 1000 }) token_verified

abbrev keys : Keys
keys = record { control_token = codes "control"; launch_key = codes "key" }

abbrev plan_request : Request
plan_request = record {
  version = protocol_version;
  id = 7;
  method = codes "getExecutionPlan";
  params = null;
  secret = token;
}

not_control : constant_time_eq (bytes token) (bytes keys.control_token) ≡ false
unfolding bytes constant_time_eq sign_launch_token launch_token_payload launch_token_mac join
    to_decimal hex_encode
not_control = refl

handle_request-sign_launch_token_example :
    handle_request hmac keys (some 1599) plan_request ≡ execution token_app
unfolding is_application_id bytes is_lowercase_hex
handle_request-sign_launch_token_example =
    handle_request-sign_launch_token hmac keys 1000 1599 token_app nonce plan_request refl refl refl
      refl not_control refl refl refl (ground arith) (ground arith) (ground arith)

handle_request-IsAuthorized_example :
    IsAuthorized hmac keys
      (some 1599)
      plan_request
      (handle_request hmac keys (some 1599) plan_request)
handle_request-IsAuthorized_example = handle_request-IsAuthorized hmac keys (some 1599) plan_request
