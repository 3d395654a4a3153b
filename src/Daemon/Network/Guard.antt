-- ===== src/Daemon/Network/Guard.antt =====
-- What has to hold before `network_request` of crates/core/src/daemon.rs sends anything.
use tron_hawk.Common.{
  ℕ, ◌*◌, ◌≤◌, ◌≡◌, refl, sym, ap, ◌∙◌, Bool, true, false, Option, none, some, is_empty, List, [],
  ◌∷◌, Str, codes, str_eq, str_eq_iff, len, length, ltb, All, All-contains_text, contains_text,
  Result, ok, err, arith, Option-cases, Bool-cases, Result-cases, err-ne-ok, inl, inr,
}
use mathlib.Core.Path.{subst}
use tron_hawk.Common.Map.{lookup}
use tron_hawk.Package.Plugin.{Plugin, NetworkManifest}
use tron_hawk.Ipc.Envelope.{RpcError}
use tron_hawk.Daemon.State.{
  PluginPolicy, ApplicationState, PluginGrant, ExecutionPlan, Core, RouterError, Env,
}
use tron_hawk.Daemon.Installed.{installed_plugins}
use tron_hawk.Daemon.Plan.{execution_plan, capabilities_for_support_level}
use tron_hawk.Daemon.Plan.Grants.{IsAllowed}
use tron_hawk.Daemon.Plan.Sound.{InPlan, execution_plan-InPlan}
use tron_hawk.Daemon.Handlers.{find_plugin}
use tron_hawk.Daemon.Network.Domains.{domain_allows}
use tron_hawk.Daemon.Network.Follow.{
  UrlApi, OutboundResponse, Hop, Exchange, max_redirects, validate_request_url, follow,
}
use tron_hawk.Daemon.Network.Follow.Laws.{IsTarget, IsGuarded, follow-AreGuarded}
use tron_hawk.Daemon.Network.{
  NetworkParams, checked_url, first_hop, relay, exchange_of, network_request, find_grant,
  domains_of, whitelist_of, authorize_plan, authorize_network_request,
}

find_grant_sound :
    (id : Str) (grants : List PluginGrant) (grant : PluginGrant) (P : PluginGrant → Type 0)
    → All P grants
    → find_grant id grants ≡ some grant
    → P grant × (grant.id ≡ id)
find_grant_sound id [] grant P h e = absurd (cc e)
find_grant_sound id (g ∷ grants) grant P h e = elim (Bool-cases (str_eq g.id id)) [
  | inl same ↦ let e' : g ≡ grant = ground arith in rw (← e') (h.0, (str_eq_iff g.id id).0 same)
  | inr other ↦ find_grant_sound id grants grant P h.1 (ground arith)
]

network_supported :
    (level : ℕ) (mode : Bool)
    → contains_text (capabilities_for_support_level level mode) (codes "network.access") ≡ true
    → level ≡ 2
unfolding capabilities_for_support_level str_eq
network_supported level mode h = ground arith

-- What stands behind an authorised request.
pub record IsAuthorized (core : Core) (application_id plugin_id : Str) : Type 0 where
  pub application : ApplicationState
  pub policy : PluginPolicy
  pub registered : lookup application_id core.state.applications ≡ some application
  pub level : application.support_level ≡ 2
  pub found : lookup plugin_id application.plugins ≡ some policy
  pub enabled : policy.enabled ≡ true
  pub granted : contains_text policy.grants (codes "network.access") ≡ true

-- The whitelist is what the manifest of the installed plugin declares.
abbrev pub IsDeclared : Str → Result RouterError (List Plugin) → List Str → Type 0
IsDeclared plugin_id answer whitelist =
    (plugins : List Plugin) × (plugin : Plugin) × (network : NetworkManifest) × (answer
      ≡ ok plugins)
    × (find_plugin plugin_id plugins ≡ some plugin)
    × (plugin.network ≡ some network)
    × (network.domains ≡ whitelist)

domains_of_sound :
    (network : Option NetworkManifest)
    → is_empty (domains_of network) ≡ false
    → (declared : NetworkManifest) × (network ≡ some declared)
domains_of_sound none h = absurd (cc h)
domains_of_sound (some declared) h = (declared, refl)

whitelist_of-IsDeclared :
    (plugin_id : Str) (answer : Result RouterError (List Plugin) × Core) (whitelist : List Str)
    → (whitelist_of plugin_id answer).0 ≡ ok whitelist
    → IsDeclared plugin_id answer.0 whitelist
unfolding whitelist_of
whitelist_of-IsDeclared plugin_id (err e, core) whitelist h = err-ne-ok h
whitelist_of-IsDeclared plugin_id (ok plugins, core) whitelist h =
    elim (Option-cases (find_plugin plugin_id plugins)) [
      | inl missing ↦ err-ne-ok (rw (missing, whitelist_of) at h)
      | inr (plugin, found) ↦ elim (Bool-cases (is_empty (domains_of plugin.network))) [
        | inl none_declared ↦ err-ne-ok (rw (found, none_declared, whitelist_of) at h)
        | inr some_declared ↦
            let (network, declared) = domains_of_sound plugin.network some_declared in
            let same : domains_of plugin.network ≡ whitelist =
              cc (rw (found, some_declared, whitelist_of) at h) in
            (plugins, plugin, network, refl, found, declared, ap domains_of (sym declared) ∙ same)
      ]
    ]

module _ (env : Env) (application_id plugin_id : Str) (core : Core) where
  grant-IsAuthorized :
      (grant : PluginGrant)
      → InPlan env core application_id grant
      → grant.id ≡ plugin_id
      → contains_text grant.granted (codes "network.access") ≡ true
      → IsAuthorized core application_id plugin_id
  grant-IsAuthorized grant p same has =
      let supported =
        capabilities_for_support_level p.application.support_level
          core.state.global.developer_mode in
      let allowed =
        All-contains_text (IsAllowed p.granted.policy p.granted.plugin supported) grant.granted
          (codes "network.access") p.granted.allowed has in
      record {
        application = p.application;
        policy = p.granted.policy;
        registered = p.registered;
        level =
            network_supported p.application.support_level core.state.global.developer_mode
              allowed.is_supported;
        found =
            ap (λ id. lookup id p.application.plugins) (sym same ∙ p.granted.same_id)
            ∙ p.granted.found;
        enabled = p.granted.enabled;
        granted = allowed.by_policy;
      }

  authorize_plan_sound :
      (answer : Result RouterError ExecutionPlan × Core) (whitelist : List Str)
      → (execution_plan env application_id core).0 ≡ answer.0
      → (authorize_plan env plugin_id answer).0 ≡ ok whitelist
      → IsAuthorized core application_id plugin_id
        × IsDeclared plugin_id (installed_plugins env answer.1).0 whitelist
  unfolding authorize_plan
  authorize_plan_sound (err e, after) whitelist same h = err-ne-ok h
  authorize_plan_sound (ok plan, after) whitelist same h =
      elim (Option-cases (find_grant plugin_id plan.plugins)) [
        | inl missing ↦ err-ne-ok (rw (missing, authorize_plan) at h)
        | inr (grant, found) ↦
            elim (Bool-cases (contains_text grant.granted (codes "network.access"))) [
              | inr lacks ↦ err-ne-ok (rw (found, lacks, authorize_plan) at h)
              | inl has ↦
                  let (p, id) =
                    find_grant_sound plugin_id plan.plugins grant (InPlan env core application_id)
                      (execution_plan-InPlan env core application_id plan same) found in
                  (
                    grant-IsAuthorized grant p id has,
                    whitelist_of-IsDeclared plugin_id (installed_plugins env after) whitelist
                        (rw (found, has, authorize_plan) at h),
                  )
            ]
      ]

  -- A request is authorised only for a registered application of support level 2 whose policy for
  -- the plugin is enabled and grants `network.access`; the whitelist is that of its manifest.
  pub authorize_network_request_sound :
      (whitelist : List Str)
      → (authorize_network_request env application_id plugin_id core).0 ≡ ok whitelist
      → IsAuthorized core application_id plugin_id
        × IsDeclared plugin_id
            (installed_plugins env (execution_plan env application_id core).1).0
            whitelist
  unfolding authorize_network_request
  authorize_network_request_sound whitelist h =
      authorize_plan_sound (execution_plan env application_id core) whitelist refl h

module _ {U : Type 0} (api : UrlApi U) (params : NetworkParams) (whitelist : List Str) where
  checked_url_sound :
      (checked : U × (Str × ℕ))
      → checked_url api params whitelist ≡ ok checked
      → (api.parse params.url ≡ some checked.0)
        × (validate_request_url api checked.0 ≡ ok checked.1)
        × (domain_allows checked.1.0 checked.1.1 whitelist ≡ true)
  unfolding checked_url
  checked_url_sound checked h = elim (Bool-cases (ltb (16 * 1024) (len params.url))) [
    | inl long ↦ err-ne-ok (rw (long, checked_url) at h)
    | inr fits ↦ elim (Option-cases (api.parse params.url)) [
      | inl unread ↦ err-ne-ok (rw (fits, unread, checked_url) at h)
      | inr (url, parsed) ↦ elim (Result-cases (validate_request_url api url)) [
        | inr (e, invalid) ↦ err-ne-ok (rw (fits, parsed, invalid, checked_url) at h)
        | inl (target, valid) ↦ elim (Bool-cases (domain_allows target.0 target.1 whitelist)) [
          | inr refused ↦ err-ne-ok (rw (fits, parsed, valid, refused, checked_url) at h)
          | inl allowed ↦
              let e : checked ≡ (url, target) =
                cc (rw (fits, parsed, valid, allowed, checked_url) at h) in
              rw e (parsed, valid, allowed)
        ]
      ]
    ]
  ]

  -- The first hop goes where the URL that is asked for leads.
  first_hop-IsTarget :
      (hop : Hop U)
      → first_hop api params whitelist ≡ ok hop
      → IsTarget api whitelist hop × (api.parse params.url ≡ some hop.url)
  unfolding first_hop
  first_hop-IsTarget hop h = elim (Result-cases (checked_url api params whitelist)) [
    | inr (e, refused) ↦ err-ne-ok (rw (refused, first_hop) at h)
    | inl (checked, passed) ↦
        let (parsed, valid, allowed) = checked_url_sound checked passed in
        let same : hop ≡ record {
          url = checked.0;
          host = checked.1.0;
          port = checked.1.1;
          method = hop.method;
          headers = hop.headers;
          body = hop.body;
        } =
          ground (arith, passed) in
        rw same ((valid, allowed), parsed)
  ]

relay-sent : {U : Type 0} (exchange : Exchange U) → (relay exchange).sent ≡ exchange.sent
unfolding relay
relay-sent exchange = ground arith

module _ {U : Type 0} (api : UrlApi U) (http : ℕ → Hop U → Result Str OutboundResponse) (env : Env)
    (application_id : Str) (params : NetworkParams) (core : Core) where
  -- The requests of a call: none, or the call is authorised and each of at most 6 goes where the
  -- domains of the plugin's manifest allow, and to another host than that of the URL asked for only
  -- without credentials.
  pub data IsContained (sent : List (Hop U)) : Type 0 where
    silent : sent ≡ [] → IsContained sent
    guarded :
        (plugins : List Plugin) (plugin : Plugin) (network : NetworkManifest) (url : U)
        (origin : Str) (port : ℕ)
        → IsAuthorized core application_id params.plugin_id
        → (installed_plugins env (execution_plan env application_id core).1).0 ≡ ok plugins
        → find_plugin params.plugin_id plugins ≡ some plugin
        → plugin.network ≡ some network
        → api.parse params.url ≡ some url
        → validate_request_url api url ≡ ok (origin, port)
        → All (IsGuarded api network.domains params.plugin_id http origin) sent
        → length sent ≤ 6
        → IsContained sent

  exchange_of-IsContained :
      (answer : Result RpcError (List Str) × Core)
      → (authorize_network_request env application_id params.plugin_id core).0 ≡ answer.0
      → IsContained (exchange_of api http application_id answer params).0.sent
  exchange_of-IsContained (err e, after) same = silent refl
  exchange_of-IsContained (ok whitelist, after) same =
      elim (Result-cases (first_hop api params whitelist)) [
        | inr (e, refused) ↦ rw (refused, exchange_of) (silent refl)
        | inl (hop, passed) ↦
            let (target, parsed) = first_hop-IsTarget api params whitelist hop passed in
            let (all, few) =
              follow-AreGuarded api whitelist params.plugin_id http hop.host max_redirects hop
                target (inl refl) in
            let sent = relay-sent (follow api http whitelist params.plugin_id max_redirects hop) in
            let (authorized, source) =
              authorize_network_request_sound env application_id params.plugin_id core whitelist
                same in
            let (plugins, plugin, network, installed, found, declared, domains) = source in
            rw (passed, exchange_of)
              (guarded plugins plugin network hop.url hop.host hop.port authorized installed found
                declared parsed target.0
                (subst
                  (λ ds.
                    All (IsGuarded api ds params.plugin_id http hop.host)
                      (relay (follow api http whitelist params.plugin_id max_redirects hop)).sent)
                  (sym domains) (rw sent all))
                (rw sent few))
      ]

  -- Every call of `network_request` is contained: it sends nothing, or the application is
  -- registered at support level 2, its policy for the plugin is enabled and grants
  -- `network.access`, and each of at most 6 requests goes to a host and a port that its URL has and
  -- that the domains in the manifest of the installed plugin allow, with no credential header
  -- unless to the host of the URL that the plugin asked for.
  pub network_request-IsContained :
      IsContained (network_request api http env application_id params core).0.sent
  unfolding network_request
  network_request-IsContained =
      exchange_of-IsContained (authorize_network_request env application_id params.plugin_id core)
        refl
