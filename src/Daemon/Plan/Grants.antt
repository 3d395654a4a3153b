-- ===== src/Daemon/Plan/Grants.antt =====
-- What the plan of an application grants.
use mathlib.Core.List.{Memᴰ}
use tron_hawk.Common.{
  ◌≡◌, ◌≢◌, refl, Bool, true, false, ◌&&◌, ◌||◌, Option, none, some, List, [], ◌∷◌, Str, codes,
  str_eq, any, All, All-map, All-zip, All-retain, All-retain_test, contains_text, contains_text-All,
  retain, arith, if◌then◌else◌, Option-cases, inl, inr, ◌⊎◌,
}
use tron_hawk.Common.Map.{Map, lookup}
use tron_hawk.Package.Plugin.{Plugin}
use tron_hawk.Daemon.State.{PluginPolicy, PluginGrant, Core, Env}
use tron_hawk.Daemon.Plan.{
  effective_grants, plugin_grant, merge_plugin_config, update_drop, planned, plan_loop,
}

-- A capability is granted by the policy, asked for by the plugin, and supported.
pub record IsAllowed (policy : PluginPolicy) (plugin : Plugin) (supported : List Str) (c : Str)
    : Type 0 where
  pub by_policy : contains_text policy.grants c ≡ true
  pub requested : contains_text plugin.permissions c ≡ true
  pub is_supported : contains_text supported c ≡ true

effective_grants-All :
    (policy : PluginPolicy) (plugin : Plugin) (supported : List Str)
    → All (IsAllowed policy plugin supported) (effective_grants policy plugin supported)
unfolding effective_grants
effective_grants-All policy plugin supported =
    let test : Str → Bool =
      λ grant. contains_text plugin.permissions grant && contains_text supported grant in
    All-map (λ c h. ground arith) (retain test policy.grants)
      (All-zip (λ c. contains_text policy.grants c ≡ true) (λ c. test c ≡ true)
        (retain test policy.grants)
        (All-retain (λ c. contains_text policy.grants c ≡ true) test policy.grants
          (contains_text-All policy.grants))
        (All-retain_test test policy.grants))

-- Why a plugin stands in a plan, and what of it does.
pub record IsGranted (policies : Map PluginPolicy) (supported : List Str) (plugins : List Plugin)
    (grant : PluginGrant) : Type 0 where
  pub plugin : Plugin
  pub policy : PluginPolicy
  pub installed : Memᴰ plugin plugins
  pub same_id : grant.id ≡ plugin.id
  pub found : lookup plugin.id policies ≡ some policy
  pub enabled : policy.enabled ≡ true
  pub allowed : All (IsAllowed policy plugin supported) grant.granted
  pub some_granted : grant.granted ≢ []
  pub css_gate : grant.css ≢ none → contains_text grant.granted (codes "renderer.css") ≡ true
  pub renderer_gate :
      grant.renderer ≢ none
      → (contains_text grant.granted (codes "renderer.script") ≡ true)
        ⊎ (contains_text grant.granted (codes "runtime.unsafe") ≡ true)
  pub main_gate :
      grant.main ≢ none
      → (contains_text grant.granted (codes "electron.window") ≡ true)
        ⊎ (contains_text grant.granted (codes "runtime.unsafe") ≡ true)

-- A test for either of two texts finds one of them.
any_either :
    (texts : List Str) (s t : Str)
    → any (λ g. str_eq g s || str_eq g t) texts ≡ true
    → (contains_text texts s ≡ true) ⊎ (contains_text texts t ≡ true)
any_either [] s t h = cc
any_either (x ∷ texts) s t h = ground (arith, any_either texts s t)

planned_sound :
    (policies : Map PluginPolicy) (supported : List Str) (plugin : Plugin) (policy : PluginPolicy)
    (effective : List Str)
    → planned policies supported plugin ≡ some (policy, effective)
    → (lookup plugin.id policies ≡ some policy)
      × (policy.enabled ≡ true)
      × (effective ≡ effective_grants policy plugin supported)
      × (effective ≢ [])
unfolding planned
planned_sound policies supported plugin policy effective e =
    elim (Option-cases (lookup plugin.id policies)) [
      | inl missed ↦ ground arith
      | inr (p, found) ↦ ground arith
    ]

unless {ℓ} : {A : Type ℓ} (b : Bool) (o : Option A) → (if b then o else none) ≢ none → b ≡ true
unless true o h = refl
unless false o h = absurd (h refl)

module _ (env : Env) (application_id : Str) (policies : Map PluginPolicy)
    (supported : List Str) where
  grant-IsGranted :
      (plugin : Plugin) (policy : PluginPolicy) (effective : List Str) (plugins : List Plugin)
      → planned policies supported plugin ≡ some (policy, effective)
      → IsGranted policies supported
          (plugin ∷ plugins)
          (plugin_grant plugin effective (merge_plugin_config plugin.config policy.config))
  unfolding plugin_grant
  grant-IsGranted plugin policy effective plugins e =
      let (found, enabled, exact, nonempty) =
        planned_sound policies supported plugin policy effective e in
      record {
        plugin = plugin;
        policy = policy;
        installed = Memᴰ.head refl;
        same_id = refl;
        found = found;
        enabled = enabled;
        allowed = rw exact (effective_grants-All policy plugin supported);
        some_granted = nonempty;
        css_gate = unless _ plugin.css;
        renderer_gate = λ h. any_either effective _ _ (unless _ plugin.renderer h);
        main_gate = λ h. any_either effective _ _ (unless _ plugin.main h);
      }

  later-IsGranted :
      (plugin : Plugin) (plugins : List Plugin) (grant : PluginGrant)
      → IsGranted policies supported plugins grant
      → IsGranted policies supported (plugin ∷ plugins) grant
  later-IsGranted plugin plugins grant h = record {
    plugin = h.plugin;
    policy = h.policy;
    installed = Memᴰ.tail h.installed;
    same_id = h.same_id;
    found = h.found;
    enabled = h.enabled;
    allowed = h.allowed;
    some_granted = h.some_granted;
    css_gate = h.css_gate;
    renderer_gate = h.renderer_gate;
    main_gate = h.main_gate;
  }

  plan_loop_skip :
      (plugin : Plugin) (plugins : List Plugin) (core : Core)
      → planned policies supported plugin ≡ none
      → plan_loop env application_id policies supported (plugin ∷ plugins) core
        ≡ plan_loop env application_id policies supported plugins core
  unfolding plan_loop
  plan_loop_skip plugin plugins core e = rw (e, plan_loop)

  plan_loop_take :
      (plugin : Plugin) (plugins : List Plugin) (core : Core) (policy : PluginPolicy)
      (effective : List Str)
      → planned policies supported plugin ≡ some (policy, effective)
      → (plan_loop env application_id policies supported (plugin ∷ plugins) core).0
        ≡ plugin_grant plugin effective (merge_plugin_config plugin.config policy.config)
          ∷ (plan_loop env application_id policies supported plugins
              (update_drop env application_id plugin effective core)).0
  unfolding plan_loop
  plan_loop_take plugin plugins core policy effective e = rw (e, plan_loop)

  pub plan_loop-IsGranted :
      (plugins : List Plugin) (core : Core)
      → All
          (IsGranted policies supported plugins)
          (plan_loop env application_id policies supported plugins core).0
  plan_loop-IsGranted [] core = unfold plan_loop in tt
  plan_loop-IsGranted (plugin ∷ plugins) core =
      elim (Option-cases (planned policies supported plugin)) [
        | inl skipped ↦
            rw (plan_loop_skip plugin plugins core skipped)
              (All-map (later-IsGranted plugin plugins) _ (plan_loop-IsGranted plugins core))
        | inr ((policy, effective), e) ↦
            rw (plan_loop_take plugin plugins core policy effective e) (
              grant-IsGranted plugin policy effective plugins e,
              All-map (later-IsGranted plugin plugins) _ (plan_loop-IsGranted plugins _),
            )
      ]
