-- ===== src/Daemon/Handlers/Policy/Stored.antt =====
-- What `set_policy` of crates/core/src/daemon.rs stores.
use tron_hawk.Common.{
  ◌≡◌, refl, sym, ap, ◌∙◌, ◌&&◌, Option, none, some, List, [], Str, str_eq, if◌then◌else◌, ok, err,
  ◌==◌, Option-cases, Bool-cases, Result-cases, err-ne-ok, inl, inr,
}
use mathlib.Core.Path.{subst}
use tron_hawk.Json.{Json}
use tron_hawk.Common.Map.{Map, lookup, insert, lookup-insert}
use tron_hawk.Package.Plugin.{Plugin}
use tron_hawk.Daemon.State.{PluginPolicy, ApplicationState, DaemonState, Core, Env, commit_state}
use tron_hawk.Daemon.Installed.{installed_plugins}
use tron_hawk.Daemon.Installed.Cache.{installed_plugins_keeps}
use tron_hawk.Daemon.Plan.{capabilities_for_support_level}
use tron_hawk.Daemon.Handlers.{
  Answer, save, find_plugin, with_plugin, update, set_applications, set_plugins,
}
use tron_hawk.Daemon.Handlers.Invariant.{append_core_event_keeps}
use tron_hawk.Daemon.Handlers.Policy.{
  PolicyParams, check_grants, stored_config, requested_policy, set_policy_of, set_policy,
}

save-state :
    {A : Type 0} (env : Env) (next : DaemonState) (a : Str) (p : Option Str) (c m : Str)
    (value out : A) (core : Core)
    → (save env next a p c m value core).0 ≡ ok out
    → (value ≡ out) × ((save env next a p c m value core).1.state ≡ next)
unfolding save commit_state
save-state env next a p c m value out core h = elim (Result-cases (env.write next)) [
  | inr (message, e) ↦ err-ne-ok (rw (e, save, commit_state) at h)
  | inl (done, e) ↦ (
    cc (rw (e, save, commit_state) at h),
    rw (e, save, commit_state)
        (append_core_event_keeps env a p c m (record core { state = next; disk = next })).0,
  )
]

lookup-update :
    (k j : Str) (f : ApplicationState → ApplicationState) (apps : Map ApplicationState)
    (application : ApplicationState)
    → lookup k apps ≡ some application
    → lookup j (update k f apps) ≡ (if str_eq k j then some (f application) else lookup j apps)
unfolding update
lookup-update k j f apps application found =
    rw (found, update, lookup-insert k j (f application) apps) refl

-- The config is that of the policy before, or empty where there was none.
abbrev pub IsConfigOf : Option PluginPolicy → Map Json → Type 0
IsConfigOf none config = config ≡ []
IsConfigOf (some old) config = config ≡ old.config

-- The policy has what was asked for and the config that was stored, and is the application's policy
-- for the plugin; the rest of the application, the other applications and the global settings are
-- as they were.
abbrev pub IsStored :
    PolicyParams → ApplicationState → PluginPolicy → DaemonState → DaemonState → Type 0
IsStored params application policy before state =
    (after : ApplicationState) × (policy.enabled ≡ params.enabled)
    × (policy.grants ≡ params.grants)
    × IsConfigOf (lookup params.plugin_id application.plugins) policy.config
    × (after.executable_path ≡ application.executable_path)
    × (after.display_name ≡ application.display_name)
    × (after.support_level ≡ application.support_level)
    × ((j : Str)
        → lookup j after.plugins
          ≡ (if str_eq params.plugin_id j then some policy else lookup j application.plugins))
    × ((a : Str)
        → lookup a state.applications
          ≡ (if str_eq params.application_id a then some after else lookup a before.applications))
    × (state.global ≡ before.global)
    × (state.schema_version ≡ before.schema_version)

-- Where the config of a request comes from.
stored_config-IsConfigOf : (old : Option PluginPolicy) → IsConfigOf old (stored_config old)
stored_config-IsConfigOf none = refl
stored_config-IsConfigOf (some old) = refl

-- The application with the policy, in the state that is saved.
requested-IsStored :
    (params : PolicyParams) (application : ApplicationState) (policy : PluginPolicy)
    (before : DaemonState)
    → lookup params.application_id before.applications ≡ some application
    → requested_policy params application ≡ policy
    → IsStored params application policy before (
        set_applications
          (update params.application_id
            (λ target. set_plugins (insert params.plugin_id policy target.plugins) target)
            before.applications)
          before)
requested-IsStored params application policy before found same = (
  set_plugins (insert params.plugin_id policy application.plugins) application,
  ap (λ p. p.enabled) (sym same),
  ap (λ p. p.grants) (sym same),
  subst (λ p. IsConfigOf (lookup params.plugin_id application.plugins) p.config) same
      (stored_config-IsConfigOf (lookup params.plugin_id application.plugins)),
  refl,
  refl,
  refl,
  λ j. lookup-insert params.plugin_id j policy application.plugins,
  λ a.
      lookup-update params.application_id a
        (λ target. set_plugins (insert params.plugin_id policy target.plugins) target)
        before.applications application found,
  refl,
  refl,
)

set_policy_of-IsStored :
    (env : Env) (params : PolicyParams) (application : ApplicationState) (plugin : Plugin)
    (core : Core) (policy : PluginPolicy)
    → lookup params.application_id core.state.applications ≡ some application
    → (set_policy_of env params application plugin core).0 ≡ ok policy
    → IsStored params application policy core.state
        (set_policy_of env params application plugin core).1.state
unfolding set_policy_of
set_policy_of-IsStored env params application plugin core policy found h =
    let supported =
      capabilities_for_support_level application.support_level core.state.global.developer_mode in
    elim (Result-cases (check_grants plugin.permissions supported params.grants)) [
      | inr (e, refused) ↦ err-ne-ok (rw (refused, set_policy_of) at h)
      | inl (done, passed) ↦
          let (same, after) =
            save-state env _ _ _ _ _ _ policy core (rw (passed, set_policy_of) at h) in
          rw (passed, set_policy_of)
            (subst (IsStored params application policy core.state) (sym after)
              (rw same (requested-IsStored params application policy core.state found same)))
    ]

with_plugin-IsStored :
    (env : Env) (params : PolicyParams) (application : ApplicationState) (policy : PluginPolicy)
    (answer : Answer (List Plugin))
    → lookup params.application_id answer.1.state.applications ≡ some application
    → (with_plugin (set_policy_of env params application) params.plugin_id answer).0 ≡ ok policy
    → IsStored params application policy answer.1.state
        (with_plugin (set_policy_of env params application) params.plugin_id answer).1.state
unfolding with_plugin
with_plugin-IsStored env params application policy (err e, core) found h = err-ne-ok h
with_plugin-IsStored env params application policy (ok plugins, core) found h =
    elim (Option-cases (find_plugin params.plugin_id plugins)) [
      | inl missing ↦ err-ne-ok (rw (missing, with_plugin) at h)
      | inr (plugin, there) ↦
          rw (there, with_plugin)
            (set_policy_of-IsStored env params application plugin core policy found
              (rw (there, with_plugin) at h))
    ]

-- If `set_policy` returns a policy, the application was registered, the policy has what was asked
-- for and the config that was stored, or an empty one where none was, and the application then has
-- this policy for the plugin, with its other policies and fields, the other applications and the
-- global settings as they were.
pub set_policy-IsStored :
    (env : Env) (params : PolicyParams) (core : Core) (policy : PluginPolicy)
    → (set_policy env params core).0 ≡ ok policy
    → (application : ApplicationState) × (lookup params.application_id core.state.applications
        ≡ some application)
      × IsStored params application policy core.state (set_policy env params core).1.state
unfolding set_policy
set_policy-IsStored env params core policy h =
    elim (Option-cases (lookup params.application_id core.state.applications)) [
      | inl missing ↦ err-ne-ok (rw (missing, set_policy) at h)
      | inr (application, found) ↦
          elim (Bool-cases (params.enabled && (application.support_level == 0))) [
            | inl refused ↦ err-ne-ok (rw (found, refused, set_policy) at h)
            | inr allowed ↦ (
              application,
              found,
              rw (found, allowed, set_policy)
                  (subst
                    (λ s.
                      IsStored params application policy s
                        (with_plugin (set_policy_of env params application) params.plugin_id
                          (installed_plugins env core)).1.state)
                    ((installed_plugins_keeps env core).0)
                    (with_plugin-IsStored env params application policy (installed_plugins env core)
                      (ap (λ s. lookup params.application_id s.applications)
                          (installed_plugins_keeps env core).0
                        ∙ found)
                      (rw (found, allowed, set_policy) at h))),
            )
          ]
    ]
