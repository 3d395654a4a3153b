-- ===== src/Daemon/Handlers/Policy.antt =====
-- The handlers of a plugin's policy and config in crates/core/src/daemon.rs.
pub mod Laws
pub mod Stored
use tron_hawk.Common.{
  ℕ, Bool, true, false, not, ◌&&◌, ◌||◌, Option, none, some, List, [], ◌∷◌, ◌++◌, Str, codes, any,
  len, ltb, ◌==◌, contains_text, Result, ok, err, ◌>>◌, reject_if, if◌then◌else◌,
}
use tron_hawk.Common.Map.{Map, lookup, insert, contains_key}
use tron_hawk.Json.{Json, string}
use tron_hawk.Package.Plugin.{ConfigType, type_name, matches_type, ConfigField, Plugin}
use tron_hawk.Daemon.State.{
  PluginPolicy, default_policy, ApplicationState, Core, RouterError, invalid_params, Env,
}
use tron_hawk.Daemon.Installed.{installed_plugins}
use tron_hawk.Daemon.Plan.{capabilities_for_support_level, merge_plugin_config}
use tron_hawk.Daemon.Handlers.{Answer, save, with_plugin, update, set_applications, set_plugins}

pub record PolicyParams : Type 0 where
  pub application_id : Str
  pub plugin_id : Str
  pub enabled : Bool
  pub grants : List Str

-- `any(|grant| !seen.insert(grant))`
unfoldable pub repeats : List Str → List Str → Bool
repeats seen [] = false
repeats seen (grant ∷ grants) = contains_text seen grant || repeats (grant ∷ seen) grants

unfoldable pub check_grants : List Str → List Str → List Str → Result RouterError (Unit {0})
check_grants permissions supported grants =
    reject_if (repeats [] grants) (invalid_params (codes "grants must not contain duplicates"))
    >> reject_if (any (λ grant. not (contains_text permissions grant)) grants)
        (invalid_params (codes "grants must be requested by the plugin"))
    >> reject_if (any (λ grant. not (contains_text supported grant)) grants)
        (invalid_params (codes "grants are unavailable at the application's support level"))

abbrev pub stored_config : Option PluginPolicy → Map Json
stored_config none = []
stored_config (some policy) = policy.config

abbrev pub stored_policy : Option PluginPolicy → PluginPolicy
stored_policy none = default_policy
stored_policy (some policy) = policy

-- The policy that the request asks for; the stored config stays.
abbrev pub requested_policy : PolicyParams → ApplicationState → PluginPolicy
requested_policy params application = record {
  enabled = params.enabled;
  grants = params.grants;
  config = stored_config (lookup params.plugin_id application.plugins);
}

-- `set_policy` behind the lookups of the application and of the plugin.
unfoldable pub set_policy_of :
    Env → PolicyParams → ApplicationState → Plugin → Core → Answer PluginPolicy
unfolding check_grants
set_policy_of env params application plugin core =
    let supported =
      capabilities_for_support_level application.support_level core.state.global.developer_mode in
    elim (check_grants plugin.permissions supported params.grants) [
      | err e ↦ (err e, core)
      | ok _ ↦
          let policy = requested_policy params application in
          save env
            (set_applications
              (update params.application_id
                (λ target. set_plugins (insert params.plugin_id policy target.plugins) target)
                core.state.applications)
              core.state)
            params.application_id (some params.plugin_id) (codes "core.policy.updated")
            (codes "Application plugin policy updated") policy core
    ]

unfoldable pub set_policy : Env → PolicyParams → Core → Answer PluginPolicy
unfolding set_policy_of with_plugin installed_plugins
set_policy env params core = elim (lookup params.application_id core.state.applications) [
  | none ↦ (err (invalid_params (codes "application not found")), core)
  | some application ↦
      if params.enabled && (application.support_level == 0)
      then (err (invalid_params (codes "Level 0 applications cannot enable plugins")), core)
      else with_plugin (set_policy_of env params application) params.plugin_id
          (installed_plugins env core)
]

-- Stored values overlaid on the defaults of the schema.
unfoldable pub get_plugin_config : Env → Str → Str → Core → Answer (Map Json)
unfolding with_plugin installed_plugins
get_plugin_config env application_id plugin_id core =
    elim (lookup application_id core.state.applications) [
      | none ↦ (err (invalid_params (codes "application not found")), core)
      | some application ↦
          with_plugin
            (λ plugin after. (
              ok (
                  merge_plugin_config plugin.config
                    (stored_config (lookup plugin.id application.plugins))),
              after,
            ))
            plugin_id (installed_plugins env core)
    ]

-- A string value of a string field has at most 4096 bytes.
abbrev pub too_long : ConfigType → Json → Bool
too_long ConfigType.string (string s) = ltb 4096 (len s)
too_long _ _ = false

unfoldable pub check_keys : Map ConfigField → Map Json → Result RouterError (Unit {0})
check_keys fields [] = ok tt
check_keys fields ((key, value) ∷ config) =
    reject_if (not (contains_key key fields))
      (invalid_params (codes "unknown config key `" ++ (key ++ codes "`")))
    >> check_keys fields config

unfoldable pub check_value : Str → ConfigField → Json → Result RouterError (Unit {0})
check_value key field value =
    reject_if (not (matches_type field.field_type value)) (
      invalid_params
        (codes "config key `" ++ (key ++ (codes "` must be a " ++ type_name field.field_type))))
    >> reject_if (too_long field.field_type value)
        (invalid_params (codes "config key `" ++ (key ++ codes "` must be at most 4096 bytes")))

-- `check_keys` has found every key, so the index `plugin.config[key]` does not panic.
unfoldable pub check_values : Map ConfigField → Map Json → Result RouterError (Unit {0})
unfolding check_value
check_values fields [] = ok tt
check_values fields ((key, value) ∷ config) =
    let rest = check_values fields config in
    elim (lookup key fields) [ none ↦ rest | some field ↦ check_value key field value >> rest ]

unfoldable pub set_config_of : Env → Str → Str → Map Json → Plugin → Core → Answer (Map Json)
unfolding check_keys check_values
set_config_of env application_id plugin_id config plugin core =
    elim (check_keys plugin.config config >> check_values plugin.config config) [
      | err e ↦ (err e, core)
      | ok _ ↦
          save env
            (set_applications
              (update application_id
                (λ target.
                  let old = stored_policy (lookup plugin_id target.plugins) in
                  set_plugins (insert plugin_id (record old { config = config }) target.plugins)
                    target)
                core.state.applications)
              core.state)
            application_id (some plugin_id) (codes "core.plugin_config.updated")
            (codes "Plugin config updated") (merge_plugin_config plugin.config config) core
    ]

unfoldable pub set_plugin_config : Env → Str → Str → Map Json → Core → Answer (Map Json)
unfolding set_config_of with_plugin installed_plugins
set_plugin_config env application_id plugin_id config core =
    if not (contains_key application_id core.state.applications)
    then (err (invalid_params (codes "application not found")), core)
    else with_plugin (set_config_of env application_id plugin_id config) plugin_id
        (installed_plugins env core)
