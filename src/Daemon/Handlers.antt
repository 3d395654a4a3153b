-- ===== src/Daemon/Handlers.antt =====
-- The control handlers of crates/core/src/daemon.rs that change the applications and their
-- policies. A handler takes its parameters already decoded and returns the values of its answer.
pub mod Invariant
pub mod Kept
pub mod Policy
use tron_hawk.Common.{
  ℕ, Bool, true, false, not, ◌&&◌, ◌||◌, Option, none, some, List, [], ◌∷◌, ◌++◌, Str, codes,
  str_eq, any, all, retain, len, ltb, leb, ◌==◌, contains_text, Result, ok, err, ◌>>◌, reject_if,
  if◌then◌else◌,
}
use tron_hawk.Common.Map.{Map, lookup, insert, remove, contains_key, map_values}
use tron_hawk.Json.{Json, string}
use tron_hawk.Package.Plugin.{ConfigType, type_name, matches_type, ConfigField, Plugin}
use tron_hawk.Daemon.State.{
  GlobalState, PluginPolicy, default_policy, ApplicationState, DaemonState, Core, RouterError,
  invalid_params, Env, append_core_event, commit_state,
}
use tron_hawk.Daemon.Installed.{installed_plugins}
use tron_hawk.Daemon.Plan.{capabilities_for_support_level, merge_plugin_config, forget_application}

-- What a handler returns, and the state behind it.
abbrev pub Answer : Type 0 → Type 0
Answer A = Result RouterError A × Core

-- `write_state(…)?; inner.state = next; append_core_event(…); Ok(value)`
unfoldable pub save :
    {A : Type 0} → Env → DaemonState → Str → Option Str → Str → Str → A → Core → Answer A
save env next application_id plugin_id code message value core = elim (commit_state env next core) [
  | err e ↦ (err e, core)
  | ok after ↦ (ok value, append_core_event env application_id plugin_id code message after)
]

abbrev pub find_plugin : Str → List Plugin → Option Plugin
find_plugin id [] = none
find_plugin id (plugin ∷ plugins) =
    if str_eq plugin.id id then some plugin else find_plugin id plugins

-- `installed_plugins(inner)?.into_iter().find(…).ok_or_else(…)?`
unfoldable pub with_plugin :
    {A : Type 0} → (Plugin → Core → Answer A) → Str → Answer (List Plugin) → Answer A
with_plugin k id (err e, core) = (err e, core)
with_plugin k id (ok plugins, core) = elim (find_plugin id plugins) [
  | none ↦ (err (invalid_params (codes "plugin not found")), core)
  | some plugin ↦ k plugin core
]

-- An assignment through `get_mut`.
unfoldable pub update {ℓ} : {V : Type ℓ} → Str → (V → V) → Map V → Map V
update k f m = elim (lookup k m) [ none ↦ m | some v ↦ insert k (f v) m ]

abbrev pub set_applications : Map ApplicationState → DaemonState → DaemonState
set_applications applications state = record state { applications = applications }

abbrev pub set_plugins : Map PluginPolicy → ApplicationState → ApplicationState
set_plugins plugins application = record application { plugins = plugins }

-- `canonical_executable`'s result: the path of the executable and its file name.
pub record CanonicalExecutable : Type 0 where
  pub path : Str
  pub display_name : Str

unfoldable pub validate_support_level : ℕ → Result RouterError (Unit {0})
validate_support_level level =
    if leb level 2 then ok tt else err (invalid_params (codes "supportLevel must be 0, 1, or 2"))

-- The policies of a registered application survive only at the same support level.
unfoldable pub existing_plugins : ℕ → Option ApplicationState → Map PluginPolicy
existing_plugins level none = []
existing_plugins level (some application) =
    if application.support_level == level
    then application.plugins
    else map_values (λ _. default_policy) application.plugins

-- `canonical_executable` and `application_id_for_canonical_path` ask the file system and SHA-256.
unfoldable pub register_application :
    (Str → Result RouterError CanonicalExecutable)
    → (Str → Str)
    → Env
    → Str
    → ℕ
    → Core
    → Answer (Str × ApplicationState)
unfolding existing_plugins
register_application canonical_executable application_id_for env executable_path support_level
      core =
    elim (validate_support_level support_level) [
      | err e ↦ (err e, core)
      | ok _ ↦ elim (canonical_executable executable_path) [
        | err e ↦ (err e, core)
        | ok canonical ↦
            let application_id = application_id_for canonical.path in
            let application : ApplicationState = record {
              executable_path = canonical.path;
              display_name = canonical.display_name;
              support_level = support_level;
              plugins =
                  existing_plugins support_level (lookup application_id core.state.applications);
            } in
            save env
              (set_applications (insert application_id application core.state.applications)
                core.state)
              application_id none (codes "core.application.registered")
              (codes "Application registered") (application_id, application) core
      ]
    ]

unfoldable pub remove_application : Env → Str → Core → Answer (Unit {0})
remove_application env application_id core =
    if not (contains_key application_id core.state.applications)
    then (err (invalid_params (codes "application not found")), core)
    else elim (commit_state env
        (set_applications (remove application_id core.state.applications) core.state) core) [
          | err e ↦ (err e, core)
          | ok after ↦ (
            ok tt,
            append_core_event env application_id none (codes "core.application.removed")
                (codes "Application removed")
                (record after {
                  renderer_gate_drops = forget_application application_id after.renderer_gate_drops;
                }),
          )
        ]

abbrev pub revoke_unsafe : PluginPolicy → PluginPolicy
revoke_unsafe policy = record policy {
  grants = retain (λ grant. not (str_eq grant (codes "runtime.unsafe"))) policy.grants;
}

-- The state after a change of developer mode.
unfoldable pub switch_mode : Bool → DaemonState → DaemonState
switch_mode enabled state = record {
  schema_version = state.schema_version;
  global = record { developer_mode = enabled; core_autostart = state.global.core_autostart };
  applications =
      if not enabled
      then map_values
          (λ application. set_plugins (map_values revoke_unsafe application.plugins) application)
          state.applications
      else state.applications;
}

abbrev pub same_bool : Bool → Bool → Bool
same_bool true b = b
same_bool false b = not b

unfoldable pub set_developer_mode : Env → Bool → Core → Answer Bool
unfolding switch_mode
set_developer_mode env enabled core =
    if same_bool core.state.global.developer_mode enabled
    then (ok enabled, core)
    else save env (switch_mode enabled core.state) (codes "global") none
        (codes "core.developerMode.updated")
        (if enabled
          then codes "Developer mode enabled"
          else codes "Developer mode disabled; runtime.unsafe grants revoked")
        enabled core
