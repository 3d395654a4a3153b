-- ===== src/Daemon/Plan.antt =====
-- `execution_plan` of crates/core/src/daemon.rs and the functions that it uses.
pub mod Grants
pub mod Sound
use tron_hawk.Common.{
  ℕ, Bool, true, false, not, ◌&&◌, ◌||◌, Option, none, some, List, [], ◌∷◌, ◌++◌, Str, codes,
  str_eq, join, any, retain, is_empty, contains_text, is_some, Result, ok, err, ◌==◌, if◌then◌else◌,
}
use tron_hawk.Common.Map.{Map, lookup, insert}
use tron_hawk.Json.{Json}
use tron_hawk.Package.Plugin.{ConfigField, Plugin}
use tron_hawk.Daemon.Hash.{hash_bytes}
use tron_hawk.Daemon.Installed.{installed_plugins}
use tron_hawk.Daemon.State.{
  PluginPolicy, ApplicationState, GateDrop, PluginGrant, ExecutionPlan, Core, RouterError, Env,
  append_core_event,
}

abbrev pub implemented_renderer_capabilities : List Str
implemented_renderer_capabilities = codes "renderer.css" ∷ codes "renderer.script" ∷ []

abbrev pub implemented_level_two_capabilities : List Str
implemented_level_two_capabilities =
    codes "renderer.css"
    ∷ codes "renderer.script"
    ∷ codes "renderer.dom"
    ∷ codes "renderer.storage"
    ∷ codes "electron.window"
    ∷ codes "electron.windowControls"
    ∷ codes "network.access"
    ∷ []

abbrev pub implemented_level_two_developer_capabilities : List Str
implemented_level_two_developer_capabilities =
    codes "renderer.css"
    ∷ codes "renderer.script"
    ∷ codes "renderer.dom"
    ∷ codes "renderer.storage"
    ∷ codes "electron.window"
    ∷ codes "electron.windowControls"
    ∷ codes "network.access"
    ∷ codes "runtime.unsafe"
    ∷ []

unfoldable pub capabilities_for_support_level : ℕ → Bool → List Str
capabilities_for_support_level level developer_mode =
    if level == 1
    then implemented_renderer_capabilities
    else if level == 2
    then (if developer_mode
        then implemented_level_two_developer_capabilities
        else implemented_level_two_capabilities)
    else []

-- Schema defaults overlaid with stored values, restricted to the declared keys.
unfoldable pub merge_plugin_config : Map ConfigField → Map Json → Map Json
merge_plugin_config [] stored = []
merge_plugin_config ((key, field) ∷ fields) stored =
    let merged = merge_plugin_config fields stored in
    elim (lookup key stored) [
      | some value ↦ insert key value merged
      | none ↦ elim field.default [ some value ↦ insert key value merged | none ↦ merged ]
    ]

-- The grants of the policy that the plugin asks for and the support level has.
unfoldable pub effective_grants : PluginPolicy → Plugin → List Str → List Str
effective_grants policy plugin supported =
    retain (λ grant. contains_text plugin.permissions grant && contains_text supported grant)
      policy.grants

abbrev pub has_renderer_gate : List Str → Bool
has_renderer_gate granted =
    any (λ g. str_eq g (codes "renderer.script") || str_eq g (codes "runtime.unsafe")) granted

-- `plugin_grant` of the plugin whose permissions are the effective ones and whose payloads are
-- those that these gate.
unfoldable pub plugin_grant : Plugin → List Str → Map Json → PluginGrant
plugin_grant plugin effective config = record {
  id = plugin.id;
  version = plugin.version;
  granted = effective;
  css = if any (λ g. str_eq g (codes "renderer.css")) effective then plugin.css else none;
  renderer = if has_renderer_gate effective then plugin.renderer else none;
  main =
      if any (λ g. str_eq g (codes "electron.window") || str_eq g (codes "runtime.unsafe"))
        effective
      then plugin.main
      else none;
  config = config;
}

-- The map of drops, by application and plugin.
abbrev pub is_key : Str → Str → GateDrop → Bool
is_key application_id plugin_id d =
    str_eq d.application_id application_id && str_eq d.plugin_id plugin_id

unfoldable pub find_drop : Str → Str → List GateDrop → Option Str
find_drop a p [] = none
find_drop a p (d ∷ ds) = if is_key a p d then some d.fingerprint else find_drop a p ds

abbrev pub remove_drop : Str → Str → List GateDrop → List GateDrop
remove_drop a p drops = retain (λ d. not (is_key a p d)) drops

abbrev pub insert_drop : Str → Str → Str → List GateDrop → List GateDrop
insert_drop a p f drops =
    record { application_id = a; plugin_id = p; fingerprint = f } ∷ remove_drop a p drops

-- `retain(|key, _| key.0 != application_id)`
abbrev pub forget_application : Str → List GateDrop → List GateDrop
forget_application a drops = retain (λ d. not (str_eq d.application_id a)) drops

-- `retain(|key, _| key.0 != application_id || active_drops.contains(key))`
abbrev pub prune_drops : Str → List Str → List GateDrop → List GateDrop
prune_drops a active drops =
    retain (λ d. not (str_eq d.application_id a) || contains_text active d.plugin_id) drops

unfoldable pub drop_message : Str → Str
drop_message plugin_id =
    codes "renderer payload dropped for plugin `"
    ++ (plugin_id
        ++ codes
            "`: effective grants lack both `renderer.script` and `runtime.unsafe` (`renderer.script` is the execution gate for renderer JS, `runtime.unsafe` is the Developer-mode escape hatch that unlocks it at runtime; pack-time rule `tronhawk-package` still requires `entry.renderer` to declare `renderer.script`; `renderer.dom`/`renderer.storage`/`renderer.css`/`electron.windowControls` are additional capabilities only)")

-- The test `renderer_gate_drops.get(&key) != Some(&fingerprint)`.
abbrev pub is_new_drop : Str → Option Str → Bool
is_new_drop fingerprint none = true
is_new_drop fingerprint (some old) = not (str_eq old fingerprint)

-- A drop is logged on entry, or if its effective grants changed.
unfoldable pub note_drop : Env → Str → Str → List Str → Core → Core
note_drop env application_id plugin_id effective core =
    let fingerprint = join 0x1f effective in
    if is_new_drop fingerprint (find_drop application_id plugin_id core.renderer_gate_drops)
    then (let logged =
          append_core_event env application_id (some plugin_id)
            (codes "core.renderer.script_required") (drop_message plugin_id) core in
        record logged {
          renderer_gate_drops =
              insert_drop application_id plugin_id fingerprint logged.renderer_gate_drops;
        })
    else core

abbrev pub drops_renderer : Plugin → List Str → Bool
drops_renderer plugin effective = not (has_renderer_gate effective) && is_some plugin.renderer

unfoldable pub update_drop : Env → Str → Plugin → List Str → Core → Core
unfolding note_drop
update_drop env application_id plugin effective core =
    if drops_renderer plugin effective
    then note_drop env application_id plugin.id effective core
    else record core {
      renderer_gate_drops = remove_drop application_id plugin.id core.renderer_gate_drops;
    }

-- The effective grants of a plugin that the plan has.
unfoldable pub planned : Map PluginPolicy → List Str → Plugin → Option (PluginPolicy × List Str)
unfolding effective_grants
planned policies supported plugin = elim (lookup plugin.id policies) [
  | none ↦ none
  | some policy ↦
      let effective = effective_grants policy plugin supported in
      if not policy.enabled || is_empty effective then none else some (policy, effective)
]

-- The loop over the installed plugins: the grants, the plugins whose renderer payload is dropped,
-- and the state behind.
unfoldable pub plan_loop :
    Env
    → Str
    → Map PluginPolicy
    → List Str
    → List Plugin
    → Core
    → List PluginGrant × List Str × Core
unfolding planned update_drop plugin_grant merge_plugin_config
plan_loop env application_id policies supported [] core = ([], [], core)
plan_loop env application_id policies supported (plugin ∷ plugins) core =
    elim (planned policies supported plugin) [
      | none ↦ plan_loop env application_id policies supported plugins core
      | some (policy, effective) ↦
          let grant =
            plugin_grant plugin effective (merge_plugin_config plugin.config policy.config) in
          let (grants, active, after) =
            plan_loop env application_id policies supported plugins
              (update_drop env application_id plugin effective core) in
          (
            grant ∷ grants,
            (if drops_renderer plugin effective then plugin.id ∷ active else active),
            after,
          )
    ]

unfoldable pub make_plan : Env → List PluginGrant → ExecutionPlan
unfolding hash_bytes
make_plan env grants = record { revision = hash_bytes (env.to_json grants); plugins = grants }

-- Unknown and level 0 applications have an empty plan, and no drops.
abbrev pub no_plan : Env → Str → Core → Result RouterError ExecutionPlan × Core
no_plan env application_id core = (
  ok (make_plan env []),
  record core { renderer_gate_drops = forget_application application_id core.renderer_gate_drops },
)

abbrev pub plan_of :
    Env
    → Str
    → ApplicationState
    → Result RouterError (List Plugin) × Core
    → Result RouterError ExecutionPlan × Core
plan_of env application_id application (err e, core) = (err e, core)
plan_of env application_id application (ok plugins, core) =
    let supported =
      capabilities_for_support_level application.support_level core.state.global.developer_mode in
    let (grants, active, after) =
      plan_loop env application_id application.plugins supported plugins core in
    (
      ok (make_plan env grants),
      record after {
        renderer_gate_drops = prune_drops application_id active after.renderer_gate_drops;
      },
    )

unfoldable pub execution_plan : Env → Str → Core → Result RouterError ExecutionPlan × Core
unfolding installed_plugins plan_loop make_plan
execution_plan env application_id core = elim (lookup application_id core.state.applications) [
  | none ↦ no_plan env application_id core
  | some application ↦
      if application.support_level == 0
      then no_plan env application_id core
      else plan_of env application_id application (installed_plugins env core)
]
