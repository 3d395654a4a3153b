-- ===== src/Daemon/Plan/Sound.antt =====
-- What stands in the plan that a runtime is served.
use tron_hawk.Common.{
  ℕ, ◌≡◌, ◌≢◌, refl, sym, ap, ◌∙◌, Bool, true, none, some, List, [], Str, codes, str_eq, All,
  All-map, contains_text, Result, ok, err, arith, ◌==◌, if◌then◌else◌, Option-cases, Bool-cases,
  inl, inr, All-contains_text,
}
use tron_hawk.Common.Map.{lookup}
use tron_hawk.Package.Plugin.{Plugin}
use tron_hawk.Daemon.Installed.{installed_plugins}
use tron_hawk.Daemon.Installed.Cache.{installed_plugins_keeps}
use tron_hawk.Daemon.State.{ApplicationState, PluginGrant, ExecutionPlan, Core, RouterError, Env}
use tron_hawk.Daemon.Plan.{
  capabilities_for_support_level, plan_loop, make_plan, no_plan, plan_of, execution_plan,
}
use tron_hawk.Daemon.Plan.Grants.{IsAllowed, IsGranted, plan_loop-IsGranted}

-- A grant of the plan of an application: the application is registered, and the grant has its
-- grounds in the installed plugins and in its policy.
pub record InPlan (env : Env) (core : Core) (application_id : Str) (grant : PluginGrant)
    : Type 0 where
  pub application : ApplicationState
  pub registered : lookup application_id core.state.applications ≡ some application
  pub has_support : application.support_level ≢ 0
  pub plugins : List Plugin
  pub read : (installed_plugins env core).0 ≡ ok plugins
  pub granted :
      IsGranted application.plugins
        (capabilities_for_support_level application.support_level core.state.global.developer_mode)
        plugins
        grant

module _ (env : Env) (core : Core) (application_id : Str) where
  plan_of-InPlan :
      (application : ApplicationState) (p : Result RouterError (List Plugin) × Core)
      (plan : ExecutionPlan)
      → lookup application_id core.state.applications ≡ some application
      → application.support_level ≢ 0
      → installed_plugins env core ≡ p
      → (plan_of env application_id application p).0 ≡ ok plan
      → All (InPlan env core application_id) plan.plugins
  unfolding make_plan
  plan_of-InPlan application (err e, after) plan reg sup read h = cc
  plan_of-InPlan application (ok plugins, after) plan reg sup read h =
      let same : after.state.global.developer_mode ≡ core.state.global.developer_mode =
        ap (λ (q : Result RouterError (List Plugin) × Core). q.1.state.global.developer_mode)
          (sym read)
        ∙ ap (λ s. s.global.developer_mode) (installed_plugins_keeps env core).0 in
      let supported =
        capabilities_for_support_level application.support_level core.state.global.developer_mode in
      let grants = plan_loop env application_id application.plugins supported plugins after in
      let listed : grants.0 ≡ plan.plugins = ground (arith, same) in
      rw (← listed) (
        All-map
          (λ g held. record {
            application = application;
            registered = reg;
            has_support = sup;
            plugins = plugins;
            read = ap (λ (q : Result RouterError (List Plugin) × Core). q.0) read;
            granted = held;
          })
          grants.0
          (plan_loop-IsGranted env application_id application.plugins supported plugins after))

  no_plan-InPlan :
      (plan : ExecutionPlan) → (no_plan env application_id core).0 ≡ ok plan → plan.plugins ≡ []
  unfolding make_plan
  no_plan-InPlan plan h = ground arith

  execution_plan_unknown :
      lookup application_id core.state.applications ≡ none
      → execution_plan env application_id core ≡ no_plan env application_id core
  unfolding execution_plan
  execution_plan_unknown e = rw (e, execution_plan)

  execution_plan_level :
      (application : ApplicationState)
      → lookup application_id core.state.applications ≡ some application
      → execution_plan env application_id core ≡ (
          if application.support_level == 0
          then no_plan env application_id core
          else plan_of env application_id application (installed_plugins env core))
  unfolding execution_plan
  execution_plan_level application e = rw (e, execution_plan)

  -- Each grant that a plan has stands there for a registered application of support level 1 or 2,
  -- for an installed plugin with an enabled policy; what it grants is not empty, and each
  -- capability is in the policy's grants, requested by the plugin and supported at the level; a
  -- payload is there only if the grants have a capability that it needs.
  pub execution_plan-InPlan :
      (plan : ExecutionPlan)
      → (execution_plan env application_id core).0 ≡ ok plan
      → All (InPlan env core application_id) plan.plugins
  execution_plan-InPlan plan h =
      elim (Option-cases (lookup application_id core.state.applications)) [
        | inl missing ↦ rw (no_plan-InPlan plan (rw (execution_plan_unknown missing) at h)) tt
        | inr (application, reg) ↦ elim (Bool-cases (application.support_level == 0)) [
          | inl none_level ↦
              rw (no_plan-InPlan plan (rw (execution_plan_level application reg, none_level) at h))
                tt
          | inr level ↦
              plan_of-InPlan application (installed_plugins env core) plan reg (ground arith) refl
                (rw (execution_plan_level application reg, level) at h)
        ]
      ]

-- `runtime.unsafe` is supported only at level 2 in developer mode.
unsafe_supported :
    (level : ℕ) (developer_mode : Bool)
    → contains_text (capabilities_for_support_level level developer_mode) (codes "runtime.unsafe")
      ≡ true
    → (level ≡ 2) × (developer_mode ≡ true)
unfolding capabilities_for_support_level str_eq
unsafe_supported level developer_mode h = ground arith

-- A plan has `runtime.unsafe` only for an application of level 2, while developer mode is on.
pub plan_unsafe :
    (env : Env) (core : Core) (application_id : Str) (plan : ExecutionPlan)
    → (execution_plan env application_id core).0 ≡ ok plan
    → All
        (λ grant.
          contains_text grant.granted (codes "runtime.unsafe") ≡ true
          → (core.state.global.developer_mode ≡ true)
            × ((application : ApplicationState) × (lookup application_id core.state.applications
                  ≡ some application)
                × (application.support_level ≡ 2)))
        plan.plugins
plan_unsafe env core application_id plan h =
    All-map
      (λ grant p has.
        let allowed : IsAllowed p.granted.policy p.granted.plugin
            (capabilities_for_support_level p.application.support_level
              core.state.global.developer_mode)
            (codes "runtime.unsafe") =
          All-contains_text
            (IsAllowed p.granted.policy p.granted.plugin (
              capabilities_for_support_level p.application.support_level
                core.state.global.developer_mode))
            grant.granted (codes "runtime.unsafe") p.granted.allowed has in
        let (level, mode) =
          unsafe_supported p.application.support_level core.state.global.developer_mode
            allowed.is_supported in
        (mode, (p.application, p.registered, level)))
      plan.plugins (execution_plan-InPlan env core application_id plan h)
