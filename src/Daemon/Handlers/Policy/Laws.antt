-- ===== src/Daemon/Handlers/Policy/Laws.antt =====
-- What the handlers of policies and configs in crates/core/src/daemon.rs do to the state.
use tron_hawk.Common.{
  ℕ, ◌≡◌, refl, ap, ◌∙◌, Bool, true, false, not, ◌&&◌, some, List, [], ◌∷◌, Str, any, All,
  contains_text, ok, arith, ◌==◌, ◌>>◌, Option-cases, Bool-cases, Result-cases, inl, inr,
}
use tron_hawk.Common.Map.{Map, lookup, contains_key, AllValues, AllValues-lookup, AllValues-insert}
use tron_hawk.Json.{Json}
use tron_hawk.Package.Plugin.{Plugin}
use tron_hawk.Daemon.State.{PluginPolicy, ApplicationState, Core, Env}
use tron_hawk.Daemon.Plan.{capabilities_for_support_level}
use tron_hawk.Daemon.Handlers.Invariant.{
  IsPolicy, IsApplication, IsSound, IsKept, save-IsKept, with_plugin-IsKept, update-IsValid,
}
use tron_hawk.Daemon.Handlers.Policy.{
  PolicyParams, repeats, check_grants, requested_policy, stored_policy, set_policy_of, set_policy,
  get_plugin_config, check_keys, check_values, set_config_of, set_plugin_config,
}

any-not-All :
    (p : Str → Bool) (xs : List Str) → any (λ x. not (p x)) xs ≡ false → All (λ x. p x ≡ true) xs
any-not-All p [] h = tt
any-not-All p (x ∷ xs) h = (ground arith, any-not-All p xs (ground arith))

-- The grants that pass the checks.
pub check_grants_sound :
    (permissions supported grants : List Str)
    → check_grants permissions supported grants ≡ ok tt
    → (repeats [] grants ≡ false)
      × All (λ g. contains_text permissions g ≡ true) grants
      × All (λ g. contains_text supported g ≡ true) grants
unfolding check_grants
check_grants_sound permissions supported grants h = (
  ground arith,
  any-not-All (λ g. contains_text permissions g) grants (ground arith),
  any-not-All (λ g. contains_text supported g) grants (ground arith),
)

set_policy_of-IsKept :
    (env : Env) (params : PolicyParams) (application : ApplicationState) (plugin : Plugin)
    (before core : Core)
    → core.state ≡ before.state
    → IsSound core
    → lookup params.application_id core.state.applications ≡ some application
    → (params.enabled && (application.support_level == 0)) ≡ false
    → IsKept before (set_policy_of env params application plugin core)
unfolding set_policy_of
set_policy_of-IsKept env params application plugin before core same h found allowed =
    let supported =
      capabilities_for_support_level application.support_level core.state.global.developer_mode in
    elim (Result-cases (check_grants plugin.permissions supported params.grants)) [
      | inr (e, refused) ↦ rw (refused, set_policy_of) (h, same)
      | inl (done, passed) ↦
          rw (passed, set_policy_of)
            (save-IsKept env _ _ _ _ _ _ before core same h (
              update-IsValid params.application_id _ core.state h.0 (λ target there.
                let e : target ≡ application = ground (arith, found) in
                let level = ap (λ (a : ApplicationState). a.support_level) e in
                let valid =
                  AllValues-lookup (IsApplication core.state.global.developer_mode)
                    params.application_id core.state.applications target h.0 there in
                (
                  valid.0,
                  AllValues-insert (IsPolicy target.support_level core.state.global.developer_mode)
                      params.plugin_id (requested_policy params application) target.plugins
                      (
                        rw level
                            (check_grants_sound plugin.permissions supported params.grants
                              passed).2,
                        λ on zero. ground arith,
                      )
                      valid.1,
                ))))
    ]

-- `set_policy` grants only what the support level and the mode have, and enables nothing at
-- level 0.
pub set_policy-IsKept :
    (env : Env) (params : PolicyParams) (core : Core)
    → IsSound core
    → IsKept core (set_policy env params core)
unfolding set_policy
set_policy-IsKept env params core h =
    elim (Option-cases (lookup params.application_id core.state.applications)) [
      | inl missing ↦ rw (missing, set_policy) (h, refl)
      | inr (application, found) ↦
          elim (Bool-cases (params.enabled && (application.support_level == 0))) [
            | inl refused ↦ rw (found, refused, set_policy) (h, refl)
            | inr allowed ↦
                rw (found, allowed, set_policy)
                  (with_plugin-IsKept env (set_policy_of env params application) params.plugin_id
                    core h
                    (λ plugin after same sound.
                      set_policy_of-IsKept env params application plugin core after same sound
                        (ap (λ s. lookup params.application_id s.applications) same ∙ found)
                        allowed))
          ]
    ]

stored-IsPolicy :
    (level : ℕ) (mode : Bool) (id : Str) (plugins : Map PluginPolicy)
    → AllValues (IsPolicy level mode) plugins
    → IsPolicy level mode (stored_policy (lookup id plugins))
stored-IsPolicy level mode id plugins h = elim (Option-cases (lookup id plugins)) [
  | inl missing ↦ rw missing (tt, λ on. cc)
  | inr (policy, found) ↦
      rw found (AllValues-lookup (IsPolicy level mode) id plugins policy h found)
]

set_config_of-IsKept :
    (env : Env) (application_id plugin_id : Str) (config : Map Json) (plugin : Plugin)
    (before core : Core)
    → core.state ≡ before.state
    → IsSound core
    → IsKept before (set_config_of env application_id plugin_id config plugin core)
unfolding set_config_of
set_config_of-IsKept env application_id plugin_id config plugin before core same h =
    elim (Result-cases (check_keys plugin.config config >> check_values plugin.config config)) [
      | inr (e, refused) ↦ rw (refused, set_config_of) (h, same)
      | inl (done, passed) ↦
          rw (passed, set_config_of)
            (save-IsKept env _ _ _ _ _ _ before core same h (
              update-IsValid application_id _ core.state h.0 (λ target there.
                let valid =
                  AllValues-lookup (IsApplication core.state.global.developer_mode) application_id
                    core.state.applications target h.0 there in
                let policy =
                  stored-IsPolicy target.support_level core.state.global.developer_mode plugin_id
                    target.plugins valid.1 in
                (
                  valid.0,
                  AllValues-insert (IsPolicy target.support_level core.state.global.developer_mode)
                      plugin_id _ target.plugins policy valid.1,
                ))))
    ]

pub set_plugin_config-IsKept :
    (env : Env) (application_id plugin_id : Str) (config : Map Json) (core : Core)
    → IsSound core
    → IsKept core (set_plugin_config env application_id plugin_id config core)
unfolding set_plugin_config
set_plugin_config-IsKept env application_id plugin_id config core h =
    elim (Bool-cases (contains_key application_id core.state.applications)) [
      | inr missing ↦ rw (missing, set_plugin_config) (h, refl)
      | inl there ↦
          rw (there, set_plugin_config)
            (with_plugin-IsKept env (set_config_of env application_id plugin_id config) plugin_id
              core h
              (λ plugin after same sound.
                set_config_of-IsKept env application_id plugin_id config plugin core after same
                  sound))
    ]

pub get_plugin_config-IsKept :
    (env : Env) (application_id plugin_id : Str) (core : Core)
    → IsSound core
    → IsKept core (get_plugin_config env application_id plugin_id core)
unfolding get_plugin_config
get_plugin_config-IsKept env application_id plugin_id core h =
    elim (Option-cases (lookup application_id core.state.applications)) [
      | inl missing ↦ rw (missing, get_plugin_config) (h, refl)
      | inr (application, found) ↦
          rw (found, get_plugin_config)
            (with_plugin-IsKept env _ plugin_id core h (λ plugin after same sound. sound))
    ]
