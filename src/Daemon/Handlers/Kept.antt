-- ===== src/Daemon/Handlers/Kept.antt =====
-- The handlers of applications and of developer mode in crates/core/src/daemon.rs keep the invariant.
use tron_hawk.Common.{
  ℕ, ◌≡◌, refl, Bool, true, false, not, Option, none, some, [], ◌∷◌, Str, codes, str_eq, str_eq_iff,
  retain, All-map, All-retain, All-retain_test, All-zip, Result, arith, leb, ◌==◌, Bool-cases,
  Result-cases, inl, inr,
}
use tron_hawk.Common.Map.{
  Map, lookup, remove, contains_key, map_values, AllValues, AllValues-lookup, AllValues-insert,
  AllValues-remove, AllValues-map_values,
}
use tron_hawk.Daemon.State.{
  PluginPolicy, default_policy, ApplicationState, DaemonState, Core, RouterError, Env, commit_state,
}
use tron_hawk.Daemon.Plan.{capabilities_for_support_level}
use tron_hawk.Daemon.Handlers.{
  set_applications, set_plugins, CanonicalExecutable, validate_support_level, existing_plugins,
  register_application, remove_application, revoke_unsafe, switch_mode, set_developer_mode,
  same_bool,
}
use tron_hawk.Daemon.Handlers.Invariant.{
  IsSupported, IsPolicy, IsApplication, IsValid, IsSound, IsKept, append-IsSound, save-IsKept,
}

pub default-IsPolicy : (level : ℕ) (mode : Bool) → IsPolicy level mode default_policy
default-IsPolicy level mode = (tt, λ h. cc)

all_default :
    (level : ℕ) (mode : Bool) (plugins : Map PluginPolicy)
    → AllValues (IsPolicy level mode) (map_values (λ _. default_policy) plugins)
unfolding map_values
all_default level mode [] = tt
all_default level mode (e ∷ plugins) = (default-IsPolicy level mode, all_default level mode plugins)

-- Policies survive a registration only if it does not change the support level.
existing_plugins-IsPolicy :
    (mode : Bool) (level : ℕ) (old : Option ApplicationState)
    → ((application : ApplicationState) → old ≡ some application → IsApplication mode application)
    → AllValues (IsPolicy level mode) (existing_plugins level old)
unfolding existing_plugins
existing_plugins-IsPolicy mode level none h = tt
existing_plugins-IsPolicy mode level (some application) h =
    elim (Bool-cases (application.support_level == level)) [
      | inl same ↦
          let e : application.support_level ≡ level = ground arith in
          rw (same, ← e) (h application refl).1
      | inr other ↦ rw other (all_default level mode application.plugins)
    ]

-- `register_application` accepts support levels up to 2, keeps the policies of an application that
-- it registers again at the same level, and else resets them.
pub register_application-IsKept :
    (canonical_executable : Str → Result RouterError CanonicalExecutable)
    (application_id_for : Str → Str) (env : Env) (path : Str) (level : ℕ) (core : Core)
    → IsSound core
    → IsKept core (register_application canonical_executable application_id_for env path level core)
unfolding register_application validate_support_level
register_application-IsKept canonical_executable application_id_for env path level core h =
    elim (Bool-cases (leb level 2)) [
      | inr high ↦ rw (high, register_application, validate_support_level) (h, refl)
      | inl fits ↦ elim (Result-cases (canonical_executable path)) [
        | inr (message, e) ↦ rw (fits, e, register_application, validate_support_level) (h, refl)
        | inl (canonical, e) ↦
            rw (fits, e, register_application, validate_support_level)
              (save-IsKept env _ _ _ _ _ _ core core refl h (
                AllValues-insert (IsApplication core.state.global.developer_mode) _ _
                  core.state.applications
                  (
                    ground arith,
                    existing_plugins-IsPolicy core.state.global.developer_mode level
                        (lookup (application_id_for canonical.path) core.state.applications)
                        (λ application found.
                          AllValues-lookup (IsApplication core.state.global.developer_mode) _
                            core.state.applications application h.0 found),
                  )
                  h.0))
      ]
    ]

pub remove_application-IsKept :
    (env : Env) (application_id : Str) (core : Core)
    → IsSound core
    → IsKept core (remove_application env application_id core)
unfolding remove_application commit_state
remove_application-IsKept env application_id core h =
    let next = set_applications (remove application_id core.state.applications) core.state in
    elim (Bool-cases (contains_key application_id core.state.applications)) [
      | inr missing ↦ rw (missing, remove_application) (h, refl)
      | inl found ↦ elim (Result-cases (env.write next)) [
        | inr (message, e) ↦ rw (found, e, remove_application, commit_state) (h, refl)
        | inl (done, e) ↦
            rw (found, e, remove_application, commit_state)
              (append-IsSound env _ _ _ _ _ (
                AllValues-remove (IsApplication core.state.global.developer_mode) application_id
                    core.state.applications h.0,
                refl,
              ))
      ]
    ]

-- More is supported in developer mode.
IsSupported-on :
    (level : ℕ) (grant : Str) → IsSupported level false grant → IsSupported level true grant
unfolding capabilities_for_support_level
IsSupported-on level grant h = ground arith

-- Without `runtime.unsafe` the mode does not matter.
IsSupported-off :
    (level : ℕ) (grant : Str)
    → IsSupported level true grant
    → not (str_eq grant (codes "runtime.unsafe")) ≡ true
    → IsSupported level false grant
unfolding capabilities_for_support_level
IsSupported-off level grant h k =
    ground
      (arith, str_eq_iff (codes "runtime.unsafe") grant, str_eq_iff grant (codes "runtime.unsafe"))

IsPolicy-on :
    (level : ℕ) (policy : PluginPolicy) → IsPolicy level false policy → IsPolicy level true policy
IsPolicy-on level policy h = (All-map (IsSupported-on level) policy.grants h.0, h.1)

IsPolicy-off :
    (level : ℕ) (policy : PluginPolicy)
    → IsPolicy level true policy
    → IsPolicy level false (revoke_unsafe policy)
IsPolicy-off level policy h =
    let test : Str → Bool = λ grant. not (str_eq grant (codes "runtime.unsafe")) in
    (
      All-map (λ grant p. IsSupported-off level grant p.0 p.1) (retain test policy.grants)
          (All-zip (IsSupported level true) (λ grant. test grant ≡ true) (retain test policy.grants)
            (All-retain (IsSupported level true) test policy.grants h.0)
            (All-retain_test test policy.grants)),
      h.1,
    )

switch_mode-IsValid :
    (enabled : Bool) (state : DaemonState)
    → same_bool state.global.developer_mode enabled ≡ false
    → IsValid state
    → IsValid (switch_mode enabled state)
unfolding switch_mode
switch_mode-IsValid true state differs h =
    let off : state.global.developer_mode ≡ false = ground arith in
    All-map
      (λ entry valid. (
        valid.0,
        All-map (λ e p. IsPolicy-on entry.1.support_level e.1 (rw off at p)) entry.1.plugins
            valid.1,
      ))
      state.applications h
switch_mode-IsValid false state differs h =
    let on : state.global.developer_mode ≡ true = ground arith in
    AllValues-map_values (IsApplication state.global.developer_mode) (IsApplication false)
      (λ application. set_plugins (map_values revoke_unsafe application.plugins) application)
      (λ application valid. (
        valid.0,
        AllValues-map_values (IsPolicy application.support_level state.global.developer_mode)
            (IsPolicy application.support_level false) revoke_unsafe
            (λ policy p. IsPolicy-off application.support_level policy (rw on at p))
            application.plugins valid.1,
      ))
      state.applications h

pub set_developer_mode-IsKept :
    (env : Env) (enabled : Bool) (core : Core)
    → IsSound core
    → IsKept core (set_developer_mode env enabled core)
unfolding set_developer_mode
set_developer_mode-IsKept env enabled core h =
    elim (Bool-cases (same_bool core.state.global.developer_mode enabled)) [
      | inl same ↦ rw (same, set_developer_mode) h
      | inr differs ↦
          rw (differs, set_developer_mode)
            (save-IsKept env _ _ _ _ _ _ core core refl h
              (switch_mode-IsValid enabled core.state differs h.0))
    ]
