-- ===== src/Daemon/Handlers/Invariant.antt =====
-- The invariant of the applications and their policies in crates/core/src/daemon.rs, and what the
-- parts that the handlers share do to it.
use tron_hawk.Common.{
  ℕ, ◌≤◌, ◌≡◌, ◌≢◌, refl, sym, ◌∙◌, Bool, true, Option, some, List, Str, All, contains_text, Result,
  ok, err, arith, Option-cases, Result-cases, inl, inr,
}
use tron_hawk.Common.Map.{lookup, AllValues, AllValues-insert}
use tron_hawk.Package.Plugin.{Plugin}
use tron_hawk.Daemon.State.{
  PluginPolicy, ApplicationState, DaemonState, Core, RouterError, Env, append_core_event,
  commit_state,
}
use tron_hawk.Daemon.Installed.{installed_plugins}
use tron_hawk.Daemon.Installed.Cache.{installed_plugins_keeps}
use tron_hawk.Daemon.Plan.{capabilities_for_support_level}
use tron_hawk.Daemon.Handlers.{Answer, save, find_plugin, with_plugin, update, set_applications}

-- A capability that a level has in a mode.
abbrev pub IsSupported : ℕ → Bool → Str → Type 0
IsSupported level mode grant =
    contains_text (capabilities_for_support_level level mode) grant ≡ true

-- Every grant of a policy is supported, and at level 0 the policy is off.
abbrev pub IsPolicy : ℕ → Bool → PluginPolicy → Type 0
IsPolicy level mode policy =
    All (IsSupported level mode) policy.grants × (policy.enabled ≡ true → level ≢ 0)

abbrev pub IsApplication : Bool → ApplicationState → Type 0
IsApplication mode application =
    (application.support_level ≤ 2)
    × AllValues (IsPolicy application.support_level mode) application.plugins

abbrev pub IsValid : DaemonState → Type 0
IsValid state = AllValues (IsApplication state.global.developer_mode) state.applications

-- The state is valid, and the state file holds it.
abbrev pub IsSound : Core → Type 0
IsSound core = IsValid core.state × (core.disk ≡ core.state)

-- The state behind an answer is sound, and that of an error is the state before.
abbrev pub IsKept : {A : Type 0} → Core → Result RouterError A × Core → Type 0
IsKept core (ok a, after) = IsSound after
IsKept core (err e, after) = IsSound after × (after.state ≡ core.state)

pub append_core_event_keeps :
    (env : Env) (a : Str) (p : Option Str) (c m : Str) (core : Core)
    → ((append_core_event env a p c m core).state ≡ core.state)
      × ((append_core_event env a p c m core).disk ≡ core.disk)
unfolding append_core_event
append_core_event_keeps env a p c m core = ground arith

pub IsSound-cong :
    (core after : Core)
    → after.state ≡ core.state
    → after.disk ≡ core.disk
    → IsSound core
    → IsSound after
IsSound-cong core after s d h = (rw s h.0, d ∙ h.1 ∙ sym s)

pub append-IsSound :
    (env : Env) (a : Str) (p : Option Str) (c m : Str) (core : Core)
    → IsSound core
    → IsSound (append_core_event env a p c m core)
append-IsSound env a p c m core h =
    let (s, d) = append_core_event_keeps env a p c m core in
    IsSound-cong core (append_core_event env a p c m core) s d h

-- What `save` leaves behind.
pub save-IsKept :
    {A : Type 0} (env : Env) (next : DaemonState) (a : Str) (p : Option Str) (c m : Str) (value : A)
    (before core : Core)
    → core.state ≡ before.state
    → IsSound core
    → IsValid next
    → IsKept before (save env next a p c m value core)
unfolding save commit_state
save-IsKept env next a p c m value before core same h valid = elim (Result-cases (env.write next)) [
  | inl (done, e) ↦
      rw (e, save, commit_state)
        (append-IsSound env a p c m (record core { state = next; disk = next }) (valid, refl))
  | inr (message, e) ↦ rw (e, save, commit_state) (h, same)
]

on_answer :
    {A : Type 0} (k : Plugin → Core → Answer A) (id : Str) (core : Core)
    → ((plugin : Plugin) (after : Core)
        → after.state ≡ core.state
        → IsSound after
        → IsKept core (k plugin after))
    → (answer : Answer (List Plugin)) → answer.1.state ≡ core.state
    → IsSound answer.1
    → IsKept core (with_plugin k id answer)
unfolding with_plugin
on_answer k id core step (err e, after) s h = (h, s)
on_answer k id core step (ok plugins, after) s h = elim (Option-cases (find_plugin id plugins)) [
  | inl missing ↦ rw (missing, with_plugin) (h, s)
  | inr (plugin, found) ↦ rw (found, with_plugin) (step plugin after s h)
]

pub with_plugin-IsKept :
    {A : Type 0} (env : Env) (k : Plugin → Core → Answer A) (id : Str) (core : Core)
    → IsSound core
    → ((plugin : Plugin) (after : Core)
        → after.state ≡ core.state
        → IsSound after
        → IsKept core (k plugin after))
    → IsKept core (with_plugin k id (installed_plugins env core))
with_plugin-IsKept env k id core h step =
    let (s, d, drops) = installed_plugins_keeps env core in
    on_answer k id core step (installed_plugins env core) s
      (IsSound-cong core (installed_plugins env core).1 s d h)

-- An update of one application that keeps it valid.
pub update-IsValid :
    (id : Str) (f : ApplicationState → ApplicationState) (state : DaemonState)
    → IsValid state
    → ((application : ApplicationState)
        → lookup id state.applications ≡ some application
        → IsApplication state.global.developer_mode (f application))
    → IsValid (set_applications (update id f state.applications) state)
unfolding update
update-IsValid id f state h step = elim (Option-cases (lookup id state.applications)) [
  | inl missing ↦ rw (missing, update) h
  | inr (application, found) ↦
      rw (found, update)
        (AllValues-insert (IsApplication state.global.developer_mode) id (f application)
          state.applications (step application found) h)
]
