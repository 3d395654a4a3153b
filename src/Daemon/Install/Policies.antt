-- ===== src/Daemon/Install/Policies.antt =====
-- What an installation and a removal in crates/core/src/daemon.rs make of the policies for a plugin.
use tron_hawk.Common.{
  ◌≡◌, refl, false, Option, none, some, [], Str, str_eq, ◌⊎◌, if◌then◌else◌, Option-cases, inl, inr,
}
use tron_hawk.Common.Map.{
  Map, lookup, insert, remove, map_values, lookup-insert, lookup-remove, lookup-map_values,
}
use tron_hawk.Daemon.State.{PluginPolicy, ApplicationState, DaemonState}
use tron_hawk.Daemon.Handlers.{set_plugins}
use tron_hawk.Daemon.Install.{with_default, without_plugin}

-- The policy of a plugin that nobody has enabled: nothing granted, no config.
abbrev pub off : PluginPolicy
off = record { enabled = false; grants = []; config = [] }

-- An application as before but for its policy for the plugin, which is as given; none is no policy.
abbrev pub HasPolicy : Str → Option PluginPolicy → ApplicationState → ApplicationState → Type 0
HasPolicy id policy old new =
    (new.executable_path ≡ old.executable_path)
    × (new.display_name ≡ old.display_name)
    × (new.support_level ≡ old.support_level)
    × ((j : Str) → lookup j new.plugins ≡ (if str_eq id j then policy else lookup j old.plugins))

-- The same applications as before, each with the given policy for the plugin, under the same global
-- settings.
abbrev pub HavePolicy : Str → Option PluginPolicy → DaemonState → DaemonState → Type 0
HavePolicy id policy before after =
    (after.schema_version ≡ before.schema_version)
    × (after.global ≡ before.global)
    × ((a : Str)
        → ((lookup a before.applications ≡ none) × (lookup a after.applications ≡ none))
          ⊎ ((old new : ApplicationState) × (lookup a before.applications ≡ some old)
              × (lookup a after.applications ≡ some new)
              × HasPolicy id policy old new))

-- A change of every application shows at each id.
mapped-HasPolicy :
    (id : Str) (policy : Option PluginPolicy) (f : ApplicationState → ApplicationState)
    (apps : Map ApplicationState)
    → ((old : ApplicationState) → HasPolicy id policy old (f old))
    → (a : Str)
    → ((lookup a apps ≡ none) × (lookup a (map_values f apps) ≡ none))
      ⊎ ((old new : ApplicationState) × (lookup a apps ≡ some old)
          × (lookup a (map_values f apps) ≡ some new)
          × HasPolicy id policy old new)
mapped-HasPolicy id policy f apps changed a = elim (Option-cases (lookup a apps)) [
  | inl missing ↦ inl (missing, rw (lookup-map_values f a apps, missing) refl)
  | inr (old, there) ↦
      inr (old, f old, there, rw (lookup-map_values f a apps, there) refl, changed old)
]

pub with_default-HavePolicy :
    (id : Str) (state : DaemonState) → HavePolicy id (some off) state (with_default id state)
unfolding with_default
with_default-HavePolicy id state = (
  refl,
  refl,
  mapped-HasPolicy id (some off)
      (λ application. set_plugins (insert id off application.plugins) application)
      state.applications (λ old. (refl, refl, refl, λ j. lookup-insert id j off old.plugins)),
)

pub without_plugin-HavePolicy :
    (id : Str) (state : DaemonState) → HavePolicy id none state (without_plugin id state)
unfolding without_plugin
without_plugin-HavePolicy id state = (
  refl,
  refl,
  mapped-HasPolicy id none (λ application. set_plugins (remove id application.plugins) application)
      state.applications (λ old. (refl, refl, refl, λ j. lookup-remove id j old.plugins)),
)
