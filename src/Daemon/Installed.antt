-- ===== src/Daemon/Installed.antt =====
-- `installed_plugins` of crates/core/src/daemon.rs: the cached read of the installed plugins.
pub mod Cache
use tron_hawk.Common.{
  Bool, true, false, not, ◌&&◌, Option, none, some, List, ◌++◌, Str, codes, str_eq, Result, ok, err,
  if◌then◌else◌,
}
use tron_hawk.Package.Plugin.{Plugin}
use tron_hawk.Daemon.State.{PluginCache, Core, RouterError, internal, Env, append_core_event}

-- The cache answers while the fingerprint is unchanged and the cache is not stale.
abbrev pub served : Option Str → Option PluginCache → Option (List Plugin)
served none cache = none
served (some current) none = none
served (some current) (some cache) =
    if str_eq cache.fingerprint current && not cache.stale then some cache.plugins else none

abbrev pub rescan : Env → Result Str (List Plugin)
rescan env = elim env.fingerprint [
  | none ↦ err (codes "installed plugin root is unreadable")
  | some _ ↦ env.scan
]

abbrev or_default : Option Str → Str
or_default none = codes ""
or_default (some f) = f

-- A failed scan serves the last good set, and is logged once.
unfoldable pub fall_back :
    Env → Str → Option PluginCache → Core → Result RouterError (List Plugin) × Core
fall_back env message none core =
    (err (internal (codes "scan installed plugins: " ++ message)), core)
fall_back env message (some cache) core =
    let marked : Core = record core { plugin_cache = some (record cache { stale = true }) } in
    (
      ok cache.plugins,
      if cache.stale
          then marked
          else append_core_event env (codes "global") none (codes "core.plugin.scan_failed")
              (codes "Installed-plugin scan failed; serving the last cached plugin set") marked,
    )

unfoldable pub refresh :
    Env → Result Str (List Plugin) → Core → Result RouterError (List Plugin) × Core
unfolding fall_back
refresh env (ok plugins) core = (
  ok plugins,
  record core {
    plugin_cache =
        some
          (record { fingerprint = or_default env.fingerprint; plugins = plugins; stale = false });
  },
)
refresh env (err message) core = fall_back env message core.plugin_cache core

unfoldable pub installed_plugins : Env → Core → Result RouterError (List Plugin) × Core
unfolding refresh
installed_plugins env core = elim (served env.fingerprint core.plugin_cache) [
  | some plugins ↦ (ok plugins, core)
  | none ↦ refresh env (rescan env) core
]
