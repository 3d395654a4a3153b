-- ===== src/Daemon/Installed/Cache.antt =====
-- What the cached read of the installed plugins changes.
use tron_hawk.Common.{◌≡◌, arith}
use tron_hawk.Daemon.State.{Core, Env, append_core_event}
use tron_hawk.Daemon.Installed.{installed_plugins}

-- The state, the state file and the drops are left alone.
pub installed_plugins_keeps :
    (env : Env) (core : Core)
    → ((installed_plugins env core).1.state ≡ core.state)
      × ((installed_plugins env core).1.disk ≡ core.disk)
      × ((installed_plugins env core).1.renderer_gate_drops ≡ core.renderer_gate_drops)
unfolding installed_plugins append_core_event
installed_plugins_keeps env core = ground arith
