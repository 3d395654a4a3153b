-- ===== src/Daemon/Control.antt =====
-- The control requests of `handle_control` in crates/core/src/daemon.rs that work on the
-- applications, their policies and their configs, and the sequences of such requests together with
-- installations and removals of plugins.
pub mod Reachable
use tron_hawk.Common.{ℕ, Bool, List, [], ◌∷◌, Str, Result, ok, err, ◌≡◌}
use tron_hawk.Common.Map.{Map}
use tron_hawk.Json.{Json}
use tron_hawk.Daemon.State.{Core, RouterError, Env}
use tron_hawk.Daemon.Handlers.{
  Answer, CanonicalExecutable, register_application, remove_application, set_developer_mode,
}
use tron_hawk.Daemon.Handlers.Policy.{
  PolicyParams, set_policy, get_plugin_config, set_plugin_config,
}
use tron_hawk.Daemon.Install.{Root, FileSystem, Extraction, install_plugin, remove_plugin}

-- A request whose method is known and whose parameters are decoded.
pub data ControlRequest : Type 0 where
  register : Str → ℕ → ControlRequest
  remove : Str → ControlRequest
  developer_mode : Bool → ControlRequest
  policy : PolicyParams → ControlRequest
  read_config : Str → Str → ControlRequest
  write_config : Str → Str → Map Json → ControlRequest

abbrev pub done : {A : Type 0} → Answer A → Answer (Unit {0})
done (ok a, core) = (ok tt, core)
done (err e, core) = (err e, core)

module _ (canonical_executable : Str → Result RouterError CanonicalExecutable)
    (application_id_for : Str → Str) where
  -- Whether the request succeeds, and the state behind it.
  unfoldable pub handle_control : Env → ControlRequest → Core → Answer (Unit {0})
  handle_control env (register path level) core =
      done (register_application canonical_executable application_id_for env path level core)
  handle_control env (remove id) core = remove_application env id core
  handle_control env (developer_mode enabled) core = done (set_developer_mode env enabled core)
  handle_control env (policy params) core = done (set_policy env params core)
  handle_control env (read_config application_id plugin_id) core =
      done (get_plugin_config env application_id plugin_id core)
  handle_control env (write_config application_id plugin_id config) core =
      done (set_plugin_config env application_id plugin_id config core)

  -- A request takes the service to the state behind it, whatever it meets outside and among the
  -- directories of the plugins.
  pub data Step : Core → Core → Type 0 where
    handled :
        (env : Env) (request : ControlRequest) (core after : Core)
        → (handle_control env request core).1 ≡ after
        → Step core after
    installed :
        (fs : FileSystem) (env : Env) (extraction : Extraction) (token suffix : Str) (root : Root)
        (core after : Core)
        → (install_plugin fs env extraction token suffix
            (record { core = core; root = root })).1.core
          ≡ after
        → Step core after
    uninstalled :
        (fs : FileSystem) (env : Env) (suffix id : Str) (root : Root) (core after : Core)
        → (remove_plugin fs env suffix id (record { core = core; root = root })).1.core ≡ after
        → Step core after

  -- What a sequence of requests reaches.
  pub data Reaches : Core → Core → Type 0 where
    here : (core : Core) → Reaches core core
    next : (core middle after : Core) → Step core middle → Reaches middle after → Reaches core after
