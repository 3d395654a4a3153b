-- ===== src/Daemon/Control/Reachable.antt =====
-- What holds in every state that the control requests of crates/core/src/daemon.rs reach.
use tron_hawk.Common.{Str, Result, ok, err}
use mathlib.Core.Path.{subst}
use tron_hawk.Daemon.State.{Core, RouterError, Env}
use tron_hawk.Daemon.Handlers.{Answer, CanonicalExecutable}
use tron_hawk.Daemon.Handlers.Invariant.{IsSound, IsKept}
use tron_hawk.Daemon.Handlers.Kept.{
  register_application-IsKept, remove_application-IsKept, set_developer_mode-IsKept,
}
use tron_hawk.Daemon.Handlers.Policy.Laws.{
  set_policy-IsKept, get_plugin_config-IsKept, set_plugin_config-IsKept,
}
use tron_hawk.Daemon.Install.Kept.{install_plugin-IsSound, remove_plugin-IsSound}
use tron_hawk.Daemon.Control.{
  ControlRequest, register, remove, developer_mode, policy, read_config, write_config, done,
  handle_control, Step, handled, installed, uninstalled, Reaches, here, next,
}

done-IsKept :
    {A : Type 0} (core : Core) (answer : Answer A) → IsKept core answer → IsKept core (done answer)
done-IsKept core (ok a, after) h = h
done-IsKept core (err e, after) h = h

IsKept-IsSound :
    {A : Type 0} (core : Core) (answer : Answer A) → IsKept core answer → IsSound answer.1
IsKept-IsSound core (ok a, after) h = h
IsKept-IsSound core (err e, after) h = h.0

module _ (canonical_executable : Str → Result RouterError CanonicalExecutable)
    (application_id_for : Str → Str) where
  -- From a state in which every grant is supported at its application's level and mode, in which
  -- levels are at most 2, no policy is on at level 0 and the state file holds the state, every
  -- request leads to such a state, and one that fails leaves the state as it was.
  pub handle_control-IsKept :
      (env : Env) (request : ControlRequest) (core : Core)
      → IsSound core
      → IsKept core (handle_control canonical_executable application_id_for env request core)
  unfolding handle_control
  handle_control-IsKept env (register path level) core h =
      done-IsKept core _
        (register_application-IsKept canonical_executable application_id_for env path level core h)
  handle_control-IsKept env (remove id) core h = remove_application-IsKept env id core h
  handle_control-IsKept env (developer_mode enabled) core h =
      done-IsKept core _ (set_developer_mode-IsKept env enabled core h)
  handle_control-IsKept env (policy params) core h =
      done-IsKept core _ (set_policy-IsKept env params core h)
  handle_control-IsKept env (read_config application_id plugin_id) core h =
      done-IsKept core _ (get_plugin_config-IsKept env application_id plugin_id core h)
  handle_control-IsKept env (write_config application_id plugin_id config) core h =
      done-IsKept core _ (set_plugin_config-IsKept env application_id plugin_id config core h)

  Step-IsSound :
      (core after : Core)
      → Step canonical_executable application_id_for core after
      → IsSound core
      → IsSound after
  Step-IsSound _ _ (handled env request core after e) h = subst IsSound e (
      IsKept-IsSound core (handle_control canonical_executable application_id_for env request core)
        (handle_control-IsKept env request core h))
  Step-IsSound _ _ (installed fs env extraction token suffix root core after e) h =
      subst IsSound (e) (
        install_plugin-IsSound fs env extraction token suffix (record { core = core; root = root })
          h)
  Step-IsSound _ _ (uninstalled fs env suffix id root core after e) h =
      subst IsSound (e)
        (remove_plugin-IsSound fs env suffix id (record { core = core; root = root }) h)

  -- Whatever control requests, installations and removals come in whatever order, and whatever they
  -- meet outside, a sound state leads only to sound states.
  pub Reaches-IsSound :
      (core after : Core)
      → Reaches canonical_executable application_id_for core after
      → IsSound core
      → IsSound after
  Reaches-IsSound _ _ (here core) h = h
  Reaches-IsSound _ _ (next core middle after step more) h =
      Reaches-IsSound middle after more (Step-IsSound core middle step h)
