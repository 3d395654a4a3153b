-- ===== src/Daemon/State.antt =====
-- The state of `CoreService` in crates/core/src/daemon.rs, and what its handlers take from outside.
use tron_hawk.Common.{
  ℕ, Bool, true, false, Option, List, [], ◌∷◌, ◌++◌, Str, Result, ok, err, if◌then◌else◌,
}
use tron_hawk.Common.Map.{Map}
use tron_hawk.Json.{Json}
use tron_hawk.Package.Plugin.{Plugin}

pub record GlobalState : Type 0 where
  pub developer_mode : Bool
  pub core_autostart : Bool

pub record PluginPolicy : Type 0 where
  pub enabled : Bool
  pub grants : List Str
  pub config : Map Json

abbrev pub default_policy : PluginPolicy
default_policy = record { enabled = false; grants = []; config = [] }

pub record ApplicationState : Type 0 where
  pub executable_path : Str
  pub display_name : Str
  pub support_level : ℕ
  pub plugins : Map PluginPolicy

pub record DaemonState : Type 0 where
  pub schema_version : ℕ
  pub global : GlobalState
  pub applications : Map ApplicationState

abbrev pub default_state : DaemonState
default_state = record {
  schema_version = 1;
  global = record { developer_mode = false; core_autostart = true };
  applications = [];
}

pub record PluginCache : Type 0 where
  pub fingerprint : Str
  pub plugins : List Plugin
  pub stale : Bool

-- One entry of `renderer_gate_drops`: the pair that is its key, and the fingerprint.
pub record GateDrop : Type 0 where
  pub application_id : Str
  pub plugin_id : Str
  pub fingerprint : Str

-- A record of the core stream.
pub record CoreEvent : Type 0 where
  pub application_id : Str
  pub plugin_id : Option Str
  pub code : Str
  pub message : Str

-- `ServiceInner` with the state file and the log. `disk` is what the state file holds.
pub record Core : Type 0 where
  pub state : DaemonState
  pub disk : DaemonState
  pub plugin_cache : Option PluginCache
  pub renderer_gate_drops : List GateDrop
  pub events : List CoreEvent

pub data RouterError : Type 0 where
  invalid_params : Str → RouterError
  internal : Str → RouterError

-- `PluginGrant` and `ExecutionPlan` of crates/core/src/lib.rs
pub record PluginGrant : Type 0 where
  pub id : Str
  pub version : Str
  pub granted : List Str
  pub css : Option Str
  pub renderer : Option Str
  pub main : Option Str
  pub config : Map Json

pub record ExecutionPlan : Type 0 where
  pub revision : Str
  pub plugins : List PluginGrant

-- What one request meets outside: whether the state file takes a write and the log a record, and
-- what the directory of installed plugins shows. `to_json` is `serde_json::to_string`.
pub record Env : Type 0 where
  pub write : DaemonState → Result Str (Unit {0})
  pub log_takes : CoreEvent → Bool
  pub fingerprint : Option Str
  pub scan : Result Str (List Plugin)
  pub to_json : List PluginGrant → List ℕ

-- `append_core_event`: a record that the log refuses is dropped.
unfoldable pub append_core_event : Env → Str → Option Str → Str → Str → Core → Core
append_core_event env application_id plugin_id code message core =
    let event : CoreEvent = record {
      application_id = application_id;
      plugin_id = plugin_id;
      code = code;
      message = message;
    } in
    if env.log_takes event then record core { events = core.events ++ event ∷ [] } else core

-- `write_state(…)?; inner.state = next;`
unfoldable pub commit_state : Env → DaemonState → Core → Result RouterError Core
commit_state env next core = elim (env.write next) [
  | err message ↦ err (internal message)
  | ok _ ↦ ok (record core { state = next; disk = next })
]
