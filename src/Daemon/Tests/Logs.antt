-- ===== src/Daemon/Tests/Logs.antt =====
-- The batches of plugin logs in crates/core/src/daemon.rs at a concrete input.
use tron_hawk.Common.{◌≡◌, refl, true, some, [], ◌∷◌, codes, str_eq, bytes}
use tron_hawk.Common.Map.{lookup, insert}
use tron_hawk.LogStore.Record.{LogLevel}
use tron_hawk.Daemon.Plan.{execution_plan, capabilities_for_support_level}
use tron_hawk.Daemon.RateLimit.{log_rate_available, commit_log_ingest}
use tron_hawk.Daemon.Logs.{
  PluginEvent, Ingest, accepted, plugin_record, append_all, take_batch, append_plugin_logs,
}
use tron_hawk.Daemon.Logs.Ingested.{IsIngested, append_plugin_logs-IsIngested}
use tron_hawk.Daemon.Tests.{app, core, env}

abbrev event : PluginEvent
event = record { plugin_id = codes "p"; level = LogLevel.info; message = codes "hi" }

abbrev site : Ingest
site = record { core = core; rates = []; records = [] }

append_plugin_logs-IsIngested_example :
    IsIngested env 100 app
      (event ∷ [])
      site
      (append_plugin_logs (λ r. true) 100 app env (event ∷ []) site)
append_plugin_logs-IsIngested_example =
    append_plugin_logs-IsIngested env (λ r. true) 100 app (event ∷ []) site

-- The batch is accepted.
accepted_run :
    append_plugin_logs (λ r. true) 100 app env (event ∷ []) site
    ≡ some (
      accepted 1,
      record {
        core = (execution_plan env app core).1;
        rates = (app, record { last_activity = 100; log_events = 100 ∷ [] }) ∷ [];
        records = plugin_record app event ∷ [];
      },
    )
unfolding append_plugin_logs execution_plan lookup str_eq take_batch append_all bytes
    capabilities_for_support_level log_rate_available commit_log_ingest insert
accepted_run = refl
