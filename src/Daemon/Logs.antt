-- ===== src/Daemon/Logs.antt =====
-- The log handlers of crates/core/src/daemon.rs. What an application's runtime and plugins send is
-- taken in batches, on its budget; a control client reads the log in pages.
pub mod Ingested
pub mod Pages
use tron_hawk.Common.{
  ℕ, Bool, true, false, not, ◌&&◌, Option, none, some, List, [], ◌∷◌, ◌++◌, map, length, Str, codes,
  contains_text, any, leb, Result, ok, err, ◌>>=◌, ◌>>◌, reject_if, if◌then◌else◌,
}
use tron_hawk.Common.Map.{Map}
use tron_hawk.Daemon.State.{PluginGrant, ExecutionPlan, Core, RouterError, Env}
use tron_hawk.Daemon.Plan.{execution_plan}
use tron_hawk.Daemon.RateLimit.{LogRate, valid_log_batch, log_rate_available, commit_log_ingest}
use tron_hawk.LogStore.Record.{LogRecord, LogStream, LogLevel, NewLogRecord, LogError}
use tron_hawk.LogStore.Files.{Disk}
use tron_hawk.LogStore.Lines.{Codec}
use tron_hawk.LogStore.Sort.{LogQuery}
use tron_hawk.LogStore.Store.{LogStore, query}

pub record RuntimeEvent : Type 0 where
  pub level : LogLevel
  pub message : Str

pub record PluginEvent : Type 0 where
  pub plugin_id : Str
  pub level : LogLevel
  pub message : Str

-- The service with the log budgets and the events that the log has taken from applications.
pub record Ingest : Type 0 where
  pub core : Core
  pub rates : Map LogRate
  pub records : List NewLogRecord

pub data LogAnswer : Type 0 where
  accepted : ℕ → LogAnswer
  invalid_params not_in_plan rate_limited internal_error : LogAnswer

abbrev pub runtime_record : Str → RuntimeEvent → NewLogRecord
runtime_record application_id event = record {
  stream = LogStream.runtime;
  level = event.level;
  code = codes "runtime.message";
  application_id = application_id;
  plugin_id = none;
  message = event.message;
}

abbrev pub plugin_record : Str → PluginEvent → NewLogRecord
plugin_record application_id event = record {
  stream = LogStream.plugin;
  level = event.level;
  code = codes "plugin.message";
  application_id = application_id;
  plugin_id = some event.plugin_id;
  message = event.message;
}

-- The loop of `append` over a batch, which ends at the first that fails; `takes` tells whether the log
-- takes a record.
unfoldable pub append_all :
    (NewLogRecord → Bool) → List NewLogRecord → List NewLogRecord → Bool × List NewLogRecord
append_all takes [] records = (true, records)
append_all takes (r ∷ rs) records =
    let rest = append_all takes rs (records ++ (r ∷ [])) in
    if takes r then rest else (false, records)

-- The batch is charged only when all of it has been appended.
abbrev pub charged :
    ℕ → Str → ℕ → Core → Map LogRate → Bool × List NewLogRecord → LogAnswer × Ingest
charged now application_id count core rates (true, records) = (
  accepted count,
  record {
    core = core;
    rates = commit_log_ingest now application_id count rates;
    records = records;
  },
)
charged now application_id count core rates (false, records) =
    (internal_error, record { core = core; rates = rates; records = records })

abbrev pub plan_ids : ExecutionPlan → List Str
plan_ids plan = map (λ (g : PluginGrant). g.id) plan.plugins

module _ (takes : NewLogRecord → Bool) (now : ℕ) (application_id : Str) where
  abbrev pub on_budget :
      List NewLogRecord → Core → List NewLogRecord → Bool × Map LogRate → LogAnswer × Ingest
  on_budget batch core records (true, rates) =
      charged now application_id (length batch) core rates (append_all takes batch records)
  on_budget batch core records (false, rates) =
      (rate_limited, record { core = core; rates = rates; records = records })

  -- The budget, the records and the charge; none is the panic of `log_rate_available`.
  unfoldable pub take_batch : List NewLogRecord → Core → Ingest → Option (LogAnswer × Ingest)
  take_batch batch core site =
      elim (log_rate_available now application_id (length batch) site.rates) [
        | none ↦ none
        | some answer ↦ some (on_budget batch core site.records answer)
      ]

  unfoldable pub append_runtime_logs : List RuntimeEvent → Ingest → Option (LogAnswer × Ingest)
  append_runtime_logs events site =
      if not (valid_log_batch (map (λ (e : RuntimeEvent). e.message) events))
      then some (invalid_params, site)
      else take_batch (map (runtime_record application_id) events) site.core site

  -- The batch under the plan of the moment.
  abbrev pub under_plan :
      List PluginEvent
      → Ingest
      → Result RouterError ExecutionPlan × Core
      → Option (LogAnswer × Ingest)
  under_plan events site (err e, core) = some (internal_error, record site { core = core })
  under_plan events site (ok plan, core) =
      if any (λ (e : PluginEvent). not (contains_text (plan_ids plan) e.plugin_id)) events
      then some (not_in_plan, record site { core = core })
      else take_batch (map (plugin_record application_id) events) core site

  unfoldable pub append_plugin_logs : Env → List PluginEvent → Ingest → Option (LogAnswer × Ingest)
  append_plugin_logs env events site =
      if not (valid_log_batch (map (λ (e : PluginEvent). e.message) events))
      then some (invalid_params, site)
      else under_plan events site (execution_plan env application_id site.core)

pub data QueryError : Type 0 where
  limit_out_of_range : QueryError
  log_failed : LogError → QueryError

abbrev pub reading {ℓ} : {A : Type ℓ} → Result LogError A → Result QueryError A
reading (ok a) = ok a
reading (err e) = err (log_failed e)

-- `events.last().map(|event| event.sequence)`
abbrev pub last_sequence : List LogRecord → Option ℕ
last_sequence [] = none
last_sequence (r ∷ []) = some r.sequence
last_sequence (r ∷ s ∷ rs) = last_sequence (s ∷ rs)

-- The page, and where the next one begins.
unfoldable pub query_logs :
    Codec → Disk → LogQuery → LogStore → Result QueryError (List LogRecord × Option ℕ)
query_logs codec disk params store =
    reject_if (not (leb 1 params.limit && leb params.limit 20)) limit_out_of_range
    >> reading (query codec disk params store)
    >>= λ events. ok (events, last_sequence events)
