-- ===== src/Daemon/Logs/Ingested.antt =====
-- What the log takes of the batches in crates/core/src/daemon.rs.
use tron_hawk.Common.{
  ℕ, suc, ◌≡◌, refl, sym, ap, ◌∙◌, Bool, true, false, not, Option, none, some, List, [], ◌∷◌, ◌++◌,
  map, length, length-map, take, Str, contains_text, any, All, ltb, Result, ok, err, ◌⊎◌, inl, inr,
  Bool-cases, Option-cases, arith,
}
use mathlib.Core.Path.{subst}
use mathlib.Core.List.{append-nil, append_assoc}
use tron_hawk.Common.Map.{Map}
use tron_hawk.Daemon.State.{ExecutionPlan, Core, RouterError, Env}
use tron_hawk.Daemon.Plan.{execution_plan}
use tron_hawk.Daemon.RateLimit.{
  LogRate, rate_window, valid_log_batch, log_rate_available, commit_log_ingest, ingest,
}
use tron_hawk.LogStore.Record.{NewLogRecord}
use tron_hawk.Daemon.Logs.{
  PluginEvent, Ingest, LogAnswer, accepted, invalid_params, not_in_plan, rate_limited,
  internal_error, plugin_record, append_all, charged, on_budget, take_batch, plan_ids, under_plan,
  append_plugin_logs,
}

-- Each event's plugin is in the plan.
abbrev pub ArePlanned : ExecutionPlan → List PluginEvent → Type 0
ArePlanned plan events =
    All (λ (e : PluginEvent). contains_text (plan_ids plan) e.plugin_id ≡ true) events

-- What a batch of plugin events leads to. It panics only in the clock's first minute. If all of it is
-- accepted, it has 1 to 16 messages of at most 1024 bytes, every event is of a plugin in the current
-- plan, the log has taken a record for each, in their order, and the budget allowed and counts
-- them. If the log fails, it has taken a first part of such a batch, or nothing. Else it has taken
-- nothing.
abbrev pub IsIngested :
    Env → ℕ → Str → List PluginEvent → Ingest → Option (LogAnswer × Ingest) → Type 0
IsIngested env now application_id events site none = ltb now rate_window ≡ true
IsIngested env now application_id events site (some (accepted count, after)) =
    (plan : ExecutionPlan) × ((execution_plan env application_id site.core).0 ≡ ok plan)
    × ArePlanned plan events
    × (valid_log_batch (map (λ (e : PluginEvent). e.message) events) ≡ true)
    × (count ≡ length events)
    × (after.records ≡ site.records ++ map (plugin_record application_id) events)
    × (ingest now application_id count site.rates ≡ some (true, after.rates))
IsIngested env now application_id events site (some (internal_error, after)) =
    (after.records ≡ site.records)
    ⊎ ((plan : ExecutionPlan) × (n : ℕ) × ((execution_plan env application_id site.core).0
          ≡ ok plan)
        × ArePlanned plan events
        × (after.records ≡ site.records ++ take n (map (plugin_record application_id) events)))
IsIngested env now application_id events site (some (invalid_params, after)) = after ≡ site
IsIngested env now application_id events site (some (not_in_plan, after)) =
    (after.records ≡ site.records) × (after.rates ≡ site.rates)
IsIngested env now application_id events site (some (rate_limited, after)) =
    (after.records ≡ site.records)
    × (ingest now application_id (length events) site.rates ≡ some (false, after.rates))

-- How far a batch comes.
append_all_lem :
    (takes : NewLogRecord → Bool) (batch records : List NewLogRecord)
    → (append_all takes batch records ≡ (true, records ++ batch))
      ⊎ ((n : ℕ) × (append_all takes batch records ≡ (false, records ++ take n batch)))
unfolding append_all
append_all_lem takes [] records = inl (ap (λ r. (true, r)) (sym (append-nil records)))
append_all_lem takes (r ∷ rs) records = elim (Bool-cases (takes r)) [
  | inr fails ↦ inr (0, rw (append_all, fails, append-nil) refl)
  | inl works ↦ elim (append_all_lem takes rs (records ++ (r ∷ []))) [
    | inl whole ↦ inl (rw (append_all, works, whole, append_assoc) refl)
    | inr (n, part) ↦ inr (suc n, rw (append_all, works, part, append_assoc) refl)
  ]
]

planned :
    (plan : ExecutionPlan) (events : List PluginEvent)
    → any (λ (e : PluginEvent). not (contains_text (plan_ids plan) e.plugin_id)) events ≡ false
    → ArePlanned plan events
planned plan [] h = tt
planned plan (e ∷ events) h = (ground arith, planned plan events (ground arith))

module _ (now : ℕ) (application_id : Str) (count : ℕ) (before rates : Map LogRate) where
  within :
      log_rate_available now application_id count before ≡ some (true, rates)
      → ingest now application_id count before
        ≡ some (true, commit_log_ingest now application_id count rates)
  unfolding ingest
  within budget = rw (ingest, budget) refl

  limited :
      log_rate_available now application_id count before ≡ some (false, rates)
      → ingest now application_id count before ≡ some (false, rates)
  unfolding ingest
  limited budget = rw (ingest, budget) refl

too_early :
    (now : ℕ) (application_id : Str) (count : ℕ) (before : Map LogRate)
    → log_rate_available now application_id count before ≡ none
    → ltb now rate_window ≡ true
unfolding log_rate_available
too_early now application_id count before h = elim (Bool-cases (ltb now rate_window)) [
  | inl early ↦ early
  | inr late ↦ absurd (cc (rw (late, log_rate_available) at h))
]

module _ (env : Env) (takes : NewLogRecord → Bool) (now : ℕ) (application_id : Str)
    (events : List PluginEvent) (site : Ingest) where
  abbrev batch : List NewLogRecord
  batch = map (plugin_record application_id) events

  length-batch : length batch ≡ length events
  length-batch = length-map events (plugin_record application_id)

  -- The budget's answer, and the batch under it.
  on_budget-IsIngested :
      (plan : ExecutionPlan) (core : Core) (rates : Map LogRate) (available : Bool)
      → (execution_plan env application_id site.core).0 ≡ ok plan
      → ArePlanned plan events
      → valid_log_batch (map (λ (e : PluginEvent). e.message) events) ≡ true
      → log_rate_available now application_id (length batch) site.rates ≡ some (available, rates)
      → IsIngested env now application_id events site
          (some (on_budget takes now application_id batch core site.records (available, rates)))
  unfolding ingest
  on_budget-IsIngested plan core rates false found allowed valid budget = (
    refl,
    ap (λ n. ingest now application_id n site.rates) (sym length-batch)
        ∙ limited now application_id (length batch) site.rates rates budget,
  )
  on_budget-IsIngested plan core rates true found allowed valid budget =
      elim (append_all_lem takes batch site.records) [
        | inl whole ↦
            subst
              (λ d.
                IsIngested env now application_id events site
                  (some (charged now application_id (length batch) core rates d)))
              (sym whole)
              (
                plan,
                found,
                allowed,
                valid,
                length-batch,
                refl,
                within now application_id (length batch) site.rates rates budget,
              )
        | inr (n, part) ↦
            subst
              (λ d.
                IsIngested env now application_id events site
                  (some (charged now application_id (length batch) core rates d)))
              (sym part) (inr (plan, n, found, allowed, refl))
      ]

  take_batch-IsIngested :
      (plan : ExecutionPlan) (core : Core)
      → (execution_plan env application_id site.core).0 ≡ ok plan
      → ArePlanned plan events
      → valid_log_batch (map (λ (e : PluginEvent). e.message) events) ≡ true
      → IsIngested env now application_id events site
          (take_batch takes now application_id batch core site)
  unfolding take_batch
  take_batch-IsIngested plan core found allowed valid =
      elim (Option-cases (log_rate_available now application_id (length batch) site.rates)) [
        | inl early ↦
            rw (take_batch, early) (too_early now application_id (length batch) site.rates early)
        | inr ((available, rates), budget) ↦
            rw (take_batch, budget)
              (on_budget-IsIngested plan core rates available found allowed valid budget)
      ]

  under_plan-IsIngested :
      (answer : Result RouterError ExecutionPlan × Core)
      → answer ≡ execution_plan env application_id site.core
      → valid_log_batch (map (λ (e : PluginEvent). e.message) events) ≡ true
      → IsIngested env now application_id events site
          (under_plan takes now application_id events site answer)
  under_plan-IsIngested (err e, core) found valid = inl refl
  under_plan-IsIngested (ok plan, core) found valid =
      let others =
        any (λ (e : PluginEvent). not (contains_text (plan_ids plan) e.plugin_id)) events in
      elim (Bool-cases others) [
        | inl unplanned ↦ rw (under_plan, unplanned) (refl, refl)
        | inr none_other ↦
            rw (under_plan, none_other)
              (take_batch-IsIngested plan core (ap (λ a. a.0) (sym found))
                (planned plan events none_other) valid)
      ]

-- Whatever batch of plugin events comes, and whatever the log takes: if it is accepted, it has 1 to 16
-- messages of at most 1024 bytes, every event is of a plugin in the application's current plan, the
-- log has taken one record for each and nothing else, and the budget allowed and counts them; where
-- the log fails, it has taken a first part of such a batch or nothing; otherwise it has taken
-- nothing.
pub append_plugin_logs-IsIngested :
    (env : Env) (takes : NewLogRecord → Bool) (now : ℕ) (application_id : Str)
    (events : List PluginEvent) (site : Ingest)
    → IsIngested env now application_id events site
        (append_plugin_logs takes now application_id env events site)
unfolding append_plugin_logs
append_plugin_logs-IsIngested env takes now application_id events site =
    elim (Bool-cases (valid_log_batch (map (λ (e : PluginEvent). e.message) events))) [
      | inr bad ↦ rw (append_plugin_logs, bad) refl
      | inl valid ↦
          rw (append_plugin_logs, valid)
            (under_plan-IsIngested env takes now application_id events site
              (execution_plan env application_id site.core) refl valid)
    ]
