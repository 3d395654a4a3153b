-- ===== src/Daemon/RateLimit.antt =====
-- The log budget of an application in crates/core/src/daemon.rs. An instant is a number of
-- seconds since the clock's origin.
pub mod Recent
pub mod Window
use tron_hawk.Common.{
  ℕ, ◌+◌, ◌-◌, Bool, true, false, not, ◌&&◌, Option, none, some, List, [], ◌∷◌, ◌++◌, Str, len,
  length, is_empty, all, replicate, ltb, leb, if◌then◌else◌,
}
use tron_hawk.Common.Map.{Map, lookup, insert}

pub record LogRate : Type 0 where
  pub last_activity : ℕ
  pub log_events : List ℕ

abbrev pub rate_window : ℕ
rate_window = 60

abbrev pub rate_max_events : ℕ
rate_max_events = 120

abbrev pub rate_idle_reset : ℕ
rate_idle_reset = 600

abbrev pub valid_log_batch : List Str → Bool
valid_log_batch messages =
    not (is_empty messages)
    && leb (length messages) 16
    && all (λ message. leb (len message) 1024) messages

-- `while front().is_some_and(|time| *time <= cutoff) { pop_front(); }`
unfoldable pub drop_old : ℕ → List ℕ → List ℕ
drop_old cutoff [] = []
drop_old cutoff (time ∷ times) =
    let rest = drop_old cutoff times in if leb time cutoff then rest else time ∷ times

abbrev pub or_new : ℕ → Option LogRate → LogRate
or_new now none = record { last_activity = now; log_events = [] }
or_new now (some rate) = rate

-- After `rate_idle_reset` of idleness the budget is new.
abbrev pub reset_idle : ℕ → LogRate → LogRate
reset_idle now rate =
    if ltb rate_idle_reset (now - rate.last_activity)
    then record { last_activity = now; log_events = [] }
    else rate

abbrev pub prune : ℕ → LogRate → LogRate
prune cutoff rate = record {
  last_activity = rate.last_activity;
  log_events = drop_old cutoff rate.log_events;
}

-- The answer and the rates behind it. `now - RATE_WINDOW` panics before the first window is over,
-- which is none.
unfoldable pub log_rate_available : ℕ → Str → ℕ → Map LogRate → Option (Bool × Map LogRate)
unfolding drop_old
log_rate_available now application_id count rates =
    if ltb now rate_window
    then none
    else (let rate =
          prune (now - rate_window) (reset_idle now (or_new now (lookup application_id rates))) in
        some
          (leb (length rate.log_events + count) rate_max_events, insert application_id rate rates))

abbrev pub add_events : ℕ → ℕ → LogRate → LogRate
add_events now count rate = record {
  last_activity = now;
  log_events = rate.log_events ++ replicate count now;
}

unfoldable pub commit_log_ingest : ℕ → Str → ℕ → Map LogRate → Map LogRate
commit_log_ingest now application_id count rates = elim (lookup application_id rates) [
  | none ↦ rates
  | some rate ↦ insert application_id (add_events now count rate) rates
]

-- One ingestion, as the two log handlers do it: the budget is charged only if it suffices.
unfoldable pub ingest : ℕ → Str → ℕ → Map LogRate → Option (Bool × Map LogRate)
unfolding log_rate_available commit_log_ingest
ingest now application_id count rates = elim (log_rate_available now application_id count rates) [
  | none ↦ none
  | some (available, checked) ↦
      some (
        available,
        if available then commit_log_ingest now application_id count checked else checked,
      )
]
