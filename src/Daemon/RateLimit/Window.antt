-- ===== src/Daemon/RateLimit/Window.antt =====
-- The sliding window of the log budget in crates/core/src/daemon.rs.
use tron_hawk.Common.{
  ℕ, ◌+◌, ◌-◌, ◌≤◌, ◌≡◌, refl, Bool, false, Option, none, some, List, ◌++◌, Str, length,
  length-append, replicate, All, All-append, ltb, leb, arith, str_eq_refl, Bool-cases, inl, inr,
  if◌then◌else◌,
}
use tron_hawk.Common.Map.{Map, lookup, insert, lookup-insert}
use tron_hawk.Daemon.RateLimit.Recent.{
  recent, recent-append, recent-le, recent-drop_old, recent-old, drop_old-All, drop_old-le,
  length-replicate, replicate-All, later-All,
}
use tron_hawk.Daemon.RateLimit.{
  LogRate, rate_window, rate_max_events, rate_idle_reset, or_new, reset_idle, prune,
  log_rate_available, add_events, commit_log_ingest, ingest,
}

-- The rate stands for what was accepted: behind any cutoff from `start` on it has at least as many
-- events, none later than the last activity, and at most the budget.
pub record IsTracked (start : ℕ) (accepted : List ℕ) (rate : LogRate) : Type 0 where
  pub counted : (c : ℕ) → start ≤ c → recent c accepted ≤ recent c rate.log_events
  pub in_past : All (λ t. t ≤ rate.last_activity) rate.log_events
  pub in_budget : length rate.log_events ≤ rate_max_events
  pub on_time : rate.last_activity ≤ start + rate_window

reset_idle-IsTracked :
    (now start : ℕ) (accepted : List ℕ) (rate : LogRate)
    → rate_window ≤ now
    → start ≤ now - rate_window
    → IsTracked start accepted rate
    → IsTracked (now - rate_window) accepted (reset_idle now rate)
unfolding recent
reset_idle-IsTracked now start accepted rate w s h =
    elim (Bool-cases (ltb rate_idle_reset (now - rate.last_activity))) [
      | inl idle ↦ rw idle (record {
        counted = λ c later.
            let few = h.counted c (omega arith) in
            let gone = recent-old c rate.last_activity rate.log_events h.in_past (ground arith) in
            rw gone at few;
        in_past = tt;
        in_budget = ground arith;
        on_time = omega arith;
      })
      | inr active ↦ rw active (record {
        counted = λ c later. h.counted c (omega arith);
        in_past = h.in_past;
        in_budget = h.in_budget;
        on_time = (let t = h.on_time in omega arith);
      })
    ]

prune-IsTracked :
    (start : ℕ) (accepted : List ℕ) (rate : LogRate)
    → IsTracked start accepted rate
    → IsTracked start accepted (prune start rate)
prune-IsTracked start accepted rate h = record {
  counted = λ c later. rw (recent-drop_old c start rate.log_events later) (h.counted c later);
  in_past = drop_old-All start rate.last_activity rate.log_events h.in_past;
  in_budget = ground (arith, drop_old-le start rate.log_events, h.in_budget);
  on_time = h.on_time;
}

add_events-IsTracked :
    (now count : ℕ) (accepted : List ℕ) (rate : LogRate)
    → rate_window ≤ now
    → length rate.log_events + count ≤ rate_max_events
    → IsTracked (now - rate_window) accepted rate
    → IsTracked (now - rate_window) (accepted ++ replicate count now) (add_events now count rate)
add_events-IsTracked now count accepted rate w fits h =
    let early : rate.last_activity ≤ now = (let t = h.on_time in omega arith) in
    record {
      counted = λ c later.
          (let few = h.counted c later in
            rw
              (
                recent-append c accepted (replicate count now),
                recent-append c rate.log_events (replicate count now),
              )
              (omega arith));
      in_past =
          All-append (λ t. t ≤ now) rate.log_events (replicate count now)
            (later-All rate.last_activity now rate.log_events early h.in_past)
            (replicate-All count now now (omega arith));
      in_budget =
          rw (length-append rate.log_events (replicate count now), length-replicate count now) fits;
      on_time = omega arith;
    }

-- What the rate of an application, if there is one, stands for.
abbrev pub IsAccounted : ℕ → List ℕ → Option LogRate → Type 0
IsAccounted start accepted none = (c : ℕ) → start ≤ c → recent c accepted ≤ 0
IsAccounted start accepted (some rate) = IsTracked start accepted rate

abbrev pub charged : Bool → ℕ → ℕ → List ℕ → List ℕ
charged available now count accepted =
    if available then accepted ++ replicate count now else accepted

or_new-IsTracked :
    (now start : ℕ) (accepted : List ℕ) (o : Option LogRate)
    → rate_window ≤ now
    → start ≤ now - rate_window
    → IsAccounted start accepted o
    → IsTracked (now - rate_window) accepted (reset_idle now (or_new now o))
unfolding recent
or_new-IsTracked now start accepted none w s h = rw (fresh now) (record {
  counted = λ c later. (let few = h c (omega arith) in few);
  in_past = tt;
  in_budget = ground arith;
  on_time = omega arith;
})
  where
    fresh : (now : ℕ) → reset_idle now (or_new now none) ≡ or_new now none
    fresh now = ground arith
or_new-IsTracked now start accepted (some rate) w s h =
    reset_idle-IsTracked now start accepted rate w s h

-- The rates behind an ingestion account for what was accepted, and within the last window at most
-- the budget was.
abbrev pub IsCharged : ℕ → Str → ℕ → List ℕ → Option (Bool × Map LogRate) → Type 0
IsCharged now application_id count accepted none = ⊥
IsCharged now application_id count accepted (some (available, after)) =
    IsAccounted (now - rate_window) (charged available now count accepted)
      (lookup application_id after)
    × (recent (now - rate_window) (charged available now count accepted) ≤ rate_max_events)

tracked-le :
    (start : ℕ) (accepted : List ℕ) (rate : LogRate)
    → IsTracked start accepted rate
    → recent start accepted ≤ rate_max_events
tracked-le start accepted rate h =
    let few = h.counted start (omega arith) in
    let all = recent-le start rate.log_events in let cap = h.in_budget in omega arith

lookup_inserted :
    (k : Str) (rate : LogRate) (rates : Map LogRate) → lookup k (insert k rate rates) ≡ some rate
lookup_inserted k rate rates = rw (lookup-insert k k rate rates, str_eq_refl k) refl

module _ (now : ℕ) (application_id : Str) (count : ℕ) (rates : Map LogRate) where
  abbrev checked_rate : LogRate
  checked_rate =
      prune (now - rate_window) (reset_idle now (or_new now (lookup application_id rates)))

  available_step :
      rate_window ≤ now
      → log_rate_available now application_id count rates
        ≡ some (
          leb (length checked_rate.log_events + count) rate_max_events,
          insert application_id checked_rate rates,
        )
  unfolding log_rate_available
  available_step w =
      let late : ltb now rate_window ≡ false = ground arith in rw (late, log_rate_available) refl

  commit_step :
      (rate : LogRate)
      → commit_log_ingest now application_id count (insert application_id rate rates)
        ≡ insert application_id (add_events now count rate) (insert application_id rate rates)
  unfolding commit_log_ingest
  commit_step rate = rw (lookup_inserted application_id rate rates, commit_log_ingest) refl

-- After its first minute the clock gives every ingestion an answer; and whatever an application
-- has sent before, of what was accepted in the minute up to now there are at most 120 events.
pub ingest-IsCharged :
    (now start : ℕ) (application_id : Str) (count : ℕ) (accepted : List ℕ) (rates : Map LogRate)
    → rate_window ≤ now
    → start ≤ now - rate_window
    → IsAccounted start accepted (lookup application_id rates)
    → IsCharged now application_id count accepted (ingest now application_id count rates)
unfolding ingest
ingest-IsCharged now start application_id count accepted rates w s h =
    let rate = checked_rate now application_id count rates in
    let tracked : IsTracked (now - rate_window) accepted rate =
      prune-IsTracked (now - rate_window) accepted _
        (or_new-IsTracked now start accepted (lookup application_id rates) w s h) in
    elim (Bool-cases (leb (length rate.log_events + count) rate_max_events)) [
      | inl fits ↦
          let more = add_events-IsTracked now count accepted rate w (ground arith) tracked in
          rw
            (
              available_step now application_id count rates w,
              ingest,
              fits,
              commit_step now application_id count rates rate,
              lookup_inserted application_id (add_events now count rate)
                  (insert application_id rate rates),
            )
            (more, tracked-le (now - rate_window) _ (add_events now count rate) more)
      | inr full ↦
          rw
            (
              available_step now application_id count rates w,
              ingest,
              full,
              lookup_inserted application_id rate rates,
            )
            (tracked, tracked-le (now - rate_window) accepted rate tracked)
    ]
