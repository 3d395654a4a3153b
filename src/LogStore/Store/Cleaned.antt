-- ===== src/LogStore/Store/Cleaned.antt =====
-- The record that `LogStore::append` in crates/core/src/log_store.rs makes of an event.
use tron_hawk.Common.{
  ℕ, ◌≤◌, ◌<◌, ◌≡◌, refl, Bool, true, false, [], ◌∷◌, arith, ◌⊎◌, if◌then◌else◌, inl, inr, Str,
}
use tron_hawk.LogStore.Record.{LogRecord, NewLogRecord, is_control, without_controls}

-- A message with a space for each control character (U+0000 to U+001F and U+007F to U+009F).
abbrev pub IsCleaned : Str → Str → Type 0
IsCleaned [] [] = Unit
IsCleaned (c ∷ s) (d ∷ t) =
    ((((c ≤ 0x1f) ⊎ ((0x7f ≤ c) × (c ≤ 0x9f))) × (d ≡ b' '))
      ⊎ ((0x1f < c) × ((c < 0x7f) ⊎ (0x9f < c)) × (d ≡ c)))
    × IsCleaned s t
IsCleaned [] (d ∷ t) = Path Bool true false
IsCleaned (c ∷ s) [] = Path Bool true false

cleaned_character :
    (c d : ℕ)
    → (((c ≤ 0x1f) ⊎ ((0x7f ≤ c) × (c ≤ 0x9f))) × (d ≡ b' '))
      ⊎ ((0x1f < c) × ((c < 0x7f) ⊎ (0x9f < c)) × (d ≡ c))
    → (if is_control c then b' ' else c) ≡ d
cleaned_character c d (inl (inl low, e)) = ground arith
cleaned_character c d (inl (inr mid, e)) = ground arith
cleaned_character c d (inr (above, inl below, e)) = ground arith
cleaned_character c d (inr (above, inr beyond, e)) = ground arith

pub without_controls-IsCleaned : (s t : Str) → IsCleaned s t → without_controls s ≡ t
without_controls-IsCleaned [] [] h = refl
without_controls-IsCleaned [] (d ∷ t) h = absurd (cc h)
without_controls-IsCleaned (c ∷ s) [] h = absurd (cc h)
without_controls-IsCleaned (c ∷ s) (d ∷ t) h =
    let rest = without_controls-IsCleaned s t h.1 in
    let first = cleaned_character c d h.0 in rw (first, rest) refl

-- The record of an event.
abbrev pub expected : NewLogRecord → ℕ → ℕ → Str → LogRecord
expected event sequence now message = record {
  schema_version = 1;
  sequence = sequence;
  timestamp_ms = now;
  stream = event.stream;
  level = event.level;
  code = event.code;
  application_id = event.application_id;
  plugin_id = event.plugin_id;
  message = message;
}
