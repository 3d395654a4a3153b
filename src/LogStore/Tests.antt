-- ===== src/LogStore/Tests.antt =====
-- The properties of crates/core/src/log_store.rs at concrete inputs.
mod Codec
mod Pages
use tron_hawk.Common.{
  ℕ, ◌+◌, ◌-◌, ◌≤◌, ◌<◌, ◌≡◌, ◌≢◌, refl, ap, ◌∙◌, sym, Bool, true, false, Option, none, some, List,
  [], ◌∷◌, ◌++◌, map, length, take, drop, contains, Str, codes, Result, ok, err, arith, length-map,
  take-append_add, drop-append_add, ◌==◌, if◌then◌else◌, is_empty, contains, All, bytes, ◌⊎◌,
  str_eq, inl, inr,
}
use mathlib.Core.List.{append-nil}
use tron_hawk.LogStore.Record.{
  LogRecord, NewLogRecord, LogStream, LogLevel, before_epoch, normalize_message, valid_shape,
  validate_record, core, runtime, plugin, info, warn, error,
}
use tron_hawk.LogStore.Tests.Codec.{codec}
use tron_hawk.LogStore.Lines.{text_of, read_records, recover_active}
use tron_hawk.LogStore.Lines.Written.{IsReadable}
use tron_hawk.LogStore.Lines.Recovery.{read_records-recover_active, recover_active-text_of}
use tron_hawk.LogStore.Files.{Slots, Files, Disk, whole, write_active, rotate}
use tron_hawk.LogStore.Files.Rotation.{history, without_oldest, rotate-history}
use tron_hawk.LogStore.Sort.{LogQuery, matches, select}
use tron_hawk.LogStore.Sort.Newest.{newest_first}
use tron_hawk.LogStore.Store.{LogStore, prepared, append_line, append, query, is_full, line_of}
use tron_hawk.LogStore.Store.Holds.{IsStore, recorded, query-IsStore}
use tron_hawk.LogStore.Store.Pushed.{pushed, remaining}
use tron_hawk.LogStore.Store.Append.{append-IsStore, append-IsWritten, append-IsKept}
use tron_hawk.LogStore.Store.Laid.{IsLaid}
use tron_hawk.LogStore.Store.Cleaned.{IsCleaned, expected}
use tron_hawk.LogStore.Store.Open.{with_max_size}
use tron_hawk.LogStore.Store.Open.Total.{IsAfter, with_max_size-IsOpen}

abbrev disk : Disk
disk = record {
  permits = λ i. true;
  removes = true;
  renames = λ i. true;
  quarantines = λ i. true;
  truncates = true;
  writes = λ bytes. whole;
  clock = ok 1700000000000;
}

abbrev event : NewLogRecord
event = record {
  stream = plugin;
  level = warn;
  code = codes "plugin.message";
  application_id = codes "app";
  plugin_id = some (codes "p");
  message = codes "two\nlines";
}

abbrev stored : LogRecord
stored = record {
  schema_version = 1;
  sequence = 1;
  timestamp_ms = 1700000000000;
  stream = plugin;
  level = warn;
  code = codes "plugin.message";
  application_id = codes "app";
  plugin_id = some (codes "p");
  message = codes "two lines";
}

abbrev no_files : Files
no_files = record { active = none; first = none; second = none; third = none; fourth = none }

abbrev no_logs : Slots (List LogRecord)
no_logs = record { active = []; first = []; second = []; third = []; fourth = [] }

abbrev store : LogStore
store = record { files = no_files; next_sequence = 1; max_active_bytes = 100 }

store-IsStore : IsStore codec store no_logs
store-IsStore = ((refl, tt), (refl, tt), (refl, tt), (refl, tt), (refl, tt), tt, tt, omega arith)

abbrev all_of : LogQuery
all_of = record { application_id = none; stream = some plugin; before_sequence = none; limit = 10 }

append_run : (append codec disk event store).0 ≡ ok stored
unfolding append prepared append_line normalize_message bytes write_active
append_run = refl

two_lines-IsCleaned : IsCleaned event.message stored.message
unfolding bytes
two_lines-IsCleaned = (
  inr (omega arith, inl (omega arith), refl),
  (
    inr (omega arith, inl (omega arith), refl),
    (
      inr (omega arith, inl (omega arith), refl),
      (
        inl (inl (omega arith), refl),
        (
          inr (omega arith, inl (omega arith), refl),
          (
            inr (omega arith, inl (omega arith), refl),
            (
              inr (omega arith, inl (omega arith), refl),
              (
                inr (omega arith, inl (omega arith), refl),
                (inr (omega arith, inl (omega arith), refl), tt),
              ),
            ),
          ),
        ),
      ),
    ),
  ),
)

append-IsWritten_example :
    (after : LogStore) × (append codec disk event store
      ≡ (ok (expected event 1 1700000000000 stored.message), after))
    × IsLaid 100
        (codec.encode (expected event 1 1700000000000 stored.message) ++ (b'\n' ∷ []))
        no_files
        after.files
    × (after.next_sequence ≡ 2)
unfolding bytes
append-IsWritten_example =
    append-IsWritten codec disk event store stored.message 1700000000000
      ((λ i. refl), refl, (λ i. refl), (λ bytes. refl)) two_lines-IsCleaned (omega arith) refl
      (omega arith)

-- The store after one append.
abbrev grown : LogStore
grown = (append codec disk event store).1

append-IsStore_example :
    (stored.sequence ≡ 1)
    × IsStore codec grown (pushed (is_full store (length (line_of codec stored))) stored no_logs)
    × (recorded (pushed (is_full store (length (line_of codec stored))) stored no_logs)
        ≡ remaining (is_full store (length (line_of codec stored))) no_logs ++ (stored ∷ []))
unfolding valid_shape str_eq
append-IsStore_example =
    append-IsStore codec disk event store no_logs stored grown
      ((λ i. refl), refl, (λ i. refl), (λ bytes. refl)) store-IsStore (omega arith) (refl, refl)
      (cc) (ap (λ t. (t, grown)) append_run)

-- A system clock before 1970.
abbrev early : Disk
early = record disk { clock = err before_epoch }

append-IsKept_example : (append codec early event store).1 ≡ store
unfolding append prepared normalize_message bytes
append-IsKept_example =
    append-IsKept codec early event store (append codec early event store).1 before_epoch
      ((λ i. refl), refl, (λ i. refl), (λ bytes. refl)) refl

-- Two files of one record each.
abbrev two_logs : Slots (List LogRecord)
two_logs = record {
  active = record stored { sequence = 2 } ∷ [];
  first = stored ∷ [];
  second = [];
  third = [];
  fourth = [];
}

abbrev two_files : LogStore
two_files = record {
  files = record {
    active = some (text_of codec two_logs.active);
    first = some (text_of codec two_logs.first);
    second = none;
    third = none;
    fourth = some [];
  };
  next_sequence = 3;
  max_active_bytes = 100;
}

two_files-IsStore : IsStore codec two_files two_logs
unfolding validate_record bytes str_eq
two_files-IsStore = (
  (refl, ((refl, omega arith), tt)),
  (refl, ((refl, omega arith), tt)),
  (refl, tt),
  (refl, tt),
  (refl, tt),
  ((omega arith, tt), (tt, tt)),
  (omega arith, (omega arith, tt)),
  omega arith,
)

query-IsStore_example :
    query codec disk all_of two_files ≡ ok (record stored { sequence = 2 } ∷ stored ∷ [])
unfolding newest_first str_eq
query-IsStore_example =
    query-IsStore codec disk all_of two_files two_logs (λ i. refl) two_files-IsStore

-- A whole record, and a part of one.
abbrev torn : List ℕ
torn = text_of codec (stored ∷ []) ++ (65 ∷ 66 ∷ [])

recover_active-text_of_example : (recover_active codec torn).0 ≡ stored ∷ []
unfolding validate_record bytes str_eq
recover_active-text_of_example =
    recover_active-text_of codec (stored ∷ []) (65 ∷ 66 ∷ []) ((refl, omega arith), tt) refl

read_records-recover_active_example :
    read_records codec (recover_active codec torn).1 ≡ ok (recover_active codec torn).0
read_records-recover_active_example = read_records-recover_active codec torn

with_max_size-IsOpen_example :
    (rs : List LogRecord) × (opened_store : LogStore) × (with_max_size codec disk 100
        (record no_files { active = some torn; second = some (65 ∷ []) })
      ≡ (ok opened_store, opened_store.files))
    × ((q : LogQuery) → query codec disk q opened_store ≡ ok (select q rs))
    × IsAfter opened_store.next_sequence rs
with_max_size-IsOpen_example =
    with_max_size-IsOpen codec disk 100
      (record no_files { active = some torn; second = some (65 ∷ []) }) (λ i. refl) refl (λ i. refl)

rotate-history_example :
    (history (rotate disk two_files.files).1 ≡ history two_files.files)
    ⊎ (history (rotate disk two_files.files).1 ≡ history (without_oldest two_files.files))
rotate-history_example = rotate-history disk two_files.files
