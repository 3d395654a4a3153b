-- ===== src/LogStore/Store.antt =====
-- `LogStore` in crates/core/src/log_store.rs over the files of `Files` and the text of `Lines`.
pub mod Holds
pub mod Pushed
pub mod Laid
pub mod Cleaned
pub mod Prepared
pub mod Append
pub mod Open
use tron_hawk.Common.{
  ℕ, ◌+◌, Bool, true, false, not, ◌&&◌, Option, none, some, List, [], ◌∷◌, ◌++◌, length, take,
  split, ltb, leb, ◌==◌, ◌*◌, Result, ok, err, ◌>>=◌, ◌>>◌, reject_if, if◌then◌else◌,
}
use tron_hawk.Common.Decimal.{saturating_add}
use tron_hawk.LogStore.Record.{
  LogRecord, NewLogRecord, LogError, io_error, record_too_long, max_record_bytes, normalize_message,
  record_of,
}
use tron_hawk.LogStore.Lines.{Codec, read_records}
use tron_hawk.LogStore.Files.{Slots, Files, Disk, Done, and_then, rotate, write_active, content_of}
use tron_hawk.LogStore.Sort.{LogQuery, select}

pub record LogStore : Type 0 where
  pub files : Files
  pub next_sequence : ℕ
  pub max_active_bytes : ℕ

abbrev pub default_max_active_bytes : ℕ
default_max_active_bytes = 1024 * 1024

-- Whether `append` rotates before a line of so many bytes.
abbrev pub is_full : LogStore → ℕ → Bool
is_full store bytes =
    let current_size = length (content_of store.files.active) in
    ltb 0 current_size && ltb store.max_active_bytes (current_size + bytes)

abbrev pub made_room : Disk → ℕ → LogStore → Done
made_room disk bytes store =
    if is_full store bytes then rotate disk store.files else (ok tt, store.files)

-- What `append` returns, with the files that its writing leaves.
abbrev pub concluded : LogRecord → LogStore → Done → Result LogError LogRecord × LogStore
concluded r store (ok u, files) =
    (ok r, record store { files = files; next_sequence = saturating_add store.next_sequence 1 })
concluded r store (err e, files) = (err e, record store { files = files })

module _ (codec : Codec) where
  -- The record, checked before anything is written.
  unfoldable pub prepared : Disk → NewLogRecord → LogStore → Result LogError LogRecord
  prepared disk event store = normalize_message event.message >>= λ message. disk.clock >>= λ now.
      reject_if
        (ltb max_record_bytes
          (length (codec.encode (record_of event store.next_sequence now message))))
        record_too_long
      >> ok (record_of event store.next_sequence now message)

  abbrev pub line_of : LogRecord → List ℕ
  line_of r = codec.encode r ++ (b'\n' ∷ [])

  unfoldable pub append_line : Disk → LogRecord → LogStore → Result LogError LogRecord × LogStore
  append_line disk r store =
      concluded r store
        (and_then (made_room disk (length (line_of r)) store) (write_active disk (line_of r)))

  unfoldable pub append : Disk → NewLogRecord → LogStore → Result LogError LogRecord × LogStore
  append disk event store = elim (prepared disk event store) [
    | err e ↦ (err e, store)
    | ok r ↦ append_line disk r store
  ]

  -- `read_records` on the file of a number.
  unfoldable pub read_slot : Disk → ℕ → Option (List ℕ) → Result LogError (List LogRecord)
  read_slot disk i none = ok []
  read_slot disk i (some content) =
      if disk.permits i then read_records codec content else err io_error

  unfoldable pub query : Disk → LogQuery → LogStore → Result LogError (List LogRecord)
  query disk q store = read_slot disk 0 store.files.active >>= λ a.
      read_slot disk 1 store.files.first >>= λ b. read_slot disk 2 store.files.second >>= λ c.
      read_slot disk 3 store.files.third >>= λ d. read_slot disk 4 store.files.fourth >>= λ e.
      ok (select q (a ++ (b ++ (c ++ (d ++ (e ++ []))))))
