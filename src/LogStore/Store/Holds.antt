-- ===== src/LogStore/Store/Holds.antt =====
-- What the files of a log store in crates/core/src/log_store.rs hold, and what its queries find.
use tron_hawk.Common.{
  ℕ, ◌≤◌, ◌<◌, ◌≡◌, refl, ap, ◌∙◌, sym, true, Option, none, some, List, [], ◌∷◌, All, retain, take,
  split, ok,
}
use mathlib.Core.List.{append-nil}
use tron_hawk.LogStore.Record.{LogRecord}
use tron_hawk.LogStore.Lines.{Codec, read_records, text_of}
use tron_hawk.LogStore.Lines.Written.{IsReadable, read_records-text_of}
use tron_hawk.LogStore.Files.{Slots, Disk, IsPermitted, content_of}
use tron_hawk.LogStore.Sort.{LogQuery, matches}
use tron_hawk.LogStore.Sort.Newest.{IsAscending, newest_first, in_order, select-flatten}
use tron_hawk.LogStore.Store.{LogStore, read_slot, query}

-- The records of each file, the newest file first.
abbrev pub each : Slots (List LogRecord) → List (List LogRecord)
each logs = logs.active ∷ logs.first ∷ logs.second ∷ logs.third ∷ logs.fourth ∷ []

-- All records in the order of writing.
abbrev pub recorded : Slots (List LogRecord) → List LogRecord
recorded logs = in_order (each logs)

module _ (codec : Codec) where
  -- A file that holds exactly some records; one that holds none may be missing.
  abbrev pub Holds : Option (List ℕ) → List LogRecord → Type 0
  Holds slot log = (content_of slot ≡ text_of codec log) × All (IsReadable codec) log

  -- The files hold the logs, with ascending sequences that are all below the next one.
  abbrev pub IsStore : LogStore → Slots (List LogRecord) → Type 0
  IsStore store logs =
      Holds store.files.active logs.active
      × Holds store.files.first logs.first
      × Holds store.files.second logs.second
      × Holds store.files.third logs.third
      × Holds store.files.fourth logs.fourth
      × IsAscending (recorded logs)
      × All (λ r. r.sequence < store.next_sequence) (recorded logs)
      × (1 ≤ store.next_sequence)

  read_records-Holds :
      (content : List ℕ) (log : List LogRecord)
      → content ≡ text_of codec log
      → All (IsReadable codec) log
      → read_records codec content ≡ ok log
  read_records-Holds content log same readable =
      ap (read_records codec) (same ∙ sym (append-nil (text_of codec log)))
      ∙ read_records-text_of codec log [] readable refl

  read_records-nil : read_records codec [] ≡ ok []
  unfolding read_records split
  read_records-nil = refl

  read_slot-Holds :
      (disk : Disk) (i : ℕ) (slot : Option (List ℕ)) (log : List LogRecord)
      → disk.permits i ≡ true
      → Holds slot log
      → read_slot codec disk i slot ≡ ok log
  unfolding read_slot
  read_slot-Holds disk i none log p (same, readable) =
      sym read_records-nil ∙ read_records-Holds [] log same readable
  read_slot-Holds disk i (some content) log p (same, readable) =
      rw (read_slot, p) (read_records-Holds content log same readable)

  -- A query of files that hold ascending records gives those that match, the newest first, up to the
  -- limit.
  pub query-IsStore :
      (disk : Disk) (q : LogQuery) (store : LogStore) (logs : Slots (List LogRecord))
      → IsPermitted disk
      → IsStore store logs
      → query codec disk q store
        ≡ ok (take q.limit (newest_first (retain (matches q) (recorded logs))))
  unfolding query
  query-IsStore disk q store logs p (a, b, c, d, e, ascending, below, one) =
      rw
        (
          query,
          read_slot-Holds disk 0 store.files.active logs.active (p 0) a,
          read_slot-Holds disk 1 store.files.first logs.first (p 1) b,
          read_slot-Holds disk 2 store.files.second logs.second (p 2) c,
          read_slot-Holds disk 3 store.files.third logs.third (p 3) d,
          read_slot-Holds disk 4 store.files.fourth logs.fourth (p 4) e,
        )
        (ap ok (select-flatten q (each logs) ascending))
