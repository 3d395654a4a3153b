-- ===== src/LogStore/Store/Append.antt =====
-- `LogStore::append` in crates/core/src/log_store.rs keeps what the files hold, and adds the record.
use tron_hawk.Common.{
  ℕ, ◌+◌, ◌≤◌, ◌<◌, ◌≡◌, ◌≢◌, refl, ap, ◌∙◌, sym, Bool, true, false, List, [], ◌∷◌, ◌++◌, All,
  All-append, All-map, length, ok, err, arith, is_empty, len, Result-cases, inl, inr, ltb, Str,
}
use tron_hawk.Common.Decimal.{max_u64, saturating_add}
use mathlib.Core.Path.{subst}
use mathlib.Core.List.{append_assoc}
use tron_hawk.LogStore.Record.{
  LogRecord, NewLogRecord, LogError, max_record_bytes, max_message_bytes, without_controls,
  normalize_message, record_of, valid_shape,
}
use tron_hawk.LogStore.Lines.{Codec, text_of}
use tron_hawk.LogStore.Lines.Written.{IsReadable}
use tron_hawk.LogStore.Files.{Slots, Disk}
use tron_hawk.LogStore.Files.Fine.{IsFine}
use tron_hawk.LogStore.Store.Pushed.{
  pushed, remaining, recorded-pushed, remaining-All, remaining-IsAscending, IsAscending-last,
}
use tron_hawk.LogStore.Sort.Newest.{IsAscending, IsOlder}
use tron_hawk.LogStore.Store.{LogStore, is_full, prepared, line_of, append}
use tron_hawk.LogStore.Store.Holds.{recorded, IsStore}
use tron_hawk.LogStore.Store.Laid.{laid, IsLaid, laid-IsLaid, append_line-IsFine}
use tron_hawk.LogStore.Store.Cleaned.{IsCleaned, without_controls-IsCleaned, expected}
use tron_hawk.LogStore.Store.Prepared.{prepared_sound, record_of-IsReadable}

module _ (codec : Codec) where
  text_of-append :
      (log : List LogRecord) (r : LogRecord)
      → text_of codec (log ++ (r ∷ [])) ≡ text_of codec log ++ line_of codec r
  text_of-append [] r = refl
  text_of-append (x ∷ log) r =
      ap (λ t. codec.encode x ++ (b'\n' ∷ t)) (text_of-append log r)
      ∙ sym (append_assoc (codec.encode x) (b'\n' ∷ text_of codec log) (line_of codec r))

  -- The conditions on an event that its callers see to: its code belongs to its stream, with a plugin
  -- where that takes one, and it names an application.
  abbrev pub IsAttributed : NewLogRecord → Type 0
  IsAttributed event =
      (valid_shape event.stream event.code event.plugin_id ≡ true)
      × (is_empty event.application_id ≡ false)

  -- The records and the new one, under a greater next sequence.
  pushed-IsAscending :
      (full : Bool) (r : LogRecord) (logs : Slots (List LogRecord)) (next : ℕ)
      → IsAscending (recorded logs)
      → All (λ s. s.sequence < r.sequence) (recorded logs)
      → r.sequence < next
      → IsAscending (recorded (pushed full r logs))
        × All (λ s. s.sequence < next) (recorded (pushed full r logs))
  pushed-IsAscending full r logs next ascending below later =
      let older = remaining-All (λ s. IsOlder s r) full logs below in
      rw (recorded-pushed full r logs) (
        IsAscending-last (remaining full logs) r (remaining-IsAscending full logs ascending) older,
        All-append (λ s. s.sequence < next) (remaining full logs) (r ∷ [])
            (All-map (λ s h. omega arith) (remaining full logs) older) (later, tt),
      )

  laid-Holds :
      (full : Bool) (r : LogRecord) (store : LogStore) (logs : Slots (List LogRecord)) (next : ℕ)
      → IsReadable codec r
      → r.sequence ≡ store.next_sequence
      → store.next_sequence < next
      → IsStore codec store logs
      → IsStore codec
          (record store { files = laid full (line_of codec r) store.files; next_sequence = next })
          (pushed full r logs)
  laid-Holds true r store logs next readable sequence later (a, b, c, d, e, ascending, below, one) =
      let (up, under) =
        pushed-IsAscending true r logs next ascending (rw sequence below) (rw sequence later) in
      ((refl, (readable, tt)), a, b, c, d, up, under, omega arith)
  laid-Holds false r store logs next readable sequence later
        (a, b, c, d, e, ascending, below, one) =
      let (up, under) =
        pushed-IsAscending false r logs next ascending (rw sequence below) (rw sequence later) in
      (
        (
          ap (λ t. t ++ line_of codec r) a.0 ∙ sym (text_of-append logs.active r),
          All-append (IsReadable codec) logs.active (r ∷ []) a.1 (readable, tt),
        ),
        b,
        c,
        d,
        e,
        up,
        under,
        omega arith,
      )

  -- Where every call works, the files hold ascending valid records below the next sequence, this is
  -- below the greatest of 64 bits, and the clock is not at 0: an attributed event that is appended
  -- becomes a record with the next sequence, and the files then hold it behind all records, or
  -- behind all but the oldest file's when the active file was full; they are ascending and valid
  -- again, and the next sequence is above all of them.
  pub append-IsStore :
      (disk : Disk) (event : NewLogRecord) (store : LogStore) (logs : Slots (List LogRecord))
      (r : LogRecord) (after : LogStore)
      → IsFine disk
      → IsStore codec store logs
      → store.next_sequence < max_u64
      → IsAttributed event
      → disk.clock ≢ ok 0
      → append codec disk event store ≡ (ok r, after)
      → (r.sequence ≡ store.next_sequence)
        × IsStore codec after (pushed (is_full store (length (line_of codec r))) r logs)
        × (recorded (pushed (is_full store (length (line_of codec r))) r logs)
            ≡ remaining (is_full store (length (line_of codec r))) logs ++ (r ∷ []))
  unfolding append
  append-IsStore disk event store logs r after fine holds room (shape, named) clock h =
      elim (Result-cases (prepared codec disk event store)) [
        | inr (e, bad) ↦ absurd (cc (rw (bad, append) at h))
        | inl (s, checked) ↦
            let line = append_line-IsFine disk fine codec s store in
            let done = rw (checked, append, line) at h in
            let same : s ≡ r = cc done in
            let (message, now, fits, reads, short, made) =
              prepared_sound codec disk event store s checked in
            let readable =
              record_of-IsReadable codec disk event store s (holds.7) clock shape named
                (message, now, fits, reads, short, made) in
            let sequence : s.sequence ≡ store.next_sequence = ap (λ t. t.sequence) made in
            let grown : saturating_add store.next_sequence 1 ≡ store.next_sequence + 1 =
              ground arith in
            let laid_down =
              laid-Holds (is_full store (length (line_of codec s))) s store logs
                (saturating_add store.next_sequence 1) readable sequence (rw grown (omega arith))
                holds in
            let stored = ap (λ q. q.1) done in
            rw (← same) (
              sequence,
              subst
                  (λ t. IsStore codec t (pushed (is_full store (length (line_of codec s))) s logs))
                  stored laid_down,
              recorded-pushed (is_full store (length (line_of codec s))) s logs,
            )
      ]

  -- Where every call works, an event is appended if its message, with a space for each control
  -- character, has at most 1024 bytes and the record's line is within its limit. The record has
  -- the next sequence, the time, that message and the rest of the event. Its line stands behind
  -- the content of the active file and the archives stay, if that file was empty or takes the line
  -- within its limit; else every file is under the next name and the line alone in the active one.
  -- The next sequence is one more, up to the greatest of 64 bits.
  pub append-IsWritten :
      (disk : Disk) (event : NewLogRecord) (store : LogStore) (message : Str) (now : ℕ)
      → IsFine disk
      → IsCleaned event.message message
      → len message ≤ 1024
      → disk.clock ≡ ok now
      → length (codec.encode (expected event store.next_sequence now message)) ≤ 3072
      → (after : LogStore) × (append codec disk event store
          ≡ (ok (expected event store.next_sequence now message), after))
        × IsLaid store.max_active_bytes
            (codec.encode (expected event store.next_sequence now message) ++ (b'\n' ∷ []))
            store.files
            after.files
        × (after.next_sequence ≡ saturating_add store.next_sequence 1)
  unfolding append prepared normalize_message
  append-IsWritten disk event store message now fine cleaned fits reads short =
      let r = record_of event store.next_sequence now message in
      let same : without_controls event.message ≡ message =
        without_controls-IsCleaned event.message message cleaned in
      let enough : ltb max_message_bytes (len message) ≡ false = ground arith in
      let small : ltb max_record_bytes (length (codec.encode r)) ≡ false = ground arith in
      (
        record store {
          files = laid (is_full store (length (line_of codec r))) (line_of codec r) store.files;
          next_sequence = saturating_add store.next_sequence 1;
        },
        rw
            (
              append,
              prepared,
              normalize_message,
              same,
              enough,
              reads,
              small,
              append_line-IsFine disk fine codec r store,
            )
            refl,
        laid-IsLaid store (line_of codec r),
        refl,
      )

  -- Where every call works, an append that fails has written nothing.
  pub append-IsKept :
      (disk : Disk) (event : NewLogRecord) (store after : LogStore) (e : LogError)
      → IsFine disk
      → append codec disk event store ≡ (err e, after)
      → after ≡ store
  unfolding append
  append-IsKept disk event store after e fine h =
      elim (Result-cases (prepared codec disk event store)) [
        | inr (f, bad) ↦ sym (ap (λ q. q.1) (rw (bad, append) at h))
        | inl (s, checked) ↦
            let done = rw (checked, append, append_line-IsFine disk fine codec s store) at h in
            absurd (cc done)
      ]
