-- ===== src/LogStore/Store/Prepared.antt =====
-- A record that passes the checks of `LogStore::append` in crates/core/src/log_store.rs is valid.
use tron_hawk.Common.{
  ℕ, ◌≤◌, ◌≡◌, ◌≢◌, refl, ap, ◌∙◌, sym, true, false, length, ok, arith, is_empty, Bool-cases,
  Result-cases, inl, inr, err-ne-ok, ltb, ◌==◌, Str,
}
use tron_hawk.LogStore.Record.{
  LogRecord, NewLogRecord, max_record_bytes, normalize_message, record_of, valid_shape,
  validate_record, check_message-normalize_message,
}
use tron_hawk.LogStore.Lines.{Codec}
use tron_hawk.LogStore.Lines.Written.{IsReadable}
use tron_hawk.LogStore.Files.{Disk}
use tron_hawk.LogStore.Store.{LogStore, prepared}

module _ (codec : Codec) where
  -- What a record is that passes the checks before writing.
  abbrev IsPrepared : Disk → NewLogRecord → LogStore → LogRecord → Type 0
  IsPrepared disk event store r =
      (message : Str) × (now : ℕ) × (normalize_message event.message ≡ ok message)
      × (disk.clock ≡ ok now)
      × (length (codec.encode r) ≤ max_record_bytes)
      × (r ≡ record_of event store.next_sequence now message)

  pub prepared_sound :
      (disk : Disk) (event : NewLogRecord) (store : LogStore) (r : LogRecord)
      → prepared codec disk event store ≡ ok r
      → IsPrepared disk event store r
  unfolding prepared
  prepared_sound disk event store r h = elim (Result-cases (normalize_message event.message)) [
    | inr (e, bad) ↦ err-ne-ok (rw (bad, prepared) at h)
    | inl (message, fits) ↦ elim (Result-cases disk.clock) [
      | inr (e, bad) ↦ err-ne-ok (rw (fits, bad, prepared) at h)
      | inl (now, clock) ↦
          let s = record_of event store.next_sequence now message in
          elim (Bool-cases (ltb max_record_bytes (length (codec.encode s)))) [
            | inl long ↦ err-ne-ok (rw (fits, clock, long, prepared) at h)
            | inr short ↦
                let same : s ≡ r = cc (rw (fits, clock, short, prepared) at h) in
                let enough : length (codec.encode s) ≤ max_record_bytes = ground arith in
                (message, now, fits, clock, rw same at enough, sym same)
          ]
    ]
  ]

  pub record_of-IsReadable :
      (disk : Disk) (event : NewLogRecord) (store : LogStore) (r : LogRecord)
      → 1 ≤ store.next_sequence
      → disk.clock ≢ ok 0
      → valid_shape event.stream event.code event.plugin_id ≡ true
      → is_empty event.application_id ≡ false
      → IsPrepared disk event store r
      → IsReadable codec r
  unfolding validate_record
  record_of-IsReadable disk event store r one clock shape named
        (message, now, fits, reads, short, same) =
      let sequence : (store.next_sequence == 0) ≡ false = ground arith in
      let time : (now == 0) ≡ false = elim (Bool-cases (now == 0)) [
        | inl zero_now ↦
            let none_yet : now ≡ 0 = ground arith in absurd (clock (reads ∙ ap ok none_yet))
        | inr later ↦ later
      ] in
      (
        rw
            (
              same,
              validate_record,
              sequence,
              time,
              check_message-normalize_message event.message message fits,
              shape,
              named,
            )
            refl,
        short,
      )
