-- ===== src/LogStore/Store/Open.antt =====
-- `LogStore::new` in crates/core/src/log_store.rs: the recovery of the files when the service starts.
pub mod Total
use tron_hawk.Common.{
  ℕ, suc, ◌+◌, Bool, true, false, not, ◌&&◌, ◌||◌, Option, none, some, List, [], ◌∷◌, ◌++◌, length,
  take, split, is_some, leb, ◌==◌, Result, ok, err, if◌then◌else◌,
}
use tron_hawk.Common.Decimal.{saturating_add}
use tron_hawk.LogStore.Record.{LogRecord, LogError, io_error}
use tron_hawk.LogStore.Lines.{Codec, recover_parts, recover_active, recover_archive}
use tron_hawk.LogStore.Files.{Files, Disk}
use tron_hawk.LogStore.Store.{LogStore, default_max_active_bytes}

-- The bytes up to and with the last newline.
unfoldable pub complete_length : List ℕ → ℕ
complete_length [] = 0
complete_length (c ∷ s) =
    let rest = complete_length s in if rest == 0 then (if c == b'\n' then 1 else 0) else suc rest

-- `repair_active_tail`
unfoldable pub repair_active_tail : Disk → Option (List ℕ) → Result LogError (Option (List ℕ))
unfolding complete_length
repair_active_tail disk none = ok none
repair_active_tail disk (some content) =
    if not (disk.permits 0)
    then err io_error
    else if complete_length content == length content
    then ok (some content)
    else if disk.truncates
    then ok (some (take (complete_length content) content))
    else err io_error

-- Whether a file is missing or passes `validate_regular_file`.
abbrev pub is_sound : Disk → ℕ → Option (List ℕ) → Bool
is_sound disk i slot = not (is_some slot) || disk.permits i

abbrev pub Recovered : Type 0
Recovered = Result LogError (List LogRecord) × Files

-- The next file, unless one before has failed: a failure leaves what was done before it.
abbrev pub recovering :
    Recovered
    → Result LogError (List LogRecord × Option (List ℕ))
    → (Option (List ℕ) → Files → Files)
    → Recovered
recovering (err e, files) found put = (err e, files)
recovering (ok rs, files) (err e) put = (err e, files)
recovering (ok rs, files) (ok (more, slot)) put = (ok (rs ++ more), put slot files)

abbrev pub maximum_sequence : List LogRecord → ℕ
maximum_sequence [] = 0
maximum_sequence (r ∷ rs) =
    let rest = maximum_sequence rs in if leb r.sequence rest then rest else r.sequence

-- `maximum.saturating_add(1).max(1)`
abbrev pub sequence_after : List LogRecord → ℕ
sequence_after rs =
    let next = saturating_add (maximum_sequence rs) 1 in if leb 1 next then next else 1

-- The end of `with_max_size`, on the files after the recovery.
unfoldable pub opened : Disk → ℕ → Recovered → Result LogError LogStore × Files
unfolding repair_active_tail
opened disk max_active_bytes (err e, files) = (err e, files)
opened disk max_active_bytes (ok rs, files) = elim (repair_active_tail disk files.active) [
  | err e ↦ (err e, files)
  | ok active ↦
      let repaired = record files { active = active } in
      (
        ok (record {
          files = repaired;
          next_sequence = sequence_after rs;
          max_active_bytes = max_active_bytes;
        }),
        repaired,
      )
]

module _ (codec : Codec) where
  -- `recover_records` of an archive: a broken one is put aside if that works, and passed over.
  unfoldable pub recover_slot :
      Disk → ℕ → Option (List ℕ) → Result LogError (List LogRecord × Option (List ℕ))
  unfolding recover_archive
  recover_slot disk i none = ok ([], none)
  recover_slot disk i (some content) =
      if disk.permits i
      then (elim (recover_archive codec content).1 [
        | some whole_content ↦ ok ((recover_archive codec content).0, some content)
        | none ↦ ok ([], (if disk.quarantines i then none else some content))
      ])
      else err io_error

  -- `recover_records` of the active file, which is cut back to its valid records.
  unfoldable pub recover_active_slot :
      Disk → Option (List ℕ) → Result LogError (List LogRecord × Option (List ℕ))
  unfolding recover_active
  recover_active_slot disk none = ok ([], none)
  recover_active_slot disk (some content) =
      let broken = (recover_parts codec (split b'\n' content)).2 in
      if not (disk.permits 0)
      then err io_error
      else if broken && not disk.truncates
      then err io_error
      else ok ((recover_active codec content).0, some (recover_active codec content).1)

  abbrev pub recover_files : Disk → Files → Recovered
  recover_files disk files =
      let start : Recovered = (ok [], files) in
      let at0 =
        recovering start (recover_active_slot disk files.active)
          λ slot f. record f { active = slot } in
      let at1 =
        recovering at0 (recover_slot disk 1 files.first) λ slot f. record f { first = slot } in
      let at2 =
        recovering at1 (recover_slot disk 2 files.second) λ slot f. record f { second = slot } in
      let at3 =
        recovering at2 (recover_slot disk 3 files.third) λ slot f. record f { third = slot } in
      recovering at3 (recover_slot disk 4 files.fourth) λ slot f. record f { fourth = slot }

  unfoldable pub with_max_size : Disk → ℕ → Files → Result LogError LogStore × Files
  unfolding recover_slot recover_active_slot opened
  with_max_size disk max_active_bytes files =
      if is_sound disk 0 files.active
        && is_sound disk 1 files.first
        && is_sound disk 2 files.second
        && is_sound disk 3 files.third
        && is_sound disk 4 files.fourth
      then opened disk max_active_bytes (recover_files disk files)
      else (err io_error, files)

  -- `LogStore::new`
  abbrev pub new : Disk → Files → Result LogError LogStore × Files
  new disk files = with_max_size disk default_max_active_bytes files
