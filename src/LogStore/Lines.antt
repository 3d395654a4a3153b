-- ===== src/LogStore/Lines.antt =====
-- The text of a log file in crates/core/src/log_store.rs: how it is read, and what is recovered of
-- it when the service starts. `Codec` is `serde_json` on one record.
pub mod Written
pub mod Recovery
use tron_hawk.Common.{
  ℕ, ◌+◌, ◌≡◌, ◌≤◌, Bool, true, false, ◌&&◌, Option, none, some, List, [], ◌∷◌, ◌++◌, length, take,
  contains, split, is_empty, ltb, leb, Result, ok, err, ◌>>=◌, ◌>>◌, if◌then◌else◌, ◌==◌,
}
use tron_hawk.LogStore.Record.{
  LogRecord, LogError, record_too_long, invalid_record, max_record_bytes, validate_record,
}

-- JSON text on one line that is read back.
pub record Codec : Type 0 where
  pub encode : LogRecord → List ℕ
  pub decode : List ℕ → Option LogRecord
  pub one_line : (r : LogRecord) → contains b'\n' (encode r) ≡ false
  pub decode-encode : (r : LogRecord) → decode (encode r) ≡ some r

module _ (codec : Codec) where
  -- One complete line, with no newline.
  unfoldable pub read_line : List ℕ → Result LogError LogRecord
  unfolding validate_record
  read_line line =
      if ltb max_record_bytes (length line)
      then err record_too_long
      else (elim (codec.decode line) [
        | none ↦ err invalid_record
        | some r ↦ validate_record r >>= λ _. ok r
      ])

  -- The parts between the newlines. The last is what follows the last newline: nothing at a clean
  -- end, or a record that was not written whole, which is passed over.
  unfoldable pub read_parts : List (List ℕ) → Result LogError (List LogRecord)
  unfolding read_line
  read_parts [] = ok []
  read_parts (last ∷ []) = ok []
  read_parts (line ∷ next ∷ rest) =
      let more = read_parts (next ∷ rest) in read_line line >>= λ r. more >>= λ rs. ok (r ∷ rs)

  -- `read_records`
  unfoldable pub read_records : List ℕ → Result LogError (List LogRecord)
  unfolding read_parts
  read_records content = read_parts (split b'\n' content)

  -- The record of a line, if `recover_records` takes it.
  unfoldable pub recover_line : List ℕ → Option LogRecord
  unfolding validate_record
  recover_line line =
      if leb (length line) max_record_bytes
      then (elim (codec.decode line) [
        | none ↦ none
        | some r ↦ elim (validate_record r) [ ok _ ↦ some r | err e ↦ none ]
      ])
      else none

  -- The records before the first anomaly, the bytes that they take, and whether there is one.
  unfoldable pub recover_parts : List (List ℕ) → List LogRecord × ℕ × Bool
  recover_parts [] = ([], 0, false)
  recover_parts (last ∷ []) = ([], 0, (if is_empty last then false else true))
  recover_parts (line ∷ next ∷ rest) =
      let (rs, valid_bytes, broken) = recover_parts (next ∷ rest) in
      elim (recover_line line) [
        | none ↦ ([], 0, true)
        | some r ↦ (r ∷ rs, length line + 1 + valid_bytes, broken)
      ]

  -- `recover_records` of the active file, with the file that it leaves.
  unfoldable pub recover_active : List ℕ → List LogRecord × List ℕ
  unfolding recover_parts
  recover_active content =
      let (rs, valid_bytes, broken) = recover_parts (split b'\n' content) in
      (rs, (if broken then take valid_bytes content else content))

  -- `recover_records` of an archive: a broken one is put aside whole.
  unfoldable pub recover_archive : List ℕ → List LogRecord × Option (List ℕ)
  unfolding recover_parts
  recover_archive content =
      let (rs, valid_bytes, broken) = recover_parts (split b'\n' content) in
      if broken then ([], none) else (rs, some content)

  -- The text of records that were written one by one.
  abbrev pub text_of : List LogRecord → List ℕ
  text_of [] = []
  text_of (r ∷ rs) = codec.encode r ++ (b'\n' ∷ text_of rs)
