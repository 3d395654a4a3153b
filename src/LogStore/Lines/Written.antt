-- ===== src/LogStore/Lines/Written.antt =====
-- What was written to a log file of crates/core/src/log_store.rs is read back.
use tron_hawk.Common.{
  ℕ, ◌≤◌, ◌≡◌, refl, ap, ◌∙◌, false, List, [], ◌∷◌, ◌++◌, length, contains, split, split_whole,
  split-append, All, ok, ltb, arith,
}
use mathlib.Core.List.{append_assoc}
use tron_hawk.LogStore.Record.{LogRecord, max_record_bytes, validate_record}
use tron_hawk.LogStore.Lines.{Codec, read_line, read_parts, read_records, text_of}

-- A record that reading takes.
abbrev pub IsReadable : Codec → LogRecord → Type 0
IsReadable codec r = (validate_record r ≡ ok tt) × (length (codec.encode r) ≤ max_record_bytes)

module _ (codec : Codec) where
  -- The lines of the records, and what follows the last newline.
  abbrev pub lines_of : List LogRecord → List ℕ → List (List ℕ)
  lines_of [] tail = tail ∷ []
  lines_of (r ∷ rs) tail = codec.encode r ∷ lines_of rs tail

  pub split-text_of :
      (rs : List LogRecord) (tail : List ℕ)
      → contains b'\n' tail ≡ false
      → split b'\n' (text_of codec rs ++ tail) ≡ lines_of rs tail
  split-text_of [] tail h = split_whole b'\n' tail h
  split-text_of (r ∷ rs) tail h =
      ap (split b'\n') (append_assoc (codec.encode r) (b'\n' ∷ text_of codec rs) tail)
      ∙ split-append b'\n' (codec.encode r) (text_of codec rs ++ tail) (codec.one_line r)
      ∙ ap (λ t. codec.encode r ∷ t) (split-text_of rs tail h)

  pub read_line-encode :
      (r : LogRecord) → IsReadable codec r → read_line codec (codec.encode r) ≡ ok r
  unfolding read_line
  read_line-encode r (valid, fits) =
      let short : ltb max_record_bytes (length (codec.encode r)) ≡ false = ground arith in
      rw (read_line, short, codec.decode-encode r, valid) refl

  read_parts-lines_of :
      (rs : List LogRecord) (tail : List ℕ)
      → All (IsReadable codec) rs
      → read_parts codec (lines_of rs tail) ≡ ok rs
  unfolding read_parts
  read_parts-lines_of [] tail h = refl
  read_parts-lines_of (r ∷ []) tail h = rw (read_parts, read_line-encode r h.0) refl
  read_parts-lines_of (r ∷ s ∷ rs) tail h =
      rw (read_parts, read_line-encode r h.0, read_parts-lines_of (s ∷ rs) tail h.1) refl

  -- Records that were written whole are read back, whatever part of a further one follows.
  pub read_records-text_of :
      (rs : List LogRecord) (tail : List ℕ)
      → All (IsReadable codec) rs
      → contains b'\n' tail ≡ false
      → read_records codec (text_of codec rs ++ tail) ≡ ok rs
  unfolding read_records
  read_records-text_of rs tail h clear =
      ap (read_parts codec) (split-text_of rs tail clear) ∙ read_parts-lines_of rs tail h
