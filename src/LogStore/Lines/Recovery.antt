-- ===== src/LogStore/Lines/Recovery.antt =====
-- What the recovery of crates/core/src/log_store.rs leaves behind.
use tron_hawk.Common.{
  ℕ, suc, ◌+◌, ◌≡◌, ◌≢◌, refl, sym, ap, ◌∙◌, Bool, true, false, some, List, [], ◌∷◌, ◌++◌, length,
  take, contains, split, split-append, split-All, split-ne-nil, join, join-split, take-append_add,
  All, ok, leb, ltb, arith, if◌then◌else◌, Option-cases, Result-cases, Bool-cases, inl, inr,
}
use tron_hawk.LogStore.Record.{LogRecord, max_record_bytes, validate_record}
use tron_hawk.LogStore.Lines.{
  Codec, read_line, read_parts, read_records, recover_line, recover_parts, recover_active,
  recover_archive, text_of,
}
use tron_hawk.LogStore.Lines.Written.{IsReadable, lines_of, split-text_of}

module _ (codec : Codec) where
  -- Recovery takes a line exactly as reading does.
  recover_line-read_line :
      (line : List ℕ) (r : LogRecord)
      → recover_line codec line ≡ some r
      → read_line codec line ≡ ok r
  unfolding recover_line read_line
  recover_line-read_line line r h = elim (Bool-cases (leb (length line) max_record_bytes)) [
    | inr long ↦ absurd (cc (rw (long, recover_line) at h))
    | inl fits ↦
        let short : ltb max_record_bytes (length line) ≡ false = ground arith in
        elim (Option-cases (codec.decode line)) [
          | inl unread ↦ absurd (cc (rw (fits, unread, recover_line) at h))
          | inr (s, read) ↦ elim (Result-cases (validate_record s)) [
            | inr (e, bad) ↦ absurd (cc (rw (fits, read, bad, recover_line) at h))
            | inl (u, valid) ↦
                let same : s ≡ r = cc (rw (fits, read, valid, recover_line) at h) in
                rw (read_line, short, read, valid) (ap ok same)
          ]
        ]
  ]

  recover_line-encode :
      (r : LogRecord) → IsReadable codec r → recover_line codec (codec.encode r) ≡ some r
  unfolding recover_line
  recover_line-encode r (valid, fits) =
      let short : leb (length (codec.encode r)) max_record_bytes ≡ true = ground arith in
      rw (recover_line, short, codec.decode-encode r, valid) refl

  -- The part of a text that recovery keeps.
  abbrev pub kept : List ℕ → List LogRecord × ℕ × Bool → List ℕ
  kept content (rs, valid_bytes, broken) = if broken then take valid_bytes content else content

  read_parts-cons :
      (line : List ℕ) (parts : List (List ℕ)) (r : LogRecord) (rs : List LogRecord)
      → parts ≢ []
      → read_line codec line ≡ ok r
      → read_parts codec parts ≡ ok rs
      → read_parts codec (line ∷ parts) ≡ ok (r ∷ rs)
  unfolding read_parts
  read_parts-cons line [] r rs n h k = absurd (n refl)
  read_parts-cons line (p ∷ ps) r rs n h k = rw (read_parts, h, k) refl

  -- A line that is taken, before the parts `parts`, of which recovery keeps the text `t`.
  pub kept-cons :
      (line content : List ℕ) (r : LogRecord) (found : List LogRecord × ℕ × Bool)
      → kept (line ++ (b'\n' ∷ content)) (r ∷ found.0, length line + 1 + found.1, found.2)
        ≡ line ++ (b'\n' ∷ kept content found)
  kept-cons line content r (rs, valid_bytes, true) =
      let sum : length line + 1 + valid_bytes ≡ length line + suc valid_bytes = omega arith in
      ap (λ n. take n (line ++ (b'\n' ∷ content))) sum
      ∙ take-append_add line (suc valid_bytes) (b'\n' ∷ content)
  kept-cons line content r (rs, valid_bytes, false) = refl

  abbrev IsRead : List ℕ → List LogRecord → Type 0
  IsRead content rs = read_parts codec (split b'\n' content) ≡ ok rs

  nothing-IsRead : IsRead [] []
  unfolding read_parts split
  nothing-IsRead = refl

  pub recover_parts-kept :
      (parts : List (List ℕ))
      → parts ≢ []
      → All (λ p. contains b'\n' p ≡ false) parts
      → IsRead (kept (join b'\n' parts) (recover_parts codec parts)) (recover_parts codec parts).0
  unfolding recover_parts join
  recover_parts-kept [] n h = absurd (n refl)
  recover_parts-kept ([] ∷ []) n h = nothing-IsRead
  recover_parts-kept ((c ∷ last) ∷ []) n h = nothing-IsRead
  recover_parts-kept (line ∷ next ∷ rest) n h =
      let parts = next ∷ rest in
      elim (Option-cases (recover_line codec line)) [
        | inl bad ↦ rw (recover_parts, bad) nothing-IsRead
        | inr (r, good) ↦
            rw
              (recover_parts, good, kept-cons line (join b'\n' parts) r (recover_parts codec parts))
              (ap (read_parts codec) (
                  split-append b'\n' line (kept (join b'\n' parts) (recover_parts codec parts)) h.0)
                ∙ read_parts-cons line
                    (split b'\n' (kept (join b'\n' parts) (recover_parts codec parts))) r
                    (recover_parts codec parts).0 (split-ne-nil b'\n' _)
                    (recover_line-read_line line r good)
                    (recover_parts-kept (next ∷ rest) (cc) h.1))
      ]

  -- Whatever the active file holds, the file that recovery leaves is read without error, as the
  -- records that recovery took.
  pub read_records-recover_active :
      (content : List ℕ)
      → read_records codec (recover_active codec content).1 ≡ ok (recover_active codec content).0
  unfolding read_records recover_active
  read_records-recover_active content =
      let parts = split b'\n' content in
      ap (λ t. read_parts codec (split b'\n' (kept t (recover_parts codec parts))))
        (sym (join-split b'\n' content))
      ∙ recover_parts-kept parts (split-ne-nil b'\n' content) (split-All b'\n' content)

  recover_parts-lines_of :
      (rs : List LogRecord) (tail : List ℕ)
      → All (IsReadable codec) rs
      → (recover_parts codec (lines_of codec rs tail)).0 ≡ rs
  unfolding recover_parts
  recover_parts-lines_of [] tail h = refl
  recover_parts-lines_of (r ∷ []) tail h = rw (recover_parts, recover_line-encode r h.0) refl
  recover_parts-lines_of (r ∷ s ∷ rs) tail h =
      rw (recover_parts, recover_line-encode r h.0)
        (ap (λ t. r ∷ t) (recover_parts-lines_of (s ∷ rs) tail h.1))

  -- Records that were written whole are all recovered, in their order, whatever newline-free part of
  -- a further one follows them.
  pub recover_active-text_of :
      (rs : List LogRecord) (tail : List ℕ)
      → All (IsReadable codec) rs
      → contains b'\n' tail ≡ false
      → (recover_active codec (text_of codec rs ++ tail)).0 ≡ rs
  unfolding recover_active
  recover_active-text_of rs tail h clear =
      ap (λ p. (recover_parts codec p).0) (split-text_of codec rs tail clear)
      ∙ recover_parts-lines_of rs tail h

  -- What recovery leaves of an archive is read as the records that it took.
  pub read_records-recover_archive :
      (content left : List ℕ)
      → (recover_archive codec content).1 ≡ some left
      → read_records codec content ≡ ok (recover_archive codec content).0
  unfolding read_records recover_archive
  read_records-recover_archive content left h =
      let parts = split b'\n' content in
      let readable : IsRead (kept (join b'\n' parts) (recover_parts codec parts))
          (recover_parts codec parts).0 =
        recover_parts-kept parts (split-ne-nil b'\n' content) (split-All b'\n' content) in
      elim (Bool-cases (recover_parts codec parts).2) [
        | inl broken ↦ absurd (cc (rw (broken, recover_archive) at h))
        | inr fine ↦ rw (recover_archive, fine) (rw (fine, join-split b'\n' content) at readable)
      ]
