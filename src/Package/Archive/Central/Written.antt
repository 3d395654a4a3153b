-- ===== src/Package/Archive/Central/Written.antt =====
-- Whole archives before `reject_duplicate_archive_entries` in crates/package/src/lib.rs: the scan sees
-- the records that were laid out.
use tron_hawk.Common.{
  ℕ, zero, suc, ◌+◌, ◌-◌, ◌^◌, ◌≤◌, ◌<◌, ◌≡◌, ◌⊎◌, ◌↔◌, refl, sym, ap, ◌∙◌, true, false, none, some,
  List, [], ◌∷◌, ◌++◌, map, length, take, drop, Str, contains_text, str_eq, str_eq_iff, ltb, leb,
  All, ok, err, inl, inr, arith, length-append, drop-append_le, Bool-cases,
}
use mathlib.Core.List.{append_assoc}
use tron_hawk.Package.Archive.Central.{
  number_at, end_signature, end_record, first_record, scan_records, directory_of,
  reject_duplicate_archive_entries,
}
use tron_hawk.Package.Archive.Central.Distinct.{
  Answered, AreDistinct, after_record, first_record-shorter, IsFresh-AreDistinct, none_seen,
  true-ne-false,
}
use tron_hawk.Package.Archive.Central.Layout.{
  ZipRecord, IsZipRecord, laid_out, four_bytes, end_of, zip_archive, drop_behind, number_at_behind,
  take_whole, four_bytes_lem, first_record-laid_out,
}

-- No text stands again behind itself.
abbrev pub AreApart : List Str → Type 0
AreApart [] = Unit
AreApart (name ∷ names) = All (λ other. ¬ (name ≡ other)) names × AreApart names

absent_iff :
    (name : Str) (names : List Str)
    → (contains_text names name ≡ false) ↔ All (λ other. ¬ (name ≡ other)) names
absent_iff name [] = (λ h. tt, λ h. refl)
absent_iff name (n ∷ names) =
    let rest = absent_iff name names in
    (
      λ h. (
        λ e. true-ne-false (sym ((str_eq_iff n name).1 (sym e)) ∙ (ground arith)),
        rest.0 (ground arith),
      ),
      λ h.
          let apart = h.0 in
          let none_more = rest.1 h.1 in
          elim (Bool-cases (str_eq n name)) [
            | inl same ↦ absurd (apart (sym ((str_eq_iff n name).0 same)))
            | inr other ↦ rw (other, none_more) refl
          ],
    )

AreDistinct-AreApart : (names : List Str) → AreDistinct names ↔ AreApart names
AreDistinct-AreApart [] = (λ h. tt, λ h. tt)
AreDistinct-AreApart (name ∷ names) =
    let here = absent_iff name names in
    let rest = AreDistinct-AreApart names in
    (λ h. (here.0 h.0, rest.0 h.1), λ h. (here.1 h.0, rest.1 h.1))

-- Fuel above the bytes is enough.
scan_records-laid_out :
    (lossy : List ℕ → Str) (fuel : ℕ) (seen : List Str) (rs : List ZipRecord)
    → All IsZipRecord rs
    → length (laid_out rs) < fuel
    → Answered lossy fuel seen (laid_out rs) (map (λ (r : ZipRecord). lossy r.file_name) rs)
unfolding scan_records first_record
scan_records-laid_out lossy zero seen rs all h = absurd (omega arith)
scan_records-laid_out lossy (suc fuel) seen [] all h = inl (refl, tt)
scan_records-laid_out lossy (suc fuel) seen (r ∷ rs) all h =
    let there = first_record-laid_out r rs all.0 in
    let shorter = first_record-shorter (laid_out (r ∷ rs)) r.file_name (laid_out rs) there in
    after_record lossy fuel seen (laid_out (r ∷ rs)) r.file_name (laid_out rs) _ there
      (scan_records-laid_out lossy fuel (lossy r.file_name ∷ seen) rs all.1 (omega arith))

end_record_short : (bytes : List ℕ) → length bytes < 22 → end_record bytes ≡ none
unfolding end_record
end_record_short [] h = refl
end_record_short (b ∷ bytes) h =
    let short : leb 22 (length (b ∷ bytes)) ≡ false = ground arith in
    rw (end_record, end_record_short bytes (omega arith), short) refl

end_record_here :
    (b : ℕ) (bytes : List ℕ)
    → end_record bytes ≡ none
    → leb 22 (length (b ∷ bytes)) ≡ true
    → str_eq (take 4 (b ∷ bytes)) end_signature ≡ true
    → end_record (b ∷ bytes) ≡ some (b ∷ bytes)
unfolding end_record
end_record_here b bytes short long signed = rw (end_record, short, long, signed) refl

-- The end record is found behind anything.
end_record-end_of :
    (xs counts : List ℕ) (size offset : ℕ)
    → length counts ≡ 8
    → end_record (xs ++ end_of counts size offset) ≡ some (end_of counts size offset)
unfolding end_record str_eq
end_record-end_of [] counts size offset h =
    let tail = counts ++ (four_bytes size ++ (four_bytes offset ++ (0 ∷ 0 ∷ []))) in
    let all = length-append counts (four_bytes size ++ (four_bytes offset ++ (0 ∷ 0 ∷ []))) in
    let short = end_record_short (b'K' ∷ 5 ∷ 6 ∷ tail) (omega (arith, all, h)) in
    let long : leb 22 (length (end_of counts size offset)) ≡ true = ground (arith, all, h) in
    end_record_here b'P' (b'K' ∷ 5 ∷ 6 ∷ tail) short long refl
end_record-end_of (x ∷ xs) counts size offset h =
    rw (end_record, end_record-end_of xs counts size offset h) refl

end_of-sizes :
    (counts : List ℕ) (size offset : ℕ)
    → length counts ≡ 8
    → size < 2 ^ 32
    → offset < 2 ^ 32
    → (number_at 12 4 (end_of counts size offset) ≡ size)
      × (number_at 16 4 (end_of counts size offset) ≡ offset)
      × (length (end_of counts size offset) ≡ 22)
end_of-sizes counts size offset eight small_size small_offset =
    let last = four_bytes offset ++ (0 ∷ 0 ∷ []) in
    let words = four_bytes size ++ last in
    let signature = b'P' ∷ b'K' ∷ 5 ∷ 6 ∷ [] in
    let e = length-append counts words in
    (
      number_at_behind 12 8 4 signature (counts ++ words) (omega arith)
          ∙ number_at_behind 8 0 4 counts words (omega (arith, eight))
          ∙ four_bytes_lem size last small_size,
      number_at_behind 16 12 4 signature (counts ++ words) (omega arith)
          ∙ number_at_behind 12 4 4 counts words (omega (arith, eight))
          ∙ number_at_behind 4 0 4 (four_bytes size) last (omega arith)
          ∙ four_bytes_lem offset (0 ∷ 0 ∷ []) small_offset,
      omega (arith, e, eight),
    )

directory_lem :
    (bytes found cd : List ℕ)
    → 22 ≤ length bytes
    → end_record (drop (length bytes - (22 + 65535)) bytes) ≡ some found
    → number_at 16 4 found + number_at 12 4 found ≤ length bytes
    → take (number_at 12 4 found) (drop (number_at 16 4 found) bytes) ≡ cd
    → directory_of bytes ≡ cd
unfolding directory_of
directory_lem bytes found cd long there inside taken =
    let a : ltb (length bytes) 22 ≡ false = ground arith in
    let b : ltb (length bytes) (number_at 16 4 found + number_at 12 4 found) ≡ false =
      ground arith in
    rw (directory_of, a, there, b, taken) refl

-- The directory of an archive is the one that was laid out.
directory_of-zip_archive :
    (files : List ℕ) (rs : List ZipRecord) (counts : List ℕ)
    → length counts ≡ 8
    → length files < 2 ^ 32
    → length (laid_out rs) < 2 ^ 32
    → directory_of (zip_archive files rs counts) ≡ laid_out rs
directory_of-zip_archive files rs counts eight small_files small =
    let cd = laid_out rs in
    let finish = end_of counts (length cd) (length files) in
    let bytes = zip_archive files rs counts in
    let (size, offset, short) =
      end_of-sizes counts (length cd) (length files) eight small small_files in
    let a = length-append files (cd ++ finish) in
    let b = length-append cd finish in
    let c = length-append files cd in
    let skipped = length bytes - (22 + 65535) in
    let apart : bytes ≡ (files ++ cd) ++ finish = sym (append_assoc files cd finish) in
    let kept : drop skipped bytes ≡ drop skipped (files ++ cd) ++ finish =
      ap (λ bs. drop skipped bs) apart
      ∙ drop-append_le skipped (files ++ cd) finish (omega (arith, a, b, c, short)) in
    let there : end_record (drop skipped bytes) ≡ some finish =
      ap end_record kept
      ∙ end_record-end_of (drop skipped (files ++ cd)) counts (length cd) (length files) eight in
    let taken : take (number_at 12 4 finish) (drop (number_at 16 4 finish) bytes) ≡ cd =
      rw (size, offset, drop_behind (length files) 0 files (cd ++ finish) (omega arith))
        (take_whole cd finish) in
    directory_lem bytes finish cd (omega (arith, a, b, short)) there
      (omega (arith, a, b, size, offset)) taken

-- For the bytes of an archive laid out as files, a central directory and an end record with no archive
-- comment, each field of its width and the files and the directory each below 4 GiB, the scan ends
-- within its fuel; it lets the archive pass if no two records of the directory have the same name,
-- and reports a name if two have.
pub reject_duplicate_archive_entries-zip_archive :
    (lossy : List ℕ → Str) (files : List ℕ) (rs : List ZipRecord) (counts : List ℕ)
    → All IsZipRecord rs
    → length counts ≡ 8
    → length files < 2 ^ 32
    → length (laid_out rs) < 2 ^ 32
    → ((reject_duplicate_archive_entries lossy (zip_archive files rs counts) ≡ some (ok tt))
        × AreApart (map (λ (r : ZipRecord). lossy r.file_name) rs))
      ⊎ ((name : Str) × (reject_duplicate_archive_entries lossy (zip_archive files rs counts)
            ≡ some (err name))
          × ¬ AreApart (map (λ (r : ZipRecord). lossy r.file_name) rs))
unfolding reject_duplicate_archive_entries
reject_duplicate_archive_entries-zip_archive lossy files rs counts all eight small_files small =
    let names = map (λ (r : ZipRecord). lossy r.file_name) rs in
    let same = directory_of-zip_archive files rs counts eight small_files small in
    let fresh = IsFresh-AreDistinct [] names in
    let apart = AreDistinct-AreApart names in
    let answer = scan_records-laid_out lossy (suc (length (laid_out rs))) [] rs all (omega arith) in
    elim answer [
      | inl (passes, h) ↦ inl (rw same passes, apart.0 (fresh.0 h).0)
      | inr (name, rejects, h) ↦
          inr (name, rw same rejects, λ k. h (fresh.1 (apart.1 k, none_seen names)))
    ]
