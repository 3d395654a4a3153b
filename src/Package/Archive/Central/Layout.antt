-- ===== src/Package/Archive/Central/Layout.antt =====
-- The layout of an archive as the ZIP format has it, and what `reject_duplicate_archive_entries` in
-- crates/package/src/lib.rs reads from a record of its central directory.
use tron_hawk.Common.{
  ℕ, ◌+◌, ◌%◌, ◌/◌, ◌^◌, ◌<◌, ◌≡◌, refl, ap, ◌∙◌, true, false, some, List, [], ◌∷◌, ◌++◌, length,
  take, drop, str_eq, ltb, arith, length-append, drop-append_add, take-append_add,
}
use mathlib.Core.List.{append-nil}
use tron_hawk.Package.Archive.Central.{number_at, record_length, record_signature, first_record}

-- Numbers of two and of four bytes, the low byte first.
abbrev pub two_bytes : ℕ → List ℕ
two_bytes n = (n % 256) ∷ (n / 256) ∷ []

abbrev pub four_bytes : ℕ → List ℕ
four_bytes n = (n % 256) ∷ ((n / 256) % 256) ∷ ((n / 65536) % 256) ∷ (n / 16777216) ∷ []

-- One record of a central directory: the 24 bytes before the lengths, from the version to the sizes,
-- the 12 bytes behind them, from the disk to the offset, and the three texts.
pub record ZipRecord : Type 0 where
  pub versions_to_sizes : List ℕ
  pub disk_to_offset : List ℕ
  pub file_name : List ℕ
  pub extra_field : List ℕ
  pub file_comment : List ℕ

-- The fields have their widths, and the lengths fit into two bytes.
pub record IsZipRecord (r : ZipRecord) : Type 0 where
  pub before : length r.versions_to_sizes ≡ 24
  pub behind : length r.disk_to_offset ≡ 12
  pub name_fits : length r.file_name < 65536
  pub extra_fits : length r.extra_field < 65536
  pub comment_fits : length r.file_comment < 65536

-- The bytes of some records in turn.
abbrev pub laid_out : List ZipRecord → List ℕ
laid_out [] = []
laid_out (r ∷ rs) =
    (b'P' ∷ b'K' ∷ 1 ∷ 2 ∷ [])
    ++ (r.versions_to_sizes
        ++ (two_bytes (length r.file_name)
            ++ (two_bytes (length r.extra_field)
                ++ (two_bytes (length r.file_comment)
                    ++ (r.disk_to_offset
                        ++ (r.file_name ++ (r.extra_field ++ (r.file_comment ++ laid_out rs))))))))

-- The end record with no archive comment; `counts` are its 8 bytes from the disk to the entries.
abbrev pub end_of : List ℕ → ℕ → ℕ → List ℕ
end_of counts size offset =
    (b'P' ∷ b'K' ∷ 5 ∷ 6 ∷ [])
    ++ (counts ++ (four_bytes size ++ (four_bytes offset ++ (0 ∷ 0 ∷ []))))

-- An archive: the files, the central directory, and the end record.
abbrev pub zip_archive : List ℕ → List ZipRecord → List ℕ → List ℕ
zip_archive files rs counts =
    files ++ (laid_out rs ++ end_of counts (length (laid_out rs)) (length files))

pub drop_behind : (n k : ℕ) (xs ys : List ℕ) → n ≡ length xs + k → drop n (xs ++ ys) ≡ drop k ys
drop_behind n k xs ys h = ap (λ m. drop m (xs ++ ys)) h ∙ drop-append_add xs k ys

pub number_at_behind :
    (n k width : ℕ) (xs ys : List ℕ)
    → n ≡ length xs + k
    → number_at n width (xs ++ ys) ≡ number_at k width ys
number_at_behind n k width xs ys h = rw (drop_behind n k xs ys h) refl

pub take_whole : (xs ys : List ℕ) → take (length xs) (xs ++ ys) ≡ xs
take_whole xs ys =
    let e : length xs ≡ length xs + 0 = omega arith in
    ap (λ m. take m (xs ++ ys)) e ∙ take-append_add xs 0 ys ∙ append-nil xs

two_bytes_lem : (n : ℕ) (ys : List ℕ) → n < 65536 → number_at 0 2 (two_bytes n ++ ys) ≡ n
two_bytes_lem n ys h = omega arith

pub four_bytes_lem : (n : ℕ) (ys : List ℕ) → n < 2 ^ 32 → number_at 0 4 (four_bytes n ++ ys) ≡ n
four_bytes_lem n ys h = omega arith

-- What stands behind the first record's lengths.
abbrev texts_of : ZipRecord → List ZipRecord → List ℕ
texts_of r rs = r.file_name ++ (r.extra_field ++ (r.file_comment ++ laid_out rs))

lengths_of :
    (r : ZipRecord) (rs : List ZipRecord)
    → IsZipRecord r
    → (number_at 28 2 (laid_out (r ∷ rs)) ≡ length r.file_name)
      × (number_at 30 2 (laid_out (r ∷ rs)) ≡ length r.extra_field)
      × (number_at 32 2 (laid_out (r ∷ rs)) ≡ length r.file_comment)
lengths_of r rs fits =
    let third = two_bytes (length r.file_comment) ++ (r.disk_to_offset ++ texts_of r rs) in
    let second = two_bytes (length r.extra_field) ++ third in
    let first = two_bytes (length r.file_name) ++ second in
    let from : (k : ℕ) → number_at (28 + k) 2 (laid_out (r ∷ rs)) ≡ number_at k 2 first = λ k.
      number_at_behind (28 + k) (24 + k) 2 (b'P' ∷ b'K' ∷ 1 ∷ 2 ∷ []) (r.versions_to_sizes ++ first)
        (omega arith)
      ∙ number_at_behind (24 + k) k 2 r.versions_to_sizes first (omega (arith, fits.before)) in
    (
      from 0 ∙ two_bytes_lem (length r.file_name) second fits.name_fits,
      from 2 ∙ two_bytes_lem (length r.extra_field) third fits.extra_fits,
      from 4
          ∙ two_bytes_lem (length r.file_comment) (r.disk_to_offset ++ texts_of r rs)
              fits.comment_fits,
    )

drop-laid_out :
    (r : ZipRecord) (rs : List ZipRecord) (n k : ℕ)
    → IsZipRecord r
    → n ≡ 46 + k
    → drop n (laid_out (r ∷ rs)) ≡ drop k (texts_of r rs)
drop-laid_out r rs n k fits h =
    let third = two_bytes (length r.file_comment) ++ (r.disk_to_offset ++ texts_of r rs) in
    let second = two_bytes (length r.extra_field) ++ third in
    let first = two_bytes (length r.file_name) ++ second in
    drop_behind n (42 + k) (b'P' ∷ b'K' ∷ 1 ∷ 2 ∷ []) (r.versions_to_sizes ++ first) (omega arith)
    ∙ drop_behind (42 + k) (18 + k) r.versions_to_sizes first (omega (arith, fits.before))
    ∙ drop_behind (18 + k) (16 + k) (two_bytes (length r.file_name)) second (omega arith)
    ∙ drop_behind (16 + k) (14 + k) (two_bytes (length r.extra_field)) third (omega arith)
    ∙ drop_behind (14 + k) (12 + k) (two_bytes (length r.file_comment))
        (r.disk_to_offset ++ texts_of r rs) (omega arith)
    ∙ drop_behind (12 + k) k r.disk_to_offset (texts_of r rs) (omega (arith, fits.behind))

length-laid_out :
    (r : ZipRecord) (rs : List ZipRecord)
    → IsZipRecord r
    → length (laid_out (r ∷ rs))
      ≡ 46
        + length r.file_name
        + length r.extra_field
        + length r.file_comment
        + length (laid_out rs)
length-laid_out r rs fits =
    let third = two_bytes (length r.file_comment) ++ (r.disk_to_offset ++ texts_of r rs) in
    let second = two_bytes (length r.extra_field) ++ third in
    let first = two_bytes (length r.file_name) ++ second in
    let a = length-append r.versions_to_sizes first in
    let b = length-append r.disk_to_offset (texts_of r rs) in
    let c = length-append r.file_name (r.extra_field ++ (r.file_comment ++ laid_out rs)) in
    let d = length-append r.extra_field (r.file_comment ++ laid_out rs) in
    let e = length-append r.file_comment (laid_out rs) in
    omega (arith, a, b, c, d, e, fits.before, fits.behind)

first_record_lem :
    (cd name rest : List ℕ)
    → ltb (length cd) 46 ≡ false
    → str_eq (take 4 cd) record_signature ≡ true
    → ltb (length cd) (record_length cd) ≡ false
    → take (number_at 28 2 cd) (drop 46 cd) ≡ name
    → drop (record_length cd) cd ≡ rest
    → first_record cd ≡ some (name, rest)
unfolding first_record
first_record_lem cd name rest long signed inside named left =
    rw (first_record, long, signed, inside, named, left) refl

-- The scan takes the first record whole.
pub first_record-laid_out :
    (r : ZipRecord) (rs : List ZipRecord)
    → IsZipRecord r
    → first_record (laid_out (r ∷ rs)) ≡ some (r.file_name, laid_out rs)
unfolding str_eq
first_record-laid_out r rs fits =
    let cd = laid_out (r ∷ rs) in
    let (name, extra, comment) = lengths_of r rs fits in
    let size = length-laid_out r rs fits in
    let whole : record_length cd
        ≡ 46 + (length r.file_name + (length r.extra_field + (length r.file_comment + 0))) =
      omega (arith, name, extra, comment) in
    let long : ltb (length cd) 46 ≡ false = ground (arith, size) in
    let signed : str_eq (take 4 cd) record_signature ≡ true = refl in
    let inside : ltb (length cd) (record_length cd) ≡ false = ground (arith, size, whole) in
    let named : take (number_at 28 2 cd) (drop 46 cd) ≡ r.file_name =
      rw (name, drop-laid_out r rs 46 0 fits (omega arith))
        (take_whole r.file_name (r.extra_field ++ (r.file_comment ++ laid_out rs))) in
    let rest : drop (record_length cd) cd ≡ laid_out rs =
      drop-laid_out r rs (record_length cd) _ fits whole
      ∙ drop-append_add r.file_name _ _
      ∙ drop-append_add r.extra_field _ _
      ∙ drop-append_add r.file_comment _ _ in
    first_record_lem cd r.file_name (laid_out rs) long signed inside named rest
