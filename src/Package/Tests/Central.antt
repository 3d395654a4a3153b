-- ===== src/Package/Tests/Central.antt =====
-- The scan for repeated names of crates/package/src/lib.rs at a concrete archive.
use tron_hawk.Common.{
  ℕ, ◌≡◌, refl, some, List, [], ◌∷◌, ◌++◌, ◌⊎◌, replicate, codes, Str, str_eq, ok, err, arith,
}
use tron_hawk.Package.Archive.Central.{
  end_record, first_record, scan_records, directory_of, reject_duplicate_archive_entries,
}
use tron_hawk.Package.Archive.Central.Layout.{ZipRecord, IsZipRecord, zip_archive}
use tron_hawk.Package.Archive.Central.Written.{
  AreApart, reject_duplicate_archive_entries-zip_archive,
}

-- A record with a name of one byte, and no extra field or comment.
abbrev record_of : ℕ → List ℕ
record_of c = b'P' ∷ b'K' ∷ 1 ∷ 2 ∷ (replicate 24 0 ++ (1 ∷ 0 ∷ (replicate 16 0 ++ (c ∷ []))))

-- The end record behind a directory of 94 bytes at the start.
abbrev archive : ℕ → ℕ → List ℕ
archive a b =
    record_of a
    ++ (record_of b ++ (b'P' ∷ b'K' ∷ 5 ∷ 6 ∷ (replicate 8 0 ++ (94 ∷ 0 ∷ 0 ∷ 0 ∷ replicate 6 0))))

reports_repeated :
    reject_duplicate_archive_entries (λ s. s) (archive b'a' b'a') ≡ some (err (codes "a"))
unfolding reject_duplicate_archive_entries directory_of end_record scan_records first_record str_eq
reports_repeated = refl

-- The same archive as two records and an end record.
abbrev record_named : ℕ → ZipRecord
record_named c = record {
  versions_to_sizes = replicate 24 0;
  disk_to_offset = replicate 12 0;
  file_name = c ∷ [];
  extra_field = [];
  file_comment = [];
}

record_named-IsZipRecord : (c : ℕ) → IsZipRecord (record_named c)
record_named-IsZipRecord c = record {
  before = refl;
  behind = refl;
  name_fits = omega arith;
  extra_fits = omega arith;
  comment_fits = omega arith;
}

abbrev records : List ZipRecord
records = record_named b'a' ∷ record_named b'b' ∷ []

reject_duplicate_archive_entries-zip_archive_example :
    ((reject_duplicate_archive_entries (λ s. s) (zip_archive [] records (replicate 8 0))
        ≡ some (ok tt))
      × AreApart ((b'a' ∷ []) ∷ (b'b' ∷ []) ∷ []))
    ⊎ ((name : Str) × (reject_duplicate_archive_entries
            (λ s. s)
            (zip_archive [] records (replicate 8 0))
          ≡ some (err name))
        × ¬ AreApart ((b'a' ∷ []) ∷ (b'b' ∷ []) ∷ []))
reject_duplicate_archive_entries-zip_archive_example =
    reject_duplicate_archive_entries-zip_archive (λ s. s) [] records (replicate 8 0)
      (record_named-IsZipRecord b'a', (record_named-IsZipRecord b'b', tt)) refl (omega arith)
      (omega arith)
