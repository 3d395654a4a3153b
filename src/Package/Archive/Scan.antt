-- ===== src/Package/Archive/Scan.antt =====
-- The checks of crates/package/src/lib.rs on every entry of an archive, before a byte is extracted
-- (Phase 1b of `extract_for_host`, and the same loop of `inspect_archive_for_host`).
pub mod Contained
use tron_hawk.Common.{
  ℕ, ◌+◌, ◌*◌, ◌%◌, ◌^◌, Bool, true, false, ◌&&◌, Option, none, some, List, [], ◌∷◌, ◌++◌, length,
  Str, str_eq, ltb, leb, Result, ok, err, ◌>>=◌, ◌>>◌, reject_if, if◌then◌else◌,
}
use tron_hawk.Common.Map.{Map, lookup, insert}
use tron_hawk.Common.Decimal.{max_u64}
use tron_hawk.Package.Paths.{Platform}
use tron_hawk.Package.Archive.{
  NameError, appears_twice, collides, validate_archive_entry_name, safe_join,
}

abbrev pub max_entries : ℕ
max_entries = 1000

abbrev pub max_single_file : ℕ
max_single_file = 16 * 1024 * 1024

abbrev pub max_total_size : ℕ
max_total_size = 64 * 1024 * 1024

abbrev pub max_compression_ratio : ℕ
max_compression_ratio = 100

-- `u64::saturating_mul`
abbrev pub saturating_mul : ℕ → ℕ → ℕ
saturating_mul a b = if leb (a * b) max_u64 then a * b else max_u64

-- What the archive's directory says of an entry.
pub record ArchiveEntry : Type 0 where
  pub name : Str
  pub size : ℕ
  pub compressed_size : ℕ

pub data ScanError : Type 0 where
  too_many_entries : ScanError
  entry_too_large : Str → ScanError
  total_too_large : ScanError
  suspicious_ratio : Str → ScanError
  ratio_too_high : ScanError
  bad_name : NameError → ScanError

-- The variables of the loop, with the names as `inspect` collects them.
pub record Scan : Type 0 where
  pub total : ℕ
  pub total_compressed : ℕ
  pub seen_names : Map Str
  pub planned : List (List Str)
  pub names : List Str

abbrev pub start : Scan
start = record { total = 0; total_compressed = 0; seen_names = []; planned = []; names = [] }

abbrev pub naming {ℓ} : {A : Type ℓ} → Result NameError A → Result ScanError A
naming (ok a) = ok a
naming (err e) = err (bad_name e)

-- `track_entry_name`
abbrev pub track_new : Map Str → Str → Str → Option Str → Result NameError (Map Str)
track_new seen key name none = ok (insert key name seen)
track_new seen key name (some prev) =
    if str_eq prev name then err appears_twice else err (collides prev)

unfoldable pub track_entry_name : Map Str → Str → Str → Result NameError (Map Str)
track_entry_name seen key name = track_new seen key name (lookup key seen)

-- `compressed.max(1)`
abbrev pub at_least_one : ℕ → ℕ
at_least_one n = if leb 1 n then n else 1

-- The caps on one entry and on the sums. The sum of the compressed sizes wraps, where the build does
-- not check overflow; the other sum is below the caps.
unfoldable pub check_sizes : ArchiveEntry → Scan → Result ScanError (Unit {0})
check_sizes entry scan =
    let total = scan.total + entry.size in
    let total_compressed = (scan.total_compressed + entry.compressed_size) % 2 ^ 64 in
    reject_if (ltb max_single_file entry.size) (entry_too_large entry.name)
    >> reject_if (ltb max_total_size total) total_too_large
    >> reject_if
        (ltb (saturating_mul max_compression_ratio (at_least_one entry.compressed_size)) entry.size)
        (suspicious_ratio entry.name)
    >> reject_if
        (ltb 0 total_compressed
          && ltb (saturating_mul max_compression_ratio total_compressed) total)
        ratio_too_high

abbrev pub with_entry : ArchiveEntry → Map Str → List Str → Scan → Scan
with_entry entry seen path scan = record {
  total = scan.total + entry.size;
  total_compressed = (scan.total_compressed + entry.compressed_size) % 2 ^ 64;
  seen_names = seen;
  planned = scan.planned ++ (path ∷ []);
  names = scan.names ++ (entry.name ∷ []);
}

-- One round of the loop.
unfoldable pub scan_entry : Platform → List Str → ArchiveEntry → Scan → Result ScanError Scan
scan_entry platform dest entry scan =
    check_sizes entry scan
    >> (naming (validate_archive_entry_name entry.name) >>= λ key.
        naming (track_entry_name scan.seen_names key entry.name) >>= λ seen.
        naming (safe_join platform dest entry.name) >>= λ path.
        ok (with_entry entry seen path scan))

unfoldable pub scan_entries : Platform → List Str → List ArchiveEntry → Scan → Result ScanError Scan
scan_entries platform dest [] scan = ok scan
scan_entries platform dest (entry ∷ entries) scan =
    scan_entry platform dest entry scan >>= scan_entries platform dest entries

-- With the limit on their number.
unfoldable pub scan_archive : Platform → List Str → List ArchiveEntry → Result ScanError Scan
scan_archive platform dest entries =
    reject_if (ltb max_entries (length entries)) too_many_entries
    >> scan_entries platform dest entries start
