-- ===== src/Package/Archive/Install.antt =====
-- `inspect_archive_for_host` and `extract_for_host` in crates/package/src/lib.rs, up to the first byte
-- that is written. `Source` is the archive as the zip crate shows it.
pub mod Agree
use tron_hawk.Common.{
  ℕ, ◌*◌, Bool, true, false, not, ◌&&◌, Option, none, some, List, [], ◌∷◌, length, Str, codes,
  str_eq, contains_text, ltb, Result, ok, err, ◌>>=◌, ◌>>◌, reject_if, ok_or, if◌then◌else◌,
}
use tron_hawk.Common.Map.{Map, lookup}
use tron_hawk.Json.{Json, null, as_object, as_str, get, is_null}
use tron_hawk.Package.Paths.{Platform, forward}
use tron_hawk.Package.Manifest.{ManifestError, Semver, validate_manifest_schema_for_host}
use tron_hawk.Package.Archive.Scan.{
  ArchiveEntry, ScanError, Scan, start, max_entries, scan_entries, too_many_entries,
}

abbrev pub max_manifest_size : ℕ
max_manifest_size = 1024 * 1024

-- Whether `reject_duplicate_archive_entries` (see Central) finds a repeated name, the entries, and the
-- JSON value of one.
pub record Source : Type 0 where
  pub repeats_name : Bool
  pub listed : List ArchiveEntry
  pub parsed : ArchiveEntry → Option Json

pub data InstallError : Type 0 where
  duplicate_name manifest_missing manifest_too_large manifest_unreadable : InstallError
  bad_manifest : ManifestError → InstallError
  bad_archive : ScanError → InstallError
  entry_not_object : InstallError
  file_not_string file_missing : Str → InstallError

abbrev pub scanning {ℓ} : {A : Type ℓ} → Result ScanError A → Result InstallError A
scanning (ok a) = ok a
scanning (err e) = err (bad_archive e)

abbrev pub schema_checked : Result ManifestError (Unit {0}) → Result InstallError (Unit {0})
schema_checked (ok u) = ok tt
schema_checked (err e) = err (bad_manifest e)

-- The first entry that is `manifest.json`.
abbrev pub find_manifest : List ArchiveEntry → Option ArchiveEntry
find_manifest [] = none
find_manifest (entry ∷ listed) =
    if str_eq (forward entry.name) (codes "manifest.json") then some entry else find_manifest listed

unfoldable pub read_manifest : Source → Result InstallError Json
read_manifest source = do
  entry ← ok_or (find_manifest source.listed) manifest_missing
  reject_if (ltb max_manifest_size entry.size) manifest_too_large
  ok_or (source.parsed entry) manifest_unreadable

-- Whether the file of an entry key is in the archive; null is no file.
abbrev pub check_file : List Str → Str → Option Json → Result InstallError (Unit {0})
check_file names key none = ok tt
check_file names key (some null) = ok tt
check_file names key (some v) = elim (as_str v) [
  | none ↦ err (file_not_string key)
  | some rel ↦ reject_if (not (contains_text names (forward rel))) (file_missing rel)
]

abbrev pub check_files : List Str → List Str → Map Json → Result InstallError (Unit {0})
check_files names [] files = ok tt
check_files names (key ∷ keys) files =
    check_file names key (lookup key files) >> check_files names keys files

abbrev pub file_keys : List Str
file_keys = codes "css" ∷ codes "renderer" ∷ codes "main" ∷ []

abbrev pub presence_of : List Str → Option Json → Result InstallError (Unit {0})
presence_of names none = ok tt
presence_of names (some null) = ok tt
presence_of names (some v) = ok_or (as_object v) entry_not_object >>= check_files names file_keys

unfoldable pub check_inspect_entry_presence : Json → List Str → Result InstallError (Unit {0})
check_inspect_entry_presence manifest names = presence_of names (get (codes "entry") manifest)

-- The report of `inspect`; the order of its names is not modelled.
pub record ArchiveInspect : Type 0 where
  pub manifest : Json
  pub names : List Str
  pub total_uncompressed : ℕ

module _ (semver : Semver) (platform : Platform) (source : Source) (host_version : Str) where
  unfoldable pub inspect_archive_for_host : Result InstallError ArchiveInspect
  inspect_archive_for_host = do
    reject_if source.repeats_name duplicate_name
    reject_if (ltb max_entries (length source.listed)) (bad_archive too_many_entries)
    manifest ← read_manifest source
    schema_checked (validate_manifest_schema_for_host semver platform manifest host_version)
    scan ← scanning (scan_entries platform (codes "." ∷ []) source.listed start)
    check_inspect_entry_presence manifest scan.names
    ok (record { manifest = manifest; names = scan.names; total_uncompressed = scan.total })

  -- The paths that phase 2 of `extract_for_host` writes to.
  unfoldable pub plan_extraction : List Str → Result InstallError (List (List Str))
  plan_extraction dest = do
    reject_if source.repeats_name duplicate_name
    manifest ← read_manifest source
    schema_checked (validate_manifest_schema_for_host semver platform manifest host_version)
    reject_if (ltb max_entries (length source.listed)) (bad_archive too_many_entries)
    scan ← scanning (scan_entries platform dest source.listed start)
    ok scan.planned
