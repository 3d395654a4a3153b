-- ===== src/LogStore/Files.antt =====
-- The files of crates/core/src/log_store.rs and their rotation. An archive count of 4 gives a field
-- for each archive; `Disk` is what the file system answers to the calls of one operation.
pub mod Rotation
pub mod Fine
use tron_hawk.Common.{
  ℕ, suc, ◌≡◌, ◌+◌, Bool, true, false, not, ◌&&◌, Option, none, some, List, [], ◌∷◌, ◌++◌, length,
  take, is_some, ltb, Result, ok, err, if◌then◌else◌,
}
use tron_hawk.LogStore.Record.{LogError, io_error}

-- `events.jsonl`, and `events.jsonl.1` to `events.jsonl.4`.
pub record Slots {ℓ} (A : Type ℓ) : Type ℓ where
  pub active : A
  pub first : A
  pub second : A
  pub third : A
  pub fourth : A

abbrev pub Files : Type 0
Files = Slots (Option (List ℕ))

-- What becomes of a write: all of it is on the disk, all of it but the sync failed, or a part.
pub data Written : Type 0 where
  whole unsynced : Written
  part : ℕ → Written

-- Whether the file of a number passes `entry_exists`, `validate_regular_file` and `open`; whether the
-- oldest can be removed, one renamed, one put aside, and the active one truncated; what becomes of a
-- write; and the clock.
pub record Disk : Type 0 where
  pub permits : ℕ → Bool
  pub removes : Bool
  pub renames : ℕ → Bool
  pub quarantines : ℕ → Bool
  pub truncates : Bool
  pub writes : List ℕ → Written
  pub clock : Result LogError ℕ

-- A file system that denies no file.
abbrev pub IsPermitted : Disk → Type 0
IsPermitted disk = (i : ℕ) → disk.permits i ≡ true

abbrev pub Done : Type 0
Done = Result LogError (Unit {0}) × Files

-- The next step, unless the one before has failed.
abbrev pub and_then : Done → (Files → Done) → Done
and_then (ok u, files) step = step files
and_then (err e, files) step = (err e, files)

-- One rename of the loop, from the slot `i`; a file that is missing is passed over.
abbrev pub moved : Disk → ℕ → Option (List ℕ) → Files → Files → Done
moved disk i none files after = (ok tt, files)
moved disk i (some content) files after =
    if disk.permits i && disk.renames i then (ok tt, after) else (err io_error, files)

unfoldable pub remove_oldest : Disk → Files → Done
remove_oldest disk files =
    if not (is_some files.fourth)
    then (ok tt, files)
    else if disk.permits 4 && disk.removes
    then (ok tt, record files { fourth = none })
    else (err io_error, files)

-- A file under the next name.
abbrev pub third_up : Files → Files
third_up files = record files { fourth = files.third; third = none }

abbrev pub second_up : Files → Files
second_up files = record files { third = files.second; second = none }

abbrev pub first_up : Files → Files
first_up files = record files { second = files.first; first = none }

abbrev pub active_up : Files → Files
active_up files = record files { first = files.active; active = none }

-- The loop over the archives, and the active file.
unfoldable pub shift : Disk → Files → Done
shift disk a = and_then (moved disk 3 a.third a (third_up a)) λ b.
    and_then (moved disk 2 b.second b (second_up b))
      λ c. and_then (moved disk 1 c.first c (first_up c)) λ d. moved disk 0 d.active d (active_up d)

unfoldable pub rotate : Disk → Files → Done
unfolding remove_oldest shift
rotate disk files = and_then (remove_oldest disk files) (shift disk)

abbrev pub content_of : Option (List ℕ) → List ℕ
content_of none = []
content_of (some content) = content

-- `secure_append`, `write_all` and `sync_data`.
abbrev pub written : Written → List ℕ → Files → Done
written whole encoded files =
    (ok tt, record files { active = some (content_of files.active ++ encoded) })
written unsynced encoded files =
    (err io_error, record files { active = some (content_of files.active ++ encoded) })
written (part n) encoded files =
    (err io_error, record files { active = some (content_of files.active ++ take n encoded) })

unfoldable pub write_active : Disk → List ℕ → Files → Done
write_active disk encoded files =
    if disk.permits 0 then written (disk.writes encoded) encoded files else (err io_error, files)
