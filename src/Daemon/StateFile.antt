-- ===== src/Daemon/StateFile.antt =====
-- The state file of crates/core/src/daemon.rs: `read_state` and `write_state`, with the files beside it
-- that an interrupted write leaves.
pub mod Kept
use tron_hawk.Common.{
  ℕ, Bool, true, false, not, ◌&&◌, ◌||◌, Option, none, some, List, [], ◌∷◌, ◌++◌, take, Str, codes,
  starts_with, is_some, retain, leb, ◌==◌, Result, ok, err, ◌>>=◌, ◌>>◌, reject_if, ok_or,
  if◌then◌else◌,
}
use tron_hawk.Json.{Json, get}
use tron_hawk.Daemon.State.{DaemonState, default_state}
use tron_hawk.LogStore.Files.{Written, whole, unsynced, part}

pub data StateError : Type 0 where
  directory_not_made state_not_created state_not_written state_not_synced : StateError
  state_not_committed state_unreadable invalid_json invalid_state : StateError
  unsupported_version : ℕ → StateError

-- The JSON text of a state, and what `serde_json` reads in a text and in a value.
pub record StateText : Type 0 where
  pub to_vec_pretty : DaemonState → List ℕ
  pub from_slice : List ℕ → Option Json
  pub from_value : Json → Option DaemonState

-- An entry of the directory beside the state file, with its content if it can be read.
pub record Artifact : Type 0 where
  pub name : Str
  pub is_file : Bool
  pub modified : Option ℕ
  pub content : Option (List ℕ)

-- The state file, and whether it can be read; and the entries beside it in the order of listing.
pub record StateDir : Type 0 where
  pub file : Option (List ℕ)
  pub is_readable : Bool
  pub artifacts : List Artifact

abbrev pub state_schema_version : ℕ
state_schema_version = 1

abbrev pub ok_of {ℓ μ} : {E : Type μ} {A : Type ℓ} → Result E A → Option A
ok_of (ok a) = some a
ok_of (err e) = none

abbrev pub backup_prefix : Str
backup_prefix = codes ".tronhawk-daemon-state-backup-"

abbrev pub stale_prefix : Str
stale_prefix = codes ".tronhawk-daemon-state-"

-- The name of a transaction's file; the suffix is the process id and the clock.
unfoldable pub transaction_file : Str → Str → Str
transaction_file operation suffix = codes ".tronhawk-" ++ (operation ++ (codes "-" ++ suffix))

abbrev pub is_backup : Artifact → Bool
is_backup a = a.is_file && starts_with a.name backup_prefix

-- `max_by_key`: of equal keys the last.
abbrev pub newer_of : Option (ℕ × Artifact) → ℕ → Artifact → Option (ℕ × Artifact)
newer_of none time a = some (time, a)
newer_of (some (best, b)) time a = if leb best time then some (time, a) else some (best, b)

abbrev pub candidate : Option (ℕ × Artifact) → Option ℕ → Artifact → Option (ℕ × Artifact)
candidate best none a = best
candidate best (some time) a = if is_backup a then newer_of best time a else best

unfoldable pub newest_of : Option (ℕ × Artifact) → List Artifact → Option (ℕ × Artifact)
newest_of best [] = best
newest_of best (a ∷ artifacts) = newest_of (candidate best a.modified a) artifacts

unfoldable pub newest_state_backup : List Artifact → Option Artifact
newest_state_backup artifacts = elim (newest_of none artifacts) [
  | none ↦ none
  | some (time, a) ↦ some a
]

module _ (text : StateText) where
  unfoldable pub parse_state_value : Json → Result StateError DaemonState
  parse_state_value value = ok_or (text.from_value value) invalid_state >>= λ state.
      reject_if (not (state.schema_version == state_schema_version))
        (unsupported_version state.schema_version)
      >> ok state

  -- The state in a backup, if it has one.
  abbrev pub state_of_backup : Artifact → Result StateError DaemonState
  state_of_backup backup = ok_or backup.content state_unreadable >>= λ contents.
      ok_or (text.from_slice contents) invalid_json >>= λ value. parse_state_value value

  abbrev pub recovered : Option Artifact → DaemonState
  recovered none = default_state
  recovered (some backup) = elim (ok_of (state_of_backup backup)) [
    | none ↦ default_state
    | some state ↦ state
  ]

  abbrev pub is_legacy : Json → Bool
  is_legacy value =
      not (is_some (get (codes "schemaVersion") value)) || is_some (get (codes "enabled") value)

  unfoldable pub state_of_value : Json → Result StateError (DaemonState × Bool)
  state_of_value value =
      if is_legacy value
      then ok (default_state, true)
      else (parse_state_value value >>= λ state. ok (state, false))

  -- The state, and whether it is to be written.
  unfoldable pub read_state : StateDir → Result StateError (DaemonState × Bool)
  read_state dir = elim dir.file [
    | none ↦ ok (recovered (newest_state_backup dir.artifacts), true)
    | some contents ↦
        reject_if (not dir.is_readable) state_unreadable
        >> ok_or (text.from_slice contents) invalid_json
        >>= λ value. state_of_value value
  ]

-- What the file system answers to `write_state`: to the calls that make the directory and the
-- temporary file, what becomes of the write, and the rename; whether it removes a file; and the time
-- that it notes for the temporary file.
pub record StateFs : Type 0 where
  pub makes_directory : Bool
  pub creates : Bool
  pub writes : List ℕ → Written
  pub renames : Bool
  pub removes : Str → Bool
  pub time : ℕ

unfoldable pub remove_stale_state_artifacts : StateFs → List Artifact → List Artifact
remove_stale_state_artifacts fs artifacts =
    retain
      (λ (a : Artifact). not (starts_with a.name stale_prefix && a.is_file && fs.removes a.name))
      artifacts

abbrev pub left_behind : StateFs → Str → List ℕ → StateDir → StateDir
left_behind fs temp content dir = record {
  file = dir.file;
  is_readable = dir.is_readable;
  artifacts =
      record { name = temp; is_file = true; modified = some fs.time; content = some content }
      ∷ dir.artifacts;
}

abbrev pub committed : StateFs → Str → List ℕ → StateDir → Result StateError (Unit {0}) × StateDir
committed fs temp bytes dir =
    if fs.renames
    then (
      ok tt,
      record {
        file = some bytes;
        is_readable = true;
        artifacts = remove_stale_state_artifacts fs dir.artifacts;
      },
    )
    else (err state_not_committed, if fs.removes temp then dir else left_behind fs temp bytes dir)

abbrev pub after_write :
    StateFs → Str → List ℕ → StateDir → Written → Result StateError (Unit {0}) × StateDir
after_write fs temp bytes dir whole = committed fs temp bytes dir
after_write fs temp bytes dir unsynced = (err state_not_synced, left_behind fs temp bytes dir)
after_write fs temp bytes dir (part n) =
    (err state_not_written, left_behind fs temp (take n bytes) dir)

-- The directory and the temporary file are made first.
abbrev pub when_made :
    Bool
    → Bool
    → StateDir
    → Result StateError (Unit {0}) × StateDir
    → Result StateError (Unit {0}) × StateDir
when_made true true dir next = next
when_made true false dir next = (err state_not_created, dir)
when_made false creates dir next = (err directory_not_made, dir)

unfoldable pub write_state :
    StateFs → StateText → Str → DaemonState → StateDir → Result StateError (Unit {0}) × StateDir
write_state fs text suffix state dir =
    let bytes = text.to_vec_pretty state in
    when_made fs.makes_directory fs.creates dir
      (after_write fs (transaction_file (codes "daemon-state") suffix) bytes dir (fs.writes bytes))
