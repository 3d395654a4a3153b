-- ===== src/Daemon/StateFile/Kept.antt =====
-- What `write_state` of crates/core/src/daemon.rs leaves for `read_state`, wherever it fails.
use tron_hawk.Common.{
  ℕ, ◌≡◌, refl, Bool, true, false, some, List, take, Str, codes, starts_with, Result, ok, err, ◌==◌,
  Bool-cases, Option-cases, inl, inr,
}
use tron_hawk.Json.{Json}
use tron_hawk.Daemon.State.{DaemonState}
use tron_hawk.LogStore.Files.{Written, whole, unsynced, part}
use tron_hawk.Daemon.StateFile.{
  StateError, StateText, StateDir, Artifact, transaction_file, is_backup, newest_of,
  newest_state_backup, is_legacy, parse_state_value, state_of_value, read_state, StateFs,
  left_behind, committed, after_write, when_made, write_state, state_schema_version,
}

-- The JSON of a state of this version reads back, has `schemaVersion` and no `enabled`.
pub record IsText (text : StateText) (state : DaemonState) : Type 0 where
  pub value : Json
  pub parses : text.from_slice (text.to_vec_pretty state) ≡ some value
  pub decodes : text.from_value value ≡ some state
  pub current : is_legacy text value ≡ false
  pub version : state.schema_version ≡ 1

-- The temporary file is no backup.
temp_no_backup :
    (fs : StateFs) (suffix : Str) (content : List ℕ)
    → starts_with suffix (codes "backup-") ≡ false
    → is_backup (record {
      name = transaction_file (codes "daemon-state") suffix;
      is_file = true;
      modified = some fs.time;
      content = some content;
    })
      ≡ false
unfolding transaction_file
temp_no_backup fs suffix content h = h

module _ (text : StateText) (fs : StateFs) (suffix : Str) (dir : StateDir)
    (unlike : starts_with suffix (codes "backup-") ≡ false) where
  abbrev temp : Str
  temp = transaction_file (codes "daemon-state") suffix

  newest-left_behind :
      (content : List ℕ)
      → newest_state_backup (left_behind fs temp content dir).artifacts
        ≡ newest_state_backup dir.artifacts
  unfolding newest_state_backup newest_of
  newest-left_behind content =
      rw (newest_state_backup, newest_of, temp_no_backup fs suffix content unlike) refl

  -- A temporary file that is left does not change what is read.
  read_state-left_behind :
      (content : List ℕ) → read_state text (left_behind fs temp content dir) ≡ read_state text dir
  unfolding read_state
  read_state-left_behind content = elim (Option-cases dir.file) [
    | inl missing ↦ rw (read_state, missing, newest-left_behind content) refl
    | inr (contents, there) ↦ rw (read_state, there) refl
  ]

-- What a write that succeeds leaves is read as the state; one that fails leaves what was read.
abbrev pub IsSaved :
    StateText → DaemonState → StateDir → Result StateError (Unit {0}) × StateDir → Type 0
IsSaved text state before (ok u, after) = read_state text after ≡ ok (state, false)
IsSaved text state before (err e, after) =
    (after.file ≡ before.file) × (read_state text after ≡ read_state text before)

read_state-bytes :
    (text : StateText) (state : DaemonState) (artifacts : List Artifact)
    → IsText text state
    → read_state text (record {
      file = some (text.to_vec_pretty state);
      is_readable = true;
      artifacts = artifacts;
    })
      ≡ ok (state, false)
unfolding read_state state_of_value parse_state_value
read_state-bytes text state artifacts t =
    let version : (state.schema_version == state_schema_version) ≡ true = rw t.version refl in
    rw (read_state, t.parses, state_of_value, t.current, parse_state_value, t.decodes, version) refl

after_write-IsSaved :
    (text : StateText) (fs : StateFs) (suffix : Str) (state : DaemonState) (dir : StateDir)
    (written : Written)
    → starts_with suffix (codes "backup-") ≡ false
    → IsText text state
    → IsSaved text state dir (
        after_write fs
          (transaction_file (codes "daemon-state") suffix)
          (text.to_vec_pretty state)
          dir
          written)
after_write-IsSaved text fs suffix state dir unsynced unlike t =
    (refl, read_state-left_behind text fs suffix dir unlike (text.to_vec_pretty state))
after_write-IsSaved text fs suffix state dir (part n) unlike t =
    (refl, read_state-left_behind text fs suffix dir unlike (take n (text.to_vec_pretty state)))
after_write-IsSaved text fs suffix state dir whole unlike t = elim (Bool-cases fs.renames) [
  | inl works ↦ rw (committed, works) (read_state-bytes text state _ t)
  | inr fails ↦ elim (Bool-cases (fs.removes (transaction_file (codes "daemon-state") suffix))) [
    | inl gone ↦ rw (committed, fails, gone) (refl, refl)
    | inr stays ↦
        rw (committed, fails, stays)
          (refl, read_state-left_behind text fs suffix dir unlike (text.to_vec_pretty state))
  ]
]

when_made-IsSaved :
    (text : StateText) (state : DaemonState) (dir : StateDir) (makes creates : Bool)
    (next : Result StateError (Unit {0}) × StateDir)
    → IsSaved text state dir next
    → IsSaved text state dir (when_made makes creates dir next)
when_made-IsSaved text state dir true true next h = h
when_made-IsSaved text state dir true false next h = (refl, refl)
when_made-IsSaved text state dir false creates next h = (refl, refl)

-- A state of this version whose JSON reads back, written with a suffix that does not start with
-- `backup-`, is read again if the write succeeds; wherever the write fails, the state file is as it
-- was, and reading gives what it gave, from the file or from a backup.
pub write_state-IsSaved :
    (text : StateText) (fs : StateFs) (suffix : Str) (state : DaemonState) (dir : StateDir)
    → starts_with suffix (codes "backup-") ≡ false
    → IsText text state
    → IsSaved text state dir (write_state fs text suffix state dir)
unfolding write_state
write_state-IsSaved text fs suffix state dir unlike t =
    when_made-IsSaved text state dir fs.makes_directory fs.creates _
      (after_write-IsSaved text fs suffix state dir (fs.writes (text.to_vec_pretty state)) unlike t)
