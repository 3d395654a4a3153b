-- ===== src/Daemon/Tests/StateFile.antt =====
-- Writing and reading the state file of crates/core/src/daemon.rs at a concrete input.
use tron_hawk.Common.{◌≡◌, refl, true, none, some, [], ◌∷◌, codes, str_eq, ok}
use tron_hawk.Common.Map.{lookup}
use tron_hawk.Json.{Json, number, object, end, field}
use tron_hawk.LogStore.Files.{whole}
use tron_hawk.Daemon.StateFile.{
  StateText, StateDir, StateFs, read_state, newest_state_backup, newest_of, parse_state_value,
  write_state,
}
use tron_hawk.Daemon.StateFile.Kept.{IsText, IsSaved, write_state-IsSaved}
use tron_hawk.Daemon.Tests.{state}

abbrev state_json : Json
state_json = object (field (codes "schemaVersion") (number (codes "1")) end)

-- A text for one state.
abbrev text : StateText
text = record {
  to_vec_pretty = λ s. 1 ∷ [];
  from_slice = λ s. some state_json;
  from_value = λ v. some state;
}

text-IsText : IsText text state
unfolding lookup str_eq
text-IsText = record {
  value = state_json;
  parses = refl;
  decodes = refl;
  current = refl;
  version = refl;
}

abbrev fs : StateFs
fs = record {
  makes_directory = true;
  creates = true;
  writes = λ bytes. whole;
  renames = true;
  removes = λ name. true;
  time = 5;
}

-- No state file, and two backups, of which the later is listed first.
abbrev crashed : StateDir
crashed = record {
  file = none;
  is_readable = true;
  artifacts =
      record {
        name = codes ".tronhawk-daemon-state-backup-2";
        is_file = true;
        modified = some 2;
        content = some (2 ∷ []);
      }
      ∷ record {
        name = codes ".tronhawk-daemon-state-backup-1";
        is_file = true;
        modified = some 1;
        content = none;
      }
      ∷ [];
}

recovers_newest : read_state text crashed ≡ ok (state, true)
unfolding read_state newest_state_backup newest_of parse_state_value
recovers_newest = refl

write_state-IsSaved_example :
    IsSaved text state crashed (write_state fs text (codes "7-9") state crashed)
write_state-IsSaved_example =
    write_state-IsSaved text fs (codes "7-9") state crashed refl text-IsText
