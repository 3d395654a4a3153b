-- ===== src/Daemon/Install/Moves.antt =====
-- What the renames and removals of crates/core/src/daemon.rs do to the directories of plugins.
use tron_hawk.Common.{
  ◌≡◌, refl, true, false, Option, none, some, Str, codes, str_eq, ok, err, Bool-cases, Option-cases,
  inl, inr,
}
use tron_hawk.Common.Map.{lookup, insert, remove, contains_key, lookup-insert, lookup-remove}
use tron_hawk.Daemon.Install.{
  Directory, Root, FileSystem, Moved, moved_to, rename, remove_dir_all, cleared, remove_directory,
  discard,
}

pub lookup-insert_same :
    (k : Str) (directory : Directory) (root : Root)
    → str_eq k k ≡ true
    → lookup k (insert k directory root) ≡ some directory
lookup-insert_same k directory root e = rw (lookup-insert, e)

pub lookup-insert_other :
    (k j : Str) (directory : Directory) (root : Root)
    → str_eq k j ≡ false
    → lookup j (insert k directory root) ≡ lookup j root
lookup-insert_other k j directory root e = rw (lookup-insert, e)

pub lookup-remove_other :
    (k j : Str) (root : Root) → str_eq k j ≡ false → lookup j (remove k root) ≡ lookup j root
lookup-remove_other k j root e = rw (lookup-remove, e)

module _ (fs : FileSystem) where
  pub rename_ok :
      (from to : Str) (directory : Directory) (root : Root)
      → lookup from root ≡ some directory
      → lookup to root ≡ none
      → fs.refuses from to ≡ none
      → rename fs from to root ≡ (ok tt, insert to directory (remove from root))
  unfolding rename
  rename_ok from to directory root there free works = rw (rename, there, free, works)

  pub rename_refused :
      (from to message : Str) (directory : Directory) (root : Root)
      → lookup from root ≡ some directory
      → lookup to root ≡ none
      → fs.refuses from to ≡ some message
      → rename fs from to root ≡ (err message, root)
  unfolding rename
  rename_refused from to message directory root there free works = rw (rename, there, free, works)

  pub rename_missing :
      (from to : Str) (root : Root)
      → lookup from root ≡ none
      → rename fs from to root ≡ (err (codes "not found"), root)
  unfolding rename
  rename_missing from to root missing = rw (rename, missing)

  pub rename_taken :
      (from to : Str) (directory : Directory) (root : Root)
      → lookup from root ≡ some directory
      → contains_key to root ≡ true
      → rename fs from to root ≡ (err (codes "directory exists"), root)
  unfolding rename
  rename_taken from to directory root there taken = rw (rename, there, taken)

  moved_to_elsewhere :
      (from to j : Str) (directory : Directory) (root : Root) (answer : Option Str)
      → str_eq from j ≡ false
      → str_eq to j ≡ false
      → lookup j (moved_to from to directory root answer).1 ≡ lookup j root
  moved_to_elsewhere from to j directory root none f t = rw (lookup-insert, t, lookup-remove, f)
  moved_to_elsewhere from to j directory root (some message) f t = refl

  -- A rename, done or refused, leaves the other names alone.
  pub rename_elsewhere :
      (from to j : Str) (root : Root)
      → str_eq from j ≡ false
      → str_eq to j ≡ false
      → lookup j (rename fs from to root).1 ≡ lookup j root
  unfolding rename
  rename_elsewhere from to j root f t = elim (Option-cases (lookup from root)) [
    | inl missing ↦ rw (rename, missing)
    | inr (directory, there) ↦ elim (Bool-cases (contains_key to root)) [
      | inl taken ↦ rw (rename, there, taken)
      | inr free ↦
          rw (rename, there, free)
            (moved_to_elsewhere from to j directory root (fs.refuses from to) f t)
    ]
  ]

  pub remove_dir_all_elsewhere :
      (name j : Str) (directory : Directory) (root : Root)
      → str_eq name j ≡ false
      → lookup j (remove_dir_all fs name directory root).1 ≡ lookup j root
  unfolding remove_dir_all
  remove_dir_all_elsewhere name j directory root e =
      elim (Option-cases (fs.resists name directory)) [
        | inl gone ↦ rw (remove_dir_all, gone) (lookup-remove_other name j root e)
        | inr ((message, rest), kept) ↦
            rw (remove_dir_all, kept) (lookup-insert_other name j rest root e)
      ]

  cleared_root : (operation : Str) (moved : Moved) → (cleared operation moved).1 ≡ moved.1
  cleared_root operation (ok u, root) = refl
  cleared_root operation (err message, root) = refl

  pub remove_directory_elsewhere :
      (name operation j : Str) (root : Root)
      → str_eq name j ≡ false
      → lookup j (remove_directory fs name operation root).1 ≡ lookup j root
  unfolding remove_directory
  remove_directory_elsewhere name operation j root e = elim (Option-cases (lookup name root)) [
    | inl missing ↦ rw (remove_directory, missing)
    | inr (directory, there) ↦
        rw (remove_directory, there, cleared_root)
          (remove_dir_all_elsewhere name j directory root e)
  ]

  pub discard_elsewhere :
      (name j : Str) (root : Root)
      → str_eq name j ≡ false
      → lookup j (discard fs name root) ≡ lookup j root
  unfolding discard
  discard_elsewhere name j root e = elim (Option-cases (lookup name root)) [
    | inl missing ↦ rw (discard, missing)
    | inr (directory, there) ↦
        rw (discard, there) (remove_dir_all_elsewhere name j directory root e)
  ]
