-- ===== src/Daemon/Install/Published.antt =====
-- What `commit_staged_plugin` and `install_plugin` of crates/core/src/daemon.rs make of the
-- directories of plugins, wherever a rename or a removal fails.
use tron_hawk.Common.{
  ◌≡◌, refl, sym, ◌∙◌, true, false, none, some, Str, str_eq, ok, err, ◌⊎◌, Option-cases, inl, inr,
}
use tron_hawk.Common.Map.{lookup, insert, remove, lookup-insert, lookup-remove}
use tron_hawk.Daemon.Install.{
  Directory, Root, FileSystem, remove_dir_all, remove_directory, Cleared, back_up, restore,
  roll_back, drop_backup, publish,
}
use tron_hawk.Daemon.Install.Moves.{
  rename_ok, rename_refused, remove_directory_elsewhere, lookup-insert_same, lookup-insert_other,
  lookup-remove_other,
}

-- The three names of a transaction differ.
pub record AreApart (id staging backup : Str) : Type 0 where
  pub same_id : str_eq id id ≡ true
  pub same_backup : str_eq backup backup ≡ true
  pub same_staging : str_eq staging staging ≡ true
  pub id_staging : str_eq id staging ≡ false
  pub id_backup : str_eq id backup ≡ false
  pub staging_id : str_eq staging id ≡ false
  pub staging_backup : str_eq staging backup ≡ false
  pub backup_id : str_eq backup id ≡ false
  pub backup_staging : str_eq backup staging ≡ false

-- A publication that succeeds leaves the new directory under the plugin's name, and neither the
-- staged one nor a backup. One that fails leaves the prior one there; or the new one, if only the
-- removal of the backup failed; or none, with the prior one in the backup, if it could not be put
-- back.
abbrev pub IsPublished : FileSystem → Str → Str → Str → Directory → Root → Cleared → Type 0
IsPublished fs id staging backup new before (ok u, after) =
    (lookup id after ≡ some new) × (lookup staging after ≡ none) × (lookup backup after ≡ none)
IsPublished fs id staging backup new before (err e, after) =
    (lookup id after ≡ lookup id before)
    ⊎ (((prior : Directory) × (left : (Str × Directory)) × (lookup id before ≡ some prior)
          × (fs.resists backup prior ≡ some left)
          × (lookup id after ≡ some new))
        ⊎ ((message : Str) × (fs.refuses backup id ≡ some message)
            × (lookup id after ≡ none)
            × (lookup backup after ≡ lookup id before)))

module _ (fs : FileSystem) (id staging backup : Str) (new : Directory)
    (apart : AreApart id staging backup) where
  gone : (root : Root) → lookup staging (remove staging root) ≡ none
  gone root = rw (lookup-remove, apart.same_staging) refl

  -- The rename of the staged directory is refused.
  roll_back_elsewhere :
      (message : Str) (before after : Root)
      → lookup backup after ≡ none
      → lookup id after ≡ lookup id before
      → IsPublished fs id staging backup new before (roll_back fs id staging backup message after)
  unfolding roll_back restore
  roll_back_elsewhere message before after fresh same =
      rw (roll_back, restore, fresh)
        (inl (remove_directory_elsewhere fs staging _ id after apart.staging_id ∙ same))

  -- The publication where nothing had the plugin's name.
  publish_fresh :
      (root : Root)
      → lookup staging root ≡ some new
      → lookup backup root ≡ none
      → lookup id root ≡ none
      → IsPublished fs id staging backup new root (publish fs id staging backup root)
  unfolding publish back_up drop_backup
  publish_fresh root staged fresh absent = elim (Option-cases (fs.refuses staging id)) [
    | inl works ↦
        rw
          (
            publish,
            back_up,
            absent,
            rename_ok fs staging id new root staged absent works,
            drop_backup,
            lookup-insert,
            lookup-remove,
            apart.id_backup,
            apart.staging_backup,
            fresh,
          )
          (
            lookup-insert_same id new _ apart.same_id,
            lookup-insert_other id staging new _ apart.id_staging ∙ gone root,
            lookup-insert_other id backup new _ apart.id_backup
                ∙ (lookup-remove_other staging backup root apart.staging_backup ∙ fresh),
          )
    | inr (message, refused) ↦
        rw
          (
            publish,
            back_up,
            absent,
            rename_refused fs staging id message new root staged absent refused,
          )
          (roll_back_elsewhere message root root fresh refl)
  ]

  -- The prior directory has been put aside.
  abbrev aside : Directory → Root → Root
  aside prior root = insert backup prior (remove id root)

  staged_aside :
      (prior : Directory) (root : Root)
      → lookup staging root ≡ some new
      → lookup staging (aside prior root) ≡ some new
  staged_aside prior root staged =
      rw (lookup-insert, lookup-remove, apart.backup_staging, apart.id_staging) staged

  absent_aside : (prior : Directory) (root : Root) → lookup id (aside prior root) ≡ none
  absent_aside prior root = rw (lookup-insert, lookup-remove, apart.backup_id, apart.same_id) refl

  kept_aside : (prior : Directory) (root : Root) → lookup backup (aside prior root) ≡ some prior
  kept_aside prior root = rw (lookup-insert, apart.same_backup) refl

  -- The rename of the staged directory is refused when a prior one has been put aside.
  roll_back-aside :
      (message : Str) (prior : Directory) (root : Root)
      → lookup id root ≡ some prior
      → IsPublished fs id staging backup new root
          (roll_back fs id staging backup message (aside prior root))
  unfolding roll_back restore
  roll_back-aside message prior root there = elim (Option-cases (fs.refuses backup id)) [
    | inl works ↦
        rw
          (
            roll_back,
            restore,
            kept_aside prior root,
            rename_ok fs backup id prior (aside prior root) (kept_aside prior root)
                (absent_aside prior root) works,
          )
          (inl (
            remove_directory_elsewhere fs staging _ id _ apart.staging_id
            ∙ lookup-insert_same id prior _ apart.same_id
            ∙ sym there))
    | inr (m, refused) ↦
        rw
          (
            roll_back,
            restore,
            kept_aside prior root,
            rename_refused fs backup id m prior (aside prior root) (kept_aside prior root)
                (absent_aside prior root) refused,
          )
          (inr (
            inr (
              m,
              refused,
              remove_directory_elsewhere fs staging _ id _ apart.staging_id
                  ∙ absent_aside prior root,
              remove_directory_elsewhere fs staging _ backup _ apart.staging_backup
                  ∙ kept_aside prior root
                  ∙ sym there,
            )))
  ]

  -- The new directory stands under the plugin's name, and the backup is to go.
  drop_backup-IsPublished :
      (prior : Directory) (before after : Root)
      → lookup id before ≡ some prior
      → lookup backup after ≡ some prior
      → lookup id after ≡ some new
      → lookup staging after ≡ none
      → IsPublished fs id staging backup new before (drop_backup fs id staging backup after)
  unfolding drop_backup remove_directory remove_dir_all
  drop_backup-IsPublished prior before after there kept done gone_too =
      elim (Option-cases (fs.resists backup prior)) [
        | inl works ↦
            rw (drop_backup, kept, remove_directory, remove_dir_all, works)
              (
                lookup-remove_other backup id after apart.backup_id ∙ done,
                lookup-remove_other backup staging after apart.backup_staging ∙ gone_too,
                rw (lookup-remove, apart.same_backup) refl,
              )
        | inr (left, resisted) ↦
            rw (drop_backup, kept, remove_directory, remove_dir_all, resisted)
              (inr (
                inl (
                  prior,
                  left,
                  there,
                  resisted,
                  lookup-insert_other backup id left.1 after apart.backup_id ∙ done,
                )))
      ]

  publish_over :
      (prior : Directory) (root : Root)
      → lookup staging root ≡ some new
      → lookup backup root ≡ none
      → lookup id root ≡ some prior
      → IsPublished fs id staging backup new root (publish fs id staging backup root)
  unfolding publish back_up
  publish_over prior root staged fresh there = elim (Option-cases (fs.refuses id backup)) [
    | inr (message, refused) ↦
        rw
          (
            publish,
            back_up,
            there,
            rename_refused fs id backup message prior root there fresh refused,
          )
          (inl (remove_directory_elsewhere fs staging _ id root apart.staging_id))
    | inl works ↦ elim (Option-cases (fs.refuses staging id)) [
      | inr (message, refused) ↦
          rw
            (
              publish,
              back_up,
              there,
              rename_ok fs id backup prior root there fresh works,
              rename_refused fs staging id message new (aside prior root)
                  (staged_aside prior root staged) (absent_aside prior root) refused,
            )
            (roll_back-aside message prior root there)
      | inl renamed ↦
          rw
            (
              publish,
              back_up,
              there,
              rename_ok fs id backup prior root there fresh works,
              rename_ok fs staging id new (aside prior root) (staged_aside prior root staged)
                  (absent_aside prior root) renamed,
            )
            (drop_backup-IsPublished prior root _ there
              (rw (lookup-insert, lookup-remove, apart.id_backup, apart.staging_backup)
                (kept_aside prior root))
              (lookup-insert_same id new _ apart.same_id)
              (lookup-insert_other id staging new _ apart.id_staging ∙ gone (aside prior root)))
    ]
  ]

  pub publish-IsPublished :
      (root : Root)
      → lookup staging root ≡ some new
      → lookup backup root ≡ none
      → IsPublished fs id staging backup new root (publish fs id staging backup root)
  publish-IsPublished root staged fresh = elim (Option-cases (lookup id root)) [
    | inl absent ↦ publish_fresh root staged fresh absent
    | inr (prior, there) ↦ publish_over prior root staged fresh there
  ]
