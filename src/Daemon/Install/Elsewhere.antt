-- ===== src/Daemon/Install/Elsewhere.antt =====
-- Installations, removals and the sweep of crates/core/src/daemon.rs and the directories of the
-- plugins that they are not about.
use tron_hawk.Common.{
  ◌≡◌, refl, ◌∙◌, true, false, none, some, List, [], ◌∷◌, ◌++◌, Str, codes, str_eq, if◌then◌else◌,
  ◌==◌, ==_iff, sym, ap, ok, err, Bool-cases, Result-cases, inl, inr,
}
use tron_hawk.Common.Map.{lookup, contains_key}
use tron_hawk.Package.Plugin.{Plugin}
use tron_hawk.Package.Identifiers.{validate_id}
use tron_hawk.Daemon.State.{Core, Env, commit_state}
use tron_hawk.Daemon.Install.{
  Root, FileSystem, Moved, rename, discard, back_up, restored, restore, roll_back, drop_backup,
  after_publish, after_backup, publish, published, commit_staged_plugin, Outcome, Site, Extraction,
  unpacked, refused, staging_dir, transaction_dir, Cleared, reported, install_plugin,
  is_transaction, with_default, sweep_orphaned_transaction_dirs,
}
use tron_hawk.Daemon.Install.Moves.{
  rename_elsewhere, discard_elsewhere, remove_directory_elsewhere, lookup-insert_other,
}
use tron_hawk.Daemon.Install.Safe.{validate_id_dot, unhidden}

module _ (fs : FileSystem) (id staging backup j : Str) (j_id : str_eq id j ≡ false)
    (j_staging : str_eq staging j ≡ false) (j_backup : str_eq backup j ≡ false) where
  back_up_elsewhere : (root : Root) → lookup j (back_up fs id staging backup root).1 ≡ lookup j root
  unfolding back_up
  back_up_elsewhere root = elim (Bool-cases (contains_key id root)) [
    | inl there ↦ rw (back_up, there) (rename_elsewhere fs id backup j root j_id j_backup)
    | inr absent ↦ rw (back_up, absent)
  ]

  restored_root : (moved : Moved) → (restored moved).1 ≡ moved.1
  restored_root (ok u, root) = refl
  restored_root (err message, root) = refl

  restore_elsewhere : (root : Root) → lookup j (restore fs id staging backup root).1 ≡ lookup j root
  unfolding restore
  restore_elsewhere root = elim (Bool-cases (contains_key backup root)) [
    | inl there ↦
        rw (restore, there, restored_root) (rename_elsewhere fs backup id j root j_backup j_id)
    | inr absent ↦ rw (restore, absent)
  ]

  roll_back_elsewhere :
      (message : Str) (root : Root)
      → lookup j (roll_back fs id staging backup message root).1 ≡ lookup j root
  unfolding roll_back
  roll_back_elsewhere message root =
      remove_directory_elsewhere fs staging _ j _ j_staging ∙ restore_elsewhere root

  drop_backup_elsewhere :
      (root : Root) → lookup j (drop_backup fs id staging backup root).1 ≡ lookup j root
  unfolding drop_backup
  drop_backup_elsewhere root = elim (Bool-cases (contains_key backup root)) [
    | inl there ↦ rw (drop_backup, there) (remove_directory_elsewhere fs backup _ j root j_backup)
    | inr absent ↦ rw (drop_backup, absent)
  ]

  after_publish_elsewhere :
      (moved : Moved) → lookup j (after_publish fs id staging backup moved).1 ≡ lookup j moved.1
  after_publish_elsewhere (ok u, root) = drop_backup_elsewhere root
  after_publish_elsewhere (err message, root) = roll_back_elsewhere message root

  after_backup_elsewhere :
      (moved : Moved) → lookup j (after_backup fs id staging backup moved).1 ≡ lookup j moved.1
  after_backup_elsewhere (ok u, root) =
      after_publish_elsewhere (rename fs staging id root)
      ∙ rename_elsewhere fs staging id j root j_staging j_id
  after_backup_elsewhere (err message, root) =
      remove_directory_elsewhere fs staging _ j root j_staging

  publish_elsewhere : (root : Root) → lookup j (publish fs id staging backup root).1 ≡ lookup j root
  unfolding publish
  publish_elsewhere root =
      after_backup_elsewhere (back_up fs id staging backup root) ∙ back_up_elsewhere root

  published_root :
      (core : Core) (cleared : Cleared)
      → (published fs id staging backup core cleared).1.root ≡ cleared.1
  published_root core (ok u, root) = refl
  published_root core (err e, root) = refl

  commit_elsewhere :
      (env : Env) (site : Site)
      → lookup j (commit_staged_plugin fs id staging backup env false site).1.root
        ≡ lookup j site.root
  unfolding commit_staged_plugin
  commit_elsewhere env site =
      elim (Result-cases (commit_state env (with_default id site.core.state) site.core)) [
        | inr (e, failed) ↦ rw (commit_staged_plugin, failed)
        | inl (core, done) ↦
            rw (commit_staged_plugin, done, published_root) (publish_elsewhere site.root)
      ]

reported_root :
    (env : Env) (plugin : Plugin) (outcome : Outcome (Unit {0}))
    → (reported env plugin outcome).1.root ≡ outcome.1.root
reported_root env plugin (ok u, site) = refl
reported_root env plugin (err e, site) = refl

-- The plugin that an extraction is about.
abbrev pub IsOther : Extraction → Str → Type 0
IsOther (unpacked plugin directory) j = str_eq plugin.id j ≡ false
IsOther (refused message debris) j = Unit

-- Whatever becomes of an installation, the directory of every other plugin with a valid id stays.
pub install_plugin_elsewhere :
    (fs : FileSystem) (env : Env) (extraction : Extraction) (token suffix j : Str) (site : Site)
    → validate_id j ≡ ok tt
    → IsOther extraction j
    → lookup j (install_plugin fs env extraction token suffix site).1.root ≡ lookup j site.root
unfolding install_plugin transaction_dir
install_plugin_elsewhere fs env (refused message none) token suffix j site valid h =
    discard_elsewhere fs (staging_dir token) j site.root
      (validate_id_dot j (codes "staging-" ++ token) valid).1
install_plugin_elsewhere fs env (refused message (some directory)) token suffix j site valid h =
    let apart = (validate_id_dot j (codes "staging-" ++ token) valid).1 in
    discard_elsewhere fs (staging_dir token) j _ apart
    ∙ lookup-insert_other (staging_dir token) j directory site.root apart
install_plugin_elsewhere fs env (unpacked plugin directory) token suffix j site valid h =
    let apart = (validate_id_dot j (codes "staging-" ++ token) valid).1 in
    let backup = (validate_id_dot j (unhidden (codes "backup") plugin.id suffix) valid).1 in
    rw reported_root (
      commit_elsewhere fs plugin.id (staging_dir token)
        (transaction_dir (codes "backup") plugin.id suffix) j h apart backup env _
      ∙ lookup-insert_other (staging_dir token) j directory site.root apart)

is_transaction_dot : (name : Str) → is_transaction name ≡ true → (rest : Str) × (name ≡ b'.' ∷ rest)
is_transaction_dot [] h = cc
is_transaction_dot (c ∷ name) h = elim (Bool-cases (b'.' == c)) [
  | inl dot ↦ (name, ap (λ d. d ∷ name) (sym ((==_iff b'.' c).0 dot)))
  | inr other ↦ absurd (cc (rw other at h))
]

sweep_one :
    (fs : FileSystem) (name j : Str) (root : Root)
    → validate_id j ≡ ok tt
    → lookup j (if is_transaction name then discard fs name root else root) ≡ lookup j root
sweep_one fs name j root valid = elim (Bool-cases (is_transaction name)) [
  | inr kept ↦ rw kept
  | inl swept ↦
      let (rest, e) = is_transaction_dot name swept in
      rw swept (discard_elsewhere fs name j root (rw e ((validate_id_dot j rest valid).1)))
]

-- The sweep at the start keeps the directory of every plugin with a valid id.
pub sweep-lookup :
    (fs : FileSystem) (names : List Str) (j : Str) (root : Root)
    → validate_id j ≡ ok tt
    → lookup j (sweep_orphaned_transaction_dirs fs names root) ≡ lookup j root
unfolding sweep_orphaned_transaction_dirs
sweep-lookup fs [] j root valid = refl
sweep-lookup fs (name ∷ names) j root valid =
    sweep-lookup fs names j (if is_transaction name then discard fs name root else root) valid
    ∙ sweep_one fs name j root valid
