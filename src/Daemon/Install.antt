-- ===== src/Daemon/Install.antt =====
-- Installing and removing plugins in crates/core/src/daemon.rs: the directories under the installed
-- root by their names, and the transactions on them. A directory is its files by their paths.
pub mod Elsewhere
pub mod Kept
pub mod Moves
pub mod Policies
pub mod Published
pub mod Removed
pub mod Safe
use tron_hawk.Common.{
  ℕ, Bool, true, false, not, ◌||◌, Option, none, some, List, [], ◌∷◌, ◌++◌, Str, codes, any,
  starts_with, Result, ok, err, if◌then◌else◌,
}
use tron_hawk.Common.Map.{Map, lookup, insert, remove, contains_key, map_values}
use tron_hawk.Package.Plugin.{Plugin}
use tron_hawk.Daemon.State.{
  PluginPolicy, default_policy, ApplicationState, DaemonState, Core, RouterError, invalid_params,
  internal, Env, append_core_event, commit_state,
}
use tron_hawk.Daemon.Installed.{installed_plugins}
use tron_hawk.Daemon.Handlers.{Answer, find_plugin, set_applications, set_plugins}

abbrev pub Directory : Type 0
Directory = Map (List ℕ)

abbrev pub Root : Type 0
Root = Map Directory

-- Whether the file system refuses to rename one name to another, with its message; and whether a
-- removal of a directory fails, with its message and what is left.
pub record FileSystem : Type 0 where
  pub refuses : Str → Str → Option Str
  pub resists : Str → Directory → Option (Str × Directory)

abbrev pub Moved : Type 0
Moved = Result Str (Unit {0}) × Root

abbrev pub moved_to : Str → Str → Directory → Root → Option Str → Moved
moved_to from to directory root none = (ok tt, insert to directory (remove from root))
moved_to from to directory root (some message) = (err message, root)

-- `std::fs::rename` of a directory: what is not there is not renamed, and nothing is overwritten.
unfoldable pub rename : FileSystem → Str → Str → Root → Moved
rename fs from to root = elim (lookup from root) [
  | none ↦ (err (codes "not found"), root)
  | some directory ↦
      if contains_key to root
      then (err (codes "directory exists"), root)
      else moved_to from to directory root (fs.refuses from to)
]

-- `std::fs::remove_dir_all`
unfoldable pub remove_dir_all : FileSystem → Str → Directory → Root → Moved
remove_dir_all fs name directory root = elim (fs.resists name directory) [
  | none ↦ (ok tt, remove name root)
  | some (message, rest) ↦ (err message, insert name rest root)
]

abbrev pub Cleared : Type 0
Cleared = Result RouterError (Unit {0}) × Root

abbrev pub cleared : Str → Moved → Cleared
cleared operation (ok u, root) = (ok tt, root)
cleared operation (err message, root) =
    (err (internal (operation ++ (codes ": " ++ message))), root)

unfoldable pub remove_directory : FileSystem → Str → Str → Root → Cleared
remove_directory fs name operation root = elim (lookup name root) [
  | none ↦ (ok tt, root)
  | some directory ↦ cleared operation (remove_dir_all fs name directory root)
]

-- `let _ = std::fs::remove_dir_all(…)`
unfoldable pub discard : FileSystem → Str → Root → Root
discard fs name root = elim (lookup name root) [
  | none ↦ root
  | some directory ↦ (remove_dir_all fs name directory root).1
]

abbrev pub internal_message : RouterError → Str
internal_message (internal message) = message
internal_message (invalid_params message) = message

abbrev pub merge_recovery_error : Str → Result RouterError (Unit {0}) → RouterError
merge_recovery_error primary (ok u) = internal primary
merge_recovery_error primary (err e) = internal (primary ++ (codes "; " ++ internal_message e))

-- The name of a hidden directory; the suffix is the process id and the clock.
unfoldable pub transaction_dir : Str → Str → Str → Str
transaction_dir operation id suffix =
    codes "." ++ (operation ++ (codes "-" ++ (id ++ (codes "-" ++ suffix))))

abbrev pub staging_dir : Str → Str
staging_dir token = codes ".staging-" ++ token

-- The service with the directories of its plugins.
pub record Site : Type 0 where
  pub core : Core
  pub root : Root

abbrev pub Outcome : Type 0 → Type 0
Outcome A = Result RouterError A × Site

-- Every application gets the default policy for the plugin.
unfoldable pub with_default : Str → DaemonState → DaemonState
with_default id state =
    set_applications
      (map_values
        (λ application. set_plugins (insert id default_policy application.plugins) application)
        state.applications)
      state

unfoldable pub without_plugin : Str → DaemonState → DaemonState
without_plugin id state =
    set_applications
      (map_values (λ application. set_plugins (remove id application.plugins) application)
        state.applications)
      state

abbrev pub forget_cache : Core → Core
forget_cache core = record core { plugin_cache = none }

abbrev pub restored : Moved → Result Str (Unit {0}) × Root
restored (ok u, root) = (ok tt, root)
restored (err message, root) = (err (codes "restore prior plugin: " ++ message), root)

abbrev pub and_message : {E : Type 0} → (E → Str) → Result E (Unit {0}) → Str → Str
and_message f (ok u) message = message
and_message f (err e) message = message ++ (codes "; " ++ f e)

module _ (fs : FileSystem) (id staging backup : Str) where
  -- `if final_dir.exists() { rename(&final_dir, &backup) }`
  unfoldable pub back_up : Root → Moved
  back_up root = if contains_key id root then rename fs id backup root else (ok tt, root)

  unfoldable pub restore : Root → Moved
  restore root =
      if contains_key backup root then restored (rename fs backup id root) else (ok tt, root)

  -- The publication failed: the prior plugin is put back, and the staged one discarded.
  unfoldable pub roll_back : Str → Root → Cleared
  roll_back message root =
      let (put_back, after) = restore root in
      let (cleanup, cleaned) = remove_directory fs staging (codes "discard staged plugin") after in
      (
        err (
            internal (
              and_message internal_message cleanup
                (and_message (λ m. m) put_back (codes "publish plugin: " ++ message)))),
        cleaned,
      )

  unfoldable pub drop_backup : Root → Cleared
  drop_backup root =
      if contains_key backup root
      then remove_directory fs backup (codes "remove prior plugin backup") root
      else (ok tt, root)

  abbrev pub after_publish : Moved → Cleared
  after_publish (err message, root) = roll_back message root
  after_publish (ok u, root) = drop_backup root

  abbrev pub after_backup : Moved → Cleared
  after_backup (err message, root) =
      let (cleanup, cleaned) = remove_directory fs staging (codes "discard staged plugin") root in
      (err (merge_recovery_error (codes "backup plugin: " ++ message) cleanup), cleaned)
  after_backup (ok u, root) = after_publish (rename fs staging id root)

  unfoldable pub publish : Root → Cleared
  publish root = after_backup (back_up root)

  -- Only a commit that succeeds drops the cached plugins.
  abbrev pub published : Core → Cleared → Outcome (Unit {0})
  published core (err e, root) = (err e, record { core = core; root = root })
  published core (ok u, root) = (ok tt, record { core = forget_cache core; root = root })

  abbrev pub simulated_failure : Core → Cleared → Outcome (Unit {0})
  simulated_failure core (err e, root) = (err e, record { core = core; root = root })
  simulated_failure core (ok u, root) = (
    err (internal (codes "simulated plugin publish failure")),
    record { core = core; root = root },
  )

  unfoldable pub commit_staged_plugin : Env → Bool → Site → Outcome (Unit {0})
  commit_staged_plugin env fail_before_publish site =
      elim (commit_state env (with_default id site.core.state) site.core) [
        | err e ↦ (err e, site)
        | ok after ↦
            if fail_before_publish
            then simulated_failure after (
                remove_directory fs staging (codes "discard staged plugin after publish failure")
                  site.root)
            else published after (publish site.root)
      ]

-- What `tronhawk_package::extract` does with a package: its plugin and the directory of its files,
-- or an error with what has been written.
pub data Extraction : Type 0 where
  unpacked : Plugin → Directory → Extraction
  refused : Str → Option Directory → Extraction

abbrev pub with_debris : Str → Option Directory → Root → Root
with_debris staging none root = root
with_debris staging (some directory) root = insert staging directory root

abbrev pub reported : Env → Plugin → Outcome (Unit {0}) → Outcome Plugin
reported env plugin (err e, site) = (err e, site)
reported env plugin (ok u, site) = (
  ok plugin,
  record site {
    core =
        append_core_event env (codes "global") (some plugin.id) (codes "core.plugin.installed")
          (codes "Plugin installed") site.core;
  },
)

-- `extraction` is what `extract` does with the package, `token` the random one of the staging
-- directory, and `suffix` that of the backup.
unfoldable pub install_plugin : FileSystem → Env → Extraction → Str → Str → Site → Outcome Plugin
install_plugin fs env (refused message debris) token suffix site =
    let staging = staging_dir token in
    (
      err (invalid_params message),
      record site { root = discard fs staging (with_debris staging debris site.root) },
    )
install_plugin fs env (unpacked plugin directory) token suffix site =
    let staging = staging_dir token in
    let backup = transaction_dir (codes "backup") plugin.id suffix in
    reported env plugin (
      commit_staged_plugin fs plugin.id staging backup env false
        (record site { root = insert staging directory site.root }))

abbrev pub staging_error : Str → RouterError
staging_error message = internal (codes "stage plugin removal: " ++ message)

module _ (fs : FileSystem) (env : Env) where
  -- The plugin's directory has been renamed to `trash`.
  unfoldable pub finish_removal : Plugin → Str → Core → Root → Outcome Plugin
  finish_removal plugin trash core root =
      elim (commit_state env (without_plugin plugin.id core.state) core) [
        | err e ↦ (err e, record { core = core; root = (rename fs trash plugin.id root).1 })
        | ok after ↦ (
          ok plugin,
          record {
            core =
                append_core_event env (codes "global") (some plugin.id)
                  (codes "core.plugin.removed") (codes "Plugin removed") after;
            root = discard fs trash root;
          },
        )
      ]

  abbrev pub after_staging : Plugin → Str → Core → Moved → Outcome Plugin
  after_staging plugin trash core (err message, root) =
      (err (staging_error message), record { core = core; root = root })
  after_staging plugin trash core (ok u, root) =
      finish_removal plugin trash (forget_cache core) root

  unfoldable pub remove_found : Str → Root → Plugin → Core → Outcome Plugin
  remove_found suffix root plugin core =
      let trash = transaction_dir (codes "remove") plugin.id suffix in
      after_staging plugin trash core (rename fs plugin.id trash root)

  abbrev pub removing : Str → Str → Root → Answer (List Plugin) → Outcome Plugin
  removing suffix plugin_id root (err e, core) = (err e, record { core = core; root = root })
  removing suffix plugin_id root (ok plugins, core) = elim (find_plugin plugin_id plugins) [
    | none ↦ (err (invalid_params (codes "plugin not found")), record { core = core; root = root })
    | some plugin ↦ remove_found suffix root plugin core
  ]

  unfoldable pub remove_plugin : Str → Str → Site → Outcome Plugin
  remove_plugin suffix plugin_id site =
      removing suffix plugin_id site.root (installed_plugins env site.core)

abbrev pub transaction_prefixes : List Str
transaction_prefixes =
    codes ".staging-" ∷ codes ".backup-" ∷ codes ".remove-" ∷ codes ".tronhawk-" ∷ []

abbrev pub is_transaction : Str → Bool
is_transaction name = any (λ prefix. starts_with name prefix) transaction_prefixes

-- The sweep at the start, over the directories that are listed.
unfoldable pub sweep_orphaned_transaction_dirs : FileSystem → List Str → Root → Root
sweep_orphaned_transaction_dirs fs [] root = root
sweep_orphaned_transaction_dirs fs (name ∷ names) root =
    sweep_orphaned_transaction_dirs fs names
      (if is_transaction name then discard fs name root else root)
