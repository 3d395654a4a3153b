-- ===== src/Daemon/Tests/Install.antt =====
-- Installations and removals of crates/core/src/daemon.rs at concrete inputs.
use tron_hawk.Common.{◌≡◌, refl, none, [], ◌∷◌, Str, codes, str_eq, split, bytes}
use tron_hawk.Common.Map.{lookup, insert, remove, map_values}
use tron_hawk.Package.Identifiers.{validate_id}
use tron_hawk.Daemon.State.{commit_state, append_core_event}
use tron_hawk.Daemon.Install.{
  Directory, FileSystem, Site, unpacked, staging_dir, transaction_dir, install_plugin,
  commit_staged_plugin, publish, back_up, rename, drop_backup, remove_directory, remove_dir_all,
  with_default, remove_plugin,
}
use tron_hawk.Daemon.Install.Elsewhere.{install_plugin_elsewhere}
use tron_hawk.Daemon.Install.Removed.{IsRemoved, remove_plugin-IsRemoved}
use tron_hawk.Daemon.Install.Safe.{IsInstalled, install_plugin-IsInstalled}
use tron_hawk.Daemon.Tests.{plugin, core, env}

-- A file system that refuses nothing.
abbrev fs : FileSystem
fs = record { refuses = λ from to. none; resists = λ name directory. none }

abbrev directory : Directory
directory = (codes "manifest.json", b'{' ∷ b'}' ∷ []) ∷ []

abbrev site : Site
site = record { core = core; root = (codes "p", []) ∷ (codes "q", directory) ∷ [] }

abbrev backup : Str
backup = transaction_dir (codes "backup") (codes "p") (codes "1")

-- The prior directory of the plugin is replaced, and nothing else is left.
installed_root :
    (install_plugin fs env (unpacked plugin directory) (codes "0") (codes "1") site).1.root
    ≡ (codes "q", directory) ∷ (codes "p", directory) ∷ []
unfolding install_plugin commit_staged_plugin commit_state publish back_up rename lookup insert
    remove str_eq transaction_dir drop_backup remove_directory remove_dir_all append_core_event
    with_default map_values
installed_root = refl

install_plugin-IsInstalled_example :
    IsInstalled fs plugin
      (staging_dir (codes "0"))
      backup
      directory
      site
      (install_plugin fs env (unpacked plugin directory) (codes "0") (codes "1") site)
unfolding validate_id lookup transaction_dir str_eq split bytes
install_plugin-IsInstalled_example =
    install_plugin-IsInstalled fs env plugin directory (codes "0") (codes "1") site refl refl

remove_plugin-IsRemoved_example :
    IsRemoved fs (codes "p") (codes "1") site (remove_plugin fs env (codes "1") (codes "p") site)
unfolding validate_id split bytes
remove_plugin-IsRemoved_example = remove_plugin-IsRemoved fs env (codes "1") (codes "p") site refl

install_plugin_elsewhere_example :
    lookup
      (codes "q")
      (install_plugin fs env (unpacked plugin directory) (codes "0") (codes "1") site).1.root
    ≡ lookup (codes "q") site.root
unfolding validate_id split str_eq bytes
install_plugin_elsewhere_example =
    install_plugin_elsewhere fs env (unpacked plugin directory) (codes "0") (codes "1") (codes "q")
      site refl refl
