-- ===== src/Daemon/Install/Removed.antt =====
-- Removals in crates/core/src/daemon.rs: what `remove_plugin` leaves of the directories, of the
-- policies and of the state file.
use tron_hawk.Common.{
  ◌≡◌, refl, sym, ap, ◌∙◌, false, none, some, List, [], ◌∷◌, Str, codes, str_eq, str_eq_iff, arith,
  Bool-cases, ok, err, ◌⊎◌, Option-cases, Result-cases, inl, inr,
}
use mathlib.Core.Path.{subst}
use tron_hawk.Common.Map.{lookup, insert, remove, lookup-insert, lookup-remove}
use tron_hawk.Package.Plugin.{Plugin}
use tron_hawk.Package.Identifiers.{validate_id}
use tron_hawk.Daemon.State.{Core, RouterError, internal, Env, commit_state}
use tron_hawk.Daemon.Installed.{installed_plugins}
use tron_hawk.Daemon.Installed.Cache.{installed_plugins_keeps}
use tron_hawk.Daemon.Handlers.{Answer, find_plugin}
use tron_hawk.Daemon.Handlers.Invariant.{append_core_event_keeps}
use tron_hawk.Daemon.Install.{
  Directory, Root, FileSystem, Outcome, Site, transaction_dir, rename, without_plugin,
  finish_removal, remove_found, removing, remove_plugin,
}
use tron_hawk.Daemon.Install.Moves.{
  rename_ok, rename_refused, rename_missing, rename_taken, discard_elsewhere, lookup-insert_same,
}
use tron_hawk.Daemon.Install.Policies.{HavePolicy, without_plugin-HavePolicy}
use tron_hawk.Daemon.Install.Safe.{validate_id_dot, unhidden, str_eq_refl}

-- A removal that succeeds leaves no directory under the plugin's name and no policy for it, in
-- memory and in the state file. One that fails leaves state and state file as they were, and the
-- directory too, unless the file system refused to put it back: then the trash has it.
abbrev pub IsRemoved : FileSystem → Str → Str → Site → Outcome Plugin → Type 0
IsRemoved fs id suffix before (ok plugin, after) =
    (plugin.id ≡ id)
    × (lookup id after.root ≡ none)
    × HavePolicy id none before.core.state after.core.state
    × HavePolicy id none before.core.state after.core.disk
IsRemoved fs id suffix before (err e, after) =
    (after.core.state ≡ before.core.state)
    × (after.core.disk ≡ before.core.disk)
    × ((lookup id after.root ≡ lookup id before.root)
        ⊎ ((message : Str) × (fs.refuses (transaction_dir (codes "remove") id suffix) id
              ≡ some message)
            × (lookup (transaction_dir (codes "remove") id suffix) after.root
                ≡ lookup id before.root)))

find_plugin_id :
    (id : Str) (plugins : List Plugin) (plugin : Plugin)
    → find_plugin id plugins ≡ some plugin
    → plugin.id ≡ id
find_plugin_id id [] plugin h = cc
find_plugin_id id (p ∷ plugins) plugin h = elim (Bool-cases (str_eq p.id id)) [
  | inl same ↦ let e : p ≡ plugin = ground arith in rw (← e) ((str_eq_iff p.id id).0 same)
  | inr other ↦ find_plugin_id id plugins plugin (ground arith)
]

abbrev trash_of : Str → Str → Str
trash_of id suffix = transaction_dir (codes "remove") id suffix

trash_apart :
    (id suffix : Str)
    → validate_id id ≡ ok tt
    → (str_eq id (trash_of id suffix) ≡ false) × (str_eq (trash_of id suffix) id ≡ false)
unfolding transaction_dir
trash_apart id suffix valid = validate_id_dot id (unhidden (codes "remove") id suffix) valid

module _ (fs : FileSystem) (env : Env) (suffix : Str) (plugin : Plugin)
    (valid : validate_id plugin.id ≡ ok tt) where
  abbrev staged : Directory → Root → Root
  staged directory root = insert (trash_of plugin.id suffix) directory (remove plugin.id root)

  absent_staged :
      (directory : Directory) (root : Root) → lookup plugin.id (staged directory root) ≡ none
  absent_staged directory root =
      rw
        (
          lookup-insert,
          (trash_apart plugin.id suffix valid).1,
          lookup-remove,
          str_eq_refl plugin.id,
        )
        refl

  kept_staged :
      (directory : Directory) (root : Root)
      → lookup (trash_of plugin.id suffix) (staged directory root) ≡ some directory
  kept_staged directory root =
      lookup-insert_same (trash_of plugin.id suffix) directory (remove plugin.id root)
        (str_eq_refl (trash_of plugin.id suffix))

  -- The state file does not take the removal, and the directory is put back.
  put_back :
      (before : Site) (core : Core) (e : RouterError) (directory : Directory)
      → core.state ≡ before.core.state
      → core.disk ≡ before.core.disk
      → lookup plugin.id before.root ≡ some directory
      → IsRemoved fs plugin.id suffix before (
        err e,
        record {
          core = core;
          root = (rename fs (trash_of plugin.id suffix) plugin.id (staged directory before.root)).1;
        },
      )
  put_back before core e directory s d there =
      let kept = kept_staged directory before.root in
      let absent = absent_staged directory before.root in
      elim (Option-cases (fs.refuses (trash_of plugin.id suffix) plugin.id)) [
        | inl works ↦
            rw
              (rename_ok fs (trash_of plugin.id suffix) plugin.id directory
                (staged directory before.root) kept absent works)
              (
                s,
                d,
                inl (lookup-insert_same plugin.id directory _ (str_eq_refl plugin.id) ∙ sym there),
              )
        | inr (message, refused) ↦
            rw
              (rename_refused fs (trash_of plugin.id suffix) plugin.id message directory
                (staged directory before.root) kept absent refused)
              (s, d, inr (message, refused, kept ∙ sym there))
      ]

  finish_removal-IsRemoved :
      (before : Site) (core : Core) (directory : Directory)
      → core.state ≡ before.core.state
      → core.disk ≡ before.core.disk
      → lookup plugin.id before.root ≡ some directory
      → IsRemoved fs plugin.id suffix before (
          finish_removal fs env plugin
            (trash_of plugin.id suffix)
            core
            (staged directory before.root))
  unfolding finish_removal commit_state
  finish_removal-IsRemoved before core directory s d there =
      let next = without_plugin plugin.id core.state in
      elim (Result-cases (env.write next)) [
        | inr (message, e) ↦
            rw (finish_removal, commit_state, e)
              (put_back before core (internal message) directory s d there)
        | inl (done, e) ↦
            let (state, disk) =
              append_core_event_keeps env (codes "global") (some plugin.id)
                (codes "core.plugin.removed") (codes "Plugin removed")
                (record core { state = next; disk = next }) in
            rw (finish_removal, commit_state, e)
              (
                refl,
                discard_elsewhere fs (trash_of plugin.id suffix) plugin.id _
                      (trash_apart plugin.id suffix valid).1
                    ∙ absent_staged directory before.root,
                subst (HavePolicy plugin.id none before.core.state)
                    (sym (state ∙ ap (without_plugin plugin.id) s))
                    (without_plugin-HavePolicy plugin.id before.core.state),
                subst (HavePolicy plugin.id none before.core.state)
                    (sym (disk ∙ ap (without_plugin plugin.id) s))
                    (without_plugin-HavePolicy plugin.id before.core.state),
              )
      ]

  remove_found-IsRemoved :
      (before : Site) (core : Core)
      → core.state ≡ before.core.state
      → core.disk ≡ before.core.disk
      → IsRemoved fs plugin.id suffix before (remove_found fs env suffix before.root plugin core)
  unfolding remove_found
  remove_found-IsRemoved before core s d = elim (Option-cases (lookup plugin.id before.root)) [
    | inl missing ↦
        rw
          (
            remove_found,
            rename_missing fs plugin.id (trash_of plugin.id suffix) before.root missing,
          )
          (s, d, inl refl)
    | inr (directory, there) ↦
        elim (Option-cases (lookup (trash_of plugin.id suffix) before.root)) [
          | inr (other, taken) ↦
              rw
                (
                  remove_found,
                  rename_taken fs plugin.id (trash_of plugin.id suffix) directory before.root there
                      (rw taken refl),
                )
                (s, d, inl refl)
          | inl free ↦ elim (Option-cases (fs.refuses plugin.id (trash_of plugin.id suffix))) [
            | inr (message, refused) ↦
                rw
                  (
                    remove_found,
                    rename_refused fs plugin.id (trash_of plugin.id suffix) message directory
                        before.root there free refused,
                  )
                  (s, d, inl refl)
            | inl works ↦
                rw
                  (
                    remove_found,
                    rename_ok fs plugin.id (trash_of plugin.id suffix) directory before.root there
                        free works,
                  )
                  (finish_removal-IsRemoved before (record core { plugin_cache = none }) directory s
                    d there)
          ]
        ]
  ]

removing-IsRemoved :
    (fs : FileSystem) (env : Env) (suffix id : Str) (before : Site)
    → validate_id id ≡ ok tt
    → (answer : Answer (List Plugin)) → answer.1.state ≡ before.core.state
    → answer.1.disk ≡ before.core.disk
    → IsRemoved fs id suffix before (removing fs env suffix id before.root answer)
removing-IsRemoved fs env suffix id before valid (err e, core) s d = (s, d, inl refl)
removing-IsRemoved fs env suffix id before valid (ok plugins, core) s d =
    elim (Option-cases (find_plugin id plugins)) [
      | inl missing ↦ rw (removing, missing) (s, d, inl refl)
      | inr (plugin, found) ↦
          let same = find_plugin_id id plugins plugin found in
          rw (removing, found)
            (subst
              (λ i.
                IsRemoved fs i suffix before (remove_found fs env suffix before.root plugin core))
              (same) (remove_found-IsRemoved fs env suffix plugin (rw same valid) before core s d))
    ]

-- Removing a plugin with a valid id succeeds only with its directory gone from its name and, in
-- memory and in the state file, no policy for the plugin in any application, all else in the state as
-- it was; if it fails, state and state file are as before, and so is the directory, or the trash has
-- it where the file system refused to put it back.
pub remove_plugin-IsRemoved :
    (fs : FileSystem) (env : Env) (suffix id : Str) (site : Site)
    → validate_id id ≡ ok tt
    → IsRemoved fs id suffix site (remove_plugin fs env suffix id site)
unfolding remove_plugin
remove_plugin-IsRemoved fs env suffix id site valid =
    let (s, d, drops) = installed_plugins_keeps env site.core in
    removing-IsRemoved fs env suffix id site valid (installed_plugins env site.core) s d
