-- ===== src/Daemon/Install/Safe.antt =====
-- Installations in crates/core/src/daemon.rs: the names of their directories, and what an
-- installation leaves behind.
use tron_hawk.Common.{
  ◌≡◌, refl, sym, ◌∙◌, true, false, Option, none, some, [], ◌∷◌, ◌++◌, Str, codes, str_eq,
  str_eq_iff, split, ok, err, ◌==◌, arith, Result-cases, inl, inr,
}
use mathlib.Core.Path.{subst}
use tron_hawk.Common.Map.{lookup, insert}
use tron_hawk.Package.Plugin.{Plugin}
use tron_hawk.Package.Identifiers.{validate_id, validate_id_iff}
use tron_hawk.Daemon.State.{Core, Env, commit_state, append_core_event}
use tron_hawk.Daemon.Handlers.Invariant.{append_core_event_keeps}
use tron_hawk.Daemon.Install.{
  Directory, Root, FileSystem, Outcome, Site, unpacked, staging_dir, transaction_dir, with_default,
  Cleared, published, publish, reported, commit_staged_plugin, install_plugin,
}
use tron_hawk.Daemon.Install.Moves.{lookup-insert_same, lookup-insert_other}
use tron_hawk.Daemon.Install.Policies.{off, HavePolicy, with_default-HavePolicy}
use tron_hawk.Daemon.Install.Published.{AreApart, IsPublished, publish-IsPublished}

-- An id does not start with a dot, as the names of transactions do.
pub validate_id_dot :
    (id name : Str)
    → validate_id id ≡ ok tt
    → (str_eq id (b'.' ∷ name) ≡ false) × (str_eq (b'.' ∷ name) id ≡ false)
unfolding str_eq split
validate_id_dot [] name valid = (refl, refl)
validate_id_dot (c ∷ id) name valid =
    let (nonempty, short, alphabet, segments) = (validate_id_iff (c ∷ id)).0 valid in
    let other : (c == b'.') ≡ false = ground arith in ground arith

pub str_eq_refl : (s : Str) → str_eq s s ≡ true
str_eq_refl s = (str_eq_iff s s).1 refl

-- The name of a transaction behind its dot.
abbrev pub unhidden : Str → Str → Str → Str
unhidden operation id suffix = operation ++ (codes "-" ++ (id ++ (codes "-" ++ suffix)))

pub install-AreApart :
    (id token suffix : Str)
    → validate_id id ≡ ok tt
    → AreApart id (staging_dir token) (transaction_dir (codes "backup") id suffix)
unfolding transaction_dir str_eq
install-AreApart id token suffix valid = record {
  same_id = str_eq_refl id;
  same_backup = str_eq_refl (transaction_dir (codes "backup") id suffix);
  same_staging = str_eq_refl (staging_dir token);
  id_staging = (validate_id_dot id (codes "staging-" ++ token) valid).0;
  id_backup = (validate_id_dot id (unhidden (codes "backup") id suffix) valid).0;
  staging_id = (validate_id_dot id (codes "staging-" ++ token) valid).1;
  staging_backup = refl;
  backup_id = (validate_id_dot id (unhidden (codes "backup") id suffix) valid).1;
  backup_staging = refl;
}

-- What an installation that succeeds leaves: the new directory under the plugin's name and no
-- transaction directory, no cached plugins, and the default policy for the plugin, in memory and in
-- the state file. One that fails leaves the prior directory; or the new one, if only the removal of
-- the backup failed; or none, with the prior one in the backup, if it could not be put back.
abbrev pub IsInstalled :
    FileSystem → Plugin → Str → Str → Directory → Site → Outcome Plugin → Type 0
IsInstalled fs plugin staging backup new before (ok answer, after) =
    (answer ≡ plugin)
    × (lookup plugin.id after.root ≡ some new)
    × (lookup staging after.root ≡ none)
    × (lookup backup after.root ≡ none)
    × (after.core.plugin_cache ≡ none)
    × HavePolicy plugin.id (some off) before.core.state after.core.state
    × HavePolicy plugin.id (some off) before.core.state after.core.disk
IsInstalled fs plugin staging backup new before (err e, after) =
    IsPublished fs plugin.id staging backup new before.root (err e, after.root)

append-plugin_cache :
    (env : Env) (a : Str) (p : Option Str) (c m : Str) (core : Core)
    → (append_core_event env a p c m core).plugin_cache ≡ core.plugin_cache
unfolding append_core_event
append-plugin_cache env a p c m core = ground arith

module _ (fs : FileSystem) (env : Env) (plugin : Plugin) (new : Directory)
    (staging backup : Str) where
  published-IsInstalled :
      (before : Site) (core : Core) (cleared : Cleared)
      → core.state ≡ with_default plugin.id before.core.state
      → core.disk ≡ with_default plugin.id before.core.state
      → IsPublished fs plugin.id staging backup new before.root cleared
      → IsInstalled fs plugin staging backup new before
          (reported env plugin (published fs plugin.id staging backup core cleared))
  published-IsInstalled before core (err e, root) s d h = h
  published-IsInstalled before core (ok u, root) s d h =
      let (state, disk) =
        append_core_event_keeps env (codes "global") (some plugin.id)
          (codes "core.plugin.installed") (codes "Plugin installed")
          (record core { plugin_cache = none }) in
      (
        refl,
        h.0,
        h.1,
        h.2,
        append-plugin_cache env (codes "global") (some plugin.id) (codes "core.plugin.installed")
            (codes "Plugin installed") (record core { plugin_cache = none }),
        subst (HavePolicy plugin.id (some off) before.core.state) (sym (state ∙ s))
            (with_default-HavePolicy plugin.id before.core.state),
        subst (HavePolicy plugin.id (some off) before.core.state) (sym (disk ∙ d))
            (with_default-HavePolicy plugin.id before.core.state),
      )

  -- A prior directory that another name has been put beside.
  IsPublished-cong :
      (before middle : Root) (cleared : Cleared)
      → lookup plugin.id middle ≡ lookup plugin.id before
      → IsPublished fs plugin.id staging backup new middle cleared
      → IsPublished fs plugin.id staging backup new before cleared
  IsPublished-cong before middle (ok u, root) same h = h
  IsPublished-cong before middle (err e, root) same (inl h) = inl (h ∙ same)
  IsPublished-cong before middle (err e, root) same (inr (inl (prior, left, there, k, h))) =
      inr (inl (prior, left, sym same ∙ there, k, h))
  IsPublished-cong before middle (err e, root) same (inr (inr (m, refused, absent, kept))) =
      inr (inr (m, refused, absent, kept ∙ same))

  commit_staged_plugin-IsInstalled :
      (site : Site)
      → AreApart plugin.id staging backup
      → lookup backup site.root ≡ none
      → IsInstalled fs plugin staging backup new site (
          reported env plugin (
            commit_staged_plugin fs plugin.id staging backup env false
              (record site { root = insert staging new site.root })))
  unfolding commit_staged_plugin commit_state
  commit_staged_plugin-IsInstalled site apart fresh =
      let next = with_default plugin.id site.core.state in
      let root = insert staging new site.root in
      let same = lookup-insert_other staging plugin.id new site.root apart.staging_id in
      elim (Result-cases (env.write next)) [
        | inr (message, e) ↦ rw (commit_staged_plugin, commit_state, e) (inl same)
        | inl (done, e) ↦
            rw (commit_staged_plugin, commit_state, e)
              (published-IsInstalled site (record site.core { state = next; disk = next })
                (publish fs plugin.id staging backup root) refl refl
                (IsPublished-cong site.root root (publish fs plugin.id staging backup root) same (
                  publish-IsPublished fs plugin.id staging backup new apart root
                    (lookup-insert_same staging new site.root apart.same_staging)
                    (lookup-insert_other staging backup new site.root apart.staging_backup
                      ∙ fresh))))
      ]

-- Installing an unpacked plugin with a valid id, under a backup name that is free, succeeds only
-- with the new directory in place, no transaction directory left, the plugin cache dropped, and, in
-- memory and in the state file, a disabled policy with no grants and no config for the plugin in every application, all else
-- in the state as it was; and wherever it fails, the prior directory is in place, or the new one
-- where only the removal of the backup failed, or the prior one is in the backup where the file
-- system refused to put it back.
pub install_plugin-IsInstalled :
    (fs : FileSystem) (env : Env) (plugin : Plugin) (new : Directory) (token suffix : Str)
    (site : Site)
    → validate_id plugin.id ≡ ok tt
    → lookup (transaction_dir (codes "backup") plugin.id suffix) site.root ≡ none
    → IsInstalled fs plugin
        (staging_dir token)
        (transaction_dir (codes "backup") plugin.id suffix)
        new
        site
        (install_plugin fs env (unpacked plugin new) token suffix site)
unfolding install_plugin
install_plugin-IsInstalled fs env plugin new token suffix site valid fresh =
    commit_staged_plugin-IsInstalled fs env plugin new (staging_dir token)
      (transaction_dir (codes "backup") plugin.id suffix) site
      (install-AreApart plugin.id token suffix valid) fresh
