-- ===== src/Daemon/Install/Kept.antt =====
-- Installations and removals of crates/core/src/daemon.rs keep the invariant of the policies.
use tron_hawk.Common.{
  ◌≡◌, refl, sym, ◌∙◌, false, arith, err-ne-ok, none, List, Str, ok, err, Option-cases,
  Result-cases, inl, inr,
}
use mathlib.Core.Path.{subst}
use tron_hawk.Common.Map.{insert, remove, AllValues-insert, AllValues-remove, AllValues-map_values}
use tron_hawk.Package.Plugin.{Plugin}
use tron_hawk.Daemon.State.{default_policy, DaemonState, Core, internal, Env, commit_state}
use tron_hawk.Daemon.Installed.{installed_plugins}
use tron_hawk.Daemon.Installed.Cache.{installed_plugins_keeps}
use tron_hawk.Daemon.Handlers.{Answer, set_plugins, find_plugin}
use tron_hawk.Daemon.Handlers.Invariant.{
  IsPolicy, IsApplication, IsValid, IsSound, append-IsSound, IsSound-cong,
}
use tron_hawk.Daemon.Handlers.Kept.{default-IsPolicy}
use tron_hawk.Daemon.Install.{
  Root, FileSystem, Moved, Cleared, Outcome, Site, Extraction, unpacked, refused, published,
  with_default, without_plugin, commit_staged_plugin, reported, install_plugin, finish_removal,
  after_staging, remove_found, removing, remove_plugin,
}

with_default-IsValid :
    (id : Str) (state : DaemonState) → IsValid state → IsValid (with_default id state)
unfolding with_default
with_default-IsValid id state h =
    let mode = state.global.developer_mode in
    AllValues-map_values (IsApplication mode) (IsApplication mode)
      (λ application. set_plugins (insert id default_policy application.plugins) application)
      (λ application valid. (
        valid.0,
        AllValues-insert (IsPolicy application.support_level mode) id default_policy
            application.plugins (default-IsPolicy application.support_level mode) valid.1,
      ))
      state.applications h

without_plugin-IsValid :
    (id : Str) (state : DaemonState) → IsValid state → IsValid (without_plugin id state)
unfolding without_plugin
without_plugin-IsValid id state h =
    let mode = state.global.developer_mode in
    AllValues-map_values (IsApplication mode) (IsApplication mode)
      (λ application. set_plugins (remove id application.plugins) application)
      (λ application valid. (
        valid.0,
        AllValues-remove (IsPolicy application.support_level mode) id application.plugins valid.1,
      ))
      state.applications h

commit_state-IsSound :
    (env : Env) (next : DaemonState) (core after : Core)
    → commit_state env next core ≡ ok after
    → IsValid next
    → IsSound after
unfolding commit_state
commit_state-IsSound env next core after h valid = elim (Result-cases (env.write next)) [
  | inr (message, e) ↦
      let failed : commit_state env next core ≡ err (internal message) = rw (commit_state, e) in
      err-ne-ok (sym failed ∙ h)
  | inl (done, e) ↦
      let stored : Core = record core { state = next; disk = next } in
      let done_too : commit_state env next core ≡ ok stored = rw (commit_state, e) in
      let same : stored ≡ after = ground arith in subst IsSound (same) (valid, refl)
]

published-IsSound :
    (fs : FileSystem) (id staging backup : Str) (core : Core) (cleared : Cleared)
    → IsSound core
    → IsSound (published fs id staging backup core cleared).1.core
published-IsSound fs id staging backup core (ok u, root) h = h
published-IsSound fs id staging backup core (err e, root) h = h

reported-IsSound :
    (env : Env) (plugin : Plugin) (outcome : Outcome (Unit {0}))
    → IsSound outcome.1.core
    → IsSound (reported env plugin outcome).1.core
reported-IsSound env plugin (ok u, site) h = append-IsSound env _ _ _ _ site.core h
reported-IsSound env plugin (err e, site) h = h

commit_staged_plugin-IsSound :
    (fs : FileSystem) (id staging backup : Str) (env : Env) (site : Site)
    → IsSound site.core
    → IsSound (commit_staged_plugin fs id staging backup env false site).1.core
unfolding commit_staged_plugin
commit_staged_plugin-IsSound fs id staging backup env site h =
    let next = with_default id site.core.state in
    elim (Result-cases (commit_state env next site.core)) [
      | inr (e, failed) ↦ rw (commit_staged_plugin, failed) h
      | inl (core, done) ↦
          rw (commit_staged_plugin, done)
            (published-IsSound fs id staging backup core _ (
              commit_state-IsSound env next site.core core done
                (with_default-IsValid id site.core.state h.0)))
    ]

-- An installation keeps a sound state sound, whatever becomes of it.
pub install_plugin-IsSound :
    (fs : FileSystem) (env : Env) (extraction : Extraction) (token suffix : Str) (site : Site)
    → IsSound site.core
    → IsSound (install_plugin fs env extraction token suffix site).1.core
unfolding install_plugin
install_plugin-IsSound fs env (refused message debris) token suffix site h = h
install_plugin-IsSound fs env (unpacked plugin directory) token suffix site h =
    reported-IsSound env plugin _
      (commit_staged_plugin-IsSound fs plugin.id _ _ env (record site { root = _ }) h)

module _ (fs : FileSystem) (env : Env) (suffix : Str) where
  finish_removal-IsSound :
      (plugin : Plugin) (trash : Str) (core : Core) (root : Root)
      → IsSound core
      → IsSound (finish_removal fs env plugin trash core root).1.core
  unfolding finish_removal
  finish_removal-IsSound plugin trash core root h =
      let next = without_plugin plugin.id core.state in
      elim (Result-cases (commit_state env next core)) [
        | inr (e, failed) ↦ rw (finish_removal, failed) h
        | inl (after, done) ↦
            rw (finish_removal, done)
              (append-IsSound env _ _ _ _ after (
                commit_state-IsSound env next core after done
                  (without_plugin-IsValid plugin.id core.state h.0)))
      ]

  after_staging-IsSound :
      (plugin : Plugin) (trash : Str) (core : Core) (moved : Moved)
      → IsSound core
      → IsSound (after_staging fs env plugin trash core moved).1.core
  after_staging-IsSound plugin trash core (ok u, root) h =
      finish_removal-IsSound plugin trash (record core { plugin_cache = none }) root h
  after_staging-IsSound plugin trash core (err message, root) h = h

  removing-IsSound :
      (id : Str) (root : Root) (answer : Answer (List Plugin))
      → IsSound answer.1
      → IsSound (removing fs env suffix id root answer).1.core
  unfolding remove_found
  removing-IsSound id root (err e, core) h = h
  removing-IsSound id root (ok plugins, core) h = elim (Option-cases (find_plugin id plugins)) [
    | inl missing ↦ rw (removing, missing) h
    | inr (plugin, found) ↦
        rw (removing, found, remove_found) (after_staging-IsSound plugin _ core _ h)
  ]

  -- A removal keeps a sound state sound, whatever becomes of it.
  pub remove_plugin-IsSound :
      (id : Str) (site : Site)
      → IsSound site.core
      → IsSound (remove_plugin fs env suffix id site).1.core
  unfolding remove_plugin
  remove_plugin-IsSound id site h =
      let (s, d, drops) = installed_plugins_keeps env site.core in
      removing-IsSound id site.root (installed_plugins env site.core)
        (IsSound-cong site.core (installed_plugins env site.core).1 s d h)
