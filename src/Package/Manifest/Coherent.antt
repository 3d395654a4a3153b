-- ===== src/Package/Manifest/Coherent.antt =====
-- What a manifest says that crates/package/src/lib.rs accepts.
use tron_hawk.Common.{
  ◌≡◌, refl, Bool, true, false, not, ◌&&◌, Option, none, some, List, [], ◌∷◌, Str, codes, str_eq,
  contains_text, All, is_some, is_empty, trim, Result, ok, err, reject_if_ok, bind_ok, then_ok,
  err-ne-ok, not-false, arith,
}
use tron_hawk.Json.{Json}
use tron_hawk.Package.Paths.{Platform, normal_components}
use tron_hawk.Package.Identifiers.{IdError, validate_id, IsIdentifier, validate_id_iff}
use tron_hawk.Package.Manifest.{
  Manifest, Entry, Semver, known_permissions, manifest_of, check_permissions, check_entry_path,
  check_path_of, check_paths, entry_css, has_css, has_renderer, id_checked,
  validate_tronhawk_protocol, check_manifest, validate_manifest_schema_for_host,
}

-- No two of the texts are equal.
abbrev pub AreDifferent : List Str → Type 0
AreDifferent [] = Unit
AreDifferent (s ∷ texts) = All (λ t. str_eq s t ≡ false) texts × AreDifferent texts

abbrev pub IsKnown : Str → Type 0
IsKnown p = contains_text known_permissions p ≡ true

-- A path of an entry file leads down from the plugin's directory.
abbrev pub IsRelative : Platform → Option Str → Type 0
IsRelative platform none = Unit
IsRelative platform (some rel) =
    (is_empty rel ≡ false) × (is_some (normal_components platform rel) ≡ true)

abbrev pub AreRelative : Platform → Option Entry → Type 0
AreRelative platform none = Unit
AreRelative platform (some entry) =
    IsRelative platform entry.css
    × IsRelative platform entry.renderer
    × IsRelative platform entry.main

-- The rules that tie the parts of a manifest together.
abbrev pub IsCoherent : Semver → Platform → Str → Manifest → Type 0
IsCoherent semver platform host_version m =
    IsIdentifier m.id
    × (is_empty (trim m.name) ≡ false)
    × (semver.in_range m.tronhawk host_version ≡ true)
    × All IsKnown m.permissions
    × AreDifferent m.permissions
    × ((is_some m.css && entry_css m) ≡ false)
    × (has_css m ≡ true → contains_text m.permissions (codes "renderer.css") ≡ true)
    × (has_renderer m ≡ true → contains_text m.permissions (codes "renderer.script") ≡ true)
    × AreRelative platform m.entry

id_checked_ok : (r : Result IdError (Unit {0})) → id_checked r ≡ ok tt → r ≡ ok tt
id_checked_ok (ok tt) h = refl
id_checked_ok (err e) h = err-ne-ok h

pub unseen_cons :
    (p : Str) (seen permissions : List Str)
    → All (λ q. contains_text (p ∷ seen) q ≡ false) permissions
    → All (λ q. str_eq p q ≡ false) permissions
      × All (λ q. contains_text seen q ≡ false) permissions
unseen_cons p seen [] h = (tt, tt)
unseen_cons p seen (q ∷ permissions) h =
    let (apart, before) = unseen_cons p seen permissions h.1 in
    ((ground arith, apart), (ground arith, before))

check_permissions_sound :
    (seen permissions : List Str)
    → check_permissions seen permissions ≡ ok tt
    → All IsKnown permissions
      × AreDifferent permissions
      × All (λ p. contains_text seen p ≡ false) permissions
unfolding check_permissions
check_permissions_sound seen [] h = (tt, tt, tt)
check_permissions_sound seen (p ∷ permissions) h =
    let (tests, rest) = then_ok _ (check_permissions (p ∷ seen) permissions) tt h in
    let (known, new) = then_ok _ _ tt tests in
    let (all_known, different, unseen) = check_permissions_sound (p ∷ seen) permissions rest in
    let (apart, before) = unseen_cons p seen permissions unseen in
    (
      (not-false _ (reject_if_ok _ _ known), all_known),
      (apart, different),
      (reject_if_ok _ _ new, before),
    )

check_path_of_sound :
    (platform : Platform) (path : Option Str)
    → check_path_of platform path ≡ ok tt
    → IsRelative platform path
unfolding check_entry_path
check_path_of_sound platform none h = tt
check_path_of_sound platform (some rel) h =
    let (there, normal) = then_ok _ _ tt h in
    (reject_if_ok _ _ there, not-false _ (reject_if_ok _ _ normal))

check_paths_sound :
    (platform : Platform) (entry : Option Entry)
    → check_paths platform entry ≡ ok tt
    → AreRelative platform entry
check_paths_sound platform none h = tt
check_paths_sound platform (some entry) h =
    let (two, main) = then_ok _ _ tt h in
    let (css, renderer) = then_ok _ _ tt two in
    (
      check_path_of_sound platform entry.css css,
      check_path_of_sound platform entry.renderer renderer,
      check_path_of_sound platform entry.main main,
    )

-- Where something is there only with a permission.
needs :
    (there permitted : Bool) → (there && not permitted) ≡ false → there ≡ true → permitted ≡ true
needs there permitted h k = ground arith

check_manifest_sound :
    (semver : Semver) (platform : Platform) (host_version : Str) (m : Manifest)
    → check_manifest semver platform host_version m ≡ ok tt
    → IsCoherent semver platform host_version m
unfolding check_manifest validate_tronhawk_protocol
check_manifest_sound semver platform host_version m h =
    let (to_renderer, paths) = then_ok _ _ tt h in
    let (to_css, renderer) = then_ok _ _ tt to_renderer in
    let (to_sources, css) = then_ok _ _ tt to_css in
    let (to_permissions, sources) = then_ok _ _ tt to_sources in
    let (to_network, permissions) = then_ok _ _ tt to_permissions in
    let (to_config, network) = then_ok _ _ tt to_network in
    let (to_protocol, config) = then_ok _ _ tt to_config in
    let (to_version, protocol) = then_ok _ _ tt to_protocol in
    let (to_author, version) = then_ok _ _ tt to_version in
    let (to_name, author) = then_ok _ _ tt to_author in
    let (id, name) = then_ok _ _ tt to_name in
    let (known, different, unseen) = check_permissions_sound [] m.permissions permissions in
    let (to_host, range) = then_ok _ _ tt protocol in
    (
      (validate_id_iff m.id).0 (id_checked_ok (validate_id m.id) id),
      reject_if_ok _ _ name,
      not-false _ (reject_if_ok _ _ range),
      known,
      different,
      reject_if_ok _ _ sources,
      needs (has_css m) _ (reject_if_ok _ _ css),
      needs (has_renderer m) _ (reject_if_ok _ _ renderer),
      check_paths_sound platform m.entry paths,
    )

-- A manifest that is accepted has the typed form, and that is coherent: a valid id, a name, a protocol
-- range that has the host's version, known permissions without repetition, one source of CSS at most,
-- CSS only with `renderer.css`, a renderer only with `renderer.script`, and entry files below the
-- plugin's directory.
pub validate_manifest_schema-IsCoherent :
    (semver : Semver) (platform : Platform) (manifest : Json) (host_version : Str)
    → validate_manifest_schema_for_host semver platform manifest host_version ≡ ok tt
    → (m : Manifest) × (manifest_of manifest ≡ ok m) × IsCoherent semver platform host_version m
unfolding validate_manifest_schema_for_host
validate_manifest_schema-IsCoherent semver platform manifest host_version h =
    let (m, typed, checked) =
      bind_ok (manifest_of manifest) (check_manifest semver platform host_version) tt h in
    (m, typed, check_manifest_sound semver platform host_version m checked)
