-- ===== src/Package/Manifest.antt =====
-- `validate_manifest_schema_for_host` in crates/package/src/lib.rs: what a manifest may say. The typed
-- form is what `serde` derives for the structs `Manifest` and `Entry`; `Semver` is the semver crate.
pub mod Config
pub mod Coherent
pub mod Typed
use tron_hawk.Common.{
  ℕ, Bool, true, false, not, ◌&&◌, ◌||◌, Option, none, some, List, [], ◌∷◌, Str, codes, str_eq,
  contains_text, all, is_empty, is_some, trim, length, leb, Result, ok, err, ◌>>=◌, ◌>>◌, reject_if,
  ok_or, if◌then◌else◌,
}
use tron_hawk.Common.Map.{Map, lookup}
use tron_hawk.Json.{Json, Items, Fields, null, string, array, object, items, entries, is_null}
use tron_hawk.Package.Paths.{Platform, normal_components}
use tron_hawk.Package.Identifiers.{IdError, validate_id}
use tron_hawk.Package.Manifest.Config.{
  ConfigError, NetworkError, validate_config_schema, validate_network_schema,
}

pub record Entry : Type 0 where
  pub css : Option Str
  pub renderer : Option Str
  pub main : Option Str

pub record Manifest : Type 0 where
  pub id : Str
  pub name : Str
  pub version : Str
  pub author : Str
  pub tronhawk : Str
  pub permissions : List Str
  pub css : Option Str
  pub entry : Option Entry
  pub config : Json
  pub network : Json

-- The fields in the order of their struct, for a value that is an array.
abbrev pub by_position : List Str → List Json → Option (Map Json)
by_position names [] = some []
by_position [] (v ∷ vs) = none
by_position (name ∷ names) (v ∷ vs) = elim (by_position names vs) [
  | none ↦ none
  | some fields ↦ some ((name, v) ∷ fields)
]

-- The fields of a struct that denies unknown ones.
abbrev pub fields_of : List Str → Json → Option (Map Json)
fields_of names (object fs) =
    if all (λ e. contains_text names e.0) (entries fs) then some (entries fs) else none
fields_of names (array vs) = by_position names (items vs)
fields_of names _ = none

abbrev pub text_field : Option Json → Option Str
text_field (some (string s)) = some s
text_field _ = none

-- `Option<String>` with a default; the outer option is whether it decodes.
abbrev pub optional_text : Option Json → Option (Option Str)
optional_text none = some none
optional_text (some null) = some none
optional_text (some (string s)) = some (some s)
optional_text _ = none

abbrev pub texts_of : List Json → Option (List Str)
texts_of [] = some []
texts_of (string s ∷ vs) = elim (texts_of vs) [ none ↦ none | some rest ↦ some (s ∷ rest) ]
texts_of (_ ∷ vs) = none

abbrev pub texts_field : Option Json → Option (List Str)
texts_field none = some []
texts_field (some (array vs)) = texts_of (items vs)
texts_field _ = none

abbrev pub value_field : Option Json → Json
value_field none = null
value_field (some v) = v

abbrev pub entry_fields : List Str
entry_fields = codes "css" ∷ codes "renderer" ∷ codes "main" ∷ []

abbrev pub manifest_fields : List Str
manifest_fields =
    codes "id"
    ∷ codes "name"
    ∷ codes "version"
    ∷ codes "author"
    ∷ codes "tronhawk"
    ∷ codes "permissions"
    ∷ codes "css"
    ∷ codes "entry"
    ∷ codes "config"
    ∷ codes "network"
    ∷ []

abbrev pub known_permissions : List Str
known_permissions =
    codes "renderer.css"
    ∷ codes "renderer.script"
    ∷ codes "renderer.dom"
    ∷ codes "renderer.storage"
    ∷ codes "electron.window"
    ∷ codes "electron.windowControls"
    ∷ codes "electron.webContents"
    ∷ codes "electron.session"
    ∷ codes "electron.ipc"
    ∷ codes "network.access"
    ∷ codes "network.proxy"
    ∷ codes "runtime.unsafe"
    ∷ []

pub data ManifestError : Type 0 where
  bad_schema empty_author empty_manifest_name invalid_version : ManifestError
  invalid_range invalid_host incompatible : ManifestError
  bad_id : IdError → ManifestError
  bad_config : ConfigError → ManifestError
  bad_network : NetworkError → ManifestError
  unknown_permission duplicate_permission : Str → ManifestError
  two_css_sources css_without_permission renderer_without_permission : ManifestError
  empty_path unsafe_path : ManifestError

-- `serde_json::from_value` of an `Entry`.
unfoldable pub entry_of : Json → Result ManifestError Entry
entry_of value = do
  fields ← ok_or (fields_of entry_fields value) bad_schema
  css ← ok_or (optional_text (lookup (codes "css") fields)) bad_schema
  renderer ← ok_or (optional_text (lookup (codes "renderer") fields)) bad_schema
  main ← ok_or (optional_text (lookup (codes "main") fields)) bad_schema
  ok (record { css = css; renderer = renderer; main = main })

abbrev pub optional_entry : Option Json → Result ManifestError (Option Entry)
optional_entry none = ok none
optional_entry (some null) = ok none
optional_entry (some value) = entry_of value >>= λ entry. ok (some entry)

-- `serde_json::from_value` of a `Manifest`.
unfoldable pub manifest_of : Json → Result ManifestError Manifest
unfolding entry_of
manifest_of value = do
  fields ← ok_or (fields_of manifest_fields value) bad_schema
  id ← ok_or (text_field (lookup (codes "id") fields)) bad_schema
  name ← ok_or (text_field (lookup (codes "name") fields)) bad_schema
  version ← ok_or (text_field (lookup (codes "version") fields)) bad_schema
  author ← ok_or (text_field (lookup (codes "author") fields)) bad_schema
  tronhawk ← ok_or (text_field (lookup (codes "tronhawk") fields)) bad_schema
  permissions ← ok_or (texts_field (lookup (codes "permissions") fields)) bad_schema
  css ← ok_or (optional_text (lookup (codes "css") fields)) bad_schema
  entry ← optional_entry (lookup (codes "entry") fields)
  ok (record {
    id = id;
    name = name;
    version = version;
    author = author;
    tronhawk = tronhawk;
    permissions = permissions;
    css = css;
    entry = entry;
    config = value_field (lookup (codes "config") fields);
    network = value_field (lookup (codes "network") fields);
  })

-- What parses as a version and as a range, and whether a range has a version.
pub record Semver : Type 0 where
  pub is_version : Str → Bool
  pub is_range : Str → Bool
  pub in_range : Str → Str → Bool

unfoldable pub validate_tronhawk_protocol : Semver → Str → Str → Result ManifestError (Unit {0})
validate_tronhawk_protocol semver host_version tronhawk =
    reject_if (not (semver.is_range tronhawk)) invalid_range
    >> reject_if (not (semver.is_version host_version)) invalid_host
    >> reject_if (not (semver.in_range tronhawk host_version)) incompatible

unfoldable pub check_permissions : List Str → List Str → Result ManifestError (Unit {0})
check_permissions seen [] = ok tt
check_permissions seen (p ∷ permissions) =
    reject_if (not (contains_text known_permissions p)) (unknown_permission p)
    >> reject_if (contains_text seen p) (duplicate_permission p)
    >> check_permissions (p ∷ seen) permissions

unfoldable pub check_entry_path : Platform → Str → Result ManifestError (Unit {0})
check_entry_path platform rel =
    reject_if (is_empty rel) empty_path
    >> reject_if (not (is_some (normal_components platform rel))) unsafe_path

abbrev pub check_path_of : Platform → Option Str → Result ManifestError (Unit {0})
check_path_of platform none = ok tt
check_path_of platform (some rel) = check_entry_path platform rel

abbrev pub check_paths : Platform → Option Entry → Result ManifestError (Unit {0})
check_paths platform none = ok tt
check_paths platform (some entry) =
    check_path_of platform entry.css
    >> check_path_of platform entry.renderer
    >> check_path_of platform entry.main

abbrev pub entry_css : Manifest → Bool
entry_css m = elim m.entry [ none ↦ false | some entry ↦ is_some entry.css ]

abbrev pub has_css : Manifest → Bool
has_css m = is_some m.css || entry_css m

abbrev pub has_renderer : Manifest → Bool
has_renderer m = elim m.entry [ none ↦ false | some entry ↦ is_some entry.renderer ]

-- `if !value.is_null() { check(value)? }`
abbrev pub unless_null {ℓ} :
    {E : Type ℓ}
    → Json
    → (E → ManifestError)
    → Result E (Unit {0})
    → Result ManifestError (Unit {0})
unless_null null wrap checked = ok tt
unless_null _ wrap (ok u) = ok tt
unless_null _ wrap (err e) = err (wrap e)

abbrev pub id_checked : Result IdError (Unit {0}) → Result ManifestError (Unit {0})
id_checked (ok u) = ok tt
id_checked (err e) = err (bad_id e)

-- The rules on the typed manifest, in their order.
unfoldable pub check_manifest : Semver → Platform → Str → Manifest → Result ManifestError (Unit {0})
check_manifest semver platform host_version m =
    id_checked (validate_id m.id)
    >> reject_if (is_empty (trim m.name)) empty_manifest_name
    >> reject_if (is_empty (trim m.author)) empty_author
    >> reject_if (not (semver.is_version m.version)) invalid_version
    >> validate_tronhawk_protocol semver host_version m.tronhawk
    >> unless_null m.config bad_config (validate_config_schema m.config)
    >> unless_null m.network bad_network (validate_network_schema m.network)
    >> check_permissions [] m.permissions
    >> reject_if (is_some m.css && entry_css m) two_css_sources
    >> reject_if (has_css m && not (contains_text m.permissions (codes "renderer.css")))
        css_without_permission
    >> reject_if (has_renderer m && not (contains_text m.permissions (codes "renderer.script")))
        renderer_without_permission
    >> check_paths platform m.entry

unfoldable pub validate_manifest_schema_for_host :
    Semver → Platform → Json → Str → Result ManifestError (Unit {0})
validate_manifest_schema_for_host semver platform manifest host_version =
    manifest_of manifest >>= check_manifest semver platform host_version

abbrev pub host_protocol_version : Str
host_protocol_version = codes "0.1.1"

-- Against the protocol version of this host.
abbrev pub validate_manifest_schema : Semver → Platform → Json → Result ManifestError (Unit {0})
validate_manifest_schema semver platform manifest =
    validate_manifest_schema_for_host semver platform manifest host_protocol_version
