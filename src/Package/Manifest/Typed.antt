-- ===== src/Package/Manifest/Typed.antt =====
-- The typed forms of a manifest's settings and allowlist in crates/package/src/lib.rs, as `serde`
-- derives them, behind the checks of `Config`.
pub mod Parsed
pub mod Allowlist
use tron_hawk.Common.{
  ℕ, Bool, true, false, Option, none, some, List, [], ◌∷◌, Str, codes, str_eq, lowercase, map,
  Result, ok, err, ◌>>=◌, ok_or, if◌then◌else◌,
}
use tron_hawk.Common.Map.{Map, lookup}
use tron_hawk.Json.{Json, null, string, array, object, field, end, items, entries}
use tron_hawk.Package.Plugin.{ConfigType, ConfigField, NetworkManifest, string, number, boolean}
use tron_hawk.Package.Manifest.{fields_of, optional_text, texts_field}
use tron_hawk.Package.Domains.{parse_domains}

abbrev pub type_of_name : Str → Option ConfigType
type_of_name s =
    if str_eq (codes "string") s
    then some ConfigType.string
    else if str_eq (codes "number") s
    then some ConfigType.number
    else if str_eq (codes "boolean") s
    then some ConfigType.boolean
    else none

-- A unit variant is its name, or an object with just that and null.
abbrev pub type_of_value : Option Json → Option ConfigType
type_of_value (some (Json.string s)) = type_of_name s
type_of_value (some (object (field s null end))) = type_of_name s
type_of_value _ = none

-- `Option<Value>`: null is none.
abbrev pub optional_value : Option Json → Option Json
optional_value none = none
optional_value (some null) = none
optional_value (some v) = some v

abbrev pub config_field_keys : List Str
config_field_keys = codes "type" ∷ codes "default" ∷ codes "label" ∷ []

-- `serde_json::from_value` of a `ConfigField`.
unfoldable pub config_field_of : Json → Result (Unit {0}) ConfigField
config_field_of value = do
  fields ← ok_or (fields_of config_field_keys value) tt
  field_type ← ok_or (type_of_value (lookup (codes "type") fields)) tt
  label ← ok_or (optional_text (lookup (codes "label") fields)) tt
  ok (record {
    field_type = field_type;
    default = optional_value (lookup (codes "default") fields);
    label = label;
  })

unfoldable pub config_of : Map Json → Result (Unit {0}) (Map ConfigField)
config_of [] = ok []
config_of ((key, value) ∷ fields) = do
  declared ← config_field_of value
  rest ← config_of fields
  ok ((key, declared) ∷ rest)

unfoldable pub parse_plugin_config : Option Json → Result (Unit {0}) (Map ConfigField)
parse_plugin_config none = ok []
parse_plugin_config (some null) = ok []
parse_plugin_config (some (object fs)) = config_of (entries fs)
parse_plugin_config (some _) = err tt

abbrev pub required_texts : Option Json → Option (List Str)
required_texts none = none
required_texts (some v) = texts_field (some v)

-- `serde_json::from_value` of a `NetworkManifest`, with the domains in lower case.
unfoldable pub network_of : Json → Result (Unit {0}) NetworkManifest
network_of value = do
  fields ← ok_or (fields_of (codes "domains" ∷ []) value) tt
  domains ← ok_or (required_texts (lookup (codes "domains") fields)) tt
  ok (record { domains = parse_domains domains })

unfoldable pub parse_network_manifest : Option Json → Result (Unit {0}) (Option NetworkManifest)
parse_network_manifest none = ok none
parse_network_manifest (some null) = ok none
parse_network_manifest (some value) = network_of value >>= λ network. ok (some network)
