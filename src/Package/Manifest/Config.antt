-- ===== src/Package/Manifest/Config.antt =====
-- The settings that a manifest declares, and its network allowlist: `validate_config_schema` and
-- `validate_network_schema` in crates/package/src/lib.rs.
use tron_hawk.Common.{
  ℕ, Bool, false, not, ◌&&◌, Option, none, some, List, [], ◌∷◌, Str, codes, str_eq, contains_text,
  all, is_empty, length, len, ltb, Result, ok, err, ◌>>=◌, ◌>>◌, reject_if, ok_or, if◌then◌else◌,
}
use tron_hawk.Common.Map.{Map, lookup}
use tron_hawk.Json.{Json, is_null, is_string, is_number, is_boolean, as_str, as_array, as_object}
use tron_hawk.Package.Identifiers.{IdError, validate_config_key}
use tron_hawk.Package.Domains.{DomainError, normalize_network_domain}

abbrev pub max_config_fields : ℕ
max_config_fields = 32

abbrev pub max_network_domains : ℕ
max_network_domains = 64

pub data ConfigError : Type 0 where
  config_not_object too_many_fields : ConfigError
  bad_key : Str → IdError → ConfigError
  not_declaration unknown_key : Str → ConfigError
  label_not_string label_too_long label_empty : Str → ConfigError
  type_missing type_reserved type_unsupported default_mismatch : Str → ConfigError

abbrev pub declaration_keys : List Str
declaration_keys = codes "type" ∷ codes "default" ∷ codes "label" ∷ []

-- The limit is in bytes.
abbrev pub check_label_value : Str → Option Json → Result ConfigError (Unit {0})
check_label_value key none = ok tt
check_label_value key (some label) = elim (as_str label) [
  | none ↦ err (label_not_string key)
  | some s ↦
      reject_if (ltb 64 (len s)) (label_too_long key) >> reject_if (is_empty s) (label_empty key)
]

abbrev pub is_scalar_type : Str → Bool
is_scalar_type declared =
    contains_text (codes "string" ∷ codes "number" ∷ codes "boolean" ∷ []) declared

unfoldable pub check_type : Str → Str → Result ConfigError (Unit {0})
check_type key declared =
    if is_scalar_type declared
    then ok tt
    else if contains_text (codes "object" ∷ codes "array" ∷ []) declared
    then err (type_reserved key)
    else err (type_unsupported key)

-- Whether a default has the declared type.
unfoldable pub has_declared_type : Str → Json → Bool
has_declared_type declared default =
    if str_eq (codes "string") declared
    then is_string default
    else if str_eq (codes "number") declared
    then is_number default
    else if str_eq (codes "boolean") declared
    then is_boolean default
    else false

abbrev pub check_default : Str → Str → Option Json → Result ConfigError (Unit {0})
check_default key declared none = ok tt
check_default key declared (some default) =
    reject_if (not (is_null default) && not (has_declared_type declared default))
      (default_mismatch key)

abbrev pub key_checked : Str → Result IdError (Unit {0}) → Result ConfigError (Unit {0})
key_checked key (ok u) = ok tt
key_checked key (err e) = err (bad_key key e)

-- One field of the schema.
unfoldable pub check_field : Str → Json → Result ConfigError (Unit {0})
check_field key field = do
  key_checked key (validate_config_key key)
  declaration ← ok_or (as_object field) (not_declaration key)
  reject_if (not (all (λ e. contains_text declaration_keys e.0) declaration)) (unknown_key key)
  check_label_value key (lookup (codes "label") declaration)
  type_value ← ok_or (lookup (codes "type") declaration) (type_missing key)
  declared ← ok_or (as_str type_value) (type_missing key)
  check_type key declared
  check_default key declared (lookup (codes "default") declaration)

unfoldable pub check_fields : Map Json → Result ConfigError (Unit {0})
check_fields [] = ok tt
check_fields ((key, field) ∷ fields) = check_field key field >> check_fields fields

unfoldable pub validate_config_schema : Json → Result ConfigError (Unit {0})
validate_config_schema config = do
  fields ← ok_or (as_object config) config_not_object
  reject_if (ltb max_config_fields (length fields)) too_many_fields
  check_fields fields

pub data NetworkError : Type 0 where
  network_not_object unknown_network_key domains_missing domains_not_array : NetworkError
  too_many_domains entry_not_string duplicate_entry : NetworkError
  bad_domain : DomainError → NetworkError

abbrev pub domain_checked : Result DomainError Str → Result NetworkError Str
domain_checked (ok s) = ok s
domain_checked (err e) = err (bad_domain e)

-- The loop over the domains; those before are `seen` in their normal form.
unfoldable pub check_domains : List Str → List Json → Result NetworkError (Unit {0})
check_domains seen [] = ok tt
check_domains seen (entry ∷ entries) = do
  text ← ok_or (as_str entry) entry_not_string
  normalized ← domain_checked (normalize_network_domain text)
  reject_if (contains_text seen normalized) duplicate_entry
  check_domains (normalized ∷ seen) entries

unfoldable pub validate_network_schema : Json → Result NetworkError (Unit {0})
validate_network_schema network = do
  fields ← ok_or (as_object network) network_not_object
  reject_if (not (all (λ e. str_eq (codes "domains") e.0) fields)) unknown_network_key
  domains_value ← ok_or (lookup (codes "domains") fields) domains_missing
  domains ← ok_or (as_array domains_value) domains_not_array
  reject_if (ltb max_network_domains (length domains)) too_many_domains
  check_domains [] domains
