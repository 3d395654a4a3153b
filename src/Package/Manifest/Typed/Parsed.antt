-- ===== src/Package/Manifest/Typed/Parsed.antt =====
-- In crates/package/src/lib.rs, settings and allowlists that validate have their typed form.
use tron_hawk.Common.{
  ◌≤◌, ◌≡◌, refl, sym, ap, ◌∙◌, true, false, not, Option, none, some, [], ◌∷◌, Str, codes, str_eq,
  contains_text, all, All, is_empty, len, ltb, Result, ok, err, reject_if, reject_if_ok, bind_ok,
  then_ok, err-ne-ok, ok_or, not-false, Bool-cases, inl, inr, arith,
}
use tron_hawk.Common.Map.{Map, lookup}
use tron_hawk.Json.{Json, Fields, null, string, array, object, boolean, number, entries, as_str}
use tron_hawk.Package.Plugin.{ConfigType, ConfigField, matches_type}
use tron_hawk.Package.Identifiers.{
  IdError, validate_config_key, IsIdentifier, validate_id_iff, validate_config_key-validate_id,
}
use tron_hawk.Package.Manifest.{optional_text}
use tron_hawk.Package.Manifest.Config.{
  ConfigError, declaration_keys, check_label_value, check_type, has_declared_type, check_default,
  key_checked, check_field, check_fields, validate_config_schema,
}
use tron_hawk.Package.Manifest.Typed.{
  type_of_name, optional_value, config_field_of, config_of, parse_plugin_config,
}

abbrev pub IsLabel : Option Str → Type 0
IsLabel none = Unit
IsLabel (some s) = (len s ≤ 64) × (is_empty s ≡ false)

abbrev pub IsDefault : ConfigType → Option Json → Type 0
IsDefault t none = Unit
IsDefault t (some v) = matches_type t v ≡ true

-- A setting with a valid key, whose default is of its type and whose label is short and not empty.
abbrev pub IsSetting : Str × ConfigField → Type 0
IsSetting (key, f) = IsIdentifier key × IsDefault f.field_type f.default × IsLabel f.label

check_type-type_of_name :
    (key declared : Str)
    → check_type key declared ≡ ok tt
    → (t : ConfigType) × (type_of_name declared ≡ some t)
      × ((v : Json) → has_declared_type declared v ≡ matches_type t v)
unfolding check_type has_declared_type
check_type-type_of_name key declared h = elim (Bool-cases (str_eq (codes "string") declared)) [
  | inl s ↦ (ConfigType.string, rw s refl, λ v. rw (has_declared_type, s) refl)
  | inr s ↦ elim (Bool-cases (str_eq (codes "number") declared)) [
    | inl n ↦ (ConfigType.number, rw (s, n) refl, λ v. rw (has_declared_type, s, n) refl)
    | inr n ↦ elim (Bool-cases (str_eq (codes "boolean") declared)) [
      | inl b ↦ (ConfigType.boolean, rw (s, n, b) refl, λ v. rw (has_declared_type, s, n, b) refl)
      | inr b ↦ elim (Bool-cases (contains_text (codes "object" ∷ codes "array" ∷ []) declared)) [
        | inl reserved ↦ err-ne-ok (rw (s, n, b, reserved, check_type) at h)
        | inr foreign ↦ err-ne-ok (rw (s, n, b, foreign, check_type) at h)
      ]
    ]
  ]
]

check_label_value-optional_text :
    (key : Str) (o : Option Json)
    → check_label_value key o ≡ ok tt
    → (l : Option Str) × (optional_text o ≡ some l) × IsLabel l
check_label_value-optional_text key none h = (none, refl, tt)
check_label_value-optional_text key (some null) h = err-ne-ok h
check_label_value-optional_text key (some (boolean b)) h = err-ne-ok h
check_label_value-optional_text key (some (number n)) h = err-ne-ok h
check_label_value-optional_text key (some (array vs)) h = err-ne-ok h
check_label_value-optional_text key (some (object fs)) h = err-ne-ok h
check_label_value-optional_text key (some (string s)) h =
    let (short, there) = then_ok _ _ tt h in
    let bound : ltb 64 (len s) ≡ false = reject_if_ok _ _ short in
    (some s, refl, (ground arith, reject_if_ok _ _ there))

module _ (key declared : Str) (t : ConfigType)
    (agrees : (v : Json) → has_declared_type declared v ≡ matches_type t v) where
  default_matches :
      (v : Json)
      → reject_if (not (has_declared_type declared v)) (ConfigError.default_mismatch key) ≡ ok tt
      → matches_type t v ≡ true
  default_matches v h = sym (agrees v) ∙ not-false _ (reject_if_ok _ _ h)

  check_default-optional_value :
      (o : Option Json) → check_default key declared o ≡ ok tt → IsDefault t (optional_value o)
  check_default-optional_value none h = tt
  check_default-optional_value (some null) h = tt
  check_default-optional_value (some (boolean b)) h = default_matches (boolean b) h
  check_default-optional_value (some (number n)) h = default_matches (number n) h
  check_default-optional_value (some (string s)) h = default_matches (string s) h
  check_default-optional_value (some (array vs)) h = default_matches (array vs) h
  check_default-optional_value (some (object fs)) h = default_matches (object fs) h

key_checked_ok : (key : Str) (r : Result IdError (Unit {0})) → key_checked key r ≡ ok tt → r ≡ ok tt
key_checked_ok key (ok tt) h = refl
key_checked_ok key (err e) h = err-ne-ok h

ok_or_ok :
    {A : Type 0} (o : Option A) (e : ConfigError) (a : A)
    → Path (Result ConfigError A) (ok_or o e) (ok a)
    → o ≡ some a
ok_or_ok none e a h = err-ne-ok h
ok_or_ok (some b) e a h = let same : b ≡ a = cc h in ap some same

as_str_string : (v : Json) (s : Str) → as_str v ≡ some s → v ≡ string s
as_str_string (string t) s h = let same : t ≡ s = cc h in ap string same
as_str_string null s h = absurd (cc h)
as_str_string (boolean b) s h = absurd (cc h)
as_str_string (number n) s h = absurd (cc h)
as_str_string (array vs) s h = absurd (cc h)
as_str_string (object fs) s h = absurd (cc h)

config_field_of-object :
    (fs : Fields) (type_value : Json) (declared : Str) (t : ConfigType) (l : Option Str)
    → all (λ e. contains_text declaration_keys e.0) (entries fs) ≡ true
    → lookup (codes "type") (entries fs) ≡ some type_value
    → type_value ≡ string declared
    → type_of_name declared ≡ some t
    → optional_text (lookup (codes "label") (entries fs)) ≡ some l
    → config_field_of (object fs)
      ≡ ok (record {
        field_type = t;
        default = optional_value (lookup (codes "default") (entries fs));
        label = l;
      })
unfolding config_field_of
config_field_of-object fs type_value declared t l known there text named labels =
    rw (config_field_of, known, there, text, named, labels) refl

-- A declaration that is checked has its typed form.
check_field-config_field_of :
    (key : Str) (value : Json)
    → check_field key value ≡ ok tt
    → (f : ConfigField) × (config_field_of value ≡ ok f) × IsSetting (key, f)
unfolding check_field config_field_of
check_field-config_field_of key null h = err-ne-ok (then_ok _ _ tt h).1
check_field-config_field_of key (boolean b) h = err-ne-ok (then_ok _ _ tt h).1
check_field-config_field_of key (number n) h = err-ne-ok (then_ok _ _ tt h).1
check_field-config_field_of key (string s) h = err-ne-ok (then_ok _ _ tt h).1
check_field-config_field_of key (array vs) h = err-ne-ok (then_ok _ _ tt h).1
check_field-config_field_of key (object fs) h =
    let (identified, h1) = then_ok (key_checked key (validate_config_key key)) _ tt h in
    let (unknown, h2) = then_ok _ _ tt h1 in
    let (labelled, h3) = then_ok _ _ tt h2 in
    let (type_value, has_type, h4) =
      bind_ok (ok_or (lookup (codes "type") (entries fs)) (ConfigError.type_missing key)) _ tt h3 in
    let (declared, is_text, h5) =
      bind_ok (ok_or (as_str type_value) (ConfigError.type_missing key)) _ tt h4 in
    let (typed, defaulted) = then_ok (check_type key declared) _ tt h5 in
    let (t, named, agrees) = check_type-type_of_name key declared typed in
    let (l, labels, good) =
      check_label_value-optional_text key (lookup (codes "label") (entries fs)) labelled in
    let all_known = not-false _ (reject_if_ok _ _ unknown) in
    let there = ok_or_ok (lookup (codes "type") (entries fs)) _ type_value has_type in
    let text =
      as_str_string type_value declared (ok_or_ok (as_str type_value) _ declared is_text) in
    (
      record {
        field_type = t;
        default = optional_value (lookup (codes "default") (entries fs));
        label = l;
      },
      config_field_of-object fs type_value declared t l all_known there text named labels,
      (
        (validate_id_iff key).0 (
            sym (validate_config_key-validate_id key)
            ∙ key_checked_ok key (validate_config_key key) identified),
        check_default-optional_value key declared t agrees (lookup (codes "default") (entries fs))
            defaulted,
        good,
      ),
    )

check_fields-config_of :
    (fields : Map Json)
    → check_fields fields ≡ ok tt
    → (settings : Map ConfigField) × (config_of fields ≡ ok settings) × All IsSetting settings
unfolding check_fields config_of
check_fields-config_of [] h = ([], refl, tt)
check_fields-config_of ((key, value) ∷ fields) h =
    let (checked, rest) = then_ok (check_field key value) _ tt h in
    let (f, typed, setting) = check_field-config_field_of key value checked in
    let (settings, all_typed, all_settings) = check_fields-config_of fields rest in
    ((key, f) ∷ settings, rw (config_of, typed, all_typed) refl, (setting, all_settings))

-- A config schema that validates has its typed form: settings with valid keys, each of a scalar type,
-- with a default of that type if any, and a label of 1 to 64 bytes if any.
pub parse_plugin_config-validate_config_schema :
    (config : Json)
    → validate_config_schema config ≡ ok tt
    → (settings : Map ConfigField) × (parse_plugin_config (some config) ≡ ok settings)
      × All IsSetting settings
unfolding validate_config_schema parse_plugin_config
parse_plugin_config-validate_config_schema null h = err-ne-ok h
parse_plugin_config-validate_config_schema (boolean b) h = err-ne-ok h
parse_plugin_config-validate_config_schema (number n) h = err-ne-ok h
parse_plugin_config-validate_config_schema (string s) h = err-ne-ok h
parse_plugin_config-validate_config_schema (array vs) h = err-ne-ok h
parse_plugin_config-validate_config_schema (object fs) h =
    check_fields-config_of (entries fs) (then_ok _ _ tt h).1
