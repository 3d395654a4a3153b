-- ===== src/Package/Tests.antt =====
-- The properties of crates/package/src/lib.rs at concrete inputs.
mod Central
use tron_hawk.Common.{
  ◌≡◌, ◌≢◌, ◌≤◌, ◌↔◌, refl, codes, trim, split, join, bytes, ok, true, false, some, Option, List,
  [], ◌∷◌, map, str_eq, All, length, lowercase,
}
use tron_hawk.Common.Decimal.{parse_unsigned}
use tron_hawk.Common.Map.{Map, lookup, insert}
use tron_hawk.Json.{Json, string, number, array, object, nil, cons, end, field}
use tron_hawk.Package.Plugin.{ConfigField, NetworkManifest}
use tron_hawk.Package.Paths.{windows, normal_components}
use tron_hawk.Package.Archive.{
  segments_of, validate_archive_entry_name, safe_join, key_from, check_segment,
  is_windows_reserved_name,
}
use tron_hawk.Package.Archive.Names.{IsPlain, safe_join-validate_archive_entry_name}
use tron_hawk.Package.Archive.Scan.{
  ArchiveEntry, Scan, max_entries, max_total_size, scan_archive, scan_entries, scan_entry,
  check_sizes, track_entry_name,
}
use tron_hawk.Package.Archive.Scan.Contained.{
  IsHarmless, AreDistinct, sizes, place, scan_archive-IsHarmless,
}
use tron_hawk.Package.Archive.Install.{
  Source, ArchiveInspect, read_manifest, check_inspect_entry_presence, inspect_archive_for_host,
  plan_extraction,
}
use tron_hawk.Package.Archive.Install.Agree.{plan_extraction-inspect_archive}
use tron_hawk.Package.Manifest.{
  Manifest, Semver, host_protocol_version, manifest_of, check_manifest, check_permissions,
  check_entry_path, validate_tronhawk_protocol, validate_manifest_schema_for_host,
}
use tron_hawk.Package.Manifest.Coherent.{IsCoherent, validate_manifest_schema-IsCoherent}
use tron_hawk.Package.Manifest.Config.{
  validate_config_schema, check_fields, check_field, check_type, has_declared_type,
  validate_network_schema, check_domains,
}
use tron_hawk.Package.Manifest.Typed.{parse_plugin_config, parse_network_manifest}
use tron_hawk.Package.Manifest.Typed.Parsed.{IsSetting, parse_plugin_config-validate_config_schema}
use tron_hawk.Package.Manifest.Typed.Allowlist.{
  IsAllowlist, parse_network_manifest-validate_network_schema,
}
use tron_hawk.Package.Identifiers.{validate_id, validate_config_key, IsIdentifier, validate_id_iff}
use tron_hawk.Package.Domains.{normalize_network_domain}
use tron_hawk.Package.Domains.Canonical.{IsCanonical, normalize_network_domain-IsCanonical}

normalize_network_domain-IsCanonical_example :
    IsCanonical (trim (codes " *.A.b:80")) (codes "*.a.b:80")
unfolding normalize_network_domain trim split bytes parse_unsigned
normalize_network_domain-IsCanonical_example =
    normalize_network_domain-IsCanonical (codes " *.A.b:80") (codes "*.a.b:80") refl

safe_join-validate_archive_entry_name_example :
    (safe_join windows (codes "plugins" ∷ []) (codes "Dist\\Main.js")
      ≡ ok (codes "plugins" ∷ codes "Dist" ∷ codes "Main.js" ∷ []))
    × (segments_of (codes "Dist\\Main.js") ≢ [])
    × All IsPlain (segments_of (codes "Dist\\Main.js"))
    × (codes "dist/main.js" ≡ join b'/' (map lowercase (segments_of (codes "Dist\\Main.js"))))
unfolding validate_archive_entry_name split key_from check_segment is_windows_reserved_name str_eq
safe_join-validate_archive_entry_name_example =
    safe_join-validate_archive_entry_name windows (codes "plugins" ∷ []) (codes "Dist\\Main.js")
      (codes "dist/main.js") refl

abbrev semver : Semver
semver = record { is_version = λ s. true; is_range = λ s. true; in_range = λ r v. true }

abbrev manifest : Json
manifest = object (
    field (codes "id") (string (codes "a.b")) (
      field (codes "name") (string (codes "N")) (
        field (codes "version") (string (codes "1.0.0")) (
          field (codes "author") (string (codes "A")) (
            field (codes "tronhawk") (string (codes "^0.1")) (
              field (codes "permissions") (array (cons (string (codes "renderer.script")) nil)) (
                field (codes "entry")
                  (object (field (codes "renderer") (string (codes "dist/Main.js")) end)) end)))))))

abbrev listed : List ArchiveEntry
listed =
    record { name = codes "manifest.json"; size = 200; compressed_size = 90 }
    ∷ record { name = codes "dist/"; size = 0; compressed_size = 0 }
    ∷ record { name = codes "dist/Main.js"; size = 500; compressed_size = 5 }
    ∷ []

abbrev source : Source
source = record { repeats_name = false; listed = listed; parsed = λ entry. some manifest }

validate_manifest_schema-IsCoherent_example :
    (m : Manifest) × (manifest_of manifest ≡ ok m)
    × IsCoherent semver windows host_protocol_version m
unfolding validate_manifest_schema_for_host manifest_of str_eq lookup check_manifest validate_id
    bytes split trim validate_tronhawk_protocol check_permissions check_entry_path normal_components
validate_manifest_schema-IsCoherent_example =
    validate_manifest_schema-IsCoherent semver windows manifest host_protocol_version refl

abbrev scanned : Scan
scanned = record {
  total = 700;
  total_compressed = 95;
  seen_names =
      (codes "manifest.json", codes "manifest.json")
      ∷ (codes "dist", codes "dist/")
      ∷ (codes "dist/main.js", codes "dist/Main.js")
      ∷ [];
  planned =
      (codes "to" ∷ codes "manifest.json" ∷ [])
      ∷ (codes "to" ∷ codes "dist" ∷ [])
      ∷ (codes "to" ∷ codes "dist" ∷ codes "Main.js" ∷ [])
      ∷ [];
  names = codes "manifest.json" ∷ codes "dist/" ∷ codes "dist/Main.js" ∷ [];
}

scan_archive-IsHarmless_example :
    (length listed ≤ max_entries)
    × (sizes listed ≤ max_total_size)
    × All IsHarmless listed
    × AreDistinct listed
    × (scanned.planned ≡ map (place (codes "to" ∷ [])) listed)
unfolding scan_archive scan_entries scan_entry check_sizes validate_archive_entry_name split
    key_from check_segment is_windows_reserved_name str_eq track_entry_name lookup safe_join
    normal_components insert
scan_archive-IsHarmless_example =
    scan_archive-IsHarmless windows (codes "to" ∷ []) listed scanned refl

abbrev report : ArchiveInspect
report = record { manifest = manifest; names = scanned.names; total_uncompressed = 700 }

plan_extraction-inspect_archive_example :
    (plan_extraction semver windows source host_protocol_version (codes "to" ∷ [])
      ≡ ok (map (place (codes "to" ∷ [])) listed))
    × All IsHarmless listed
    × AreDistinct listed
    × (sizes listed ≤ max_total_size)
unfolding inspect_archive_for_host read_manifest check_inspect_entry_presence
    validate_manifest_schema_for_host manifest_of str_eq lookup check_manifest validate_id bytes
    split trim validate_tronhawk_protocol check_permissions check_entry_path normal_components
    scan_entries scan_entry check_sizes validate_archive_entry_name key_from check_segment
    is_windows_reserved_name track_entry_name safe_join insert
plan_extraction-inspect_archive_example =
    plan_extraction-inspect_archive semver windows source host_protocol_version (codes "to" ∷ [])
      report refl

abbrev config : Json
config = object (
    field (codes "size")
      (object (
        field (codes "type") (string (codes "number")) (
          field (codes "default") (number (codes "4"))
            (field (codes "label") (string (codes "Size")) end))))
      end)

parse_plugin_config-validate_config_schema_example :
    (settings : Map ConfigField) × (parse_plugin_config (some config) ≡ ok settings)
    × All IsSetting settings
unfolding validate_config_schema check_fields check_field validate_config_key bytes split str_eq
    lookup check_type has_declared_type
parse_plugin_config-validate_config_schema_example =
    parse_plugin_config-validate_config_schema config refl

abbrev network : Json
network = object (
    field (codes "domains")
      (array (cons (string (codes "A.example.com")) (cons (string (codes "*.b.org:8443")) nil)))
      end)

parse_network_manifest-validate_network_schema_example :
    (typed : Option NetworkManifest) × (parse_network_manifest (some network) ≡ ok typed)
    × IsAllowlist typed
unfolding validate_network_schema str_eq lookup check_domains normalize_network_domain trim split
    bytes parse_unsigned
parse_network_manifest-validate_network_schema_example =
    parse_network_manifest-validate_network_schema network refl
