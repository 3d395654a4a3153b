-- ===== src/Package/Domains.antt =====
-- The entries of `network.domains` in crates/package/src/lib.rs. The messages of the errors are
-- constructors here.
pub mod Canonical
use tron_hawk.Common.{
  ℕ, Bool, true, false, not, ◌&&◌, ◌||◌, Option, none, some, List, [], ◌∷◌, ◌++◌, map, Str, codes,
  is_digit, is_alphanumeric, lowercase, contains, contains_str, starts_with, ends_with_char, last?,
  trim, split, is_empty, len, length, drop, ltb, all, any, contains_text, Result, ok, err, ◌>>=◌,
  ◌>>◌, reject_if, ◌==◌, if◌then◌else◌,
}
use tron_hawk.Common.Decimal.{parse_unsigned, max_u16, max_u8}
use tron_hawk.Common.Map.{contains_key}
use tron_hawk.Json.{Json, null, string, as_object, as_array, as_str, get}

pub data DomainError : Type 0 where
  empty_entry has_scheme has_path has_credentials ip_literal ipv6_syntax empty_host : DomainError
  empty_port invalid_port : DomainError
  stray_star empty_wildcard bare_wildcard four_octets invalid_ipv4 : DomainError
  hostname_too_long empty_label label_too_long label_end label_character : DomainError

-- The first and the last byte of a label are letters or digits.
abbrev pub is_end : Option ℕ → Bool
is_end none = false
is_end (some c) = is_alphanumeric c

abbrev pub first : Str → Option ℕ
first [] = none
first (c ∷ s) = some c

unfoldable pub check_label : Str → Result DomainError (Unit {0})
check_label label =
    reject_if (is_empty label) empty_label
    >> reject_if (ltb 63 (len label)) label_too_long
    >> reject_if (not (is_end (first label)) || not (is_end (last? label))) label_end
    >> reject_if (not (all (λ c. is_alphanumeric c || c == b'-') label)) label_character

unfoldable pub check_labels : List Str → Result DomainError (Unit {0})
unfolding check_label
check_labels [] = ok tt
check_labels (label ∷ labels) = check_label label >> check_labels labels

unfoldable pub validate_hostname_labels : Str → Result DomainError (Unit {0})
unfolding check_labels
validate_hostname_labels host =
    reject_if (ltb 253 (len host)) hostname_too_long
    >> reject_if
        (starts_with host (codes ".") || ends_with_char b'.' host || contains_str (codes "..") host)
        empty_label
    >> check_labels (split b'.' host)

unfoldable pub check_octets : List Str → Result DomainError (Unit {0})
check_octets [] = ok tt
check_octets (octet ∷ octets) =
    let rest = check_octets octets in
    reject_if (is_empty octet || ltb 3 (len octet) || not (all is_digit octet)) invalid_ipv4
    >> (elim (parse_unsigned max_u8 octet) [ none ↦ err invalid_ipv4 | some n ↦ rest ])

abbrev pub is_wildcard : Str → Bool
is_wildcard host = starts_with host (codes "*.")

abbrev pub base_of : Str → Str
base_of host = if is_wildcard host then drop 2 host else host

-- A dotted text of digits has to be an IPv4 address.
abbrev pub ipv4_candidate : Str → Bool
ipv4_candidate host =
    not (is_wildcard host)
    && contains b'.' (base_of host)
    && all (λ c. is_digit c || c == b'.') (base_of host)

unfoldable pub normalize_network_host : Str → Result DomainError Str
unfolding validate_hostname_labels check_octets
normalize_network_host host =
    reject_if (contains b'*' (base_of host)) stray_star
    >> reject_if (is_wildcard host && is_empty (base_of host)) empty_wildcard
    >> reject_if (is_wildcard host && not (contains b'.' (base_of host))) bare_wildcard
    >>= λ _.
        (if ipv4_candidate host
          then reject_if (not (length (split b'.' (base_of host)) == 4)) four_octets
            >> check_octets (split b'.' (base_of host))
          else validate_hostname_labels (base_of host))
        >>= λ _. ok host

-- The host and the port; a second `:` is refused.
abbrev pub host_and_port : List Str → Result DomainError (Str × Option Str)
host_and_port [] = ok ([], none)
host_and_port (host ∷ []) = ok (host, none)
host_and_port (host ∷ port ∷ []) = ok (host, some port)
host_and_port (host ∷ port ∷ _ ∷ _) = err ipv6_syntax

unfoldable pub check_port : Str → Result DomainError (Unit {0})
check_port port =
    reject_if (is_empty port) empty_port
    >> reject_if (ltb 5 (len port) || not (all is_digit port)) invalid_port
    >> (elim (parse_unsigned max_u16 port) [
      | none ↦ err invalid_port
      | some number ↦ reject_if (number == 0) invalid_port
    ])

-- The host, in lower case, with the port put back.
abbrev pub with_port : Str → Option Str → Result DomainError Str
with_port host none = ok host
with_port host (some port) = check_port port >>= λ _. ok (host ++ (b':' ∷ port))

-- The parts of an entry that has none of the forms that are refused.
unfoldable pub entry_parts : Str → Result DomainError (Str × Option Str)
entry_parts entry =
    reject_if (is_empty entry) empty_entry
    >> reject_if (contains_str (codes "://") entry) has_scheme
    >> reject_if (contains b'/' entry) has_path
    >> reject_if (contains b'@' entry) has_credentials
    >> reject_if (starts_with entry (codes "[")) ip_literal
    >> host_and_port (split b':' entry)

unfoldable pub normalize_parts : Str × Option Str → Result DomainError Str
unfolding normalize_network_host check_port
normalize_parts parts =
    reject_if (is_empty parts.0) empty_host
    >> normalize_network_host (lowercase parts.0)
    >>= λ host. with_port host parts.1

unfoldable pub normalize_network_domain : Str → Result DomainError Str
unfolding entry_parts normalize_parts
normalize_network_domain entry = entry_parts (trim entry) >>= normalize_parts

-- `parse_network_manifest` puts the domains in lower case, as they were written.
abbrev pub parse_domains : List Str → List Str
parse_domains domains = map lowercase domains
