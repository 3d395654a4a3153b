-- ===== src/Daemon/Network/Domains.antt =====
-- `domain_allows` of crates/core/src/daemon.rs. Its tests on bytes are on characters here: the two
-- agree, since `.` is one byte and the host ends with the base.
use tron_hawk.Common.{
  ℕ, zero, suc, ◌-◌, Bool, true, false, ◌&&◌, Option, none, some, List, [], ◌∷◌, Str, codes, str_eq,
  strip_prefix, rsplit_once, length, drop, any, ltb, leb, ◌==◌,
}
use tron_hawk.Common.Decimal.{parse_unsigned, max_u16}

abbrev pub get_elem? : Str → ℕ → Option ℕ
get_elem? [] n = none
get_elem? (c ∷ s) zero = some c
get_elem? (c ∷ s) (suc n) = get_elem? s n

-- `str::ends_with`
unfoldable pub ends_with : Str → Str → Bool
ends_with s t = leb (length t) (length s) && str_eq (drop (length s - length t) s) t

-- The host of an entry, and its port; a port that does not parse is no port.
unfoldable pub split_domain_entry : Str → Str × Option ℕ
split_domain_entry entry = elim (rsplit_once b':' entry) [
  | none ↦ (entry, none)
  | some (host, port) ↦ (host, parse_unsigned max_u16 port)
]

abbrev pub is_char : Option ℕ → ℕ → Bool
is_char none c = false
is_char (some d) c = d == c

unfoldable pub host_allows : Str → Str → Bool
unfolding ends_with
host_allows entry_host host = elim (strip_prefix (codes "*.") entry_host) [
  | some base ↦
      ltb (length base) (length host)
      && ends_with host base
      && is_char (get_elem? host (length host - length base - 1)) b'.'
  | none ↦ str_eq entry_host host
]

abbrev pub port_allows : Option ℕ → ℕ → Bool
port_allows none port = true
port_allows (some expected) port = expected == port

unfoldable pub domain_entry_allows : Str → Str → ℕ → Bool
unfolding split_domain_entry host_allows
domain_entry_allows entry host port =
    let (entry_host, entry_port) = split_domain_entry entry in
    port_allows entry_port port && host_allows entry_host host

unfoldable pub domain_allows : Str → ℕ → List Str → Bool
unfolding domain_entry_allows
domain_allows host port whitelist = any (λ entry. domain_entry_allows entry host port) whitelist
