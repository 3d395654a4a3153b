-- ===== src/Daemon/Network/Entries.antt =====
-- How `split_domain_entry` of crates/core/src/daemon.rs reads what `normalize_network_domain` of
-- crates/package/src/lib.rs accepts.
use tron_hawk.Common.{ℕ, ◌≡◌, ◌≢◌, false, none, some, contains, ◌∷◌, ◌++◌, Str}
use tron_hawk.Common.Decimal.{parse_unsigned, max_u16}
use tron_hawk.Daemon.Network.Domains.{split_domain_entry}

-- How an entry is read: one with no `:` as a host with no port, and one with a `:` as the host before
-- it and the port that the text behind it is as a number, which is not 0.
pub data IsRead (n : Str) : Type 0 where
  any_port : contains b':' n ≡ false → split_domain_entry n ≡ (n, none) → IsRead n
  one_port :
      (host port : Str) (number : ℕ)
      → n ≡ host ++ (b':' ∷ port)
      → contains b':' host ≡ false
      → contains b':' port ≡ false
      → parse_unsigned max_u16 port ≡ some number
      → split_domain_entry n ≡ (host, some number)
      → number ≢ 0
      → IsRead n
