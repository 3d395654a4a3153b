-- ===== src/Daemon/Network/Wildcard.antt =====
-- What the entries of a whitelist allow, by `domain_entry_allows` of crates/core/src/daemon.rs.
use tron_hawk.Common.{
  ℕ, zero, suc, ◌+◌, ◌-◌, ◌≡◌, ◌↔◌, refl, ap, ◌∙◌, Bool, true, ◌&&◌, Option, none, some, [], ◌∷◌,
  ◌++◌, Str, codes, str_eq_iff, str_eq_refl, strip_prefix, length, length-append, take, drop, ltb,
  ==_iff, arith, Option-cases, inl, inr,
}
use tron_hawk.Daemon.Network.Domains.{get_elem?, ends_with, is_char, host_allows}

-- A text splits at a character that it has.
split_at : (s : Str) (n c : ℕ) → get_elem? s n ≡ some c → s ≡ take n s ++ (c ∷ drop (suc n) s)
split_at [] n c h = absurd (cc h)
split_at (d ∷ s) zero c h = cc
split_at (d ∷ s) (suc n) c h = cc (split_at s n c h)

get_elem?-append : (s t : Str) (c : ℕ) → get_elem? (s ++ (c ∷ t)) (length s) ≡ some c
get_elem?-append [] t c = refl
get_elem?-append (d ∷ s) t c = get_elem?-append s t c

drop-append : (s t : Str) (c : ℕ) → drop (suc (length s)) (s ++ (c ∷ t)) ≡ t
drop-append [] t c = refl
drop-append (d ∷ s) t c = drop-append s t c

is_char_sound : (o : Option ℕ) (c : ℕ) → is_char o c ≡ true → o ≡ some c
is_char_sound none c h = cc
is_char_sound (some d) c h = ap some ((==_iff d c).0 h)

abbrev is_subdomain : Str → Str → Bool
is_subdomain base host =
    ltb (length base) (length host)
    && ends_with host base
    && is_char (get_elem? host (length host - length base - 1)) b'.'

subdomain_sound :
    (base host : Str)
    → is_subdomain base host ≡ true
    → (label : Str) × (host ≡ label ++ (b'.' ∷ base))
unfolding ends_with
subdomain_sound base host h =
    let n = length host - length base - 1 in
    let here : get_elem? host n ≡ some b'.' = is_char_sound _ b'.' (ground arith) in
    let tail : drop (length host - length base) host ≡ base =
      (str_eq_iff (drop (length host - length base) host) base).0 (ground arith) in
    let next : suc n ≡ length host - length base = ground arith in
    (
      take n host,
      split_at host n b'.' here
          ∙ ap (λ t. take n host ++ (b'.' ∷ t)) (ap (λ k. drop k host) next ∙ tail),
    )

subdomain_complete : (base label : Str) → is_subdomain base (label ++ (b'.' ∷ base)) ≡ true
unfolding ends_with
subdomain_complete base label =
    let long : length (label ++ (b'.' ∷ base)) ≡ length label + suc (length base) =
      length-append label (b'.' ∷ base) in
    let at : length (label ++ (b'.' ∷ base)) - length base - 1 ≡ length label =
      ground (arith, long) in
    let past : length (label ++ (b'.' ∷ base)) - length base ≡ suc (length label) =
      ground (arith, long) in
    rw
      (
        at,
        past,
        long,
        drop-append label base b'.',
        get_elem?-append label base b'.',
        str_eq_refl base,
      )
      (ground arith)

-- An entry `*.base` allows exactly the hosts that put labels and a dot before the base, so not the
-- base; any other entry allows exactly its own host.
pub host_allows_iff :
    (entry host : Str)
    → (host_allows entry host ≡ true) ↔ (elim (strip_prefix (codes "*.") entry) [
      | some base ↦ (label : Str) × (host ≡ label ++ (b'.' ∷ base))
      | none ↦ entry ≡ host
    ])
unfolding host_allows
host_allows_iff entry host = elim (Option-cases (strip_prefix (codes "*.") entry)) [
  | inl plain ↦ rw (plain, host_allows) (str_eq_iff entry host)
  | inr (base, wild) ↦
      rw (wild, host_allows)
        (subdomain_sound base host, λ (label, e). rw e (subdomain_complete base label))
]
