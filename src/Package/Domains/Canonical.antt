-- ===== src/Package/Domains/Canonical.antt =====
-- The canonical form of a `network.domains` entry, and how Core reads it.
use tron_hawk.Common.{
  ℕ, ◌≡◌, ◌≢◌, refl, sym, ap, ◌∙◌, true, false, Option, none, some, List, [], ◌∷◌, ◌++◌, Str,
  is_digit, is_empty, lowercase, contains, trim, split, split-All, join, join-split, all, All, ok,
  arith, Option-cases, Bool-cases, Result-cases, err-ne-ok, split-ne-nil, inl, inr,
}
use mathlib.Core.Path.{subst}
use tron_hawk.Common.Decimal.{parse_unsigned, max_u16}
use tron_hawk.Package.Domains.{
  normalize_network_host, host_and_port, check_port, with_port, entry_parts, normalize_parts,
  normalize_network_domain,
}

normalize_network_host_same : (host out : Str) → normalize_network_host host ≡ ok out → out ≡ host
unfolding normalize_network_host
normalize_network_host_same host out h = ground arith

check_port_sound :
    (port : Str)
    → check_port port ≡ ok tt
    → (all is_digit port ≡ true)
      × ((number : ℕ) × (parse_unsigned max_u16 port ≡ some number) × (number ≢ 0))
unfolding check_port
check_port_sound port h = elim (Option-cases (parse_unsigned max_u16 port)) [
  | inl unread ↦ absurd (ground arith)
  | inr (number, read) ↦ (ground arith, (number, read, ground arith))
]

lowercase-digits : (s : Str) → all is_digit s ≡ true → lowercase s ≡ s
lowercase-digits [] h = refl
lowercase-digits (c ∷ s) h = ground (arith, lowercase-digits s)

lowercase-append : (s t : Str) → lowercase (s ++ t) ≡ lowercase s ++ lowercase t
lowercase-append [] t = refl
lowercase-append (c ∷ s) t = cc (lowercase-append s t)

lowercase-contains : (s : Str) → contains b':' s ≡ false → contains b':' (lowercase s) ≡ false
lowercase-contains [] h = refl
lowercase-contains (c ∷ s) h = ground (arith, lowercase-contains s)

entry_parts_sound :
    (t : Str) (parts : Str × Option Str)
    → entry_parts t ≡ ok parts
    → host_and_port (split b':' t) ≡ ok parts
unfolding entry_parts
entry_parts_sound t parts h = ground arith

normalize_parts_sound :
    (parts : Str × Option Str) (n : Str)
    → normalize_parts parts ≡ ok n
    → with_port (lowercase parts.0) parts.1 ≡ ok n
unfolding normalize_parts
normalize_parts_sound parts n h = elim (Bool-cases (is_empty parts.0)) [
  | inl empty ↦ err-ne-ok (rw (empty, normalize_parts) at h)
  | inr there ↦ elim (Result-cases (normalize_network_host (lowercase parts.0))) [
    | inr (e, refused) ↦ err-ne-ok (rw (there, refused, normalize_parts) at h)
    | inl (host, passed) ↦
        let same = normalize_network_host_same (lowercase parts.0) host passed in
        ap (λ x. with_port x parts.1) (sym same) ∙ (rw (there, passed, normalize_parts) at h)
  ]
]

-- The two forms of a canonical entry, and what they are made from.
pub data IsCanonical (t n : Str) : Type 0 where
  plain : n ≡ lowercase t → contains b':' n ≡ false → IsCanonical t n
  ported :
      (host port : Str) (number : ℕ)
      → n ≡ lowercase t
      → n ≡ host ++ (b':' ∷ port)
      → contains b':' host ≡ false
      → contains b':' port ≡ false
      → parse_unsigned max_u16 port ≡ some number
      → number ≢ 0
      → IsCanonical t n

with_port_sound :
    (host port n : Str)
    → with_port host (some port) ≡ ok n
    → (check_port port ≡ ok tt) × (n ≡ host ++ (b':' ∷ port))
with_port_sound host port n h = elim (Result-cases (check_port port)) [
  | inl (u, passed) ↦ (passed, ground arith)
  | inr (e, refused) ↦ err-ne-ok (rw refused at h)
]

parts-IsCanonical :
    (t n : Str) (parts : List Str)
    → split b':' t ≡ parts
    → (p : Str × Option Str) → host_and_port parts ≡ ok p
    → with_port (lowercase p.0) p.1 ≡ ok n
    → IsCanonical t n
unfolding join
parts-IsCanonical t n [] s p e h = absurd (split-ne-nil b':' t s)
parts-IsCanonical t n (host ∷ []) s p e h =
    let clear = subst (λ ps. All (λ q. contains b':' q ≡ false) ps) s (split-All b':' t) in
    let whole : t ≡ host = sym (join-split b':' t) ∙ ap (join b':') s in
    let e' : p ≡ (host, none) = cc e in
    let same : n ≡ lowercase host = cc (subst (λ q. with_port (lowercase q.0) q.1 ≡ ok n) e' h) in
    plain (same ∙ ap lowercase (sym whole)) (rw same (lowercase-contains host clear.0))
parts-IsCanonical t n (host ∷ port ∷ []) s p e h =
    let clear = subst (λ ps. All (λ q. contains b':' q ≡ false) ps) s (split-All b':' t) in
    let whole : t ≡ host ++ (b':' ∷ port) = sym (join-split b':' t) ∙ ap (join b':') s in
    let e' : p ≡ (host, some port) = cc e in
    let (passed, same) =
      with_port_sound (lowercase host) port n
        (subst (λ q. with_port (lowercase q.0) q.1 ≡ ok n) e' h) in
    let (digits, (number, read, positive)) = check_port_sound port passed in
    ported (lowercase host) port number
      (same
        ∙ ap (λ d. lowercase host ++ (b':' ∷ d)) (sym (lowercase-digits port digits))
        ∙ sym (lowercase-append host (b':' ∷ port))
        ∙ ap lowercase (sym whole))
      same (lowercase-contains host clear.0) clear.1.0 read positive
parts-IsCanonical t n (host ∷ port ∷ other ∷ more) s p e h = err-ne-ok e

-- A normalised entry is the trimmed entry in lower case: it has no `:`, or one, before a port that
-- reads as a number from 1 to 65535.
pub normalize_network_domain-IsCanonical :
    (entry n : Str) → normalize_network_domain entry ≡ ok n → IsCanonical (trim entry) n
unfolding normalize_network_domain
normalize_network_domain-IsCanonical entry n h = elim (Result-cases (entry_parts (trim entry))) [
  | inr (e, refused) ↦ err-ne-ok (rw (refused, normalize_network_domain) at h)
  | inl (parts, passed) ↦
      parts-IsCanonical (trim entry) n (split b':' (trim entry)) refl parts
        (entry_parts_sound (trim entry) parts passed)
        (normalize_parts_sound parts n (rw (passed, normalize_network_domain) at h))
]
