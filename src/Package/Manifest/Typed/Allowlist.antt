-- ===== src/Package/Manifest/Typed/Allowlist.antt =====
-- In crates/package/src/lib.rs, an allowlist that validates has its typed form.
use tron_hawk.Common.{
  suc, ◌≤◌, ◌≡◌, refl, ap, ◌∙◌, true, false, Option, none, some, List, [], ◌∷◌, map, Str, codes,
  str_eq, contains_text, all, All, lowercase, ltb, length, Result, ok, err, reject_if_ok, bind_ok,
  then_ok, err-ne-ok, ok_or, not-false, arith,
}
use tron_hawk.Common.Map.{Map, lookup}
use tron_hawk.Json.{
  Json, Fields, null, string, array, object, boolean, number, items, entries, as_array,
}
use tron_hawk.Package.Plugin.{NetworkManifest}
use tron_hawk.Package.Domains.{DomainError, normalize_network_domain, parse_domains}
use tron_hawk.Package.Manifest.{texts_of}
use tron_hawk.Package.Manifest.Coherent.{AreDifferent, unseen_cons}
use tron_hawk.Package.Manifest.Config.{
  NetworkError, domain_checked, check_domains, validate_network_schema, max_network_domains,
}
use tron_hawk.Package.Manifest.Typed.{required_texts, network_of, parse_network_manifest}

-- The texts with their normal forms.
abbrev pub Normalized : List Str → List Str → Type 0
Normalized [] [] = Unit
Normalized (t ∷ texts) (n ∷ normal) = (normalize_network_domain t ≡ ok n) × Normalized texts normal
Normalized [] (n ∷ normal) = ⊥
Normalized (t ∷ texts) [] = ⊥

domain_checked_ok : (r : Result DomainError Str) (s : Str) → domain_checked r ≡ ok s → r ≡ ok s
domain_checked_ok (ok t) s h = let same : t ≡ s = cc h in ap ok same
domain_checked_ok (err e) s h = err-ne-ok h

-- The domains are texts, whose normal forms differ from each other and from those before.
check_domains_sound :
    (seen : List Str) (domains : List Json)
    → check_domains seen domains ≡ ok tt
    → (texts : List Str) × (normal : List Str) × (texts_of domains ≡ some texts)
      × Normalized texts normal
      × AreDifferent normal
      × All (λ n. contains_text seen n ≡ false) normal
      × (length texts ≡ length domains)
unfolding check_domains
check_domains_sound seen [] h = ([], [], refl, tt, tt, tt, refl)
check_domains_sound seen (null ∷ domains) h = err-ne-ok h
check_domains_sound seen (boolean b ∷ domains) h = err-ne-ok h
check_domains_sound seen (number n ∷ domains) h = err-ne-ok h
check_domains_sound seen (array vs ∷ domains) h = err-ne-ok h
check_domains_sound seen (object fs ∷ domains) h = err-ne-ok h
check_domains_sound seen (string s ∷ domains) h =
    let (n, normalizes, h1) = bind_ok (domain_checked (normalize_network_domain s)) _ tt h in
    let (new, h2) = then_ok _ (check_domains (n ∷ seen) domains) tt h1 in
    let (texts, normal, are_texts, forms, different, unseen, same_length) =
      check_domains_sound (n ∷ seen) domains h2 in
    let (apart, before) = unseen_cons n seen normal unseen in
    (
      s ∷ texts,
      n ∷ normal,
      rw are_texts refl,
      (domain_checked_ok _ n normalizes, forms),
      (apart, different),
      (reject_if_ok _ _ new, before),
      ap suc same_length,
    )

-- The typed form of an allowlist, behind the checks.
abbrev pub IsAllowlist : Option NetworkManifest → Type 0
IsAllowlist none = ⊥
IsAllowlist (some network) =
    (texts : List Str) × (normal : List Str) × (network.domains ≡ map lowercase texts)
    × (length texts ≤ max_network_domains)
    × Normalized texts normal
    × AreDifferent normal

only_known :
    (name : Str) (m : Map Json)
    → all (λ e. str_eq name e.0) m ≡ true
    → all (λ e. contains_text (name ∷ []) e.0) m ≡ true
only_known name [] h = refl
only_known name (e ∷ m) h = ground (arith, only_known name m)

required_texts-as_array :
    (value : Json) (domains : List Json) (texts : List Str)
    → as_array value ≡ some domains
    → texts_of domains ≡ some texts
    → required_texts (some value) ≡ some texts
required_texts-as_array (array vs) domains texts h k =
    let same : items vs ≡ domains = cc h in ap texts_of same ∙ k
required_texts-as_array null domains texts h k = absurd (cc h)
required_texts-as_array (boolean b) domains texts h k = absurd (cc h)
required_texts-as_array (number n) domains texts h k = absurd (cc h)
required_texts-as_array (string s) domains texts h k = absurd (cc h)
required_texts-as_array (object fs) domains texts h k = absurd (cc h)

fields_of-domains :
    (fs : Fields) (value : Json) (domains : List Json) (texts : List Str)
    → all (λ e. str_eq (codes "domains") e.0) (entries fs) ≡ true
    → lookup (codes "domains") (entries fs) ≡ some value
    → as_array value ≡ some domains
    → texts_of domains ≡ some texts
    → parse_network_manifest (some (object fs))
      ≡ ok (some (record { domains = parse_domains texts }))
unfolding parse_network_manifest network_of
fields_of-domains fs value domains texts known there listed are_texts =
    rw
      (
        network_of,
        only_known (codes "domains") (entries fs) known,
        there,
        required_texts-as_array value domains texts listed are_texts,
      )
      refl

some_of_ok :
    {A : Type 0} (o : Option A) (e : NetworkError) (a : A)
    → Path (Result NetworkError A) (ok_or o e) (ok a)
    → o ≡ some a
some_of_ok none e a h = err-ne-ok h
some_of_ok (some b) e a h = let same : b ≡ a = cc h in ap some same

-- An allowlist that validates has its typed form: at most 64 domains, in lower case, with valid entries
-- whose normal forms all differ.
pub parse_network_manifest-validate_network_schema :
    (network : Json)
    → validate_network_schema network ≡ ok tt
    → (typed : Option NetworkManifest) × (parse_network_manifest (some network) ≡ ok typed)
      × IsAllowlist typed
unfolding validate_network_schema
parse_network_manifest-validate_network_schema null h = err-ne-ok h
parse_network_manifest-validate_network_schema (boolean b) h = err-ne-ok h
parse_network_manifest-validate_network_schema (number n) h = err-ne-ok h
parse_network_manifest-validate_network_schema (string s) h = err-ne-ok h
parse_network_manifest-validate_network_schema (array vs) h = err-ne-ok h
parse_network_manifest-validate_network_schema (object fs) h =
    let (unknown, h1) = then_ok _ _ tt h in
    let (value, there, h2) = bind_ok (ok_or (lookup (codes "domains") (entries fs)) _) _ tt h1 in
    let (domains, listed, h3) = bind_ok (ok_or (as_array value) _) _ tt h2 in
    let (few, checked) = then_ok _ (check_domains [] domains) tt h3 in
    let (texts, normal, are_texts, forms, different, unseen, same_length) =
      check_domains_sound [] domains checked in
    let bound : ltb max_network_domains (length domains) ≡ false = reject_if_ok _ _ few in
    (
      some (record { domains = parse_domains texts }),
      fields_of-domains fs value domains texts (not-false _ (reject_if_ok _ _ unknown))
          (some_of_ok (lookup (codes "domains") (entries fs)) _ value there)
          (some_of_ok (as_array value) _ domains listed) are_texts,
      (texts, normal, refl, rw same_length (ground arith), forms, different),
    )
