-- ===== src/Daemon/Network/Follow/Laws.antt =====
-- What goes out while `network_request` of crates/core/src/daemon.rs follows redirects.
use tron_hawk.Common.{
  ℕ, zero, suc, ◌-◌, ◌≤◌, ◌≡◌, refl, ◌∙◌, true, false, not, List, [], ◌∷◌, Str, str_eq, str_eq_iff,
  All, All-map, All-retain_test, length, Result, ok, if◌then◌else◌, arith, Option-cases, Bool-cases,
  Result-cases, err-ne-ok, ◌⊎◌, inl, inr,
}
use tron_hawk.Daemon.Network.Domains.{domain_allows}
use tron_hawk.Daemon.Network.Follow.{
  UrlApi, OutboundResponse, Hop, Exchange, Verdict, done, redirect, max_redirects, is_credential,
  without_credentials, hop_to, validate_request_url, next_hop, verdict, follow, refused,
}

-- The hop goes to a host and a port that its URL has and that the whitelist allows.
abbrev pub IsTarget : {U : Type 0} → UrlApi U → List Str → Hop U → Type 0
IsTarget api whitelist hop =
    (validate_request_url api hop.url ≡ ok (hop.host, hop.port))
    × (domain_allows hop.host hop.port whitelist ≡ true)

-- The hop goes to the first host, or has no credential header.
abbrev pub IsDiscreet : {U : Type 0} → Str → Hop U → Type 0
IsDiscreet origin hop = (hop.host ≡ origin) ⊎ All (λ h. is_credential h.0 ≡ false) hop.headers

without_credentials-All :
    (headers : List (Str × Str))
    → All (λ h. is_credential h.0 ≡ false) (without_credentials headers)
without_credentials-All headers =
    All-map (λ h kept. ground arith) (without_credentials headers)
      (All-retain_test (λ h. not (is_credential h.0)) headers)

module _ {U : Type 0} (api : UrlApi U) (whitelist : List Str) (plugin_id : Str) where
  module _ (hop next : Hop U) (status : ℕ) (location : Str) where
    -- Every hop that follows another one has passed the checks.
    next_hop_sound :
        next_hop api whitelist plugin_id hop status location ≡ ok next
        → (url : U) × (target : Str × ℕ) × (validate_request_url api url ≡ ok target)
          × (domain_allows target.0 target.1 whitelist ≡ true)
          × (next ≡ hop_to api hop status url target)
    unfolding next_hop
    next_hop_sound h = elim (Option-cases (api.join hop.url location)) [
      | inl missing ↦ err-ne-ok (rw (missing, next_hop) at h)
      | inr (url, joined) ↦ elim (Result-cases (validate_request_url api url)) [
        | inr (e, invalid) ↦ err-ne-ok (rw (joined, invalid, next_hop) at h)
        | inl (target, valid) ↦ elim (Bool-cases (domain_allows target.0 target.1 whitelist)) [
          | inr refused ↦ err-ne-ok (rw (joined, valid, refused, next_hop) at h)
          | inl allowed ↦
              (url, target, valid, allowed, cc (rw (joined, valid, allowed, next_hop) at h))
        ]
      ]
    ]

  next_hop-IsTarget :
      (hop next : Hop U) (status : ℕ) (location : Str)
      → next_hop api whitelist plugin_id hop status location ≡ ok next
      → IsTarget api whitelist next
        × (next.headers ≡ (
            if not (str_eq next.host hop.host)
            then without_credentials hop.headers
            else hop.headers))
  next_hop-IsTarget hop next status location h =
      let (url, target, valid, allowed, e) = next_hop_sound hop next status location h in
      rw e ((valid, allowed), refl)

  next_hop-IsDiscreet :
      (origin : Str) (hop next : Hop U)
      → next.headers
        ≡ (if not (str_eq next.host hop.host) then without_credentials hop.headers else hop.headers)
      → IsDiscreet origin hop
      → IsDiscreet origin next
  next_hop-IsDiscreet origin hop next e d = elim (Bool-cases (str_eq next.host hop.host)) [
    | inr other ↦
        let cleared : next.headers ≡ without_credentials hop.headers = e ∙ rw other refl in
        inr (rw cleared (without_credentials-All hop.headers))
    | inl same ↦
        let kept : next.headers ≡ hop.headers = e ∙ rw same refl in
        elim d [
          | inl first ↦ inl ((str_eq_iff next.host hop.host).0 same ∙ first)
          | inr clean ↦ inr (rw kept clean)
        ]
  ]

  module _ (http : ℕ → Hop U → Result Str OutboundResponse) where
    verdict-sent :
        (left : ℕ) (hop : Hop U) (answer : Result Str OutboundResponse) (exchange : Exchange U)
        → verdict api http left hop answer ≡ done exchange
        → exchange.sent ≡ hop ∷ []
    unfolding verdict
    verdict-sent left hop answer exchange h = ground arith

    Verdict-cases :
        (v : Verdict U)
        → ((exchange : Exchange U) × (v ≡ done exchange))
          ⊎ ((status : ℕ) × (location : Str) × (v ≡ redirect status location))
    Verdict-cases (done exchange) = inl (exchange, refl)
    Verdict-cases (redirect status location) = inr (status, location, refl)

    -- What is known of each request that goes out.
    abbrev pub IsGuarded : Str → Hop U → Type 0
    IsGuarded origin hop = IsTarget api whitelist hop × IsDiscreet origin hop

    -- The first request and those of at most `left` redirects go out, each guarded.
    abbrev AreGuarded : Str → ℕ → List (Hop U) → Type 0
    AreGuarded origin left sent = All (IsGuarded origin) sent × (length sent ≤ suc left)

    only-AreGuarded :
        (origin : Str) (left : ℕ) (hop : Hop U) (sent : List (Hop U))
        → sent ≡ hop ∷ []
        → IsGuarded origin hop
        → AreGuarded origin left sent
    only-AreGuarded origin left hop sent e h = rw e ((h, tt), ground arith)

    -- Along the loop every request goes to a host and port that its own URL has and that the
    -- whitelist allows; it goes to the host of the first request or has no credential header; and
    -- at most `left` requests follow the first.
    pub follow-AreGuarded :
        (origin : Str) (left : ℕ) (hop : Hop U)
        → IsTarget api whitelist hop
        → IsDiscreet origin hop
        → AreGuarded origin left (follow api http whitelist plugin_id left hop).sent
    unfolding follow
    follow-AreGuarded origin zero hop t d =
        elim (Verdict-cases (verdict api http zero hop (http max_redirects hop))) [
          | inl (exchange, e) ↦
              rw (e, follow)
                (only-AreGuarded origin zero hop exchange.sent
                  (verdict-sent zero hop (http max_redirects hop) exchange e) (t, d))
          | inr (status, location, e) ↦
              rw (e, follow) (only-AreGuarded origin zero hop (hop ∷ []) refl (t, d))
        ]
    follow-AreGuarded origin (suc left) hop t d =
        elim (Verdict-cases
          (verdict api http (suc left) hop (http (max_redirects - suc left) hop))) [
            | inl (exchange, e) ↦
                rw (e, follow)
                  (only-AreGuarded origin (suc left) hop exchange.sent
                    (verdict-sent (suc left) hop (http (max_redirects - suc left) hop) exchange e)
                    (t, d))
            | inr (status, location, e) ↦
                elim (Result-cases (next_hop api whitelist plugin_id hop status location)) [
                  | inr (error, f) ↦
                      rw (e, f, follow)
                        (only-AreGuarded origin (suc left) hop (hop ∷ []) refl (t, d))
                  | inl (next, f) ↦
                      let (target, from) = next_hop-IsTarget hop next status location f in
                      let (all, few) =
                        follow-AreGuarded origin left next target
                          (next_hop-IsDiscreet origin hop next from d) in
                      rw (e, f, follow) (((t, d), all), omega arith)
                ]
          ]
