-- ===== src/Daemon/Router/Authorized.antt =====
-- In crates/core/src/daemon.rs, a handler is called only for who may call it.
use tron_hawk.Common.{
  ℕ, ◌-◌, ◌≤◌, ◌<◌, ◌≡◌, refl, true, false, not, ◌||◌, Option, none, some, [], ◌∷◌, split, ◌++◌,
  Str, codes, bytes, len, str_eq, leb, leb→lt, ◌==◌, Bool-cases, Option-cases, inl, inr, arith,
}
use tron_hawk.Common.Decimal.{max_u64, parse_unsigned, saturating_add}
use tron_hawk.Json.{null, fields_only, is_empty_params}
use tron_hawk.Ipc.Hex.{is_lowercase_hex, constant_time_eq}
use tron_hawk.Ipc.Envelope.{Request, protocol_version}
use tron_hawk.Ipc.Client.{Hmac}
use tron_hawk.Daemon.Token.{
  LaunchClaims, session_idle_timeout_secs, token_max_age_secs, token_future_tolerance_secs,
  is_application_id, launch_token_mac, sign_launch_token, verify_launch_token,
}
use tron_hawk.Daemon.Token.Laws.{verify_launch_token_sound, verify-sign_launch_token}
use tron_hawk.Daemon.Router.{
  Keys, Route, answered, control, iefo_registration, renewal, execution, network, runtime_logs,
  plugin_logs, proof_for, server_proof, session_route, claims_route, token_route, handle_request,
}

module _ (h : Hmac) where
  -- The secret is a payload with its code under the launch key. The payload has four segments: the
  -- version, the application's id, which is valid, the time of issue as a number, less than `age`
  -- seconds before and at most the tolerance ahead, and a nonce.
  abbrev pub IsSession : Keys → Option ℕ → Request → ℕ → Str → Type 0
  IsSession keys now request age application_id =
      (now_secs issued_at : ℕ) × (payload issued nonce : Str) × (now ≡ some now_secs)
      × (request.secret ≡ payload ++ (b'.' ∷ launch_token_mac h keys.launch_key payload))
      × (split b'.' payload ≡ codes "v1" ∷ application_id ∷ issued ∷ nonce ∷ [])
      × (parse_unsigned max_u64 issued ≡ some issued_at)
      × (is_application_id application_id ≡ true)
      × (issued_at ≤ saturating_add now_secs token_future_tolerance_secs)
      × (now_secs - issued_at < age)

  abbrev pub HasControl : Keys → Request → Type 0
  HasControl keys request =
      constant_time_eq (bytes request.secret) (bytes keys.control_token) ≡ true

  -- Who may have a request handled.
  abbrev pub IsAuthorized : Keys → Option ℕ → Request → Route → Type 0
  IsAuthorized keys now request (answered r) = Unit
  IsAuthorized keys now request control = HasControl keys request
  IsAuthorized keys now request iefo_registration = HasControl keys request
  IsAuthorized keys now request (renewal id) = IsSession keys now request token_max_age_secs id
  IsAuthorized keys now request (execution id) =
      IsSession keys now request session_idle_timeout_secs id
  IsAuthorized keys now request (network id) =
      IsSession keys now request session_idle_timeout_secs id
  IsAuthorized keys now request (runtime_logs id) =
      IsSession keys now request session_idle_timeout_secs id
  IsAuthorized keys now request (plugin_logs id) =
      IsSession keys now request session_idle_timeout_secs id

  proof_for-IsAuthorized :
      (keys : Keys) (now : Option ℕ) (request : Request) (i : ℕ) (challenge : Option Str)
      → IsAuthorized keys now request (proof_for h keys i challenge)
  proof_for-IsAuthorized keys now request i none = tt
  proof_for-IsAuthorized keys now request i (some challenge) =
      elim (Bool-cases (not (len challenge == 64) || not (is_lowercase_hex challenge))) [
        | inl bad ↦ rw bad tt
        | inr fine ↦ rw fine tt
      ]

  session_route-IsAuthorized :
      (keys : Keys) (now : Option ℕ) (claims : LaunchClaims) (request : Request)
      → IsSession keys now request session_idle_timeout_secs claims.application_id
      → IsAuthorized keys now request (session_route h claims request)
  unfolding session_route
  session_route-IsAuthorized keys now claims request s =
      elim (Bool-cases (str_eq request.method (codes "networkRequest"))) [
        | inl m ↦ rw (session_route, m) s
        | inr m ↦ elim (Bool-cases (str_eq request.method (codes "getExecutionPlan"))) [
          | inl k ↦ elim (Bool-cases (is_empty_params request.params)) [
            | inl e ↦ rw (session_route, m, k, e) s
            | inr e ↦ rw (session_route, m, k, e) tt
          ]
          | inr k ↦ elim (Bool-cases (str_eq request.method (codes "appendRuntimeLogs"))) [
            | inl r ↦ rw (session_route, m, k, r) s
            | inr r ↦ elim (Bool-cases (str_eq request.method (codes "appendPluginLogs"))) [
              | inl p ↦ rw (session_route, m, k, r, p) s
              | inr p ↦ rw (session_route, m, k, r, p) tt
            ]
          ]
        ]
      ]

  claims_route-IsAuthorized :
      (keys : Keys) (now_secs : ℕ) (claims : LaunchClaims) (request : Request)
      → ((age : ℕ)
          → now_secs - claims.issued_at < age
          → IsSession keys (some now_secs) request age claims.application_id)
      → IsAuthorized keys (some now_secs) request (claims_route h now_secs claims request)
  unfolding claims_route
  claims_route-IsAuthorized keys now_secs claims request s =
      elim (Bool-cases (str_eq request.method (codes "renewSession"))) [
        | inl m ↦ elim (Bool-cases (is_empty_params request.params)) [
          | inr e ↦ rw (claims_route, m, e) tt
          | inl e ↦ elim (Bool-cases (leb token_max_age_secs (now_secs - claims.issued_at))) [
            | inl old ↦ rw (claims_route, m, e, old) tt
            | inr young ↦ rw (claims_route, m, e, young) (s token_max_age_secs (leb→lt _ _ young))
          ]
        ]
        | inr m ↦ elim (Bool-cases (leb session_idle_timeout_secs (now_secs - claims.issued_at))) [
          | inl old ↦ rw (claims_route, m, old) tt
          | inr young ↦
              rw (claims_route, m, young)
                (session_route-IsAuthorized keys (some now_secs) claims request
                  (s session_idle_timeout_secs (leb→lt _ _ young)))
        ]
      ]

  token_route-IsAuthorized :
      (keys : Keys) (now : Option ℕ) (request : Request)
      → IsAuthorized keys now request (token_route h keys now request)
  unfolding token_route
  token_route-IsAuthorized keys none request = tt
  token_route-IsAuthorized keys (some now_secs) request =
      elim (Option-cases (verify_launch_token h now_secs keys.launch_key request.secret)) [
        | inl bad ↦ rw (token_route, bad) tt
        | inr (claims, verified) ↦
            let (payload, issued, nonce, secret, segments, parsed, app, soon) =
              verify_launch_token_sound h keys.launch_key now_secs request.secret claims verified in
            rw (token_route, verified)
              (claims_route-IsAuthorized keys now_secs claims request (λ age young. (
                now_secs, claims.issued_at, payload, issued, nonce, refl, secret, segments, parsed,
                app, soon, young,
              )))
      ]

  -- Every request that is handled at all is authorized: those of the control methods carry the control
  -- token; those of an application carry a secret that ends in the code, under the launch key, of the
  -- payload before it, and this payload names that application, with a valid id, and a time of issue
  -- less than ten minutes before, or a day for a renewal.
  pub handle_request-IsAuthorized :
      (keys : Keys) (now : Option ℕ) (request : Request)
      → IsAuthorized keys now request (handle_request h keys now request)
  unfolding handle_request server_proof
  handle_request-IsAuthorized keys now request =
      elim (Bool-cases (str_eq request.version protocol_version)) [
        | inr v ↦ rw (handle_request, v) tt
        | inl v ↦ elim (Bool-cases (str_eq request.method (codes "getServerProof"))) [
          | inl m ↦
              rw (handle_request, v, m, server_proof)
                (proof_for-IsAuthorized keys now request request.id
                  (fields_only (codes "challenge") request.params))
          | inr m ↦
              elim (Bool-cases
                (constant_time_eq (bytes request.secret) (bytes keys.control_token))) [
                  | inr s ↦ rw (handle_request, v, m, s) (token_route-IsAuthorized keys now request)
                  | inl s ↦
                      elim (Bool-cases (str_eq request.method (codes "setIefoRegistration"))) [
                        | inl i ↦ rw (handle_request, v, m, s, i) s
                        | inr i ↦ rw (handle_request, v, m, s, i) s
                      ]
                ]
        ]
      ]

  -- A token that was signed for an application opens its plan for the ten minutes after, unless it is
  -- the control token itself.
  pub handle_request-sign_launch_token :
      (keys : Keys) (issued_at now_secs : ℕ) (application_id nonce : Str) (request : Request)
      → request.version ≡ protocol_version
      → request.method ≡ codes "getExecutionPlan"
      → request.params ≡ null
      → request.secret ≡ sign_launch_token h keys.launch_key application_id issued_at nonce
      → constant_time_eq (bytes request.secret) (bytes keys.control_token) ≡ false
      → is_application_id application_id ≡ true
      → is_lowercase_hex nonce ≡ true
      → len nonce ≡ 16
      → issued_at ≤ max_u64
      → issued_at ≤ saturating_add now_secs token_future_tolerance_secs
      → now_secs - issued_at < session_idle_timeout_secs
      → handle_request h keys (some now_secs) request ≡ execution application_id
  unfolding handle_request token_route claims_route session_route str_eq
  handle_request-sign_launch_token keys issued_at now_secs application_id nonce request version
        method params secret other app hex sixteen fits soon young =
      let verified =
        verify-sign_launch_token h keys.launch_key now_secs issued_at application_id nonce app hex
          sixteen fits soon in
      let fresh : leb session_idle_timeout_secs (now_secs - issued_at) ≡ false = ground arith in
      rw
        (
          handle_request, version, method, other, token_route, secret, verified, claims_route,
          method, fresh, session_route, params,
        )
        refl
