-- ===== src/Daemon/Token/Laws.antt =====
-- A signed token is verified, and a verified token was signed with the key.
use tron_hawk.Common.{
  ℕ, ◌≤◌, ◌≡◌, ◌↔◌, refl, sym, ap, ◌∙◌, true, false, not, ◌&&◌, ◌||◌, none, some, List, [], ◌∷◌,
  ◌++◌, all, arith, Str, codes, bytes, len, str_eq_refl, str_eq_iff, ◌==◌, leb, contains,
  strip_prefix, split, split-join, rsplit_once, rsplit_once-append, rsplit_once_sound, is_digit,
  if◌then◌else◌, Option-cases, inl, inr,
}
use tron_hawk.Common.Decimal.{max_u64, to_decimal, parse_unsigned, saturating_add}
use tron_hawk.Common.Decimal.RoundTrip.{parse_unsigned-to_decimal, to_decimal-digits}
use tron_hawk.Ipc.Hex.{is_lowercase_hex, constant_time_eq}
use tron_hawk.Ipc.Hex.Laws.{bytes-hex, hex-AreBytes, hex_encode-is_lowercase_hex, len-hex_encode}
use tron_hawk.Ipc.Hex.Equal.{constant_time_eq_iff}
use tron_hawk.Ipc.Client.{Hmac}
use tron_hawk.Daemon.Token.{
  token_future_tolerance_secs, application_id_prefix, LaunchClaims, is_application_id,
  launch_token_payload, claims_of, launch_token_mac, sign_launch_token, verify_launch_token,
}

digits-no_dot : (s : Str) → all is_digit s ≡ true → contains b'.' s ≡ false
digits-no_dot [] h = refl
digits-no_dot (c ∷ s) h = ground (arith, digits-no_dot s)

hex_chars-no_dot :
    (s : Str)
    → all (λ c. is_digit c || (leb b'a' c && leb c b'f')) s ≡ true
    → contains b'.' s ≡ false
hex_chars-no_dot [] h = refl
hex_chars-no_dot (c ∷ s) h = ground (arith, hex_chars-no_dot s)

hex-no_dot : (s : Str) → is_lowercase_hex s ≡ true → contains b'.' s ≡ false
hex-no_dot s h = hex_chars-no_dot s (unfold is_lowercase_hex in rw (bytes-hex s h) at h)

strip_prefix_sound : (p s t : Str) → strip_prefix p s ≡ some t → s ≡ p ++ t
strip_prefix_sound [] s t h = ground arith
strip_prefix_sound (c ∷ p) [] t h = cc
strip_prefix_sound (c ∷ p) (d ∷ s) t h = ground (arith, strip_prefix_sound p s t)

application_id-no_dot : (a : Str) → is_application_id a ≡ true → contains b'.' a ≡ false
unfolding is_application_id
application_id-no_dot a h = elim (Option-cases (strip_prefix application_id_prefix a)) [
  | inl missed ↦ ground arith
  | inr (digest, found) ↦
      rw (strip_prefix_sound application_id_prefix a digest found)
        (hex-no_dot digest (ground arith))
]

claims_of_parts :
    (now_secs issued_at : ℕ) (application_id nonce : Str)
    → is_application_id application_id ≡ true
    → is_lowercase_hex nonce ≡ true
    → len nonce ≡ 16
    → issued_at ≤ max_u64
    → issued_at ≤ saturating_add now_secs token_future_tolerance_secs
    → claims_of now_secs (codes "v1" ∷ application_id ∷ to_decimal issued_at ∷ nonce ∷ [])
      ≡ some (record { application_id = application_id; issued_at = issued_at })
unfolding claims_of
claims_of_parts now_secs issued_at application_id nonce app hex sixteen fits soon =
    ground (arith, parse_unsigned-to_decimal max_u64 issued_at fits, str_eq_refl (codes "v1"))

claims_of_sound :
    (now_secs : ℕ) (segments : List Str) (claims : LaunchClaims)
    → claims_of now_secs segments ≡ some claims
    → (issued nonce : Str) × (segments ≡ codes "v1" ∷ claims.application_id ∷ issued ∷ nonce ∷ [])
      × (parse_unsigned max_u64 issued ≡ some claims.issued_at)
      × (is_application_id claims.application_id ≡ true)
      × (claims.issued_at ≤ saturating_add now_secs token_future_tolerance_secs)
unfolding claims_of
claims_of_sound now_secs (v ∷ a ∷ i ∷ n ∷ []) claims e =
    (i, n, ground (arith, str_eq_iff v (codes "v1")), ground arith, ground arith, ground arith)
claims_of_sound now_secs [] claims e = cc
claims_of_sound now_secs _ claims e = cc

module _ (h : Hmac) (launch_key : Str) where
  mac-hex : (payload : Str) → is_lowercase_hex (launch_token_mac h launch_key payload) ≡ true
  unfolding launch_token_mac
  mac-hex payload = hex_encode-is_lowercase_hex _ (h.mac_bytes _ _)

  len-mac : (payload : Str) → len (launch_token_mac h launch_key payload) ≡ 64
  unfolding launch_token_mac
  len-mac payload = omega (arith, len-hex_encode (h.mac _ _) (h.mac_bytes _ _), h.mac_length _ _)

  -- The test of the code is exactly that the text is the code of the payload.
  mac_iff :
      (payload mac : Str)
      → is_lowercase_hex mac ≡ true
      → (constant_time_eq (bytes mac) (bytes (launch_token_mac h launch_key payload)) ≡ true)
        ↔ (mac ≡ launch_token_mac h launch_key payload)
  mac_iff payload mac hex =
      let expected = launch_token_mac h launch_key payload in
      let iff =
        constant_time_eq_iff (bytes mac) (bytes expected) (hex-AreBytes mac hex)
          (hex-AreBytes expected (mac-hex payload)) in
      (
        λ same. sym (bytes-hex mac hex) ∙ iff.0 same ∙ bytes-hex expected (mac-hex payload),
        λ e. iff.1 (ap bytes e),
      )

  signed_parts :
      (now_secs : ℕ) (payload mac : Str) (claims : LaunchClaims)
      → (if not (is_lowercase_hex mac) || not (len mac == 64)
          then none
          else if not (constant_time_eq (bytes mac) (bytes (launch_token_mac h launch_key payload)))
          then none
          else claims_of now_secs (split b'.' payload))
        ≡ some claims
      → (is_lowercase_hex mac ≡ true)
        × (constant_time_eq (bytes mac) (bytes (launch_token_mac h launch_key payload)) ≡ true)
        × (claims_of now_secs (split b'.' payload) ≡ some claims)
  signed_parts now_secs payload mac claims e = ground arith

  -- A text with the payload's code is verified as far as the payload's segments go.
  verify_signed :
      (now_secs : ℕ) (payload : Str)
      → verify_launch_token h now_secs launch_key
          (payload ++ (b'.' ∷ launch_token_mac h launch_key payload))
        ≡ claims_of now_secs (split b'.' payload)
  unfolding verify_launch_token
  verify_signed now_secs payload =
      let mac = launch_token_mac h launch_key payload in
      ground (
        arith,
        rsplit_once-append b'.' payload mac (hex-no_dot mac (mac-hex payload)),
        mac-hex payload,
        len-mac payload,
        (mac_iff payload mac (mac-hex payload)).1 refl,
      )

  -- A token that the key's holder signs for an application is verified, at any time that is not
  -- more than the tolerance before it was issued, and yields its claims.
  pub verify-sign_launch_token :
      (now_secs issued_at : ℕ) (application_id nonce : Str)
      → is_application_id application_id ≡ true
      → is_lowercase_hex nonce ≡ true
      → len nonce ≡ 16
      → issued_at ≤ max_u64
      → issued_at ≤ saturating_add now_secs token_future_tolerance_secs
      → verify_launch_token h now_secs launch_key
          (sign_launch_token h launch_key application_id issued_at nonce)
        ≡ some (record { application_id = application_id; issued_at = issued_at })
  unfolding sign_launch_token launch_token_payload
  verify-sign_launch_token now_secs issued_at application_id nonce app hex sixteen fits soon =
      rw
        (
          verify_signed now_secs (launch_token_payload application_id issued_at nonce),
          split-join b'.' (codes "v1") (application_id ∷ to_decimal issued_at ∷ nonce ∷ []) (
            refl,
            (
              application_id-no_dot application_id app,
              (
                digits-no_dot (to_decimal issued_at) (to_decimal-digits issued_at),
                (hex-no_dot nonce hex, tt),
              ),
            ),
          ),
        )
        (claims_of_parts now_secs issued_at application_id nonce app hex sixteen fits soon)

  -- A token that is verified ends in the code, under this key, of all that stands before it, and
  -- that names the application and a time that is not beyond the tolerance.
  pub verify_launch_token_sound :
      (now_secs : ℕ) (token : Str) (claims : LaunchClaims)
      → verify_launch_token h now_secs launch_key token ≡ some claims
      → (payload issued nonce : Str) × (token
          ≡ payload ++ (b'.' ∷ launch_token_mac h launch_key payload))
        × (split b'.' payload ≡ codes "v1" ∷ claims.application_id ∷ issued ∷ nonce ∷ [])
        × (parse_unsigned max_u64 issued ≡ some claims.issued_at)
        × (is_application_id claims.application_id ≡ true)
        × (claims.issued_at ≤ saturating_add now_secs token_future_tolerance_secs)
  unfolding verify_launch_token
  verify_launch_token_sound now_secs token claims e = elim (Option-cases (rsplit_once b'.' token)) [
    | inl missed ↦ ground arith
    | inr ((payload, mac), found) ↦
        let (hex, same, rest) = signed_parts now_secs payload mac claims (ground arith) in
        let (issued, nonce, segments, parsed, app, soon) =
          claims_of_sound now_secs (split b'.' payload) claims rest in
        (
          payload,
          issued,
          nonce,
          rsplit_once_sound b'.' token payload mac found
              ∙ ap (λ m. payload ++ (b'.' ∷ m)) ((mac_iff payload mac hex).0 same),
          segments,
          parsed,
          app,
          soon,
        )
  ]
