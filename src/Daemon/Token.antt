-- ===== src/Daemon/Token.antt =====
-- Launch tokens of crates/core/src/daemon.rs: signing and verification.
pub mod Laws
use tron_hawk.Common.{
  ℕ, ◌+◌, ◌-◌, ◌*◌, Bool, true, false, not, ◌&&◌, ◌||◌, Option, none, some, List, [], ◌∷◌, ◌++◌,
  Str, codes, bytes, len, str_eq, ◌==◌, ltb, leb, strip_prefix, split, join, rsplit_once,
  if◌then◌else◌,
}
use tron_hawk.Common.Decimal.{max_u64, to_decimal, parse_unsigned, saturating_add}
use tron_hawk.Ipc.Hex.{is_lowercase_hex, hex_encode, constant_time_eq}
use tron_hawk.Ipc.Client.{Hmac}

abbrev pub session_idle_timeout_secs : ℕ
session_idle_timeout_secs = 600

abbrev pub token_max_age_secs : ℕ
token_max_age_secs = 24 * 60 * 60

abbrev pub token_future_tolerance_secs : ℕ
token_future_tolerance_secs = 5

abbrev pub application_id_prefix : Str
application_id_prefix = codes "winexe-v1:"

pub record LaunchClaims : Type 0 where
  pub application_id : Str
  pub issued_at : ℕ

unfoldable pub is_application_id : Str → Bool
is_application_id value = elim (strip_prefix application_id_prefix value) [
  | none ↦ false
  | some digest ↦ len digest == 64 && is_lowercase_hex digest
]

-- `format!("{}.{}.{}.{}", "v1", …)`
unfoldable pub launch_token_payload : Str → ℕ → Str → Str
launch_token_payload application_id issued_at nonce =
    join b'.' (codes "v1" ∷ application_id ∷ to_decimal issued_at ∷ nonce ∷ [])

-- The checks of `verify_launch_token` on the segments of the payload.
unfoldable pub claims_of : ℕ → List Str → Option LaunchClaims
claims_of now_secs (version ∷ application_id ∷ issued ∷ nonce ∷ []) =
    elim (parse_unsigned max_u64 issued) [
      | none ↦ none
      | some issued_at ↦
          if not (str_eq version (codes "v1")) || not (is_application_id application_id)
          then none
          else if not (len nonce == 16) || not (is_lowercase_hex nonce)
          then none
          else if ltb (saturating_add now_secs token_future_tolerance_secs) issued_at
          then none
          else some (record { application_id = application_id; issued_at = issued_at })
    ]
claims_of now_secs _ = none

module _ (h : Hmac) where
  unfoldable pub launch_token_mac : Str → Str → Str
  launch_token_mac launch_key payload = hex_encode (h.mac (bytes launch_key) (bytes payload))

  unfoldable pub sign_launch_token : Str → Str → ℕ → Str → Str
  sign_launch_token launch_key application_id now_secs nonce =
      let payload = launch_token_payload application_id now_secs nonce in
      payload ++ (b'.' ∷ launch_token_mac launch_key payload)

  unfoldable pub verify_launch_token : ℕ → Str → Str → Option LaunchClaims
  unfolding claims_of
  verify_launch_token now_secs launch_key token = elim (rsplit_once b'.' token) [
    | none ↦ none
    | some (payload, mac) ↦
        if not (is_lowercase_hex mac) || not (len mac == 64)
        then none
        else if not (constant_time_eq (bytes mac) (bytes (launch_token_mac launch_key payload)))
        then none
        else claims_of now_secs (split b'.' payload)
  ]
