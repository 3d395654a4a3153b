-- ===== src/Daemon/Router.antt =====
-- `handle_request` of crates/core/src/daemon.rs up to the handler that it calls: who may ask for what.
-- The handlers are those of Control, Plan, Network and RateLimit.
pub mod Authorized
use tron_hawk.Common.{
  ℕ, ◌-◌, Bool, true, false, not, ◌||◌, Option, none, some, Str, codes, bytes, len, str_eq, ◌==◌,
  leb, if◌then◌else◌,
}
use tron_hawk.Common.Int.{ℤ, minus}
use tron_hawk.Common.Decimal.{to_decimal}
use tron_hawk.Json.{Json, string, number, object, field, end, fields_only, as_str, is_empty_params}
use tron_hawk.Ipc.Hex.{is_lowercase_hex, constant_time_eq}
use tron_hawk.Ipc.Envelope.{Request, Response, response_ok, response_err, protocol_version}
use tron_hawk.Ipc.Client.{Hmac, compute_server_proof}
use tron_hawk.Daemon.Token.{
  LaunchClaims, session_idle_timeout_secs, token_max_age_secs, sign_launch_token,
  verify_launch_token,
}

-- The secrets of the service.
pub record Keys : Type 0 where
  pub control_token : Str
  pub launch_key : Str

-- What becomes of a request: it is answered at once, or a handler is called, for an application where
-- the request has a launch token.
pub data Route : Type 0 where
  answered : Response → Route
  control iefo_registration : Route
  renewal execution network runtime_logs plugin_logs : Str → Route

abbrev pub invalid_params : ℕ → Route
invalid_params i = answered (response_err i (minus 32602) (codes "invalid params"))

abbrev pub unauthorized : ℕ → Route
unauthorized i = answered (response_err i (minus 32001) (codes "unauthorized"))

abbrev pub internal_error : ℕ → Route
internal_error i = answered (response_err i (minus 32603) (codes "internal error"))

module _ (h : Hmac) where
  -- The parameters are an object with just a challenge, as an object or an array of its fields.
  abbrev pub proof_for : Keys → ℕ → Option Str → Route
  proof_for keys i none = invalid_params i
  proof_for keys i (some challenge) =
      if not (len challenge == 64) || not (is_lowercase_hex challenge)
      then invalid_params i
      else answered (
          response_ok i (
            object (
              field (codes "proof") (string (compute_server_proof h keys.control_token challenge))
                end)))

  unfoldable pub server_proof : Keys → Request → Route
  server_proof keys request =
      proof_for keys request.id (fields_only (codes "challenge") request.params)

  -- The handlers of a session that has not idled.
  unfoldable pub session_route : LaunchClaims → Request → Route
  session_route claims request =
      if str_eq request.method (codes "networkRequest")
      then network claims.application_id
      else if str_eq request.method (codes "getExecutionPlan")
      then (if is_empty_params request.params
          then execution claims.application_id
          else invalid_params request.id)
      else if str_eq request.method (codes "appendRuntimeLogs")
      then runtime_logs claims.application_id
      else if str_eq request.method (codes "appendPluginLogs")
      then plugin_logs claims.application_id
      else answered (response_err request.id (minus 32003) (codes "forbidden"))

  -- What a verified token may do at a time.
  unfoldable pub claims_route : ℕ → LaunchClaims → Request → Route
  claims_route now_secs claims request =
      let age = now_secs - claims.issued_at in
      if str_eq request.method (codes "renewSession")
      then (if not (is_empty_params request.params)
          then invalid_params request.id
          else if leb token_max_age_secs age
          then unauthorized request.id
          else renewal claims.application_id)
      else if leb session_idle_timeout_secs age
      then unauthorized request.id
      else session_route claims request

  unfoldable pub token_route : Keys → Option ℕ → Request → Route
  token_route keys none request = internal_error request.id
  token_route keys (some now_secs) request =
      elim (verify_launch_token h now_secs keys.launch_key request.secret) [
        | none ↦ unauthorized request.id
        | some claims ↦ claims_route now_secs claims request
      ]

  unfoldable pub handle_request : Keys → Option ℕ → Request → Route
  handle_request keys now request =
      if not (str_eq request.version protocol_version)
      then answered (response_err request.id (minus 32600) (codes "unsupported protocol version"))
      else if str_eq request.method (codes "getServerProof")
      then server_proof keys request
      else if constant_time_eq (bytes request.secret) (bytes keys.control_token)
      then (if str_eq request.method (codes "setIefoRegistration")
          then iefo_registration
          else control)
      else token_route keys now request

  -- `session_json`: a fresh token for an application.
  abbrev pub session_json : Keys → ℕ → Str → Str → Json
  session_json keys now_secs application_id nonce = object (
      field (codes "token")
        (string (sign_launch_token h keys.launch_key application_id now_secs nonce))
        (field (codes "applicationId") (string application_id) (
          field (codes "expiresAfterIdleSeconds") (number (to_decimal session_idle_timeout_secs))
            end)))
