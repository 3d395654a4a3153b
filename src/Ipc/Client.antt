-- ===== src/Ipc/Client.antt =====
-- The client of crates/ipc/src/lib.rs: `call`, `verify_server` and `call_control`, over what the
-- peer does.
pub mod Secrecy
use mathlib.Core.Bool.{not}
use tron_hawk.Common.{
  ℕ, ◌+◌, suc, ◌<◌, ◌≡◌, Bool, true, false, ◌||◌, Option, none, some, List, [], ◌∷◌, ◌++◌, length,
  Str, codes, bytes, len, ◌==◌, Result, ok, err, ◌>>=◌, ◌>>◌, ok_or, reject_if, if◌then◌else◌,
  last?,
}
use tron_hawk.Json.{Json, string, object, field, end, get, as_str}
use tron_hawk.Ipc.Envelope.{
  protocol_version, Request, Wire, CallError, unavailable, closed, unterminated, read_error,
  malformed_proof, invalid_proof, not_verified, send_failed, decode_response,
}
use tron_hawk.Ipc.Frame.{Fill, newline, read_frame}
use tron_hawk.Ipc.Hex.{is_lowercase_hex, hex_encode, constant_time_eq}
use tron_hawk.Ipc.Hex.Laws.{AreBytes}

-- HMAC-SHA256 of the `hmac` and `sha2` crates: 32 bytes from a key and a message.
pub record Hmac : Type 0 where
  pub mac : List ℕ → List ℕ → List ℕ
  pub mac_bytes : (key message : List ℕ) → AreBytes (mac key message)
  pub mac_length : (key message : List ℕ) → length (mac key message) ≡ 32

-- What a connection does with a request: refuse it, fail to take it, or take it and answer.
pub data Outcome : Type 0 where
  refused : Outcome
  broken : Outcome
  answered : List Fill → Outcome

-- The peer on the port, and `serde_json::from_str` of the text of a frame.
pub record Peer : Type 0 where
  pub respond : Request → Outcome
  pub parse : List ℕ → Option Wire

-- `NEXT_CALL_ID`, and the requests that were written to the peer.
pub record Net : Type 0 where
  pub next_call_id : ℕ
  pub sent : List Request

-- The envelope with a fresh id.
abbrev pub new_request : Str → Str → Json → Net → Request
new_request secret method params net = record {
  version = protocol_version;
  id = net.next_call_id;
  method = method;
  params = params;
  secret = secret;
}

abbrev pub server_proof_prefix : Str
server_proof_prefix = codes "tronhawk-server-proof-v1:"

module _ (h : Hmac) where
  unfoldable pub compute_server_proof : Str → Str → Str
  compute_server_proof token challenge =
      hex_encode (h.mac (bytes token) (bytes server_proof_prefix ++ bytes challenge))

  unfoldable pub validate_server_proof : Json → Str → Str → Result CallError (Unit {0})
  validate_server_proof response token challenge = do
    value ← ok_or (get (codes "proof") response) malformed_proof
    proof ← ok_or (as_str value) malformed_proof
    reject_if (not (is_lowercase_hex proof) || not (len proof == 64)) invalid_proof
    reject_if (not (constant_time_eq (bytes proof) (bytes (compute_server_proof token challenge))))
        not_verified

-- The frame that was read, behind the test of its terminator.
abbrev ends_with_newline : List ℕ → Bool
ends_with_newline frame = elim (last? frame) [ none ↦ false | some b ↦ b == newline ]

module _ (peer : Peer) where
  unfoldable pub receive : ℕ → List Fill → Result CallError Json
  receive i fills = elim (read_frame fills) [
    | err e ↦ err read_error
    | ok (none, rest) ↦ err closed
    | ok (some frame, rest) ↦
        if ends_with_newline frame then decode_response (peer.parse frame) i else err unterminated
  ]

  -- What the caller has after the connection. A failed write may have reached the peer in part,
  -- so it counts as sent.
  unfoldable pub conclude : Request → Net → Outcome → Result CallError Json × Net
  unfolding receive
  conclude request net refused = (err unavailable, net)
  conclude request net broken = (err send_failed, record net { sent = net.sent ++ request ∷ [] })
  conclude request net (answered fills) =
      (receive request.id fills, record net { sent = net.sent ++ request ∷ [] })

  unfoldable pub call : Str → Str → Json → Net → Result CallError Json × Net
  unfolding conclude
  call secret method params net =
      let request = new_request secret method params net in
      conclude request (record net { next_call_id = suc net.next_call_id }) (peer.respond request)

module _ (h : Hmac) (peer : Peer) where
  abbrev pub challenge_params : Str → Json
  challenge_params challenge = object (field (codes "challenge") (string challenge) end)

  abbrev checked : Str → Str → Result CallError Json × Net → Result CallError (Unit {0}) × Net
  checked token challenge (ok value, net) = (validate_server_proof h value token challenge, net)
  checked token challenge (err e, net) = (err e, net)

  -- `random` is what the system's generator filled the challenge with.
  unfoldable pub verify_server : Str → List ℕ → Net → Result CallError (Unit {0}) × Net
  unfolding call
  verify_server token random net =
      let challenge = hex_encode random in
      checked token challenge
        (call peer [] (codes "getServerProof") (challenge_params challenge) net)

  abbrev proceed :
      Str → Str → Json → Result CallError (Unit {0}) × Net → Result CallError Json × Net
  proceed token method params (ok _, net) = call peer token method params net
  proceed token method params (err e, net) = (err e, net)

  unfoldable pub call_control : Str → Str → Json → List ℕ → Net → Result CallError Json × Net
  unfolding verify_server
  call_control token method params random net =
      proceed token method params (verify_server token random net)
