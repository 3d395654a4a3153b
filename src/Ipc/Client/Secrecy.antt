-- ===== src/Ipc/Client/Secrecy.antt =====
-- The control token goes to no peer that has not proved that it holds the token.
use tron_hawk.Common.{
  ℕ, suc, ◌≡◌, ◌≢◌, refl, sym, ◌∙◌, true, Option, none, some, List, [], ◌∷◌, Str, codes, bytes, len,
  Result, ok, err, All, All-append, arith,
}
use tron_hawk.Json.{Json, string, get}
use tron_hawk.Ipc.Envelope.{Request, CallError}
use tron_hawk.Ipc.Hex.{is_lowercase_hex, hex_encode, constant_time_eq}
use tron_hawk.Ipc.Hex.Laws.{bytes-hex, hex-AreBytes, hex_encode-is_lowercase_hex, len-hex_encode}
use tron_hawk.Ipc.Hex.Equal.{constant_time_eq_iff}
use tron_hawk.Ipc.Client.{
  Hmac, Outcome, refused, broken, answered, Peer, Net, compute_server_proof, validate_server_proof,
  call, challenge_params, verify_server, call_control, checked, proceed, conclude, new_request,
}

module _ (h : Hmac) (token challenge : Str) where
  proof-is_lowercase_hex : is_lowercase_hex (compute_server_proof h token challenge) ≡ true
  unfolding compute_server_proof
  proof-is_lowercase_hex = hex_encode-is_lowercase_hex _ (h.mac_bytes _ _)

  len-proof : len (compute_server_proof h token challenge) ≡ 64
  unfolding compute_server_proof
  len-proof = omega (arith, len-hex_encode (h.mac _ _) (h.mac_bytes _ _), h.mac_length _ _)

  -- A hexadecimal text that compares equal to the proof is the proof.
  eq_proof :
      (proof : Str)
      → is_lowercase_hex proof ≡ true
      → constant_time_eq (bytes proof) (bytes (compute_server_proof h token challenge)) ≡ true
      → proof ≡ compute_server_proof h token challenge
  eq_proof proof hex same =
      let expected = compute_server_proof h token challenge in
      sym (bytes-hex proof hex)
      ∙ (constant_time_eq_iff (bytes proof) (bytes expected) (hex-AreBytes proof hex)
            (hex-AreBytes expected proof-is_lowercase_hex)).0
          same
      ∙ bytes-hex expected proof-is_lowercase_hex

  validated :
      (o : Option Json) (response : Json)
      → get (codes "proof") response ≡ o
      → validate_server_proof h response token challenge ≡ ok tt
      → o ≡ some (string (compute_server_proof h token challenge))
  unfolding validate_server_proof
  validated (some (string proof)) response e v = ground (arith, eq_proof proof)
  validated none response e v = ground arith
  validated (some _) response e v = ground arith

  -- The proof that a holder of the token computes passes the check.
  pub validate-proof :
      (response : Json)
      → get (codes "proof") response ≡ some (string (compute_server_proof h token challenge))
      → validate_server_proof h response token challenge ≡ ok tt
  unfolding validate_server_proof
  validate-proof response e =
      let expected = compute_server_proof h token challenge in
      ground (
        arith,
        proof-is_lowercase_hex,
        len-proof,
        (constant_time_eq_iff (bytes expected) (bytes expected)
              (hex-AreBytes expected proof-is_lowercase_hex)
              (hex-AreBytes expected proof-is_lowercase_hex)).1
            refl,
      )

module _ (P : Request → Type 0) (peer : Peer) (request : Request) (net : Net) where
  conclude-sent :
      (o : Outcome) → P request → All P net.sent → All P (conclude peer request net o).1.sent
  unfolding conclude
  conclude-sent refused p held = held
  conclude-sent broken p held = All-append P net.sent (request ∷ []) held (p, tt)
  conclude-sent (answered fills) p held = All-append P net.sent (request ∷ []) held (p, tt)

-- A call writes at most one request, with its own secret.
call-sent :
    (P : Request → Type 0) (peer : Peer) (secret method : Str) (params : Json) (net : Net)
    → ((q : Request) → q.secret ≡ secret → P q)
    → All P net.sent
    → All P (call peer secret method params net).1.sent
unfolding call
call-sent P peer secret method params net mine held =
    let request = new_request secret method params net in
    conclude-sent P peer request (record net { next_call_id = suc net.next_call_id })
      (peer.respond request) (mine request refl) held

module _ (h : Hmac) (peer : Peer) (token challenge : Str) where
  -- The answer holds the proof that only a holder of the token computes.
  abbrev Proves : Result CallError Json × Net → Type 0
  Proves p =
      (response : Json) × (p.0 ≡ ok response)
      × (get (codes "proof") response ≡ some (string (compute_server_proof h token challenge)))

  checked-Proves :
      (p : Result CallError Json × Net) → (checked h peer token challenge p).0 ≡ ok tt → Proves p
  checked-Proves (ok response, net) v =
      (response, refl, validated h token challenge _ response refl v)
  checked-Proves (err e, net) v = cc

  checked-net : (p : Result CallError Json × Net) → (checked h peer token challenge p).1 ≡ p.1
  checked-net (ok response, net) = refl
  checked-net (err e, net) = refl

module _ (h : Hmac) (peer : Peer) (token : Str) (random : List ℕ) (net : Net) where
  -- The call of `getServerProof` with the challenge.
  abbrev probe : Result CallError Json × Net
  probe = call peer [] (codes "getServerProof") (challenge_params h peer (hex_encode random)) net

  abbrev pub IsProved : Type 0
  IsProved = Proves h peer token (hex_encode random) probe

  verify_server-IsProved : (verify_server h peer token random net).0 ≡ ok tt → IsProved
  unfolding verify_server
  verify_server-IsProved v = checked-Proves h peer token (hex_encode random) probe v

  verify_server-net : (verify_server h peer token random net).1 ≡ probe.1
  unfolding verify_server
  verify_server-net = checked-net h peer token (hex_encode random) probe

  -- What may carry the token: nothing, until the peer has proved itself.
  abbrev pub IsGuarded : Request → Type 0
  IsGuarded q = q.secret ≡ token → IsProved

  proceed-IsGuarded :
      (method : Str) (params : Json) (p : Result CallError (Unit {0}) × Net)
      → (p.0 ≡ ok tt → IsProved)
      → All IsGuarded p.1.sent
      → All IsGuarded (proceed h peer token method params p).1.sent
  proceed-IsGuarded method params (ok _, net') proved held =
      call-sent IsGuarded peer token method params net' (λ q e s. proved refl) held
  proceed-IsGuarded method params (err e, net') proved held = held

  -- Of all requests that `call_control` writes, one that carries the token is written only if the
  -- peer has answered a fresh challenge with the proof of a holder of the token.
  pub call_control-IsGuarded :
      (method : Str) (params : Json)
      → token ≢ []
      → net.sent ≡ []
      → All IsGuarded (call_control h peer token method params random net).1.sent
  unfolding call_control
  call_control-IsGuarded method params secret fresh =
      proceed-IsGuarded method params (verify_server h peer token random net) verify_server-IsProved
        (rw verify_server-net (
          call-sent IsGuarded peer [] (codes "getServerProof")
            (challenge_params h peer (hex_encode random)) net (λ q e s. absurd (secret (sym s ∙ e)))
            (rw fresh tt)))
