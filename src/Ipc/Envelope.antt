-- ===== src/Ipc/Envelope.antt =====
-- Requests and responses of crates/ipc/src/lib.rs, and how a response is read.
use tron_hawk.Common.{
  ℕ, not, Option, none, some, Str, codes, str_eq, ◌==◌, Result, ok, err, ◌>>◌, reject_if,
}
use tron_hawk.Common.Int.{ℤ}
use tron_hawk.Json.{Json}

abbrev pub protocol_version : Str
protocol_version = codes "0.1"

pub record Request : Type 0 where
  pub version : Str
  pub id : ℕ
  pub method : Str
  pub params : Json
  pub secret : Str

pub record RpcError : Type 0 where
  pub code : ℤ
  pub message : Str

pub data ResponseResult : Type 0 where
  success : Json → ResponseResult
  failure : RpcError → ResponseResult

pub record Response : Type 0 where
  pub version : Str
  pub id : ℕ
  pub result : ResponseResult

abbrev pub response_ok : ℕ → Json → Response
response_ok i value = record { version = protocol_version; id = i; result = success value }

abbrev pub response_err : ℕ → ℤ → Str → Response
response_err i c m = record {
  version = protocol_version;
  id = i;
  result = failure (record { code = c; message = m });
}

-- The object that `Response` is deserialised from; a `null` result is read as none.
pub record Wire : Type 0 where
  pub version : Str
  pub id : ℕ
  pub result : Option Json
  pub error : Option RpcError

abbrev pub result_of_wire : Option Json → Option RpcError → Option ResponseResult
result_of_wire (some r) _ = some (success r)
result_of_wire none (some e) = some (failure e)
result_of_wire none none = none

unfoldable pub response_of_wire : Wire → Option Response
response_of_wire w = elim (result_of_wire w.result w.error) [
  | none ↦ none
  | some r ↦ some (record { version = w.version; id = w.id; result = r })
]

-- What the client reports; the code's messages are their texts.
pub data CallError : Type 0 where
  unavailable malformed unsupported_version wrong_id closed unterminated : CallError
  read_error malformed_proof invalid_proof not_verified send_failed : CallError
  rejected : RpcError → CallError

abbrev pub payload : ResponseResult → Result CallError Json
payload (success value) = ok value
payload (failure e) = err (rejected e)

-- `decode_response_frame`, behind the parse of the frame's text.
unfoldable pub decode_response : Option Wire → ℕ → Result CallError Json
unfolding response_of_wire
decode_response none expected = err malformed
decode_response (some wire) expected = elim (response_of_wire wire) [
  | none ↦ err malformed
  | some response ↦ do
    reject_if (not (str_eq response.version protocol_version)) unsupported_version
    reject_if (not (response.id == expected)) wrong_id
    payload response.result
]
