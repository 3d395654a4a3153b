-- ===== src/Ipc/Tests.antt =====
-- The properties of crates/ipc/src/lib.rs at concrete inputs.
use tron_hawk.Common.{
  ℕ, zero, suc, ◌≡◌, ◌↔◌, refl, true, none, [], ◌∷◌, List, codes, replicate, All, arith,
}
use tron_hawk.Json.{null}
use tron_hawk.Ipc.Frame.{Fill, filled, read_frame}
use tron_hawk.Ipc.Frame.Chunks.{bytes_of, frame_of, Agrees, read_frame-Agrees}
use tron_hawk.Ipc.Hex.{constant_time_eq}
use tron_hawk.Ipc.Hex.Laws.{AreBytes}
use tron_hawk.Ipc.Hex.Equal.{constant_time_eq_iff}
use tron_hawk.Ipc.Client.{Hmac, Peer, answered, Net, call_control}
use tron_hawk.Ipc.Client.Secrecy.{IsGuarded, call_control-IsGuarded}

abbrev reader : List Fill
reader = filled (1 ∷ 2 ∷ []) ∷ filled (10 ∷ 3 ∷ []) ∷ []

read_frame-Agrees_example : Agrees (read_frame reader) (frame_of (bytes_of reader))
read_frame-Agrees_example = read_frame-Agrees reader tt

abbrev left : List ℕ
left = 1 ∷ 2 ∷ []

abbrev right : List ℕ
right = 1 ∷ 3 ∷ []

constant_time_eq_iff_example : (constant_time_eq left right ≡ true) ↔ (left ≡ right)
constant_time_eq_iff_example =
    constant_time_eq_iff left right (omega arith, (omega arith, tt))
      (omega arith, (omega arith, tt))

zeros-AreBytes : (n : ℕ) → AreBytes (replicate n 0)
zeros-AreBytes zero = tt
zeros-AreBytes (suc n) = (omega arith, zeros-AreBytes n)

abbrev hmac : Hmac
hmac = record {
  mac = λ key message. replicate 32 0;
  mac_bytes = λ key message. zeros-AreBytes 32;
  mac_length = λ key message. refl;
}

-- A peer that does not know the token.
abbrev squatter : Peer
squatter = record { respond = λ request. answered reader; parse = λ frame. none }

abbrev net : Net
net = record { next_call_id = 1; sent = [] }

abbrev random : List ℕ
random = replicate 32 7

call_control-IsGuarded_example :
    All
      (IsGuarded hmac squatter (codes "t") random net)
      (call_control hmac squatter (codes "t") (codes "getManagerSnapshot") null random net).1.sent
call_control-IsGuarded_example =
    call_control-IsGuarded hmac squatter (codes "t") random net (codes "getManagerSnapshot") null
      (λ e. cc e) refl
