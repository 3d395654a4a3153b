-- ===== src/Ipc/Hex.antt =====
-- `is_lowercase_hex`, `hex_encode` and `constant_time_eq` of crates/ipc/src/lib.rs. The daemon
-- (crates/core/src/daemon.rs) has the same three functions once more.
pub mod Laws
pub mod Equal
use Prim.Native.Nat.{bit_or, bit_xor}
use tron_hawk.Common.{
  ℕ, ◌+◌, ◌-◌, ◌/◌, ◌%◌, Bool, false, true, ◌&&◌, ◌||◌, List, [], ◌∷◌, length, all, is_digit, leb,
  ◌==◌, Str, bytes, if◌then◌else◌, not,
}

unfoldable pub is_lowercase_hex : Str → Bool
is_lowercase_hex value =
    all (λ byte. is_digit byte || (leb b'a' byte && leb byte b'f')) (bytes value)

-- `DIGITS[i]`
abbrev pub digit : ℕ → ℕ
digit i = if leb i 9 then b'0' + i else b'a' + (i - 10)

-- `byte >> 4` and `byte & 0x0f`
unfoldable pub hex_encode : List ℕ → Str
hex_encode [] = []
hex_encode (byte ∷ rest) = digit (byte / 16) ∷ digit (byte % 16) ∷ hex_encode rest

-- The fold of `difference | (left ^ right)` over the zipped bytes
unfoldable pub difference : ℕ → List ℕ → List ℕ → ℕ
difference d [] right = d
difference d (l ∷ left) [] = d
difference d (l ∷ left) (r ∷ right) = difference (bit_or d (bit_xor l r)) left right

unfoldable pub constant_time_eq : List ℕ → List ℕ → Bool
unfolding difference
constant_time_eq left right =
    if not (length left == length right) then false else difference 0 left right == 0
