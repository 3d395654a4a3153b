-- ===== src/Daemon/Hash.antt =====
-- `hash_bytes` of crates/core/src/lib.rs: FNV-1a over 64 bits, printed in sixteen digits.
use Prim.Native.Nat.{bit_xor}
use tron_hawk.Common.{
  ℕ, zero, suc, ◌*◌, ◌/◌, ◌%◌, ◌^◌, ◌≡◌, refl, List, [], ◌∷◌, ◌++◌, Str, length, arith,
  length-append,
}
use tron_hawk.Ipc.Hex.{digit}

unfoldable pub fnv : ℕ → List ℕ → ℕ
fnv hash [] = hash
fnv hash (b ∷ rest) = fnv (bit_xor hash b * 0x100000001b3 % 2 ^ 64) rest

-- The lowest `n` hexadecimal digits: `{:016x}` of a 64-bit number for n = 16.
unfoldable pub hex_digits : ℕ → ℕ → Str
hex_digits zero x = []
hex_digits (suc n) x = hex_digits n (x / 16) ++ digit (x % 16) ∷ []

unfoldable pub hash_bytes : List ℕ → Str
unfolding fnv hex_digits
hash_bytes bytes = hex_digits 16 (fnv 0xcbf29ce484222325 bytes)

length-hex_digits : (n x : ℕ) → length (hex_digits n x) ≡ n
unfolding hex_digits
length-hex_digits zero x = refl
length-hex_digits (suc n) x = omega (
  arith,
  length-append (hex_digits n (x / 16)) (digit (x % 16) ∷ []),
  length-hex_digits n (x / 16),
)
