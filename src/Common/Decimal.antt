-- ===== src/Common/Decimal.antt =====
-- Unsigned numbers as Rust prints and parses them, and their saturating sums.
pub mod RoundTrip
use tron_hawk.Common.Tests.{ltb, leb, ◌==◌, if◌then◌else◌}
use tron_hawk.Common.Lists.{is_empty}
use tron_hawk.Common.Text.{Str, is_digit}
use Prim.Native.Nat.{ℕ, zero, suc, ◌+◌, ◌-◌, ◌*◌, ◌/◌, ◌%◌, ◌^◌}
use mathlib.Core.Bool.{true, false}
use mathlib.Core.Option.{Option, none, some}
use mathlib.Core.List.{[], ◌∷◌, ◌++◌}

abbrev pub max_u64 : ℕ
max_u64 = 2 ^ 64 - 1

abbrev pub max_u16 : ℕ
max_u16 = 2 ^ 16 - 1

abbrev pub max_u8 : ℕ
max_u8 = 2 ^ 8 - 1

-- One digit each round; a number is its own fuel.
unfoldable pub decimal_from : ℕ → ℕ → Str
decimal_from zero n = (b'0' + n % 10) ∷ []
decimal_from (suc fuel) n = elim (ltb n 10) [
  | true ↦ (b'0' + n) ∷ []
  | false ↦ decimal_from fuel (n / 10) ++ (b'0' + n % 10) ∷ []
]

-- `n.to_string()`
unfoldable pub to_decimal : ℕ → Str
unfolding decimal_from
to_decimal n = decimal_from n n

-- The digits behind `acc`, with the overflow test of an unsigned type.
unfoldable pub parse_digits : ℕ → ℕ → Str → Option ℕ
parse_digits bound acc [] = some acc
parse_digits bound acc (c ∷ s) =
    let n = acc * 10 + (c - b'0') in
    let rest = parse_digits bound n s in
    if is_digit c then (if leb n bound then rest else none) else none

-- `str::parse` of an unsigned type: a leading `+` is taken.
unfoldable pub parse_unsigned : ℕ → Str → Option ℕ
unfolding parse_digits
parse_unsigned bound [] = none
parse_unsigned bound (c ∷ s) =
    if c == b'+'
    then (if is_empty s then none else parse_digits bound 0 s)
    else parse_digits bound 0 (c ∷ s)

-- `u64::saturating_add`
abbrev pub saturating_add : ℕ → ℕ → ℕ
saturating_add a b = if leb (a + b) max_u64 then a + b else max_u64
