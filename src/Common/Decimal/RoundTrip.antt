-- ===== src/Common/Decimal/RoundTrip.antt =====
-- A number that fits is read back from its decimal print.
use Prim.Native.Nat.{ℕ, zero, suc, ◌+◌, ◌-◌, ◌*◌, ◌/◌, ◌%◌, ◌≤◌}
use mathlib.Core.Path.{◌≡◌, refl}
use mathlib.Core.Logic.{inl, inr, ◌≢◌}
use mathlib.Core.Bool.{true, false}
use mathlib.Core.Option.{some}
use mathlib.Core.List.{[], ◌∷◌, ◌++◌, concat-ne-nil}
use native.Mathlib.Omega.{arith}
use tron_hawk.Common.Tests.{ltb, Bool-cases}
use tron_hawk.Common.Lists.{all, all-append}
use tron_hawk.Common.Text.{Str, is_digit}
use tron_hawk.Common.Decimal.{decimal_from, to_decimal, parse_digits, parse_unsigned}

parse_digits-append :
    (bound acc : ℕ) (s t : Str) (n : ℕ)
    → parse_digits bound acc s ≡ some n
    → parse_digits bound acc (s ++ t) ≡ parse_digits bound n t
unfolding parse_digits
parse_digits-append bound acc [] t n h = ground arith
parse_digits-append bound acc (c ∷ s) t n h =
    ground (arith, parse_digits-append bound (acc * 10 + (c - b'0')) s t n)

parse_last :
    (bound n d : ℕ)
    → d ≤ 9
    → n * 10 + d ≤ bound
    → parse_digits bound n ((b'0' + d) ∷ []) ≡ some (n * 10 + d)
unfolding parse_digits
parse_last bound n d h k = ground arith

decimal_small : (fuel n : ℕ) → ltb n 10 ≡ true → decimal_from (suc fuel) n ≡ (b'0' + n) ∷ []
unfolding decimal_from
decimal_small fuel n h = ground arith

decimal_large :
    (fuel n : ℕ)
    → ltb n 10 ≡ false
    → decimal_from (suc fuel) n ≡ decimal_from fuel (n / 10) ++ (b'0' + n % 10) ∷ []
unfolding decimal_from
decimal_large fuel n h = ground arith

parse_digits-decimal_from :
    (bound fuel n : ℕ) → n ≤ fuel → n ≤ bound → parse_digits bound 0 (decimal_from fuel n) ≡ some n
parse_digits-decimal_from bound zero n h k =
    unfold decimal_from in ground (arith, parse_last bound 0 (n % 10))
parse_digits-decimal_from bound (suc fuel) n h k = elim (Bool-cases (ltb n 10)) [
  | inl small ↦ rw (decimal_small fuel n small) (ground (arith, parse_last bound 0 n))
  | inr large ↦
      rw
        (
          decimal_large fuel n large,
          parse_digits-append bound 0 (decimal_from fuel (n / 10)) ((b'0' + n % 10) ∷ []) (n / 10)
              (parse_digits-decimal_from bound fuel (n / 10) (ground arith) (ground arith)),
        )
        (ground (arith, parse_last bound (n / 10) (n % 10)))
]

decimal_from-digits : (fuel n : ℕ) → all is_digit (decimal_from fuel n) ≡ true
unfolding decimal_from
decimal_from-digits zero n = ground arith
decimal_from-digits (suc fuel) n = ground (
  arith,
  decimal_from-digits fuel (n / 10),
  all-append is_digit (decimal_from fuel (n / 10)) ((b'0' + n % 10) ∷ []),
)

pub to_decimal-digits : (n : ℕ) → all is_digit (to_decimal n) ≡ true
unfolding to_decimal
to_decimal-digits n = decimal_from-digits n n

parse_plain :
    (bound : ℕ) (s : Str) (n : ℕ)
    → all is_digit s ≡ true
    → s ≢ []
    → parse_digits bound 0 s ≡ some n
    → parse_unsigned bound s ≡ some n
unfolding parse_unsigned
parse_plain bound [] n d ne h = absurd (ne refl)
parse_plain bound (c ∷ s) n d ne h = ground arith

decimal_from-ne-nil : (fuel n : ℕ) → decimal_from fuel n ≢ []
unfolding decimal_from
decimal_from-ne-nil zero n = cc
decimal_from-ne-nil (suc fuel) n =
    ground (arith, concat-ne-nil (b'0' + n % 10) (decimal_from fuel (n / 10)))

-- Every number that fits the type is read back.
pub parse_unsigned-to_decimal :
    (bound n : ℕ) → n ≤ bound → parse_unsigned bound (to_decimal n) ≡ some n
parse_unsigned-to_decimal bound n h =
    parse_plain bound (to_decimal n) n (to_decimal-digits n)
      (unfold to_decimal in decimal_from-ne-nil n n)
      (unfold to_decimal in parse_digits-decimal_from bound n n (omega arith) h)
