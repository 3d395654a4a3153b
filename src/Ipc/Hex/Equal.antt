-- ===== src/Ipc/Hex/Equal.antt =====
-- `constant_time_eq` decides equality of byte strings.
use Prim.Native.Nat.{bit_or, bit_xor}
use tron_hawk.Common.{
  ℕ, zero, suc, ◌<◌, ◌≡◌, refl, ◌↔◌, Bool, true, ◌&&◌, not, List, [], ◌∷◌, length, arith, ◌==◌, ltb,
  if◌then◌else◌, false, Bool-cases, and-split, ==_iff, inl, inr,
}
use tron_hawk.Ipc.Hex.{difference, constant_time_eq}
use tron_hawk.Ipc.Hex.Laws.{AreBytes}

-- A test of every pair of bytes, run on all of them.
row_passes : (ℕ → ℕ → Bool) → ℕ → ℕ → Bool
row_passes test a zero = true
row_passes test a (suc top) = if test a top then row_passes test a top else false

table_passes : (ℕ → ℕ → Bool) → ℕ → Bool
unfolding row_passes
table_passes test zero = true
table_passes test (suc top) = row_passes test top 256 && table_passes test top

module _ (test : ℕ → ℕ → Bool) (a b : ℕ) where
  row_passes-at : (top : ℕ) → b < top → row_passes test a top ≡ true → test a b ≡ true
  unfolding row_passes
  row_passes-at zero below passed = absurd (omega arith)
  row_passes-at (suc top) below passed = ground (arith, row_passes-at top)

  table_passes-at : (top : ℕ) → a < top → b < 256 → table_passes test top ≡ true → test a b ≡ true
  unfolding table_passes
  table_passes-at zero below small passed = absurd (omega arith)
  table_passes-at (suc top) below small passed = elim (Bool-cases (a == top)) [
    | inl here ↦
        let same : a ≡ top = (==_iff a top).0 here in
        row_passes-at 256 small (rw same (and-split _ _ passed).0)
    | inr above ↦ table_passes-at top (ground arith) small (and-split _ _ passed).1
  ]

abbrev xor_fact : ℕ → ℕ → Bool
xor_fact a b = if bit_xor a b == 0 then a == b else not (a == b) && ltb (bit_xor a b) 256

abbrev or_fact : ℕ → ℕ → Bool
or_fact d x = if bit_or d x == 0 then d == 0 && x == 0 else ltb (bit_or d x) 256

xor_table : table_passes xor_fact 256 ≡ true
unfolding table_passes
xor_table = refl

or_table : table_passes or_fact 256 ≡ true
unfolding table_passes
or_table = refl

xor_byte : (a b : ℕ) → a < 256 → b < 256 → xor_fact a b ≡ true
xor_byte a b ha hb = table_passes-at xor_fact a b 256 ha hb xor_table

or_byte : (d x : ℕ) → d < 256 → x < 256 → or_fact d x ≡ true
or_byte d x hd hx = table_passes-at or_fact d x 256 hd hx or_table

-- One round: the difference stays a byte, and is 0 exactly if it was and the bytes are equal.
mix_byte :
    (d l r : ℕ)
    → d < 256
    → l < 256
    → r < 256
    → (bit_or d (bit_xor l r) < 256) × ((bit_or d (bit_xor l r) ≡ 0) ↔ ((d ≡ 0) × (l ≡ r)))
mix_byte d l r hd hl hr = ground (arith, xor_byte l r hl hr, or_byte d (bit_xor l r), or_byte d 0)

difference_iff :
    (d : ℕ) (left right : List ℕ)
    → d < 256
    → AreBytes left
    → AreBytes right
    → length left ≡ length right
    → (difference d left right ≡ 0) ↔ ((d ≡ 0) × (left ≡ right))
unfolding difference
difference_iff d [] [] hd hl hr e = ground arith
difference_iff d [] (r ∷ right) hd hl hr e = absurd (omega arith)
difference_iff d (l ∷ left) [] hd hl hr e = absurd (omega arith)
difference_iff d (l ∷ left) (r ∷ right) hd hl hr e =
    let (small, zero_iff) = mix_byte d l r hd hl.0 hr.0 in
    ground (
      arith,
      zero_iff,
      difference_iff (bit_or d (bit_xor l r)) left right small hl.1 hr.1 (omega arith),
    )

-- On byte strings, `constant_time_eq` is true exactly of equal ones.
pub constant_time_eq_iff :
    (left right : List ℕ)
    → AreBytes left
    → AreBytes right
    → (constant_time_eq left right ≡ true) ↔ (left ≡ right)
unfolding constant_time_eq
constant_time_eq_iff left right hl hr =
    ground (arith, difference_iff 0 left right (omega arith) hl hr)
