-- ===== src/Common/Map.antt =====
-- `BTreeMap` and `HashMap` with text keys, as association lists. The order of the keys, which
-- shows only where a map is serialised, is not modelled.
use tron_hawk.Common.Tests.{if◌then◌else◌, Bool-cases}
use tron_hawk.Common.Lists.{All}
use tron_hawk.Common.Text.{Str, str_eq, str_eq_iff, is_some}
use mathlib.Core.Path.{◌≡◌, refl}
use mathlib.Core.Logic.{inl, inr}
use mathlib.Core.Bool.{Bool}
use mathlib.Core.Option.{Option, none, some}
use mathlib.Core.List.{List, [], ◌∷◌}
use native.Mathlib.Omega.{arith}

abbrev pub Map {ℓ} : Type ℓ → Type ℓ
Map V = List (Str × V)

module _ {ℓ} {V : Type ℓ} where
  unfoldable pub lookup : Str → Map V → Option V
  lookup k [] = none
  lookup k ((j, v) ∷ m) = if str_eq j k then some v else lookup k m

  abbrev pub contains_key : Str → Map V → Bool
  contains_key k m = is_some (lookup k m)

  unfoldable pub insert : Str → V → Map V → Map V
  insert k v [] = (k, v) ∷ []
  insert k v ((j, w) ∷ m) = if str_eq j k then (k, v) ∷ m else (j, w) ∷ insert k v m

  unfoldable pub remove : Str → Map V → Map V
  remove k [] = []
  remove k ((j, v) ∷ m) = let rest = remove k m in if str_eq j k then rest else (j, v) ∷ rest

  -- What every value satisfies.
  abbrev pub AllValues {κ} : (V → Type κ) → Map V → Type κ
  AllValues P m = All (λ e. P e.1) m

  pub lookup-insert :
      (k j : Str) (v : V) (m : Map V)
      → lookup j (insert k v m) ≡ (if str_eq k j then some v else lookup j m)
  unfolding lookup insert
  lookup-insert k j v [] = refl
  lookup-insert k j v ((i, w) ∷ m) =
      ground (arith, str_eq_iff k j, str_eq_iff i k, str_eq_iff i j, lookup-insert k j v m)

  pub lookup-remove :
      (k j : Str) (m : Map V) → lookup j (remove k m) ≡ (if str_eq k j then none else lookup j m)
  unfolding lookup remove
  lookup-remove k j [] = ground arith
  lookup-remove k j ((i, w) ∷ m) =
      ground (arith, str_eq_iff k j, str_eq_iff i k, str_eq_iff i j, lookup-remove k j m)

  pub AllValues-lookup {κ} :
      (P : V → Type κ) (k : Str) (m : Map V) (v : V) → AllValues P m → lookup k m ≡ some v → P v
  unfolding lookup
  AllValues-lookup P k [] v h e = cc
  AllValues-lookup P k ((j, w) ∷ m) v h e = elim (Bool-cases (str_eq j k)) [
    | inl same ↦ let same_v : w ≡ v = ground arith in rw (← same_v) h.0
    | inr other ↦ AllValues-lookup P k m v h.1 (ground arith)
  ]

  pub AllValues-insert {κ} :
      (P : V → Type κ) (k : Str) (v : V) (m : Map V)
      → P v
      → AllValues P m
      → AllValues P (insert k v m)
  unfolding insert
  AllValues-insert P k v [] p h = (p, tt)
  AllValues-insert P k v ((j, w) ∷ m) p h = elim (Bool-cases (str_eq j k)) [
    | inl same ↦ rw same (p, h.1)
    | inr other ↦ rw other (h.0, AllValues-insert P k v m p h.1)
  ]

  pub AllValues-remove {κ} :
      (P : V → Type κ) (k : Str) (m : Map V) → AllValues P m → AllValues P (remove k m)
  unfolding remove
  AllValues-remove P k [] h = tt
  AllValues-remove P k ((j, w) ∷ m) h = elim (Bool-cases (str_eq j k)) [
    | inl same ↦ rw same (AllValues-remove P k m h.1)
    | inr other ↦ rw other (h.0, AllValues-remove P k m h.1)
  ]

module _ {ℓ κ} {V : Type ℓ} {W : Type κ} where
  unfoldable pub map_values : (V → W) → Map V → Map W
  map_values f [] = []
  map_values f ((k, v) ∷ m) = (k, f v) ∷ map_values f m

  pub lookup-map_values :
      (f : V → W) (k : Str) (m : Map V)
      → lookup k (map_values f m) ≡ elim (lookup k m) [ none ↦ none | some v ↦ some (f v) ]
  unfolding lookup map_values
  lookup-map_values f k [] = refl
  lookup-map_values f k ((j, v) ∷ m) = ground (arith, lookup-map_values f k m)

  pub AllValues-map_values {μ ν} :
      (P : V → Type μ) (Q : W → Type ν) (f : V → W)
      → ((v : V) → P v → Q (f v))
      → (m : Map V) → AllValues P m
      → AllValues Q (map_values f m)
  unfolding map_values
  AllValues-map_values P Q f g [] h = tt
  AllValues-map_values P Q f g ((k, v) ∷ m) h = (g v h.0, AllValues-map_values P Q f g m h.1)
