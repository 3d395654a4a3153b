-- ===== src/Common/Text/Chars.antt =====
-- Texts as lists of code points: literals, equality, and the classes of characters.
use Prim.Native.Char.{code}
use Prim.Native.String.{String}
use Prim.Native.Nat.{ℕ, ◌+◌}
use mathlib.Core.Path.{◌≡◌, refl, subst}
use mathlib.Core.Logic.{◌↔◌, inl, inr}
use mathlib.Core.Bool.{Bool, true, false, ◌&&◌, ◌||◌}
use mathlib.Core.Option.{Option, none, some}
use mathlib.Core.List.{List, [], ◌∷◌, map, reverse}
use native.Mathlib.Omega.{arith}
use tron_hawk.Common.Tests.{leb, ◌==◌, if◌then◌else◌, Bool-cases}
use tron_hawk.Common.Lists.{any, All, All-map}

abbrev pub Str : Type 0
Str = List ℕ

-- The code points of a literal.
abbrev pub codes : String → Str
codes String.[] = []
codes (String.◌∷◌ c s) = code c ∷ codes s

unfoldable pub str_eq : Str → Str → Bool
str_eq [] [] = true
str_eq [] (d ∷ t) = false
str_eq (c ∷ s) [] = false
str_eq (c ∷ s) (d ∷ t) = c == d && str_eq s t

str_eq_sound : (s t : Str) → (str_eq s t) ≡ true → s ≡ t
unfolding str_eq
str_eq_sound [] [] h = refl
str_eq_sound [] (d ∷ t) h = cc
str_eq_sound (c ∷ s) [] h = cc
str_eq_sound (c ∷ s) (d ∷ t) h = ground (arith, str_eq_sound s t)

pub str_eq_refl : (s : Str) → (str_eq s s) ≡ true
unfolding str_eq
str_eq_refl [] = refl
str_eq_refl (c ∷ s) = ground (arith, str_eq_refl s)

pub str_eq_iff : (s t : Str) → ((str_eq s t) ≡ true) ↔ (s ≡ t)
str_eq_iff s t = (str_eq_sound s t, λ e. rw e (str_eq_refl t))

-- `contains` of a list of texts
abbrev pub contains_text : List Str → Str → Bool
contains_text texts t = any (λ x. str_eq x t) texts

-- `is_ascii_digit` and the like
abbrev pub is_digit : ℕ → Bool
is_digit c = leb b'0' c && leb c b'9'

abbrev pub is_lower : ℕ → Bool
is_lower c = leb b'a' c && leb c b'z'

abbrev pub is_upper : ℕ → Bool
is_upper c = leb b'A' c && leb c b'Z'

abbrev pub is_alphanumeric : ℕ → Bool
is_alphanumeric c = is_digit c || is_lower c || is_upper c

-- `to_ascii_lowercase`, of a character and of a text
abbrev pub to_lower : ℕ → ℕ
to_lower c = if is_upper c then c + 32 else c

abbrev pub lowercase : Str → Str
lowercase s = map to_lower s

pub to_lower_idem : (c : ℕ) → to_lower (to_lower c) ≡ to_lower c
to_lower_idem c = ground arith

pub lowercase_idem : (s : Str) → lowercase (lowercase s) ≡ lowercase s
lowercase_idem [] = refl
lowercase_idem (c ∷ s) = cc (to_lower_idem c, lowercase_idem s)

-- `str::contains` of a character
abbrev pub contains : ℕ → Str → Bool
contains c s = any (λ x. x == c) s

-- `strip_prefix`, and `starts_with`
abbrev pub strip_prefix : Str → Str → Option Str
strip_prefix [] s = some s
strip_prefix (p ∷ ps) [] = none
strip_prefix (p ∷ ps) (c ∷ s) = if p == c then strip_prefix ps s else none

abbrev pub is_some {ℓ} : {A : Type ℓ} → Option A → Bool
is_some none = false
is_some (some a) = true

abbrev pub starts_with : Str → Str → Bool
starts_with s p = is_some (strip_prefix p s)

-- `str::contains` of a text
abbrev pub contains_str : Str → Str → Bool
contains_str p [] = starts_with [] p
contains_str p (c ∷ s) = starts_with (c ∷ s) p || contains_str p s

abbrev pub last? {ℓ} : {A : Type ℓ} → List A → Option A
last? [] = none
last? (x ∷ []) = some x
last? (x ∷ y ∷ xs) = last? (y ∷ xs)

abbrev pub ends_with_char : ℕ → Str → Bool
ends_with_char c s = elim (last? s) [ none ↦ false | some d ↦ d == c ]

-- The Unicode property White_Space, by which `trim` goes.
abbrev pub is_whitespace : ℕ → Bool
is_whitespace c =
    (leb 9 c && leb c 13)
    || (c == 32 || c == 0x85 || c == 0xa0 || c == 0x1680)
    || ((leb 0x2000 c && leb c 0x200a) || c == 0x2028 || c == 0x2029 || c == 0x202f)
    || (c == 0x205f || c == 0x3000)

unfoldable pub trim_start : Str → Str
trim_start [] = []
trim_start (c ∷ s) = if is_whitespace c then trim_start s else c ∷ s

unfoldable pub trim : Str → Str
unfolding trim_start
trim s = reverse (trim_start (reverse (trim_start s)))

-- Every element of a list is found in it.
pub contains_text-All : (texts : List Str) → All (λ t. contains_text texts t ≡ true) texts
contains_text-All [] = tt
contains_text-All (t ∷ texts) =
    (ground (arith, str_eq_refl t), All-map (λ x h. ground arith) texts (contains_text-All texts))

-- What all elements satisfy holds of a text that is found.
pub All-contains_text {ℓ} :
    (P : Str → Type ℓ) (texts : List Str) (t : Str)
    → All P texts
    → contains_text texts t ≡ true
    → P t
All-contains_text P [] t h e = cc
All-contains_text P (x ∷ texts) t h e = elim (Bool-cases (str_eq x t)) [
  | inl same ↦ subst P ((str_eq_iff x t).0 same) h.0
  | inr other ↦ All-contains_text P texts t h.1 (ground arith)
]
