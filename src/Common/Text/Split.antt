-- ===== src/Common/Text/Split.antt =====
-- `str::split` at a character, and joining the parts again.
use Prim.Native.Nat.{ℕ}
use mathlib.Core.Path.{◌≡◌, refl}
use mathlib.Core.Logic.{◌≢◌, inl, inr}
use mathlib.Core.Bool.{false}
use mathlib.Core.Option.{Option, none, some}
use mathlib.Core.List.{List, [], ◌∷◌, ◌++◌}
use native.Mathlib.Omega.{arith}
use tron_hawk.Common.Tests.{◌==◌, if◌then◌else◌, Bool-cases, Option-cases, ==_refl}
use tron_hawk.Common.Lists.{All}
use tron_hawk.Common.Text.Chars.{Str, contains}

abbrev push_front : ℕ → List Str → List Str
push_front c [] = (c ∷ []) ∷ []
push_front c (p ∷ ps) = (c ∷ p) ∷ ps

unfoldable pub split : ℕ → Str → List Str
split sep [] = [] ∷ []
split sep (c ∷ s) = let parts = split sep s in if c == sep then [] ∷ parts else push_front c parts

unfoldable pub join : ℕ → List Str → Str
join sep [] = []
join sep (p ∷ []) = p
join sep (p ∷ q ∷ ps) = p ++ (sep ∷ join sep (q ∷ ps))

pub split-ne-nil : (sep : ℕ) (s : Str) → split sep s ≢ []
unfolding split
split-ne-nil sep [] = cc
split-ne-nil sep (c ∷ s) = ground (arith, split-ne-nil sep s)

-- Another character belongs to the first part.
pub split-cons :
    (sep c : ℕ) (s : Str)
    → (c == sep) ≡ false
    → (p : Str) × (ps : List Str) × (split sep s ≡ p ∷ ps) × (split sep (c ∷ s) ≡ (c ∷ p) ∷ ps)
unfolding split
split-cons sep c [] h = ([], [], refl, rw h refl)
split-cons sep c (d ∷ s) h = elim (Bool-cases (d == sep)) [
  | inl here ↦ ([], split sep s, rw here refl, rw (here, h) refl)
  | inr other ↦ let (p, ps, e, f) = split-cons sep d s other in (d ∷ p, ps, f, rw (h, f) refl)
]

-- No part holds the separator.
push_front-All :
    (sep c : ℕ) (ps : List Str)
    → (c == sep) ≡ false
    → All (λ p. contains sep p ≡ false) ps
    → All (λ p. contains sep p ≡ false) (push_front c ps)
push_front-All sep c [] h a = (ground arith, tt)
push_front-All sep c (p ∷ ps) h (b, a) = (ground arith, a)

pub split-All : (sep : ℕ) (s : Str) → All (λ p. contains sep p ≡ false) (split sep s)
unfolding split
split-All sep [] = (refl, tt)
split-All sep (c ∷ s) = elim (Bool-cases (c == sep)) [
  | inl here ↦ rw here (refl, split-All sep s)
  | inr other ↦ rw other (push_front-All sep c (split sep s) other (split-All sep s))
]

-- A text with no separator is its one part.
pub split_whole : (sep : ℕ) (p : Str) → contains sep p ≡ false → split sep p ≡ p ∷ []
unfolding split
split_whole sep [] h = refl
split_whole sep (c ∷ p) h = ground (arith, split_whole sep p)

-- The first separator ends the first part.
pub split-append :
    (sep : ℕ) (p rest : Str)
    → contains sep p ≡ false
    → split sep (p ++ (sep ∷ rest)) ≡ p ∷ split sep rest
unfolding split
split-append sep [] rest h = rw ==_refl
split-append sep (c ∷ p) rest h = ground (arith, split-append sep p rest)

-- Parts that hold no separator come back from their join.
pub split-join :
    (sep : ℕ) (p : Str) (ps : List Str)
    → All (λ q. contains sep q ≡ false) (p ∷ ps)
    → split sep (join sep (p ∷ ps)) ≡ p ∷ ps
unfolding join
split-join sep p [] a = split_whole sep p a.0
split-join sep p (q ∷ ps) a =
    rw (split-append sep p (join sep (q ∷ ps)) a.0, split-join sep q ps a.1) refl

join-push_front :
    (sep c : ℕ) (parts : List Str) → parts ≢ [] → join sep (push_front c parts) ≡ c ∷ join sep parts
unfolding join
join-push_front sep c [] h = absurd (h refl)
join-push_front sep c (p ∷ []) h = refl
join-push_front sep c (p ∷ q ∷ ps) h = refl

join-empty :
    (sep : ℕ) (parts : List Str) → parts ≢ [] → join sep ([] ∷ parts) ≡ sep ∷ join sep parts
unfolding join
join-empty sep [] h = absurd (h refl)
join-empty sep (q ∷ ps) h = refl

-- The parts make up the text again.
pub join-split : (sep : ℕ) (s : Str) → join sep (split sep s) ≡ s
unfolding split
join-split sep [] = unfold join in refl
join-split sep (c ∷ s) =
    let there = split-ne-nil sep s in
    elim (Bool-cases (c == sep)) [
      | inl here ↦ rw (here, join-empty sep (split sep s) there, join-split sep s) (ground arith)
      | inr other ↦ rw (other, join-push_front sep c (split sep s) there, join-split sep s) refl
    ]

-- `rsplit_once` at a character
unfoldable pub rsplit_once : ℕ → Str → Option (Str × Str)
rsplit_once sep [] = none
rsplit_once sep (c ∷ s) = elim (rsplit_once sep s) [
  | some (before, after) ↦ some (c ∷ before, after)
  | none ↦ if c == sep then some ([], s) else none
]

pub rsplit_once-none : (sep : ℕ) (s : Str) → contains sep s ≡ false → rsplit_once sep s ≡ none
unfolding rsplit_once
rsplit_once-none sep [] h = refl
rsplit_once-none sep (c ∷ s) h = ground (arith, rsplit_once-none sep s)

-- What stands behind the last separator is split off.
pub rsplit_once-append :
    (sep : ℕ) (s t : Str) → contains sep t ≡ false → rsplit_once sep (s ++ (sep ∷ t)) ≡ some (s, t)
unfolding rsplit_once
rsplit_once-append sep [] t h = rw (rsplit_once-none sep t h) (rw ==_refl)
rsplit_once-append sep (c ∷ s) t h = rw (rsplit_once-append sep s t h)

pub rsplit_once_sound :
    (sep : ℕ) (s before after : Str)
    → rsplit_once sep s ≡ some (before, after)
    → s ≡ before ++ (sep ∷ after)
unfolding rsplit_once
rsplit_once_sound sep [] before after h = cc
rsplit_once_sound sep (c ∷ s) before after h = elim (Option-cases (rsplit_once sep s)) [
  | inl missed ↦ ground (arith)
  | inr ((b, a), found) ↦ ground (arith, rsplit_once_sound sep s b a)
]
