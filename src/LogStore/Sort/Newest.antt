-- ===== src/LogStore/Sort/Newest.antt =====
-- A sort of ascending pieces, the later ones first, is all of them backwards.
use tron_hawk.Common.{
  ◌<◌, ◌≡◌, refl, sym, ap, ◌∙◌, Bool, List, [], ◌∷◌, ◌++◌, retain, leb, take, All, All-append,
  All-map, All-retain, Bool-cases, inl, inr, arith,
}
use mathlib.Core.List.{append_assoc, append-nil}
use tron_hawk.LogStore.Record.{LogRecord}
use tron_hawk.LogStore.Sort.{LogQuery, matches, insert_newest, sort_newest, select}

abbrev pub IsOlder : LogRecord → LogRecord → Type 0
IsOlder r s = r.sequence < s.sequence

-- Each record has a greater sequence than those before it.
abbrev pub IsAscending : List LogRecord → Type 0
IsAscending [] = Unit
IsAscending (r ∷ rs) = All (IsOlder r) rs × IsAscending rs

unfoldable pub newest_first : List LogRecord → List LogRecord
newest_first [] = []
newest_first (r ∷ rs) = newest_first rs ++ (r ∷ [])

insert_newest-behind :
    (r : LogRecord) (rs out : List LogRecord)
    → All (IsOlder r) rs
    → All (λ s. IsOlder s r) out
    → insert_newest r (rs ++ out) ≡ rs ++ (r ∷ out)
unfolding insert_newest
insert_newest-behind r [] [] h k = refl
insert_newest-behind r [] (s ∷ out) h k = ground arith
insert_newest-behind r (s ∷ rs) out h k = ground (arith, insert_newest-behind r rs out)

newest_first-All :
    (P : LogRecord → Type 0) (rs : List LogRecord) → All P rs → All P (newest_first rs)
unfolding newest_first
newest_first-All P [] h = tt
newest_first-All P (r ∷ rs) h =
    All-append P (newest_first rs) (r ∷ []) (newest_first-All P rs h.1) (h.0, tt)

insert_newest-All :
    (P : LogRecord → Type 0) (r : LogRecord) (rs : List LogRecord)
    → P r
    → All P rs
    → All P (insert_newest r rs)
unfolding insert_newest
insert_newest-All P r [] p h = (p, tt)
insert_newest-All P r (s ∷ rs) p h = elim (Bool-cases (leb s.sequence r.sequence)) [
  | inl first ↦ rw first (p, h)
  | inr later ↦ rw later (h.0, insert_newest-All P r rs p h.1)
]

sort_newest-All : (P : LogRecord → Type 0) (rs : List LogRecord) → All P rs → All P (sort_newest rs)
unfolding sort_newest
sort_newest-All P [] h = tt
sort_newest-All P (r ∷ rs) h = insert_newest-All P r (sort_newest rs) h.0 (sort_newest-All P rs h.1)

sort_newest-append :
    (xs ys : List LogRecord)
    → IsAscending xs
    → All (λ x. All (λ y. IsOlder y x) ys) xs
    → sort_newest (xs ++ ys) ≡ newest_first xs ++ sort_newest ys
unfolding sort_newest newest_first
sort_newest-append [] ys a h = refl
sort_newest-append (x ∷ xs) ys a h =
    ap (insert_newest x) (sort_newest-append xs ys a.1 h.1)
    ∙ insert_newest-behind x (newest_first xs) (sort_newest ys)
        (newest_first-All (IsOlder x) xs a.0) (sort_newest-All (λ y. IsOlder y x) ys h.0)
    ∙ sym (append_assoc (newest_first xs) (x ∷ []) (sort_newest ys))

newest_first-append :
    (xs ys : List LogRecord) → newest_first (xs ++ ys) ≡ newest_first ys ++ newest_first xs
unfolding newest_first
newest_first-append [] ys = sym (append-nil (newest_first ys))
newest_first-append (x ∷ xs) ys =
    ap (λ t. t ++ (x ∷ [])) (newest_first-append xs ys)
    ∙ append_assoc (newest_first ys) (newest_first xs) (x ∷ [])

-- The files one after the other, the newest first, and in the order of writing.
abbrev pub flatten : List (List LogRecord) → List LogRecord
flatten [] = []
flatten (f ∷ fs) = f ++ flatten fs

abbrev pub in_order : List (List LogRecord) → List LogRecord
in_order [] = []
in_order (f ∷ fs) = in_order fs ++ f

module _ (P : LogRecord → Type 0) where
  pub All-append_left : (xs ys : List LogRecord) → All P (xs ++ ys) → All P xs × All P ys
  All-append_left [] ys h = (tt, h)
  All-append_left (x ∷ xs) ys h = let (hx, hy) = All-append_left xs ys h.1 in ((h.0, hx), hy)

  flatten-All : (fs : List (List LogRecord)) → All P (in_order fs) → All P (flatten fs)
  flatten-All [] h = tt
  flatten-All (f ∷ fs) h =
      let (older, newer) = All-append_left (in_order fs) f h in
      All-append P f (flatten fs) newer (flatten-All fs older)

-- An ascending list in two: each is, and the first is older.
pub IsAscending-append :
    (xs ys : List LogRecord)
    → IsAscending (xs ++ ys)
    → IsAscending xs × IsAscending ys × All (λ x. All (IsOlder x) ys) xs
IsAscending-append [] ys h = (tt, h, tt)
IsAscending-append (x ∷ xs) ys h =
    let (ax, ay, cross) = IsAscending-append xs ys h.1 in
    let (hx, hy) = All-append_left (IsOlder x) xs ys h.0 in ((hx, ax), ay, (hy, cross))

-- One record of the newer list against the older one.
turn_first :
    (xs ys : List LogRecord) (y : LogRecord)
    → All (λ x. All (IsOlder x) (y ∷ ys)) xs
    → All (λ x. IsOlder x y) xs × All (λ x. All (IsOlder x) ys) xs
turn_first [] ys y h = (tt, tt)
turn_first (x ∷ xs) ys y h =
    let (here, rest) = turn_first xs ys y h.1 in ((h.0.0, here), (h.0.1, rest))

-- That all of one list are older than all of another, said of the other.
turn :
    (xs ys : List LogRecord)
    → All (λ x. All (IsOlder x) ys) xs
    → All (λ y. All (λ x. IsOlder x y) xs) ys
turn xs [] h = tt
turn xs (y ∷ ys) h = let (here, rest) = turn_first xs ys y h in (here, turn xs ys rest)

-- Sorting the files, the newest first, gives all records backwards.
pub sort_newest-flatten :
    (fs : List (List LogRecord))
    → IsAscending (in_order fs)
    → sort_newest (flatten fs) ≡ newest_first (in_order fs)
sort_newest-flatten [] a = unfold sort_newest newest_first in refl
sort_newest-flatten (f ∷ fs) a =
    let (older, newer, cross) = IsAscending-append (in_order fs) f a in
    sort_newest-append f (flatten fs) newer
      (All-map (λ x h. flatten-All (λ y. IsOlder y x) fs h) f (turn (in_order fs) f cross))
    ∙ ap (λ t. newest_first f ++ t) (sort_newest-flatten fs older)
    ∙ sym (newest_first-append (in_order fs) f)

pub retain-append :
    (p : LogRecord → Bool) (xs ys : List LogRecord)
    → retain p (xs ++ ys) ≡ retain p xs ++ retain p ys
retain-append p [] ys = refl
retain-append p (x ∷ xs) ys = ground (arith, retain-append p xs ys)

abbrev pub retain_each : (LogRecord → Bool) → List (List LogRecord) → List (List LogRecord)
retain_each p [] = []
retain_each p (f ∷ fs) = retain p f ∷ retain_each p fs

retain-flatten :
    (p : LogRecord → Bool) (fs : List (List LogRecord))
    → retain p (flatten fs) ≡ flatten (retain_each p fs)
retain-flatten p [] = refl
retain-flatten p (f ∷ fs) =
    retain-append p f (flatten fs) ∙ ap (λ t. retain p f ++ t) (retain-flatten p fs)

retain-in_order :
    (p : LogRecord → Bool) (fs : List (List LogRecord))
    → retain p (in_order fs) ≡ in_order (retain_each p fs)
retain-in_order p [] = refl
retain-in_order p (f ∷ fs) =
    retain-append p (in_order fs) f ∙ ap (λ t. t ++ retain p f) (retain-in_order p fs)

pub retain-IsAscending :
    (p : LogRecord → Bool) (rs : List LogRecord) → IsAscending rs → IsAscending (retain p rs)
retain-IsAscending p [] a = tt
retain-IsAscending p (r ∷ rs) a = elim (Bool-cases (p r)) [
  | inl kept ↦ rw kept (All-retain (IsOlder r) p rs a.0, retain-IsAscending p rs a.1)
  | inr dropped ↦ rw dropped (retain-IsAscending p rs a.1)
]

-- What a query selects of the files: of all records in the order of writing those that match, the
-- newest first, up to the limit.
pub select-flatten :
    (query : LogQuery) (fs : List (List LogRecord))
    → IsAscending (in_order fs)
    → select query (flatten fs)
      ≡ take query.limit (newest_first (retain (matches query) (in_order fs)))
unfolding select
select-flatten query fs a =
    let kept = retain-IsAscending (matches query) (in_order fs) a in
    ap (λ t. take query.limit t)
      (ap sort_newest (retain-flatten (matches query) fs)
        ∙ sort_newest-flatten (retain_each (matches query) fs)
            (rw (← retain-in_order (matches query) fs) kept)
        ∙ ap newest_first (sym (retain-in_order (matches query) fs)))
