-- ===== src/Ipc/Frame/Chunks.antt =====
-- `read_frame` does not depend on how the stream was cut into buffers.
use tron_hawk.Common.{
  ℕ, zero, suc, ◌+◌, ◌≤◌, ◌<◌, ◌≡◌, refl, sym, ap, ◌∙◌, true, false, Option, none, some, List, [],
  ◌∷◌, ◌++◌, Result, ok, err, length, take, drop, is_empty, ltb, if◌then◌else◌, arith, Option-cases,
  Bool-cases, inl, inr, length-append, take-append_add, drop-append_add, take-append_le,
  drop-append_le,
}
use mathlib.Core.List.{append_assoc, append-nil}
use native.Mathlib.Nat.{add-suc}
use tron_hawk.Ipc.Frame.{
  Fill, filled, failed, IoError, frame_too_large, max_frame_size, position, unread, at_eof,
  read_from, read_frame,
}

-- The bytes that a reader still has.
abbrev pub bytes_of : List Fill → List ℕ
bytes_of [] = []
bytes_of (failed ∷ r) = []
bytes_of (filled c ∷ r) = c ++ bytes_of r

-- No read fails, and no buffer before the end is empty.
abbrev pub IsClean : List Fill → Type 0
IsClean [] = Unit
IsClean (failed ∷ r) = ⊥
IsClean (filled [] ∷ r) = ⊥
IsClean (filled (c ∷ cs) ∷ r) = IsClean r

-- What one frame is, of the whole stream: up to the first newline, and the bytes behind it.
unfoldable pub frame_of : List ℕ → Result IoError (Option (List ℕ) × List ℕ)
frame_of bs = elim (position bs) [
  | some pos ↦
      if ltb max_frame_size pos
      then err frame_too_large
      else ok (some (take (suc pos) bs), drop (suc pos) bs)
  | none ↦
      if ltb max_frame_size (length bs)
      then err frame_too_large
      else if is_empty bs
      then ok (none, [])
      else ok (some bs, [])
]

-- The same frame or the same error, and a clean reader that has the bytes that are left.
abbrev pub Agrees :
    Result IoError (Option (List ℕ) × List Fill)
    → Result IoError (Option (List ℕ) × List ℕ)
    → Type 0
Agrees (ok (f, r)) (ok (g, rest)) = (f ≡ g) × IsClean r × (bytes_of r ≡ rest)
Agrees (err e) (err e') = e ≡ e'
Agrees _ _ = ⊥

pub position-append_none :
    (b x : List ℕ)
    → position b ≡ none
    → position (b ++ x) ≡ elim (position x) [ none ↦ none | some p ↦ some (length b + p) ]
position-append_none [] x h = ground arith
position-append_none (c ∷ b) x h = ground (arith, position-append_none b x)

pub position-append_some : (b x : List ℕ) (p : ℕ) → position b ≡ some p → position (b ++ x) ≡ some p
position-append_some [] x p h = ground arith
position-append_some (c ∷ b) x zero h = ground arith
position-append_some (c ∷ b) x (suc p) h = ground (arith, position-append_some b x p)

pub position-lt : (b : List ℕ) (p : ℕ) → position b ≡ some p → p < length b
position-lt [] p h = ground arith
position-lt (c ∷ b) zero h = ground arith
position-lt (c ∷ b) (suc p) h = ground (arith, position-lt b p)

unread-IsClean : (bs : List ℕ) (r : List Fill) → IsClean r → IsClean (unread bs r)
unread-IsClean [] r h = h
unread-IsClean (b ∷ bs) r h = h

bytes_of-unread : (bs : List ℕ) (r : List Fill) → bytes_of (unread bs r) ≡ bs ++ bytes_of r
bytes_of-unread [] r = refl
bytes_of-unread (b ∷ bs) r = refl

module _ (buf av rest : List ℕ) (pos : ℕ) (hb : position buf ≡ none)
    (ha : position av ≡ some pos) where
  position_found : position (buf ++ (av ++ rest)) ≡ some (length buf + pos)
  position_found =
      ground (arith, position-append_none buf (av ++ rest), position-append_some av rest pos)

  take_found : take (suc (length buf + pos)) (buf ++ (av ++ rest)) ≡ buf ++ take (suc pos) av
  take_found =
      rw (← add-suc (length buf) pos, take-append_add buf (suc pos) (av ++ rest))
        (ap (λ t. buf ++ t) (take-append_le (suc pos) av rest (position-lt av pos ha)))

  drop_found : drop (suc (length buf + pos)) (buf ++ (av ++ rest)) ≡ drop (suc pos) av ++ rest
  drop_found =
      rw (← add-suc (length buf) pos, drop-append_add buf (suc pos) (av ++ rest))
        (drop-append_le (suc pos) av rest (position-lt av pos ha))

frame_of_found :
    (bs : List ℕ) (p : ℕ)
    → position bs ≡ some p
    → frame_of bs ≡ (
        if ltb max_frame_size p
        then err frame_too_large
        else ok (some (take (suc p) bs), drop (suc p) bs))
unfolding frame_of
frame_of_found bs p h = ground arith

-- The buffer that holds a newline ends the frame.
found_here :
    (buf av : List ℕ) (r : List Fill) (pos : ℕ)
    → position buf ≡ none
    → position av ≡ some pos
    → IsClean r
    → Agrees
        (if ltb max_frame_size (length buf + pos)
          then err frame_too_large
          else ok (some (buf ++ take (suc pos) av), unread (drop (suc pos) av) r))
        (frame_of (buf ++ (av ++ bytes_of r)))
found_here buf av r pos hb ha hr =
    rw (frame_of_found _ _ (position_found buf av (bytes_of r) pos hb ha))
      (elim (Bool-cases (ltb max_frame_size (length buf + pos))) [
        | inl over ↦ rw over refl
        | inr fits ↦ rw fits (
          ap some (sym (take_found buf av (bytes_of r) pos hb ha)),
          unread-IsClean (drop (suc pos) av) r hr,
          bytes_of-unread (drop (suc pos) av) r ∙ sym (drop_found buf av (bytes_of r) pos hb ha),
        )
      ])

frame_of_long :
    (buf rest : List ℕ)
    → position buf ≡ none
    → max_frame_size < length buf
    → frame_of (buf ++ rest) ≡ err frame_too_large
unfolding frame_of
frame_of_long buf rest hb h = ground (arith, position-append_none buf rest, length-append buf rest)

frame_of_rest :
    (buf : List ℕ)
    → position buf ≡ none
    → length buf ≤ max_frame_size
    → frame_of buf ≡ (if is_empty buf then ok (none, []) else ok (some buf, []))
unfolding frame_of
frame_of_rest buf hb h = ground arith

at_eof-Agrees :
    (buf : List ℕ)
    → Agrees (at_eof buf []) (if is_empty buf then ok (none, []) else ok (some buf, []))
at_eof-Agrees [] = (refl, tt, refl)
at_eof-Agrees (b ∷ bs) = (refl, tt, refl)

module _ (buf : List ℕ) (c : ℕ) (cs : List ℕ) (r : List Fill) where
  read_from-more :
      position (c ∷ cs) ≡ none
      → ltb max_frame_size (length buf + length (c ∷ cs)) ≡ false
      → read_from buf (filled (c ∷ cs) ∷ r) ≡ read_from (buf ++ c ∷ cs) r
  unfolding read_from
  read_from-more h k = ground arith

  read_from-over :
      position (c ∷ cs) ≡ none
      → ltb max_frame_size (length buf + length (c ∷ cs)) ≡ true
      → read_from buf (filled (c ∷ cs) ∷ r) ≡ err frame_too_large
  unfolding read_from
  read_from-over h k = ground arith

  read_from-here :
      (pos : ℕ)
      → position (c ∷ cs) ≡ some pos
      → read_from buf (filled (c ∷ cs) ∷ r) ≡ (
          if ltb max_frame_size (length buf + pos)
          then err frame_too_large
          else ok (some (buf ++ take (suc pos) (c ∷ cs)), unread (drop (suc pos) (c ∷ cs)) r))
  unfolding read_from
  read_from-here pos h = ground arith

still_none :
    (buf av : List ℕ) → position buf ≡ none → position av ≡ none → position (buf ++ av) ≡ none
still_none buf av hb ha = ground (arith, position-append_none buf av)

grown_over :
    (buf av : List ℕ)
    → ltb max_frame_size (length buf + length av) ≡ true
    → max_frame_size < length (buf ++ av)
grown_over buf av h = ground (arith, length-append buf av)

grown_fits :
    (buf av : List ℕ)
    → ltb max_frame_size (length buf + length av) ≡ false
    → length (buf ++ av) ≤ max_frame_size
grown_fits buf av h = ground (arith, length-append buf av)

read_from-Agrees :
    (buf : List ℕ) (r : List Fill)
    → position buf ≡ none
    → length buf ≤ max_frame_size
    → IsClean r
    → Agrees (read_from buf r) (frame_of (buf ++ bytes_of r))
read_from-Agrees buf [] hb h hr =
    rw (append-nil, frame_of_rest buf hb h) (unfold read_from in at_eof-Agrees buf)
read_from-Agrees buf (filled (c ∷ cs) ∷ r) hb h hr = elim (Option-cases (position (c ∷ cs))) [
  | inl more ↦ elim (Bool-cases (ltb max_frame_size (length buf + length (c ∷ cs)))) [
    | inl over ↦
        rw
          (
            read_from-over buf c cs r more over,
            ← append_assoc buf (c ∷ cs) (bytes_of r),
            frame_of_long (buf ++ c ∷ cs) (bytes_of r) (still_none buf (c ∷ cs) hb more)
                (grown_over buf (c ∷ cs) over),
          )
          refl
    | inr fits ↦
        rw (read_from-more buf c cs r more fits, ← append_assoc buf (c ∷ cs) (bytes_of r))
          (read_from-Agrees (buf ++ c ∷ cs) r (still_none buf (c ∷ cs) hb more)
            (grown_fits buf (c ∷ cs) fits) hr)
  ]
  | inr (pos, here) ↦
      rw (read_from-here buf c cs r pos here) (found_here buf (c ∷ cs) r pos hb here hr)
]
read_from-Agrees buf (filled [] ∷ r) hb h hr = elim hr [ ]
read_from-Agrees buf (failed ∷ r) hb h hr = elim hr [ ]

-- However the stream is cut into buffers, and no read fails and no buffer before the end is empty,
-- `read_frame` returns the bytes up to and with the first newline of the whole stream and leaves
-- the bytes behind it, returns the last bytes where no newline follows, and nothing at the end; it
-- refuses a frame exactly if more than 1 MiB stands before the newline or the end.
pub read_frame-Agrees :
    (reader : List Fill) → IsClean reader → Agrees (read_frame reader) (frame_of (bytes_of reader))
unfolding read_frame
read_frame-Agrees reader h = read_from-Agrees [] reader refl (ground arith) h
