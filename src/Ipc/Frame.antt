-- ===== src/Ipc/Frame.antt =====
-- `read_frame` of crates/ipc/src/lib.rs, over a reader that is the list of the buffers that
-- `fill_buf` will return; a read error is one of them.
pub mod Chunks
use tron_hawk.Common.{
  ℕ, suc, ◌+◌, ◌*◌, Bool, true, false, Option, none, some, List, [], ◌∷◌, ◌++◌, Result, ok, err,
  length, take, drop, is_empty, ltb, ◌==◌, if◌then◌else◌,
}

pub data Fill : Type 0 where
  filled : List ℕ → Fill
  failed : Fill

pub data IoError : Type 0 where
  read_failed : IoError
  frame_too_large : IoError

abbrev pub max_frame_size : ℕ
max_frame_size = 1024 * 1024

abbrev pub newline : ℕ
newline = 10

-- `iter().position(|&b| b == b'\n')`
abbrev pub position : List ℕ → Option ℕ
position [] = none
position (b ∷ bs) =
    if b == newline then some 0 else elim (position bs) [ none ↦ none | some p ↦ some (suc p) ]

-- `consume` leaves the rest of the buffer to the next `fill_buf`.
abbrev pub unread : List ℕ → List Fill → List Fill
unread [] rest = rest
unread (b ∷ bs) rest = filled (b ∷ bs) ∷ rest

abbrev pub at_eof : List ℕ → List Fill → Result IoError (Option (List ℕ) × List Fill)
at_eof buf rest = if is_empty buf then ok (none, rest) else ok (some buf, rest)

-- The loop of `read_frame`; the result has the reader that is left.
unfoldable pub read_from : List ℕ → List Fill → Result IoError (Option (List ℕ) × List Fill)
read_from buf [] = at_eof buf []
read_from buf (failed ∷ rest) = err read_failed
read_from buf (filled [] ∷ rest) = at_eof buf rest
read_from buf (filled (b ∷ bs) ∷ rest) =
    let available = b ∷ bs in
    let longer = read_from (buf ++ available) rest in
    elim (position available) [
      | some pos ↦
          if ltb max_frame_size (length buf + pos)
          then err frame_too_large
          else ok (some (buf ++ take (suc pos) available), unread (drop (suc pos) available) rest)
      | none ↦
          if ltb max_frame_size (length buf + length available) then err frame_too_large else longer
    ]

unfoldable pub read_frame : List Fill → Result IoError (Option (List ℕ) × List Fill)
unfolding read_from
read_frame reader = read_from [] reader
