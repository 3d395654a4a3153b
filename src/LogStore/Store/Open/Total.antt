-- ===== src/LogStore/Store/Open/Total.antt =====
-- A log store of crates/core/src/log_store.rs opens whatever its files hold, and its queries work.
use tron_hawk.Common.{
  ℕ, ◌≤◌, ◌≡◌, refl, ap, ◌∙◌, sym, true, Option, none, some, List, [], ◌∷◌, ◌++◌, length, split,
  join, join-split, All, All-map, length-append, ==_refl, ok, Option-cases, Bool-cases, inl, inr,
  arith,
}
use tron_hawk.Common.Decimal.{saturating_add}
use mathlib.Core.List.{append_assoc, append-nil}
use tron_hawk.LogStore.Record.{LogRecord}
use tron_hawk.LogStore.Lines.{Codec, recover_line, recover_parts, recover_active, recover_archive}
use tron_hawk.LogStore.Lines.Recovery.{
  kept, kept-cons, read_records-recover_active, read_records-recover_archive,
}
use tron_hawk.LogStore.Files.{Files, Disk, IsPermitted}
use tron_hawk.LogStore.Sort.{LogQuery, select}
use tron_hawk.LogStore.Store.{LogStore, read_slot, query}
use tron_hawk.LogStore.Store.Open.{
  complete_length, repair_active_tail, is_sound, maximum_sequence, sequence_after, opened,
  recover_slot, recover_active_slot, with_max_size,
}

complete_length-line :
    (line rest : List ℕ)
    → complete_length rest ≡ length rest
    → complete_length (line ++ (b'\n' ∷ rest)) ≡ length (line ++ (b'\n' ∷ rest))
unfolding complete_length
complete_length-line [] rest h = ground arith
complete_length-line (c ∷ line) rest h =
    ground (arith, complete_length-line line rest h, length-append line (b'\n' ∷ rest))

module _ (codec : Codec) where
  -- What recovery leaves of the active file ends with a newline, or is empty.
  kept-IsComplete :
      (parts : List (List ℕ))
      → complete_length (kept codec (join b'\n' parts) (recover_parts codec parts))
        ≡ length (kept codec (join b'\n' parts) (recover_parts codec parts))
  unfolding recover_parts join complete_length
  kept-IsComplete [] = refl
  kept-IsComplete ([] ∷ []) = refl
  kept-IsComplete ((c ∷ last) ∷ []) = refl
  kept-IsComplete (line ∷ next ∷ rest) = elim (Option-cases (recover_line codec line)) [
    | inl bad ↦ rw (recover_parts, bad) refl
    | inr (r, good) ↦
        rw
          (
            recover_parts,
            good,
            kept-cons codec line (join b'\n' (next ∷ rest)) r (recover_parts codec (next ∷ rest)),
          )
          (complete_length-line line
            (kept codec (join b'\n' (next ∷ rest)) (recover_parts codec (next ∷ rest)))
            (kept-IsComplete (next ∷ rest)))
  ]

  recover_active-IsComplete :
      (content : List ℕ)
      → complete_length (recover_active codec content).1 ≡ length (recover_active codec content).1
  unfolding recover_active
  recover_active-IsComplete content =
      let parts = split b'\n' content in
      ap (λ t. complete_length (kept codec t (recover_parts codec parts)))
        (sym (join-split b'\n' content))
      ∙ kept-IsComplete parts
      ∙ ap (λ t. length (kept codec t (recover_parts codec parts))) (join-split b'\n' content)

  module _ (disk : Disk) (permitted : IsPermitted disk) where
    is_sound-IsPermitted : (i : ℕ) (slot : Option (List ℕ)) → is_sound disk i slot ≡ true
    is_sound-IsPermitted i none = refl
    is_sound-IsPermitted i (some content) = permitted i

    recover_slot-IsRead :
        (i : ℕ) (slot : Option (List ℕ))
        → disk.quarantines i ≡ true
        → (rs : List LogRecord) × (left : Option (List ℕ)) × (recover_slot codec disk i slot
            ≡ ok (rs, left))
          × (read_slot codec disk i left ≡ ok rs)
    unfolding recover_slot read_slot
    recover_slot-IsRead i none q = ([], none, refl, refl)
    recover_slot-IsRead i (some content) q = elim (Option-cases (recover_archive codec content).1) [
      | inl broken ↦ ([], none, rw (recover_slot, permitted i, broken, q) refl, refl)
      | inr (left, fine) ↦ (
        (recover_archive codec content).0,
        some content,
        rw (recover_slot, permitted i, fine) refl,
        rw (read_slot, permitted i) (read_records-recover_archive codec content left fine),
      )
    ]

    recover_active_slot-some :
        (content : List ℕ)
        → disk.truncates ≡ true
        → recover_active_slot codec disk (some content)
          ≡ ok ((recover_active codec content).0, some (recover_active codec content).1)
    unfolding recover_active_slot
    recover_active_slot-some content t =
        elim (Bool-cases (recover_parts codec (split b'\n' content)).2) [
          | inl broken ↦ rw (recover_active_slot, permitted 0, broken, t) refl
          | inr fine ↦ rw (recover_active_slot, permitted 0, fine) refl
        ]

    recover_active_slot-IsRead :
        (slot : Option (List ℕ))
        → disk.truncates ≡ true
        → (rs : List LogRecord) × (left : Option (List ℕ)) × (recover_active_slot codec disk slot
            ≡ ok (rs, left))
          × (repair_active_tail disk left ≡ ok left)
          × (read_slot codec disk 0 left ≡ ok rs)
    unfolding recover_active_slot read_slot repair_active_tail
    recover_active_slot-IsRead none t = ([], none, refl, refl, refl)
    recover_active_slot-IsRead (some content) t = (
      (recover_active codec content).0,
      some (recover_active codec content).1,
      recover_active_slot-some content t,
      rw (repair_active_tail, permitted 0, recover_active-IsComplete content, ==_refl) refl,
      rw (read_slot, permitted 0) (read_records-recover_active codec content),
    )

five_append :
    (a b c d e : List LogRecord)
    → (((([] ++ a) ++ b) ++ c) ++ d) ++ e ≡ a ++ (b ++ (c ++ (d ++ (e ++ []))))
five_append a b c d e =
    append_assoc ((a ++ b) ++ c) d e
    ∙ append_assoc (a ++ b) c (d ++ e)
    ∙ append_assoc a b (c ++ (d ++ e))
    ∙ ap (λ t. a ++ (b ++ (c ++ (d ++ t)))) (sym (append-nil e))

maximum_sequence-All : (rs : List LogRecord) → All (λ r. r.sequence ≤ maximum_sequence rs) rs
maximum_sequence-All [] = tt
maximum_sequence-All (r ∷ rs) =
    (ground arith, All-map (λ s h. ground arith) rs (maximum_sequence-All rs))

-- The next sequence is greater than each of the records', or the greatest number there is.
abbrev pub IsAfter : ℕ → List LogRecord → Type 0
IsAfter next rs = All (λ r. saturating_add r.sequence 1 ≤ next) rs

sequence_after-IsAfter : (rs : List LogRecord) → IsAfter (sequence_after rs) rs
sequence_after-IsAfter rs = All-map (λ s h. ground arith) rs (maximum_sequence-All rs)

-- Whatever the log files hold, where the file system denies nothing, and lets the active file be cut
-- back and archives be put aside, the store opens with some records, every query of it selects from
-- just those, and the next sequence is after each of them.
pub with_max_size-IsOpen :
    (codec : Codec) (disk : Disk) (max_active_bytes : ℕ) (files : Files)
    → IsPermitted disk
    → disk.truncates ≡ true
    → ((i : ℕ) → disk.quarantines i ≡ true)
    → (rs : List LogRecord) × (store : LogStore) × (with_max_size codec disk max_active_bytes files
        ≡ (ok store, store.files))
      × ((q : LogQuery) → query codec disk q store ≡ ok (select q rs))
      × IsAfter store.next_sequence rs
unfolding with_max_size query
with_max_size-IsOpen codec disk max_active_bytes files p t q =
    let (a, slot0, at0, repaired, read0) = recover_active_slot-IsRead codec disk p files.active t in
    let (b, slot1, at1, read1) = recover_slot-IsRead codec disk p 1 files.first (q 1) in
    let (c, slot2, at2, read2) = recover_slot-IsRead codec disk p 2 files.second (q 2) in
    let (d, slot3, at3, read3) = recover_slot-IsRead codec disk p 3 files.third (q 3) in
    let (e, slot4, at4, read4) = recover_slot-IsRead codec disk p 4 files.fourth (q 4) in
    let rs = (((([] ++ a) ++ b) ++ c) ++ d) ++ e in
    let left : Files = record {
      active = slot0;
      first = slot1;
      second = slot2;
      third = slot3;
      fourth = slot4;
    } in
    (
      rs,
      record {
        files = left;
        next_sequence = sequence_after rs;
        max_active_bytes = max_active_bytes;
      },
      rw
          (
            with_max_size,
            is_sound-IsPermitted codec disk p 0 files.active,
            is_sound-IsPermitted codec disk p 1 files.first,
            is_sound-IsPermitted codec disk p 2 files.second,
            is_sound-IsPermitted codec disk p 3 files.third,
            is_sound-IsPermitted codec disk p 4 files.fourth,
            at0,
            at1,
            at2,
            at3,
            at4,
            opened,
            repaired,
          )
          refl,
      (λ k.
          rw (query, read0, read1, read2, read3, read4)
            (ap (λ u. ok (select k u)) (sym (five_append a b c d e)))),
      sequence_after-IsAfter rs,
    )
