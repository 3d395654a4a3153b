-- ===== src/LogStore/Store/Laid.antt =====
-- What `LogStore::append` in crates/core/src/log_store.rs makes of the files.
use tron_hawk.Common.{
  ℕ, ◌+◌, ◌≤◌, ◌<◌, ◌≡◌, refl, Bool, true, false, none, some, List, ◌++◌, length, ok, arith, zero,
  suc, ◌⊎◌, ◌&&◌, Bool-cases, inl, inr, ltb,
}
use tron_hawk.Common.Decimal.{saturating_add}
use tron_hawk.LogStore.Record.{LogRecord}
use tron_hawk.LogStore.Lines.{Codec}
use tron_hawk.LogStore.Files.{Files, Disk, content_of}
use tron_hawk.LogStore.Files.Fine.{IsFine, rotated, rotate-IsFine, write_active-IsFine}
use tron_hawk.LogStore.Store.{LogStore, is_full, line_of, append_line}

-- The files after a line.
abbrev pub laid : Bool → List ℕ → Files → Files
laid true line files = rotated (some line) files
laid false line files = record files { active = some (content_of files.active ++ line) }

-- What becomes of the files under a line: it goes behind what the active file has, or every file goes
-- under the next name first.
abbrev pub IsLaid : ℕ → List ℕ → Files → Files → Type 0
IsLaid limit line before after =
    (((length (content_of before.active) ≡ 0)
        ⊎ (length (content_of before.active) + length line ≤ limit))
      × (after ≡ record before { active = some (content_of before.active ++ line) }))
    ⊎ ((1 ≤ length (content_of before.active))
        × (limit < length (content_of before.active) + length line)
        × (after.active ≡ some line)
        × (after.first ≡ before.active)
        × (after.second ≡ before.first)
        × (after.third ≡ before.second)
        × (after.fourth ≡ before.third))

room :
    (size more limit : ℕ)
    → (ltb 0 size && ltb limit (size + more)) ≡ false
    → (size ≡ 0) ⊎ (size + more ≤ limit)
room zero more limit h = inl refl
room (suc size) more limit h = inr (ground arith)

pub laid-IsLaid :
    (store : LogStore) (line : List ℕ)
    → IsLaid store.max_active_bytes line store.files
        (laid (is_full store (length line)) line store.files)
laid-IsLaid store line = elim (Bool-cases (is_full store (length line))) [
  | inl full ↦ rw full (inr (ground arith, ground arith, refl, refl, refl, refl, refl))
  | inr free ↦ rw free (
      inl (
        room (length (content_of store.files.active)) (length line) store.max_active_bytes free,
        refl,
      ))
]

module _ (disk : Disk) (fine : IsFine disk) where
  pub append_line-IsFine :
      (codec : Codec) (r : LogRecord) (store : LogStore)
      → append_line codec disk r store ≡ (
        ok r,
        record store {
          files = laid (is_full store (length (line_of codec r))) (line_of codec r) store.files;
          next_sequence = saturating_add store.next_sequence 1;
        },
      )
  unfolding append_line
  append_line-IsFine codec r store = elim (Bool-cases (is_full store (length (line_of codec r)))) [
    | inl full ↦
        rw
          (
            append_line,
            full,
            rotate-IsFine disk fine store.files,
            write_active-IsFine disk fine (line_of codec r) (rotated none store.files),
          )
          refl
    | inr free ↦
        rw (append_line, free, write_active-IsFine disk fine (line_of codec r) store.files) refl
  ]
