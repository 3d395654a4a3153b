-- ===== src/Package/Archive/Scan/Contained.antt =====
-- What crates/package/src/lib.rs has established of an archive when it starts to extract it.
use tron_hawk.Common.{
  ℕ, ◌+◌, ◌*◌, ◌≤◌, ◌≡◌, ◌≢◌, sym, ap, ◌∙◌, false, none, some, List, [], ◌∷◌, ◌++◌, map, length,
  All, Str, str_eq, join, lowercase, ltb, Result, ok, err, reject_if, reject_if_ok, bind_ok,
  then_ok, err-ne-ok, if◌then◌else◌, arith, Option-cases, Bool-cases, inl, inr,
}
use mathlib.Core.List.{append_assoc, append-nil}
use tron_hawk.Common.Map.{Map, lookup, insert, lookup-insert}
use tron_hawk.Package.Paths.{Platform}
use tron_hawk.Package.Archive.{NameError, segments_of, validate_archive_entry_name, safe_join}
use tron_hawk.Package.Archive.Names.{IsPlain, safe_join-validate_archive_entry_name}
use tron_hawk.Package.Archive.Scan.{
  max_entries, max_single_file, max_total_size, max_compression_ratio, saturating_mul, at_least_one,
  ArchiveEntry, Scan, start, naming, track_entry_name, check_sizes, with_entry, scan_entry,
  scan_entries, scan_archive, too_many_entries,
}

-- The key by which names are told apart: the segments in lower case.
abbrev pub key_of : Str → Str
key_of name = join b'/' (map lowercase (segments_of name))

-- What holds of each entry: its size is within the caps and the compression ratio, and its name has
-- plain segments, at least one.
abbrev pub IsHarmless : ArchiveEntry → Type 0
IsHarmless entry =
    (entry.size ≤ max_single_file)
    × (entry.size ≤ max_compression_ratio * at_least_one entry.compressed_size)
    × (segments_of entry.name ≢ [])
    × All IsPlain (segments_of entry.name)

pub naming_ok {ℓ} : {A : Type ℓ} (r : Result NameError A) (a : A) → naming r ≡ ok a → r ≡ ok a
naming_ok (ok b) a h = let same : b ≡ a = cc h in ap ok same
naming_ok (err e) a h = err-ne-ok h

track_entry_name_sound :
    (seen after : Map Str) (key name : Str)
    → track_entry_name seen key name ≡ ok after
    → (lookup key seen ≡ none) × (after ≡ insert key name seen)
unfolding track_entry_name
track_entry_name_sound seen after key name h = elim (Option-cases (lookup key seen)) [
  | inl new ↦ (
    new,
    let same : insert key name seen ≡ after = cc (rw (new, track_entry_name) at h) in sym same,
  )
  | inr (prev, old) ↦ elim (Bool-cases (str_eq prev name)) [
    | inl same ↦ err-ne-ok (rw (old, same, track_entry_name) at h)
    | inr other ↦ err-ne-ok (rw (old, other, track_entry_name) at h)
  ]
]

ltb→le : (a b : ℕ) → ltb a b ≡ false → b ≤ a
ltb→le a b h = ground arith

-- Below the cap of a file the saturating product is the product.
saturated :
    (size compressed : ℕ)
    → size ≤ max_single_file
    → size ≤ saturating_mul max_compression_ratio compressed
    → size ≤ max_compression_ratio * compressed
saturated size compressed fits h = ground arith

check_sizes_sound :
    (entry : ArchiveEntry) (scan : Scan)
    → check_sizes entry scan ≡ ok tt
    → (entry.size ≤ max_single_file)
      × (entry.size ≤ max_compression_ratio * at_least_one entry.compressed_size)
      × (scan.total + entry.size ≤ max_total_size)
unfolding check_sizes
check_sizes_sound entry scan h =
    let (before, ratio_all) = then_ok _ _ tt h in
    let (caps, ratio) = then_ok _ _ tt before in
    let (single, total) = then_ok _ _ tt caps in
    let one_fits = ltb→le max_single_file entry.size (reject_if_ok _ _ single) in
    let all_fit = ltb→le max_total_size (scan.total + entry.size) (reject_if_ok _ _ total) in
    let sane =
      ltb→le (saturating_mul max_compression_ratio (at_least_one entry.compressed_size)) entry.size
        (reject_if_ok _ _ ratio) in
    (one_fits, saturated entry.size (at_least_one entry.compressed_size) one_fits sane, all_fit)

-- What a round establishes, and what it records.
abbrev IsScanned : List Str → ArchiveEntry → Scan → Scan → Type 0
IsScanned dest entry scan after =
    IsHarmless entry
    × (scan.total + entry.size ≤ max_total_size)
    × (lookup (key_of entry.name) scan.seen_names ≡ none)
    × (after.total ≡ scan.total + entry.size)
    × (after.seen_names ≡ insert (key_of entry.name) entry.name scan.seen_names)
    × (after.planned ≡ scan.planned ++ ((dest ++ segments_of entry.name) ∷ []))

scan_entry_sound :
    (platform : Platform) (dest : List Str) (entry : ArchiveEntry) (scan after : Scan)
    → scan_entry platform dest entry scan ≡ ok after
    → IsScanned dest entry scan after
unfolding scan_entry
scan_entry_sound platform dest entry scan after h =
    let (sizes, rest1) = then_ok _ _ after h in
    let (key, named, rest2) =
      bind_ok (naming (validate_archive_entry_name entry.name)) _ after rest1 in
    let (seen, tracked, rest3) =
      bind_ok (naming (track_entry_name scan.seen_names key entry.name)) _ after rest2 in
    let (path, joined, rest4) =
      bind_ok (naming (safe_join platform dest entry.name)) _ after rest3 in
    let (single, sane, total) = check_sizes_sound entry scan sizes in
    let (joins, there, plain, made) =
      safe_join-validate_archive_entry_name platform dest entry.name key (naming_ok _ key named) in
    let (new, inserted) =
      track_entry_name_sound scan.seen_names seen key entry.name (naming_ok _ seen tracked) in
    let at_dest : path ≡ dest ++ segments_of entry.name = cc (naming_ok _ path joined, joins) in
    let same : with_entry entry seen path scan ≡ after = cc rest4 in
    (
      (single, sane, there, plain),
      total,
      rw made at new,
      ap (λ s. s.total) (sym same),
      ap (λ s. s.seen_names) (sym same)
          ∙ inserted
          ∙ ap (λ k. insert k entry.name scan.seen_names) made,
      ap (λ s. s.planned) (sym same) ∙ ap (λ q. scan.planned ++ (q ∷ [])) at_dest,
    )

-- No two entries have the same name, however a file system folds the case of ASCII letters.
abbrev pub AreDistinct : List ArchiveEntry → Type 0
AreDistinct [] = Unit
AreDistinct (entry ∷ entries) =
    All (λ other. str_eq (key_of entry.name) (key_of other.name) ≡ false) entries
    × AreDistinct entries

abbrev pub sizes : List ArchiveEntry → ℕ
sizes [] = 0
sizes (entry ∷ entries) = entry.size + sizes entries

-- Where an entry is put.
abbrev pub place : List Str → ArchiveEntry → List Str
place dest entry = dest ++ segments_of entry.name

new_among :
    (key name : Str) (seen : Map Str) (entries : List ArchiveEntry)
    → All (λ other. lookup (key_of other.name) (insert key name seen) ≡ none) entries
    → All (λ other. str_eq key (key_of other.name) ≡ false) entries
      × All (λ other. lookup (key_of other.name) seen ≡ none) entries
new_among key name seen [] h = (tt, tt)
new_among key name seen (other ∷ entries) h =
    let (distinct, new) = new_among key name seen entries h.1 in
    let at_other = lookup-insert key (key_of other.name) name seen in
    let here : (if str_eq key (key_of other.name)
          then some name
          else lookup (key_of other.name) seen)
        ≡ none =
      sym at_other ∙ h.0 in
    elim (Bool-cases (str_eq key (key_of other.name))) [
      | inl same ↦ absurd (cc (rw same at here))
      | inr differs ↦ ((differs, distinct), (rw differs at here, new))
    ]

scan_entries_sound :
    (platform : Platform) (dest : List Str) (entries : List ArchiveEntry) (scan after : Scan)
    → scan_entries platform dest entries scan ≡ ok after
    → scan.total ≤ max_total_size
    → All IsHarmless entries
      × AreDistinct entries
      × All (λ entry. lookup (key_of entry.name) scan.seen_names ≡ none) entries
      × (scan.total + sizes entries ≤ max_total_size)
      × (after.planned ≡ scan.planned ++ map (place dest) entries)
unfolding scan_entries
scan_entries_sound platform dest [] scan after h fits =
    let same : scan ≡ after = cc h in
    (tt, tt, tt, omega arith, ap (λ s. s.planned) (sym same) ∙ sym (append-nil scan.planned))
scan_entries_sound platform dest (entry ∷ entries) scan after h fits =
    let (next, scanned, rest) = bind_ok (scan_entry platform dest entry scan) _ after h in
    let (harmless, total, new, sum, seen, planned) =
      scan_entry_sound platform dest entry scan next scanned in
    let (all_harmless, distinct, all_new, all_sum, all_planned) =
      scan_entries_sound platform dest entries next after rest (rw sum total) in
    let (differ, before) =
      new_among (key_of entry.name) entry.name scan.seen_names entries (rw seen at all_new) in
    (
      (harmless, all_harmless),
      (differ, distinct),
      (new, before),
      omega (arith, sum, all_sum),
      all_planned
          ∙ ap (λ p. p ++ map (place dest) entries) planned
          ∙ append_assoc scan.planned (place dest entry ∷ []) (map (place dest) entries),
    )

-- An archive that the checks let through has at most 1000 entries of at most 64 MiB in all, each of at
-- most 16 MiB and of at most 100 times its compressed size, which counts as 1 if it is 0; every entry
-- goes below the destination, to plain names only, at least one; and no two names are equal when
-- ASCII letters are folded.
pub scan_archive-IsHarmless :
    (platform : Platform) (dest : List Str) (entries : List ArchiveEntry) (after : Scan)
    → scan_archive platform dest entries ≡ ok after
    → (length entries ≤ max_entries)
      × (sizes entries ≤ max_total_size)
      × All IsHarmless entries
      × AreDistinct entries
      × (after.planned ≡ map (place dest) entries)
unfolding scan_archive
scan_archive-IsHarmless platform dest entries after h =
    let (few, rest) =
      then_ok (reject_if (ltb max_entries (length entries)) too_many_entries) _ after h in
    let (harmless, distinct, new, total, planned) =
      scan_entries_sound platform dest entries start after rest (omega arith) in
    (
      ltb→le max_entries (length entries) (reject_if_ok _ _ few),
      omega (arith, total),
      harmless,
      distinct,
      planned,
    )
