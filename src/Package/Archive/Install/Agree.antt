-- ===== src/Package/Archive/Install/Agree.antt =====
-- In crates/package/src/lib.rs, what `inspect` reports on is planned to be extracted as it says.
use tron_hawk.Common.{
  ◌+◌, ◌%◌, ◌^◌, ◌≤◌, ◌≡◌, refl, sym, ap, ◌∙◌, false, List, [], ◌∷◌, ◌++◌, map, length, All, Str,
  codes, ltb, Result, ok, err, reject_if, reject_if_ok, bind_ok, then_ok, err-ne-ok,
}
use tron_hawk.Common.Map.{Map}
use tron_hawk.Json.{Json}
use tron_hawk.Package.Paths.{Platform}
use tron_hawk.Package.Manifest.{Semver, validate_manifest_schema_for_host}
use tron_hawk.Package.Archive.{segments_of, validate_archive_entry_name, safe_join}
use tron_hawk.Package.Archive.Names.{safe_join-validate_archive_entry_name}
use tron_hawk.Package.Archive.Scan.{
  ArchiveEntry, ScanError, Scan, start, max_entries, max_total_size, naming, track_entry_name,
  check_sizes, with_entry, scan_entry, scan_entries, scan_archive, too_many_entries,
}
use tron_hawk.Package.Archive.Scan.Contained.{
  naming_ok, IsHarmless, AreDistinct, sizes, place, scan_archive-IsHarmless,
}
use tron_hawk.Package.Archive.Install.{
  Source, ArchiveInspect, duplicate_name, bad_archive, scanning, schema_checked, read_manifest,
  inspect_archive_for_host, plan_extraction,
}

-- Scans that differ at most in what they list.
abbrev IsLike : Scan → Scan → Type 0
IsLike a b =
    (a.total ≡ b.total) × (a.total_compressed ≡ b.total_compressed) × (a.seen_names ≡ b.seen_names)

check_sizes-IsLike :
    (entry : ArchiveEntry) (a b : Scan) → IsLike a b → check_sizes entry a ≡ check_sizes entry b
unfolding check_sizes
check_sizes-IsLike entry a b (total, compressed, seen) = rw (total, compressed) refl

scan_entry-with_entry :
    (platform : Platform) (dest path : List Str) (entry : ArchiveEntry) (scan : Scan) (key : Str)
    (seen : Map Str)
    → check_sizes entry scan ≡ ok tt
    → naming (validate_archive_entry_name entry.name) ≡ ok key
    → naming (track_entry_name scan.seen_names key entry.name) ≡ ok seen
    → safe_join platform dest entry.name ≡ ok path
    → scan_entry platform dest entry scan ≡ ok (with_entry entry seen path scan)
unfolding scan_entry
scan_entry-with_entry platform dest path entry scan key seen fits named tracked joined =
    rw (scan_entry, fits, named, tracked, joined) refl

-- The destination makes no difference to whether an entry passes.
scan_entry-IsLike :
    (platform : Platform) (dest other : List Str) (entry : ArchiveEntry) (a b after : Scan)
    → IsLike a b
    → scan_entry platform dest entry a ≡ ok after
    → (next : Scan) × (scan_entry platform other entry b ≡ ok next) × IsLike after next
unfolding scan_entry
scan_entry-IsLike platform dest other entry a b after like h =
    let (fits, rest1) = then_ok (check_sizes entry a) _ after h in
    let (key, named, rest2) =
      bind_ok (naming (validate_archive_entry_name entry.name)) _ after rest1 in
    let (seen, tracked, rest3) =
      bind_ok (naming (track_entry_name a.seen_names key entry.name)) _ after rest2 in
    let (path, joined, rest4) =
      bind_ok (naming (safe_join platform dest entry.name)) _ after rest3 in
    let same : with_entry entry seen path a ≡ after = cc rest4 in
    let (joins, there, plain, made) =
      safe_join-validate_archive_entry_name platform other entry.name key (naming_ok _ key named) in
    let fits_too = sym (check_sizes-IsLike entry a b like) ∙ fits in
    let tracked_too = ap (λ m. naming (track_entry_name m key entry.name)) (sym like.2) ∙ tracked in
    (
      with_entry entry seen (other ++ segments_of entry.name) b,
      scan_entry-with_entry platform other (other ++ segments_of entry.name) entry b key seen
          fits_too named tracked_too joins,
      (
        ap (λ s. s.total) (sym same) ∙ ap (λ n. n + entry.size) like.0,
        ap (λ s. s.total_compressed) (sym same)
            ∙ ap (λ n. (n + entry.compressed_size) % 2 ^ 64) like.1,
        ap (λ s. s.seen_names) (sym same),
      ),
    )

scan_entries-IsLike :
    (platform : Platform) (dest other : List Str) (entries : List ArchiveEntry) (a b after : Scan)
    → IsLike a b
    → scan_entries platform dest entries a ≡ ok after
    → (next : Scan) × (scan_entries platform other entries b ≡ ok next)
unfolding scan_entries
scan_entries-IsLike platform dest other [] a b after like h = (b, refl)
scan_entries-IsLike platform dest other (entry ∷ entries) a b after like h =
    let (middle, first, rest) = bind_ok (scan_entry platform dest entry a) _ after h in
    let (middle_too, first_too, like_too) =
      scan_entry-IsLike platform dest other entry a b middle like first in
    let (next, rest_too) =
      scan_entries-IsLike platform dest other entries middle middle_too after like_too rest in
    (next, rw (scan_entries, first_too, rest_too) refl)

scan_archive-scanned :
    (platform : Platform) (dest : List Str) (entries : List ArchiveEntry) (scan : Scan)
    → ltb max_entries (length entries) ≡ false
    → scan_entries platform dest entries start ≡ ok scan
    → scan_archive platform dest entries ≡ ok scan
unfolding scan_archive
scan_archive-scanned platform dest entries scan few scanned = rw (scan_archive, few) scanned

scanning_ok {ℓ} : {A : Type ℓ} (r : Result ScanError A) (a : A) → scanning r ≡ ok a → r ≡ ok a
scanning_ok (ok b) a h = let same : b ≡ a = cc h in ap ok same
scanning_ok (err e) a h = err-ne-ok h

module _ (semver : Semver) (platform : Platform) (source : Source) (host_version : Str) where
  plan_extraction-scanned :
      (dest : List Str) (manifest : Json) (scan : Scan)
      → reject_if source.repeats_name duplicate_name ≡ ok tt
      → read_manifest source ≡ ok manifest
      → schema_checked (validate_manifest_schema_for_host semver platform manifest host_version)
        ≡ ok tt
      → reject_if (ltb max_entries (length source.listed)) (bad_archive too_many_entries) ≡ ok tt
      → scan_entries platform dest source.listed start ≡ ok scan
      → plan_extraction semver platform source host_version dest ≡ ok scan.planned
  unfolding plan_extraction
  plan_extraction-scanned dest manifest scan once read schema few scanned =
      rw (plan_extraction, once, read, schema, few, scanned) refl

  -- An archive that `inspect` reports on passes all checks of `extract` before it writes, for every
  -- destination; it is then to write each entry below the destination, to the segments of its name,
  -- which are plain. No two names are equal when ASCII letters are folded, and sizes, their sum and
  -- compression ratios are within their caps.
  pub plan_extraction-inspect_archive :
      (dest : List Str) (report : ArchiveInspect)
      → inspect_archive_for_host semver platform source host_version ≡ ok report
      → (plan_extraction semver platform source host_version dest
          ≡ ok (map (place dest) source.listed))
        × All IsHarmless source.listed
        × AreDistinct source.listed
        × (sizes source.listed ≤ max_total_size)
  unfolding inspect_archive_for_host
  plan_extraction-inspect_archive dest report h =
      let (once, h1) = then_ok _ _ report h in
      let (few, h2) = then_ok _ _ report h1 in
      let (manifest, read, h3) = bind_ok (read_manifest source) _ report h2 in
      let (schema, h4) = then_ok _ _ report h3 in
      let (scan, scanned, h5) =
        bind_ok (scanning (scan_entries platform (codes "." ∷ []) source.listed start)) _ report
          h4 in
      let (scan_too, scanned_too) =
        scan_entries-IsLike platform (codes "." ∷ []) dest source.listed start start scan
          (refl, refl, refl) (scanning_ok _ scan scanned) in
      let within = reject_if_ok _ _ few in
      let (bounded, total, harmless, distinct, planned) =
        scan_archive-IsHarmless platform dest source.listed scan_too
          (scan_archive-scanned platform dest source.listed scan_too within scanned_too) in
      (
        plan_extraction-scanned dest manifest scan_too once read schema few scanned_too
            ∙ ap ok planned,
        harmless,
        distinct,
        total,
      )
