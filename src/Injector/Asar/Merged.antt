-- ===== src/Injector/Asar/Merged.antt =====
-- The merged archive of crates/injector/src/asar_merge.rs: its payload is the writer's, and its header
-- has the unpacked entries of the source beside the writer's own.
use tron_hawk.Common.{
  ℕ, ◌+◌, ◌^◌, ◌≤◌, ◌≡◌, sym, ap, ◌∙◌, true, some, List, length, drop, Str, All, ok, ok_or, bind_ok,
  ltb, arith, false, err-ne-ok,
}
use tron_hawk.Json.{Json, null, boolean, number, string, array, object, Fields}
use tron_hawk.Injector.Asar.{no_root_files, JsonText, parse_asar, Sink}
use tron_hawk.Injector.Asar.Entries.{
  Entry, files_of, with_files, insert_all, insert_unpacked_entries,
}
use tron_hawk.Injector.Asar.Inserted.{
  node_at, diverges, ArePairwise, insert_all-node_at, insert_all_elsewhere, files_of-with_files,
  ok_or_ok, ok_equal,
}
use tron_hawk.Injector.Asar.Merge.{restore_unpacked}
use tron_hawk.Injector.Asar.RoundTrip.{IsOpen, write_asar-parse_asar}

-- An insertion works on the root's files.
insert_unpacked_entries-files :
    (header after : Json) (unpacked : List Entry)
    → insert_unpacked_entries header unpacked ≡ ok after
    → (old new : Fields) × (files_of header ≡ some old)
      × (files_of after ≡ some new)
      × (insert_all old unpacked ≡ ok new)
unfolding insert_unpacked_entries
insert_unpacked_entries-files (object fields) after unpacked h =
    let (old, a, more) = bind_ok (ok_or (files_of (object fields)) no_root_files) _ after h in
    let (new, b, last) = bind_ok (insert_all old unpacked) _ after more in
    let there = ok_or_ok (files_of (object fields)) no_root_files old a in
    let e : with_files new (object fields) ≡ after = ok_equal _ _ last in
    (old, new, there, ap files_of (sym e) ∙ files_of-with_files new old (object fields) there, b)
insert_unpacked_entries-files null after unpacked h = err-ne-ok h
insert_unpacked_entries-files (boolean b) after unpacked h = err-ne-ok h
insert_unpacked_entries-files (number n) after unpacked h = err-ne-ok h
insert_unpacked_entries-files (string s) after unpacked h = err-ne-ok h
insert_unpacked_entries-files (array vs) after unpacked h = err-ne-ok h

-- The archive reads back as a header and the payload that stood behind the old one; the header has
-- each unpacked entry at its path, and another path has the node that it had.
abbrev pub IsMerged : JsonText → Sink → List ℕ → List Entry → Json → ℕ → List Str → Json → Type 0
IsMerged text sink intermediate unpacked header start q after =
    (content : List ℕ) × (payload_start : ℕ) × (old new : Fields) × (restore_unpacked text sink
        intermediate unpacked
      ≡ ok (content, length content))
    × (parse_asar text content ≡ ok (after, payload_start))
    × (drop payload_start content ≡ drop start intermediate)
    × (files_of header ≡ some old)
    × (files_of after ≡ some new)
    × All (λ (e : Entry). node_at new e.0 ≡ some e.1) unpacked
    × (node_at new q ≡ node_at old q)

-- Where the payload of the writer's archive starts within its bytes, unpacked entries go into its
-- header, no entry's path is equal to another's or continues it, the new header's JSON reads back and
-- is shorter than 4 GiB by 12 bytes, the file takes every byte, and a path parts from the entries'
-- paths: the merged archive is written and reads back as the new header with the payload of the
-- writer's archive, each entry is found at its path, and that other path leads where it led.
pub restore_unpacked-IsMerged :
    (text : JsonText) (sink : Sink) (intermediate : List ℕ) (unpacked : List Entry)
    (header after : Json) (start : ℕ) (q : List Str)
    → IsOpen sink
    → parse_asar text intermediate ≡ ok (header, start)
    → start ≤ length intermediate
    → insert_unpacked_entries header unpacked ≡ ok after
    → text.from_slice (text.to_vec after) ≡ some after
    → length (text.to_vec after) + 12 ≤ 2 ^ 32
    → ArePairwise unpacked
    → All (λ (e : Entry). diverges e.0 q ≡ true) unpacked
    → IsMerged text sink intermediate unpacked header start q after
unfolding restore_unpacked
restore_unpacked-IsMerged text sink intermediate unpacked header after start q fine parsed inside
      inserted read fits apart parted =
    let (old, new, before, behind, all) =
      insert_unpacked_entries-files header after unpacked inserted in
    let there : ltb (length intermediate) start ≡ false = ground arith in
    let (content, payload_start, wrote, reread, payload) =
      write_asar-parse_asar text sink after (drop start intermediate) fine read fits in
    (
      content,
      payload_start,
      old,
      new,
      rw (restore_unpacked, parsed, inserted, there) wrote,
      reread,
      payload,
      before,
      behind,
      insert_all-node_at old unpacked new all apart,
      insert_all_elsewhere old unpacked new q all parted,
    )
