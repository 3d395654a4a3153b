-- ===== src/Injector/Tests.antt =====
-- The properties of crates/injector/src/asar_merge.rs at concrete inputs.
use tron_hawk.Common.{
  ℕ, ◌≡◌, refl, true, some, none, List, [], ◌∷◌, ◌++◌, codes, length, drop, Option, if◌then◌else◌,
  ◌==◌, str_eq, ok, arith,
}
use tron_hawk.Common.Map.{lookup}
use tron_hawk.Json.{Json, boolean, number, object, Fields, end, field}
use tron_hawk.Injector.Asar.{JsonText, parse_asar, Sink, write_asar}
use tron_hawk.Injector.Asar.Entries.{
  Entry, collect_unpacked_entries, collect_below, insert_unpacked_entries, insert_all,
  insert_into_files, set_field,
}
use tron_hawk.Injector.Asar.Inserted.{diverges}
use tron_hawk.Injector.Asar.Merged.{IsMerged, restore_unpacked-IsMerged}
use tron_hawk.Injector.Asar.RoundTrip.{IsOpen, write_asar-parse_asar}

abbrev unpacked_node : Json
unpacked_node =
    object (field (codes "size") (number (codes "3")) (field (codes "unpacked") (boolean true) end))

abbrev packed_node : Json
packed_node = object (field (codes "size") (number (codes "2")) end)

abbrev with_root : Fields → Json
with_root files = object (field (codes "files") (object files) end)

abbrev source_header : Json
source_header = with_root (
    field (codes "a.js") packed_node
      (field (codes "lib") (with_root (field (codes "n.node") unpacked_node end)) end))

abbrev writer_header : Json
writer_header = with_root (field (codes "a.js") packed_node end)

abbrev merged_header : Json
merged_header = with_root (
    field (codes "a.js") packed_node
      (field (codes "lib") (with_root (field (codes "n.node") unpacked_node end)) end))

abbrev unpacked : List Entry
unpacked = ((codes "lib" ∷ codes "n.node" ∷ []), unpacked_node) ∷ []

collected : collect_unpacked_entries source_header ≡ unpacked
unfolding collect_unpacked_entries collect_below str_eq lookup
collected = refl

-- JSON of the two headers, as one byte each.
abbrev parsed : List ℕ → Option Json
parsed [] = none
parsed (b ∷ rest) = some (if b == 1 then merged_header else writer_header)

abbrev text : JsonText
text = record { to_vec = λ v. 1 ∷ []; from_slice = parsed }

abbrev sink : Sink
sink = record { creates = true; takes = λ content chunk. true }

sink-IsOpen : IsOpen sink
sink-IsOpen = record { creates = refl; takes = λ content chunk. refl }

abbrev padded : ℕ → List ℕ
padded n = n ∷ 0 ∷ 0 ∷ 0 ∷ []

-- The writer's archive, with a payload of two bytes.
abbrev intermediate : List ℕ
intermediate = padded 4 ++ (padded 12 ++ (padded 8 ++ (padded 1 ++ (padded 2 ++ (7 ∷ 8 ∷ [])))))

write_asar-parse_asar_example :
    (content : List ℕ) × (start : ℕ) × (write_asar text sink merged_header (7 ∷ 8 ∷ [])
      ≡ ok (content, length content))
    × (parse_asar text content ≡ ok (merged_header, start))
    × (drop start content ≡ 7 ∷ 8 ∷ [])
write_asar-parse_asar_example =
    write_asar-parse_asar text sink merged_header (7 ∷ 8 ∷ []) sink-IsOpen refl (omega arith)

restore_unpacked-IsMerged_example :
    IsMerged text sink intermediate unpacked writer_header 20 (codes "a.js" ∷ []) merged_header
unfolding parse_asar insert_unpacked_entries insert_all insert_into_files set_field lookup str_eq
    diverges
restore_unpacked-IsMerged_example =
    restore_unpacked-IsMerged text sink intermediate unpacked writer_header merged_header 20
      (codes "a.js" ∷ []) sink-IsOpen refl (omega arith) refl refl (omega arith) (tt, tt) (refl, tt)
