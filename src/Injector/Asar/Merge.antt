-- ===== src/Injector/Asar/Merge.antt =====
-- `build_merged_asar` and `patched_package_json` of crates/injector/src/asar_merge.rs. The asar crate,
-- the file system and the paths of the standard library are arguments; a path is its text.
use tron_hawk.Common.{
  ℕ, ◌+◌, Bool, ◌||◌, Option, none, some, List, [], ◌∷◌, map, length, drop, Str, codes, bytes,
  str_eq, contains_text, is_empty, Result, ok, err, ◌>>=◌, ◌>>◌, reject_if, ltb, ok_or,
  if◌then◌else◌,
}
use tron_hawk.Common.Map.{Map, lookup}
use tron_hawk.Json.{Json, string, object}
use tron_hawk.Injector.Asar.{
  AsarError, not_created, source_unreadable, reader_failed, writer_failed, slice_panics, JsonText,
  parse_asar, Sink, write_asar,
}
use tron_hawk.Injector.Asar.Entries.{
  Entry, collect_unpacked_entries, set_field, insert_unpacked_entries,
}

abbrev pub entry_template : Str
entry_template =
    codes
      "require(process.env.MODLOADER_MOD_ENTRYPOINT)(require(\"path\").resolve(__dirname, \"../_app.asar\"));"

-- What `AsarReader` shows of an archive.
pub record Reader : Type 0 where
  pub files : Map (List ℕ)
  pub symlinks : Map Str

-- `AsarReader::new`, and an `AsarWriter` with its calls; `path_of` joins the names of a path, and
-- `from_str_lossy` is `from_str` behind `from_utf8_lossy`.
pub record AsarApi (W : Type 0) : Type 1 where
  pub open_reader : List ℕ → Option Reader
  pub new_writer : W
  pub write_file : Str → List ℕ → W → Option W
  pub write_symlink : Str → Str → W → Option W
  pub finalize : W → Option (List ℕ)
  pub path_of : List Str → Str
  pub from_str_lossy : List ℕ → Option Json

pub record MergeReport : Type 0 where
  pub entry_count : ℕ
  pub output_bytes : ℕ

abbrev pub minimal_package_json : List ℕ
minimal_package_json = bytes (codes "{\"main\":\"index.js\"}")

abbrev pub with_main : Json → Json
with_main (object fields) = object (set_field (codes "main") (string (codes "index.js")) fields)
with_main value = value

module _ {W : Type 0} (api : AsarApi W) (text : JsonText) where
  abbrev pub patched_of : Option Json → List ℕ
  patched_of none = minimal_package_json
  patched_of (some value) = text.to_vec (with_main value)

  unfoldable pub patched_package_json : Reader → List ℕ
  patched_package_json reader = elim (lookup (codes "package.json") reader.files) [
    | none ↦ minimal_package_json
    | some content ↦ patched_of (api.from_str_lossy content)
  ]

  abbrev pub is_skipped : List Str → Str → Bool
  is_skipped unpacked_paths path =
      str_eq path (codes "index.js")
      || str_eq path (codes "package.json")
      || contains_text unpacked_paths path

  -- One file of the source: the writer and the number of entries behind it.
  abbrev pub copy_file : List Str → Str → List ℕ → W × ℕ → Result AsarError (W × ℕ)
  copy_file unpacked_paths path content (writer, count) =
      if is_skipped unpacked_paths path
      then ok (writer, count)
      else (ok_or (api.write_file path content writer) writer_failed >>= λ after.
          ok (after, count + 1))

  unfoldable pub copy_files : List Str → Map (List ℕ) → W × ℕ → Result AsarError (W × ℕ)
  copy_files unpacked_paths [] done = ok done
  copy_files unpacked_paths ((path, content) ∷ files) done =
      copy_file unpacked_paths path content done >>= λ next. copy_files unpacked_paths files next

  unfoldable pub copy_symlinks : Map Str → W → Result AsarError W
  copy_symlinks [] writer = ok writer
  copy_symlinks ((path, link) ∷ symlinks) writer =
      ok_or (api.write_symlink path link writer) writer_failed >>= λ after.
      copy_symlinks symlinks after

  -- The archive before unpacked entries are restored, and how many entries were copied.
  unfoldable pub intermediate_of : Reader → List Str → Result AsarError (List ℕ × ℕ)
  intermediate_of reader unpacked_paths = do
    (copied, count) ← copy_files unpacked_paths reader.files (api.new_writer, 0)
    linked ← copy_symlinks reader.symlinks copied
    indexed ← ok_or (api.write_file (codes "index.js") (bytes entry_template) linked) writer_failed
    finished ←
        ok_or (api.write_file (codes "package.json") (patched_package_json reader) indexed)
          writer_failed
    content ← ok_or (api.finalize finished) writer_failed
    ok (content, count)

-- The header of the archive with the unpacked entries inserted, written with its payload. The slice of
-- the payload panics where it starts past the end, which is an error here.
unfoldable pub restore_unpacked :
    JsonText → Sink → List ℕ → List Entry → Result AsarError (List ℕ × ℕ)
restore_unpacked text sink intermediate unpacked = do
  (merged_header, payload_start) ← parse_asar text intermediate
  header ← insert_unpacked_entries merged_header unpacked
  reject_if (ltb (length intermediate) payload_start) slice_panics
  write_asar text sink header (drop payload_start intermediate)

-- `std::fs::write(out, …)`
abbrev pub write_out : Sink → List ℕ → Result AsarError (List ℕ × ℕ)
write_out sink content =
    if sink.creates
    then (if sink.takes [] content then ok (content, length content) else err not_created)
    else err not_created

module _ {W : Type 0} (api : AsarApi W) (text : JsonText) (sink : Sink) where
  unfoldable pub output_of : List ℕ → List Entry → Result AsarError (List ℕ × ℕ)
  output_of intermediate unpacked =
      if is_empty unpacked
      then write_out sink intermediate
      else restore_unpacked text sink intermediate unpacked

  -- The file that is written, and the report; `real_asar` is the source's content if it is read.
  unfoldable pub build_merged_asar : Option (List ℕ) → Result AsarError (List ℕ × MergeReport)
  build_merged_asar real_asar = do
    source ← ok_or real_asar source_unreadable
    reader ← ok_or (api.open_reader source) reader_failed
    (source_header, start) ← parse_asar text source
    let unpacked = collect_unpacked_entries source_header
    let unpacked_paths = map (λ (e : Entry). api.path_of e.0) unpacked
    (intermediate, count) ← intermediate_of api text reader unpacked_paths
    (content, output_bytes) ← output_of intermediate unpacked
    ok (content, record { entry_count = count; output_bytes = output_bytes })
