-- ===== src/Injector/Asar.antt =====
-- The archives of crates/injector/src/asar_merge.rs: the prefix and the header of an asar file, and
-- the tree of the header. A byte is a number below 256.
pub mod Entries
pub mod Merge
pub mod RoundTrip
pub mod Inserted
pub mod Merged
use tron_hawk.Common.{
  ℕ, ◌+◌, ◌-◌, ◌*◌, ◌/◌, ◌%◌, ◌^◌, Bool, true, false, Option, none, some, List, [], ◌∷◌, ◌++◌,
  length, take, drop, replicate, ltb, Result, ok, err, ◌>>=◌, ◌>>◌, reject_if, ok_or, if◌then◌else◌,
}
use tron_hawk.Json.{Json}

pub data AsarError : Type 0 where
  too_small size_overflow json_past_end json_unreadable : AsarError
  not_an_object no_root_files empty_path : AsarError
  collides : List ℕ → AsarError
  not_created not_written : AsarError
  source_unreadable reader_failed : AsarError
  writer_failed package_json_failed : AsarError
  -- The panic of a slice that starts past the end.
  slice_panics : AsarError

-- What the code takes of `serde_json`.
pub record JsonText : Type 0 where
  pub to_vec : Json → List ℕ
  pub from_slice : List ℕ → Option Json

-- `u32::to_le_bytes`
abbrev pub to_le_bytes : ℕ → List ℕ
to_le_bytes n = (n % 256) ∷ ((n / 256) % 256) ∷ ((n / 65536) % 256) ∷ ((n / 16777216) % 256) ∷ []

-- `u32::from_le_bytes`
abbrev pub from_le_bytes : List ℕ → ℕ
from_le_bytes (a ∷ b ∷ c ∷ d ∷ []) = a + (256 * b + (65536 * c + 16777216 * d))
from_le_bytes _ = 0

abbrev pub max_usize : ℕ
max_usize = 2 ^ 64 - 1

-- `bytes.get(from..to)`
abbrev pub range : ℕ → ℕ → List ℕ → Option (List ℕ)
range from to bytes =
    if ltb to from
    then none
    else if ltb (length bytes) to
    then none
    else some (take (to - from) (drop from bytes))

-- The bytes of the file: the header, and where the payload starts.
unfoldable pub parse_asar : JsonText → List ℕ → Result AsarError (Json × ℕ)
parse_asar text bytes = do
  head ← ok_or (range 0 16 bytes) too_small
  let header_size = from_le_bytes (take 4 (drop 4 head))
  let json_size = from_le_bytes (take 4 (drop 12 head))
  reject_if (ltb max_usize (16 + json_size)) size_overflow
  json ← ok_or (range 16 (16 + json_size) bytes) json_past_end
  header ← ok_or (text.from_slice json) json_unreadable
  ok (header, header_size + 8)

-- Whether the file is created, and takes some bytes behind those that it has.
pub record Sink : Type 0 where
  pub creates : Bool
  pub takes : List ℕ → List ℕ → Bool

-- `write_all` of some chunks in turn; the content and the number of bytes.
unfoldable pub write_all : Sink → List ℕ → ℕ → List (List ℕ) → Result AsarError (List ℕ × ℕ)
write_all sink content written [] = ok (content, written)
write_all sink content written (chunk ∷ chunks) =
    let rest = write_all sink (content ++ chunk) (written + length chunk) chunks in
    if sink.takes content chunk then rest else err not_written

abbrev pub u32 : ℕ → ℕ
u32 n = n % 2 ^ 32

abbrev pub aligned_size : ℕ → ℕ
aligned_size json_size = u32 (json_size + (4 - json_size % 4) % 4)

-- `Vec::resize` with zeros.
abbrev pub resize : ℕ → List ℕ → List ℕ
resize n bytes = take n (bytes ++ replicate (n - length bytes) 0)

abbrev pub prefix_words : ℕ → List (List ℕ)
prefix_words json_size =
    let aligned = aligned_size json_size in
    to_le_bytes 4
    ∷ to_le_bytes (u32 (aligned + 8))
    ∷ to_le_bytes (u32 (aligned + 4))
    ∷ to_le_bytes json_size
    ∷ []

-- What goes into the file: the four words, the padded header, and the payload.
unfoldable pub chunks_of : List ℕ → List ℕ → List (List ℕ)
chunks_of json payload =
    let json_size = u32 (length json) in
    prefix_words json_size ++ (resize (aligned_size json_size) json ∷ payload ∷ [])

unfoldable pub write_asar : JsonText → Sink → Json → List ℕ → Result AsarError (List ℕ × ℕ)
write_asar text sink header payload =
    if sink.creates
    then write_all sink [] 0 (chunks_of (text.to_vec header) payload)
    else err not_created
