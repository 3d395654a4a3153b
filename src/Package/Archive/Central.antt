-- ===== src/Package/Archive/Central.antt =====
-- `reject_duplicate_archive_entries` in crates/package/src/lib.rs: the scan of an archive's bytes for
-- entries of the same name. A position in the bytes is the part that is left from there.
pub mod Distinct
pub mod Layout
pub mod Written
use tron_hawk.Common.{
  ℕ, zero, suc, ◌+◌, ◌-◌, ◌*◌, Bool, true, false, not, ◌&&◌, Option, none, some, List, [], ◌∷◌,
  length, take, drop, Str, contains_text, str_eq, ltb, leb, Result, ok, err, if◌then◌else◌,
}

-- `u16::from_le_bytes` and `u32::from_le_bytes`
abbrev pub from_le_bytes : List ℕ → ℕ
from_le_bytes [] = 0
from_le_bytes (b ∷ bytes) = b + 256 * from_le_bytes bytes

-- The number of so many bytes at an offset.
abbrev pub number_at : ℕ → ℕ → List ℕ → ℕ
number_at offset width bytes = from_le_bytes (take width (drop offset bytes))

abbrev pub end_signature : List ℕ
end_signature = b'P' ∷ b'K' ∷ 5 ∷ 6 ∷ []

abbrev pub record_signature : List ℕ
record_signature = b'P' ∷ b'K' ∷ 1 ∷ 2 ∷ []

-- The last position with the signature that leaves the 22 bytes of the end record.
unfoldable pub end_record : List ℕ → Option (List ℕ)
end_record [] = none
end_record (b ∷ bytes) = elim (end_record bytes) [
  | some found ↦ some found
  | none ↦
      if leb 22 (length (b ∷ bytes)) && str_eq (take 4 (b ∷ bytes)) end_signature
      then some (b ∷ bytes)
      else none
]

abbrev pub record_length : List ℕ → ℕ
record_length cd = 46 + number_at 28 2 cd + number_at 30 2 cd + number_at 32 2 cd

-- The bytes of the first record's name, and what follows the record.
unfoldable pub first_record : List ℕ → Option (List ℕ × List ℕ)
first_record cd =
    if ltb (length cd) 46
    then none
    else if not (str_eq (take 4 cd) record_signature)
    then none
    else if ltb (length cd) (record_length cd)
    then none
    else some (take (number_at 28 2 cd) (drop 46 cd), drop (record_length cd) cd)

-- The central directory that the end record tells of, if it is in the file.
abbrev pub central_directory : List ℕ → Option (List ℕ) → List ℕ
central_directory bytes none = []
central_directory bytes (some record_) =
    let cd_size = number_at 12 4 record_ in
    let cd_offset = number_at 16 4 record_ in
    if ltb (length bytes) (cd_offset + cd_size) then [] else take cd_size (drop cd_offset bytes)

-- The end record is sought in the last 22 + 65535 bytes. A file with no directory passes.
unfoldable pub directory_of : List ℕ → List ℕ
directory_of bytes =
    if ltb (length bytes) 22
    then []
    else central_directory bytes (end_record (drop (length bytes - (22 + 65535)) bytes))

-- `from_utf8_lossy`
module _ (lossy : List ℕ → Str) where
  -- The loop over the records, on fuel; none is running out of it. The error is the name.
  unfoldable pub scan_records : ℕ → List Str → List ℕ → Option (Result Str (Unit {0}))
  scan_records zero seen cd = none
  scan_records (suc fuel) seen cd = elim (first_record cd) [
    | none ↦ some (ok tt)
    | some (bytes, rest) ↦
        let name = lossy bytes in
        let more = scan_records fuel (name ∷ seen) rest in
        if contains_text seen name then some (err name) else more
  ]

  unfoldable pub reject_duplicate_archive_entries : List ℕ → Option (Result Str (Unit {0}))
  reject_duplicate_archive_entries bytes =
      let cd = directory_of bytes in scan_records (suc (length cd)) [] cd
