-- ===== src/Package/Archive.antt =====
-- Archives in crates/package/src/lib.rs: the names of their entries, and the checks before anything is
-- extracted.
pub mod Names
pub mod Scan
pub mod Install
pub mod Central
use tron_hawk.Common.{
  ℕ, suc, ◌+◌, ◌-◌, ◌*◌, Bool, true, false, not, ◌&&◌, ◌||◌, Option, none, some, List, [], ◌∷◌,
  ◌++◌, map, length, Str, codes, str_eq, contains_text, contains, is_digit, is_lower, is_empty,
  starts_with, ends_with_char, lowercase, split, len, ltb, leb, ◌==◌, Result, ok, err, ◌>>=◌, ◌>>◌,
  reject_if, if◌then◌else◌,
}
use tron_hawk.Package.Paths.{Platform, forward, normal_components}

pub data NameError : Type 0 where
  empty_name empty_segment : NameError
  colon_in_segment trailing_dot_or_space reserved_name : Str → NameError
  escapes_dest : NameError
  appears_twice : NameError
  collides : Str → NameError

-- `to_ascii_uppercase`
abbrev pub uppercase : Str → Str
uppercase s = map (λ c. if is_lower c then (c - 32) else c) s

-- The characters are ¹ ² ³ ⁴ to ⁹.
abbrev pub superscript_digit : ℕ → Option ℕ
superscript_digit c =
    if c == 0xb9
    then some b'1'
    else if c == 0xb2
    then some b'2'
    else if c == 0xb3
    then some b'3'
    else if leb 0x2074 c && leb c 0x2079
    then some (b'4' + (c - 0x2074))
    else none

-- What stands before the first dot.
abbrev pub stem_of : Str → Str
stem_of [] = []
stem_of (c ∷ s) = if c == b'.' then [] else c ∷ stem_of s

-- A trailing superscript digit of a COM or LPT name, as a digit.
abbrev pub plain_device : Str → Str
plain_device (a ∷ b ∷ c ∷ d ∷ []) =
    let device = a ∷ b ∷ c ∷ [] in
    if str_eq device (codes "COM") || str_eq device (codes "LPT")
    then (elim (superscript_digit d) [ none ↦ a ∷ b ∷ c ∷ d ∷ [] | some e ↦ a ∷ b ∷ c ∷ e ∷ [] ])
    else a ∷ b ∷ c ∷ d ∷ []
plain_device s = s

abbrev pub device_names : List Str
device_names =
    codes "CON" ∷ codes "PRN" ∷ codes "AUX" ∷ codes "NUL" ∷ codes "CONIN$" ∷ codes "CONOUT$" ∷ []

-- Whether a name is COM or LPT and a digit other than 0. Its fourth byte is a digit only if its fourth
-- character is.
abbrev pub is_port_name : Str → Bool
is_port_name (a ∷ b ∷ c ∷ d ∷ []) =
    let device = a ∷ b ∷ c ∷ [] in
    (str_eq device (codes "COM") || str_eq device (codes "LPT")) && is_digit d && not (d == b'0')
is_port_name _ = false

unfoldable pub is_windows_reserved_name : Str → Bool
is_windows_reserved_name segment =
    let name = plain_device (uppercase (stem_of segment)) in
    contains_text device_names name || is_port_name name

-- The checks on one segment.
unfoldable pub check_segment : Str → Result NameError (Unit {0})
check_segment seg =
    reject_if (is_empty seg) empty_segment
    >> reject_if (contains b':' seg) (colon_in_segment seg)
    >> reject_if (ends_with_char b'.' seg || ends_with_char b' ' seg) (trailing_dot_or_space seg)
    >> reject_if (is_windows_reserved_name seg) (reserved_name seg)

-- The loop over the segments, from number `i`, that builds the key.
unfoldable pub key_from : ℕ → Str → List Str → Result NameError Str
key_from i key [] = ok key
key_from i key (seg ∷ segments) =
    check_segment seg
    >> key_from (suc i) ((if ltb 0 i then key ++ (b'/' ∷ []) else key) ++ lowercase seg) segments

-- A trailing separator marks a directory.
abbrev pub without_marker : List Str → List Str
without_marker [] = []
without_marker ([] ∷ []) = []
without_marker ((c ∷ s) ∷ []) = (c ∷ s) ∷ []
without_marker (s ∷ t ∷ rest) = s ∷ without_marker (t ∷ rest)

abbrev pub segments_of : Str → List Str
segments_of name = without_marker (split b'/' (forward name))

unfoldable pub validate_archive_entry_name : Str → Result NameError Str
validate_archive_entry_name name =
    reject_if (is_empty name) empty_name
    >> reject_if (is_empty (segments_of name)) empty_name
    >> key_from 0 [] (segments_of name)

-- The path of an entry under `dest`, as the names from its root.
unfoldable pub safe_join : Platform → List Str → Str → Result NameError (List Str)
safe_join platform dest name = elim (normal_components platform (forward name)) [
  | none ↦ err escapes_dest
  | some names ↦ ok (dest ++ names)
]
