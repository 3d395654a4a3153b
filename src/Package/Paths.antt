-- ===== src/Package/Paths.antt =====
-- What crates/package/src/lib.rs uses of `std::path`: the components of a path. Its callers ask only
-- whether all of them are `Component::Normal`.
use tron_hawk.Common.{
  Bool, false, not, ◌&&◌, ◌||◌, Option, none, some, List, [], ◌∷◌, map, Str, codes, str_eq,
  is_empty, is_lower, is_upper, split, any, retain, ◌==◌, if◌then◌else◌,
}

pub data Platform : Type 0 where
  windows unix : Platform

-- `replace('\\', "/")`
abbrev pub forward : Str → Str
forward s = map (λ c. if c == 0x5c then b'/' else c) s

abbrev pub to_slashes : Platform → Str → Str
to_slashes windows path = forward path
to_slashes unix path = path

abbrev pub is_absolute : Str → Bool
is_absolute [] = false
is_absolute (c ∷ s) = c == b'/'

-- `C:`, which is a prefix on Windows only.
abbrev pub has_drive : Platform → Str → Bool
has_drive windows (c ∷ d ∷ s) = (is_lower c || is_upper c) && d == b':'
has_drive _ _ = false

abbrev pub is_dot : Str → Bool
is_dot segment = str_eq segment (codes ".")

abbrev pub is_dots : Str → Bool
is_dots segment = str_eq segment (codes "..")

-- A leading `.` is a component, one further on is passed over, as an empty segment is.
abbrev pub leads_with_dot : List Str → Bool
leads_with_dot [] = false
leads_with_dot (segment ∷ segments) = is_dot segment

-- The names of the components, if all are `Component::Normal`.
unfoldable pub normal_components : Platform → Str → Option (List Str)
normal_components platform path =
    let slashed = to_slashes platform path in
    let segments = split b'/' slashed in
    if is_absolute slashed
      || has_drive platform slashed
      || leads_with_dot segments
      || any is_dots segments
    then none
    else some (retain (λ segment. not (is_empty segment) && not (is_dot segment)) segments)
