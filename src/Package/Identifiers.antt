-- ===== src/Package/Identifiers.antt =====
-- The identifiers of crates/package/src/lib.rs: plugin ids, and the keys of a config schema. The
-- messages of the errors are constructors here.
use tron_hawk.Common.{
  ℕ, ◌≤◌, ◌≡◌, ◌≢◌, ◌↔◌, refl, Bool, true, false, ◌||◌, List, [], ◌∷◌, Str, is_digit, is_lower,
  is_empty, len, ltb, all, any, split, Result, ok, err, ◌>>◌, reject_if, ◌==◌, if◌then◌else◌, arith,
}

pub data IdError : Type 0 where
  bad_length : IdError
  bad_character : ℕ → IdError
  empty_segment : IdError

abbrev pub is_id_character : ℕ → Bool
is_id_character c = is_lower c || is_digit c || c == b'.' || c == b'-' || c == b'_'

-- The loop over the characters; the first bad one is reported.
unfoldable pub check_characters : Str → Result IdError (Unit {0})
check_characters [] = ok tt
check_characters (c ∷ s) =
    let rest = check_characters s in if is_id_character c then rest else err (bad_character c)

unfoldable pub check_segments : List Str → Result IdError (Unit {0})
check_segments [] = ok tt
check_segments (seg ∷ segs) =
    let rest = check_segments segs in if is_empty seg then err empty_segment else rest

unfoldable pub validate_id : Str → Result IdError (Unit {0})
unfolding check_characters check_segments
validate_id s =
    reject_if (is_empty s || ltb 128 (len s)) bad_length
    >> check_characters s
    >> check_segments (split b'.' s)

-- `validate_config_key`: its own copy of the same rules.
unfoldable pub validate_config_key : Str → Result IdError (Unit {0})
unfolding check_characters check_segments
validate_config_key key =
    reject_if (is_empty key || ltb 128 (len key)) bad_length
    >> check_characters key
    >> check_segments (split b'.' key)

pub check_characters_iff : (s : Str) → (check_characters s ≡ ok tt) ↔ (all is_id_character s ≡ true)
unfolding check_characters
check_characters_iff [] = (λ h. refl, λ h. refl)
check_characters_iff (c ∷ s) =
    (λ h. ground (arith, check_characters_iff s), λ h. ground (arith, check_characters_iff s))

pub check_segments_iff :
    (segs : List Str) → (check_segments segs ≡ ok tt) ↔ (any is_empty segs ≡ false)
unfolding check_segments
check_segments_iff [] = (λ h. refl, λ h. refl)
check_segments_iff (seg ∷ segs) =
    (λ h. ground (arith, check_segments_iff segs), λ h. ground (arith, check_segments_iff segs))

-- What an identifier is: 1 to 128 characters of its alphabet, in non-empty segments.
abbrev pub IsIdentifier : Str → Type 0
IsIdentifier s =
    (s ≢ [])
    × (len s ≤ 128)
    × (all is_id_character s ≡ true)
    × (any is_empty (split b'.' s) ≡ false)

is_empty_ne : (s : Str) → s ≢ [] → is_empty s ≡ false
is_empty_ne [] h = absurd (h refl)
is_empty_ne (c ∷ s) h = refl

-- `validate_id` accepts exactly the identifiers.
pub validate_id_iff : (s : Str) → (validate_id s ≡ ok tt) ↔ IsIdentifier s
unfolding validate_id
validate_id_iff s = (
  λ h. (
    ground arith,
    ground arith,
    (check_characters_iff s).0 (ground arith),
    (check_segments_iff (split b'.' s)).0 (ground arith),
  ),
  λ (nonempty, short, alphabet, segments).
      let characters = (check_characters_iff s).1 alphabet in
      let parts = (check_segments_iff (split b'.' s)).1 segments in
      let there : is_empty s ≡ false = is_empty_ne s nonempty in ground arith,
)

-- A key of a config schema and a plugin id have the same rules.
pub validate_config_key-validate_id : (s : Str) → validate_config_key s ≡ validate_id s
unfolding validate_config_key validate_id
validate_config_key-validate_id s = refl
