-- ===== src/Package/Archive/Names.antt =====
-- What crates/package/src/lib.rs accepts as a name in an archive.
use tron_hawk.Common.{
  ℕ, suc, ◌≡◌, ◌≢◌, refl, sym, ap, ◌∙◌, true, false, not, ◌&&◌, List, [], ◌∷◌, ◌++◌, map, Str,
  str_eq, contains, is_empty, ends_with_char, lowercase, split, split-cons, split-ne-nil, join, any,
  retain, All, ltb, ◌==◌, ok, ◌>>◌, reject_if, if◌then◌else◌, arith, Bool-cases, inl, inr, then_ok,
  ◌⊎◌,
}
use mathlib.Core.List.{append-nil, append_assoc}
use tron_hawk.Package.Paths.{
  Platform, windows, unix, forward, to_slashes, is_absolute, has_drive, is_dot, is_dots,
  leads_with_dot, normal_components,
}
use tron_hawk.Package.Archive.{
  empty_name, is_windows_reserved_name, check_segment, key_from, without_marker, segments_of,
  validate_archive_entry_name, safe_join,
}

-- A segment that stands for itself on every file system: it is not empty, not `.` or `..`, has no colon
-- and no trailing dot or space, and is no device of Windows.
abbrev pub IsPlain : Str → Type 0
IsPlain seg =
    (is_empty seg ≡ false)
    × (contains b':' seg ≡ false)
    × (ends_with_char b'.' seg ≡ false)
    × (ends_with_char b' ' seg ≡ false)
    × (is_windows_reserved_name seg ≡ false)

check_segment_sound : (seg : Str) → check_segment seg ≡ ok tt → IsPlain seg
unfolding check_segment
check_segment_sound seg h =
    let none_empty : is_empty seg ≡ false = ground arith in
    let none_colon : contains b':' seg ≡ false = ground arith in
    let none_dot : ends_with_char b'.' seg ≡ false = ground arith in
    let none_space : ends_with_char b' ' seg ≡ false = ground arith in
    (none_empty, none_colon, none_dot, none_space, ground arith)

-- The segments behind the first, in a key.
abbrev tail_of : List Str → Str
tail_of [] = []
tail_of (seg ∷ segments) = b'/' ∷ (seg ++ tail_of segments)

join-tail_of : (p : Str) (ps : List Str) → join b'/' (p ∷ ps) ≡ p ++ tail_of ps
unfolding join
join-tail_of p [] = sym (append-nil p)
join-tail_of p (q ∷ ps) = ap (λ t. p ++ (b'/' ∷ t)) (join-tail_of q ps)

-- Past the first segment each adds a slash and itself in lower case.
key_from-suc :
    (i : ℕ) (key : Str) (segments : List Str) (whole : Str)
    → key_from (suc i) key segments ≡ ok whole
    → All IsPlain segments × (whole ≡ key ++ tail_of (map lowercase segments))
unfolding key_from
key_from-suc i key [] whole h =
    let same : key ≡ whole = cc h in (tt, sym same ∙ sym (append-nil key))
key_from-suc i key (seg ∷ segments) whole h =
    let (checked, rest) = then_ok (check_segment seg) _ whole h in
    let (plain, built) = key_from-suc (suc i) _ segments whole rest in
    let later : ltb 0 (suc i) ≡ true = ground arith in
    (
      (check_segment_sound seg checked, plain),
      built
          ∙ ap
              (λ b.
                ((if b then key ++ (b'/' ∷ []) else key) ++ lowercase seg)
                ++ tail_of (map lowercase segments))
              later
          ∙ append_assoc (key ++ (b'/' ∷ [])) (lowercase seg) (tail_of (map lowercase segments))
          ∙ append_assoc key (b'/' ∷ []) (lowercase seg ++ tail_of (map lowercase segments)),
    )

key_from-zero :
    (segments : List Str) (key : Str)
    → is_empty segments ≡ false
    → key_from 0 [] segments ≡ ok key
    → (segments ≢ []) × All IsPlain segments × (key ≡ join b'/' (map lowercase segments))
unfolding key_from
key_from-zero [] key n h = absurd (cc n)
key_from-zero (seg ∷ segments) key n h =
    let (checked, rest) = then_ok (check_segment seg) _ key h in
    let (plain, built) = key_from-suc 0 _ segments key rest in
    (
      cc,
      (check_segment_sound seg checked, plain),
      built ∙ sym (join-tail_of (lowercase seg) (map lowercase segments)),
    )

-- A name that is accepted has plain segments, and its key is them in lower case.
pub validate_archive_entry_name_sound :
    (name key : Str)
    → validate_archive_entry_name name ≡ ok key
    → (segments_of name ≢ [])
      × All IsPlain (segments_of name)
      × (key ≡ join b'/' (map lowercase (segments_of name)))
unfolding validate_archive_entry_name
validate_archive_entry_name_sound name key h =
    let (named, rest) =
      then_ok
        (reject_if (is_empty name) empty_name >> reject_if (is_empty (segments_of name)) empty_name)
        (key_from 0 [] (segments_of name)) key h in
    key_from-zero (segments_of name) key (ground arith) rest

-- What makes the components of a path normal.
plain_dots : (seg : Str) → IsPlain seg → (is_dot seg ≡ false) × (is_dots seg ≡ false)
unfolding str_eq
plain_dots [] p = (refl, refl)
plain_dots (c ∷ []) p = (ground arith, ground arith)
plain_dots (c ∷ d ∷ []) p = (ground arith, ground arith)
plain_dots (c ∷ d ∷ e ∷ s) p = (ground arith, ground arith)

nothing_dots : (is_dot [] ≡ false) × (is_dots [] ≡ false)
unfolding str_eq
nothing_dots = (refl, refl)

-- The segments without the marker are those with it that are neither empty nor a dot.
retain-plain :
    (segments : List Str)
    → All IsPlain (without_marker segments)
    → (retain (λ segment. not (is_empty segment) && not (is_dot segment)) segments
        ≡ without_marker segments)
      × (any is_dots segments ≡ false)
      × (leads_with_dot segments ≡ false)
retain-plain [] h = (refl, refl, refl)
retain-plain ([] ∷ []) h = (refl, rw nothing_dots.1 refl, nothing_dots.0)
retain-plain ((c ∷ s) ∷ []) h =
    let (dot, dots) = plain_dots (c ∷ s) h.0 in (rw dot refl, rw dots refl, dot)
retain-plain (s ∷ t ∷ rest) h =
    let (dot, dots) = plain_dots s h.0 in
    let (kept, none_dots, leading) = retain-plain (t ∷ rest) h.1 in
    (rw (h.0.0, dot, kept) refl, rw (dots, none_dots) refl, dot)

-- The first of several segments is plain, where those without the marker are.
first_segment :
    (seg : Str) (segments : List Str)
    → All IsPlain (without_marker (seg ∷ segments))
    → (seg ∷ segments ≡ [] ∷ []) ⊎ IsPlain seg
first_segment [] [] h = inl refl
first_segment (c ∷ s) [] h = inr h.0
first_segment seg (t ∷ rest) h = inr h.0

relative-plain :
    (path : Str) → All IsPlain (without_marker (split b'/' path)) → is_absolute path ≡ false
unfolding split
relative-plain [] h = refl
relative-plain (c ∷ s) h = elim (Bool-cases (c == b'/')) [
  | inr other ↦ other
  | inl slash ↦ elim (first_segment [] (split b'/' s) (rw slash at h)) [
    | inl alone ↦ absurd (split-ne-nil b'/' s (cc alone))
    | inr plain ↦ absurd (cc plain.0)
  ]
]

no_drive-plain :
    (platform : Platform) (path : Str)
    → All IsPlain (without_marker (split b'/' path))
    → has_drive platform path ≡ false
no_drive-plain unix path h = refl
no_drive-plain windows [] h = refl
no_drive-plain windows (c ∷ []) h = refl
no_drive-plain windows (c ∷ d ∷ s) h = elim (Bool-cases (has_drive windows (c ∷ d ∷ s))) [
  | inr none_there ↦ none_there
  | inl drive ↦
      let first : (c == b'/') ≡ false = ground arith in
      let second : (d == b'/') ≡ false = ground arith in
      let (p, ps, e, f) = split-cons b'/' d s second in
      let (q, qs, g, k) = split-cons b'/' c (d ∷ s) first in
      let begins : q ≡ d ∷ p = cc (f, g) in
      elim (first_segment (c ∷ q) qs (rw k at h)) [
        | inl alone ↦ absurd (cc alone)
        | inr plain ↦
            let clear : contains b':' (c ∷ d ∷ p) ≡ false = rw begins at plain.1 in ground arith
      ]
]

forward_idem : (s : Str) → forward (forward s) ≡ forward s
forward_idem [] = refl
forward_idem (c ∷ s) = ground (arith, forward_idem s)

slashes-forward : (platform : Platform) (s : Str) → to_slashes platform (forward s) ≡ forward s
slashes-forward windows s = forward_idem s
slashes-forward unix s = refl

-- A name that is accepted joins below the destination, with just its segments, whatever the platform.
pub safe_join-validate_archive_entry_name :
    (platform : Platform) (dest : List Str) (name key : Str)
    → validate_archive_entry_name name ≡ ok key
    → (safe_join platform dest name ≡ ok (dest ++ segments_of name))
      × (segments_of name ≢ [])
      × All IsPlain (segments_of name)
      × (key ≡ join b'/' (map lowercase (segments_of name)))
unfolding safe_join normal_components
safe_join-validate_archive_entry_name platform dest name key h =
    let (there, plain, made) = validate_archive_entry_name_sound name key h in
    let (kept, none_dots, leading) = retain-plain (split b'/' (forward name)) plain in
    (
      rw
          (
            safe_join,
            normal_components,
            slashes-forward platform name,
            relative-plain (forward name) plain,
            no_drive-plain platform (forward name) plain,
            leading,
            none_dots,
            kept,
          )
          refl,
      there,
      plain,
      made,
    )
