-- ===== src/Package/Archive/Central/Distinct.antt =====
-- The scan for repeated names in crates/package/src/lib.rs ends, and finds one exactly if there is one.
use tron_hawk.Common.{
  ℕ, zero, suc, ◌≤◌, ◌<◌, ◌≡◌, ◌↔◌, ◌⊎◌, str_eq_iff, refl, sym, ◌∙◌, Bool, true, false, Option,
  none, some, List, [], ◌∷◌, length, take, drop, Str, contains_text, str_eq, ltb, All, ok, err,
  Bool-cases, Option-cases, inl, inr, arith, not,
}
use tron_hawk.Package.Archive.Central.{
  record_length, record_signature, first_record, scan_records, directory_of,
  reject_duplicate_archive_entries,
}

length-drop : (n : ℕ) (bytes : List ℕ) → length (drop n bytes) ≤ length bytes
length-drop zero bytes = omega arith
length-drop (suc n) [] = omega arith
length-drop (suc n) (b ∷ bytes) = omega (arith, length-drop n bytes)

length-drop_less :
    (n : ℕ) (bytes : List ℕ) → 1 ≤ n → 1 ≤ length bytes → length (drop n bytes) < length bytes
length-drop_less zero bytes a b = absurd (omega arith)
length-drop_less (suc n) [] a b = absurd (omega arith)
length-drop_less (suc n) (x ∷ bytes) a b = omega (arith, length-drop n bytes)

pair_second :
    {A B : Type 0} (a c : A) (b d : B) → Path (Option (A × B)) (some (a, b)) (some (c, d)) → b ≡ d
pair_second a c b d h = ground arith

ltb→le : (a b : ℕ) → ltb a b ≡ false → b ≤ a
ltb→le a b h = ground arith

-- Each record takes bytes.
pub first_record-shorter :
    (cd name rest : List ℕ) → first_record cd ≡ some (name, rest) → length rest < length cd
unfolding first_record
first_record-shorter cd name rest h = elim (Bool-cases (ltb (length cd) 46)) [
  | inl short ↦ absurd (cc (rw (first_record, short) at h))
  | inr long ↦ elim (Bool-cases (not (str_eq (take 4 cd) record_signature))) [
    | inl other ↦ absurd (cc (rw (first_record, long, other) at h))
    | inr signed ↦ elim (Bool-cases (ltb (length cd) (record_length cd))) [
      | inl cut ↦ absurd (cc (rw (first_record, long, signed, cut) at h))
      | inr whole ↦
          let e : drop (record_length cd) cd ≡ rest =
            pair_second _ name _ rest (rw (first_record, long, signed, whole) at h) in
          let bytes = ltb→le (length cd) 46 long in
          rw (← e) (length-drop_less (record_length cd) cd (omega arith) (omega arith))
    ]
  ]
]

-- The names of the records in a central directory, in their order.
pub data Records (lossy : List ℕ → Str) : List ℕ → List Str → Type 0 where
  ended : (cd : List ℕ) → first_record cd ≡ none → Records lossy cd []
  found :
      (cd name rest : List ℕ) (names : List Str)
      → first_record cd ≡ some (name, rest)
      → Records lossy rest names
      → Records lossy cd (lossy name ∷ names)

-- No name is among those seen before or among those before it.
abbrev pub IsFresh : List Str → List Str → Type 0
IsFresh seen [] = Unit
IsFresh seen (name ∷ names) = (contains_text seen name ≡ false) × IsFresh (name ∷ seen) names

-- No name stands again behind itself.
abbrev pub AreDistinct : List Str → Type 0
AreDistinct [] = Unit
AreDistinct (name ∷ names) = (contains_text names name ≡ false) × AreDistinct names

abbrev pub Answered : (List ℕ → Str) → ℕ → List Str → List ℕ → List Str → Type 0
Answered lossy fuel seen cd names =
    ((scan_records lossy fuel seen cd ≡ some (ok tt)) × IsFresh seen names)
    ⊎ ((name : Str) × (scan_records lossy fuel seen cd ≡ some (err name)) × ¬ IsFresh seen names)

abbrev Outcome : (List ℕ → Str) → ℕ → List Str → List ℕ → Type 0
Outcome lossy fuel seen cd =
    (names : List Str) × Records lossy cd names × Answered lossy fuel seen cd names

pub true-ne-false : {A : Type 0} → Path Bool true false → A
true-ne-false h = absurd (cc h)

-- The first record, and the scan behind it.
pub after_record :
    (lossy : List ℕ → Str) (fuel : ℕ) (seen : List Str) (cd bytes rest : List ℕ) (names : List Str)
    → first_record cd ≡ some (bytes, rest)
    → Answered lossy fuel (lossy bytes ∷ seen) rest names
    → Answered lossy (suc fuel) seen cd (lossy bytes ∷ names)
unfolding scan_records
after_record lossy fuel seen cd bytes rest names there after =
    elim (Bool-cases (contains_text seen (lossy bytes))) [
      | inl repeated ↦ inr (
        lossy bytes,
        rw (scan_records, there, repeated) refl,
        λ fresh. true-ne-false (sym repeated ∙ fresh.0),
      )
      | inr new ↦ elim after [
        | inl (passes, fresh) ↦ inl (rw (scan_records, there, new, passes) refl, (new, fresh))
        | inr (name, rejects, bad) ↦
            inr (name, rw (scan_records, there, new, rejects) refl, λ fresh. bad fresh.1)
      ]
    ]

-- Fuel above the bytes is enough.
scan_records_lem :
    (lossy : List ℕ → Str) (fuel : ℕ) (seen : List Str) (cd : List ℕ)
    → length cd < fuel
    → Outcome lossy fuel seen cd
unfolding scan_records
scan_records_lem lossy zero seen cd h = absurd (omega arith)
scan_records_lem lossy (suc fuel) seen cd h = elim (Option-cases (first_record cd)) [
  | inl none_left ↦ ([], ended cd none_left, inl (rw (scan_records, none_left) refl, tt))
  | inr ((bytes, rest), there) ↦
      let shorter = first_record-shorter cd bytes rest there in
      let (names, records, after) =
        scan_records_lem lossy fuel (lossy bytes ∷ seen) rest (omega arith) in
      (
        lossy bytes ∷ names,
        found cd bytes rest names there records,
        after_record lossy fuel seen cd bytes rest names there after,
      )
]

absent_under :
    (seen names : List Str) (name : Str)
    → contains_text names name ≡ false
    → All (λ n. contains_text seen n ≡ false) names
    → All (λ n. contains_text (name ∷ seen) n ≡ false) names
absent_under seen [] name h k = tt
absent_under seen (n ∷ names) name h k = (
  ground (arith, str_eq_iff name n, str_eq_iff n name),
  absent_under seen names name (ground arith) k.1,
)

absent_here :
    (seen names : List Str) (name : Str)
    → All (λ n. contains_text (name ∷ seen) n ≡ false) names
    → (contains_text names name ≡ false) × All (λ n. contains_text seen n ≡ false) names
absent_here seen [] name k = (refl, tt)
absent_here seen (n ∷ names) name k =
    let (here, rest) = absent_here seen names name k.1 in
    let first = k.0 in (ground (arith, str_eq_iff name n, str_eq_iff n name), (ground arith, rest))

pub IsFresh-AreDistinct :
    (seen names : List Str)
    → IsFresh seen names ↔ (AreDistinct names × All (λ n. contains_text seen n ≡ false) names)
IsFresh-AreDistinct seen [] = (λ h. (tt, tt), λ h. tt)
IsFresh-AreDistinct seen (name ∷ names) = (
  λ h.
      let (distinct, absent) = (IsFresh-AreDistinct (name ∷ seen) names).0 h.1 in
      let (here, rest) = absent_here seen names name absent in ((here, distinct), (h.0, rest)),
  λ h. (
    h.1.0,
    (IsFresh-AreDistinct (name ∷ seen) names).1 (h.0.1, absent_under seen names name h.0.0 h.1.1),
  ),
)

pub none_seen : (names : List Str) → All (λ n. contains_text [] n ≡ false) names
none_seen [] = tt
none_seen (name ∷ names) = (refl, none_seen names)

-- The scan of an archive's bytes ends within its fuel, one more than the bytes of the central
-- directory. It lets the archive pass exactly if no two of the directory's records, read to the first
-- that is not whole, have the same name; else it reports a name.
pub reject_duplicate_archive_entries-Records :
    (lossy : List ℕ → Str) (bytes : List ℕ)
    → (names : List Str) × Records lossy (directory_of bytes) names
      × (((reject_duplicate_archive_entries lossy bytes ≡ some (ok tt)) × AreDistinct names)
          ⊎ ((name : Str) × (reject_duplicate_archive_entries lossy bytes ≡ some (err name))
              × ¬ AreDistinct names))
unfolding reject_duplicate_archive_entries
reject_duplicate_archive_entries-Records lossy bytes =
    let cd = directory_of bytes in
    let (names, records, answer) = scan_records_lem lossy (suc (length cd)) [] cd (omega arith) in
    (
      names,
      records,
      elim answer [
        | inl (passes, fresh) ↦ inl (passes, ((IsFresh-AreDistinct [] names).0 fresh).0)
        | inr (name, rejects, repeated) ↦ inr (
          name,
          rejects,
          λ distinct. repeated ((IsFresh-AreDistinct [] names).1 (distinct, none_seen names)),
        )
      ],
    )
