-- ===== src/LogStore/Files/Rotation.antt =====
-- Rotation in crates/core/src/log_store.rs loses no record but those of the oldest archive.
use tron_hawk.Common.{
  ℕ, ◌≡◌, refl, Option, none, some, List, ◌++◌, ok, err, sym, ap, ◌∙◌, ◌&&◌, Bool-cases,
  Option-cases, ◌⊎◌, inl, inr,
}
use mathlib.Core.List.{append-nil}
use tron_hawk.LogStore.Record.{io_error}
use tron_hawk.LogStore.Files.{
  Files, Disk, Done, moved, and_then, remove_oldest, third_up, second_up, first_up, active_up,
  shift, rotate, content_of,
}

-- All that the files hold, the oldest first.
abbrev pub history : Files → List ℕ
history files =
    content_of files.fourth
    ++ (content_of files.third
        ++ (content_of files.second ++ (content_of files.first ++ content_of files.active)))

abbrev pub without_oldest : Files → Files
without_oldest files = record files { fourth = none }

-- A step that the one before allows, with what both keep.
chain-history :
    (past : List ℕ) (d : Done) (step : Files → Done)
    → history d.1 ≡ past
    → ((files : Files) → d ≡ (ok tt, files) → history (step files).1 ≡ past)
    → history (and_then d step).1 ≡ past
chain-history past (ok u, files) step h k = k files refl
chain-history past (err e, files) step h k = h

-- A file that is there is renamed or not.
moved-cases :
    (disk : Disk) (i : ℕ) (slot : Option (List ℕ)) (files after : Files)
    → ((slot ≡ none) × (moved disk i slot files after ≡ (ok tt, files)))
      ⊎ ((moved disk i slot files after ≡ (ok tt, after))
          ⊎ (moved disk i slot files after ≡ (err io_error, files)))
moved-cases disk i none files after = inl (refl, refl)
moved-cases disk i (some content) files after =
    elim (Bool-cases (disk.permits i && disk.renames i)) [
      | inl fine ↦ inr (inl (rw fine refl))
      | inr failed ↦ inr (inr (rw failed refl))
    ]

-- A step of the loop, whose target is free: it keeps the history, and frees its slot.
module _ (disk : Disk) (i : ℕ) (slot : Files → Option (List ℕ)) (lift : Files → Files)
    (files : Files) (same : history (lift files) ≡ history files)
    (freed : slot (lift files) ≡ none) where
  moved-history : history (moved disk i (slot files) files (lift files)).1 ≡ history files
  moved-history = elim (moved-cases disk i (slot files) files (lift files)) [
    | inl (empty, e) ↦ rw e refl
    | inr (inl e) ↦ rw e same
    | inr (inr e) ↦ rw e refl
  ]

  moved_free :
      (after : Files)
      → moved disk i (slot files) files (lift files) ≡ (ok tt, after)
      → slot after ≡ none
  moved_free after m = elim (moved-cases disk i (slot files) files (lift files)) [
    | inl (empty, e) ↦ let f : files ≡ after = cc (sym e ∙ m) in rw (← f) empty
    | inr (inl e) ↦ let f : lift files ≡ after = cc (sym e ∙ m) in rw (← f) freed
    | inr (inr e) ↦ absurd (cc (sym e ∙ m))
  ]

shift-history : (disk : Disk) (a : Files) → a.fourth ≡ none → history (shift disk a).1 ≡ history a
unfolding shift
shift-history disk a free4 =
    chain-history (history a) _ _
      (moved-history disk 3 (λ f. f.third) third_up a (rw free4 refl) refl)
      λ b m3.
        let past3 : history b ≡ history a =
          ap (λ d. history d.1) (sym m3)
          ∙ moved-history disk 3 (λ f. f.third) third_up a (rw free4 refl) refl in
        let free3 = moved_free disk 3 (λ f. f.third) third_up a (rw free4 refl) refl b m3 in
        chain-history (history a) _ _
          (moved-history disk 2 (λ f. f.second) second_up b (rw free3 refl) refl ∙ past3)
          λ c m2.
            let past2 : history c ≡ history a =
              ap (λ d. history d.1) (sym m2)
              ∙ moved-history disk 2 (λ f. f.second) second_up b (rw free3 refl) refl
              ∙ past3 in
            let free2 = moved_free disk 2 (λ f. f.second) second_up b (rw free3 refl) refl c m2 in
            chain-history (history a) _ _
              (moved-history disk 1 (λ f. f.first) first_up c (rw free2 refl) refl ∙ past2)
              λ d m1.
                let past1 : history d ≡ history a =
                  ap (λ q. history q.1) (sym m1)
                  ∙ moved-history disk 1 (λ f. f.first) first_up c (rw free2 refl) refl
                  ∙ past2 in
                let free1 = moved_free disk 1 (λ f. f.first) first_up c (rw free2 refl) refl d m1 in
                moved-history disk 0 (λ f. f.active) active_up d (rw (free1, append-nil) refl) refl
                ∙ past1

oldest-cases :
    (disk : Disk) (files : Files)
    → ((files.fourth ≡ none) × (remove_oldest disk files ≡ (ok tt, files)))
      ⊎ ((remove_oldest disk files ≡ (ok tt, without_oldest files))
          ⊎ (remove_oldest disk files ≡ (err io_error, files)))
unfolding remove_oldest
oldest-cases disk files = elim (Option-cases files.fourth) [
  | inl empty ↦ inl (empty, rw (remove_oldest, empty) refl)
  | inr (content, there) ↦ elim (Bool-cases (disk.permits 4 && disk.removes)) [
    | inl fine ↦ inr (inl (rw (remove_oldest, there, fine) refl))
    | inr failed ↦ inr (inr (rw (remove_oldest, there, failed) refl))
  ]
]

-- Wherever a rotation stops, what the files hold, in order, is what they held, or that without the
-- oldest archive.
pub rotate-history :
    (disk : Disk) (files : Files)
    → (history (rotate disk files).1 ≡ history files)
      ⊎ (history (rotate disk files).1 ≡ history (without_oldest files))
unfolding rotate
rotate-history disk files = elim (oldest-cases disk files) [
  | inl (empty, e) ↦ inl (rw (rotate, e) (shift-history disk files empty))
  | inr (inl e) ↦ inr (rw (rotate, e) (shift-history disk (without_oldest files) refl))
  | inr (inr e) ↦ inl (rw (rotate, e) refl)
]
