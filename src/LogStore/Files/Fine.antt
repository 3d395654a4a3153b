-- ===== src/LogStore/Files/Fine.antt =====
-- Rotation and writing in crates/core/src/log_store.rs on a file system where every call works.
use tron_hawk.Common.{ℕ, ◌≡◌, refl, true, Option, none, some, List, ◌++◌, ok}
use tron_hawk.LogStore.Files.{
  Slots, Files, Disk, IsPermitted, whole, content_of, moved, remove_oldest, shift, rotate,
  write_active,
}

-- A file system where every call works.
abbrev pub IsFine : Disk → Type 0
IsFine disk =
    IsPermitted disk
    × (disk.removes ≡ true)
    × ((i : ℕ) → disk.renames i ≡ true)
    × ((bytes : List ℕ) → disk.writes bytes ≡ whole)

abbrev slots {ℓ} : {A : Type ℓ} → A → A → A → A → A → Slots A
slots active first second third fourth = record {
  active = active;
  first = first;
  second = second;
  third = third;
  fourth = fourth;
}

-- The files of a store after a rotation.
abbrev pub rotated {ℓ} : {A : Type ℓ} → A → Slots A → Slots A
rotated nothing logs = slots nothing logs.active logs.first logs.second logs.third

module _ (disk : Disk) (fine : IsFine disk) where
  remove_oldest-IsFine :
      (a f s t o : Option (List ℕ))
      → remove_oldest disk (slots a f s t o) ≡ (ok tt, slots a f s t none)
  unfolding remove_oldest
  remove_oldest-IsFine a f s t none = refl
  remove_oldest-IsFine a f s t (some x) = rw (remove_oldest, fine.0 4, fine.1) refl

  third-IsFine :
      (a f s t : Option (List ℕ))
      → moved disk 3 t (slots a f s t none) (slots a f s none t) ≡ (ok tt, slots a f s none t)
  third-IsFine a f s none = refl
  third-IsFine a f s (some x) = rw (fine.0 3, fine.2 3) refl

  second-IsFine :
      (a f s t : Option (List ℕ))
      → moved disk 2 s (slots a f s none t) (slots a f none s t) ≡ (ok tt, slots a f none s t)
  second-IsFine a f none t = refl
  second-IsFine a f (some x) t = rw (fine.0 2, fine.2 2) refl

  first-IsFine :
      (a f s t : Option (List ℕ))
      → moved disk 1 f (slots a f none s t) (slots a none f s t) ≡ (ok tt, slots a none f s t)
  first-IsFine a none s t = refl
  first-IsFine a (some x) s t = rw (fine.0 1, fine.2 1) refl

  active-IsFine :
      (a f s t : Option (List ℕ))
      → moved disk 0 a (slots a none f s t) (slots none a f s t) ≡ (ok tt, slots none a f s t)
  active-IsFine none f s t = refl
  active-IsFine (some x) f s t = rw (fine.0 0, fine.2 0) refl

  -- Every file is under the next number, and the oldest is gone.
  pub rotate-IsFine : (files : Files) → rotate disk files ≡ (ok tt, rotated none files)
  unfolding rotate shift
  rotate-IsFine files =
      rw
        (
          rotate,
          remove_oldest-IsFine files.active files.first files.second files.third files.fourth,
          shift,
          third-IsFine files.active files.first files.second files.third,
          second-IsFine files.active files.first files.second files.third,
          first-IsFine files.active files.first files.second files.third,
          active-IsFine files.active files.first files.second files.third,
        )
        refl

  pub write_active-IsFine :
      (bytes : List ℕ) (files : Files)
      → write_active disk bytes files
        ≡ (ok tt, record files { active = some (content_of files.active ++ bytes) })
  unfolding write_active
  write_active-IsFine bytes files = rw (write_active, fine.0 0, fine.3 bytes) refl
