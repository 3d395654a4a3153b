-- ===== src/LogStore/Store/Pushed.antt =====
-- The records of a log store of crates/core/src/log_store.rs after one more.
use tron_hawk.Common.{
  ◌≡◌, refl, ap, ◌∙◌, sym, Bool, true, false, List, [], ◌∷◌, ◌++◌, All, All-append,
}
use mathlib.Core.List.{append_assoc, append-nil}
use tron_hawk.LogStore.Record.{LogRecord}
use tron_hawk.LogStore.Files.{Slots}
use tron_hawk.LogStore.Files.Fine.{rotated}
use tron_hawk.LogStore.Sort.Newest.{
  IsAscending, IsOlder, in_order, IsAscending-append, All-append_left,
}
use tron_hawk.LogStore.Store.Holds.{recorded}

-- The records after one more.
abbrev pub pushed : Bool → LogRecord → Slots (List LogRecord) → Slots (List LogRecord)
pushed true r logs = rotated (r ∷ []) logs
pushed false r logs = record logs { active = logs.active ++ (r ∷ []) }

in_order-append :
    (fs : List (List LogRecord)) (f : List LogRecord) → in_order (fs ++ (f ∷ [])) ≡ f ++ in_order fs
in_order-append [] f = sym (append-nil f)
in_order-append (g ∷ fs) f =
    ap (λ t. t ++ g) (in_order-append fs f) ∙ append_assoc f (in_order fs) g

-- All records without the oldest file.
abbrev since_oldest : Slots (List LogRecord) → List LogRecord
since_oldest logs = in_order (logs.active ∷ logs.first ∷ logs.second ∷ logs.third ∷ [])

-- What stays of the records when the oldest file may go.
abbrev pub remaining : Bool → Slots (List LogRecord) → List LogRecord
remaining true logs = since_oldest logs
remaining false logs = recorded logs

recorded-oldest : (logs : Slots (List LogRecord)) → recorded logs ≡ logs.fourth ++ since_oldest logs
recorded-oldest logs =
    in_order-append (logs.active ∷ logs.first ∷ logs.second ∷ logs.third ∷ []) logs.fourth

-- The new record is the last.
pub recorded-pushed :
    (full : Bool) (r : LogRecord) (logs : Slots (List LogRecord))
    → recorded (pushed full r logs) ≡ remaining full logs ++ (r ∷ [])
recorded-pushed true r logs = refl
recorded-pushed false r logs = sym (
    append_assoc (in_order (logs.first ∷ logs.second ∷ logs.third ∷ logs.fourth ∷ [])) logs.active
      (r ∷ []))

pub remaining-All :
    (P : LogRecord → Type 0) (full : Bool) (logs : Slots (List LogRecord))
    → All P (recorded logs)
    → All P (remaining full logs)
remaining-All P true logs h =
    (All-append_left P logs.fourth (since_oldest logs) (rw (← recorded-oldest logs) h)).1
remaining-All P false logs h = h

pub remaining-IsAscending :
    (full : Bool) (logs : Slots (List LogRecord))
    → IsAscending (recorded logs)
    → IsAscending (remaining full logs)
remaining-IsAscending true logs h =
    (IsAscending-append logs.fourth (since_oldest logs) (rw (← recorded-oldest logs) h)).1
remaining-IsAscending false logs h = h

pub IsAscending-last :
    (xs : List LogRecord) (r : LogRecord)
    → IsAscending xs
    → All (λ x. IsOlder x r) xs
    → IsAscending (xs ++ (r ∷ []))
IsAscending-last [] r a h = (tt, tt)
IsAscending-last (x ∷ xs) r a h =
    (All-append (IsOlder x) xs (r ∷ []) a.0 (h.0, tt), IsAscending-last xs r a.1 h.1)
