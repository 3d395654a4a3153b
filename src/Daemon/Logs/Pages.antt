-- ===== src/Daemon/Logs/Pages.antt =====
-- The pages of the log that `query_logs` of crates/core/src/daemon.rs returns one after the other.
use tron_hawk.Common.{
  ℕ, zero, suc, ◌<◌, ◌≡◌, refl, sym, ap, ◌∙◌, Bool, true, false, ◌&&◌, Option, none, some, List, [],
  ◌∷◌, ◌++◌, take, drop, retain, All, All-append, All-map, All-retain_test, ltb→lt, err-ne-ok,
  and-split, ltb, leb, Result, ok, Bool-cases, inl, inr, arith,
}
use mathlib.Core.List.{append-nil}
use tron_hawk.LogStore.Record.{LogRecord}
use tron_hawk.LogStore.Files.{Slots, Disk, IsPermitted}
use tron_hawk.LogStore.Lines.{Codec}
use tron_hawk.LogStore.Sort.{LogQuery, is_before, matches}
use tron_hawk.LogStore.Sort.Newest.{
  IsOlder, IsAscending, newest_first, retain-append, retain-IsAscending,
}
use tron_hawk.LogStore.Store.{LogStore}
use tron_hawk.LogStore.Store.Holds.{IsStore, recorded, query-IsStore}
use tron_hawk.Daemon.Logs.{last_sequence, query_logs}

-- Each record has a smaller sequence than those before it.
abbrev IsDescending : List LogRecord → Type 0
IsDescending [] = Unit
IsDescending (r ∷ rs) = All (λ s. IsOlder s r) rs × IsDescending rs

abbrev below : ℕ → LogRecord → Bool
below s r = ltb r.sequence s

IsDescending-append :
    (rs : List LogRecord) (r : LogRecord)
    → IsDescending rs
    → All (λ s. IsOlder r s) rs
    → IsDescending (rs ++ (r ∷ []))
IsDescending-append [] r d h = (tt, tt)
IsDescending-append (s ∷ rs) r d h =
    (All-append (λ t. IsOlder t s) rs (r ∷ []) d.0 (h.0, tt), IsDescending-append rs r d.1 h.1)

newest_first-each :
    (P : LogRecord → Type 0) (rs : List LogRecord) → All P rs → All P (newest_first rs)
unfolding newest_first
newest_first-each P [] h = tt
newest_first-each P (r ∷ rs) h =
    All-append P (newest_first rs) (r ∷ []) (newest_first-each P rs h.1) (h.0, tt)

newest_first-IsDescending : (rs : List LogRecord) → IsAscending rs → IsDescending (newest_first rs)
unfolding newest_first
newest_first-IsDescending [] a = tt
newest_first-IsDescending (r ∷ rs) a =
    IsDescending-append (newest_first rs) r (newest_first-IsDescending rs a.1)
      (newest_first-each (λ s. IsOlder r s) rs a.0)

retain-newest_first :
    (p : LogRecord → Bool) (rs : List LogRecord)
    → retain p (newest_first rs) ≡ newest_first (retain p rs)
unfolding newest_first
retain-newest_first p [] = refl
retain-newest_first p (r ∷ rs) =
    retain-append p (newest_first rs) (r ∷ [])
    ∙ ap (λ t. t ++ retain p (r ∷ [])) (retain-newest_first p rs)
    ∙ elim (Bool-cases (p r)) [
      | inl kept ↦ rw kept refl
      | inr dropped ↦ rw dropped (append-nil (newest_first (retain p rs)))
    ]

some_same : (a b : ℕ) → Path (Option ℕ) (some a) (some b) → a ≡ b
some_same a b h = ground arith

-- Where all are older, nothing is dropped.
retain_whole :
    (s : ℕ) (rs : List LogRecord) → All (λ r. r.sequence < s) rs → retain (below s) rs ≡ rs
retain_whole s [] h = refl
retain_whole s (r ∷ rs) h =
    let b : below s r ≡ true = ground arith in rw (b, retain_whole s rs h.1) refl

last_sequence_below :
    (n b s : ℕ) (rs : List LogRecord)
    → All (λ r. r.sequence < b) rs
    → last_sequence (take n rs) ≡ some s
    → s < b
last_sequence_below zero b s rs h e = absurd (cc e)
last_sequence_below (suc n) b s [] h e = absurd (cc e)
last_sequence_below (suc zero) b s (r ∷ rs) h e =
    let same : r.sequence ≡ s = some_same r.sequence s e in omega (arith, same, h.0)
last_sequence_below (suc (suc n)) b s (r ∷ []) h e =
    let same : r.sequence ≡ s = some_same r.sequence s e in omega (arith, same, h.0)
last_sequence_below (suc (suc n)) b s (r ∷ t ∷ rs) h e =
    last_sequence_below (suc n) b s (t ∷ rs) h.1 e

last_dropped : (s : ℕ) (r : LogRecord) → r.sequence ≡ s → below s r ≡ false
last_dropped s r e = ground arith

-- The records before the last of a page are those behind the page.
retain-below :
    (n s : ℕ) (rs : List LogRecord)
    → IsDescending rs
    → last_sequence (take (suc n) rs) ≡ some s
    → retain (below s) rs ≡ drop (suc n) rs
retain-below n s [] d h = refl
retain-below zero s (r ∷ rs) d h =
    let same : r.sequence ≡ s = some_same r.sequence s h in
    rw (last_dropped s r same) (retain_whole s rs (rw (← same) d.0))
retain-below (suc n) s (r ∷ []) d h =
    let same : r.sequence ≡ s = some_same r.sequence s h in rw (last_dropped s r same) refl
retain-below (suc n) s (r ∷ t ∷ rs) d h =
    let older = last_sequence_below (suc n) r.sequence s (t ∷ rs) d.0 h in
    let newer : below s r ≡ false = ground arith in rw newer (retain-below n s (t ∷ rs) d.1 h)

-- The next query of a client: the same, before a sequence.
abbrev pub from_sequence : ℕ → LogQuery → LogQuery
from_sequence s q = record {
  application_id = q.application_id;
  stream = q.stream;
  before_sequence = some s;
  limit = q.limit;
}

-- Whether the next query takes a record.
not_before :
    (s : ℕ) (q : LogQuery) (r : LogRecord)
    → below s r ≡ false
    → matches (from_sequence s q) r ≡ false
not_before s q r h = ground arith

still_before :
    (s : ℕ) (q : LogQuery) (r : LogRecord)
    → below s r ≡ true
    → is_before q.before_sequence r ≡ true
    → matches (from_sequence s q) r ≡ matches q r
still_before s q r h k = rw (h, k) refl

-- The query allows a sequence that it returned, and what it allows before that is what the next one does.
retain-from_sequence :
    (s : ℕ) (q : LogQuery) (rs : List LogRecord)
    → ((r : LogRecord) → r.sequence < s → is_before q.before_sequence r ≡ true)
    → retain (matches (from_sequence s q)) rs ≡ retain (below s) (retain (matches q) rs)
retain-from_sequence s q [] allows = refl
retain-from_sequence s q (r ∷ rs) allows = elim (Bool-cases (below s r)) [
  | inr newer ↦ elim (Bool-cases (matches q r)) [
    | inl kept ↦ rw (not_before s q r newer, kept, newer) (retain-from_sequence s q rs allows)
    | inr dropped ↦ rw (not_before s q r newer, dropped) (retain-from_sequence s q rs allows)
  ]
  | inl older ↦ elim (Bool-cases (matches q r)) [
    | inl kept ↦
        rw
          (
            still_before s q r older (allows r (ground arith)),
            kept,
            older,
            retain-from_sequence s q rs allows,
          )
          refl
    | inr dropped ↦
        rw (still_before s q r older (allows r (ground arith)), dropped)
          (retain-from_sequence s q rs allows)
  ]
]

matches_before :
    (b : ℕ) (q : LogQuery) (r : LogRecord)
    → q.before_sequence ≡ some b
    → matches q r ≡ true
    → r.sequence < b
matches_before b q r e h =
    let test : is_before q.before_sequence r ≡ true = ground arith in
    let at_b : ltb r.sequence b ≡ true = rw e at test in ltb→lt r.sequence b at_b

-- What a query returned is before the sequence of that query.
returned_before :
    (n s : ℕ) (q : LogQuery) (rs : List LogRecord)
    → last_sequence (take n (newest_first (retain (matches q) rs))) ≡ some s
    → (r : LogRecord) → r.sequence < s
    → is_before q.before_sequence r ≡ true
returned_before n s q rs last r older = before_of q.before_sequence refl
  where
    before_of : (o : Option ℕ) → q.before_sequence ≡ o → is_before o r ≡ true
    before_of none e = refl
    before_of (some b) e =
        let all =
          All-map (λ t h. matches_before b q t e h) (retain (matches q) rs)
            (All-retain_test (matches q) rs) in
        let first =
          last_sequence_below n b s (newest_first (retain (matches q) rs))
            (newest_first-each (λ t. t.sequence < b) (retain (matches q) rs) all) last in
        ground arith

page_limit :
    (k s : ℕ) (rs : List LogRecord)
    → leb 1 k ≡ true
    → IsDescending rs
    → last_sequence (take k rs) ≡ some s
    → retain (below s) rs ≡ drop k rs
page_limit zero s rs h d e = absurd (cc h)
page_limit (suc n) s rs h d e = retain-below n s rs d e

-- All that a query matches, the newest first.
abbrev pub matching : LogQuery → Slots (List LogRecord) → List LogRecord
matching q logs = newest_first (retain (matches q) (recorded logs))

matching-from_sequence :
    (s : ℕ) (q : LogQuery) (logs : Slots (List LogRecord))
    → leb 1 q.limit ≡ true
    → IsAscending (recorded logs)
    → last_sequence (take q.limit (matching q logs)) ≡ some s
    → matching (from_sequence s q) logs ≡ drop q.limit (matching q logs)
matching-from_sequence s q logs one ascending last =
    let kept = retain-IsAscending (matches q) (recorded logs) ascending in
    ap newest_first
      (retain-from_sequence s q (recorded logs) (returned_before q.limit s q (recorded logs) last))
    ∙ sym (retain-newest_first (below s) (retain (matches q) (recorded logs)))
    ∙ page_limit q.limit s (matching q logs) one
        (newest_first-IsDescending (retain (matches q) (recorded logs)) kept) last

query_logs_lem :
    (codec : Codec) (disk : Disk) (q : LogQuery) (store : LogStore) (logs : Slots (List LogRecord))
    → IsPermitted disk
    → IsStore codec store logs
    → (leb 1 q.limit && leb q.limit 20) ≡ true
    → query_logs codec disk q store
      ≡ ok (take q.limit (matching q logs), last_sequence (take q.limit (matching q logs)))
unfolding query_logs
query_logs_lem codec disk q store logs p holds fits =
    rw (query_logs, fits, query-IsStore codec disk q store logs p holds) refl

pair_ok :
    {E A B : Type 0} (a c : A) (b d : B)
    → Path (Result E (A × B)) (ok (a, b)) (ok (c, d))
    → (a ≡ c) × (b ≡ d)
pair_ok a c b d h = (ground arith, ground arith)

limit_ok :
    (codec : Codec) (disk : Disk) (q : LogQuery) (store : LogStore)
    (answer : List LogRecord × Option ℕ)
    → query_logs codec disk q store ≡ ok answer
    → (leb 1 q.limit && leb q.limit 20) ≡ true
unfolding query_logs
limit_ok codec disk q store answer h = elim (Bool-cases (leb 1 q.limit && leb q.limit 20)) [
  | inl fits ↦ fits
  | inr out ↦ err-ne-ok (rw (out, query_logs) at h)
]

-- On files that hold ascending records, a page is what the query matches, the newest first, up to its
-- limit; and the query from the sequence that the page names returns just what follows it.
pub query_logs-pages :
    (codec : Codec) (disk : Disk) (q : LogQuery) (store : LogStore) (logs : Slots (List LogRecord))
    (page : List LogRecord) (s : ℕ)
    → IsPermitted disk
    → IsStore codec store logs
    → query_logs codec disk q store ≡ ok (page, some s)
    → (page ≡ take q.limit (matching q logs))
      × (query_logs codec disk (from_sequence s q) store
          ≡ ok (
            take q.limit (drop q.limit (matching q logs)),
            last_sequence (take q.limit (drop q.limit (matching q logs))),
          ))
query_logs-pages codec disk q store logs page s p holds h =
    let fits = limit_ok codec disk q store (page, some s) h in
    let (a, b, c, d, e, ascending, below_next, one) = holds in
    let (same, last) =
      pair_ok _ page _ (some s) (sym (query_logs_lem codec disk q store logs p holds fits) ∙ h) in
    let rest = matching-from_sequence s q logs (and-split _ _ fits).0 ascending last in
    (
      sym same,
      query_logs_lem codec disk (from_sequence s q) store logs p holds fits
          ∙ ap (λ m. ok (take q.limit m, last_sequence (take q.limit m))) rest,
    )
