-- ===== src/LogStore/Sort.antt =====
-- `sort_by` on descending sequences, and the queries of crates/core/src/log_store.rs.
pub mod Newest
use tron_hawk.Common.{
  ℕ, Bool, true, false, ◌&&◌, Option, none, some, List, [], ◌∷◌, Str, str_eq, ltb, leb, retain,
  take, if◌then◌else◌,
}
use tron_hawk.LogStore.Record.{LogRecord, LogStream, same_stream}

pub record LogQuery : Type 0 where
  pub application_id : Option Str
  pub stream : Option LogStream
  pub before_sequence : Option ℕ
  pub limit : ℕ

abbrev pub is_application : Option Str → LogRecord → Bool
is_application none r = true
is_application (some id) r = str_eq r.application_id id

abbrev pub is_stream : Option LogStream → LogRecord → Bool
is_stream none r = true
is_stream (some stream) r = same_stream r.stream stream

abbrev pub is_before : Option ℕ → LogRecord → Bool
is_before none r = true
is_before (some before) r = ltb r.sequence before

-- The test of `query`.
abbrev pub matches : LogQuery → LogRecord → Bool
matches query r =
    is_application query.application_id r
    && is_stream query.stream r
    && is_before query.before_sequence r

-- A stable sort, the greatest sequence first.
unfoldable pub insert_newest : LogRecord → List LogRecord → List LogRecord
insert_newest r [] = r ∷ []
insert_newest r (s ∷ rs) =
    let later = insert_newest r rs in if leb s.sequence r.sequence then r ∷ s ∷ rs else s ∷ later

unfoldable pub sort_newest : List LogRecord → List LogRecord
unfolding insert_newest
sort_newest [] = []
sort_newest (r ∷ rs) = insert_newest r (sort_newest rs)

-- What `query` makes of all records.
unfoldable pub select : LogQuery → List LogRecord → List LogRecord
unfolding sort_newest
select query rs = take query.limit (sort_newest (retain (matches query) rs))
