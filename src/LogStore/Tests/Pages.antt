-- ===== src/LogStore/Tests/Pages.antt =====
-- The pages that `query_logs` of crates/core/src/daemon.rs makes of a log of two files.
use tron_hawk.Common.{◌≡◌, refl, none, some, [], ◌∷◌, take, drop, str_eq, ok}
use tron_hawk.LogStore.Record.{plugin}
use tron_hawk.LogStore.Sort.{LogQuery}
use tron_hawk.LogStore.Sort.Newest.{newest_first}
use tron_hawk.LogStore.Store.Holds.{query-IsStore}
use tron_hawk.LogStore.Tests.{disk, stored, two_files, two_logs, two_files-IsStore}
use tron_hawk.LogStore.Tests.Codec.{codec}
use tron_hawk.Daemon.Logs.{last_sequence, query_logs}
use tron_hawk.Daemon.Logs.Pages.{from_sequence, matching, query_logs-pages}

abbrev one_of : LogQuery
one_of = record { application_id = none; stream = some plugin; before_sequence = none; limit = 1 }

first_page :
    query_logs codec disk one_of two_files ≡ ok (record stored { sequence = 2 } ∷ [], some 2)
unfolding query_logs newest_first str_eq
first_page =
    rw
      (query_logs, query-IsStore codec disk one_of two_files two_logs (λ i. refl) two_files-IsStore)
      refl

query_logs-pages_example :
    (record stored { sequence = 2 } ∷ [] ≡ take one_of.limit (matching one_of two_logs))
    × (query_logs codec disk (from_sequence 2 one_of) two_files
        ≡ ok (
          take one_of.limit (drop one_of.limit (matching one_of two_logs)),
          last_sequence (take one_of.limit (drop one_of.limit (matching one_of two_logs))),
        ))
query_logs-pages_example =
    query_logs-pages codec disk one_of two_files two_logs (record stored { sequence = 2 } ∷ []) 2
      (λ i. refl) two_files-IsStore first_page
