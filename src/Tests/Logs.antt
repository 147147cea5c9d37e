-- ===== src/Tests/Logs.antt =====
-- The log in memory.
use raft_based_distributed_l.Storage.LogEntry.{LogEntry}
use raft_based_distributed_l.Storage.LogMemory.TermSearch.{
  fetch_last_index_of_term-Searched, Searched,
}
use raft_based_distributed_l.Tests.Samples.{bob, alice, info_of, entry_of, empty_log}
use raft_based_distributed_l.Storage.LogMemory.{fetch_last_index_of_term, insert_valid_entry_list}
use raft_based_distributed_l.Prelude.{refl, arith, List, [], ◌∷◌}
use raft_based_distributed_l.Storage.LogMemory.Contents.{
  insert_valid_entry_list-IsContiguous, IsContiguous,
}

empty_log-IsContiguous : IsContiguous empty_log
empty_log-IsContiguous = record {
  valid = record { indexed = λ i e h. cc; bounded = λ i e h. cc };
  present = λ i pos top. absurd (omega arith);
}

abbrev both : List LogEntry
both = entry_of 1 1 (info_of 1 alice 5 10) ∷ entry_of 2 2 (info_of 2 bob 20 10) ∷ []

insert_valid_entry_list-IsContiguous_example :
    IsContiguous (insert_valid_entry_list both empty_log).1
insert_valid_entry_list-IsContiguous_example =
    insert_valid_entry_list-IsContiguous both 0 empty_log (refl, (refl, tt)) (omega arith)
      empty_log-IsContiguous

both_inserted-IsContiguous : IsContiguous (insert_valid_entry_list both empty_log).1
both_inserted-IsContiguous =
    insert_valid_entry_list-IsContiguous both 0 empty_log (refl, (refl, tt)) (omega arith)
      empty_log-IsContiguous

fetch_last_index_of_term-Searched_example :
    Searched
      (insert_valid_entry_list both empty_log).1
      2
      (insert_valid_entry_list both empty_log).1.maximum_index
      (fetch_last_index_of_term (insert_valid_entry_list both empty_log).1 2)
fetch_last_index_of_term-Searched_example =
    fetch_last_index_of_term-Searched (insert_valid_entry_list both empty_log).1 2
      both_inserted-IsContiguous (omega arith)
