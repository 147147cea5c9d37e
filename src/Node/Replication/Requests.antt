-- ===== src/Node/Replication/Requests.antt =====
-- SendAppendEntriesToPeers of node/node.go: the request that is built for a peer, from its next index.
use raft_based_distributed_l.Node.Messages.{AppendEntriesRequest}
use raft_based_distributed_l.Storage.LogMemory.Laws.{IsValid}
use raft_based_distributed_l.Util.{uint64_min}
use raft_based_distributed_l.Storage.Codec.{Entry}
use raft_based_distributed_l.Storage.LogEntry.{LogEntry}
use raft_based_distributed_l.Node.State.{Node}
use raft_based_distributed_l.Storage.LogMemory.{fetch_log_entry, LogMemory}
use raft_based_distributed_l.Prelude.{
  inl, inr, subst, ◌^◌, arith, ◌<◌, ◌+◌, ◌≡◌, ◌≤◌, ◌==◌, add64, if◌then◌else◌, sub64, zero, suc, [],
  ◌∷◌, ℕ, List,
}
use raft_based_distributed_l.Exec.{ok_injective, Result-cases, Result, ok, err}
use raft_based_distributed_l.Node.P2pServer.Matching.{fetch_log_entry_found, ListedFrom}

-- The loop over the entries from the index `j` on.
unfoldable pub collect_entries : ℕ → ℕ → LogMemory → Result (List Entry)
collect_entries zero j lm = ok []
collect_entries (suc rounds) j lm = elim (fetch_log_entry lm j) [
  | err e ↦ err e
  | ok e ↦ elim (collect_entries rounds (add64 j 1) lm) [
    | err x ↦ err x
    | ok es ↦ ok (e.entry ∷ es)
  ]
]

unfoldable pub prev_entry_term_of : ℕ → LogMemory → Result ℕ
prev_entry_term_of prev lm =
    if prev == 0
    then ok 0
    else elim (fetch_log_entry lm prev) [ err e ↦ err e | ok e ↦ ok e.entry.term ]

unfoldable pub entry_length_of : ℕ → Node → ℕ
entry_length_of prev n =
    uint64_min n.config.max_log_units_recover (sub64 n.log_entry_in_memory.maximum_index prev)

abbrev pub request_of : Node → ℕ → ℕ → List Entry → AppendEntriesRequest
request_of n prev prev_term entries = record {
  term = n.context.current_term;
  node_id = n.config.self_id;
  prev_entry_index = prev;
  prev_entry_term = prev_term;
  commit_entry_index = n.context.commit_index;
  entry_list = entries;
}

unfoldable pub build_request : ℕ → Node → Result AppendEntriesRequest
unfolding collect_entries prev_entry_term_of entry_length_of
build_request next_index n =
    let prev = sub64 next_index 1 in
    elim (collect_entries (entry_length_of prev n) (add64 prev 1) n.log_entry_in_memory) [
      | err e ↦ err e
      | ok entries ↦ elim (prev_entry_term_of prev n.log_entry_in_memory) [
        | err e ↦ err e
        | ok prev_term ↦ ok (request_of n prev prev_term entries)
      ]
    ]

fetched_index :
    (lm : LogMemory) (i : ℕ) (e : LogEntry)
    → IsValid lm
    → fetch_log_entry lm i ≡ ok e
    → e.entry.index ≡ i
fetched_index lm i e v h = v.indexed i e (fetch_log_entry_found lm i e h)

collect_entries-ListedFrom :
    (rounds prev : ℕ) (lm : LogMemory) (es : List Entry)
    → IsValid lm
    → prev + rounds + 1 < 2 ^ 64
    → collect_entries rounds (prev + 1) lm ≡ ok es
    → ListedFrom prev es
unfolding collect_entries
collect_entries-ListedFrom zero prev lm es v small h =
    subst (ListedFrom prev) (ok_injective [] es h) tt
collect_entries-ListedFrom (suc rounds) prev lm es v small h =
    elim (Result-cases (fetch_log_entry lm (prev + 1))) [
      | inr (x, f) ↦ let h' = rw (f, collect_entries) at h in cc
      | inl (e, f) ↦
          let next : add64 (prev + 1) 1 ≡ prev + 1 + 1 = omega arith in
          elim (Result-cases (collect_entries rounds (prev + 1 + 1) lm)) [
            | inr (x, q) ↦ let h' = rw (f, next, q, collect_entries) at h in cc
            | inl (rest, q) ↦
                let h' = rw (f, next, q, collect_entries) at h in
                subst (ListedFrom prev) (ok_injective _ _ h') (
                  fetched_index lm (prev + 1) e v f,
                  collect_entries-ListedFrom rounds (prev + 1) lm rest v (omega arith) q,
                )
          ]
    ]

entry_length_bound : (prev : ℕ) (n : Node) → entry_length_of prev n ≤ n.config.max_log_units_recover
unfolding entry_length_of uint64_min
entry_length_bound prev n = ground arith

-- If every entry of the log stands under its own index, the next index of the peer is not 0, next
-- index and maximal number of entries stay together below 2^64, and a request is built, then its
-- previous entry is the one before the next index, and its entries carry the indexes behind that
-- one, as the theorem on log matching asks.
pub build_request-ListedFrom :
    (next_index : ℕ) (n : Node) (request : AppendEntriesRequest)
    → IsValid n.log_entry_in_memory
    → 0 < next_index
    → next_index + n.config.max_log_units_recover < 2 ^ 64
    → build_request next_index n ≡ ok request
    → (request.prev_entry_index + 1 ≡ next_index)
      × ListedFrom request.prev_entry_index request.entry_list
unfolding build_request
build_request-ListedFrom next_index n request v pos small h =
    let prev = sub64 next_index 1 in
    let step : add64 prev 1 ≡ prev + 1 = omega arith in
    let before : prev + 1 ≡ next_index = omega arith in
    let rounds = entry_length_of prev n in
    let few = entry_length_bound prev n in
    elim (Result-cases (collect_entries rounds (add64 prev 1) n.log_entry_in_memory)) [
      | inr (x, q) ↦ let h' = rw (q, build_request) at h in cc
      | inl (es, q) ↦ elim (Result-cases (prev_entry_term_of prev n.log_entry_in_memory)) [
        | inr (x, t) ↦ let h' = rw (q, t, build_request) at h in cc
        | inl (prev_term, t) ↦
            let h' = rw (q, t, build_request) at h in
            let listed =
              collect_entries-ListedFrom rounds prev n.log_entry_in_memory es v (omega arith)
                (rw step at q) in
            subst
              (λ r.
                (r.prev_entry_index + 1 ≡ next_index) × ListedFrom r.prev_entry_index r.entry_list)
              (ok_injective _ _ h') (before, listed)
      ]
    ]
