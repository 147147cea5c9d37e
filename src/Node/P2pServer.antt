-- ===== src/Node/P2pServer.antt =====
-- node/p2p_server.go: how a node answers its peers. The node's mutex is held throughout a service, so
-- each is one step; `now` is what time.Now() returns.
pub mod Votes
pub mod Terms
pub mod Stored
pub mod Commits
pub mod Matching
use raft_based_distributed_l.Node.Messages.{
  AppendEntriesRequest, AppendEntriesResponse, CandidateVotesRequest, CandidateVotesResponse,
  RecoverEntriesRequest, RecoverEntriesResponse,
}
use raft_based_distributed_l.Util.{uint64_min}
use raft_based_distributed_l.Storage.LogEntry.{new_log_entry_list, LogEntry}
use raft_based_distributed_l.Storage.Codec.{Entry, Codec}
use raft_based_distributed_l.Storage.LogMemory.{fetch_log_entry, insert_valid_entry_list, LogMemory}
use raft_based_distributed_l.Node.State.{with_context, Node, become_follower}
use raft_based_distributed_l.Prelude.{
  [], ◌∷◌, ◌∷◌, false, leb, ◌&&◌, ◌||◌, ◌==◌, ltb, if◌then◌else◌, List, true, Bool, ℕ, none, some,
  Option,
}
use raft_based_distributed_l.Exec.{p2p_dead, pure, get, ok, lift, err, Exec, Result, ◌>>=◌, ◌>>◌}
use raft_based_distributed_l.Node.Context.{
  trigger_commit_channel, NodeContext, NodeState, dead, follower,
}

abbrev pub is_dead : NodeState → Bool
is_dead dead = true
is_dead _ = false

abbrev pub is_follower : NodeState → Bool
is_follower follower = true
is_follower _ = false

abbrev pub modify : (Node → Node) → Exec Node (Unit {0})
modify f n = (ok tt, f n)

abbrev pub set_hop : ℕ → Node → Node
set_hop id = with_context (λ nc. record nc { hop_to_current_leader_id = id })

abbrev pub set_restart : ℕ → Node → Node
set_restart now = with_context (λ nc. record nc { election_restart_time = now })

-- The term of a node whose request has a higher term than ours, and of the leader of our term.
unfoldable pub hear_higher : ℕ → AppendEntriesRequest → Node → Node
hear_higher now request n =
    if ltb n.context.current_term request.term
    then become_follower now request.term (set_hop request.node_id n)
    else n

unfoldable pub hear_leader : ℕ → AppendEntriesRequest → Node → Node
hear_leader now request n =
    let n' = set_hop request.node_id n in
    set_restart now
      (if is_follower n'.context.node_state then n' else become_follower now request.term n')

-- Whether the log has the entry before the leader's.
unfoldable pub prev_matches : AppendEntriesRequest → LogMemory → Result Bool
prev_matches request lm =
    if leb request.prev_entry_index lm.maximum_index
    then if request.prev_entry_index == 0
      then ok true
      else elim (fetch_log_entry lm request.prev_entry_index) [
        | err e ↦ err e
        | ok e ↦ ok (e.entry.term == request.prev_entry_term)
      ]
    else ok false

-- Where the log differs from the leader's: the index and the term.
unfoldable pub conflict : AppendEntriesRequest → LogMemory → Result (ℕ × ℕ)
conflict request lm =
    if lm.maximum_index == 0
    then ok (0, 0)
    else if ltb lm.maximum_index request.prev_entry_index
    then elim (fetch_log_entry lm lm.maximum_index) [
      | err e ↦ err e
      | ok e ↦ ok (lm.maximum_index, e.entry.term)
    ]
    else if request.prev_entry_index == 0
    then ok (0, 0)
    else elim (fetch_log_entry lm request.prev_entry_index) [
      | err e ↦ err e
      | ok e ↦ ok (request.prev_entry_index, e.entry.term)
    ]

unfoldable pub advance_commit : ℕ → Node → Node
advance_commit leader_commit n =
    if ltb n.context.commit_index leader_commit
    then with_context
        (λ nc. trigger_commit_channel (record nc {
          commit_index = uint64_min leader_commit n.log_entry_in_memory.maximum_index;
        }))
        n
    else n

module _ (codec : Codec) where
  unfoldable pub new_log_entries : List Entry → Result (List LogEntry)
  new_log_entries [] = ok []
  new_log_entries (entry ∷ entry_list) = elim (new_log_entry_list codec entry) [
    | err e ↦ err e
    | ok e ↦ elim (new_log_entries entry_list) [ err x ↦ err x | ok es ↦ ok (e ∷ es) ]
  ]

  unfoldable pub store_entries : List LogEntry → Exec Node (Unit {0})
  store_entries es n =
      let (r, lm) = insert_valid_entry_list es n.log_entry_in_memory in
      (r, record n { log_entry_in_memory = lm })

  unfoldable pub accept_entries :
      AppendEntriesRequest → AppendEntriesResponse → Exec Node AppendEntriesResponse
  unfolding new_log_entries store_entries advance_commit
  accept_entries request response = do
    es ← lift (new_log_entries request.entry_list)
    store_entries es
    before ← get
    modify (advance_commit request.commit_entry_index)
    n ← get
    pure (record response {
      success = true;
      term = n.context.current_term;
      commit_entry_index =
          if ltb before.context.commit_index request.commit_entry_index
          then n.context.commit_index
          else response.commit_entry_index;
    })

  unfoldable pub refuse_entries :
      AppendEntriesRequest → AppendEntriesResponse → Exec Node AppendEntriesResponse
  unfolding conflict
  refuse_entries request response = do
    n ← get
    c ← lift (conflict request n.log_entry_in_memory)
    pure (record response {
      conflict_entry_index = c.0;
      conflict_entry_term = c.1;
      term = n.context.current_term;
    })

  -- The request has the node's term.
  unfoldable pub follow_leader :
      ℕ → AppendEntriesRequest → AppendEntriesResponse → Exec Node AppendEntriesResponse
  unfolding hear_leader prev_matches accept_entries refuse_entries
  follow_leader now request response = do
    modify (hear_leader now request)
    n ← get
    success ← lift (prev_matches request n.log_entry_in_memory)
    if success then accept_entries request response else refuse_entries request response

  -- The response as it is set up: the commit index is the one before the request.
  abbrev pub first_response : Node → Node → AppendEntriesResponse
  first_response s n = record {
    term = n.context.current_term;
    node_id = s.config.self_id;
    conflict_entry_index = 0;
    conflict_entry_term = 0;
    commit_entry_index = s.context.commit_index;
    success = false;
  }

  unfoldable pub append_entries_alive : ℕ → AppendEntriesRequest → Exec Node AppendEntriesResponse
  unfolding hear_higher follow_leader
  append_entries_alive now request s =
      let n = hear_higher now request s in
      let response = first_response s n in
      if request.term == n.context.current_term
      then follow_leader now request response n
      else (ok response, n)

  unfoldable pub append_entries_service : ℕ → AppendEntriesRequest → Exec Node AppendEntriesResponse
  unfolding append_entries_alive
  append_entries_service now request n =
      if is_dead n.context.node_state then (err p2p_dead, n) else append_entries_alive now request n

-- The term of the last entry, 0 in an empty log.
unfoldable pub last_entry_term : LogMemory → Result ℕ
last_entry_term lm =
    if lm.maximum_index == 0
    then ok 0
    else elim (fetch_log_entry lm lm.maximum_index) [ err e ↦ err e | ok e ↦ ok e.entry.term ]

abbrev pub up_to_date : CandidateVotesRequest → LogMemory → ℕ → Bool
up_to_date request lm last_term =
    ltb last_term request.prev_entry_term
    || (request.prev_entry_term == last_term && leb lm.maximum_index request.prev_entry_index)

abbrev pub vote_response : Bool → Node → CandidateVotesResponse
vote_response accepted n = record {
  term = n.context.current_term;
  node_id = n.config.self_id;
  accepted = accepted;
}

abbrev pub vote_for : ℕ → Node → Node
vote_for id = with_context (λ nc. record nc { voted_peer = id })

-- A request of our own term, when we have voted for nobody or for its sender.
unfoldable pub vote_in_term : ℕ → CandidateVotesRequest → Exec Node CandidateVotesResponse
unfolding last_entry_term
vote_in_term now request n = elim (last_entry_term n.log_entry_in_memory) [
  | err e ↦ (err e, n)
  | ok last_term ↦
      if up_to_date request n.log_entry_in_memory last_term
      then (ok (vote_response true n), set_restart now (vote_for request.node_id n))
      else (ok (vote_response false n), n)
]

unfoldable pub vote_higher : ℕ → CandidateVotesRequest → Exec Node CandidateVotesResponse
unfolding become_follower
vote_higher now request n =
    let n' = vote_for request.node_id (become_follower now request.term (set_hop 0 n)) in
    (ok (vote_response true n'), n')

abbrev pub may_vote : CandidateVotesRequest → NodeContext → Bool
may_vote request nc =
    request.term == nc.current_term && (nc.voted_peer == 0 || nc.voted_peer == request.node_id)

unfoldable pub candidate_votes_service :
    ℕ → CandidateVotesRequest → Exec Node CandidateVotesResponse
unfolding vote_higher vote_in_term
candidate_votes_service now request n =
    if is_dead n.context.node_state
    then (err p2p_dead, n)
    else if ltb n.context.current_term request.term
    then vote_higher now request n
    else if may_vote request n.context
    then vote_in_term now request n
    else (ok (vote_response false n), n)

-- Not implemented: the answer is empty, and the node is not asked.
unfoldable pub recover_entries_service : RecoverEntriesRequest → Exec Node RecoverEntriesResponse
recover_entries_service request n = (
  ok (record {
    term = 0;
    node_id = 0;
    prev_entry_index = 0;
    prev_entry_term = 0;
    recovered = false;
    entry_list = [];
  }),
  n,
)
