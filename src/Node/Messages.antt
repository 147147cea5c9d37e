-- ===== src/Node/Messages.antt =====
-- The messages between nodes, which protobuf generates from its files.
use raft_based_distributed_l.Storage.Codec.{Entry}
use raft_based_distributed_l.Prelude.{List, ℕ, Bool}

pub record AppendEntriesRequest : Type 0 where
  pub term : ℕ
  pub node_id : ℕ
  pub prev_entry_index : ℕ
  pub prev_entry_term : ℕ
  pub commit_entry_index : ℕ
  pub entry_list : List Entry

pub record AppendEntriesResponse : Type 0 where
  pub term : ℕ
  pub node_id : ℕ
  pub conflict_entry_index : ℕ
  pub conflict_entry_term : ℕ
  pub commit_entry_index : ℕ
  pub success : Bool

pub record CandidateVotesRequest : Type 0 where
  pub term : ℕ
  pub node_id : ℕ
  pub prev_entry_index : ℕ
  pub prev_entry_term : ℕ

pub record CandidateVotesResponse : Type 0 where
  pub term : ℕ
  pub node_id : ℕ
  pub accepted : Bool

pub record RecoverEntriesRequest : Type 0 where
  pub term : ℕ
  pub node_id : ℕ
  pub prev_entry_index : ℕ
  pub prev_entry_term : ℕ

pub record RecoverEntriesResponse : Type 0 where
  pub term : ℕ
  pub node_id : ℕ
  pub prev_entry_index : ℕ
  pub prev_entry_term : ℕ
  pub recovered : Bool
  pub entry_list : List Entry
