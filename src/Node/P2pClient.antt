-- ===== src/Node/P2pClient.antt =====
-- node/p2p_client.go: the client of the services between nodes.
use raft_based_distributed_l.Node.Messages.{
  AppendEntriesRequest, CandidateVotesRequest, RecoverEntriesRequest, AppendEntriesResponse,
  RecoverEntriesResponse, CandidateVotesResponse,
}
use raft_based_distributed_l.Node.Config.{Parameters}
use raft_based_distributed_l.Exec.{Exec}
use raft_based_distributed_l.Node.Connection.{Link, Grpc, send_grpc}
use raft_based_distributed_l.Prelude.{ℕ, Text, none}

-- The generated stubs of the services, each with the timeout of its context in milliseconds.
pub record RaftRpcServer (World Conn : Type 0) : Type 0 where
  pub append_entries_service : Conn → ℕ → AppendEntriesRequest → Exec World AppendEntriesResponse
  pub candidate_votes_service : Conn → ℕ → CandidateVotesRequest → Exec World CandidateVotesResponse
  pub recover_entries_service : Conn → ℕ → RecoverEntriesRequest → Exec World RecoverEntriesResponse

-- Its connection and the world are a link. The node that it belongs to gives the parameters.
pub record GrpcP2pClient : Type 0 where
  pub peer_address : Text
  pub parameters : Parameters

unfoldable pub new_grpc_p2p_client :
    {World Conn : Type 0} → Text → Parameters → World → GrpcP2pClient × Link World Conn
new_grpc_p2p_client address parameters w =
    (record { peer_address = address; parameters = parameters }, record { conn = none; world = w })

module _ {World Conn : Type 0} (grpc : Grpc World Conn) (stubs : RaftRpcServer World Conn)
    (c : GrpcP2pClient) where
  unfoldable pub send_grpc_append_entries :
      AppendEntriesRequest → Exec (Link World Conn) AppendEntriesResponse
  send_grpc_append_entries request =
      send_grpc grpc c.peer_address
        (λ conn. stubs.append_entries_service conn c.parameters.append_entries_timeout request)

  unfoldable pub send_grpc_candidate_votes :
      CandidateVotesRequest → Exec (Link World Conn) CandidateVotesResponse
  send_grpc_candidate_votes request =
      send_grpc grpc c.peer_address
        (λ conn. stubs.candidate_votes_service conn c.parameters.max_wait_time_candidate request)

  unfoldable pub send_grpc_recover_entries :
      RecoverEntriesRequest → Exec (Link World Conn) RecoverEntriesResponse
  send_grpc_recover_entries request =
      send_grpc grpc c.peer_address
        (λ conn. stubs.recover_entries_service conn c.parameters.append_entries_timeout request)
