-- ===== src/Node/CliSrvClient.antt =====
-- node/clisrv_client.go: the client of the services for clients.
use raft_based_distributed_l.Node.ClientServer.{ChangeResponse}
use raft_based_distributed_l.Node.ClientServer.DLocks.{
  AcquireResponse, QueryResponse, ReleaseResponse,
}
use raft_based_distributed_l.Node.Connection.{Link, Grpc, send_grpc}
use raft_based_distributed_l.Prelude.{Bytes, Option, Bool, ℕ, Text, none}
use raft_based_distributed_l.Exec.{Result, Exec}

pub record GetResponse : Type 0 where
  pub success : Bool
  pub value : Option Bytes

pub record AcquireRequest : Type 0 where
  pub lock_name : Text
  pub client_id : Text
  pub expire : ℕ
  pub sequence : ℕ

-- The generated stubs of the services, each with the timeout of its context in milliseconds.
pub record RaftRpcOutside (World Conn : Type 0) : Type 0 where
  pub put_state_kv_service : Conn → ℕ → Text → Option Bytes → Exec World ChangeResponse
  pub del_state_kv_service : Conn → ℕ → Text → Exec World ChangeResponse
  pub get_state_kv_service : Conn → ℕ → Text → Exec World GetResponse
  pub acquire_dlock_service : Conn → ℕ → AcquireRequest → Exec World AcquireResponse
  pub query_dlock_service : Conn → ℕ → Text → Exec World QueryResponse
  pub release_dlock_service : Conn → ℕ → Text → Text → Exec World ReleaseResponse

pub record GrpcCliSrvClient (Conn : Type 0) : Type 0 where
  pub node_address : Text
  pub conn : Option Conn
  pub timeout : ℕ

unfoldable pub new_grpc_cli_srv_client : {Conn : Type 0} → Text → ℕ → GrpcCliSrvClient Conn
new_grpc_cli_srv_client address timeout = record {
  node_address = address;
  conn = none;
  timeout = timeout;
}

unfoldable pub set_timeout : {Conn : Type 0} → ℕ → GrpcCliSrvClient Conn → GrpcCliSrvClient Conn
set_timeout timeout c = record c { timeout = timeout }

module _ {World Conn : Type 0} (grpc : Grpc World Conn) where
  -- With the connection of the client.
  abbrev pub with_conn :
      {A : Type 0}
      → GrpcCliSrvClient Conn
      → Exec (Link World Conn) A
      → World
      → Result A × GrpcCliSrvClient Conn × World
  with_conn c m w =
      let (r, l) = m (record { conn = c.conn; world = w }) in
      (r, record c { conn = l.conn }, l.world)

  module _ (stubs : RaftRpcOutside World Conn) (c : GrpcCliSrvClient Conn) where
    unfoldable pub send_grpc_put_state :
        Text → Option Bytes → World → Result ChangeResponse × GrpcCliSrvClient Conn × World
    send_grpc_put_state key content = with_conn c (
        send_grpc grpc c.node_address
          (λ conn. stubs.put_state_kv_service conn c.timeout key content))

    unfoldable pub send_grpc_del_state :
        Text → World → Result ChangeResponse × GrpcCliSrvClient Conn × World
    send_grpc_del_state key =
        with_conn c
          (send_grpc grpc c.node_address (λ conn. stubs.del_state_kv_service conn c.timeout key))

    unfoldable pub send_grpc_get_state :
        Text → World → Result GetResponse × GrpcCliSrvClient Conn × World
    send_grpc_get_state key =
        with_conn c
          (send_grpc grpc c.node_address (λ conn. stubs.get_state_kv_service conn c.timeout key))

    unfoldable pub send_grpc_acquire_dlock :
        AcquireRequest → World → Result AcquireResponse × GrpcCliSrvClient Conn × World
    send_grpc_acquire_dlock request =
        with_conn c (
          send_grpc grpc c.node_address
            (λ conn. stubs.acquire_dlock_service conn c.timeout request))

    unfoldable pub send_grpc_query_dlock :
        Text → World → Result QueryResponse × GrpcCliSrvClient Conn × World
    send_grpc_query_dlock name =
        with_conn c
          (send_grpc grpc c.node_address (λ conn. stubs.query_dlock_service conn c.timeout name))

    unfoldable pub send_grpc_release_dlock :
        Text → Text → World → Result ReleaseResponse × GrpcCliSrvClient Conn × World
    send_grpc_release_dlock name client_id = with_conn c (
        send_grpc grpc c.node_address
          (λ conn. stubs.release_dlock_service conn c.timeout name client_id))
