-- ===== src/ClientApi/Answers.antt =====
-- The answers that a call of an application rests on.
use raft_based_distributed_l.Node.ClientServer.DLocks.{AcquireResponse, QueryResponse}
use raft_based_distributed_l.Node.CliSrvClient.{
  with_conn, GrpcCliSrvClient, AcquireRequest, RaftRpcOutside,
}
use raft_based_distributed_l.Node.Connection.{
  reconnect, is_available, on_conn, Link, send_grpc, Grpc,
}
use raft_based_distributed_l.Dict
use raft_based_distributed_l.ClientApi.{on_handler, DlockRaftClientApi}
use raft_based_distributed_l.Prelude.{
  ◌⊎◌, ◌≤◌, Option-cases, Bool-cases, ℕ, ◌≡◌, Text, false, inl, inr, refl,
}
use raft_based_distributed_l.Exec.{Result-cases, Result, Exec, ok}

-- Every answer of a call is one of its service.
abbrev pub Answered : {World Conn A : Type 0} → (Conn → Exec World A) → A → Type 0
Answered call r = (c : _) × (w : _) × ((call c w).0 ≡ ok r)

module _ {World Conn : Type 0} (grpc : Grpc World Conn) where
  on_conn-Answered :
      {A : Type 0} (call : Conn → Exec World A) (l : Link World Conn) (r : A)
      → (on_conn grpc call l).0 ≡ ok r
      → Answered call r
  on_conn-Answered call l r e = elim (Option-cases l.conn) [
    | inl q ↦ absurd (let e' = rw (q) at e in cc)
    | inr (c, q) ↦ (c, l.world, rw (q) at e)
  ]

  send_grpc-Answered :
      {A : Type 0} (address : Text) (call : Conn → Exec World A) (l : Link World Conn) (r : A)
      → (send_grpc grpc address call l).0 ≡ ok r
      → Answered call r
  unfolding send_grpc
  send_grpc-Answered address call l r e = elim (Bool-cases (is_available grpc l)) [
    | inl v ↦ on_conn-Answered call l r (rw (v, send_grpc) at e)
    | inr v ↦ elim (Result-cases (reconnect grpc address l).0) [
      | inr (x, q) ↦ absurd (let e' = rw (v, send_grpc, q) at e in cc)
      | inl (u, q) ↦
          on_conn-Answered call (reconnect grpc address l).1 r (rw (v, send_grpc, q) at e)
    ]
  ]

  pub on_handler-Answered :
      {A : Type 0} (address : Text) (call : GrpcCliSrvClient Conn → Conn → Exec World A)
      (a : DlockRaftClientApi World Conn) (r : A)
      → (on_handler address (λ c. with_conn grpc c (send_grpc grpc c.node_address (call c))) a).0
        ≡ ok r
      → (c : GrpcCliSrvClient Conn) × Answered (call c) r
  unfolding on_handler
  on_handler-Answered address call a r e =
      elim (Option-cases (Dict.lookup address a.cli_srv_handler)) [
        | inl q ↦ absurd (let e' = rw (q, on_handler) at e in cc)
        | inr (c, q) ↦ (
          c,
          send_grpc-Answered c.node_address (call c) (record { conn = c.conn; world = a.world }) r
              (rw (q, on_handler) at e),
        )
      ]

pub on_handler-client_id :
    {World Conn A : Type 0} (address : Text)
    (call : GrpcCliSrvClient Conn → World → Result A × GrpcCliSrvClient Conn × World)
    (a : DlockRaftClientApi World Conn)
    → (on_handler address call a).1.client_id ≡ a.client_id
unfolding on_handler
on_handler-client_id address call a = elim (Option-cases (Dict.lookup address a.cli_srv_handler)) [
  | inl q ↦ rw (q, on_handler) refl
  | inr (c, q) ↦ rw (q, on_handler) refl
]

-- An answer to the acquirement of a lock for a client, which is not pending.
pub record IsGranted {World Conn : Type 0} (stubs : RaftRpcOutside World Conn)
    (client_id name : Text) (nonce : ℕ) : Type 0 where
  pub conn : Conn
  pub timeout : ℕ
  pub request : AcquireRequest
  pub world : World
  pub response : AcquireResponse
  pub answer : (stubs.acquire_dlock_service conn timeout request world).0 ≡ ok response
  pub of_client : request.client_id ≡ client_id
  pub of_lock : request.lock_name ≡ name
  pub granted : (response.pending ≡ false) ⊎ (response.sequence ≡ 0)
  pub nonce_is : response.nonce ≡ nonce

-- An answer to a query that is not older than the nonce.
pub record IsSeen {World Conn : Type 0} (stubs : RaftRpcOutside World Conn) (name : Text)
    (nonce : ℕ) : Type 0 where
  pub conn : Conn
  pub timeout : ℕ
  pub world : World
  pub response : QueryResponse
  pub answer : (stubs.query_dlock_service conn timeout name world).0 ≡ ok response
  pub reached : nonce ≤ response.state.lock_nonce
