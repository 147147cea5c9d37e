-- ===== src/ClientApi/Locks.antt =====
-- The calls for locks of dlock_api/dlock_raft_client_API.go. What wakes a loop that waits is a list
-- of ticks; at its end the loop still waits.
use raft_based_distributed_l.ClientApi.Rounds.{
  Round, QueryTick, release_hop, Waiting, queried, AcquireTick, acquire_hop, DlockQueryInfo,
  refreshed_waiting, ends, goes_on, query_ticker, timer, query_tick, refresh_ticker,
}
use raft_based_distributed_l.ClientApi.{
  timeout_of, preprocess_connections, redirecting, on_handler, DlockRaftClientApi, Hop,
}
use raft_based_distributed_l.Node.CliSrvClient.{
  send_grpc_acquire_dlock, send_grpc_query_dlock, send_grpc_release_dlock, RaftRpcOutside,
  AcquireRequest,
}
use raft_based_distributed_l.Node.Connection.{Grpc}
use raft_based_distributed_l.Prelude.{
  ◌-◌, ◌^◌, ltb_i64, ◌%◌, if◌then◌else◌, ◌*◌, Option, Text, List, ℕ, Bool, none, some, false, [],
  ◌∷◌,
}
use raft_based_distributed_l.Exec.{ok, err}

module _ {World Conn T : Type 0} where
  -- A loop over ticks; none when it still waits.
  unfoldable pub waiting :
      (T → Waiting → DlockRaftClientApi World Conn → Round × DlockRaftClientApi World Conn)
      → List T
      → Waiting
      → DlockRaftClientApi World Conn
      → Option Bool × DlockRaftClientApi World Conn
  waiting tick [] w a = (none, a)
  waiting tick (t ∷ ts) w a =
      let (round, a') = tick t w a in
      elim round [ ends b ↦ (some b, a') | goes_on w' ↦ waiting tick ts w' a' ]

  -- A loop behind the first answer.
  unfoldable pub waiting_if :
      (T → Waiting → DlockRaftClientApi World Conn → Round × DlockRaftClientApi World Conn)
      → List T
      → Option (Option Waiting) × DlockRaftClientApi World Conn
      → Option Bool × DlockRaftClientApi World Conn
  waiting_if tick ts (none, a) = (none, a)
  waiting_if tick ts (some none, a) = (some false, a)
  waiting_if tick ts (some (some w), a) = waiting tick ts w a

module _ {World Conn : Type 0} (grpc : Grpc World Conn) (stubs : RaftRpcOutside World Conn)
    (now : World → ℕ) where
  unfoldable pub acquire_call :
      Text
      → ℕ
      → Text
      → ℕ
      → DlockRaftClientApi World Conn
      → Hop (Option Waiting) × DlockRaftClientApi World Conn
  unfolding acquire_hop
  acquire_call name expire address timeout a =
      let request : AcquireRequest = record {
        lock_name = name;
        client_id = a.client_id;
        expire = expire * 1000000 % 2 ^ 64;
        sequence = 0;
      } in
      let (response, a') =
        on_handler address (λ c. send_grpc_acquire_dlock grpc stubs c request)
          (preprocess_connections address timeout a) in
      (acquire_hop address name expire timeout (now a'.world - now a.world) response, a')

  -- The ticks of the loops that query.
  unfoldable pub confirm_tick :
      QueryTick → Waiting → DlockRaftClientApi World Conn → Round × DlockRaftClientApi World Conn
  unfolding queried
  confirm_tick timer w a = (ends false, a)
  confirm_tick query_ticker w a =
      let (response, a') =
        on_handler w.address (λ c. send_grpc_query_dlock grpc stubs c w.lock_name) a in
      if w.start_query_tag then (queried w response, a') else (goes_on w, a)

  unfoldable pub acquire_tick :
      AcquireTick → Waiting → DlockRaftClientApi World Conn → Round × DlockRaftClientApi World Conn
  unfolding refreshed_waiting
  acquire_tick (query_tick t) w a = confirm_tick t w a
  acquire_tick refresh_ticker w a =
      let request : AcquireRequest = record {
        lock_name = w.lock_name;
        client_id = a.client_id;
        expire = w.expire * 1000000 % 2 ^ 64;
        sequence = w.sequence;
      } in
      let (response, a') =
        on_handler w.address (λ c. send_grpc_acquire_dlock grpc stubs c request) a in
      if w.start_query_tag then (goes_on w, a) else (refreshed_waiting w response, a')

  -- A negative expire is refused.
  unfoldable pub acquire_dlock :
      ℕ
      → List AcquireTick
      → Text
      → Text
      → ℕ
      → Option ℕ
      → DlockRaftClientApi World Conn
      → Option Bool × DlockRaftClientApi World Conn
  acquire_dlock fuel ticks address name expire timeout_optional a =
      if ltb_i64 expire 0
      then (some false, a)
      else waiting_if acquire_tick ticks
          (redirecting (acquire_call name expire) fuel address (timeout_of timeout_optional) a)

  unfoldable pub query_dlock :
      Text
      → Text
      → Option ℕ
      → DlockRaftClientApi World Conn
      → Option DlockQueryInfo × DlockRaftClientApi World Conn
  query_dlock address name timeout_optional a =
      let (response, a') =
        on_handler address (λ c. send_grpc_query_dlock grpc stubs c name)
          (preprocess_connections address (timeout_of timeout_optional) a) in
      (
        elim response [
          | err _ ↦ none
          | ok r ↦ some (record {
            owner = r.state.owner;
            nonce = r.state.lock_nonce;
            timestamp = r.state.timestamp;
            expire = r.state.expire;
            pending_num = r.pending_num;
          })
        ],
        a',
      )

  unfoldable pub release_call :
      Text
      → Text
      → ℕ
      → DlockRaftClientApi World Conn
      → Hop (Option Waiting) × DlockRaftClientApi World Conn
  unfolding release_hop
  release_call name address timeout a =
      let (response, a') =
        on_handler address (λ c. send_grpc_release_dlock grpc stubs c name a.client_id)
          (preprocess_connections address timeout a) in
      (release_hop address name timeout (now a'.world - now a.world) response, a')

  unfoldable pub release_dlock :
      ℕ
      → List QueryTick
      → Text
      → Text
      → Option ℕ
      → DlockRaftClientApi World Conn
      → Option Bool × DlockRaftClientApi World Conn
  release_dlock fuel ticks address name timeout_optional a =
      waiting_if confirm_tick ticks
        (redirecting (release_call name) fuel address (timeout_of timeout_optional) a)
