-- ===== src/ClientApi.antt =====
-- dlock_api/dlock_raft_client_API.go: what an application calls. The nodes that it talks to, grpc and
-- the clock are parameters; their state is the world.
pub mod Rounds
pub mod Locks
pub mod Hops
pub mod Redirects
pub mod Answers
pub mod Starts
pub mod Confirmed
use raft_based_distributed_l.Node.ClientServer.{ChangeResponse}
use raft_based_distributed_l.Node.Connection.{Grpc}
use raft_based_distributed_l.Node.CliSrvClient.{
  send_grpc_get_state, set_timeout, send_grpc_put_state, send_grpc_del_state,
  new_grpc_cli_srv_client, GrpcCliSrvClient, RaftRpcOutside,
}
use raft_based_distributed_l.Dict
use Prim.Native.Nat.{◌/◌}
use raft_based_distributed_l.Prelude.{
  sub32, text_eq, ◌*◌, ◌-◌, ◌==◌, not, length, ltb, Bytes, if◌then◌else◌, List, Bool, Option, Text,
  ℕ, none, some, true, false, [], ◌∷◌, suc, zero,
}
use raft_based_distributed_l.Exec.{go_panic, Exec, Result, ok, err}

pub record DlockRaftClientApi (World Conn : Type 0) : Type 0 where
  pub cli_srv_handler : Dict.Dict (GrpcCliSrvClient Conn)
  pub client_id : Text
  pub world : World

-- utils.GenKsuid gives `random_id`.
unfoldable pub chosen_client_id : Text → List Text → Text
chosen_client_id random_id [] = random_id
chosen_client_id random_id (preset ∷ _) = if length preset == 27 then random_id else preset

unfoldable pub new_dlock_raft_client_api :
    {World Conn : Type 0} → Text → List Text → World → DlockRaftClientApi World Conn
new_dlock_raft_client_api random_id presets w = record {
  cli_srv_handler = [];
  client_id = chosen_client_id random_id presets;
  world = w;
}

-- The optional timeout of every call, in milliseconds.
abbrev pub timeout_of : Option ℕ → ℕ
timeout_of none = 2500
timeout_of (some timeout) = timeout

-- A call returns, or goes on at the leader with the rest of its timeout.
pub data Hop (A : Type 0) : Type 0 where
  returns : A → Hop A
  redirects : Text → ℕ → Hop A

-- What a call does with the address of a leader, `elapsed` nanoseconds after its start.
unfoldable pub hop_to_leader : {A : Type 0} → A → ℕ → ℕ → Text → Hop A
hop_to_leader failure timeout elapsed leader =
    if ltb elapsed (timeout * 1000000)
    then redirects leader (sub32 timeout (elapsed / 1000000))
    else returns failure

unfoldable pub change_hop : ℕ → ℕ → Result ChangeResponse → Hop Bool
unfolding hop_to_leader
change_hop timeout elapsed (err _) = returns false
change_hop timeout elapsed (ok response) =
    if response.committed
    then returns true
    else if not (text_eq response.current_leader [])
    then hop_to_leader false timeout elapsed response.current_leader
    else returns false

unfoldable pub prepared_client :
    {Conn : Type 0} → Text → ℕ → Option (GrpcCliSrvClient Conn) → GrpcCliSrvClient Conn
prepared_client address timeout none = new_grpc_cli_srv_client address timeout
prepared_client address timeout (some c) = set_timeout timeout c

module _ {World Conn : Type 0} where
  unfoldable pub preprocess_connections :
      Text → ℕ → DlockRaftClientApi World Conn → DlockRaftClientApi World Conn
  preprocess_connections address timeout a =
      let c = prepared_client address timeout (Dict.lookup address a.cli_srv_handler) in
      record a { cli_srv_handler = Dict.insert address c a.cli_srv_handler }

  -- drc.CliSrvHandler[address], which the call may reconnect.
  unfoldable pub on_handler :
      {A : Type 0}
      → Text
      → (GrpcCliSrvClient Conn → World → Result A × GrpcCliSrvClient Conn × World)
      → Exec (DlockRaftClientApi World Conn) A
  on_handler address call a = elim (Dict.lookup address a.cli_srv_handler) [
    | none ↦ (err go_panic, a)
    | some c ↦
        let (r, c', w) = call c a.world in
        (r, record a { cli_srv_handler = Dict.insert address c' a.cli_srv_handler; world = w })
  ]

  -- A function that calls itself at the leader; none when the fuel is used up.
  unfoldable pub redirecting :
      {A : Type 0}
      → (Text → ℕ → DlockRaftClientApi World Conn → Hop A × DlockRaftClientApi World Conn)
      → ℕ
      → Text
      → ℕ
      → DlockRaftClientApi World Conn
      → Option A × DlockRaftClientApi World Conn
  redirecting call zero address timeout a = (none, a)
  redirecting call (suc fuel) address timeout a =
      let (hop, a') = call address timeout a in
      elim hop [
        | returns x ↦ (some x, a')
        | redirects leader left ↦ redirecting call fuel leader left a'
      ]

  module _ (grpc : Grpc World Conn) (stubs : RaftRpcOutside World Conn) (now : World → ℕ) where
    unfoldable pub put_state_hop :
        Text
        → Option Bytes
        → Text
        → ℕ
        → DlockRaftClientApi World Conn
        → Hop Bool × DlockRaftClientApi World Conn
    unfolding change_hop
    put_state_hop key value address timeout a =
        let (response, a') =
          on_handler address (λ c. send_grpc_put_state grpc stubs c key value)
            (preprocess_connections address timeout a) in
        (change_hop timeout (now a'.world - now a.world) response, a')

    unfoldable pub put_state :
        ℕ
        → Text
        → Text
        → Option Bytes
        → Option ℕ
        → DlockRaftClientApi World Conn
        → Option Bool × DlockRaftClientApi World Conn
    put_state fuel address key value timeout_optional =
        redirecting (put_state_hop key value) fuel address (timeout_of timeout_optional)

    unfoldable pub del_state_hop :
        Text → Text → ℕ → DlockRaftClientApi World Conn → Hop Bool × DlockRaftClientApi World Conn
    unfolding change_hop
    del_state_hop key address timeout a =
        let (response, a') =
          on_handler address (λ c. send_grpc_del_state grpc stubs c key)
            (preprocess_connections address timeout a) in
        (change_hop timeout (now a'.world - now a.world) response, a')

    unfoldable pub del_state :
        ℕ
        → Text
        → Text
        → Option ℕ
        → DlockRaftClientApi World Conn
        → Option Bool × DlockRaftClientApi World Conn
    del_state fuel address key timeout_optional =
        redirecting (del_state_hop key) fuel address (timeout_of timeout_optional)

    -- Nil if the call fails.
    unfoldable pub get_state :
        Text
        → Text
        → Option ℕ
        → DlockRaftClientApi World Conn
        → Option Bytes × DlockRaftClientApi World Conn
    get_state address key timeout_optional a =
        let (response, a') =
          on_handler address (λ c. send_grpc_get_state grpc stubs c key)
            (preprocess_connections address (timeout_of timeout_optional) a) in
        (elim response [ err _ ↦ none | ok r ↦ if r.success then r.value else none ], a')
