-- ===== src/Node/Connection.antt =====
-- The connection of a client to a node: node/clisrv_client.go, and node/p2p_client.go, which has the
-- same code. What grpc does is a parameter, and the world that it acts on a part of the state.
use raft_based_distributed_l.Prelude.{if◌then◌else◌, Option, Bool, Text, none, some, true, false}
use raft_based_distributed_l.Exec.{go_panic, Exec, ok, err, ◌>>=◌, ◌>>◌}

-- The states of google.golang.org/grpc/connectivity, of which the clients name the first, the third
-- and the fourth.
pub data ConnectivityState : Type 0 where
  idle connecting ready transient_failure shutdown : ConnectivityState

-- The functions of grpc that the clients call.
pub record Grpc (World Conn : Type 0) : Type 0 where
  pub dial : Text → Exec World Conn
  pub close : Conn → Exec World (Unit {0})
  pub get_state : Conn → World → ConnectivityState

abbrev pub is_ready : ConnectivityState → Bool
is_ready ready = true
is_ready _ = false

abbrev pub is_transient_failure : ConnectivityState → Bool
is_transient_failure transient_failure = true
is_transient_failure _ = false

-- The field `conn` of a client, nil before it connects.
pub record Link (World Conn : Type 0) : Type 0 where
  pub conn : Option Conn
  pub world : World

module _ {World Conn : Type 0} where
  abbrev pub outside : {A : Type 0} → Exec World A → Exec (Link World Conn) A
  outside m l = let (r, w) = m l.world in (r, record l { world = w })

  abbrev pub set_conn : Conn → Exec (Link World Conn) (Unit {0})
  set_conn c l = (ok tt, record l { conn = some c })

  module _ (grpc : Grpc World Conn) where
    unfoldable pub start_connection : Text → Exec (Link World Conn) (Unit {0})
    start_connection address = do conn ← outside (grpc.dial address); set_conn conn

    unfoldable pub get_connection_state : Link World Conn → ConnectivityState
    get_connection_state l = elim l.conn [ none ↦ idle | some c ↦ grpc.get_state c l.world ]

    unfoldable pub is_available : Link World Conn → Bool
    is_available l = elim l.conn [ none ↦ false | some c ↦ is_ready (grpc.get_state c l.world) ]

    unfoldable pub replace_connection : Text → Conn → Exec (Link World Conn) (Unit {0})
    replace_connection address c = do
      outside (grpc.close c)
      conn ← outside (grpc.dial address)
      set_conn conn

    unfoldable pub reconnect : Text → Exec (Link World Conn) (Unit {0})
    unfolding replace_connection start_connection
    reconnect address l = elim l.conn [
      | none ↦ start_connection address l
      | some c ↦
          if is_transient_failure (grpc.get_state c l.world)
          then replace_connection address c l
          else (ok tt, l)
    ]

    -- The stub of a nil connection panics when it is called.
    abbrev pub on_conn : {A : Type 0} → (Conn → Exec World A) → Exec (Link World Conn) A
    on_conn call l = elim l.conn [ none ↦ (err go_panic, l) | some c ↦ outside (call c) l ]

    -- What every SendGrpc function does around its call of a service.
    unfoldable pub send_grpc :
        {A : Type 0} → Text → (Conn → Exec World A) → Exec (Link World Conn) A
    unfolding reconnect
    send_grpc address call l =
        if is_available l then on_conn call l else (reconnect address >> on_conn call) l
