-- ===== src/Tests/Apis.antt =====
-- A network of two nodes: calls to the first redirect to the second, which leads. The world is a
-- clock, and a connection the address of its node.
use raft_based_distributed_l.ClientApi.Rounds.{queried, acquire_hop, acquire_started}
use raft_based_distributed_l.ClientApi.Hops.{ms}
use raft_based_distributed_l.ClientApi.Confirmed.{acquire_dlock-Confirmed}
use raft_based_distributed_l.ClientApi.Answers.{IsSeen, IsGranted}
use raft_based_distributed_l.Node.ClientServer.{ChangeResponse}
use raft_based_distributed_l.Tests.Samples.{lock}
use raft_based_distributed_l.Storage.Codec.{DlockState}
use raft_based_distributed_l.Node.CliSrvClient.{
  set_timeout, send_grpc_query_dlock, new_grpc_cli_srv_client, send_grpc_acquire_dlock,
  RaftRpcOutside,
}
use raft_based_distributed_l.Node.Config.{set_defaults, ConfigFile, Parameters}
use raft_based_distributed_l.ClientApi.Redirects.{calls_return, Returns, IsDriven}
use raft_based_distributed_l.ClientApi.Locks.{
  release_call, release_dlock, waiting_if, acquire_call, waiting, acquire_tick, confirm_tick,
  acquire_dlock,
}
use raft_based_distributed_l.ClientApi.Rounds.{timer, query_tick, query_ticker}
use raft_based_distributed_l.Dict
use raft_based_distributed_l.ClientApi.{
  del_state_hop, put_state_hop, redirecting, on_handler, preprocess_connections, prepared_client,
  hop_to_leader, DlockRaftClientApi, put_state, del_state,
}
use raft_based_distributed_l.Exec.{Exec, ok}
use raft_based_distributed_l.Prelude.{
  ◌⊎◌, ◌*◌, not, text_eq, ◌++◌, if◌then◌else◌, ◌+◌, ◌≡◌, text, arith, ℕ, Text, [], ◌∷◌, true, false,
  some, refl,
}
use raft_based_distributed_l.Node.Connection.{
  start_connection, is_available, send_grpc, Grpc, reconnect, ready,
}

abbrev first_node : Text
first_node = text "a"

abbrev leading_node : Text
leading_node = text "b"

abbrev network : Grpc ℕ Text
network = record {
  dial = λ address w. (ok address, w);
  close = λ c w. (ok tt, w);
  get_state = λ c w. ready;
}

-- Each call takes 20 ms.
abbrev later : {A : Type 0} → A → Exec ℕ A
later r w = (ok r, w + 20 * ms)

abbrev leader_of : Text → Text
leader_of c = if text_eq c first_node then leading_node else []

abbrev changed : Text → ChangeResponse
changed c = record { committed = not (text_eq c first_node); current_leader = leader_of c }

abbrev state_3 : DlockState
state_3 = record { owner = text "me"; lock_nonce = 3; lock_name = lock; timestamp = 0; expire = 9 }

abbrev services : RaftRpcOutside ℕ Text
services = record {
  put_state_kv_service = λ c t key value. later (changed c);
  del_state_kv_service = λ c t key. later (changed c);
  get_state_kv_service = λ c t key. later (record { success = true; value = some [] });
  acquire_dlock_service = λ c t request.
      later (record { pending = false; sequence = 0; current_leader = leader_of c; nonce = 3 });
  query_dlock_service = λ c t name. later (record { state = state_3; pending_num = some 0 });
  release_dlock_service =
      λ c t name id. later (record { released = true; current_leader = leader_of c; nonce = 3 });
}

abbrev clock : ℕ → ℕ
clock w = w

abbrev new_api : DlockRaftClientApi ℕ Text
new_api = record { cli_srv_handler = []; client_id = text "me"; world = 0 }

calls_return_example :
    (Returns
        (put_state network services clock 101 first_node (text "k") (some []) (some 100) new_api)
      ⊎ IsDriven clock
          (put_state_hop network services clock (text "k") (some []))
          101
          first_node
          100
          new_api)
    × (Returns (del_state network services clock 101 first_node (text "k") (some 100) new_api)
        ⊎ IsDriven clock
            (del_state_hop network services clock (text "k"))
            101
            first_node
            100
            new_api)
    × (Returns (
          acquire_dlock network services clock 101
            ((query_tick query_ticker ∷ []) ++ query_tick timer ∷ [])
            first_node
            lock
            5
            (some 100)
            new_api)
        ⊎ IsDriven clock (acquire_call network services clock lock 5) 101 first_node 100 new_api)
    × (Returns (
          release_dlock network services clock 101
            ((query_ticker ∷ []) ++ timer ∷ [])
            first_node
            lock
            (some 100)
            new_api)
        ⊎ IsDriven clock (release_call network services clock lock) 101 first_node 100 new_api)
calls_return_example =
    calls_return network services clock 101 first_node (text "k") lock (some []) 5 100
      (query_tick query_ticker ∷ []) (query_ticker ∷ []) new_api (omega arith)

lock_acquired :
    (acquire_dlock network services clock 3
      (query_tick query_ticker ∷ [])
      first_node
      lock
      5
      (some 100)
      new_api).0
    ≡ some true
unfolding acquire_dlock waiting_if redirecting acquire_call on_handler Dict.lookup
    preprocess_connections Dict.insert text_eq send_grpc_acquire_dlock send_grpc is_available
    prepared_client new_grpc_cli_srv_client waiting acquire_tick confirm_tick acquire_started
    acquire_hop queried hop_to_leader send_grpc_query_dlock reconnect start_connection set_timeout
lock_acquired = refl

acquire_dlock-Confirmed_example :
    (nonce : ℕ) × IsGranted services (text "me") lock nonce × IsSeen services lock nonce
acquire_dlock-Confirmed_example =
    acquire_dlock-Confirmed network services clock 3 (query_tick query_ticker ∷ []) first_node lock
      5 (some 100) new_api lock_acquired

-- A file that leaves all parameters out.
abbrev no_parameters : Parameters
no_parameters = record {
  heart_beat_interval = 0;
  append_entries_timeout = 0;
  min_wait_time_candidate = 0;
  max_wait_time_candidate = 0;
  max_log_units_recover = 0;
  log_backup_interval = 0;
  polling_interval = 0;
  state_change_timeout = 0;
  acquirement_expire = 0;
}

abbrev file_of_1 : ConfigFile
file_of_1 = record {
  self_id = 1;
  peer_id = some (2 ∷ 3 ∷ []);
  self_address = text "a";
  self_cli_address = text "b";
  peer_address = some (text "c" ∷ text "d" ∷ []);
  peer_cli_address = some (text "e" ∷ text "f" ∷ []);
  parameters = no_parameters;
  log_path = text "g";
  log_level = text "Debug";
  entry_storage_path = text "h";
}

abbrev config_of_1 : ConfigFile
config_of_1 = record file_of_1 { parameters = set_defaults no_parameters }
