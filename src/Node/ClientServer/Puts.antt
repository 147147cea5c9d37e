-- ===== src/Node/ClientServer/Puts.antt =====
-- What a client is told first when it asks for a put or a deletion.
use raft_based_distributed_l.Util.Places.{IsPlace, index_in_uint32_list-cases, IsPlace-unique}
use raft_based_distributed_l.Storage.StateMap.KvStore
use raft_based_distributed_l.Storage.StateMap.KvStore.Refinement.{view}
use raft_based_distributed_l.Storage.StateMap.KvStore.Stuck.{carried}
use raft_based_distributed_l.Node.Context.{trigger_ae_channel}
use raft_based_distributed_l.Storage.Command.{
  get_command_content, get_command_name, new_command_from_raw, get_as_kv_store, get_fast_index,
  new_command_kv_store,
}
use raft_based_distributed_l.Storage.LogEntry.{new_log_entry, new_log_entry_fields, LogEntry}
use raft_based_distributed_l.Storage.LogMemory.{insert_log_entry}
use raft_based_distributed_l.Storage.Codec.{KeyValue, IsCodec, Codec}
use raft_based_distributed_l.Node.State.{with_context, Node}
use raft_based_distributed_l.Node.P2pServer.{is_dead}
use raft_based_distributed_l.Node.Replication.{is_leader}
use raft_based_distributed_l.Util.{random_object_in_string_list}
use raft_based_distributed_l.Node.ClientServer.{
  waits, answers, command_kv_store, leader_address, Put, append_put, put_as_leader, put_state_kv,
  put_entry,
}
use raft_based_distributed_l.Storage.StateMap.KvStore.{as_command_kv_store}
use raft_based_distributed_l.Prelude.{
  ◌∙◌, get_elem?, text_eq, has_prefix, text, subst, none, some, add64, Bytes, Option, ℕ, Text, sym,
  refl, ◌==◌, arith, Bool-cases, Option-cases, ◌≡◌, ◌≢◌, ◌⊎◌, List, [], true, false, inl, inr,
}
use raft_based_distributed_l.Exec.{
  delete_empty_key_value, go_panic, err, Error, cli_dead, Result, ok_injective, Result-cases, ok,
}

-- An entry of a put, filed for the key-value map.
pub record IsPutOf (codec : Codec) (key : Text) (content : Option Bytes) (e : LogEntry)
    : Type 0 where
  pub carries : carried codec e ≡ ok (record { key = key; value = content })
  pub filed : has_prefix e.fast_index (text "KVStore") ≡ true

-- The addresses that a node may redirect to.
pub data IsLeaderAddress (cli : List Text) (choice : ℕ) (n : Node) : Text → Type 0 where
  of_any_node :
      (address : Text)
      → n.context.hop_to_current_leader_id ≡ 0
      → get_elem? cli choice ≡ some address
      → IsLeaderAddress cli choice n address
  of_no_node :
      n.context.hop_to_current_leader_id ≡ 0
      → get_elem? cli choice ≡ none
      → IsLeaderAddress cli choice n []
  of_leader :
      (i : ℕ) (address : Text)
      → n.context.hop_to_current_leader_id ≢ 0
      → IsPlace n.config.peer_id n.context.hop_to_current_leader_id i
      → get_elem? cli i ≡ some address
      → IsLeaderAddress cli choice n address

-- Why a put or a deletion is refused, and with which error.
pub data Refusal (cli : List Text) (key : Text) (content : Option Bytes) (n : Node)
    : Error → Type 0 where
  by_dead_node : is_dead n.context.node_state ≡ true → Refusal cli key content n cli_dead
  by_absent_key :
      is_leader n.context.node_state ≡ true
      → content ≡ none
      → view n.state_map_kv_store key ≡ none
      → Refusal cli key content n delete_empty_key_value
  by_unknown_leader :
      is_leader n.context.node_state ≡ false
      → n.context.hop_to_current_leader_id ≢ 0
      → ((i : ℕ)
          → IsPlace n.config.peer_id n.context.hop_to_current_leader_id i
          → get_elem? cli i ≡ none)
      → Refusal cli key content n go_panic

-- The answers to a put, or to a deletion, and what each leaves.
pub data Putting (codec : Codec) (cli : List Text) (choice : ℕ) (key : Text)
    (content : Option Bytes) (n : Node) (r : Result Put × Node) : Type 0 where
  refused :
      (x : Error)
      → Refusal cli key content n x
      → r ≡ (err x, n)
      → Putting codec cli choice key content n r
  redirected :
      (address : Text)
      → is_dead n.context.node_state ≡ false
      → is_leader n.context.node_state ≡ false
      → IsLeaderAddress cli choice n address
      → r ≡ (ok (answers (record { committed = false; current_leader = address })), n)
      → Putting codec cli choice key content n r
  appended :
      (e : LogEntry)
      → is_dead n.context.node_state ≡ false
      → is_leader n.context.node_state ≡ true
      → (content ≢ none) ⊎ (view n.state_map_kv_store key ≢ none)
      → IsPutOf codec key content e
      → e.entry.term ≡ n.context.current_term
      → e.entry.index ≡ add64 n.log_entry_in_memory.maximum_index 1
      → r ≡ (
        ok (waits e),
        with_context trigger_ae_channel (record n {
          log_entry_in_memory = (insert_log_entry (some e) n.log_entry_in_memory).1;
        }),
      )
      → Putting codec cli choice key content n r

put_entry-IsPutOf :
    (codec : Codec) (key : Text) (content : Option Bytes) (n : Node) (e : LogEntry)
    → IsCodec codec
    → put_entry codec key content n ≡ ok e
    → IsPutOf codec key content e
unfolding put_entry new_command_kv_store new_log_entry get_fast_index get_as_kv_store
    new_command_from_raw as_command_kv_store get_command_name get_command_content has_prefix text_eq
put_entry-IsPutOf codec key content n e laws h =
    let kv : KeyValue = record { key = key; value = content } in
    let (b, m, u) = laws.kv kv in
    let made = ok_injective _ e (
      rw (m, put_entry, new_command_kv_store, new_log_entry, get_fast_index, get_as_kv_store, u) at
        h) in
    subst (IsPutOf codec key content) made (record { carries = rw (u) refl; filed = refl })

put_entry_fields :
    (codec : Codec) (key : Text) (content : Option Bytes) (n : Node) (e : LogEntry)
    → put_entry codec key content n ≡ ok e
    → (e.entry.term ≡ n.context.current_term)
      × (e.entry.index ≡ add64 n.log_entry_in_memory.maximum_index 1)
unfolding put_entry
put_entry_fields codec key content n e h =
    elim (Result-cases (new_command_kv_store codec key content)) [
      | inr (x, q) ↦ let h' = rw (q, put_entry) at h in cc
      | inl (command, q) ↦
          new_log_entry_fields codec n.context.current_term
            (add64 n.log_entry_in_memory.maximum_index 1) (command_kv_store command) e
            (rw (q, put_entry) at h)
    ]

redirect-Putting :
    (codec : Codec) (cli : List Text) (choice : ℕ) (key : Text) (content : Option Bytes) (n : Node)
    → is_dead n.context.node_state ≡ false
    → is_leader n.context.node_state ≡ false
    → Putting codec cli choice key content n (put_state_kv codec cli choice key content n)
unfolding put_state_kv leader_address random_object_in_string_list
redirect-Putting codec cli choice key content n d l =
    let hop = n.context.hop_to_current_leader_id in
    elim (Bool-cases (hop == 0)) [
      | inl z ↦ elim (Option-cases (get_elem? cli choice)) [
        | inl g ↦
            rw (d, l, z, g, put_state_kv, leader_address, random_object_in_string_list)
              (redirected [] d l (of_no_node (ground arith) g) refl)
        | inr (address, g) ↦
            rw (d, l, z, g, put_state_kv, leader_address, random_object_in_string_list)
              (redirected address d l (of_any_node address (ground arith) g) refl)
      ]
      | inr z ↦
          let nonzero : hop ≢ 0 = λ e. ground arith in
          elim (index_in_uint32_list-cases n.config.peer_id hop) [
            | inl (q, absent) ↦
                rw (d, l, z, q, put_state_kv, leader_address)
                  (refused go_panic (by_unknown_leader l nonzero (λ i p. absurd (absent i p.there)))
                    refl)
            | inr (i, q, place) ↦ elim (Option-cases (get_elem? cli i)) [
              | inl g ↦
                  rw (d, l, z, q, g, put_state_kv, leader_address)
                    (refused go_panic
                      (by_unknown_leader l nonzero (λ j p.
                        subst (λ k. get_elem? cli k ≡ none)
                          (IsPlace-unique n.config.peer_id hop i j place p) g))
                      refl)
              | inr (address, g) ↦
                  rw (d, l, z, q, g, put_state_kv, leader_address)
                    (redirected address d l (of_leader i address nonzero place g) refl)
            ]
          ]
    ]

put_entry-made :
    (codec : Codec) (key : Text) (content : Option Bytes) (n : Node)
    → IsCodec codec
    → (e : LogEntry) × (put_entry codec key content n ≡ ok e)
unfolding put_entry new_command_kv_store new_log_entry get_fast_index get_as_kv_store
    new_command_from_raw as_command_kv_store get_command_name get_command_content text_eq
put_entry-made codec key content n laws =
    let (b, m, u) = laws.kv (record { key = key; value = content }) in
    elim (Result-cases (put_entry codec key content n)) [
      | inl (e, q) ↦ (e, q)
      | inr (x, q) ↦ absurd (
          let q' =
            rw
              (
                m, put_entry, new_command_kv_store, new_log_entry, get_fast_index, get_as_kv_store,
                u,
              )
              at q in
          cc)
    ]

append_put-Putting :
    (codec : Codec) (cli : List Text) (choice : ℕ) (key : Text) (content : Option Bytes) (n : Node)
    → IsCodec codec
    → is_dead n.context.node_state ≡ false
    → is_leader n.context.node_state ≡ true
    → (content ≢ none) ⊎ (view n.state_map_kv_store key ≢ none)
    → Putting codec cli choice key content n (append_put codec key content n)
unfolding append_put
append_put-Putting codec cli choice key content n laws d l there =
    let (e, q) = put_entry-made codec key content n laws in
    let (t, i) = put_entry_fields codec key content n e q in
    let put = put_entry-IsPutOf codec key content n e laws q in
    rw (q, append_put) (appended e d l there put t i refl)

put_as_leader-Putting :
    (codec : Codec) (cli : List Text) (choice : ℕ) (key : Text) (content : Option Bytes) (n : Node)
    → IsCodec codec
    → is_dead n.context.node_state ≡ false
    → is_leader n.context.node_state ≡ true
    → Putting codec cli choice key content n (put_as_leader codec key content n)
unfolding put_as_leader KvStore.query_specific_state
put_as_leader-Putting codec cli choice key (some content) n laws d l =
    append_put-Putting codec cli choice key (some content) n laws d l (inl (λ z. cc))
put_as_leader-Putting codec cli choice key none n laws d l =
    elim (Option-cases (view n.state_map_kv_store key)) [
      | inl q ↦
          rw (q, put_as_leader, KvStore.query_specific_state)
            (refused delete_empty_key_value (by_absent_key l refl q) refl)
      | inr (v, q) ↦
          rw (q, put_as_leader, KvStore.query_specific_state)
            (append_put-Putting codec cli choice key none n laws d l
              (inr (λ z. let both = sym q ∙ z in cc)))
    ]

-- Every first answer to a put or a deletion, if the codec keeps its laws. It is refused, and
-- nothing changes, in these cases only: the node is dead; it leads and the key of a deletion has
-- no value; or it does not lead and the last place of the leader that it knows in the list of
-- peers has no address. It is redirected, and nothing changes, if the node does not lead: to the
-- address at the last place of the leader that it knows, or to the chosen one of all addresses if
-- it knows no leader. Otherwise the node leads, and the key of a deletion has a value: then an
-- entry that carries the key and the content, filed for the key-value map, is inserted in the log
-- in the current term at the next index, the peers are signalled, and the client waits for that
-- entry.
pub put_state_kv-Putting :
    (codec : Codec) (cli : List Text) (choice : ℕ) (key : Text) (content : Option Bytes) (n : Node)
    → IsCodec codec
    → Putting codec cli choice key content n (put_state_kv codec cli choice key content n)
unfolding put_state_kv
put_state_kv-Putting codec cli choice key content n laws =
    elim (Bool-cases (is_dead n.context.node_state)) [
      | inl d ↦ rw (d, put_state_kv) (refused cli_dead (by_dead_node d) refl)
      | inr d ↦ elim (Bool-cases (is_leader n.context.node_state)) [
        | inl l ↦
            rw (d, l, put_state_kv) (put_as_leader-Putting codec cli choice key content n laws d l)
        | inr l ↦ redirect-Putting codec cli choice key content n d l
      ]
    ]
