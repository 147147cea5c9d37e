-- ===== src/Storage/Codec.antt =====
-- The records that the program encodes, and the encoders: encoding/json for the contents of commands
-- and for lock states, protobuf for log entries (protobuf/entry.proto). The encoders are a parameter;
-- `none` is the error of a call.
use raft_based_distributed_l.Prelude.{ℕ, ◌≡◌, Option, some, Text, Bytes}

-- A nil `Value` is `none`, and differs from an empty one.
pub record KeyValue : Type 0 where
  pub key : Text
  pub value : Option Bytes

pub record LockInfo : Type 0 where
  pub lock_nonce : ℕ
  pub lock_name : Text
  pub new_owner : Text
  pub timestamp : ℕ
  pub expire : ℕ

pub record DlockState : Type 0 where
  pub owner : Text
  pub lock_nonce : ℕ
  pub lock_name : Text
  pub timestamp : ℕ
  pub expire : ℕ

-- protobuf.Entry
pub record Entry : Type 0 where
  pub term : ℕ
  pub index : ℕ
  pub command_name : Text
  pub command_content : Bytes

pub record Codec : Type 0 where
  pub marshal_kv : KeyValue → Option Bytes
  pub unmarshal_kv : Bytes → Option KeyValue
  pub marshal_lock_info : LockInfo → Option Bytes
  pub unmarshal_lock_info : Bytes → Option LockInfo
  pub marshal_dlock_state : DlockState → Option Bytes
  pub unmarshal_dlock_state : Bytes → Option DlockState
  pub marshal_entry : Entry → Option Bytes
  pub unmarshal_entry : Bytes → Option Entry

-- What is documented of the encoders: such records, with their fields exported, are always encoded,
-- and decoding gives back what was encoded.
pub record IsCodec (c : Codec) : Type 0 where
  pub kv : (x : KeyValue) → (b : Bytes) × (c.marshal_kv x ≡ some b) × (c.unmarshal_kv b ≡ some x)
  pub lock_info :
      (x : LockInfo)
      → (b : Bytes) × (c.marshal_lock_info x ≡ some b) × (c.unmarshal_lock_info b ≡ some x)
  pub dlock_state :
      (x : DlockState)
      → (b : Bytes) × (c.marshal_dlock_state x ≡ some b) × (c.unmarshal_dlock_state b ≡ some x)
  pub entry :
      (x : Entry) → (b : Bytes) × (c.marshal_entry x ≡ some b) × (c.unmarshal_entry b ≡ some x)
