-- ===== src/Storage/Command.antt =====
-- storage/command.go and storage/command_impl.go: commands, with their content encoded.
use raft_based_distributed_l.Prelude.{
  refl, text_eq_refl, false, ◌≡◌, ℕ, Option, none, some, ◌++◌, Text, Bytes, text, text_eq,
  if◌then◌else◌,
}
use raft_based_distributed_l.Exec.{Result, ok, err, Exec, codec_failure}
use raft_based_distributed_l.Storage.Codec.{KeyValue, LockInfo, Codec}

pub record Command : Type 0 where
  pub command_name : Text
  pub command_content : Bytes

-- The two implementations of the interface.
pub data CommandOperator : Type 0 where
  command_kv_store : Command → CommandOperator
  command_dlock : Command → CommandOperator

abbrev pub kv_store_keyword : Text
kv_store_keyword = text "KVStore"

abbrev pub dlock_keyword : Text
dlock_keyword = text "DLock"

abbrev pub base : CommandOperator → Command
base (command_kv_store c) = c
base (command_dlock c) = c

unfoldable pub get_command_name : CommandOperator → Text
get_command_name c = (base c).command_name

unfoldable pub get_command_content : CommandOperator → Bytes
get_command_content c = (base c).command_content

abbrev pub or_codec_failure : {A : Type 0} → Option A → Result A
or_codec_failure none = err codec_failure
or_codec_failure (some a) = ok a

module _ (codec : Codec) where
  unfoldable pub new_command_kv_store : Text → Option Bytes → Result Command
  new_command_kv_store key value = elim (codec.marshal_kv (record { key = key; value = value })) [
    | none ↦ err codec_failure
    | some b ↦ ok (record { command_name = kv_store_keyword; command_content = b })
  ]

  -- The method builds a second command, and leaves its receiver as it is.
  unfoldable pub set_as_kv_store : KeyValue → Exec Command (Unit {0})
  set_as_kv_store key_value c = elim (codec.marshal_kv key_value) [
    | none ↦ (err codec_failure, c)
    | some b ↦ (ok tt, c)
  ]

  unfoldable pub get_as_kv_store : Command → Result KeyValue
  get_as_kv_store c = or_codec_failure (codec.unmarshal_kv c.command_content)

  unfoldable pub new_command_dlock : ℕ → Text → Text → ℕ → ℕ → Result Command
  new_command_dlock lock_nonce lock_name new_owner timestamp expire =
      elim (codec.marshal_lock_info lock_info) [
        | none ↦ err codec_failure
        | some b ↦ ok (record { command_name = dlock_keyword; command_content = b })
      ]
    where
      lock_info : LockInfo
      lock_info = record {
        lock_nonce = lock_nonce;
        lock_name = lock_name;
        new_owner = new_owner;
        timestamp = timestamp;
        expire = expire;
      }

  unfoldable pub set_as_dlock_info : LockInfo → Exec Command (Unit {0})
  set_as_dlock_info lock_info c = elim (codec.marshal_lock_info lock_info) [
    | none ↦ (err codec_failure, c)
    | some b ↦ (ok tt, record c { command_content = b })
  ]

  unfoldable pub get_as_dlock_info : Command → Result LockInfo
  get_as_dlock_info c = or_codec_failure (codec.unmarshal_lock_info c.command_content)

  -- "KVStore:Key" or "DLock:LockName"
  unfoldable pub get_fast_index : CommandOperator → Result Text
  get_fast_index (command_kv_store c) = elim (get_as_kv_store c) [
    | err e ↦ err e
    | ok kv_store ↦ ok (text "KVStore:" ++ kv_store.key)
  ]
  get_fast_index (command_dlock c) = elim (get_as_dlock_info c) [
    | err e ↦ err e
    | ok dlock_info ↦ ok (text "DLock:" ++ dlock_info.lock_name)
  ]

-- `none` is the nil interface.
unfoldable pub new_command_from_raw : Text → Bytes → Option CommandOperator
new_command_from_raw name content =
    if text_eq name kv_store_keyword
    then some
        (command_kv_store (record { command_name = kv_store_keyword; command_content = content }))
    else if text_eq name dlock_keyword
    then some (command_dlock (record { command_name = dlock_keyword; command_content = content }))
    else none

keywords_apart : text_eq dlock_keyword kv_store_keyword ≡ false
unfolding text_eq
keywords_apart = refl

pub new_command_from_raw_dlock :
    (name : Text) (content : Bytes)
    → name ≡ dlock_keyword
    → new_command_from_raw name content
      ≡ some (command_dlock (record { command_name = dlock_keyword; command_content = content }))
unfolding new_command_from_raw
new_command_from_raw_dlock name content h = rw (h, text_eq_refl dlock_keyword, keywords_apart)
