-- ===== src/Tests/JsonLike.antt =====
-- A codec to run the model with: numbers as they are, and one text behind the length of the other.
use raft_based_distributed_l.Storage.Codec.{Entry, IsCodec, KeyValue, Codec, DlockState, LockInfo}
use raft_based_distributed_l.Prelude.{
  refl, Bytes, ◌≡◌, Text, none, some, Option, zero, suc, ◌++◌, length, List, [], ◌∷◌, ℕ,
}

abbrev pub split_at : ℕ → List ℕ → List ℕ × List ℕ
split_at zero xs = ([], xs)
split_at (suc n) [] = ([], [])
split_at (suc n) (x ∷ xs) = let (a, b) = split_at n xs in (x ∷ a, b)

split_at-append : (a b : List ℕ) → split_at (length a) (a ++ b) ≡ (a, b)
split_at-append [] b = refl
split_at-append (x ∷ a) b = rw (split_at-append a b) refl

abbrev pub encode_pair : Text → Text → Bytes
encode_pair a b = length a ∷ a ++ b

abbrev pub decode_pair : Bytes → Text × Text
decode_pair [] = ([], [])
decode_pair (n ∷ xs) = split_at n xs

decode-encode_pair : (a b : Text) → decode_pair (encode_pair a b) ≡ (a, b)
decode-encode_pair a b = split_at-append a b

abbrev pub encode_value : Text → Option Bytes → Bytes
encode_value key none = 0 ∷ key
encode_value key (some v) = 1 ∷ encode_pair key v

abbrev pub encode_kv : KeyValue → Bytes
encode_kv x = encode_value x.key x.value

abbrev pub decode_kv : Bytes → Option KeyValue
decode_kv [] = none
decode_kv (zero ∷ bs) = some (record { key = bs; value = none })
decode_kv (suc n ∷ bs) = let (k, v) = decode_pair bs in some (record { key = k; value = some v })

abbrev pub encode_lock_info : LockInfo → Bytes
encode_lock_info x = x.lock_nonce ∷ x.timestamp ∷ x.expire ∷ encode_pair x.lock_name x.new_owner

abbrev pub decode_lock_info : Bytes → Option LockInfo
decode_lock_info (n ∷ t ∷ e ∷ bs) =
    let (a, b) = decode_pair bs in
    some (record { lock_nonce = n; lock_name = a; new_owner = b; timestamp = t; expire = e })
decode_lock_info _ = none

abbrev pub encode_dlock_state : DlockState → Bytes
encode_dlock_state x = x.lock_nonce ∷ x.timestamp ∷ x.expire ∷ encode_pair x.lock_name x.owner

abbrev pub decode_dlock_state : Bytes → Option DlockState
decode_dlock_state (n ∷ t ∷ e ∷ bs) =
    let (a, b) = decode_pair bs in
    some (record { lock_nonce = n; lock_name = a; owner = b; timestamp = t; expire = e })
decode_dlock_state _ = none

abbrev pub encode_entry : Entry → Bytes
encode_entry x = x.term ∷ x.index ∷ encode_pair x.command_name x.command_content

abbrev pub decode_entry : Bytes → Option Entry
decode_entry (t ∷ i ∷ bs) =
    let (a, b) = decode_pair bs in
    some (record { term = t; index = i; command_name = a; command_content = b })
decode_entry _ = none

abbrev pub json_like : Codec
json_like = record {
  marshal_kv = λ x. some (encode_kv x);
  unmarshal_kv = decode_kv;
  marshal_lock_info = λ x. some (encode_lock_info x);
  unmarshal_lock_info = decode_lock_info;
  marshal_dlock_state = λ x. some (encode_dlock_state x);
  unmarshal_dlock_state = decode_dlock_state;
  marshal_entry = λ x. some (encode_entry x);
  unmarshal_entry = decode_entry;
}

decode-encode_value :
    (key : Text) (o : Option Bytes)
    → decode_kv (encode_value key o) ≡ some (record { key = key; value = o })
decode-encode_value key none = refl
decode-encode_value key (some v) = rw (decode-encode_pair key v) refl

pub json_like-IsCodec : IsCodec json_like
json_like-IsCodec = record {
  kv = λ x. (encode_kv x, refl, decode-encode_value x.key x.value);
  lock_info = λ x. (encode_lock_info x, refl, rw (decode-encode_pair x.lock_name x.new_owner) refl);
  dlock_state = λ x. (encode_dlock_state x, refl, rw (decode-encode_pair x.lock_name x.owner) refl);
  entry =
      λ x. (encode_entry x, refl, rw (decode-encode_pair x.command_name x.command_content) refl);
}
