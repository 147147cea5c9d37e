-- ===== src/Exec.antt =====
-- Go functions that mutate an object and may fail. What was written before an error stays written,
-- so the state comes back beside the error too.
use raft_based_distributed_l.Prelude.{ap, ◌≡◌, refl, ◌⊎◌, inl, inr}

-- The errors of the packages storage and node, and one for those of the libraries that they call.
pub data Error : Type 0 where
  -- storage/log_memory.go
  log_insert log_store no_specific_term log_entry_not_exist : Error
  -- storage/log_entry.go
  entry_content_decode entry_fast_index : Error
  -- storage/statemap_memory_impl.go
  map_create map_keyword map_index_term map_content kv_fetch dlock_fetch nonce_mismatch : Error
  delete_no_key dlock_info_decode : Error
  -- node/dlock_acquirement.go
  invalid_sequence info_fetching acquirement_expired : Error
  -- node/dlock_interchange.go
  empty_acquirement acquire_unexpected : Error
  -- node/node.go, node/peer.go
  recover_log_memory init_state_map init_peer_list peer_list_empty : Error
  -- node/p2p_server.go, node/clisrv_server.go
  p2p_dead cli_dead : Error
  change_state_internal change_state_timeout delete_empty_key_value get_empty_key_value : Error
  query_state_internal refresh_by_sequence acquire_dlock_internal query_non_existing_dlock : Error
  query_dlock_internal release_dlock_internal release_non_existing_dlock : Error
  -- io.EOF, io.ErrUnexpectedEOF, an error of fmt.Fscanf, an error of a write
  io_eof io_unexpected_eof scan_failure write_failure : Error
  -- node/node_config.go
  node_config_nil_value node_config_id_zero node_config_peer_number : Error
  -- an error of grpc
  grpc_failure : Error
  -- an error of encoding/json or of protobuf
  codec_failure : Error
  -- a run-time panic: a nil dereference or a failed type assertion
  go_panic : Error

pub data Result {ℓ} (A : Type ℓ) : Type ℓ where
  ok : A → Result A
  err : Error → Result A

-- A function that returns only an `error`.
abbrev pub Status : Type 0
Status = Result (Unit {0})

abbrev pub Exec : Type 0 → Type 0 → Type 0
Exec S A = S → Result A × S

module _ {S A : Type 0} where
  abbrev pub pure : A → Exec S A
  pure a s = (ok a, s)

  abbrev pub raise : Error → Exec S A
  raise e s = (err e, s)

  abbrev pub lift : Result A → Exec S A
  lift r s = (r, s)

abbrev pub get : {S : Type 0} → Exec S S
get s = (ok s, s)

abbrev pub put : {S : Type 0} → S → Exec S (Unit {0})
put s _ = (ok tt, s)

module _ {S A B : Type 0} where
  abbrev pub continue : Result A → (A → Exec S B) → Exec S B
  continue (ok a) f s = f a s
  continue (err e) f s = (err e, s)

  infixl 10 ◌>>=◌
  abbrev pub ◌>>=◌ : Exec S A → (A → Exec S B) → Exec S B
  ◌>>=◌ m f s = continue (m s).0 f (m s).1

infixl 10 ◌>>◌
abbrev pub ◌>>◌ : {S B : Type 0} → Exec S (Unit {0}) → Exec S B → Exec S B
m >> n = m >>= λ _. n

-- To split on a result and keep the equation.
pub Result-cases :
    {A : Type 0} (r : Result A) → ((a : A) × (r ≡ ok a)) ⊎ ((e : Error) × (r ≡ err e))
Result-cases (ok a) = inl (a, refl)
Result-cases (err e) = inr (e, refl)

pub ok_injective : {A : Type 0} (a b : A) → ok a ≡ ok b → a ≡ b
ok_injective a b h = ap (λ r. elim r [ ok x ↦ x | err _ ↦ a ]) h
