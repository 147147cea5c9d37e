-- ===== src/Node/ClientServer/Reads.antt =====
-- What a client reads behind a put.
use raft_based_distributed_l.Storage.StateMap.Batches.{update_loop_inv}
use raft_based_distributed_l.Storage.StateMap.KvStore.Refinement.{replay, update-IsReplayed, view}
use raft_based_distributed_l.Storage.StateMap.{update_loop, StateMap}
use raft_based_distributed_l.Storage.LogMemory.{fetch_log_entry, LogMemory}
use raft_based_distributed_l.Node.State.{Node}
use raft_based_distributed_l.Storage.LogEntry.{LogEntry}
use raft_based_distributed_l.Storage.Codec.{IsCodec, Codec}
use raft_based_distributed_l.Node.ClientServer.{Put, answers, waits, put_state_kv, get_state_kv}
use raft_based_distributed_l.Node.ClientServer.Puts.{
  IsPutOf, refused, redirected, appended, Putting, put_state_kv-Putting,
}
use raft_based_distributed_l.Storage.StateMap
use raft_based_distributed_l.Storage.StateMap.KvStore
use raft_based_distributed_l.Storage.StateMap.KvStore.{
  as_command_kv_store, update_state_from_log_memory,
}
use raft_based_distributed_l.Prelude.{
  ◌-◌, ltb, add64, not, ◌||◌, ◌==◌, Bool-cases, text_eq_refl, List, [], ◌∷◌, arith, ◌^◌, ◌∙◌, ◌<◌,
  ap, ◌+◌, sym, ℕ, subst, text, ◌≡◌, Bytes, Option, Text, none, some, inl, inr, refl, zero, suc,
}
use raft_based_distributed_l.Exec.{get_empty_key_value, Result, ok_injective, ok, err}

put_waits-IsPutOf :
    (codec : Codec) (cli : List Text) (choice : ℕ) (key : Text) (content : Option Bytes) (n : Node)
    (e : LogEntry) (r : Result Put × Node)
    → Putting codec cli choice key content n r
    → r.0 ≡ ok (waits e)
    → IsPutOf codec key content e
put_waits-IsPutOf codec cli choice key content n e r (refused x why q) h =
    absurd (let z = sym (ap (λ p. p.0) q) ∙ h in cc)
put_waits-IsPutOf codec cli choice key content n e r (redirected address d l at_leader q) h =
    absurd (let z = sym (ap (λ p. p.0) q) ∙ h in cc)
put_waits-IsPutOf codec cli choice key content n e r (appended e' d l there put t i s) h =
    let z : ok (waits e') ≡ ok (waits e) = sym (ap (λ p. p.0) s) ∙ h in
    let same : e' ≡ e =
      ap
        (λ x. elim x as (λ _. LogEntry) [
          | err _ ↦ e
          | ok w ↦ elim w as (λ _. LogEntry) [ answers _ ↦ e | waits f ↦ f ]
        ])
        z in
    subst (IsPutOf codec key content) same put

replay_put :
    (codec : Codec) (key : Text) (content : Option Bytes) (e x : LogEntry) (sm : StateMap)
    → IsPutOf codec key content e
    → x ≡ e
    → sm.keyword ≡ text "KVStore"
    → replay codec sm.keyword (x ∷ []) (view sm) key ≡ content
replay_put codec key content e x sm p same k =
    let mine = p.filed in
    let c = p.carries in
    ap (λ f. replay codec sm.keyword (f ∷ []) (view sm) key) same
    ∙ ap (λ w. replay codec w (e ∷ []) (view sm) key) k
    ∙ rw (mine, c, text_eq_refl key) refl

-- The last entry of a range decides on its key.
update_loop-last :
    (codec : Codec) (key : Text) (content : Option Bytes) (e : LogEntry) (m : ℕ) (lm : LogMemory)
    (i : ℕ) (sm sm' : StateMap)
    → IsPutOf codec key content e
    → sm.keyword ≡ text "KVStore"
    → i + m + 1 < 2 ^ 64
    → fetch_log_entry lm (i + m) ≡ ok e
    → update_loop (KvStore.update_state_from_log_entry codec) KvStore.is_tolerated (suc m) lm i sm
      ≡ (ok tt, sm')
    → view sm' key ≡ content
unfolding update_loop
update_loop-last codec key content e zero lm i sm sm' p k h f u =
    let update = KvStore.update_state_from_log_entry codec in
    let (x, found, passed, rest) =
      update_loop_inv update KvStore.is_tolerated zero lm i sm sm' (omega arith) u in
    let start : i + zero ≡ i = omega arith in
    let here = subst (λ j. fetch_log_entry lm j ≡ ok e) start f in
    let same : x ≡ e = ok_injective x e (sym found ∙ here) in
    let end : (update (some x) sm).1 ≡ sm' = ap (λ r. r.1) rest in
    let replayed = update-IsReplayed codec x sm passed in
    subst (λ s. view s key ≡ content) end
      (ap (λ w. w key) replayed.views ∙ replay_put codec key content e x sm p same k)
update_loop-last codec key content e (suc m) lm i sm sm' p k h f u =
    let update = KvStore.update_state_from_log_entry codec in
    let (x, found, passed, rest) =
      update_loop_inv update KvStore.is_tolerated (suc m) lm i sm sm' (omega arith) u in
    let replayed = update-IsReplayed codec x sm passed in
    let place : i + suc m ≡ i + 1 + m = omega arith in
    update_loop-last codec key content e m lm (i + 1) (update (some x) sm).1 sm' p
      (replayed.keywords ∙ k) (omega arith) (subst (λ j. fetch_log_entry lm j ≡ ok e) place f) rest

-- The answer to a read of a key.
abbrev pub read_of : Option Bytes → Result Bytes
read_of none = err get_empty_key_value
read_of (some v) = ok v

get_state_kv-view :
    (codec : Codec) (key : Text) (content : Option Bytes) (n : Node)
    → view n.state_map_kv_store key ≡ content
    → (get_state_kv codec key n).0 ≡ read_of content
unfolding get_state_kv KvStore.query_specific_state
get_state_kv-view codec key none n h = rw (h, get_state_kv, KvStore.query_specific_state) refl
get_state_kv-view codec key (some v) n h = rw (h, get_state_kv, KvStore.query_specific_state) refl

-- Read your write. If the codec keeps its laws, a leader lets a put or a deletion wait for its
-- entry, some node has that entry in its log at its index, that is below 2^64 - 1, and the update
-- of the key-value map of that node over a range of the log that ends there succeeds, then a read
-- of the key at that node answers the value that was put, or that there is none after a deletion,
-- whatever else stands in the range.
pub get_state_kv-put_state_kv :
    (codec : Codec) (cli : List Text) (choice : ℕ) (key : Text) (content : Option Bytes)
    (n m : Node) (e : LogEntry) (start : ℕ) (sm : StateMap)
    → IsCodec codec
    → (put_state_kv codec cli choice key content n).0 ≡ ok (waits e)
    → fetch_log_entry m.log_entry_in_memory e.entry.index ≡ ok e
    → e.entry.index + 1 < 2 ^ 64
    → m.state_map_kv_store.keyword ≡ text "KVStore"
    → update_state_from_log_memory codec m.log_entry_in_memory start e.entry.index
        m.state_map_kv_store
      ≡ (ok tt, sm)
    → (get_state_kv codec key (record m { state_map_kv_store = sm })).0 ≡ read_of content
unfolding update_state_from_log_memory StateMap.update_state_from_log_memory
get_state_kv-put_state_kv codec cli choice key content n m e start sm laws put f h k u =
    let last = e.entry.index in
    let old = m.state_map_kv_store in
    let lm = m.log_entry_in_memory in
    let p =
      put_waits-IsPutOf codec cli choice key content n e _
        (put_state_kv-Putting codec cli choice key content n laws) put in
    elim (Bool-cases (
      start == 0
      || last == 0
      || not (start == add64 old.prev_index 1)
      || ltb last start
      || ltb lm.maximum_index last)) [
        | inl g ↦ absurd (let u' = rw (g) at u in let r = ap (λ r. r.0) u' in cc)
        | inr g ↦
            let rounds : last + 1 - start ≡ suc (last - start) = ground arith in
            let place : last ≡ start + (last - start) = ground arith in
            get_state_kv-view codec key content (record m { state_map_kv_store = sm })
              (update_loop-last codec key content e (last - start) lm start old sm p k
                (ground arith) (subst (λ j. fetch_log_entry lm j ≡ ok e) place f)
                (subst
                  (λ r.
                    update_loop (KvStore.update_state_from_log_entry codec) KvStore.is_tolerated r
                      lm start old
                    ≡ (ok tt, sm))
                  rounds (rw (g) at u)))
      ]
