-- ===== src/Storage/StateMap/KvStore/Refinement.antt =====
-- The key-value map as a function from keys to values.
use raft_based_distributed_l.Storage.Command.{get_as_kv_store, new_command_from_raw}
use raft_based_distributed_l.Storage.StateMap.Batches.{update_loop_inv}
use raft_based_distributed_l.Storage.LogEntry.{LogEntry}
use raft_based_distributed_l.Storage.StateMap.KvStore.{
  as_command_kv_store, is_tolerated, apply_command, update_state_from_log_entry, put_or_delete,
}
use raft_based_distributed_l.Storage.Codec.{Codec}
use raft_based_distributed_l.Storage.LogMemory.{fetch_log_entry, LogMemory}
use raft_based_distributed_l.Storage.StateMap.{follows, passes, update_loop, StateMap}
use raft_based_distributed_l.Dict
use mathlib.Core.Path.{fun_ext}
use raft_based_distributed_l.Storage.StateMap.KvStore.{update_state_from_log_memory}
use raft_based_distributed_l.Storage.StateMap
use raft_based_distributed_l.Storage.StateMap.KvStore.Stuck.{carried, apply_command-carried}
use raft_based_distributed_l.Exec.{Result, Error, ok, err, Result-cases}
use raft_based_distributed_l.Prelude.{
  ◌≤◌, sym, ltb, add64, not, ◌||◌, ◌==◌, ◌-◌, text_eq→eq, arith, subst, ◌^◌, ◌<◌, ap, Bool-cases,
  ◌∙◌, Option-cases, has_prefix, ◌≡◌, ◌+◌, text_eq, if◌then◌else◌, Bytes, Option, Text, suc, zero,
  [], ◌∷◌, true, inl, inr, List, ℕ, refl, none, some,
}

abbrev pub View : Type 0
View = Text → Option Bytes

abbrev pub view : StateMap → View
view sm key = Dict.lookup key sm.state_map

-- A key gets a value, or none.
abbrev pub set_key : Text → Option Bytes → View → View
set_key key value v j = if text_eq key j then value else v j

-- What the command of an entry does to the map with a keyword: an entry of another map and one that
-- carries no key do nothing.
abbrev pub replay_entry : Codec → Text → LogEntry → View → View
replay_entry codec keyword e v =
    if has_prefix e.fast_index keyword
    then elim (carried codec e) [ err _ ↦ v | ok kv ↦ set_key kv.key kv.value v ]
    else v

abbrev pub replay : Codec → Text → List LogEntry → View → View
replay codec keyword [] v = v
replay codec keyword (e ∷ es) v = replay codec keyword es (replay_entry codec keyword e v)

-- The entries from an index on, as far as the log has them.
abbrev pub cons_found : Result LogEntry → List LogEntry → List LogEntry
cons_found (err _) es = es
cons_found (ok e) es = e ∷ es

unfoldable pub entries_from : LogMemory → ℕ → ℕ → List LogEntry
entries_from lm zero i = []
entries_from lm (suc m) i = cons_found (fetch_log_entry lm i) (entries_from lm m (i + 1))

absent_key :
    (key j : Text) (sm : StateMap) → view sm key ≡ none → view sm j ≡ set_key key none (view sm) j
absent_key key j sm absent = elim (Bool-cases (text_eq key j)) [
  | inr e ↦ rw (e) refl
  | inl e ↦
      let same : key ≡ j = text_eq→eq key j e in rw (e) (subst (λ k. view sm k ≡ none) same absent)
]

put_or_delete-view :
    (e : LogEntry) (key : Text) (value : Option Bytes) (sm : StateMap) (j : Text)
    → view (put_or_delete e key value sm).1 j ≡ set_key key value (view sm) j
unfolding put_or_delete
put_or_delete-view e key (some v) sm j = Dict.lookup-insert key j v sm.state_map
put_or_delete-view e key none sm j = elim (Option-cases (Dict.lookup key sm.state_map)) [
  | inl absent ↦ rw (absent, put_or_delete) (absent_key key j sm absent)
  | inr (v, found) ↦ rw (found, put_or_delete) (Dict.lookup-delete key j sm.state_map)
]

put_or_delete-keyword :
    (e : LogEntry) (key : Text) (value : Option Bytes) (sm : StateMap)
    → (put_or_delete e key value sm).1.keyword ≡ sm.keyword
unfolding put_or_delete
put_or_delete-keyword e key (some v) sm = refl
put_or_delete-keyword e key none sm = elim (Option-cases (Dict.lookup key sm.state_map)) [
  | inl absent ↦ rw (absent, put_or_delete) refl
  | inr (v, found) ↦ rw (found, put_or_delete) refl
]

-- What the update leaves of the map and its keyword.
pub record IsReplayed (codec : Codec) (es : List LogEntry) (sm sm' : StateMap) : Type 0 where
  pub views : view sm' ≡ replay codec sm.keyword es (view sm)
  pub keywords : sm'.keyword ≡ sm.keyword

apply_command-unread :
    (codec : Codec) (e : LogEntry) (sm : StateMap) (x : Error)
    → carried codec e ≡ err x
    → apply_command codec e sm ≡ (err x, sm)
unfolding apply_command
apply_command-unread codec e sm x c =
    elim (Result-cases
      (as_command_kv_store (new_command_from_raw e.entry.command_name e.entry.command_content))) [
        | inr (y, got) ↦
            let same : y ≡ x = (let c' = rw (got) at c in ground arith) in
            rw (got, apply_command, same) refl
        | inl (command, got) ↦
            let read : get_as_kv_store codec command ≡ err x = (let c' = rw (got) at c in c') in
            rw (got, read, apply_command) refl
      ]

apply_command-IsReplayed :
    (codec : Codec) (e : LogEntry) (sm : StateMap)
    → has_prefix e.fast_index sm.keyword ≡ true
    → IsReplayed codec (e ∷ []) sm (apply_command codec e sm).1
apply_command-IsReplayed codec e sm mine = elim (Result-cases (carried codec e)) [
  | inr (x, q) ↦
      rw (apply_command-unread codec e sm x q)
        (record { views = rw (mine, q) refl; keywords = refl })
  | inl (kv, q) ↦ rw (apply_command-carried codec e sm kv q) (record {
    views =
        (let put : view (put_or_delete e kv.key kv.value sm).1 ≡ set_key kv.key kv.value (view sm) =
            fun_ext (put_or_delete-view e kv.key kv.value sm) in
          rw (mine, q) put);
    keywords = put_or_delete-keyword e kv.key kv.value sm;
  })
]

pub update-IsReplayed :
    (codec : Codec) (e : LogEntry) (sm : StateMap)
    → passes is_tolerated (update_state_from_log_entry codec (some e) sm).0 ≡ true
    → IsReplayed codec (e ∷ []) sm (update_state_from_log_entry codec (some e) sm).1
unfolding update_state_from_log_entry
update-IsReplayed codec e sm passed = elim (Bool-cases (follows sm e)) [
  | inr f ↦ absurd (let p = rw (f, update_state_from_log_entry) at passed in cc)
  | inl f ↦ elim (Bool-cases (has_prefix e.fast_index sm.keyword)) [
    | inr mine ↦
        rw (f, mine, update_state_from_log_entry)
          (record { views = rw (mine) refl; keywords = refl })
    | inl mine ↦
        rw (f, mine, update_state_from_log_entry) (apply_command-IsReplayed codec e sm mine)
  ]
]

IsReplayed-then :
    (codec : Codec) (e : LogEntry) (es : List LogEntry) (sm mid sm' : StateMap)
    → IsReplayed codec (e ∷ []) sm mid
    → IsReplayed codec es mid sm'
    → IsReplayed codec (e ∷ es) sm sm'
IsReplayed-then codec e es sm mid sm' h k = record {
  views =
      k.views
      ∙ ap (λ w. replay codec w es (view mid)) h.keywords
      ∙ ap (replay codec sm.keyword es) h.views;
  keywords = k.keywords ∙ h.keywords;
}

entries_from-found :
    (m : ℕ) (lm : LogMemory) (i : ℕ) (x : LogEntry)
    → fetch_log_entry lm i ≡ ok x
    → entries_from lm (suc m) i ≡ x ∷ entries_from lm m (i + 1)
unfolding entries_from
entries_from-found m lm i x found = rw (found, entries_from) refl

update_loop-IsReplayed :
    (codec : Codec) (m : ℕ) (lm : LogMemory) (i : ℕ) (sm sm' : StateMap)
    → i + m < 2 ^ 64
    → update_loop (update_state_from_log_entry codec) is_tolerated m lm i sm ≡ (ok tt, sm')
    → IsReplayed codec (entries_from lm m i) sm sm'
unfolding update_loop entries_from
update_loop-IsReplayed codec zero lm i sm sm' h e =
    subst (IsReplayed codec [] sm) (ap (λ r. r.1) e) (record { views = refl; keywords = refl })
update_loop-IsReplayed codec (suc m) lm i sm sm' h e =
    let update = update_state_from_log_entry codec in
    let (x, found, passed, rest) =
      update_loop_inv update is_tolerated m lm i sm sm' (omega arith) e in
    let mid = (update (some x) sm).1 in
    subst (λ es. IsReplayed codec es sm sm') (sym (entries_from-found m lm i x found))
      (IsReplayed-then codec x (entries_from lm m (i + 1)) sm mid sm'
        (update-IsReplayed codec x sm passed)
        (update_loop-IsReplayed codec m lm (i + 1) mid sm' (omega arith) rest))

-- An update that succeeds goes over a range, and replays it.
pub update_state_from_log_memory-IsReplayed :
    (codec : Codec) (lm : LogMemory) (start last : ℕ) (sm sm' : StateMap)
    → last + 1 < 2 ^ 64
    → update_state_from_log_memory codec lm start last sm ≡ (ok tt, sm')
    → (start ≤ last) × IsReplayed codec (entries_from lm (last + 1 - start) start) sm sm'
unfolding update_state_from_log_memory StateMap.update_state_from_log_memory
update_state_from_log_memory-IsReplayed codec lm start last sm sm' h e =
    elim (Bool-cases (
      start == 0
      || last == 0
      || not (start == add64 sm.prev_index 1)
      || ltb last start
      || ltb lm.maximum_index last)) [
        | inl g ↦ absurd (let e' = rw (g) at e in let r = ap (λ r. r.0) e' in cc)
        | inr g ↦ (
          ground arith,
          update_loop-IsReplayed codec (last + 1 - start) lm start sm sm' (ground arith)
              (rw (g) at e),
        )
      ]

-- The key-value map is a function from keys to values. If an update over a range of the log that
-- ends below 2^64 - 1 succeeds, then it has done to that function what the commands of the
-- entries in the range do one after the other: a put sets its key, a deletion takes its key away,
-- and an entry of another map changes nothing. This holds also if a deletion of an absent key was
-- passed over.
pub update_state_from_log_memory-Refines :
    (codec : Codec) (lm : LogMemory) (start last : ℕ) (sm sm' : StateMap)
    → last + 1 < 2 ^ 64
    → update_state_from_log_memory codec lm start last sm ≡ (ok tt, sm')
    → view sm' ≡ replay codec sm.keyword (entries_from lm (last + 1 - start) start) (view sm)
update_state_from_log_memory-Refines codec lm start last sm sm' h e =
    (update_state_from_log_memory-IsReplayed codec lm start last sm sm' h e).1.views
