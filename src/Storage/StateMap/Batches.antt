-- ===== src/Storage/StateMap/Batches.antt =====
-- The loop of the state maps over a log: applying in two batches, and what a refused entry does.
use native.Mathlib.Nat.{zero-add, add-zero, suc-add}
use raft_based_distributed_l.Prelude.{
  sym, ◌∙◌, ap, inl, inr, ℕ, zero, suc, ◌+◌, ◌^◌, ◌<◌, ◌≡◌, Option, some, Bool, true, false, arith,
  add64, Bool-cases,
}
use raft_based_distributed_l.Exec.{Error, Result, ok, err, Exec, Result-cases}
use raft_based_distributed_l.Storage.LogEntry.{LogEntry}
use raft_based_distributed_l.Storage.LogMemory.{LogMemory, fetch_log_entry}
use raft_based_distributed_l.Storage.StateMap.{StateMap, passes, update_loop}

module _ (update : Option LogEntry → Exec StateMap (Unit {0})) (tolerated : Error → Bool) where
  pub update_loop_passed :
      (m : ℕ) (lm : LogMemory) (i : ℕ) (sm : StateMap) (x : LogEntry)
      → i + 1 < 2 ^ 64
      → fetch_log_entry lm i ≡ ok x
      → passes tolerated (update (some x) sm).0 ≡ true
      → update_loop update tolerated (suc m) lm i sm
        ≡ update_loop update tolerated m lm (i + 1) (update (some x) sm).1
  unfolding update_loop
  update_loop_passed m lm i sm x h found passed =
      let next : add64 i 1 ≡ i + 1 = omega arith in rw (found, update_loop, passed, next)

  pub update_loop_refused :
      (m : ℕ) (lm : LogMemory) (i : ℕ) (sm : StateMap) (x : LogEntry)
      → fetch_log_entry lm i ≡ ok x
      → passes tolerated (update (some x) sm).0 ≡ false
      → update_loop update tolerated (suc m) lm i sm ≡ update (some x) sm
  unfolding update_loop
  update_loop_refused m lm i sm x found refused = rw (found, update_loop, refused)

  pub update_loop_missing :
      (m : ℕ) (lm : LogMemory) (i : ℕ) (sm : StateMap) (x : Error)
      → fetch_log_entry lm i ≡ err x
      → update_loop update tolerated (suc m) lm i sm ≡ (err x, sm)
  unfolding update_loop
  update_loop_missing m lm i sm x missing = rw (missing, update_loop)

  -- A loop that ends without an error finds its first entry, passes it and goes on.
  pub update_loop_inv :
      (m : ℕ) (lm : LogMemory) (i : ℕ) (sm mid : StateMap)
      → i + 1 < 2 ^ 64
      → update_loop update tolerated (suc m) lm i sm ≡ (ok tt, mid)
      → (x : LogEntry) × (fetch_log_entry lm i ≡ ok x)
        × (passes tolerated (update (some x) sm).0 ≡ true)
        × (update_loop update tolerated m lm (i + 1) (update (some x) sm).1 ≡ (ok tt, mid))
  update_loop_inv m lm i sm mid h e = elim (Result-cases (fetch_log_entry lm i)) [
    | inr (x, missing) ↦ absurd (cc (update_loop_missing m lm i sm x missing))
    | inl (x, found) ↦ elim (Bool-cases (passes tolerated (update (some x) sm).0)) [
      | inl passed ↦ (x, found, passed, sym (update_loop_passed m lm i sm x h found passed) ∙ e)
      | inr refused ↦
          let r : update (some x) sm ≡ (ok tt, mid) =
            sym (update_loop_refused m lm i sm x found refused) ∙ e in
          absurd (ground (arith, ap (λ (t : Result (Unit {0}) × StateMap). t.0) r))
    ]
  ]

  -- A loop that ends without an error can be cut in two anywhere.
  pub update_loop_split :
      (m n : ℕ) (lm : LogMemory) (i : ℕ) (sm mid : StateMap)
      → i + m < 2 ^ 64
      → update_loop update tolerated m lm i sm ≡ (ok tt, mid)
      → update_loop update tolerated (m + n) lm i sm ≡ update_loop update tolerated n lm (i + m) mid
  unfolding update_loop
  update_loop_split zero n lm i sm mid h e =
      let same : sm ≡ mid = ap (λ r. r.1) e in rw (zero-add, add-zero, same)
  update_loop_split (suc m) n lm i sm mid h e =
      let (x, found, passed, rest) = update_loop_inv m lm i sm mid (omega arith) e in
      let shift : i + suc m ≡ i + 1 + m = omega arith in
      rw (suc-add, shift)
        (update_loop_passed (m + n) lm i sm x (omega arith) found passed
          ∙ update_loop_split m n lm (i + 1) (update (some x) sm).1 mid (omega arith) rest)

  -- Each entry that is passed over or applied moves the state on by one index.
  abbrev pub Advances : Type 0
  Advances =
      (e : LogEntry) (sm : StateMap)
      → passes tolerated (update (some e) sm).0 ≡ true
      → (add64 sm.prev_index 1 ≡ e.entry.index)
        × ((update (some e) sm).1.prev_index ≡ e.entry.index)

  pub prev_index-update_loop :
      (m : ℕ) (lm : LogMemory) (i : ℕ) (sm mid : StateMap)
      → Advances
      → i + suc m < 2 ^ 64
      → add64 sm.prev_index 1 ≡ i
      → update_loop update tolerated (suc m) lm i sm ≡ (ok tt, mid)
      → mid.prev_index ≡ i + m
  unfolding update_loop
  prev_index-update_loop zero lm i sm mid adv h next e =
      let (x, found, passed, rest) = update_loop_inv zero lm i sm mid (omega arith) e in
      let same : (update (some x) sm).1 ≡ mid = ap (λ r. r.1) rest in
      omega (arith, adv x sm passed, ap (λ (t : StateMap). t.prev_index) same)
  prev_index-update_loop (suc m) lm i sm mid adv h next e =
      let (x, found, passed, rest) = update_loop_inv (suc m) lm i sm mid (omega arith) e in
      let moved = adv x sm passed in
      omega (
        arith,
        prev_index-update_loop m lm (i + 1) (update (some x) sm).1 mid adv (omega arith)
            (omega (arith, moved)) rest,
      )
