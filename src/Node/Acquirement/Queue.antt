-- ===== src/Node/Acquirement/Queue.antt =====
-- The pending acquirements refine a first-in-first-out queue.
use raft_based_distributed_l.Storage.LogMemory.{update}
use raft_based_distributed_l.Prelude.{
  Option, some, add32, none, refl, inl, [], inr, ◌^◌, ◌++◌, arith, Bool-cases, if◌then◌else◌,
  length, ◌+◌, ◌∷◌, ◌<◌, List, ◌≡◌, ℕ,
}
use raft_based_distributed_l.Exec.{Result, ok}
use raft_based_distributed_l.Node.Acquirement.{
  DlockAcquirementInfo, DlockVolatileAcquirement, expired, abandon_loop,
  abandon_expired_acquirement, pending_rounds,
}

-- The sequence numbers from `i` on hold `xs`.
abbrev pub Holds : (ℕ → Option DlockAcquirementInfo) → ℕ → List DlockAcquirementInfo → Type 0
Holds f i [] = Unit {0}
Holds f i (x ∷ xs) = (f i ≡ some x) × Holds f (i + 1) xs

-- `dva` represents the queue `xs`.
pub record Queue (dva : DlockVolatileAcquirement) (xs : List DlockAcquirementInfo) : Type 0 where
  pub held : Holds dva.pending_acquirement (dva.last_processed_acquirement + 1) xs
  pub count : dva.last_processed_acquirement + length xs ≡ dva.last_assigned_acquirement
  pub small : dva.last_assigned_acquirement + 1 < 2 ^ 32

-- The queue without the expired acquirements at its front.
abbrev pub drop_expired : ℕ → List DlockAcquirementInfo → List DlockAcquirementInfo
drop_expired timestamp [] = []
drop_expired timestamp (x ∷ xs) =
    let rest = drop_expired timestamp xs in if expired x timestamp then rest else x ∷ xs

pub Holds-update :
    (f : ℕ → Option DlockAcquirementInfo) (i j : ℕ) (v : Option DlockAcquirementInfo)
    (xs : List DlockAcquirementInfo)
    → j < i
    → Holds f i xs
    → Holds (update f j v) i xs
Holds-update f i j v [] lt h = tt
Holds-update f i j v (x ∷ xs) lt h = (ground arith, Holds-update f (i + 1) j v xs (omega arith) h.1)

pub Holds-append :
    (f : ℕ → Option DlockAcquirementInfo) (i j : ℕ) (v : DlockAcquirementInfo)
    (xs : List DlockAcquirementInfo)
    → i + length xs ≡ j
    → Holds f i xs
    → Holds (update f j (some v)) i (xs ++ v ∷ [])
Holds-append f i j v [] e h = (ground arith, tt)
Holds-append f i j v (x ∷ xs) e h = (ground arith, Holds-append f (i + 1) j v xs (omega arith) h.1)

-- What an operation keeps beside the queue.
pub record Kept (dva dva' : DlockVolatileAcquirement) : Type 0 where
  pub nonce : dva'.last_appended_nonce ≡ dva.last_appended_nonce
  pub name : dva'.lock_name ≡ dva.lock_name

pub record Abandoned (timestamp : ℕ) (dva : DlockVolatileAcquirement)
    (xs : List DlockAcquirementInfo) (r : Result (Unit {0}) × DlockVolatileAcquirement)
    : Type 0 where
  pub succeeds : r.0 ≡ ok tt
  pub queue : Queue r.1 (drop_expired timestamp xs)
  pub kept : Kept dva r.1
  pub assigned : r.1.last_assigned_acquirement ≡ dva.last_assigned_acquirement

-- The state after the loop drops the front.
abbrev abandoned : ℕ → DlockVolatileAcquirement → DlockVolatileAcquirement
abandoned i dva = record dva {
  pending_acquirement = update dva.pending_acquirement i none;
  last_processed_acquirement = i;
}

abandoned-Queue :
    (dva : DlockVolatileAcquirement) (x : DlockAcquirementInfo) (xs : List DlockAcquirementInfo)
    (i : ℕ)
    → i ≡ dva.last_processed_acquirement + 1
    → Queue dva (x ∷ xs)
    → Queue (abandoned i dva) xs
abandoned-Queue dva x xs i e q = record {
  held = Holds-update _ (i + 1) i none xs (omega arith) (rw e q.held.1);
  count = omega (arith, q.count);
  small = q.small;
}

abandon_loop-Abandoned :
    (timestamp : ℕ) (dva : DlockVolatileAcquirement) (xs : List DlockAcquirementInfo) (i : ℕ)
    → i ≡ dva.last_processed_acquirement + 1
    → Queue dva xs
    → Abandoned timestamp dva xs (abandon_loop (length xs) i timestamp dva)
unfolding abandon_loop
abandon_loop-Abandoned timestamp dva [] i e q = record {
  succeeds = refl;
  queue = q;
  kept = record { nonce = refl; name = refl };
  assigned = refl;
}
abandon_loop-Abandoned timestamp dva (x ∷ xs) i e q =
    let at : dva.pending_acquirement i ≡ some x = rw e q.held.0 in
    elim (Bool-cases (expired x timestamp)) [
      | inr fresh ↦
          rw (at, abandon_loop, fresh)
            (record {
              succeeds = refl;
              queue = rw fresh q;
              kept = record { nonce = refl; name = refl };
              assigned = refl;
            })
      | inl old ↦
          let ih =
            abandon_loop-Abandoned timestamp (abandoned i dva) xs (add32 i 1)
              (omega (arith, q.small, q.count)) (abandoned-Queue dva x xs i e q) in
          rw (at, abandon_loop, old)
            (record {
              succeeds = ih.succeeds;
              queue = rw old ih.queue;
              kept = record { nonce = ih.kept.nonce; name = ih.kept.name };
              assigned = ih.assigned;
            })
    ]

-- For a record that represents a queue the call succeeds: the expired acquirements at the front
-- are dropped and all the others stay, in their order, and the appended nonce, the name and the
-- last number stay.
pub abandon_expired_acquirement-Abandoned :
    (timestamp : ℕ) (dva : DlockVolatileAcquirement) (xs : List DlockAcquirementInfo)
    → Queue dva xs
    → Abandoned timestamp dva xs (abandon_expired_acquirement timestamp dva)
unfolding abandon_expired_acquirement
abandon_expired_acquirement-Abandoned timestamp dva xs q =
    let rounds : pending_rounds dva ≡ length xs = omega (arith, q.count) in
    rw rounds (
      abandon_loop-Abandoned timestamp dva xs (add32 dva.last_processed_acquirement 1)
        (omega (arith, q.count, q.small)) q)
