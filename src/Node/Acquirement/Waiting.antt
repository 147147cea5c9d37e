-- ===== src/Node/Acquirement/Waiting.antt =====
-- Joining, refreshing and leaving the queue.
use raft_based_distributed_l.Storage.Command.{Command, get_as_dlock_info}
use raft_based_distributed_l.Prelude.{
  Text, Option, none, text_eq, some, add32, length-append, refl, [], inl, inr, ◌++◌, Option-cases,
  arith, ◌≡◌, ◌^◌, ◌<◌, if◌then◌else◌, ◌∷◌, length, ◌+◌, List, ℕ,
}
use raft_based_distributed_l.Exec.{Result, ok}
use raft_based_distributed_l.Storage.Codec.{Codec, LockInfo}
use raft_based_distributed_l.Node.Acquirement.{
  new_dlock_acquirement_info, DlockAcquirementInfo, DlockVolatileAcquirement, pending_rounds,
  abandon_expired_acquirement, find_acquirer, insert_unless, insert_new_acquirement,
}
use raft_based_distributed_l.Node.Acquirement.Queue.{
  Holds-append, Queue, Holds, drop_expired, abandon_expired_acquirement-Abandoned,
}

-- The number of an acquirer in a queue whose front has the number `i`.
abbrev pub place : ℕ → Text → List DlockAcquirementInfo → Option ℕ
place i a [] = none
place i a (x ∷ xs) = let rest = place (i + 1) a xs in if text_eq x.acquirer a then some i else rest

find_acquirer-place :
    (f : ℕ → Option DlockAcquirementInfo) (i : ℕ) (a : Text) (xs : List DlockAcquirementInfo)
    → Holds f i xs
    → i + length xs < 2 ^ 32
    → find_acquirer (length xs) i a f ≡ ok (place i a xs)
unfolding find_acquirer
find_acquirer-place f i a [] h lt = refl
find_acquirer-place f i a (x ∷ xs) h lt =
    let next : add32 i 1 ≡ i + 1 = omega arith in
    rw (h.0, find_acquirer, next, find_acquirer-place f (i + 1) a xs h.1 (omega arith))
      (ground arith)

abbrev front : DlockVolatileAcquirement → ℕ
front dva = dva.last_processed_acquirement + 1

-- What joining leaves: the old number of one who waits already, or a new entry at the end.
pub data Joined (assigned : ℕ) (ys : List DlockAcquirementInfo) (new : DlockAcquirementInfo)
    (r : Result ℕ × DlockVolatileAcquirement) : Type 0 where
  waits_already :
      (i : ℕ)
      → place (r.1.last_processed_acquirement + 1) new.acquirer ys ≡ some i
      → r.0 ≡ ok i
      → Queue r.1 ys
      → r.1.last_assigned_acquirement ≡ assigned
      → Joined assigned ys new r
  joins :
      place (r.1.last_processed_acquirement + 1) new.acquirer ys ≡ none
      → r.0 ≡ ok (assigned + 1)
      → Queue r.1 (ys ++ new ∷ [])
      → Joined assigned ys new r

insert_unless-Joined :
    (dva : DlockVolatileAcquirement) (ys : List DlockAcquirementInfo) (new : DlockAcquirementInfo)
    → Queue dva ys
    → dva.last_assigned_acquirement + 2 < 2 ^ 32
    → Joined dva.last_assigned_acquirement ys new
        (insert_unless (place (front dva) new.acquirer ys) new dva)
unfolding insert_unless
insert_unless-Joined dva ys new q small = elim (Option-cases (place (front dva) new.acquirer ys)) [
  | inr (i, found) ↦ rw (found, insert_unless) (waits_already i found refl q refl)
  | inl absent ↦
      let next : add32 dva.last_assigned_acquirement 1 ≡ dva.last_assigned_acquirement + 1 =
        omega arith in
      rw (absent, insert_unless, next)
        (joins absent refl (record {
          held =
              Holds-append _ (front dva) (dva.last_assigned_acquirement + 1) new ys
                (omega (arith, q.count)) q.held;
          count = omega (arith, q.count, length-append ys (new ∷ []));
          small = omega arith;
        }))
]

module _ (codec : Codec) where
  -- For an acquirement record that represents a queue, with fewer than 2^32 - 2 numbers given
  -- out, and a command that decodes: the expired acquirements at the front are dropped; then a
  -- client that waits already keeps its number and nothing else changes, and any other client is
  -- put at the end under the next number.
  pub insert_new_acquirement-Joined :
      (dva : DlockVolatileAcquirement) (xs : List DlockAcquirementInfo) (command : Command)
      (info : LockInfo) (timestamp expire : ℕ)
      → Queue dva xs
      → dva.last_assigned_acquirement + 2 < 2 ^ 32
      → get_as_dlock_info codec command ≡ ok info
      → Joined dva.last_assigned_acquirement
          (drop_expired timestamp xs)
          (new_dlock_acquirement_info info.new_owner timestamp expire command)
          (insert_new_acquirement codec command timestamp expire dva)
  unfolding insert_new_acquirement
  insert_new_acquirement-Joined dva xs command info timestamp expire q small read =
      let a = abandon_expired_acquirement-Abandoned timestamp dva xs q in
      let dva' = (abandon_expired_acquirement timestamp dva).1 in
      let ys = drop_expired timestamp xs in
      let rounds : pending_rounds dva' ≡ length ys = omega (arith, a.queue.count) in
      let first : add32 dva'.last_processed_acquirement 1 ≡ front dva' =
        omega (arith, a.queue.count, a.queue.small) in
      let search =
        find_acquirer-place dva'.pending_acquirement (front dva') info.new_owner ys a.queue.held
          (omega (arith, a.queue.count, a.queue.small)) in
      let joined =
        insert_unless-Joined dva' ys
          (new_dlock_acquirement_info info.new_owner timestamp expire command) a.queue
          (omega (arith, a.assigned)) in
      rw (a.succeeds, read, rounds, first, search) (rw a.assigned at joined)
