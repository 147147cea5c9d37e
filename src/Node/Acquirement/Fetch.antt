-- ===== src/Node/Acquirement/Fetch.antt =====
-- Taking the first of the queue.
use raft_based_distributed_l.Storage.Command.{set_as_dlock_info, Command, get_as_dlock_info}
use raft_based_distributed_l.Storage.LogMemory.{update}
use raft_based_distributed_l.Prelude.{
  Bool, add32, Option, none, some, refl, ◌∙◌, arith, if◌then◌else◌, ne→==-false, ==_iff, ◌+◌, false,
  true, ◌==◌, [], ◌∷◌, ◌≡◌, List, ℕ,
}
use raft_based_distributed_l.Exec.{Result, ok}
use raft_based_distributed_l.Storage.Codec.{Codec, IsCodec, LockInfo}
use raft_based_distributed_l.Node.Acquirement.{
  DlockAcquirementInfo, DlockVolatileAcquirement, abandon_expired_acquirement, fetch_first,
  fetch_first_valid_acquirement, refreshed_command,
}
use raft_based_distributed_l.Node.Acquirement.Queue.{
  Holds-update, Queue, drop_expired, abandon_expired_acquirement-Abandoned,
}

abbrev pub stamped : LockInfo → ℕ → ℕ → LockInfo
stamped info timestamp nonce = record info { timestamp = timestamp; lock_nonce = add32 nonce 1 }

-- What a fetch leaves: with the pop tag the queue without its first entry, else the queue with the
-- command of its first entry rewritten.
abbrev pub rest_of :
    Bool → DlockAcquirementInfo → Command → List DlockAcquirementInfo → List DlockAcquirementInfo
rest_of true y command ys = ys
rest_of false y command ys = record y { command = command } ∷ ys

module _ (codec : Codec) where
  pub record Fetched (pop_tag : Bool) (timestamp : ℕ) (dva : DlockVolatileAcquirement)
      (y : DlockAcquirementInfo) (ys : List DlockAcquirementInfo) (info : LockInfo)
      (r : Result (Option Command) × DlockVolatileAcquirement) : Type 0 where
    pub command : Command
    pub answer : r.0 ≡ ok (some command)
    pub content :
        get_as_dlock_info codec command ≡ ok (stamped info timestamp dva.last_appended_nonce)
    pub queue : Queue r.1 (rest_of pop_tag y command ys)
    pub nonce : r.1.last_appended_nonce ≡ dva.last_appended_nonce

  module _ (laws : IsCodec codec) where
    refreshed_command-ok :
        (dva : DlockVolatileAcquirement) (timestamp : ℕ) (c : Command) (info : LockInfo)
        → get_as_dlock_info codec c ≡ ok info
        → (c' : Command) × (refreshed_command codec dva timestamp c ≡ ok c')
          × (get_as_dlock_info codec c' ≡ ok (stamped info timestamp dva.last_appended_nonce))
    unfolding refreshed_command set_as_dlock_info
    refreshed_command-ok dva timestamp c info read =
        let (b, done, back) = laws.lock_info (stamped info timestamp dva.last_appended_nonce) in
        (record c { command_content = b }, ground arith, unfold get_as_dlock_info in rw back)

    fetch_first-Fetched :
        (pop_tag : Bool) (timestamp : ℕ) (dva : DlockVolatileAcquirement) (y : DlockAcquirementInfo)
        (ys : List DlockAcquirementInfo) (info : LockInfo)
        → Queue dva (y ∷ ys)
        → get_as_dlock_info codec y.command ≡ ok info
        → Fetched pop_tag timestamp dva y ys info (fetch_first codec pop_tag timestamp dva)
    unfolding fetch_first
    fetch_first-Fetched pop_tag timestamp dva y ys info q read =
        let (c, done, content) = refreshed_command-ok dva timestamp y.command info read in
        let first : add32 dva.last_processed_acquirement 1 ≡ dva.last_processed_acquirement + 1 =
          omega (arith, q.count, q.small) in
        let at : dva.pending_acquirement (add32 dva.last_processed_acquirement 1) ≡ some y =
          rw first q.held.0 in
        rw (at, fetch_first, done)
          (record {
            command = c;
            answer = refl;
            content = content;
            queue = left pop_tag c _ first;
            nonce = refl;
          })
      where
        left :
            (pop : Bool) (c : Command) (i : ℕ)
            → i ≡ dva.last_processed_acquirement + 1
            → Queue
                (record dva {
                  pending_acquirement =
                      update dva.pending_acquirement i (some (record y { command = c }));
                  last_processed_acquirement = if pop then i else dva.last_processed_acquirement;
                })
                (rest_of pop y c ys)
        left true c i e = record {
          held = Holds-update _ (i + 1) i _ ys (omega arith) (rw e q.held.1);
          count = omega (arith, q.count);
          small = q.small;
        }
        left false c i e = record {
          held = (
            ground arith,
            Holds-update _ (dva.last_processed_acquirement + 1 + 1) i _ ys (omega arith) q.held.1,
          );
          count = q.count;
          small = q.small;
        }

    -- If the codec keeps its laws, the record represents a queue that has an acquirement left
    -- after the expired ones at the front are dropped, and the command of that one decodes, then
    -- the fetch answers with its command, with the given timestamp and the nonce after the last
    -- appended one written into it; with the pop tag it leaves the queue, and otherwise it stays
    -- with the rewritten command. The appended nonce stays.
    pub fetch_first_valid_acquirement-Fetched :
        (pop_tag : Bool) (timestamp : ℕ) (dva : DlockVolatileAcquirement)
        (xs : List DlockAcquirementInfo) (y : DlockAcquirementInfo) (ys : List DlockAcquirementInfo)
        (info : LockInfo)
        → Queue dva xs
        → drop_expired timestamp xs ≡ y ∷ ys
        → get_as_dlock_info codec y.command ≡ ok info
        → Fetched pop_tag timestamp dva y ys info
            (fetch_first_valid_acquirement codec pop_tag timestamp dva)
    unfolding fetch_first_valid_acquirement
    fetch_first_valid_acquirement-Fetched pop_tag timestamp dva xs y ys info q e read =
        let a = abandon_expired_acquirement-Abandoned timestamp dva xs q in
        let dva' = (abandon_expired_acquirement timestamp dva).1 in
        let q' : Queue dva' (y ∷ ys) = rw e at a.queue in
        let waits : (dva'.last_assigned_acquirement == dva'.last_processed_acquirement) ≡ false =
          ne→==-false _ _ (omega (arith, q'.count)) in
        let f = fetch_first-Fetched pop_tag timestamp dva' y ys info q' read in
        rw (a.succeeds, waits)
          (record {
            command = f.command;
            answer = f.answer;
            content = rw a.kept.nonce at f.content;
            queue = f.queue;
            nonce = f.nonce ∙ a.kept.nonce;
          })

  -- If all have expired, the answer is that nobody waits.
  pub fetch_first_valid_acquirement-empty :
      (pop_tag : Bool) (timestamp : ℕ) (dva : DlockVolatileAcquirement)
      (xs : List DlockAcquirementInfo)
      → Queue dva xs
      → drop_expired timestamp xs ≡ []
      → ((fetch_first_valid_acquirement codec pop_tag timestamp dva).0 ≡ ok none)
        × Queue (fetch_first_valid_acquirement codec pop_tag timestamp dva).1 []
  unfolding fetch_first_valid_acquirement
  fetch_first_valid_acquirement-empty pop_tag timestamp dva xs q e =
      let a = abandon_expired_acquirement-Abandoned timestamp dva xs q in
      let dva' = (abandon_expired_acquirement timestamp dva).1 in
      let q' : Queue dva' [] = rw e at a.queue in
      let idle : (dva'.last_assigned_acquirement == dva'.last_processed_acquirement) ≡ true =
        (==_iff _ _).1 (omega (arith, q'.count)) in
      rw (a.succeeds, idle) (refl, q')
