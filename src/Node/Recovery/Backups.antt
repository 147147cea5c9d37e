-- ===== src/Node/Recovery/Backups.antt =====
-- What the backups of the log keep, and what a new node takes from them.
use raft_based_distributed_l.Storage.LogMemory.Files.{store_log_memory}
use raft_based_distributed_l.Storage.LogMemory.Files.RoundTrip.{
  reload_log_memory-Stretch, IsReloaded, store_log_memory-loop,
}
use raft_based_distributed_l.Storage.LogMemory.{LogMemory, fetch_log_entry}
use raft_based_distributed_l.Storage.LogEntry.Frames.{IsFramed, IsWriter}
use raft_based_distributed_l.Storage.LogEntry.{LogEntry}
use raft_based_distributed_l.Node.Recovery.{recovered_node, new_node, backup_procedure}
use raft_based_distributed_l.Storage.Codec.{Codec}
use raft_based_distributed_l.Node.State.{NodeConfig, with_context, Node}
use raft_based_distributed_l.Prelude.{
  ap, length-append, sym, subst, ◌++◌, refl, ◌∙◌, ◌-◌, arith, ◌+◌, add64, Bool-cases, ◌<◌, ◌≤◌, ◌≡◌,
  length, ℕ, ltb, List, if◌then◌else◌, Bytes, some, true, inl, inr,
}
use raft_based_distributed_l.Exec.{Exec, ok}
use raft_based_distributed_l.Storage.LogMemory.Contents.{IsContiguous}
use Prim.Native.Nat.{◌^◌}
use raft_based_distributed_l.Storage.LogMemory.Files.Stretch.{
  append-Stretch, stretch, Stretch, store_loop-Stretch,
}

-- The file holds the frames of the entries 1 to the last backup index, in order.
pub record IsBackedUp (codec : Codec) (n : Node) (content : Bytes) : Type 0 where
  pub entries : List LogEntry
  pub total : ℕ
  pub stored : Stretch codec n.log_entry_in_memory 1 entries content total
  pub size : length entries ≡ n.context.last_backup_index

-- The node with what is committed backed up.
abbrev pub all_backed_up : Node → Node
all_backed_up n =
    with_context
      (λ nc. record nc {
        last_backup_index =
            if ltb nc.last_backup_index nc.commit_index
            then nc.commit_index
            else nc.last_backup_index;
      })
      n

backup_procedure-stored :
    {W : Type 0} (codec : Codec) (write : Bytes → Exec W ℕ) (n : Node) (w w' : W) (m : ℕ)
    → ltb n.context.last_backup_index n.context.commit_index ≡ true
    → store_log_memory codec write
        (add64 n.context.last_backup_index 1)
        n.context.commit_index
        n.log_entry_in_memory
        w
      ≡ (ok m, w')
    → backup_procedure codec write n (some w) ≡ (all_backed_up n, some w')
unfolding backup_procedure
backup_procedure-stored codec write n w w' m c h =
    rw (h, backup_procedure, c)
      (ap
        (λ p. (with_context (λ nc. record nc { last_backup_index = nc.commit_index }) n, some p.1))
        h)

IsBackedUp-more :
    (codec : Codec) (n : Node) (content : Bytes) (es : List LogEntry) (bytes : Bytes) (total : ℕ)
    → ltb n.context.last_backup_index n.context.commit_index ≡ true
    → IsBackedUp codec n content
    → Stretch codec n.log_entry_in_memory (n.context.last_backup_index + 1) es bytes total
    → length es ≡ n.context.commit_index + 1 - (n.context.last_backup_index + 1)
    → IsBackedUp codec (all_backed_up n) (content ++ bytes)
IsBackedUp-more codec n content es bytes total c b st size =
    let at_end : n.context.last_backup_index + 1 ≡ 1 + length b.entries =
      let z = b.size in omega arith in
    let st' = subst (λ i. Stretch codec n.log_entry_in_memory i es bytes total) at_end st in
    record {
      entries = b.entries ++ es;
      total = b.total + total;
      stored =
          append-Stretch codec n.log_entry_in_memory 1 b.entries es content bytes b.total total
            b.stored st';
      size = let z = b.size in let k = length-append b.entries es in ground arith;
    }

-- If the log has no gap, its entries can be framed as the round trip asks, the commit index is at
-- most the last index, that is below 2^64, the writer appends, and the file holds the frames of
-- the entries from 1 to the last backup index, then the backup procedure moves the last backup
-- index up to the commit index if that is higher, changes nothing else of the node, and leaves a
-- file that holds the frames of the entries from 1 to the new last backup index.
pub backup_procedure-IsBackedUp :
    {W : Type 0} (codec : Codec) (write : Bytes → Exec W ℕ) (writer : IsWriter write) (n : Node)
    (w : W)
    → IsContiguous n.log_entry_in_memory
    → ((j : ℕ) (le : LogEntry)
        → fetch_log_entry n.log_entry_in_memory j ≡ ok le
        → IsFramed codec le)
    → n.context.commit_index ≤ n.log_entry_in_memory.maximum_index
    → n.log_entry_in_memory.maximum_index < 2 ^ 64
    → IsBackedUp codec n (writer.content w)
    → (w' : W) × (backup_procedure codec write n (some w) ≡ (all_backed_up n, some w'))
      × IsBackedUp codec (all_backed_up n) (writer.content w')
unfolding backup_procedure
backup_procedure-IsBackedUp codec write writer n w v framed le small b =
    let lm = n.log_entry_in_memory in
    let last = n.context.last_backup_index in
    let commit = n.context.commit_index in
    elim (Bool-cases (ltb last commit)) [
      | inr c ↦ rw (c, backup_procedure) (w, refl, b)
      | inl c ↦
          let next : add64 last 1 ≡ last + 1 = ground arith in
          let (es, bytes, total, st, size) =
            stretch codec lm (commit + 1 - (last + 1)) (last + 1) v framed (omega arith)
              (ground arith) in
          let (w', stored, grown) =
            store_loop-Stretch codec lm write writer (last + 1) es bytes total 0 w st in
          let looped =
            store_log_memory-loop codec write (last + 1) commit lm w (omega arith) (ground arith)
              le in
          let rounds = rw (size) at stored in
          let all : store_log_memory codec write (add64 last 1) commit lm w ≡ (ok (0 + total), w') =
            subst (λ i. store_log_memory codec write i commit lm w ≡ (ok (0 + total), w'))
              (sym next) (looped ∙ rounds) in
          let held = IsBackedUp-more codec n (writer.content w) es bytes total c b st size in
          (
            w',
            backup_procedure-stored codec write n w w' (0 + total) c all,
            subst (IsBackedUp codec (all_backed_up n)) (sym grown) held,
          )
    ]

pub new_node-IsReloaded :
    (codec : Codec) (config : NodeConfig) (addresses now : ℕ) (n : Node) (content : Bytes)
    → IsContiguous n.log_entry_in_memory
    → IsBackedUp codec n content
    → (lm : LogMemory) × IsReloaded n.log_entry_in_memory 1 n.context.last_backup_index lm
      × (new_node codec config addresses now content
          ≡ some (recovered_node codec config addresses now lm))
unfolding new_node
new_node-IsReloaded codec config addresses now n content v b =
    let last = n.context.last_backup_index in
    let size : length b.entries ≡ last + 1 - 1 = let z = b.size in omega arith in
    let (lm, reloaded, held) =
      reload_log_memory-Stretch codec n.log_entry_in_memory 1 last b.entries content b.total v.valid
        (omega arith) (omega arith) b.stored size (λ z. omega arith) in
    (lm, held, rw (reloaded, new_node) refl)
