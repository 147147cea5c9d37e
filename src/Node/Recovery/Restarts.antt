-- ===== src/Node/Recovery/Restarts.antt =====
-- A node that is made from a backup can go on with it.
use raft_based_distributed_l.Node.Recovery.Backups.{new_node-IsReloaded, IsBackedUp}
use raft_based_distributed_l.Storage.LogEntry.{LogEntry}
use raft_based_distributed_l.Node.Context.{NodeContext}
use raft_based_distributed_l.Node.State.{Node, NodeConfig}
use raft_based_distributed_l.Storage.LogMemory.{fetch_log_entry, LogMemory}
use raft_based_distributed_l.Storage.Codec.{Codec}
use raft_based_distributed_l.Node.Recovery.{
  new_peer_node_list_from_config, new_node, recovered_maps, recovered_node, recovered_context,
}
use raft_based_distributed_l.Prelude.{
  arith, length, ◌∙◌, sym, ◌+◌, ◌<◌, ap, ◌≤◌, ◌==◌, Bool-cases, Bytes, ◌≡◌, List, ℕ, none, some,
  inl, inr,
}
use raft_based_distributed_l.Exec.{Result, Result-cases, ok, err}
use raft_based_distributed_l.Storage.LogMemory.Contents.{IsContiguous}
use raft_based_distributed_l.Storage.LogMemory.Files.Stretch.{Stretch, no_entry, an_entry}

-- A stretch stands in every log with the same entries there.
move-Stretch :
    (codec : Codec) (lm lm' : LogMemory) (i : ℕ) (es : List LogEntry) (b : Bytes) (t : ℕ)
    → Stretch codec lm i es b t
    → ((j : ℕ) → i ≤ j → j < i + length es → fetch_log_entry lm' j ≡ fetch_log_entry lm j)
    → Stretch codec lm' i es b t
move-Stretch codec lm lm' i _ _ _ (no_entry _) h = no_entry i
move-Stretch codec lm lm' i _ _ _ (an_entry _ le es b t f q r) h =
    an_entry i le es b t f (h i (omega arith) (omega arith) ∙ q)
      (move-Stretch codec lm lm' (i + 1) es b t r (λ j low high. h j (omega arith) (omega arith)))

recovered_context_backup :
    (now : ℕ) (lm : LogMemory) (nc : NodeContext)
    → recovered_context now lm ≡ ok nc
    → nc.last_backup_index ≡ lm.maximum_index
unfolding recovered_context
recovered_context_backup now lm nc h = elim (Bool-cases (lm.maximum_index == 0)) [
  | inl z ↦
      let h' = rw (z, recovered_context) at h in
      let e = ap (λ r. elim r as (λ _. ℕ) [ ok c ↦ c.last_backup_index | err _ ↦ 0 ]) h' in sym e
  | inr z ↦ elim (Result-cases (fetch_log_entry lm lm.maximum_index)) [
    | inr (x, q) ↦ let h' = rw (z, q, recovered_context) at h in cc
    | inl (le, q) ↦
        let h' = rw (z, q, recovered_context) at h in
        let e = ap (λ r. elim r as (λ _. ℕ) [ ok c ↦ c.last_backup_index | err _ ↦ 0 ]) h' in sym e
  ]
]

recovered_node_fields :
    (codec : Codec) (config : NodeConfig) (addresses now : ℕ) (lm : LogMemory) (m : Node)
    → recovered_node codec config addresses now lm ≡ ok m
    → (m.log_entry_in_memory ≡ lm) × (m.context.last_backup_index ≡ lm.maximum_index)
unfolding recovered_node
recovered_node_fields codec config addresses now lm m h =
    elim (Result-cases (recovered_context now lm)) [
      | inr (x, q) ↦ let h' = rw (q, recovered_node) at h in cc
      | inl (nc, q) ↦ elim (Result-cases (recovered_maps codec lm)) [
        | inr (x, r) ↦ let h' = rw (q, r, recovered_node) at h in cc
        | inl (maps, r) ↦ elim (Result-cases (new_peer_node_list_from_config config addresses)) [
          | inr (x, p) ↦ let h' = rw (q, r, p, recovered_node) at h in cc
          | inl (peers, p) ↦
              let h' = rw (q, r, p, recovered_node) at h in
              let e =
                ap
                  (λ x. elim x as (λ _. LogMemory × ℕ) [
                    | ok n ↦ (n.log_entry_in_memory, n.context.last_backup_index)
                    | err _ ↦ (lm, 0)
                  ])
                  h' in
              (sym (ap (λ y. y.0) e), sym (ap (λ y. y.1) e) ∙ recovered_context_backup now lm nc q)
        ]
      ]
    ]

-- If a node has a log without gaps, a file holds the frames of its entries from 1 to its last
-- backup index, and a new node is made from that file, then the file holds the frames of the
-- entries of the new node from 1 to its last backup index, so that its backups go on from there.
pub new_node-IsBackedUp :
    (codec : Codec) (config : NodeConfig) (addresses now : ℕ) (n m : Node) (content : Bytes)
    → IsContiguous n.log_entry_in_memory
    → IsBackedUp codec n content
    → new_node codec config addresses now content ≡ some (ok m)
    → IsBackedUp codec m content
new_node-IsBackedUp codec config addresses now n m content v b h =
    let (lm, held, made) = new_node-IsReloaded codec config addresses now n content v b in
    let same : recovered_node codec config addresses now lm ≡ ok m =
      ap (λ x. elim x as (λ _. Result Node) [ some r ↦ r | none ↦ ok m ]) (sym made ∙ h) in
    let (log, last) = recovered_node_fields codec config addresses now lm m same in
    let size = b.size in
    let top = held.maximum in
    record {
      entries = b.entries;
      total = b.total;
      stored =
          move-Stretch codec n.log_entry_in_memory m.log_entry_in_memory 1 b.entries content b.total
            b.stored
            (λ j low high.
              ap (λ l. fetch_log_entry l j) log ∙ (let e = held.entries j in ground arith));
      size = omega arith;
    }
