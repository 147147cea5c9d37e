-- ===== src/Storage/LogMemory/Files/RoundTrip.antt =====
-- storage/log_memory.go: a log that is stored is reloaded.
use raft_based_distributed_l.Storage.LogMemory.Files.Stretch.{
  maximum-Stretch, fetch-Stretch, reload_loop-Stretch, store_loop-Stretch, length-Stretch, Stretch,
  stretch,
}
use raft_based_distributed_l.Storage.LogEntry.{LogEntry}
use raft_based_distributed_l.Storage.LogMemory.Files.{
  reload_log_memory, store_log_memory, store_loop,
}
use raft_based_distributed_l.Storage.Codec.{Codec}
use raft_based_distributed_l.Prelude.{
  ◌∙◌, ◌-◌, ◌==◌, ◌<◌, ◌&&◌, leb, if◌then◌else◌, refl, ◌*◌, arith, ◌+◌, ◌≡◌, ◌≤◌, length, Bytes,
  List, ℕ, some, suc, [],
}
use raft_based_distributed_l.Exec.{log_entry_not_exist, Exec, ok, err}
use raft_based_distributed_l.Storage.LogMemory.{
  new_log_memory, fetch_log_entry, insert_valid_entry_list, LogMemory,
}
use raft_based_distributed_l.Storage.LogEntry.Frames.{IsFramed, IsWriter}
use raft_based_distributed_l.Storage.LogMemory.Contents.{IsContiguous}
use raft_based_distributed_l.Storage.LogMemory.Laws.{new_log_memory-IsValid, IsValid}

pub store_log_memory-loop :
    {W : Type 0} (codec : Codec) (write : Bytes → Exec W ℕ) (start end : ℕ) (lm : LogMemory) (w : W)
    → 0 < start
    → start ≤ end
    → end ≤ lm.maximum_index
    → store_log_memory codec write start end lm w
      ≡ store_loop codec write lm (end + 1 - start) start 0 w
unfolding store_log_memory
store_log_memory-loop codec write start end lm w pos le top = ground arith

fetch_log_entry-new : (j : ℕ) → fetch_log_entry new_log_memory j ≡ err log_entry_not_exist
unfolding fetch_log_entry new_log_memory
fetch_log_entry-new j = ground arith

-- What a log that is reloaded from what was stored of `lm` between two indexes holds.
pub record IsReloaded (lm : LogMemory) (start end : ℕ) (lm' : LogMemory) : Type 0 where
  pub entries :
      (j : ℕ)
      → fetch_log_entry lm' j
        ≡ (if leb start j && leb j end then fetch_log_entry lm j else err log_entry_not_exist)
  pub maximum : lm'.maximum_index ≡ end

pub reload_log_memory-Stretch :
    (codec : Codec) (lm : LogMemory) (start end : ℕ) (es : List LogEntry) (bytes : Bytes)
    (total : ℕ)
    → IsValid lm
    → 0 < start
    → start ≤ end + 1
    → Stretch codec lm start es bytes total
    → length es ≡ end + 1 - start
    → (end + 1 ≡ start → end ≡ 0)
    → (lm' : LogMemory) × (reload_log_memory codec bytes new_log_memory
        ≡ some (ok (total + 9 * (end + 1 - start)), lm'))
      × IsReloaded lm start end lm'
unfolding reload_log_memory new_log_memory
reload_log_memory-Stretch codec lm start end es bytes total v pos le st size edge =
    let small = length-Stretch codec lm start es bytes total st in
    let lm' = (insert_valid_entry_list es new_log_memory).1 in
    let width : length es + suc (length bytes - length es) ≡ suc (length bytes) = omega arith in
    let count : 0 + total + 9 * length es ≡ total + 9 * (end + 1 - start) = omega arith in
    let raw =
      reload_loop-Stretch codec lm start es bytes total 0 (length bytes - length es) new_log_memory
        st in
    let reloaded = rw (width, count) at raw in
    (
      lm',
      reloaded,
      record {
        entries = λ j.
            let behind =
              fetch-Stretch codec lm start es bytes total new_log_memory j v new_log_memory-IsValid
                st in
            let none_yet = fetch_log_entry-new j in ground arith;
        maximum =
            maximum-Stretch codec lm start es bytes total new_log_memory v pos st
            ∙ (let span : (if length es == 0 then 0 else start + length es - 1) ≡ end =
                  ground arith in
                span);
      },
    )

-- If the log has no gap, each of its entries has the fast index of its content and an encoding
-- that decodes to it and is shorter than 16^8 bytes, the range starts above 0, is not empty and
-- ends inside the log, and the writer appends to a file that is empty, then StoreLogMemory of the
-- range succeeds, and LogReload of the file into a new log ends at the end of the file with a
-- count of nine bytes more for each entry; that log holds just the entries of the range, and its
-- last index is the last of the range.
pub reload_log_memory-store_log_memory :
    {W : Type 0} (codec : Codec) (write : Bytes → Exec W ℕ) (writer : IsWriter write)
    (start end : ℕ) (lm : LogMemory) (w : W)
    → IsContiguous lm
    → ((j : ℕ) (le : LogEntry) → fetch_log_entry lm j ≡ ok le → IsFramed codec le)
    → 0 < start
    → start ≤ end
    → end ≤ lm.maximum_index
    → writer.content w ≡ []
    → (n : ℕ) × (w' : W) × (lm' : LogMemory) × (store_log_memory codec write start end lm w
        ≡ (ok n, w'))
      × (reload_log_memory codec (writer.content w') new_log_memory
          ≡ some (ok (n + 9 * (end + 1 - start)), lm'))
      × IsReloaded lm start end lm'
reload_log_memory-store_log_memory codec write writer start end lm w v framed pos le top empty =
    let (es, bytes, total, st, size) =
      stretch codec lm (end + 1 - start) start v framed pos (omega arith) in
    let (w', stored, c) = store_loop-Stretch codec lm write writer start es bytes total 0 w st in
    let (lm', reloaded, held) =
      reload_log_memory-Stretch codec lm start end es bytes total v.valid pos (omega arith) st size
        (λ z. omega arith) in
    let e : 0 + total ≡ total = omega arith in
    let stored' = rw (size, e) at stored in
    let read : writer.content w' ≡ bytes = rw (c, empty) refl in
    (
      total,
      w',
      lm',
      store_log_memory-loop codec write start end lm w pos le top ∙ stored',
      rw (read) reloaded,
      held,
    )
