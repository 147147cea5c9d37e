-- ===== src/Storage/LogMemory/Files/Stretch.antt =====
-- storage/log_memory.go: a stretch of the log, its bytes, and the loops over both.
use raft_based_distributed_l.Storage.LogMemory.TermSearch.{fetch_present}
use raft_based_distributed_l.Storage.Disk.{scan_hex, scan_unsigned}
use raft_based_distributed_l.Storage.Disk.{skip_blanks, scan_length}
use raft_based_distributed_l.Storage.LogEntry.{LogEntry}
use raft_based_distributed_l.Storage.LogMemory.Files.{reload_loop, store_loop}
use raft_based_distributed_l.Storage.Codec.{Codec}
use raft_based_distributed_l.Prelude.{
  subst, ◌-◌, ◌==◌, ◌<◌, Bool-cases, Option, ap, ltb, ◌&&◌, leb, if◌then◌else◌, sym, refl,
  length-append, ◌++◌, ◌*◌, arith, ◌+◌, ◌≡◌, ◌≤◌, length, Bytes, List, ℕ, some, zero, suc, [], ◌∷◌,
  inl, inr,
}
use raft_based_distributed_l.Exec.{Result, io_eof, Exec, ok, err}
use raft_based_distributed_l.Storage.LogMemory.{
  fetch_log_entry, insert_log_entry, insert_valid_entry_list, LogMemory, insert,
}
use raft_based_distributed_l.Storage.LogEntry.Frames.{
  log_reload, frame-nonempty, log_reload-frame, log_store-frame, frame, IsFramed, IsWriter,
}
use mathlib.Core.List.{append_assoc, append-nil}
use raft_based_distributed_l.Storage.LogMemory.Contents.{IsContiguous}
use raft_based_distributed_l.Storage.LogMemory.Laws.{
  fetch_log_entry-insert, insert-IsValid, IsValid,
}

pub log_reload-nil : (codec : Codec) → log_reload codec [] ≡ err io_eof
unfolding log_reload scan_length skip_blanks scan_hex scan_unsigned
log_reload-nil codec = refl

fetch_log_entry-log_in_memory :
    (lm : LogMemory) (i : ℕ) (le : LogEntry)
    → fetch_log_entry lm i ≡ ok le
    → lm.log_in_memory i ≡ some le
unfolding fetch_log_entry
fetch_log_entry-log_in_memory lm i le h = ground arith

module _ (codec : Codec) (lm : LogMemory) where
  -- The entries at `i` and behind it, their frames, and the count that LogStore returns for them.
  pub data Stretch : ℕ → List LogEntry → Bytes → ℕ → Type 0 where
    no_entry : (i : ℕ) → Stretch i [] [] 0
    an_entry :
        (i : ℕ) (le : LogEntry) (es : List LogEntry) (bytes : Bytes) (total : ℕ)
        (f : IsFramed codec le)
        → fetch_log_entry lm i ≡ ok le
        → Stretch (i + 1) es bytes total
        → Stretch i (le ∷ es) (frame f ++ bytes) (length f.encoded + total)

  pub store_loop-Stretch :
      {W : Type 0} (write : Bytes → Exec W ℕ) (writer : IsWriter write) (i : ℕ) (es : List LogEntry)
      (bytes : Bytes) (total acc : ℕ) (w : W)
      → Stretch i es bytes total
      → (w' : W) × (store_loop codec write lm (length es) i acc w ≡ (ok (acc + total), w'))
        × (writer.content w' ≡ writer.content w ++ bytes)
  unfolding store_loop
  store_loop-Stretch write writer i _ _ _ acc w (no_entry _) =
      let h0 : acc + 0 ≡ acc = omega arith in
      (w, rw (h0, store_loop) refl, sym (append-nil (writer.content w)))
  store_loop-Stretch write writer i _ _ _ acc w (an_entry _ le es bytes total f h more) =
      let (w₁, stored, c₁) = log_store-frame write writer codec le f w in
      let (w₂, rest, c₂) =
        store_loop-Stretch write writer (i + 1) es bytes total (acc + length f.encoded) w₁ more in
      let e : acc + (length f.encoded + total) ≡ acc + length f.encoded + total = omega arith in
      (w₂, rw (h, stored, e) rest, rw (c₂, c₁) (append_assoc (writer.content w) (frame f) bytes))

  pub reload_loop-Stretch :
      (i : ℕ) (es : List LogEntry) (bytes : Bytes) (total acc more : ℕ) (lm₀ : LogMemory)
      → Stretch i es bytes total
      → reload_loop codec (length es + suc more) bytes acc lm₀
        ≡ some (ok (acc + total + 9 * length es), (insert_valid_entry_list es lm₀).1)
  unfolding reload_loop insert_valid_entry_list insert_log_entry
  reload_loop-Stretch i _ _ _ acc more lm₀ (no_entry _) =
      let h0 : acc + 0 + 0 ≡ acc = omega arith in
      let h1 : 0 + suc more ≡ suc more = omega arith in
      rw (h0, h1, reload_loop, log_reload-nil codec) refl
  reload_loop-Stretch i _ _ _ acc more lm₀ (an_entry _ le es bytes total f h rest) =
      let e : suc (length es) + suc more ≡ suc (length es + suc more) = omega arith in
      let counts : acc + (length f.encoded + 8 + 1) + total + 9 * length es
          ≡ acc + (length f.encoded + total) + 9 * suc (length es) =
        omega arith in
      let first = log_reload-frame codec le f bytes in
      let behind =
        reload_loop-Stretch (i + 1) es bytes total (acc + (length f.encoded + 8 + 1)) more
          (insert le lm₀) rest in
      rw (e, reload_loop, first, behind)
        (ap {B = Option (Result ℕ × LogMemory)}
          (λ n. some (ok n, (insert_valid_entry_list es (insert le lm₀)).1)) counts)

  pub length-Stretch :
      (i : ℕ) (es : List LogEntry) (bytes : Bytes) (total : ℕ)
      → Stretch i es bytes total
      → length es ≤ length bytes
  length-Stretch i _ _ _ (no_entry _) = omega arith
  length-Stretch i _ _ _ (an_entry _ le es bytes total f h rest) = omega (
    arith,
    length-Stretch (i + 1) es bytes total rest,
    length-append (frame f) bytes,
    frame-nonempty f,
  )

  pub fetch-Stretch :
      (i : ℕ) (es : List LogEntry) (bytes : Bytes) (total : ℕ) (lm₀ : LogMemory) (j : ℕ)
      → IsValid lm
      → IsValid lm₀
      → Stretch i es bytes total
      → fetch_log_entry (insert_valid_entry_list es lm₀).1 j
        ≡ (if leb i j && ltb j (i + length es) then fetch_log_entry lm j else fetch_log_entry lm₀ j)
  unfolding insert_valid_entry_list insert_log_entry
  fetch-Stretch i _ _ _ lm₀ j v v₀ (no_entry _) = ground arith
  fetch-Stretch i _ _ _ lm₀ j v v₀ (an_entry _ le es bytes total f h rest) =
      let behind =
        fetch-Stretch (i + 1) es bytes total (insert le lm₀) j v (insert-IsValid le lm₀ v₀) rest in
      let first = fetch_log_entry-insert le lm₀ j v₀ in
      let at_i : le.entry.index ≡ i = v.indexed i le (fetch_log_entry-log_in_memory lm i le h) in
      elim (Bool-cases (i == j)) [
        | inl q ↦
            let same : i ≡ j = ground arith in
            let h' = subst (λ k. fetch_log_entry lm k ≡ ok le) same h in ground arith
        | inr q ↦ ground arith
      ]

  pub maximum-Stretch :
      (i : ℕ) (es : List LogEntry) (bytes : Bytes) (total : ℕ) (lm₀ : LogMemory)
      → IsValid lm
      → lm₀.maximum_index < i
      → Stretch i es bytes total
      → (insert_valid_entry_list es lm₀).1.maximum_index
        ≡ (if length es == 0 then lm₀.maximum_index else i + length es - 1)
  unfolding insert_valid_entry_list insert_log_entry insert
  maximum-Stretch i _ _ _ lm₀ v less (no_entry _) = refl
  maximum-Stretch i _ _ _ lm₀ v less (an_entry _ le es bytes total f h rest) =
      let at_i : le.entry.index ≡ i = v.indexed i le (fetch_log_entry-log_in_memory lm i le h) in
      let top : (insert le lm₀).maximum_index ≡ i = ground arith in
      let behind = maximum-Stretch (i + 1) es bytes total (insert le lm₀) v (omega arith) rest in
      ground arith

  pub stretch :
      (rounds i : ℕ)
      → IsContiguous lm
      → ((j : ℕ) (le : LogEntry) → fetch_log_entry lm j ≡ ok le → IsFramed codec le)
      → 0 < i
      → i + rounds ≤ lm.maximum_index + 1
      → (es : List LogEntry) × (bytes : Bytes) × (total : ℕ) × Stretch i es bytes total
        × (length es ≡ rounds)
  stretch zero i v framed pos top = ([], [], 0, no_entry i, refl)
  stretch (suc rounds) i v framed pos top =
      let (le, h, _) = fetch_present lm i v pos (omega arith) in
      let (es, bytes, total, rest, size) =
        stretch rounds (i + 1) v framed (omega arith) (omega arith) in
      let f = framed i le h in
      (
        le ∷ es,
        frame f ++ bytes,
        length f.encoded + total,
        an_entry i le es bytes total f h rest,
        ap suc size,
      )

  pub append-Stretch :
      (i : ℕ) (es es' : List LogEntry) (b b' : Bytes) (t t' : ℕ)
      → Stretch i es b t
      → Stretch (i + length es) es' b' t'
      → Stretch i (es ++ es') (b ++ b') (t + t')
  append-Stretch i _ es' _ b' _ t' (no_entry _) s =
      let e : i + 0 ≡ i = omega arith in
      let e' : 0 + t' ≡ t' = omega arith in
      subst (λ j. Stretch j es' b' (0 + t')) e (subst (λ u. Stretch (i + 0) es' b' u) (sym e') s)
  append-Stretch i _ es' _ b' _ t' (an_entry _ le es b t f h r) s =
      let e : i + suc (length es) ≡ i + 1 + length es = omega arith in
      let behind =
        append-Stretch (i + 1) es es' b b' t t' r (subst (λ j. Stretch j es' b' t') e s) in
      let e' : length f.encoded + (t + t') ≡ length f.encoded + t + t' = omega arith in
      let whole = an_entry i le (es ++ es') (b ++ b') (t + t') f h behind in
      subst (λ x. Stretch i (le ∷ (es ++ es')) x (length f.encoded + t + t'))
        (sym (append_assoc (frame f) b b'))
        (subst (λ u. Stretch i (le ∷ (es ++ es')) (frame f ++ (b ++ b')) u) e' whole)
