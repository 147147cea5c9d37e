-- ===== src/Node/P2pServer/Matching.antt =====
-- The entries of a request in the log.
use raft_based_distributed_l.Node.Messages.{AppendEntriesRequest}
use raft_based_distributed_l.Prelude.{sym, none}
use raft_based_distributed_l.Node.P2pServer.Stored.{
  succeeds, refused, stored, append_entries_service-Answered,
}
use raft_based_distributed_l.Node.State.{Node}
use raft_based_distributed_l.Storage.LogMemory.Contents.{
  insert_valid_entry_list-IsContiguous, maximum_index-insert_list, lookup-insert_list_new,
  lookup-insert_list_old, IsContiguous, IndexedFrom,
}
use raft_based_distributed_l.Storage.Command.{get_fast_index, new_command_from_raw}
use raft_based_distributed_l.Exec.{ok_injective, Result-cases, ok}
use raft_based_distributed_l.Storage.LogMemory.{insert_valid_entry_list, fetch_log_entry, LogMemory}
use raft_based_distributed_l.Storage.LogEntry.{LogEntry, new_log_entry_list}
use raft_based_distributed_l.Node.P2pServer.{
  append_entries_service, is_dead, new_log_entries, prev_matches,
}
use raft_based_distributed_l.Storage.Codec.{Codec, Entry}
use raft_based_distributed_l.Prelude.{
  false, ==_iff, ◌==◌, ltb, max, refl, ◌∙◌, some, ap, ◌⊎◌, length, get_elem?, subst, arith, leb,
  inl, Bool-cases, inr, ◌≤◌, Option-cases, true, ◌+◌, ℕ, zero, suc, ◌≡◌, List, [], ◌∷◌,
}

-- The entries of a request carry the indexes behind `prev`.
abbrev pub ListedFrom : ℕ → List Entry → Type 0
ListedFrom prev [] = Unit {0}
ListedFrom prev (e ∷ es) = (e.index ≡ prev + 1) × ListedFrom (prev + 1) es

prev_matches_below :
    (request : AppendEntriesRequest) (lm : LogMemory)
    → prev_matches request lm ≡ ok true
    → request.prev_entry_index ≤ lm.maximum_index
unfolding prev_matches
prev_matches_below request lm h =
    elim (Bool-cases (leb request.prev_entry_index lm.maximum_index)) [
      | inl q ↦ ground arith
      | inr q ↦ let h' = rw (q, prev_matches) at h in cc
    ]

pub fetch_log_entry_found :
    (lm : LogMemory) (i : ℕ) (e : LogEntry)
    → fetch_log_entry lm i ≡ ok e
    → lm.log_in_memory i ≡ some e
unfolding fetch_log_entry
fetch_log_entry_found lm i e h = elim (Bool-cases (ltb lm.maximum_index i)) [
  | inl q ↦ let h' = rw (q, fetch_log_entry) at h in cc
  | inr q ↦ elim (Option-cases (lm.log_in_memory i)) [
    | inl f ↦ let h' = rw (q, f, fetch_log_entry) at h in cc
    | inr (x, f) ↦ let h' = rw (q, f, fetch_log_entry) at h in f ∙ ap some (ok_injective _ _ h')
  ]
]

module _ (codec : Codec) where
  new_log_entry_list_entry :
      (x : Entry) (e : LogEntry) → new_log_entry_list codec x ≡ ok e → e.entry ≡ x
  unfolding new_log_entry_list
  new_log_entry_list_entry x e h =
      elim (Option-cases (new_command_from_raw x.command_name x.command_content)) [
        | inl q ↦ let h' = rw (q, new_log_entry_list) at h in cc
        | inr (c, q) ↦ elim (Result-cases (get_fast_index codec c)) [
          | inr (y, f) ↦ let h' = rw (q, f, new_log_entry_list) at h in cc
          | inl (i, f) ↦ let h' = rw (q, f, new_log_entry_list) at h in cc
        ]
      ]

  -- What a list of entries gives, one by one.
  data Converted : List Entry → List LogEntry → Type 0 where
    nothing : Converted [] []
    another :
        (x : Entry) (e : LogEntry) (xs : List Entry) (es : List LogEntry)
        → e.entry ≡ x
        → Converted xs es
        → Converted (x ∷ xs) (e ∷ es)

  new_log_entries-Converted :
      (xs : List Entry) (es : List LogEntry) → new_log_entries codec xs ≡ ok es → Converted xs es
  unfolding new_log_entries
  new_log_entries-Converted [] es h = subst (Converted []) (ok_injective _ _ h) nothing
  new_log_entries-Converted (x ∷ xs) es h = elim (Result-cases (new_log_entry_list codec x)) [
    | inr (y, q) ↦ let h' = rw (q, new_log_entries) at h in cc
    | inl (e, q) ↦ elim (Result-cases (new_log_entries codec xs)) [
      | inr (y, f) ↦ let h' = rw (q, f, new_log_entries) at h in cc
      | inl (es', f) ↦
          let h' = rw (q, f, new_log_entries) at h in
          subst (Converted (x ∷ xs)) (ok_injective _ _ h') (
            another x e xs es' (new_log_entry_list_entry x e q)
              (new_log_entries-Converted xs es' f))
    ]
  ]

  Converted-IndexedFrom :
      (prev : ℕ) (xs : List Entry) (es : List LogEntry)
      → Converted xs es
      → ListedFrom prev xs
      → IndexedFrom prev es
  Converted-IndexedFrom prev _ _ nothing l = tt
  Converted-IndexedFrom prev _ _ (another x e xs es q c) l =
      (ap (λ y. y.index) q ∙ l.0, Converted-IndexedFrom (prev + 1) xs es c l.1)

  Converted-length :
      (xs : List Entry) (es : List LogEntry) → Converted xs es → length es ≡ length xs
  Converted-length _ _ nothing = refl
  Converted-length _ _ (another x e xs es q c) = ap suc (Converted-length xs es c)

  Converted-get :
      (xs : List Entry) (es : List LogEntry) (i : ℕ) (x : Entry)
      → Converted xs es
      → get_elem? xs i ≡ some x
      → (e : LogEntry) × (get_elem? es i ≡ some e) × (e.entry ≡ x)
  Converted-get _ _ i x nothing at = cc
  Converted-get _ _ zero x (another y e xs es q c) at =
      (e, refl, q ∙ ap (λ o. elim o [ some z ↦ z | none ↦ y ]) at)
  Converted-get _ _ (suc i) x (another y e xs es q c) at = Converted-get xs es i x c at

  -- What a request that succeeds leaves in the log `lm`, and in the end `lm'`.
  pub record Matches (request : AppendEntriesRequest) (lm lm' : LogMemory) : Type 0 where
    -- the entry before the request's entries is in the log
    pub prev :
        (request.prev_entry_index ≡ 0)
        ⊎ ((e : LogEntry) × (lm.log_in_memory request.prev_entry_index ≡ some e)
            × (e.entry.term ≡ request.prev_entry_term))
    pub before : (j : ℕ) → j ≤ request.prev_entry_index → lm'.log_in_memory j ≡ lm.log_in_memory j
    pub entries :
        (i : ℕ) (x : Entry)
        → get_elem? request.entry_list i ≡ some x
        → (e : LogEntry) × (lm'.log_in_memory (request.prev_entry_index + 1 + i) ≡ some e)
          × (e.entry ≡ x)
    pub top :
        lm'.maximum_index
        ≡ max lm.maximum_index (request.prev_entry_index + length request.entry_list)
    pub contiguous : IsContiguous lm'

  prev_matches_found :
      (request : AppendEntriesRequest) (lm : LogMemory)
      → prev_matches request lm ≡ ok true
      → (request.prev_entry_index ≡ 0)
        ⊎ ((e : LogEntry) × (lm.log_in_memory request.prev_entry_index ≡ some e)
            × (e.entry.term ≡ request.prev_entry_term))
  unfolding prev_matches fetch_log_entry
  prev_matches_found request lm h =
      elim (Bool-cases (leb request.prev_entry_index lm.maximum_index)) [
        | inr q ↦ let h' = rw (q, prev_matches) at h in cc
        | inl q ↦ elim (Bool-cases (request.prev_entry_index == 0)) [
          | inl z ↦ inl ((==_iff _ _).0 z)
          | inr z ↦ elim (Result-cases (fetch_log_entry lm request.prev_entry_index)) [
            | inr (x, f) ↦ let h' = rw (q, z, f, prev_matches) at h in cc
            | inl (e, f) ↦
                let h' = rw (q, z, f, prev_matches) at h in
                inr (
                  e,
                  fetch_log_entry_found lm request.prev_entry_index e f,
                  (==_iff _ _).0 (ok_injective _ _ h'),
                )
          ]
        ]
      ]

  stored-Matches :
      (request : AppendEntriesRequest) (lm : LogMemory) (es : List LogEntry)
      → prev_matches request lm ≡ ok true
      → new_log_entries codec request.entry_list ≡ ok es
      → ListedFrom request.prev_entry_index request.entry_list
      → IsContiguous lm
      → Matches request lm (insert_valid_entry_list es lm).1
  stored-Matches request lm es found made listed whole =
      let prev = request.prev_entry_index in
      let c = new_log_entries-Converted request.entry_list es made in
      let from = Converted-IndexedFrom prev request.entry_list es c listed in
      let below = prev_matches_below request lm found in
      record {
        prev = prev_matches_found request lm found;
        before = λ j le. lookup-insert_list_old es prev lm j from le;
        entries = λ i x at.
            let (e, at', q) = Converted-get request.entry_list es i x c at in
            (e, lookup-insert_list_new es prev lm i e from at', q);
        top =
            maximum_index-insert_list es prev lm from below
            ∙ ap (λ k. max lm.maximum_index (prev + k)) (Converted-length request.entry_list es c);
        contiguous = insert_valid_entry_list-IsContiguous es prev lm from below whole;
      }

  -- Log matching. If the node is not dead, its log has no gap, the entries of the request carry
  -- the indexes behind the previous entry that the request names, and the answer is a success,
  -- then the log held that previous entry with the term of the request, unless its index is 0;
  -- afterwards it is as before up to that index, holds the entries of the request behind it, has
  -- no gap, and its last index is the greater of the old one and the last of the request.
  pub append_entries_service-Matches :
      (now : ℕ) (request : AppendEntriesRequest) (n : Node)
      → is_dead n.context.node_state ≡ false
      → ListedFrom request.prev_entry_index request.entry_list
      → IsContiguous n.log_entry_in_memory
      → succeeds (append_entries_service codec now request n).0 ≡ true
      → Matches request n.log_entry_in_memory
          (append_entries_service codec now request n).1.log_entry_in_memory
  append_entries_service-Matches now request n alive listed whole h =
      elim (append_entries_service-Answered codec now request n alive) [
        | refused x _ ↦ cc
        | stored es _ _ _ found made log _ ↦
            subst (Matches request n.log_entry_in_memory) (sym log)
              (stored-Matches request n.log_entry_in_memory es found made listed whole)
      ]
