-- ===== src/Storage/LogEntry/Frames.antt =====
-- storage/log_entry.go: log entries on disk. A frame is the length of the encoding and the encoding.
-- After an error, neither the reader nor the count of bytes is used again.
use raft_based_distributed_l.Storage.Disk.Hex.{scan_length-print_length}
use raft_based_distributed_l.Storage.Command.{get_fast_index, new_command_from_raw}
use raft_based_distributed_l.Storage.LogEntry.{new_log_entry_list, LogEntry}
use raft_based_distributed_l.Storage.Codec.{Codec}
use raft_based_distributed_l.Storage.Disk.{
  newline, blanks, hex_digits, take_exactly, scan_length, print_length, read_full,
}
use mathlib.Core.List.{append_assoc}
use Prim.Native.Nat.{◌^◌}
use raft_based_distributed_l.Prelude.{
  arith, ◌-◌, length-append, ◌≤◌, refl, Option-cases, ◌+◌, ◌<◌, ℕ, ◌≡◌, ◌++◌, length, Bytes, none,
  some, [], ◌∷◌, inl, inr,
}
use raft_based_distributed_l.Exec.{
  Result-cases, ◌>>=◌, lift, Result, Exec, ok, err, codec_failure, entry_content_decode,
  entry_fast_index,
}

unfoldable pub encode_log_entry : Codec → LogEntry → Result Bytes
encode_log_entry codec le = elim (codec.marshal_entry le.entry) [
  | none ↦ err codec_failure
  | some b ↦ ok b
]

unfoldable pub decode_log_entry : Codec → Bytes → Result LogEntry
decode_log_entry codec b = elim (codec.unmarshal_entry b) [
  | none ↦ err codec_failure
  | some pb_entry ↦ elim (new_command_from_raw pb_entry.command_name pb_entry.command_content) [
    | none ↦ err entry_content_decode
    | some command ↦ elim (get_fast_index codec command) [
      | err e ↦ err entry_fast_index
      | ok fast_index ↦ ok (record { entry = pb_entry; fast_index = fast_index })
    ]
  ]
]

-- A writer, which Fprintf calls once.
unfoldable pub log_store : {W : Type 0} → Codec → (Bytes → Exec W ℕ) → LogEntry → Exec W ℕ
log_store codec write le = lift (encode_log_entry codec le) >>= λ encoded.
    write (print_length (length encoded)) >>= λ _. write encoded

-- The entry, the count of bytes, and what is left to read.
unfoldable pub log_reload : Codec → Bytes → Result (LogEntry × ℕ × Bytes)
log_reload codec reader = elim (scan_length reader) [
  | err e ↦ err e
  | ok (n, rest) ↦ elim (read_full n rest) [
    | err e ↦ err e
    | ok (encoded, rest') ↦ elim (decode_log_entry codec encoded) [
      | err e ↦ err e
      | ok le ↦ ok (le, n + 8 + 1, rest')
    ]
  ]
]

-- What a file that is opened to be appended to does, and a buffer.
pub record IsWriter {W : Type 0} (write : Bytes → Exec W ℕ) : Type 0 where
  pub content : W → Bytes
  pub after : Bytes → W → W
  pub writes : (b : Bytes) (w : W) → write b w ≡ (ok (length b), after b w)
  pub appends : (b : Bytes) (w : W) → content (after b w) ≡ content w ++ b

-- An entry whose fast index is that of its content, and whose encoding has a length of 8 digits.
pub record IsFramed (codec : Codec) (le : LogEntry) : Type 0 where
  pub encoded : Bytes
  pub marshalled : codec.marshal_entry le.entry ≡ some encoded
  pub unmarshalled : codec.unmarshal_entry encoded ≡ some le.entry
  pub short : length encoded < 16 ^ 8
  pub indexed : new_log_entry_list codec le.entry ≡ ok le

abbrev pub frame : {codec : Codec} {le : LogEntry} → IsFramed codec le → Bytes
frame f = print_length (length f.encoded) ++ f.encoded

take_exactly-append : (b rest : Bytes) → take_exactly (length b) (b ++ rest) ≡ some (b, rest)
unfolding take_exactly
take_exactly-append [] rest = refl
take_exactly-append (c ∷ b) rest = let h = take_exactly-append b rest in rw (h) refl

read_full-append : (b rest : Bytes) → read_full (length b) (b ++ rest) ≡ ok (b, rest)
unfolding read_full
read_full-append b rest = let h = take_exactly-append b rest in rw (h, read_full) refl

decode_log_entry-IsFramed :
    (codec : Codec) (le : LogEntry) (f : IsFramed codec le)
    → decode_log_entry codec f.encoded ≡ ok le
unfolding decode_log_entry new_log_entry_list
decode_log_entry-IsFramed codec le f =
    let read = f.unmarshalled in
    let indexed = f.indexed in
    elim (Option-cases (new_command_from_raw le.entry.command_name le.entry.command_content)) [
      | inr (c, q) ↦ elim (Result-cases (get_fast_index codec c)) [
        | inl (i, g) ↦
            let indexed' = rw (q, g, new_log_entry_list) at indexed in
            rw (read, decode_log_entry, q, g) indexed'
        | inr (x, g) ↦ let indexed' = rw (q, g, new_log_entry_list) at indexed in cc
      ]
      | inl q ↦ let indexed' = rw (q, new_log_entry_list) at indexed in cc
    ]

pub log_reload-frame :
    (codec : Codec) (le : LogEntry) (f : IsFramed codec le) (rest : Bytes)
    → log_reload codec (frame f ++ rest) ≡ ok (le, length f.encoded + 8 + 1, rest)
unfolding log_reload
log_reload-frame codec le f rest =
    let e = append_assoc (print_length (length f.encoded)) f.encoded rest in
    let s = scan_length-print_length (length f.encoded) (f.encoded ++ rest) f.short in
    let r = read_full-append f.encoded rest in
    let d = decode_log_entry-IsFramed codec le f in rw (e, s, log_reload, r, d) refl

pub log_store-frame :
    {W : Type 0} (write : Bytes → Exec W ℕ) (writer : IsWriter write) (codec : Codec)
    (le : LogEntry) (f : IsFramed codec le) (w : W)
    → (w' : W) × (log_store codec write le w ≡ (ok (length f.encoded), w'))
      × (writer.content w' ≡ writer.content w ++ frame f)
unfolding log_store encode_log_entry
log_store-frame write writer codec le f w =
    let size = print_length (length f.encoded) in
    let w₁ = writer.after size w in
    let m = f.marshalled in
    let first = writer.writes size w in
    let second = writer.writes f.encoded w₁ in
    let c₁ = writer.appends size w in
    let c₂ = writer.appends f.encoded w₁ in
    (
      writer.after f.encoded w₁,
      rw (m, log_store, encode_log_entry, first, second) refl,
      rw (c₂, c₁) (append_assoc (writer.content w) size f.encoded),
    )

pub frame-nonempty : {codec : Codec} {le : LogEntry} (f : IsFramed codec le) → 1 ≤ length (frame f)
unfolding print_length
frame-nonempty f =
    let n = length f.encoded in
    let digits = hex_digits 15 n in
    let h = length-append (blanks (8 - length digits) ++ digits ++ newline ∷ []) f.encoded in
    let k = length-append (blanks (8 - length digits) ++ digits) (newline ∷ []) in
    omega (arith, h, k)
