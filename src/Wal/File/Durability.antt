-- ===== src/Wal/File/Durability.antt =====
-- The log object over its file: what a flush makes durable, and what a failed one leaves.
use mathlib.Core.List.{map-append}
use veri_store.Common.{
  ℕ, ◌+◌, ◌-◌, ◌≤◌, ◌≡◌, refl, sym, ap, ◌∙◌, true, Option, none, some, List, [], ◌∷◌, ◌++◌, map,
  Bytes, length, take, arith, take_all, All, take-append_right, append_assoc, append-nil,
}
use veri_store.Wal.Record.{
  WalRecord, encode_record, decode_record, read_exact, header_bytes, parse_header,
}
use veri_store.Wal.Record.RoundTrip.{Fits}
use veri_store.Wal.File.{Wal, Disk, healthy, joined, flush, replay_file, write_record}
use veri_store.Wal.File.Recovery.{encoded, take-nil, summary, replay_file-tail}

-- A log object whose file holds the records `rs` and whose buffer holds the records `bs`.
pub record Holds (w : Wal) (rs bs : List WalRecord) : Type 0 where
  pub opened : w.is_open ≡ true
  pub stored : w.file ≡ encoded rs
  pub pending : w.buffer ≡ map encode_record bs

encoded-append : (rs bs : List WalRecord) → encoded (rs ++ bs) ≡ encoded rs ++ encoded bs
encoded-append [] bs = refl
encoded-append (r ∷ rs) bs =
    ap (λ xs. encode_record r ++ xs) (encoded-append rs bs)
    ∙ sym (append_assoc (encode_record r) (encoded rs) (encoded bs))

joined-encoded : (bs : List WalRecord) → joined (map encode_record bs) ≡ encoded bs
unfolding joined
joined-encoded [] = refl
joined-encoded (b ∷ bs) = ap (λ xs. encode_record b ++ xs) (joined-encoded bs)

-- Of a log object that is open: a new record is accepted, goes behind the buffered ones, and
-- changes nothing in the file.
pub write_record-Holds :
    (r : WalRecord) (w : Wal) (rs bs : List WalRecord)
    → Holds w rs bs
    → ((write_record r w).1 ≡ true) × Holds (write_record r w).0 rs (bs ++ r ∷ [])
unfolding write_record
write_record-Holds r w rs bs h =
    let longer : map encode_record (bs ++ r ∷ []) ≡ map encode_record bs ++ encode_record r ∷ [] =
      map-append encode_record bs (r ∷ []) in
    ground (arith, longer)

-- Of a log object with some records in its file and some in its buffer: a flush that the disk
-- carries out succeeds, empties the buffer and leaves all these records in the file, in order.
pub flush-Holds :
    (w : Wal) (rs bs : List WalRecord)
    → Holds w rs bs
    → ((flush healthy w).1 ≡ true) × Holds (flush healthy w).0 (rs ++ bs) []
unfolding flush
flush-Holds w rs [] h = ground (arith, ap encoded (append-nil rs))
flush-Holds w rs (b ∷ bs) h =
    ground (arith, encoded-append rs (b ∷ bs), joined-encoded (b ∷ bs), ap joined h.pending)

-- How many bytes of the buffer reach the file.
abbrev added : List WalRecord → Option ℕ → ℕ
added bs (some n) = n
added bs none = length (encoded bs)

flush-file :
    (disk : Disk) (w : Wal) (rs bs : List WalRecord)
    → Holds w rs bs
    → (flush disk w).0.file ≡ encoded rs ++ take (added bs disk.fails_after) (encoded bs)
unfolding flush
flush-file disk w rs [] h =
    ground (arith, append-nil (encoded rs), take-nil (added [] disk.fails_after))
flush-file disk w rs (b ∷ bs) h = ground (
  arith,
  joined-encoded (b ∷ bs),
  ap joined h.pending,
  take_all (length (encoded (b ∷ bs))) (encoded (b ∷ bs)) (omega arith),
)

take_added :
    (rs bs : List WalRecord) (m : ℕ)
    → encoded rs ++ take m (encoded bs) ≡ take (length (encoded rs) + m) (encoded (rs ++ bs))
take_added rs bs m =
    let same : length (encoded rs) + m - length (encoded rs) ≡ m = omega arith in
    rw (encoded-append rs bs) (
      rw (take-append_right (length (encoded rs) + m) (encoded rs) (encoded bs) (omega arith))
        (rw same refl))

-- Of a log object with some records in its file and some in its buffer: whatever the disk does, a
-- flush leaves a file that is the whole log, with the buffered records, cut off somewhere behind
-- those that were in the file.
pub flush_keeps_log :
    (disk : Disk) (w : Wal) (rs bs : List WalRecord)
    → Holds w rs bs
    → (n : ℕ) × (length (encoded rs) ≤ n) × ((flush disk w).0.file ≡ take n (encoded (rs ++ bs)))
flush_keeps_log disk w rs bs h =
    let n = length (encoded rs) + added bs disk.fails_after in
    (n, omega arith, flush-file disk w rs bs h ∙ take_added rs bs (added bs disk.fails_after))

decode_misaligned :
    (b : WalRecord) (rest : Bytes) → decode_record (75 ∷ (encode_record b ++ rest)) ≡ none
unfolding decode_record read_exact parse_header encode_record header_bytes
decode_misaligned b rest = ground arith

first_byte : (b : WalRecord) (rest : Bytes) → take 1 (encode_record b ++ rest) ≡ 75 ∷ []
unfolding encode_record header_bytes
first_byte b rest = refl

reflush-file :
    (w : Wal) (rs : List WalRecord) (b : WalRecord) (bs : List WalRecord)
    → Holds w rs (b ∷ bs)
    → ((flush healthy (flush (record { fails_after = some 1; syncs = true }) w).0).1 ≡ true)
      × ((flush healthy (flush (record { fails_after = some 1; syncs = true }) w).0).0.file
          ≡ encoded rs ++ (75 ∷ encoded (b ∷ bs)))
unfolding flush
reflush-file w rs b bs h = ground (
  arith,
  ap joined h.pending,
  joined-encoded (b ∷ bs),
  first_byte b (encoded bs),
  append_assoc (encoded rs) (75 ∷ []) (encoded (b ∷ bs)),
)

-- The error path of `flush` keeps the buffer, so the next flush writes its records behind the bytes
-- that the failed one left. Where these are one byte, the next flush succeeds, and a replay still
-- recovers none of the records that it wrote.
pub reflush_loses_records :
    {S : Type 0} (apply : WalRecord → S → S) (w : Wal) (rs : List WalRecord) (b : WalRecord)
    (bs : List WalRecord) (s : S)
    → Holds w rs (b ∷ bs)
    → All Fits rs
    → Fits b
    → ((flush healthy (flush (record { fails_after = some 1; syncs = true }) w).0).1 ≡ true)
      × (replay_file apply
            (flush healthy (flush (record { fails_after = some 1; syncs = true }) w).0).0.file
            s
          ≡ summary apply rs s)
reflush_loses_records apply w rs b bs s h f fb =
    let (done, file) = reflush-file w rs b bs h in
    (
      done,
      ap (λ bytes. replay_file apply bytes s) file
          ∙ replay_file-tail apply rs (75 ∷ encoded (b ∷ bs)) s f
              (decode_misaligned b (encoded bs)),
    )
