-- ===== src/Wal/File.antt =====
-- The `Wal` object over its file: open, append, flush, replay, truncate and close. Between two calls
-- the descriptor stands at the end of the file. Reads of the file succeed; what the system answers to
-- `open`, `lseek`, `write` and `fsync` are arguments.
pub mod Recovery
pub mod Durability
use veri_store.Common.{
  ℕ, zero, suc, ◌+◌, ◌-◌, max, Bool, true, false, not, ◌||◌, Option, none, some, List, [], ◌∷◌,
  ◌++◌, Bytes, length, take, if◌then◌else◌,
}
use veri_store.Wal.Record.{WalRecord, RecordType, put_type, del_type, encode_record, decode_record}

pub record Wal : Type 0 where
  pub is_open : Bool
  pub file : Bytes
  pub buffer : List Bytes
  pub last_good_offset : ℕ

-- What the system answers to `open` and to the `lseek` behind it.
unfoldable pub open_wal : Bool → Bool → Wal → Wal × Bool
open_wal opened seeks w =
    if not opened
    then (record w { is_open = false }, false)
    else if not seeks
    then (record w { is_open = true }, false)
    else (record w { is_open = true; last_good_offset = 0 }, true)

unfoldable pub close_wal : Wal → Wal
close_wal w = record w { is_open = false }

unfoldable pub write_record : WalRecord → Wal → Wal × Bool
write_record r w =
    if not w.is_open
    then (w, false)
    else (record w { buffer = w.buffer ++ encode_record r ∷ [] }, true)

unfoldable pub append_put : ℕ → Bytes → Bytes → Wal → Wal × Bool
unfolding write_record
append_put seq key value =
    write_record (record { type = put_type; seq = seq; key = key; value = value })

unfoldable pub append_del : ℕ → Bytes → Wal → Wal × Bool
unfolding write_record
append_del seq key = write_record (record { type = del_type; seq = seq; key = key; value = [] })

-- How the writes of one flush go: all are done, or an error comes behind this many bytes.
pub record Disk : Type 0 where
  pub fails_after : Option ℕ
  pub syncs : Bool

abbrev pub healthy : Disk
healthy = record { fails_after = none; syncs = true }

unfoldable pub joined : List Bytes → Bytes
joined [] = []
joined (r ∷ rs) = r ++ joined rs

abbrev pub is_nil {ℓ} : {A : Type ℓ} → List A → Bool
is_nil [] = true
is_nil (x ∷ xs) = false

abbrev write_buffer : Option ℕ → Bool → Wal → Wal × Bool
write_buffer (some n) syncs w = (record w { file = w.file ++ take n (joined w.buffer) }, false)
write_buffer none syncs w =
    let written : Wal = record w { file = w.file ++ joined w.buffer } in
    if syncs then (record written { buffer = [] }, true) else (written, false)

unfoldable pub flush : Disk → Wal → Wal × Bool
unfolding joined
flush disk w =
    if not w.is_open
    then (w, false)
    else if is_nil w.buffer
    then (w, true)
    else write_buffer disk.fails_after disk.syncs w

-- What a replay leaves: the store, the greatest sequence number and the end of the last good record.
pub record Replayed (S : Type 0) : Type 0 where
  pub store : S
  pub max_seq : ℕ
  pub last_good : ℕ

module _ {S : Type 0} (apply : WalRecord → S → S) where
  -- One good record.
  unfoldable pub replay_one : WalRecord → ℕ → Replayed S → Replayed S
  replay_one r offset p = record {
    store = apply r p.store;
    max_seq = max p.max_seq r.seq;
    last_good = offset;
  }

  -- The rounds of the loop. Each takes a record of at least 27 bytes, so the length of the file is
  -- more than enough fuel; `size` is that length, and the offset is what has been read of it.
  unfoldable pub replay_loop : ℕ → ℕ → Bytes → Replayed S → Replayed S
  replay_loop zero size bytes p = p
  replay_loop (suc fuel) size bytes p = elim (decode_record bytes) [
    | none ↦ p
    | some (r, rest) ↦ replay_loop fuel size rest (replay_one r (size - length rest) p)
  ]

  unfoldable pub replay_file : Bytes → S → Replayed S
  replay_file bytes s =
      replay_loop (length bytes + 1) (length bytes) bytes
        (record { store = s; max_seq = 0; last_good = 0 })

  -- `replay_into`: the object, and the result with `max_seq`, or failure.
  unfoldable pub replay_into : Bool → S → Wal → Wal × Option (Replayed S)
  replay_into seeks s w = if not w.is_open || not seeks then (w, none) else (
    record w { last_good_offset = (replay_file w.file s).last_good },
    some (replay_file w.file s),
  )

unfoldable pub truncate_to_last_good : Bool → Wal → Wal × Bool
truncate_to_last_good truncates w =
    if not w.is_open || not truncates
    then (w, false)
    else (record w { file = take w.last_good_offset w.file }, true)
