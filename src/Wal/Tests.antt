-- ===== src/Wal/Tests.antt =====
-- The log on two records, and the theorems about it applied there.
use veri_store.Common.{
  ℕ, suc, ◌<◌, ◌≤◌, ◌≡◌, refl, ◌⊎◌, true, some, List, [], ◌∷◌, codes, arith, length, take, All,
}
use veri_store.Wal.Crc.{crc32_update}
use veri_store.Wal.Record.{WalRecord, put_type, del_type, encode_record, header_bytes}
use veri_store.Wal.Record.RoundTrip.{Fits}
use veri_store.Wal.File.{Wal, Disk, healthy, flush, replay_file}
use veri_store.Wal.File.Recovery.{encoded, summary, crash_recovery}
use veri_store.Wal.File.Durability.{Holds, flush_keeps_log, reflush_loses_records}

-- The check value of CRC-32.
check_value : crc32_update 0 (codes "123456789") ≡ 0xCBF43926
unfolding crc32_update
check_value = refl

abbrev put_a : WalRecord
put_a = record { type = put_type; seq = 1; key = codes "a"; value = codes "x" }

abbrev del_a : WalRecord
del_a = record { type = del_type; seq = 2; key = codes "a"; value = [] }

put_a-Fits : Fits put_a
put_a-Fits = record {
  seq_fits = omega arith;
  key_fits = omega arith;
  value_fits = omega arith;
  del_empty = λ e. cc;
}

del_a-Fits : Fits del_a
del_a-Fits = record {
  seq_fits = omega arith;
  key_fits = omega arith;
  value_fits = omega arith;
  del_empty = λ e. refl;
}

abbrev both : List WalRecord
both = put_a ∷ del_a ∷ []

both-Fits : All Fits both
both-Fits = (put_a-Fits, (del_a-Fits, tt))

-- A store that keeps the records, the last one first.
abbrev keep : WalRecord → List WalRecord → List WalRecord
keep r s = r ∷ s

both-length : length (encoded both) ≡ 57
unfolding encode_record header_bytes
both-length = refl

crash_recovery_example :
    (k : ℕ) × (length (encoded (take k both)) ≤ 40)
    × ((length both ≤ k) ⊎ (40 < length (encoded (take (suc k) both))))
    × (replay_file keep (take 40 (encoded both)) [] ≡ summary keep (take k both) [])
crash_recovery_example = crash_recovery keep both 40 [] both-Fits (omega (arith, both-length))

-- A log with one record in its file and one in its buffer.
abbrev half_flushed : Wal
half_flushed = record {
  is_open = true;
  file = encoded (put_a ∷ []);
  buffer = encode_record del_a ∷ [];
  last_good_offset = 0;
}

half_flushed-Holds : Holds half_flushed (put_a ∷ []) (del_a ∷ [])
half_flushed-Holds = record { opened = refl; stored = refl; pending = refl }

abbrev torn : Disk
torn = record { fails_after = some 1; syncs = true }

flush_keeps_log_example :
    (n : ℕ) × (length (encoded (put_a ∷ [])) ≤ n)
    × ((flush torn half_flushed).0.file ≡ take n (encoded both))
flush_keeps_log_example =
    flush_keeps_log torn half_flushed (put_a ∷ []) (del_a ∷ []) half_flushed-Holds

reflush_loses_records_example :
    ((flush healthy (flush torn half_flushed).0).1 ≡ true)
    × (replay_file keep (flush healthy (flush torn half_flushed).0).0.file []
        ≡ summary keep (put_a ∷ []) [])
reflush_loses_records_example =
    reflush_loses_records keep half_flushed (put_a ∷ []) del_a [] [] half_flushed-Holds
      (put_a-Fits, tt) del_a-Fits
