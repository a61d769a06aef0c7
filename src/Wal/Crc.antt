-- ===== src/Wal/Crc.antt =====
-- `crc32_update`: the CRC-32 of IEEE 802.3, by the table of 256 words.
use Prim.Native.Nat.{bit_and, bit_xor}
use veri_store.Common.{ℕ, zero, suc, ◌-◌, ◌/◌, ◌%◌, ◌^◌, [], ◌∷◌, Bytes, ◌==◌, if◌then◌else◌}

abbrev u32_mod : ℕ
u32_mod = 2 ^ 32

-- One entry of the table: eight shifts.
unfoldable pub table_entry : ℕ → ℕ → ℕ
table_entry zero c = c
table_entry (suc rounds) c =
    table_entry rounds (if c % 2 == 1 then bit_xor 0xEDB88320 (c / 2) else c / 2)

-- `~crc` on 32 bits
unfoldable pub complement : ℕ → ℕ
complement crc = u32_mod - 1 - crc % u32_mod

unfoldable pub crc_bytes : ℕ → Bytes → ℕ
unfolding table_entry
crc_bytes crc [] = crc
crc_bytes crc (b ∷ bytes) =
    crc_bytes (bit_xor (table_entry 8 (bit_and (bit_xor crc b) 0xff)) (crc / 2 ^ 8)) bytes

unfoldable pub crc32_update : ℕ → Bytes → ℕ
unfolding crc_bytes complement
crc32_update crc bytes = complement (crc_bytes (complement crc) bytes)
