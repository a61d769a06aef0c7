-- ===== src/BloomFilter.antt =====
-- include/kv/bloom_filter.h and src/bloom_filter.cpp: the Bloom filter over byte strings, with its
-- 64-bit hash and its vector of bytes.
pub mod Bits
pub mod NoFalseNegatives
mod Tests
use Prim.Native.Nat.{bit_and, bit_or, bit_xor}
use veri_store.Common.{
  ℕ, zero, suc, ◌+◌, ◌*◌, ◌/◌, ◌%◌, ◌^◌, max, Bool, true, false, not, List, [], ◌∷◌, Bytes, get_or,
  set, replicate, ◌==◌, if◌then◌else◌,
}

abbrev pub u64_mod : ℕ
u64_mod = 2 ^ 64

pub record BloomFilter : Type 0 where
  pub bit_count : ℕ
  pub hash_count : ℕ
  pub bits : List ℕ

-- The constructor.
unfoldable pub new_filter : ℕ → ℕ → BloomFilter
new_filter bit_count hash_count =
    let clamped = max bit_count 8 in
    record {
      bit_count = clamped;
      hash_count = max hash_count 1;
      bits = replicate ((clamped + 7) % u64_mod / 8) 0;
    }

-- `for (byte : key) { hash ^= byte; hash *= prime; }`
unfoldable pub hash_bytes : ℕ → Bytes → ℕ
hash_bytes hash [] = hash
hash_bytes hash (byte ∷ key) = hash_bytes (bit_xor hash byte * 1099511628211 % u64_mod) key

-- `hash ^= hash >> 33; hash *= constant; hash ^= hash >> 33;`
unfoldable pub mix : ℕ → ℕ
mix hash =
    let folded = bit_xor hash (hash / 2 ^ 33) in
    let scaled = folded * 0xff51afd7ed558ccd % u64_mod in bit_xor scaled (scaled / 2 ^ 33)

unfoldable pub hash_with_seed : Bytes → ℕ → ℕ
unfolding hash_bytes mix
hash_with_seed key seed = mix (hash_bytes (bit_xor 1469598103934665603 seed) key)

unfoldable pub set_bit : ℕ → BloomFilter → BloomFilter
set_bit bit_index f =
    let byte_index = bit_index / 8 in
    let bit_offset = bit_index % 8 in
    record f {
      bits = set f.bits byte_index (bit_or (get_or f.bits byte_index 0) (2 ^ bit_offset % 256));
    }

unfoldable pub get_bit : ℕ → BloomFilter → Bool
get_bit bit_index f =
    let byte_index = bit_index / 8 in
    let bit_offset = bit_index % 8 in
    not (bit_and (get_or f.bits byte_index 0) (2 ^ bit_offset % 256) == 0)

-- The bit of the `i`-th hash of a key.
unfoldable pub bit_of : BloomFilter → Bytes → ℕ → ℕ
bit_of f key i = hash_with_seed key (0x9e3779b97f4a7c15 * (i + 1) % u64_mod) % f.bit_count

-- The loop of `add` from `i`, with this many rounds left.
unfoldable pub add_from : ℕ → ℕ → Bytes → BloomFilter → BloomFilter
add_from zero i key f = f
add_from (suc left) i key f = add_from left (i + 1) key (set_bit (bit_of f key i) f)

unfoldable pub add : Bytes → BloomFilter → BloomFilter
unfolding add_from
add key f = add_from f.hash_count 0 key f

unfoldable pub contains_from : ℕ → ℕ → Bytes → BloomFilter → Bool
contains_from zero i key f = true
contains_from (suc left) i key f =
    let rest = contains_from left (i + 1) key f in
    if not (get_bit (bit_of f key i) f) then false else rest

unfoldable pub possibly_contains : Bytes → BloomFilter → Bool
unfolding contains_from
possibly_contains key f = contains_from f.hash_count 0 key f
