-- ===== src/ObjectStore/ChunkSizes.antt =====
-- The sizes of the chunks that `PutObject` writes.
use native.Mathlib.Nat.{le-div_iff_mul-le}
use veri_store.Common.{
  ℕ, suc, ◌+◌, ◌-◌, ◌*◌, ◌/◌, ◌<◌, ◌≤◌, ◌≡◌, min, Bytes, length, drop, arith, length-take_of_le,
}
use veri_store.ObjectStore.Objects.{chunk_at, chunk_count_of}
use veri_store.ObjectStore.Chunks.{Countable, chunk_count_of_lem, length-drop}

-- The bytes before chunk `i`, if there is one.
before : (c n i : ℕ) → 0 < c → i < (n + c - 1) / c → i * c + c ≤ n + c - 1
before c n i h lt =
    let fits : suc i * c ≤ n + c - 1 = (le-div_iff_mul-le h).0 (omega arith) in
    let next : suc i * c ≡ i * c + c = grind arith in omega arith

chunk_at-length :
    (c : ℕ) (bytes : Bytes) (i : ℕ)
    → length (chunk_at c bytes i) ≡ min (i * c + c) (length bytes) - i * c
unfolding chunk_at
chunk_at-length c bytes i =
    length-take_of_le (min (i * c + c) (length bytes) - i * c) (drop (i * c) bytes)
      (omega (arith, length-drop (i * c) bytes))

-- Every chunk that a put writes has as many bytes as the chunk size, or all that are left if they are
-- fewer, and one at least, where the numbers do not wrap around.
pub chunk_at-bounds :
    (c : ℕ) (bytes : Bytes) (i : ℕ)
    → Countable c (length bytes)
    → i < chunk_count_of c (length bytes)
    → (0 < length (chunk_at c bytes i))
      × (length (chunk_at c bytes i) ≡ min c (length bytes - i * c))
chunk_at-bounds c bytes i h lt =
    let at : i * c + c ≤ length bytes + c - 1 =
      before c (length bytes) i h.positive (omega (arith, chunk_count_of_lem c (length bytes) h)) in
    (omega (arith, chunk_at-length c bytes i, h.positive), omega (arith, chunk_at-length c bytes i))
