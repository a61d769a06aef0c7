-- ===== src/ObjectStore/Chunks.antt =====
-- Chunks that were written are read back, and nothing else changes.
use mathlib.Core.Path.{subst}
use native.Mathlib.Decide.{dec_le}
use native.Mathlib.Nat.{lt-div-mul-add}
use veri_store.Text.{u64_mod}
use veri_store.ObjectStore.Metadata.{u32_mod}
use veri_store.Common.{
  ℕ, zero, suc, ◌+◌, ◌-◌, ◌*◌, ◌/◌, ◌%◌, ◌<◌, ◌≤◌, ◌≡◌, refl, sym, ap, ◌∙◌, min, false, ◌&&◌, some,
  [], ◌∷◌, ◌++◌, Bytes, length, take, drop, ltb, leb, ◌==◌, if◌then◌else◌, arith, bytes_eq,
  bytes_eq_iff, append_assoc, append-nil, take_all,
}
use veri_store.ObjectStore.KeyCodec.{chunk_key, chunk_key-injective}
use veri_store.ObjectStore.KvApi.{KvApi, Laws}
use veri_store.ObjectStore.Objects.{chunk_at, chunk_count_of, write_chunks, read_chunks, whole}

pub chunk_key-eq : (id : Bytes) (i j : ℕ) → bytes_eq (chunk_key id i) (chunk_key id j) ≡ (i == j)
chunk_key-eq id i j = ground (
  arith,
  bytes_eq_iff (chunk_key id i) (chunk_key id j),
  chunk_key-injective id id i j,
  λ (e : i ≡ j). ap (chunk_key id) e,
)

drop-nil : (n : ℕ) → drop {A = ℕ} n [] ≡ []
drop-nil zero = refl
drop-nil (suc n) = refl

drop-drop : (n m : ℕ) (xs : Bytes) → drop n (drop m xs) ≡ drop (m + n) xs
drop-drop n zero xs = let same : 0 + n ≡ n = omega arith in rw same refl
drop-drop n (suc m) [] = drop-nil n ∙ sym (drop-nil (suc m + n))
drop-drop n (suc m) (x ∷ xs) =
    let same : suc m + n ≡ suc (m + n) = omega arith in rw same (drop-drop n m xs)

pub length-drop : (n : ℕ) (xs : Bytes) → length (drop n xs) ≡ length xs - n
length-drop zero xs = omega arith
length-drop (suc n) [] = omega arith
length-drop (suc n) (x ∷ xs) = omega (arith, length-drop n xs)

take-drop : (n : ℕ) (xs : Bytes) → take n xs ++ drop n xs ≡ xs
take-drop zero xs = refl
take-drop (suc n) [] = refl
take-drop (suc n) (x ∷ xs) = ap (λ ys. x ∷ ys) (take-drop n xs)

drop_all : (n : ℕ) (xs : Bytes) → length xs ≤ n → drop n xs ≡ []
drop_all zero [] h = refl
drop_all zero (x ∷ xs) h = absurd (omega arith)
drop_all (suc n) [] h = refl
drop_all (suc n) (x ∷ xs) h = drop_all n xs (omega arith)

-- A chunk is what stands at its start, as far as the chunk size goes.
chunk_at-take : (c : ℕ) (bytes : Bytes) (i : ℕ) → chunk_at c bytes i ≡ take c (drop (i * c) bytes)
unfolding chunk_at
chunk_at-take c bytes i = elim (dec_le (i * c + c) (length bytes)) [
  | yes inside ↦ let size : min (i * c + c) (length bytes) - i * c ≡ c = omega arith in rw size refl
  | no past ↦
      let size : min (i * c + c) (length bytes) - i * c ≡ length bytes - i * c = omega arith in
      rw size (
        take_all (length bytes - i * c) (drop (i * c) bytes)
          (omega (arith, length-drop (i * c) bytes))
        ∙ sym (take_all c (drop (i * c) bytes) (omega (arith, length-drop (i * c) bytes))))
]

-- The chunks from `i`, joined.
pub chunks_from : ℕ → Bytes → ℕ → ℕ → Bytes
chunks_from c bytes zero i = []
chunks_from c bytes (suc left) i = chunk_at c bytes i ++ chunks_from c bytes left (i + 1)

chunks_from-drop :
    (c : ℕ) (bytes : Bytes) (left i : ℕ)
    → length bytes ≤ (i + left) * c
    → chunks_from c bytes left i ≡ drop (i * c) bytes
unfolding chunks_from
chunks_from-drop c bytes zero i h = sym (drop_all (i * c) bytes (grind arith))
chunks_from-drop c bytes (suc left) i h =
    let next : (i + 1) * c ≡ i * c + c = grind arith in
    let same : i + suc left ≡ i + 1 + left = omega arith in
    let ih : chunks_from c bytes left (i + 1) ≡ drop ((i + 1) * c) bytes =
      chunks_from-drop c bytes left (i + 1) (subst (λ (x : ℕ). length bytes ≤ x * c) same h) in
    rw (chunk_at-take c bytes i)
      (rw ih (rw next (rw (sym (drop-drop c (i * c) bytes)) (take-drop c (drop (i * c) bytes)))))

enough : (c n : ℕ) → 0 < c → n ≤ (n + c - 1) / c * c
enough c n h = let bound : n + c - 1 < (n + c - 1) / c * c + c = lt-div-mul-add h in omega arith

-- The numbers of the source do not wrap around: the data and a chunk fit in 64 bits, the number of
-- chunks in 32.
pub record Countable (chunk_size total : ℕ) : Type 0 where
  pub positive : 0 < chunk_size
  pub total_fits : total + chunk_size - 1 < u64_mod
  pub count_fits : (total + chunk_size - 1) / chunk_size < u32_mod

pub chunk_count_of_lem : (c n : ℕ) → Countable c n → chunk_count_of c n ≡ (n + c - 1) / c
unfolding chunk_count_of
chunk_count_of_lem c n h =
    let total : (n + c - 1) % u64_mod ≡ n + c - 1 = omega (arith, h.total_fits) in
    rw total (omega (arith, h.count_fits))

-- All chunks, joined, are the data.
pub chunks-all :
    (c : ℕ) (bytes : Bytes)
    → Countable c (length bytes)
    → chunks_from c bytes (chunk_count_of c (length bytes)) 0 ≡ bytes
chunks-all c bytes h =
    let zero_start : 0 * c ≡ 0 = omega arith in
    rw (chunk_count_of_lem c (length bytes) h) (
      chunks_from-drop c bytes ((length bytes + c - 1) / c) 0 (
        let same : 0 + (length bytes + c - 1) / c ≡ (length bytes + c - 1) / c = omega arith in
        rw same (enough c (length bytes) h.positive))
      ∙ ap (λ n. drop n bytes) zero_start)

module _ {S : Type 0} (api : KvApi S) where
  -- The chunks of an object are there.
  abbrev pub HasChunks : ℕ → Bytes → Bytes → ℕ → ℕ → S → Type 0
  HasChunks c id bytes left i s =
      (m : ℕ) → i ≤ m → m < i + left → api.get (chunk_key id m) s ≡ some (chunk_at c bytes m)

  pub read_chunks-whole :
      (c : ℕ) (id bytes : Bytes) (left i : ℕ) (acc : Bytes) (s : S)
      → HasChunks c id bytes left i s
      → read_chunks api id left i acc s ≡ whole (acc ++ chunks_from c bytes left i)
  unfolding read_chunks chunks_from
  read_chunks-whole c id bytes zero i acc s h = ap whole (sym (append-nil acc))
  read_chunks-whole c id bytes (suc left) i acc s h =
      rw (h i (omega arith) (omega arith), read_chunks)
        (read_chunks-whole c id bytes left (i + 1) (acc ++ chunk_at c bytes i) s
            (λ m lo hi. h m (omega arith) (omega arith))
          ∙ ap whole (append_assoc acc (chunk_at c bytes i) (chunks_from c bytes left (i + 1))))

  module _ (IsReady : S → Type 0) (laws : Laws api IsReady) where
    pub write_chunks-IsReady :
        (c : ℕ) (id bytes : Bytes) (left i : ℕ) (s : S)
        → IsReady s
        → IsReady (write_chunks api c id bytes left i s)
    unfolding write_chunks
    write_chunks-IsReady c id bytes zero i s r = r
    write_chunks-IsReady c id bytes (suc left) i s r =
        write_chunks-IsReady c id bytes left (i + 1) _ (laws.put-IsReady _ _ s r)

    -- Another entry than these chunks stays.
    pub get-write_chunks :
        (c : ℕ) (id bytes : Bytes) (left i : ℕ) (j : Bytes) (s : S)
        → IsReady s
        → ((m : ℕ) → bytes_eq (chunk_key id m) j ≡ false)
        → api.get j (write_chunks api c id bytes left i s) ≡ api.get j s
    unfolding write_chunks
    get-write_chunks c id bytes zero i j s r h = refl
    get-write_chunks c id bytes (suc left) i j s r h =
        get-write_chunks c id bytes left (i + 1) j _ (laws.put-IsReady _ _ s r) h
        ∙ (laws.get-put (chunk_key id i) (chunk_at c bytes i) j s r ∙ rw (h i) refl)

    chunk-write_chunks :
        (c : ℕ) (id bytes : Bytes) (left i m : ℕ) (s : S)
        → IsReady s
        → api.get (chunk_key id m) (write_chunks api c id bytes left i s) ≡ (
            if leb i m && ltb m (i + left)
            then some (chunk_at c bytes m)
            else api.get (chunk_key id m) s)
    unfolding write_chunks
    chunk-write_chunks c id bytes zero i m s r = ground arith
    chunk-write_chunks c id bytes (suc left) i m s r = ground (
      arith,
      chunk-write_chunks c id bytes left (i + 1) m (api.put (chunk_key id i) (chunk_at c bytes i) s)
          (laws.put-IsReady _ _ s r),
      laws.get-put (chunk_key id i) (chunk_at c bytes i) (chunk_key id m) s r,
      chunk_key-eq id i m,
    )

    pub write_chunks-HasChunks :
        (c : ℕ) (id bytes : Bytes) (left i : ℕ) (s : S)
        → IsReady s
        → HasChunks c id bytes left i (write_chunks api c id bytes left i s)
    write_chunks-HasChunks c id bytes left i s r m lo hi =
        chunk-write_chunks c id bytes left i m s r ∙ ground arith
