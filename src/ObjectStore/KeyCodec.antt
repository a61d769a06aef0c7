-- ===== src/ObjectStore/KeyCodec.antt =====
-- `ObjectStoreKeyCodec`: the keys of the entries, and when two of them are the same.
use mathlib.Core.Path.{subst}
use veri_store.Common.{
  ℕ, ◌≡◌, refl, ap, false, [], ◌∷◌, ◌++◌, Bytes, codes, bytes_eq, arith, append_assoc,
}
use veri_store.Text.{is_digit, print_uint}
use veri_store.Text.Decimal.{print_uint-injective}
use veri_store.Text.Numbers.{Without, print_uint-Without}

abbrev pub colon : ℕ
colon = b':'

unfoldable pub bucket_meta_key : Bytes → Bytes
bucket_meta_key bucket = codes "bucket:" ++ bucket

unfoldable pub object_meta_key : Bytes → Bytes → Bytes
object_meta_key bucket key = codes "objmeta:" ++ (bucket ++ colon ∷ key)

unfoldable pub bucket_index_key : Bytes → Bytes → Bytes
bucket_index_key bucket key = codes "bucketidx:" ++ (bucket ++ colon ∷ key)

unfoldable pub chunk_key : Bytes → ℕ → Bytes
chunk_key object_id index = codes "objchunk:" ++ (object_id ++ colon ∷ print_uint index)

-- A text before the first colon is determined by the whole.
first_colon :
    (a b c d : Bytes)
    → Without colon a
    → Without colon c
    → a ++ colon ∷ b ≡ c ++ colon ∷ d
    → (a ≡ c) × (b ≡ d)
first_colon [] b [] d ha hc e = ground arith
first_colon [] b (y ∷ c) d ha hc e = absurd (ground arith)
first_colon (x ∷ a) b [] d ha hc e = absurd (ground arith)
first_colon (x ∷ a) b (y ∷ c) d (hx, ha) (hy, hc) e = ground (arith, first_colon a b c d ha hc)

not-Without : (c d : Bytes) → ¬ Without colon (c ++ colon ∷ d)
not-Without [] d (h, a) = h refl
not-Without (x ∷ c) d (h, a) = not-Without c d a

-- So is one behind the last colon.
last_colon :
    (a b c d : Bytes)
    → Without colon b
    → Without colon d
    → a ++ colon ∷ b ≡ c ++ colon ∷ d
    → (a ≡ c) × (b ≡ d)
last_colon [] b [] d hb hd e = ground arith
last_colon [] b (y ∷ c) d hb hd e =
    let same : b ≡ c ++ colon ∷ d = ground arith in
    absurd (not-Without c d (subst (Without colon) same hb))
last_colon (x ∷ a) b [] d hb hd e =
    let same : d ≡ a ++ colon ∷ b = ground arith in
    absurd (not-Without a b (subst (Without colon) same hd))
last_colon (x ∷ a) b (y ∷ c) d hb hd e = ground (arith, last_colon a b c d hb hd)

print_uint-colon : (n : ℕ) → Without colon (print_uint n)
print_uint-colon n = print_uint-Without colon n (unfold is_digit in refl)

-- Metadata keys are told apart where the buckets hold no colon.
pub object_meta_key-injective :
    (b k c l : Bytes)
    → Without colon b
    → Without colon c
    → object_meta_key b k ≡ object_meta_key c l
    → (b ≡ c) × (k ≡ l)
unfolding object_meta_key
object_meta_key-injective b k c l hb hc e = first_colon b k c l hb hc (ground arith)

-- Chunk keys are always told apart.
pub chunk_key-injective :
    (a b : Bytes) (i j : ℕ) → chunk_key a i ≡ chunk_key b j → (a ≡ b) × (i ≡ j)
unfolding chunk_key
chunk_key-injective a b i j e =
    let (same, digits) =
      last_colon a (print_uint i) b (print_uint j) (print_uint-colon i) (print_uint-colon j)
        (ground arith) in
    (same, print_uint-injective i j digits)

-- The four kinds of keys never meet.
pub chunk-ne-meta :
    (a : Bytes) (i : ℕ) (b k : Bytes) → bytes_eq (chunk_key a i) (object_meta_key b k) ≡ false
unfolding chunk_key object_meta_key bytes_eq
chunk-ne-meta a i b k = refl

pub index-ne-meta :
    (c l b k : Bytes) → bytes_eq (bucket_index_key c l) (object_meta_key b k) ≡ false
unfolding bucket_index_key object_meta_key bytes_eq
index-ne-meta c l b k = refl

pub chunk-ne-index :
    (a : Bytes) (i : ℕ) (b k : Bytes) → bytes_eq (chunk_key a i) (bucket_index_key b k) ≡ false
unfolding chunk_key bucket_index_key bytes_eq
chunk-ne-index a i b k = refl

pub meta-ne-chunk :
    (b k : Bytes) (a : Bytes) (i : ℕ) → bytes_eq (object_meta_key b k) (chunk_key a i) ≡ false
unfolding chunk_key object_meta_key bytes_eq
meta-ne-chunk b k a i = refl

pub index-ne-chunk :
    (b k : Bytes) (a : Bytes) (i : ℕ) → bytes_eq (bucket_index_key b k) (chunk_key a i) ≡ false
unfolding chunk_key bucket_index_key bytes_eq
index-ne-chunk b k a i = refl

-- A bucket with a colon shares keys with another bucket: the parts of a key that joins them with a
-- colon can be split at either colon.
pub object_meta_key-collides :
    (b c k : Bytes) → object_meta_key (b ++ colon ∷ c) k ≡ object_meta_key b (c ++ colon ∷ k)
unfolding object_meta_key
object_meta_key-collides b c k =
    ap (λ x. codes "objmeta:" ++ x) (append_assoc b (colon ∷ c) (colon ∷ k))
