-- ===== src/ObjectStore/Metadata.antt =====
-- The texts of object and bucket metadata.
use veri_store.Common.{
  ℕ, ◌%◌, ◌^◌, ◌<◌, ◌≡◌, refl, ap, ◌∙◌, Option, none, some, List, [], ◌∷◌, ◌++◌, Bytes, arith,
}
use veri_store.Text.{tab, is_digit, print_uint, u64_mod}
use veri_store.Text.Decimal.{print_uint-ne-nil}
use veri_store.Text.Numbers.{
  pieces, stoull, stoi_byte, Without, pieces-piece, pieces-last, stoull-print, stoi_byte-print,
  print_uint-Without,
}
use veri_store.ObjectStore.Types.{ObjectState, state_code, state_of, BucketMetadata, ObjectMetadata}

infixl 5 ◌>>=◌
abbrev pub ◌>>=◌ {ℓ κ} : {A : Type ℓ} {B : Type κ} → Option A → (A → Option B) → Option B
none >>= f = none
some a >>= f = f a

abbrev pub u32_mod : ℕ
u32_mod = 2 ^ 32

unfoldable pub serialize_metadata : ObjectMetadata → Bytes
serialize_metadata m =
    m.object_id
    ++ tab
      ∷ (m.bucket
          ++ tab
            ∷ (m.key
                ++ tab
                  ∷ (print_uint m.size_bytes
                      ++ tab
                        ∷ (print_uint m.chunk_count
                            ++ tab
                              ∷ (print_uint m.chunk_size_bytes
                                  ++ tab
                                    ∷ (m.content_type
                                        ++ tab
                                          ∷ (m.etag
                                              ++ tab
                                                ∷ (print_uint m.created_at_epoch_ms
                                                    ++ tab
                                                      ∷ (print_uint m.updated_at_epoch_ms
                                                          ++ tab
                                                            ∷ print_uint
                                                            (state_code m.state))))))))))

-- The numbers among the pieces; a text that is none is an exception.
unfoldable pub metadata_of :
    Bytes
    → Bytes
    → Bytes
    → Bytes
    → Bytes
    → Bytes
    → Bytes
    → Bytes
    → Bytes
    → Bytes
    → Bytes
    → Option ObjectMetadata
metadata_of id bucket key size count chunk content_type etag created updated state = do
  size_bytes ← stoull size
  chunk_count ← stoull count
  chunk_size_bytes ← stoull chunk
  created_at ← stoull created
  updated_at ← stoull updated
  state_int ← stoi_byte state
  some (record {
    object_id = id;
    bucket = bucket;
    key = key;
    size_bytes = size_bytes;
    chunk_count = chunk_count % u32_mod;
    chunk_size_bytes = chunk_size_bytes % u32_mod;
    content_type = content_type;
    etag = etag;
    created_at_epoch_ms = created_at;
    updated_at_epoch_ms = updated_at;
    state = state_of state_int;
  })

abbrev from_pieces : List Bytes → Option ObjectMetadata
from_pieces
      (id ∷ bucket ∷ key ∷ size ∷ count ∷ chunk ∷ content_type ∷ etag ∷ created ∷ updated ∷ state
        ∷ ps) =
    metadata_of id bucket key size count chunk content_type etag created updated state
from_pieces ps = none

unfoldable pub deserialize_metadata : Bytes → Option ObjectMetadata
unfolding metadata_of pieces
deserialize_metadata text = from_pieces (pieces tab text)

unfoldable pub serialize_bucket_meta : BucketMetadata → Bytes
serialize_bucket_meta b = b.name ++ tab ∷ print_uint b.created_at_epoch_ms

abbrev bucket_from_pieces : List Bytes → Option BucketMetadata
bucket_from_pieces (name ∷ created ∷ ps) =
    stoull created >>= λ created_at. some (record { name = name; created_at_epoch_ms = created_at })
bucket_from_pieces ps = none

unfoldable pub deserialize_bucket_meta : Bytes → Option BucketMetadata
unfolding pieces
deserialize_bucket_meta text = bucket_from_pieces (pieces tab text)

-- A state that is one byte, and one of the three if its byte is theirs.
abbrev pub GoodState : ObjectState → Type 0
GoodState s = (state_code s < 256) × (state_of (state_code s) ≡ s)

-- Metadata that the text format keeps.
pub record Keepable (m : ObjectMetadata) : Type 0 where
  pub id_tabless : Without tab m.object_id
  pub bucket_tabless : Without tab m.bucket
  pub key_tabless : Without tab m.key
  pub type_tabless : Without tab m.content_type
  pub etag_tabless : Without tab m.etag
  pub size_fits : m.size_bytes < u64_mod
  pub count_fits : m.chunk_count < u32_mod
  pub chunk_fits : m.chunk_size_bytes < u32_mod
  pub created_fits : m.created_at_epoch_ms < u64_mod
  pub updated_fits : m.updated_at_epoch_ms < u64_mod
  pub good_state : GoodState m.state

digits_tabless : (n : ℕ) → Without tab (print_uint n)
digits_tabless n = print_uint-Without tab n (unfold is_digit in refl)

pieces_number :
    (n : ℕ) (rest : Bytes)
    → pieces tab (print_uint n ++ tab ∷ rest) ≡ print_uint n ∷ pieces tab rest
pieces_number n rest = pieces-piece tab (print_uint n) rest (digits_tabless n)

pieces-serialize_metadata :
    (m : ObjectMetadata)
    → Keepable m
    → pieces tab (serialize_metadata m)
      ≡ m.object_id
        ∷ m.bucket
        ∷ m.key
        ∷ print_uint m.size_bytes
        ∷ print_uint m.chunk_count
        ∷ print_uint m.chunk_size_bytes
        ∷ m.content_type
        ∷ m.etag
        ∷ print_uint m.created_at_epoch_ms
        ∷ print_uint m.updated_at_epoch_ms
        ∷ print_uint (state_code m.state)
        ∷ []
unfolding serialize_metadata
pieces-serialize_metadata m h = rw (pieces-piece tab m.object_id _ h.id_tabless) (
    rw (pieces-piece tab m.bucket _ h.bucket_tabless) (
      rw (pieces-piece tab m.key _ h.key_tabless) (
        rw (pieces_number m.size_bytes) (
          rw (pieces_number m.chunk_count) (
            rw (pieces_number m.chunk_size_bytes) (
              rw (pieces-piece tab m.content_type _ h.type_tabless) (
                rw (pieces-piece tab m.etag _ h.etag_tabless) (
                  rw (pieces_number m.created_at_epoch_ms) (
                    rw (pieces_number m.updated_at_epoch_ms) (
                      rw
                        (pieces-last tab (print_uint (state_code m.state))
                          (print_uint-ne-nil (state_code m.state))
                          (digits_tabless (state_code m.state)))
                        refl))))))))))

metadata_of-printed :
    (m : ObjectMetadata)
    → Keepable m
    → metadata_of m.object_id m.bucket m.key
        (print_uint m.size_bytes)
        (print_uint m.chunk_count)
        (print_uint m.chunk_size_bytes)
        m.content_type
        m.etag
        (print_uint m.created_at_epoch_ms)
        (print_uint m.updated_at_epoch_ms)
        (print_uint (state_code m.state))
      ≡ some m
unfolding metadata_of
metadata_of-printed m h =
    let count : m.chunk_count % u32_mod ≡ m.chunk_count = omega (arith, h.count_fits) in
    let chunk : m.chunk_size_bytes % u32_mod ≡ m.chunk_size_bytes = omega (arith, h.chunk_fits) in
    rw (stoull-print m.size_bytes h.size_fits) (
      rw (stoull-print m.chunk_count (omega (arith, h.count_fits))) (
        rw (stoull-print m.chunk_size_bytes (omega (arith, h.chunk_fits))) (
          rw (stoull-print m.created_at_epoch_ms h.created_fits) (
            rw (stoull-print m.updated_at_epoch_ms h.updated_fits) (
              rw (stoi_byte-print (state_code m.state) h.good_state.0)
                (rw count (rw chunk (rw (h.good_state.1) refl))))))))

-- Metadata that was written is read back, if its texts hold no tab and its numbers fit their types.
pub deserialize-serialize_metadata :
    (m : ObjectMetadata) → Keepable m → deserialize_metadata (serialize_metadata m) ≡ some m
unfolding deserialize_metadata
deserialize-serialize_metadata m h =
    ap from_pieces (pieces-serialize_metadata m h) ∙ metadata_of-printed m h
