-- ===== src/BloomFilter/Tests.antt =====
-- A small Bloom filter, and the theorems about it applied there.
use veri_store.Common.{◌≡◌, refl, true, false, List, [], ◌∷◌, Bytes, codes, arith, inl, inr}
use veri_store.BloomFilter.{
  new_filter, set_bit, get_bit, bit_of, hash_with_seed, possibly_contains, add,
}
use veri_store.BloomFilter.Bits.{IsValid, new_filter-IsValid}
use veri_store.BloomFilter.NoFalseNegatives.{add_all, no_false_negatives}

abbrev some_keys : List Bytes
some_keys = codes "alpha" ∷ codes "beta" ∷ []

denies_others : possibly_contains (codes "gamma") (add_all some_keys (new_filter 64 3)) ≡ false
unfolding possibly_contains add_all add new_filter set_bit get_bit bit_of hash_with_seed
denies_others = refl

small-IsValid : IsValid (new_filter 64 3)
small-IsValid = new_filter-IsValid 64 3 (unfold new_filter in omega arith)

no_false_negatives_example :
    possibly_contains (codes "beta") (add_all some_keys (new_filter 64 3)) ≡ true
no_false_negatives_example =
    no_false_negatives some_keys (codes "beta") (new_filter 64 3) small-IsValid (inr (inl refl))
