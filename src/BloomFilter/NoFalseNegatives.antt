-- ===== src/BloomFilter/NoFalseNegatives.antt =====
-- A filter never denies a key that was added.
use veri_store.Common.{
  ℕ, zero, suc, ◌+◌, ◌<◌, ◌≡◌, refl, sym, true, List, [], ◌∷◌, arith, Bytes, In, inl, inr,
}
use mathlib.Core.Path.{subst}
use native.Mathlib.Nat.{mod-lt}
use veri_store.BloomFilter.{
  BloomFilter, new_filter, set_bit, get_bit, bit_of, add_from, add, contains_from,
  possibly_contains, u64_mod,
}
use veri_store.BloomFilter.Bits.{IsValid, get_bit-set_bit, set_bit-IsValid, new_filter-IsValid}

-- `g` has the shape of `f`, and every bit that `f` has.
record Extends (f g : BloomFilter) : Type 0 where
  same_bits : g.bit_count ≡ f.bit_count
  same_hashes : g.hash_count ≡ f.hash_count
  keeps : (j : ℕ) → get_bit j f ≡ true → get_bit j g ≡ true

Extends-refl : (f : BloomFilter) → Extends f f
Extends-refl f = record { same_bits = refl; same_hashes = refl; keeps = λ j h. h }

Extends-trans : (f g h : BloomFilter) → Extends f g → Extends g h → Extends f h
Extends-trans f g h p q = record {
  same_bits = omega (arith, p.same_bits, q.same_bits);
  same_hashes = omega (arith, p.same_hashes, q.same_hashes);
  keeps = λ j e. q.keeps j (p.keeps j e);
}

bit_of-lt : (f : BloomFilter) (key : Bytes) (i : ℕ) → IsValid f → bit_of f key i < f.bit_count
unfolding bit_of
bit_of-lt f key i h = mod-lt _ h.nonzero

set_bit-Extends : (f : BloomFilter) (i : ℕ) → IsValid f → i < f.bit_count → Extends f (set_bit i f)
set_bit-Extends f i h lt = record {
  same_bits = unfold set_bit in refl;
  same_hashes = unfold set_bit in refl;
  keeps = λ j e. ground (arith, get_bit-set_bit f i j h lt);
}

bit_of-Extends :
    (f g : BloomFilter) (key : Bytes) (i : ℕ) → Extends f g → bit_of g key i ≡ bit_of f key i
unfolding bit_of
bit_of-Extends f g key i e = rw (e.same_bits)

-- The rounds of `add` keep the filter valid and extend it.
add_from_lem :
    (left i : ℕ) (key : Bytes) (f : BloomFilter)
    → IsValid f
    → IsValid (add_from left i key f) × Extends f (add_from left i key f)
unfolding add_from
add_from_lem zero i key f h = (h, Extends-refl f)
add_from_lem (suc left) i key f h =
    let b = bit_of f key i in
    let (valid, grows) = add_from_lem left (i + 1) key (set_bit b f) (set_bit-IsValid f b h) in
    (valid, Extends-trans f (set_bit b f) _ (set_bit-Extends f b h (bit_of-lt f key i h)) grows)

add-IsValid : (key : Bytes) (f : BloomFilter) → IsValid f → IsValid (add key f)
unfolding add
add-IsValid key f h = (add_from_lem f.hash_count 0 key f h).0

add-Extends : (key : Bytes) (f : BloomFilter) → IsValid f → Extends f (add key f)
unfolding add
add-Extends key f h = (add_from_lem f.hash_count 0 key f h).1

-- In a filter that extends the one left by the rounds of `add`, every round of the test passes.
contains_from-add_from :
    (left i : ℕ) (key : Bytes) (f g : BloomFilter)
    → IsValid f
    → Extends (add_from left i key f) g
    → contains_from left i key g ≡ true
unfolding add_from contains_from
contains_from-add_from zero i key f g h e = refl
contains_from-add_from (suc left) i key f g h e =
    let b = bit_of f key i in
    let set = set_bit b f in
    let valid = set_bit-IsValid f b h in
    let grows =
      Extends-trans set (add_from left (i + 1) key set) g
        (add_from_lem left (i + 1) key set valid).1 e in
    let start = Extends-trans f set g (set_bit-Extends f b h (bit_of-lt f key i h)) grows in
    let on : get_bit b g ≡ true =
      grows.keeps b (ground (arith, get_bit-set_bit f b b h (bit_of-lt f key i h))) in
    rw (bit_of-Extends f g key i start, on) (contains_from-add_from left (i + 1) key set g valid e)

contains-Extends :
    (key : Bytes) (f g : BloomFilter)
    → IsValid f
    → Extends (add key f) g
    → possibly_contains key g ≡ true
unfolding add possibly_contains
contains-Extends key f g h e =
    let start = Extends-trans f (add key f) g (add-Extends key f h) e in
    subst (λ (c : ℕ). contains_from c 0 key g ≡ true) (sym start.same_hashes)
      (contains_from-add_from f.hash_count 0 key f g h e)

-- The filter after all the keys have been added, in order.
unfoldable pub add_all : List Bytes → BloomFilter → BloomFilter
add_all [] f = f
add_all (k ∷ ks) f = add_all ks (add k f)

add_all-Extends : (ks : List Bytes) (f : BloomFilter) → IsValid f → Extends f (add_all ks f)
unfolding add_all
add_all-Extends [] f h = Extends-refl f
add_all-Extends (k ∷ ks) f h =
    Extends-trans f (add k f) _ (add-Extends k f h)
      (add_all-Extends ks (add k f) (add-IsValid k f h))

-- Every key that was added to a valid filter is possibly contained, whatever was added after it.
pub no_false_negatives :
    (ks : List Bytes) (key : Bytes) (f : BloomFilter)
    → IsValid f
    → In key ks
    → possibly_contains key (add_all ks f) ≡ true
unfolding add_all
no_false_negatives [] key f h i = absurd i
no_false_negatives (k ∷ ks) key f h (inl e) =
    rw e (contains-Extends k f _ h (add_all-Extends ks (add k f) (add-IsValid k f h)))
no_false_negatives (k ∷ ks) key f h (inr i) =
    no_false_negatives ks key (add k f) (add-IsValid k f h) i

-- The same from the constructor, for a size that does not wrap around.
pub new_filter_no_false_negatives :
    (bit_count hash_count : ℕ) (ks : List Bytes) (key : Bytes)
    → bit_count + 7 < u64_mod
    → In key ks
    → possibly_contains key (add_all ks (new_filter bit_count hash_count)) ≡ true
new_filter_no_false_negatives bit_count hash_count ks key h =
    no_false_negatives ks key (new_filter bit_count hash_count)
      (new_filter-IsValid bit_count hash_count h)
