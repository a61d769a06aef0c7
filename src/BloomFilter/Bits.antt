-- ===== src/BloomFilter/Bits.antt =====
-- `set_bit` and `get_bit` on a valid filter.
use Prim.Native.Nat.{bit_and, bit_or}
use veri_store.Common.{
  ℕ, zero, suc, ◌+◌, ◌*◌, ◌/◌, ◌%◌, ◌^◌, ◌<◌, ◌≤◌, ◌≡◌, refl, max, Bool, true, false, not, ◌&&◌,
  ◌||◌, List, [], ◌∷◌, arith, get_or, set, length, ltb, ◌==◌, if◌then◌else◌, All, length-set,
  length-replicate, replicate,
}
use veri_store.BloomFilter.{BloomFilter, new_filter, set_bit, get_bit, u64_mod}

-- As many bytes as the bits need, each of eight bits.
pub record IsValid (f : BloomFilter) : Type 0 where
  pub nonzero : 0 < f.bit_count
  pub room : f.bit_count ≤ length f.bits * 8
  pub octets : All (λ b. b < 256) f.bits

-- A test that every number under a bound passes.
holds_under : (ℕ → Bool) → ℕ → Bool
holds_under test zero = true
holds_under test (suc bound) = if test bound then holds_under test bound else false

holds_under_lem :
    (test : ℕ → Bool) (bound i : ℕ) → i < bound → holds_under test bound ≡ true → test i ≡ true
unfolding holds_under
holds_under_lem test zero i lt h = absurd (omega arith)
holds_under_lem test (suc bound) i lt h = ground (arith, holds_under_lem test bound i)

abbrev bit_on : ℕ → ℕ → Bool
bit_on v o = not (bit_and v (2 ^ o % 256) == 0)

abbrev with_bit : ℕ → ℕ → ℕ
with_bit v o = bit_or v (2 ^ o % 256)

abbrev iff : Bool → Bool → Bool
iff true b = b
iff false b = not b

-- A bit is on after another is set exactly if it is that bit or was on; the byte stays a byte.
byte_law : ℕ → ℕ → ℕ → Bool
byte_law v o q = iff (bit_on (with_bit v o) q) (o == q || bit_on v q) && ltb (with_bit v o) 256

byte_table : holds_under (λ v. holds_under (λ o. holds_under (byte_law v o) 8) 8) 256 ≡ true
unfolding holds_under byte_law
byte_table = refl

byte_law_holds : (v o q : ℕ) → v < 256 → o < 8 → q < 8 → byte_law v o q ≡ true
byte_law_holds v o q hv ho hq = holds_under_lem (byte_law v o) 8 q hq (
    holds_under_lem (λ o. holds_under (byte_law v o) 8) 8 o ho
      (holds_under_lem (λ v. holds_under (λ o. holds_under (byte_law v o) 8) 8) 256 v hv
        byte_table))

bit_on-with_bit :
    (v o q : ℕ) → v < 256 → o < 8 → q < 8 → bit_on (with_bit v o) q ≡ (o == q || bit_on v q)
unfolding byte_law
bit_on-with_bit v o q hv ho hq = ground (arith, byte_law_holds v o q hv ho hq)

with_bit-octet : (v o : ℕ) → v < 256 → o < 8 → with_bit v o < 256
unfolding byte_law
with_bit-octet v o hv ho = ground (arith, byte_law_holds v o 0 hv ho (omega arith))

get_or-set :
    (xs : List ℕ) (i j v : ℕ)
    → i < length xs
    → get_or (set xs i v) j 0 ≡ (if i == j then v else get_or xs j 0)
get_or-set [] i j v h = absurd (omega arith)
get_or-set (x ∷ xs) zero zero v h = refl
get_or-set (x ∷ xs) zero (suc j) v h = ground arith
get_or-set (x ∷ xs) (suc i) zero v h = ground arith
get_or-set (x ∷ xs) (suc i) (suc j) v h = ground (arith, get_or-set xs i j v (omega arith))

octet_at : (xs : List ℕ) (i : ℕ) → All (λ b. b < 256) xs → get_or xs i 0 < 256
octet_at [] i a = omega arith
octet_at (x ∷ xs) zero a = a.0
octet_at (x ∷ xs) (suc i) a = octet_at xs i a.1

set-octets :
    (xs : List ℕ) (i v : ℕ) → v < 256 → All (λ b. b < 256) xs → All (λ b. b < 256) (set xs i v)
set-octets [] i v h a = tt
set-octets (x ∷ xs) zero v h a = (h, a.1)
set-octets (x ∷ xs) (suc i) v h a = (a.0, set-octets xs i v h a.1)

replicate-octets : (n : ℕ) → All (λ b. b < 256) (replicate n 0)
replicate-octets zero = tt
replicate-octets (suc n) = (omega arith, replicate-octets n)

-- In a valid filter, after setting a bit within its bits, that bit is on and the others are as
-- they were.
pub get_bit-set_bit :
    (f : BloomFilter) (i j : ℕ)
    → IsValid f
    → i < f.bit_count
    → get_bit j (set_bit i f) ≡ (i == j || get_bit j f)
unfolding get_bit set_bit
get_bit-set_bit f i j h lt = ground (
  arith,
  get_or-set f.bits (i / 8) (j / 8) (with_bit (get_or f.bits (i / 8) 0) (i % 8)),
  bit_on-with_bit (get_or f.bits (i / 8) 0) (i % 8) (j % 8) (octet_at f.bits (i / 8) h.octets)
      (omega arith) (omega arith),
  h.room,
)

pub set_bit-IsValid : (f : BloomFilter) (i : ℕ) → IsValid f → IsValid (set_bit i f)
unfolding set_bit
set_bit-IsValid f i h = record {
  nonzero = h.nonzero;
  room =
      omega (arith, h.room, length-set f.bits (i / 8) (with_bit (get_or f.bits (i / 8) 0) (i % 8)));
  octets =
      set-octets f.bits (i / 8) _
        (with_bit-octet (get_or f.bits (i / 8) 0) (i % 8) (octet_at f.bits (i / 8) h.octets)
          (omega arith))
        h.octets;
}

-- A new filter whose size does not wrap around is valid.
pub new_filter-IsValid :
    (bit_count hash_count : ℕ) → bit_count + 7 < u64_mod → IsValid (new_filter bit_count hash_count)
unfolding new_filter
new_filter-IsValid bit_count hash_count h = record {
  nonzero = omega arith;
  room = omega (arith, length-replicate ((max bit_count 8 + 7) % u64_mod / 8) (let z : ℕ = 0 in z));
  octets = replicate-octets ((max bit_count 8 + 7) % u64_mod / 8);
}
