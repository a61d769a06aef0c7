-- ===== src/Common/Maps.antt =====
-- `std::map<std::string, V>` as an association list in ascending key order: `find`, `operator[]`,
-- `insert`, `erase`. `std::unordered_map` is modelled by the same type: no theorem depends on the
-- order in which it is walked.
use mathlib.Core.Path.{◌≡◌, refl}
use mathlib.Core.Bool.{true}
use mathlib.Core.List.{List, [], ◌∷◌}
use mathlib.Core.Option.{Option, none, some}
use native.Mathlib.Omega.{arith}
use veri_store.Common.Tests.{if◌then◌else◌}
use veri_store.Common.Strings.{
  Bytes, bytes_eq, bytes_lt, bytes_eq_iff, bytes_lt_trans, bytes_lt_total, bytes_lt_irrefl,
}

abbrev pub Dict {ℓ} : Type ℓ → Type ℓ
Dict V = List (Bytes × V)

abbrev pub default_to {ℓ} : {V : Type ℓ} → V → Option V → V
default_to d none = d
default_to d (some v) = v

module _ {ℓ} {V : Type ℓ} where
  unfoldable pub find : Bytes → Dict V → Option V
  find k [] = none
  find k ((j, v) ∷ m) = if bytes_eq j k then some v else find k m

  -- `f(m[k])`: a missing key is first inserted, in order, with the value `d`.
  unfoldable pub modify : Bytes → V → (V → V) → Dict V → Dict V
  modify k d f [] = (k, f d) ∷ []
  modify k d f ((j, v) ∷ m) =
      let rest = modify k d f m in
      if bytes_eq j k
      then (j, f v) ∷ m
      else if bytes_lt k j
      then (k, f d) ∷ (j, v) ∷ m
      else (j, v) ∷ rest

  -- `m[k] = v`
  unfoldable pub insert : Bytes → V → Dict V → Dict V
  unfolding modify
  insert k v = modify k v (λ _. v)

  unfoldable pub erase : Bytes → Dict V → Dict V
  erase k [] = []
  erase k ((j, v) ∷ m) = let rest = erase k m in if bytes_eq j k then rest else (j, v) ∷ rest

  -- Every key of `m` lies above `k`.
  abbrev pub AllAbove : Bytes → Dict V → Type 0
  AllAbove k [] = Unit
  AllAbove k ((j, v) ∷ m) = (bytes_lt k j ≡ true) × AllAbove k m

  -- The keys ascend strictly, as those of a `std::map` do.
  abbrev pub IsSorted : Dict V → Type 0
  IsSorted [] = Unit
  IsSorted ((k, v) ∷ m) = AllAbove k m × IsSorted m

  abbrev pub keys : Dict V → List Bytes
  keys [] = []
  keys ((k, v) ∷ m) = k ∷ keys m

  pub AllAbove-trans :
      (k j : Bytes) (m : Dict V) → bytes_lt k j ≡ true → AllAbove j m → AllAbove k m
  AllAbove-trans k j [] p h = tt
  AllAbove-trans k j ((i, v) ∷ m) p (q, h) = (bytes_lt_trans k j i p q, AllAbove-trans k j m p h)

  -- A key that lies below all keys of a map is not in it.
  pub AllAbove-find : (k : Bytes) (m : Dict V) → AllAbove k m → find k m ≡ none
  unfolding find
  AllAbove-find k [] h = refl
  AllAbove-find k ((j, v) ∷ m) (q, h) =
      ground (arith, AllAbove-find k m h, bytes_eq_iff j k, bytes_lt_irrefl k)

  pub find-modify :
      (k j : Bytes) (d : V) (f : V → V) (m : Dict V)
      → IsSorted m
      → find j (modify k d f m)
        ≡ (if bytes_eq k j then some (f (default_to d (find k m))) else find j m)
  unfolding find modify
  find-modify k j d f [] s = refl
  find-modify k j d f ((i, v) ∷ m) (a, s) = ground (
    arith,
    find-modify k j d f m s,
    bytes_eq_iff i k,
    bytes_eq_iff i j,
    bytes_eq_iff k j,
    AllAbove-find k m,
    AllAbove-trans k i m,
  )

  pub find-insert :
      (k j : Bytes) (v : V) (m : Dict V)
      → find j (insert k v m) ≡ (if bytes_eq k j then some v else find j m)
  unfolding insert find
  find-insert k j v [] = refl
  find-insert k j v ((i, w) ∷ m) =
      ground (arith, find-insert k j v m, bytes_eq_iff i k, bytes_eq_iff i j, bytes_eq_iff k j)

  pub find-erase :
      (k j : Bytes) (m : Dict V) → find j (erase k m) ≡ (if bytes_eq k j then none else find j m)
  unfolding find erase
  find-erase k j [] = ground arith
  find-erase k j ((i, v) ∷ m) =
      ground (arith, find-erase k j m, bytes_eq_iff i k, bytes_eq_iff i j, bytes_eq_iff k j)

  pub AllAbove-modify :
      (i k : Bytes) (d : V) (f : V → V) (m : Dict V)
      → bytes_lt i k ≡ true
      → AllAbove i m
      → AllAbove i (modify k d f m)
  unfolding modify
  AllAbove-modify i k d f [] p h = (p, tt)
  AllAbove-modify i k d f ((j, v) ∷ m) p (q, h) = ground (arith, AllAbove-modify i k d f m p h)

  pub AllAbove-erase : (i k : Bytes) (m : Dict V) → AllAbove i m → AllAbove i (erase k m)
  unfolding erase
  AllAbove-erase i k [] h = tt
  AllAbove-erase i k ((j, v) ∷ m) (q, h) = ground (arith, AllAbove-erase i k m h)

  pub modify-IsSorted :
      (k : Bytes) (d : V) (f : V → V) (m : Dict V) → IsSorted m → IsSorted (modify k d f m)
  unfolding modify
  modify-IsSorted k d f [] h = (tt, tt)
  modify-IsSorted k d f ((j, v) ∷ m) (q, h) = ground (
    arith,
    modify-IsSorted k d f m h,
    AllAbove-trans k j m,
    bytes_lt_total k j,
    bytes_eq_iff j k,
    bytes_eq_iff k j,
    AllAbove-modify j k d f m,
  )

  pub erase-IsSorted : (k : Bytes) (m : Dict V) → IsSorted m → IsSorted (erase k m)
  unfolding erase
  erase-IsSorted k [] h = tt
  erase-IsSorted k ((j, v) ∷ m) (q, h) =
      ground (arith, erase-IsSorted k m h, AllAbove-erase j k m q)
