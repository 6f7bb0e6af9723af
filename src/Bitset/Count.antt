-- ===== src/Bitset/Count.antt =====
-- mdv_bitset_count against the positions below the size.
use mdb_linux.Base.{
  ℕ, zero, suc, ◌+◌, ◌<◌, ◌≡◌, ap, ◌∙◌, true, false, not, ◌&&◌, ◌||◌, some, ◌==◌, if◌then◌else◌,
  ltb, leb, arith,
}
use mdb_linux.Bitset.{Bitset, set_bit, test, count_from, count, capacity}
use mdb_linux.Bitset.Positions.{IsValid, test-set_bit, capacity_bounds}

-- Every position counts once, as set or as not set.
count_from-both : (s : Bitset) (n i : ℕ) → count_from s true n i + count_from s false n i ≡ n
unfolding count_from
count_from-both s zero i = omega arith
count_from-both s (suc n) i = ground (arith, count_from-both s n (i + 1))

-- The positions that are set and those that are not make up the size.
pub count-both : (s : Bitset) → count s true + count s false ≡ s.size
unfolding count
count-both s = count_from-both s s.size 0

-- Two sets that differ in position `k` alone, where the first lacks it.
module _ (s t : Bitset) (k : ℕ) (lacks : test (some s) k ≡ false)
    (differ : (j : ℕ) → test (some t) j ≡ ((k == j) || test (some s) j)) where
  count_from-differ :
      (n i : ℕ)
      → count_from t true n i ≡ count_from s true n i + (if leb i k && ltb k (i + n) then 1 else 0)
  unfolding count_from
  count_from-differ zero i = ground arith
  count_from-differ (suc n) i = rw (differ i) (ground (arith, count_from-differ n (i + 1), lacks))

size-set_bit : (s : Bitset) (k : ℕ) → (set_bit s k).1.size ≡ s.size
unfolding set_bit
size-set_bit s k = ground arith

-- Setting a position below the size that a valid set does not hold adds one to the count, and the
-- result says so.
pub count-set_bit :
    (s : Bitset) (k : ℕ)
    → IsValid s
    → k < s.size
    → test (some s) k ≡ false
    → (count (set_bit s k).1 true ≡ count s true + 1) × ((set_bit s k).0 ≡ true)
unfolding count
count-set_bit s k v h lacks =
    let within : k < capacity s = omega (arith, capacity_bounds s v.small) in
    (
      rw (size-set_bit s k) (
          count_from-differ s (set_bit s k).1 k lacks (λ j. (test-set_bit s k j v within).0) s.size
            0
          ∙ ground arith),
      (test-set_bit s k k v within).1 ∙ ap not lacks,
    )
