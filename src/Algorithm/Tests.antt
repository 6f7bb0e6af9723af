-- ===== src/Algorithm/Tests.antt =====
-- The set operations and the lower bound on small arrays.
use Prim.Native.Nat.{Ordering, compare}
use mdb_linux.Base.{
  ℕ, ◌≡◌, ◌≢◌, ap, ◌∙◌, sym, some-eq-some, zero, suc, ◌<◌, ◌||◌, List, [], ◌∷◌, some, get_elem?,
  arith,
}
use mdb_linux.Algorithm.{union_u32, lower_bound, index}
use mdb_linux.Algorithm.Sets.{IsAscending, contains, union_u32_lem}
use mdb_linux.Algorithm.LowerBound.{IsOrdered, Splits, lower_bound-Splits}

abbrev odd : List ℕ
odd = 1 ∷ 3 ∷ 5 ∷ []

abbrev few : List ℕ
few = 3 ∷ 4 ∷ []

odd-IsAscending : IsAscending odd
odd-IsAscending = (omega arith, (omega arith, tt))

few-IsAscending : IsAscending few
few-IsAscending = (omega arith, tt)

union_u32_example :
    IsAscending (union_u32 odd few)
    × ((k : ℕ) → contains k (union_u32 odd few) ≡ (contains k odd || contains k few))
union_u32_example = union_u32_lem odd few odd-IsAscending few-IsAscending

abbrev pair : List ℕ
pair = 1 ∷ 5 ∷ []

pair_less :
    (i j x y : ℕ)
    → i < j
    → get_elem? pair i ≡ some x
    → get_elem? pair j ≡ some y
    → compare 3 x ≢ Ordering.gt
    → compare 3 y ≡ Ordering.lt
pair_less zero zero x y l f g n = absurd (omega arith)
pair_less zero (suc zero) x y l f g n = absurd (n (ap (compare 3) (sym (some-eq-some f))))
pair_less i (suc (suc j)) x y l f g n = cc
pair_less (suc i) zero x y l f g n = absurd (omega arith)
pair_less (suc i) (suc zero) x y l f g n = absurd (omega arith)

pair_greater :
    (i j x y : ℕ)
    → i < j
    → get_elem? pair i ≡ some x
    → get_elem? pair j ≡ some y
    → compare 3 y ≢ Ordering.lt
    → compare 3 x ≡ Ordering.gt
pair_greater zero zero x y l f g n = absurd (omega arith)
pair_greater zero (suc zero) x y l f g n = ap (compare 3) (sym (some-eq-some f))
pair_greater i (suc (suc j)) x y l f g n = cc
pair_greater (suc i) zero x y l f g n = absurd (omega arith)
pair_greater (suc i) (suc zero) x y l f g n = absurd (omega arith)

pair-IsOrdered : IsOrdered (compare 3) pair
pair-IsOrdered = record { less = pair_less; greater = pair_greater }

pair_first : (x : ℕ) → get_elem? pair 0 ≡ some x → compare 3 x ≢ Ordering.lt
pair_first x h e =
    let p : Ordering.gt ≡ Ordering.lt = ap (compare 3) (some-eq-some h) ∙ e in
    absurd (ground (arith, p))

lower_bound-Splits_example :
    (i : ℕ) × (lower_bound (compare 3) pair ≡ index i) × Splits (compare 3) pair i
lower_bound-Splits_example =
    lower_bound-Splits (compare 3) pair pair-IsOrdered pair_first (omega arith)
