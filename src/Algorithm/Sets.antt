-- ===== src/Algorithm/Sets.antt =====
-- The merges of mdv_algorithm.c against membership in sets.
use Prim.Native.Nat.{Ordering, compare}
use mdb_linux.Base.{
  ℕ, ◌≤◌, ◌<◌, ◌≡◌, refl, inl, inr, Bool, false, not, ◌&&◌, ◌||◌, List, [], ◌∷◌, map, ltb, ◌==◌,
  arith, Bool-cases,
}
use mdb_linux.Algorithm.{diff_u32, union_u32, exclude}

-- All items are above `lo`, each above the one before.
abbrev pub Above : ℕ → List ℕ → Type 0
Above lo [] = Unit
Above lo (x ∷ xs) = (lo < x) × Above x xs

-- A set as an array: strictly ascending.
abbrev pub IsAscending : List ℕ → Type 0
IsAscending [] = Unit
IsAscending (x ∷ xs) = Above x xs

abbrev pub contains : ℕ → List ℕ → Bool
contains k [] = false
contains k (x ∷ xs) = k == x || contains k xs

Above-IsAscending : (lo : ℕ) (xs : List ℕ) → Above lo xs → IsAscending xs
Above-IsAscending lo [] h = tt
Above-IsAscending lo (x ∷ xs) h = h.1

Above-weaken : (lo hi : ℕ) (xs : List ℕ) → lo ≤ hi → Above hi xs → Above lo xs
Above-weaken lo hi [] l h = tt
Above-weaken lo hi (x ∷ xs) l h = (omega arith, h.1)

not-contains : (k lo : ℕ) (xs : List ℕ) → Above lo xs → k ≤ lo → contains k xs ≡ false
not-contains k lo [] h l = refl
not-contains k lo (x ∷ xs) h l = ground (arith, not-contains k x xs h.1 (omega arith))

pub contains-diff :
    (k : ℕ) (xs ys : List ℕ)
    → IsAscending xs
    → IsAscending ys
    → contains k (diff_u32 xs ys) ≡ (contains k xs && not (contains k ys))
unfolding diff_u32
contains-diff k [] ys h g = refl
contains-diff k (x ∷ xs) [] h g = ground arith
contains-diff k (x ∷ xs) (y ∷ ys) h g = ground (
  arith,
  contains-diff k xs (y ∷ ys) (Above-IsAscending x xs h) g,
  contains-diff k xs ys (Above-IsAscending x xs h) (Above-IsAscending y ys g),
  contains-diff k (x ∷ xs) ys h (Above-IsAscending y ys g),
  not-contains k x xs h,
  not-contains k y ys g,
)

pub contains-union :
    (k : ℕ) (xs ys : List ℕ) → contains k (union_u32 xs ys) ≡ (contains k xs || contains k ys)
unfolding union_u32
contains-union k [] ys = refl
contains-union k (x ∷ xs) [] = ground arith
contains-union k (x ∷ xs) (y ∷ ys) =
    ground
      (arith, contains-union k xs (y ∷ ys), contains-union k xs ys, contains-union k (x ∷ xs) ys)

diff-Above : (lo : ℕ) (xs ys : List ℕ) → Above lo xs → Above lo (diff_u32 xs ys)
unfolding diff_u32
diff-Above lo [] ys h = tt
diff-Above lo (x ∷ xs) [] h = h
diff-Above lo (x ∷ xs) (y ∷ ys) h = elim (Bool-cases (ltb x y)) [
  | inl l ↦ rw l (h.0, diff-Above x xs (y ∷ ys) h.1)
  | inr l ↦ elim (Bool-cases (x == y)) [
    | inl e ↦ rw (l, e) (diff-Above lo xs ys (Above-weaken lo x xs (omega arith) h.1))
    | inr e ↦ rw (l, e) (diff-Above lo (x ∷ xs) ys h)
  ]
]

union-Above : (lo : ℕ) (xs ys : List ℕ) → Above lo xs → Above lo ys → Above lo (union_u32 xs ys)
unfolding union_u32
union-Above lo [] ys h g = g
union-Above lo (x ∷ xs) [] h g = h
union-Above lo (x ∷ xs) (y ∷ ys) h g = elim (Bool-cases (ltb y x)) [
  | inl l ↦ rw l (g.0, union-Above y (x ∷ xs) ys (ground arith, h.1) g.1)
  | inr l ↦ elim (Bool-cases (x == y)) [
    | inl e ↦ rw (l, e) (h.0, union-Above x xs ys h.1 (Above-weaken x y ys (ground arith) g.1))
    | inr e ↦ rw (l, e) (h.0, union-Above x xs (y ∷ ys) h.1 (ground arith, g.1))
  ]
]

diff-IsAscending : (xs ys : List ℕ) → IsAscending xs → IsAscending (diff_u32 xs ys)
unfolding diff_u32
diff-IsAscending [] ys h = tt
diff-IsAscending (x ∷ xs) [] h = h
diff-IsAscending (x ∷ xs) (y ∷ ys) h = elim (Bool-cases (ltb x y)) [
  | inl l ↦ rw l (diff-Above x xs (y ∷ ys) h)
  | inr l ↦ elim (Bool-cases (x == y)) [
    | inl e ↦ rw (l, e) (diff-IsAscending xs ys (Above-IsAscending x xs h))
    | inr e ↦ rw (l, e) (diff-IsAscending (x ∷ xs) ys h)
  ]
]

union-IsAscending :
    (xs ys : List ℕ) → IsAscending xs → IsAscending ys → IsAscending (union_u32 xs ys)
unfolding union_u32
union-IsAscending [] ys h g = g
union-IsAscending (x ∷ xs) [] h g = h
union-IsAscending (x ∷ xs) (y ∷ ys) h g = elim (Bool-cases (ltb y x)) [
  | inl l ↦ rw l (union-Above y (x ∷ xs) ys (ground arith, h) g)
  | inr l ↦ elim (Bool-cases (x == y)) [
    | inl e ↦ rw (l, e) (union-Above x xs ys h (Above-weaken x y ys (ground arith) g))
    | inr e ↦ rw (l, e) (union-Above x xs (y ∷ ys) h (ground arith, g))
  ]
]

-- For two strictly ascending arrays the difference is strictly ascending, and holds what the first
-- holds and the second does not.
pub diff_u32_lem :
    (xs ys : List ℕ)
    → IsAscending xs
    → IsAscending ys
    → IsAscending (diff_u32 xs ys)
      × ((k : ℕ) → contains k (diff_u32 xs ys) ≡ (contains k xs && not (contains k ys)))
diff_u32_lem xs ys h g = (diff-IsAscending xs ys h, λ k. contains-diff k xs ys h g)

-- For two strictly ascending arrays the union is strictly ascending, and holds what one of them
-- holds.
pub union_u32_lem :
    (xs ys : List ℕ)
    → IsAscending xs
    → IsAscending ys
    → IsAscending (union_u32 xs ys)
      × ((k : ℕ) → contains k (union_u32 xs ys) ≡ (contains k xs || contains k ys))
union_u32_lem xs ys h g = (union-IsAscending xs ys h g, λ k. contains-union k xs ys)

-- Where the comparison is that of two keys, excluding is the difference of the keys.
pub exclude-diff :
    {A B : Type 0} (cmp : A → B → Ordering) (key_a : A → ℕ) (key_b : B → ℕ)
    (by_key : (a : A) (b : B) → cmp a b ≡ compare (key_a a) (key_b b)) (xs : List A) (ys : List B)
    → map key_a (exclude cmp xs ys) ≡ diff_u32 (map key_a xs) (map key_b ys)
unfolding exclude diff_u32
exclude-diff cmp ka kb by_key [] ys = refl
exclude-diff cmp ka kb by_key (x ∷ xs) [] = refl
exclude-diff cmp ka kb by_key (x ∷ xs) (y ∷ ys) = ground (
  arith,
  by_key x y,
  exclude-diff cmp ka kb by_key xs (y ∷ ys),
  exclude-diff cmp ka kb by_key xs ys,
  exclude-diff cmp ka kb by_key (x ∷ xs) ys,
)
