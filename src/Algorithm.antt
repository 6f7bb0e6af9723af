-- ===== src/Algorithm.antt =====
-- mdv_platform/generic/mdv_algorithm.c: set operations on sorted arrays, and the lower bound.
-- A loop over an array goes over what is left of it. `mdv_bsearch` and `mdv_qsort` only pass their
-- arguments to the C library.
pub mod Sets
pub mod LowerBound
mod Tests
use Prim.Native.Nat.{Ordering}
use mdb_linux.Base.{
  ℕ, zero, suc, ◌+◌, ◌-◌, ◌/◌, Bool, true, false, List, [], ◌∷◌, Option, none, some, length,
  get_elem?, ltb, ◌==◌, if◌then◌else◌,
}

unfoldable pub diff_u32 : List ℕ → List ℕ → List ℕ
diff_u32 [] bs = []
diff_u32 (a ∷ as') [] = a ∷ as'
diff_u32 (a ∷ as') (b ∷ bs) =
    let keep = a ∷ diff_u32 as' (b ∷ bs) in
    let both = diff_u32 as' bs in
    let skip = diff_u32 (a ∷ as') bs in if ltb a b then keep else if a == b then both else skip

unfoldable pub union_u32 : List ℕ → List ℕ → List ℕ
union_u32 [] bs = bs
union_u32 (a ∷ as') [] = a ∷ as'
union_u32 (a ∷ as') (b ∷ bs) =
    let right = b ∷ union_u32 (a ∷ as') bs in
    let both = a ∷ union_u32 as' bs in
    let left = a ∷ union_u32 as' (b ∷ bs) in
    if ltb b a then right else if a == b then both else left

-- `mdv_exclude`, which writes its result over the front of `set_a`: behind the item that is read,
-- so no unread item is overwritten. The returned count is the length of the list.
module _ {A B : Type 0} (cmp : A → B → Ordering) where
  unfoldable pub exclude : List A → List B → List A
  exclude [] bs = []
  exclude (a ∷ as') [] = a ∷ as'
  exclude (a ∷ as') (b ∷ bs) =
      let keep = a ∷ exclude as' (b ∷ bs) in
      let both = exclude as' bs in
      let skip = exclude (a ∷ as') bs in
      elim (cmp a b) [ Ordering.lt ↦ keep | Ordering.eq ↦ both | Ordering.gt ↦ skip ]

-- The result of `mdv_lower_bound`: the null pointer for no items, an index, or a read outside the
-- array.
pub data Bound : Type 0 where
  null : Bound
  index : ℕ → Bound
  outside : Bound

-- The pointers `a` and `b` as the index of `a` and the index after `b`: when `b` falls below the
-- array, `hi` is 0. `cmp` compares the key with an item.
module _ {A : Type 0} (cmp : A → Ordering) (arr : List A) where
  -- The read behind the loop, of `*b`.
  unfoldable pub last_read : ℕ → Bound
  last_read zero = outside
  last_read (suc b) = elim (get_elem? arr b) [
    | none ↦ outside
    | some x ↦ elim (cmp x) [ Ordering.gt ↦ index (suc b) | _ ↦ index b ]
  ]

  unfoldable pub search_loop : ℕ → ℕ → ℕ → Bound
  unfolding last_read
  search_loop zero a hi = last_read hi
  search_loop (suc fuel) a hi =
      let c = a + (hi - 1 - a) / 2 in
      let again : Bound = elim (get_elem? arr c) [
        | none ↦ outside
        | some x ↦ elim (cmp x) [
          | Ordering.lt ↦ search_loop fuel a c
          | Ordering.gt ↦ search_loop fuel (suc c) hi
          | Ordering.eq ↦ index c
        ]
      ] in
      if ltb (a + 1) hi then again else last_read hi

  unfoldable pub lower_bound : Bound
  unfolding search_loop
  lower_bound = if length arr == 0 then null else search_loop (length arr) 0 (length arr)
