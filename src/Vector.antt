-- ===== src/Vector.antt =====
-- mdv_platform/generic/mdv_vector.c: a reference-counted array that doubles its capacity.
-- `items` is the live part of the array. Pointers are addresses, and `data_ptr` is that of the first
-- item. What the allocator grants is the parameter `grants`, and where `realloc` moves a block
-- `moved`, by the number of bytes asked.
pub mod Grow
pub mod Contents
pub mod Erase
mod Tests
use mathlib.Core.Option
use mdb_linux.Base.{
  ℕ, zero, suc, ◌+◌, ◌-◌, ◌*◌, ◌/◌, ◌%◌, ◌^◌, Bool, true, false, not, ◌&&◌, List, [], ◌∷◌, ◌++◌,
  Option, none, some, length, take, set, get_elem?, replicate, ltb, leb, ◌==◌, if◌then◌else◌,
}

pub record Vector (A : Type 0) : Type 0 where
  pub rc : ℕ
  pub capacity : ℕ
  pub item_size : ℕ
  pub data_ptr : ℕ
  pub items : List A

abbrev pub size_mod : ℕ
size_mod = 2 ^ 64

abbrev pub size : {A : Type 0} → Vector A → ℕ
size v = length v.items

-- `while (need > new_capacity) new_capacity *= 2;` in `size_t`. `none` is a loop that the fuel
-- cut short.
unfoldable pub double_until : ℕ → ℕ → ℕ → Option ℕ
double_until zero need capacity = none
double_until (suc fuel) need capacity =
    let rest = double_until fuel need (capacity * 2 % size_mod) in
    if ltb capacity need then rest else some capacity

-- Enough rounds for a capacity to pass every `size_t` below 2 ^ 63.
abbrev pub rounds : ℕ
rounds = 64

module _ {A : Type 0} where
  -- The result is the index of the first new item, or `none` for the null pointer.
  abbrev pub store : List A → Bool × Vector A → Option ℕ × Vector A
  store xs (true, v) = (some (size v), record v { items = v.items ++ xs })
  store xs (false, v) = (none, v)

  -- `memset` of the new items to 0 bytes.
  abbrev pub fill : A → ℕ → Bool × Vector A → Bool × Vector A
  fill zero_item n (true, v) =
      (true, record v { items = v.items ++ replicate (n - size v) zero_item })
  fill zero_item n (false, v) = (false, v)

module _ {A : Type 0} (grants : ℕ → Bool) where
  unfoldable pub create : ℕ → ℕ → ℕ → Option (Vector A)
  create capacity item_size data_ptr =
      if grants (capacity * item_size % size_mod)
      then some (record {
        rc = 1;
        capacity = capacity;
        item_size = item_size;
        data_ptr = data_ptr;
        items = [];
      })
      else none

  unfoldable pub clone : Vector A → ℕ → ℕ → Option (Vector A)
  unfolding create
  clone v capacity data_ptr =
      let capacity' = if ltb capacity (size v) then size v else capacity in
      elim (create capacity' v.item_size data_ptr) [
        | none ↦ none
        | some w ↦ some (record w { items = v.items })
      ]

module _ {A : Type 0} (grants : ℕ → Bool) (moved : ℕ → ℕ) where
  abbrev pub reserve : Vector A → ℕ → Bool × Vector A
  reserve v capacity =
      if ltb v.capacity capacity
      then if grants (v.item_size * capacity % size_mod)
        then (
          true,
          record v { data_ptr = moved (v.item_size * capacity % size_mod); capacity = capacity },
        )
        else (false, v)
      else (true, v)

  unfoldable pub resize_if_required : Vector A → ℕ → Option (Bool × Vector A)
  resize_if_required v extra = elim (double_until rounds ((size v + extra) % size_mod) v.capacity) [
    | none ↦ none
    | some capacity ↦ some (reserve v capacity)
  ]

  unfoldable pub append : Vector A → List A → Option (Option ℕ × Vector A)
  unfolding resize_if_required
  append v xs = Option.map (store xs) (resize_if_required v (length xs))

  unfoldable pub push_back : Vector A → A → Option (Option ℕ × Vector A)
  unfolding resize_if_required
  push_back v x = Option.map (store (x ∷ [])) (resize_if_required v 1)

  unfoldable pub resize : A → Vector A → ℕ → Option (Bool × Vector A)
  unfolding resize_if_required
  resize zero_item v n =
      if leb n (size v)
      then some (true, record v { items = take n v.items })
      else if leb n v.capacity
      then some (fill zero_item n (true, v))
      else Option.map (fill zero_item n) (resize_if_required v (n - size v))

module _ {A : Type 0} where
  unfoldable pub is_empty : Vector A → Bool
  is_empty v = size v == 0

  unfoldable pub clear : Vector A → Vector A
  clear v = record v { items = [] }

  unfoldable pub at : Vector A → ℕ → Option A
  at v pos = if leb (size v) pos then none else get_elem? v.items pos

  -- The index of the first item that `equ` accepts.
  unfoldable pub find_from : (A → Bool) → List A → ℕ → Option ℕ
  find_from equ [] i = none
  find_from equ (x ∷ xs) i = let rest = find_from equ xs (i + 1) in if equ x then some i else rest

  unfoldable pub find : (A → Bool) → Vector A → Option ℕ
  unfolding find_from
  find equ v = find_from equ v.items 0

  -- The copying loop of `mdv_vector_erase`: every item from `dst + 1` on moves down by one.
  unfoldable pub shift_down : ℕ → List A → ℕ → List A
  shift_down zero items dst = items
  shift_down (suc n) items dst = elim (get_elem? items (suc dst)) [
    | none ↦ items
    | some x ↦ shift_down n (set items dst x) (suc dst)
  ]

  -- A pointer that is not that of an item changes nothing.
  unfoldable pub erase : Vector A → ℕ → Vector A
  unfolding shift_down
  erase v item =
      let idx = (item - v.data_ptr) / v.item_size in
      if leb v.data_ptr item && ltb item (v.data_ptr + v.item_size * size v)
      then if v.data_ptr + idx * v.item_size == item
        then record v { items = take (size v - 1) (shift_down (size v) v.items idx) }
        else v
      else v

-- A vector pointer: null, the address of the static `mdv_empty_vector`, or a vector on the heap.
pub data Handle (A : Type 0) : Type 0 where
  null : Handle A
  empty_vector : Handle A
  heap : Vector A → Handle A

module _ {A : Type 0} where
  -- The counter is an unsigned machine word; `none` is a null pointer dereferenced.
  unfoldable pub retain : Handle A → Option (Handle A)
  retain null = none
  retain empty_vector = some empty_vector
  retain (heap v) = some (heap (record v { rc = (v.rc + 1) % size_mod }))

  -- The returned count is cut to 32 bits; at 0 the vector is freed.
  unfoldable pub release : Handle A → ℕ × Handle A
  release null = (0, null)
  release empty_vector = (0, empty_vector)
  release (heap v) =
      let rc = (v.rc + size_mod - 1) % size_mod in
      let refs = rc % 2 ^ 32 in (refs, (if refs == 0 then null else heap (record v { rc = rc })))
