-- ===== src/Stack.antt =====
-- mdv_platform/generic/mdv_stack.h: a stack of fixed capacity in one array.
-- `items` is data[0 .. size), so `size` is its length; what stands above it in the array is not
-- kept. The sum `size + count` is of two arrays that stand in memory, so it does not wrap.
pub mod Laws
mod Tests
use mdb_linux.Base.{
  ℕ, ◌+◌, ◌-◌, Bool, List, [], ◌∷◌, ◌++◌, Option, none, some, length, take, drop, get_elem?, ltb,
  leb, ◌==◌, if◌then◌else◌,
}

pub record Stack {ℓ} (A : Type ℓ) : Type ℓ where
  pub capacity : ℕ
  pub items : List A

module _ {ℓ} {A : Type ℓ} where
  -- `mdv_stack_clear`, where the array holds `capacity` items.
  unfoldable pub clear : ℕ → Stack A
  clear capacity = record { capacity = capacity; items = [] }

  abbrev pub size : Stack A → ℕ
  size st = length st.items

  -- The null pointer is `none`.
  unfoldable pub push_multiple : Stack A → List A → Option (Stack A)
  push_multiple st xs =
      if leb (size st + length xs) st.capacity
      then some (record st { items = st.items ++ xs })
      else none

  unfoldable pub push_one : Stack A → A → Option (Stack A)
  push_one st x =
      if ltb (size st) st.capacity then some (record st { items = st.items ++ x ∷ [] }) else none

  -- The pointer to the popped items is the list of them, in the order of the array.
  unfoldable pub pop_multiple : Stack A → ℕ → Option (List A × Stack A)
  pop_multiple st count =
      let rest = size st - count in
      if leb count (size st)
      then some (drop rest st.items, record st { items = take rest st.items })
      else none

  unfoldable pub pop_one : Stack A → Option (Option A × Stack A)
  pop_one st =
      let rest = size st - 1 in
      if ltb 0 (size st)
      then some (get_elem? st.items rest, record st { items = take rest st.items })
      else none

  unfoldable pub is_empty : Stack A → Bool
  is_empty st = size st == 0

  unfoldable pub free_space : Stack A → ℕ
  free_space st = st.capacity - size st

  unfoldable pub top : Stack A → Option A
  top st = if ltb 0 (size st) then get_elem? st.items (size st - 1) else none
