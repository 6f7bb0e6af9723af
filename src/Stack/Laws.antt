-- ===== src/Stack/Laws.antt =====
-- mdv_stack.h: last in, first out, and no item past the capacity.
use mdb_linux.Base.{
  ℕ, ◌-◌, ◌≤◌, ◌≡◌, List, ◌++◌, some, arith, length, length-append, length-take, take-append,
  drop-append,
}
use mdb_linux.Stack.{Stack, size, push_multiple, pop_multiple}

module _ {A : Type 0} where
  abbrev pub IsValid : Stack A → Type 0
  IsValid st = size st ≤ st.capacity

  pub push_multiple-IsValid :
      (st : Stack A) (xs : List A) {t : Stack A} → push_multiple st xs ≡ some t → IsValid t
  unfolding push_multiple
  push_multiple-IsValid st xs h = ground (arith, length-append st.items xs)

  pub pop_multiple-IsValid :
      (st : Stack A) (n : ℕ) {r : List A × Stack A}
      → IsValid st
      → pop_multiple st n ≡ some r
      → IsValid r.1
  unfolding pop_multiple
  pop_multiple-IsValid st n v h = ground (arith, length-take (size st - n) st.items)

  -- Items that were pushed in one block are popped again in one block, and the stack is as it was.
  pub pop_multiple-push_multiple :
      (st : Stack A) (xs : List A) {t : Stack A}
      → push_multiple st xs ≡ some t
      → pop_multiple t (length xs) ≡ some (xs, st)
  unfolding push_multiple pop_multiple
  pop_multiple-push_multiple st xs h = ground (
    arith,
    length-append st.items xs,
    take-append (length (st.items ++ xs) - length xs) st.items xs,
    drop-append (length (st.items ++ xs) - length xs) st.items xs,
  )
