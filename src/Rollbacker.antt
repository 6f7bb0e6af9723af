-- ===== src/Rollbacker.antt =====
-- mdv_platform/mdv_rollbacker.c: a bounded stack of undo operations, run from the last to the first.
-- `S` is the state that the operations act on. The null pointer is `none`.
pub mod Order
mod Tests
use mdb_linux.Base.{
  ℕ, zero, suc, ◌+◌, Bool, true, false, List, [], ◌∷◌, ◌++◌, Option, none, some, length, get_elem?,
  get_or, ltb, leb, ◌==◌, if◌then◌else◌,
}

-- `rollback` is called with the first `args_count` of the three arguments.
pub record RollbackOp (S : Type 0) : Type 0 where
  pub rollback : List ℕ → S → S
  pub args_count : ℕ
  pub arg : List ℕ

-- `ops` is the part of the array that is in use; `size` is its length.
pub record Rollbacker (S : Type 0) : Type 0 where
  pub capacity : ℕ
  pub ops : List (RollbackOp S)

module _ {S : Type 0} where
  unfoldable pub push : Option (Rollbacker S) → RollbackOp S → Bool × Option (Rollbacker S)
  push none op = (false, none)
  push (some rbr) op =
      if leb rbr.capacity (length rbr.ops)
      then (false, some rbr)
      else (true, some (record rbr { ops = rbr.ops ++ op ∷ [] }))

  -- The rollbacker's own operation frees it: it stands at the bottom.
  unfoldable pub create : Bool → (S → S) → ℕ → Option (Rollbacker S)
  unfolding push
  create granted free_self capacity =
      if granted
      then (push (some (record { capacity = capacity + 1; ops = [] }))
          (record { rollback = λ args. free_self; args_count = 1; arg = 0 ∷ [] })).1
      else none

  -- The `switch` on the number of arguments; another number calls nothing.
  unfoldable pub call : RollbackOp S → S → S
  call op s =
      let a = get_or op.arg 0 0 in
      let b = get_or op.arg 1 0 in
      let c = get_or op.arg 2 0 in
      if op.args_count == 1
      then op.rollback (a ∷ []) s
      else if op.args_count == 2
      then op.rollback (a ∷ b ∷ []) s
      else if op.args_count == 3
      then op.rollback (a ∷ b ∷ c ∷ []) s
      else s

  -- The loop `while(size)`: the operation at `size - 1`, then those below.
  unfoldable pub undo : List (RollbackOp S) → ℕ → S → S
  unfolding call
  undo ops zero s = s
  undo ops (suc size) s =
      undo ops size (elim (get_elem? ops size) [ none ↦ s | some op ↦ call op s ])

  unfoldable pub rollback : Option (Rollbacker S) → S → S
  unfolding undo
  rollback none s = s
  rollback (some rbr) s = undo rbr.ops (length rbr.ops) s
