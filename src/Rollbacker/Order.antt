-- ===== src/Rollbacker/Order.antt =====
-- The order in which mdv_rollback runs what was pushed, and what the capacity guarantees.
use mdb_linux.Base.{
  ℕ, zero, suc, ◌+◌, ◌≤◌, ◌<◌, ◌≡◌, refl, ap, ◌∙◌, Bool, true, List, [], ◌∷◌, ◌++◌, Option, none,
  some, length, get_elem?, lt→leb, length-append, arith,
}
use mdb_linux.Rollbacker
use mdb_linux.Rollbacker.{RollbackOp, Rollbacker, undo, call, push}

module _ {S : Type 0} where
  get_elem?-append :
      (xs ys : List (RollbackOp S)) (i : ℕ)
      → i < length xs
      → get_elem? (xs ++ ys) i ≡ get_elem? xs i
  get_elem?-append [] ys i h = absurd (omega arith)
  get_elem?-append (x ∷ xs) ys zero h = refl
  get_elem?-append (x ∷ xs) ys (suc i) h = get_elem?-append xs ys i (omega arith)

  get_elem?-last :
      (xs : List (RollbackOp S)) (x : RollbackOp S) → get_elem? (xs ++ x ∷ []) (length xs) ≡ some x
  get_elem?-last [] x = refl
  get_elem?-last (y ∷ xs) x = get_elem?-last xs x

  undo-append :
      (xs ys : List (RollbackOp S)) (n : ℕ) (s : S)
      → n ≤ length xs
      → undo (xs ++ ys) n s ≡ undo xs n s
  unfolding undo
  undo-append xs ys zero s h = refl
  undo-append xs ys (suc n) s h =
      undo-append xs ys n (elim (get_elem? (xs ++ ys) n) [ none ↦ s | some op ↦ call op s ])
        (omega arith)
      ∙ ap (λ (o : Option (RollbackOp S)). undo xs n (elim o [ none ↦ s | some op ↦ call op s ]))
          (get_elem?-append xs ys n (omega arith))

  -- Undoing a longer stack first calls its last operation.
  undo-last :
      (xs : List (RollbackOp S)) (op : RollbackOp S) (s : S)
      → undo (xs ++ op ∷ []) (length (xs ++ op ∷ [])) s ≡ undo xs (length xs) (call op s)
  unfolding undo
  undo-last xs op s =
      let longer : length (xs ++ op ∷ []) ≡ suc (length xs) =
        omega (arith, length-append xs (op ∷ [])) in
      ap (λ (n : ℕ). undo (xs ++ op ∷ []) n s) longer
      ∙ undo-append xs (op ∷ []) (length xs)
          (elim (get_elem? (xs ++ op ∷ []) (length xs)) [ none ↦ s | some o ↦ call o s ])
          (omega arith)
      ∙ ap
          (λ (o : Option (RollbackOp S)).
            undo xs (length xs) (elim o [ none ↦ s | some x ↦ call x s ]))
          (get_elem?-last xs op)

  -- Calls of the operations of a list, the last first.
  unfoldable pub unwind : List (RollbackOp S) → S → S
  unwind [] s = s
  unwind (op ∷ ops) s = call op (unwind ops s)

  unfoldable pub push_all : Option (Rollbacker S) → List (RollbackOp S) → Option (Rollbacker S)
  push_all rbr [] = rbr
  push_all rbr (op ∷ ops) = push_all (push rbr op).1 ops

  push_fits :
      (rbr : Rollbacker S) (op : RollbackOp S)
      → length rbr.ops < rbr.capacity
      → push (some rbr) op ≡ (true, some (record rbr { ops = rbr.ops ++ op ∷ [] }))
  unfolding push
  push_fits rbr op h = rw (lt→leb rbr.capacity (length rbr.ops) h)

  undo-push_all :
      (rbr : Rollbacker S) (ops : List (RollbackOp S)) (s : S)
      → length rbr.ops + length ops ≤ rbr.capacity
      → Rollbacker.rollback (push_all (some rbr) ops) s
        ≡ undo rbr.ops (length rbr.ops) (unwind ops s)
  unfolding push_all unwind Rollbacker.rollback
  undo-push_all rbr [] s h = refl
  undo-push_all rbr (op ∷ ops) s h =
      ap (λ (r : Bool × Option (Rollbacker S)). Rollbacker.rollback (push_all r.1 ops) s)
        (push_fits rbr op (omega arith))
      ∙ undo-push_all (record rbr { ops = rbr.ops ++ op ∷ [] }) ops s
          (omega (arith, length-append rbr.ops (op ∷ [])))
      ∙ undo-last rbr.ops op (unwind ops s)

-- A rollbacker created, with memory, for a number of operations, once up to that many of them are
-- pushed, calls every one of them when it rolls back, the last pushed first, and then frees itself.
pub rollback-push_all :
    {S : Type 0} (free_self : S → S) (capacity : ℕ) (ops : List (RollbackOp S)) (s : S)
    → length ops ≤ capacity
    → Rollbacker.rollback (push_all (Rollbacker.create true free_self capacity) ops) s
      ≡ free_self (unwind ops s)
unfolding Rollbacker.create undo call
rollback-push_all {S = S} free_self capacity ops s h =
    let free_op : RollbackOp S = record {
      rollback = λ (args : List ℕ). free_self;
      args_count = 1;
      arg = 0 ∷ [];
    } in
    ap (λ (r : Bool × Option (Rollbacker S)). Rollbacker.rollback (push_all r.1 ops) s)
      (push_fits (record { capacity = capacity + 1; ops = [] }) free_op (omega arith))
    ∙ undo-push_all (record { capacity = capacity + 1; ops = free_op ∷ [] }) ops s (omega arith)
    ∙ refl
