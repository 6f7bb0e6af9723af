-- ===== src/Rollbacker/Tests.antt =====
-- Two undo operations on a log of what was called.
use mdb_linux.Base.{ℕ, ◌≡◌, true, List, [], ◌∷◌, ◌++◌, arith}
use mdb_linux.Rollbacker.{RollbackOp, create, rollback}
use mdb_linux.Rollbacker.Order.{unwind, push_all, rollback-push_all}

abbrev logs : ℕ → List ℕ → RollbackOp (List ℕ)
logs n arg = record { rollback = λ args log. args ++ log; args_count = n; arg = arg }

rollback-push_all_example :
    rollback
      (push_all (create true (λ log. 99 ∷ log) 2) (logs 1 (5 ∷ []) ∷ logs 2 (6 ∷ 7 ∷ []) ∷ []))
      []
    ≡ 99 ∷ unwind (logs 1 (5 ∷ []) ∷ logs 2 (6 ∷ 7 ∷ []) ∷ []) []
rollback-push_all_example =
    rollback-push_all (λ log. 99 ∷ log) 2 (logs 1 (5 ∷ []) ∷ logs 2 (6 ∷ 7 ∷ []) ∷ []) []
      (omega arith)
