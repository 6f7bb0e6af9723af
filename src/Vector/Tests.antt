-- ===== src/Vector/Tests.antt =====
-- The vector on small examples.
use mdb_linux.Base.{ℕ, ◌≡◌, Bool, true, [], ◌∷◌, Option, some, arith}
use mdb_linux.Vector.{Vector, append, double_until, rounds}
use mdb_linux.Vector.Grow.{Grown, double_until_total}
use mdb_linux.Vector.Contents.{IsValid, Added, append-Added}

abbrev three : Vector ℕ
three = record { rc = 1; capacity = 3; item_size = 4; data_ptr = 100; items = 7 ∷ 8 ∷ 9 ∷ [] }

three-IsValid : IsValid three
three-IsValid = record { room = omega arith; within = omega arith; small = omega arith }

abbrev grants_all : ℕ → Bool
grants_all n = true

double_until_total_example : (r : ℕ) × (double_until rounds 1000 3 ≡ some r) × Grown 1000 3 r
double_until_total_example = double_until_total 1000 3 (omega arith) (omega arith)

append-Added_example :
    (r : Option ℕ × Vector ℕ) × (append grants_all (λ n. 500) three (1 ∷ 2 ∷ []) ≡ some r)
    × Added three (1 ∷ 2 ∷ []) r
append-Added_example =
    append-Added grants_all (λ n. 500) three (1 ∷ 2 ∷ []) three-IsValid (omega arith)
