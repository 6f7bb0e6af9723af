-- ===== src/Stack/Tests.antt =====
-- The stack on a small example.
use mdb_linux.Base.{ℕ, ◌≡◌, refl, [], ◌∷◌, some}
use mdb_linux.Stack.{Stack, push_multiple}

abbrev before : Stack ℕ
before = record { capacity = 4; items = 9 ∷ [] }

abbrev after : Stack ℕ
after = record { capacity = 4; items = 9 ∷ 5 ∷ 6 ∷ [] }

pushed_before : push_multiple before (5 ∷ 6 ∷ []) ≡ some after
unfolding push_multiple
pushed_before = refl
