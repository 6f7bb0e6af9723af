-- ===== src/Queue/Tests.antt =====
-- The ring buffer on an example that goes round the end of the array.
use mdb_linux.Base.{
  ℕ, ◌+◌, ◌*◌, ◌≡◌, ◌<◌, ◌⊎◌, leb, List, [], ◌∷◌, ◌++◌, none, some, length, get_or, if◌then◌else◌,
  arith,
}
use mdb_linux.Queue.{Queue, size, push_multiple, pop_multiple}
use mdb_linux.Queue.Contents.{IsValid, contents}
use mdb_linux.Queue.Refine.{push_multiple_refines}
use mdb_linux.Queue.Pop.{pop_multiple_refines}

-- Five slots of four bytes, two items, at slots 3 and 4.
abbrev ring : Queue ℕ
ring = record {
  capacity = 4;
  item_size = 4;
  head = 3;
  tail = 0;
  data_at = λ i. get_or (10 ∷ 11 ∷ 12 ∷ 13 ∷ 14 ∷ []) i 0;
}

ring-IsValid : IsValid ring
ring-IsValid = record { head_in = omega arith; tail_in = omega arith; small = omega arith }

push_multiple_refines_example :
    let (done, r) = push_multiple ring (1 ∷ 2 ∷ []) 8 in
    IsValid r
    × ((done ≡ leb (size ring + 2) 4)
        × (contents r
            ≡ (if leb (size ring + 2) 4 then contents ring ++ 1 ∷ 2 ∷ [] else contents ring)))
push_multiple_refines_example =
    push_multiple_refines ring ring-IsValid (1 ∷ 2 ∷ []) 8 (omega arith, omega arith)

pop_multiple_refines_example :
    let (r, t) = pop_multiple ring (2 * 4) in
    IsValid t
    × (((xs : List ℕ) × (r ≡ some xs) × (length xs ≡ 2) × (contents ring ≡ xs ++ contents t))
        ⊎ ((size ring < 2) × (r ≡ none) × (t ≡ ring)))
pop_multiple_refines_example = pop_multiple_refines ring ring-IsValid (omega arith) 2
