-- ===== src/Hashmap/Tests.antt =====
-- A table of pairs with four chains, as a set keyed by the first component.
use mdb_linux.Base.{
  ℕ, ◌≡◌, ◌≤◌, ◌↔◌, refl, true, false, [], ◌∷◌, none, some, get_or, ◌==◌, eq→==, if◌then◌else◌,
  arith, ◌%◌, zero, suc,
}
use mdb_linux.Hashmap
use mdb_linux.Hashmap.{Hashmap, Keys, find_entry, done, division_by_zero}
use mdb_linux.Hashmap.Chains.{count}
use mdb_linux.Hashmap.Rehash.{total}
use mdb_linux.Hashmap.Moves.{IsValid}
use mdb_linux.Hashmap.Methods.{erase-find, insert-find}

abbrev Entry : Type 0
Entry = ℕ × ℕ

first_field : Keys Entry ℕ
first_field = record {
  key_of = λ e. e.0;
  hash = λ k. k;
  same = λ a b. a == b;
  same_iff = λ a b. ((λ h. ground (arith, h)), (λ h. eq→== a b h));
}

abbrev table : Hashmap Entry
table = record {
  rc = 1;
  capacity = 4;
  size = 2;
  key_end = 8;
  buckets = [] ∷ ((1, 10) ∷ (5, 50) ∷ []) ∷ [] ∷ [] ∷ [];
}

abbrev unsized : Hashmap Entry
unsized = record { rc = 1; capacity = 0; size = 0; key_end = 8; buckets = [] }

table-IsValid : IsValid first_field table
unfolding first_field total count
table-IsValid = record {
  chains = refl;
  counted = refl;
  room = omega arith;
  placed = λ q j. placed q j;
}
  where
    placed :
        (q j : ℕ) → count first_field q (get_or table.buckets j []) ≤ (if j == q % 4 then 1 else 0)
    placed q zero = ground arith
    placed q (suc zero) = ground arith
    placed q (suc (suc zero)) = ground arith
    placed q (suc (suc (suc zero))) = ground arith
    placed q (suc (suc (suc (suc j)))) = ground arith

erase-find_example :
    IsValid first_field (Hashmap.erase first_field table 5).1
    × (((Hashmap.erase first_field table 5).0 ≡ false) ↔ (Hashmap.find first_field table 5 ≡ none))
    × ((q : ℕ)
        → Hashmap.find first_field (Hashmap.erase first_field table 5).1 q
          ≡ (if first_field.same q 5 then none else Hashmap.find first_field table q))
erase-find_example = erase-find first_field table 5 table-IsValid

insert-find_example :
    (after : Hashmap Entry) × (Hashmap.insert first_field true true table (5, 51) 16
      ≡ done (true, after))
    × IsValid first_field after
    × ((q : ℕ)
        → Hashmap.find first_field after q ≡ (
            if first_field.same q (first_field.key_of (5, 51))
            then some (5, 51)
            else Hashmap.find first_field table q))
insert-find_example =
    insert-find first_field table (5, 51) 16 table-IsValid (omega arith) (omega arith)

abbrev two_chains : Hashmap Entry
two_chains = record { rc = 1; capacity = 2; size = 0; key_end = 8; buckets = [] ∷ [] ∷ [] }

created_two : Hashmap.create true 2 8 ≡ some two_chains
unfolding Hashmap.create
created_two = refl
