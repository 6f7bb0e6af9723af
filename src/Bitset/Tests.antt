-- ===== src/Bitset/Tests.antt =====
-- The bitset on small examples.
use mdb_linux.Base.{◌≡◌, refl, true, false, not, ◌||◌, [], ◌∷◌, some, ◌==◌, arith}
use mdb_linux.Bitset.{Bitset, capacity, fill, create, set_bit, test}
use mdb_linux.Bitset.Positions.{IsValid, test-set_bit}

abbrev forty : Bitset
forty = record { rc = 1; size = 40; bits = 5 ∷ 1 ∷ [] }

bitset : Unit {0}
unfolding capacity fill create test
bitset = tt

forty-IsValid : IsValid forty
unfolding bitset
forty-IsValid = record { words = refl; small = omega arith }

forty_capacity : capacity forty ≡ 64
unfolding bitset
forty_capacity = refl

lacks_33 : test (some forty) 33 ≡ false
unfolding bitset
lacks_33 = refl

created_40 : create true 40 ≡ some (record { rc = 1; size = 40; bits = 0 ∷ 0 ∷ [] })
unfolding bitset
created_40 = refl

test-set_bit_example :
    (test (some (set_bit forty 33).1) 32 ≡ ((33 == 32) || test (some forty) 32))
    × ((set_bit forty 33).0 ≡ not (test (some forty) 33))
test-set_bit_example = test-set_bit forty 33 32 forty-IsValid (omega (arith, forty_capacity))
