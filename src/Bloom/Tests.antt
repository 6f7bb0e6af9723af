-- ===== src/Bloom/Tests.antt =====
-- A filter of 64 bits and three hash functions.
use mdb_linux.Base.{◌≡◌, refl, true, [], ◌∷◌, arith}
use mdb_linux.Hash.{murmur2a, murmur_words, murmur_mix}
use mdb_linux.Bloom.{Bloom, insert, contains, position, is_clear, mark, insert_loop, contains_loop}
use mdb_linux.Bloom.Members.{IsValid, insert-contains}

bloom : Unit {0}
unfolding murmur2a murmur_words murmur_mix position is_clear mark insert_loop insert contains_loop
    contains
bloom = tt

abbrev empty : Bloom
empty = record {
  bits = 64;
  capacity = 5;
  size = 0;
  hashes = 3;
  bf = 0 ∷ 0 ∷ 0 ∷ 0 ∷ 0 ∷ 0 ∷ 0 ∷ 0 ∷ [];
}

abbrev full_byte : Bloom
full_byte = record empty { bf = 255 ∷ 255 ∷ 255 ∷ 255 ∷ 255 ∷ 255 ∷ 255 ∷ 255 ∷ [] }

empty-IsValid : IsValid empty
empty-IsValid = record { some_bits = omega arith; covers = omega arith }

full-IsValid : IsValid full_byte
full-IsValid = record { some_bits = omega arith; covers = omega arith }

full-contains : contains full_byte (1 ∷ 2 ∷ 3 ∷ 4 ∷ 5 ∷ []) ≡ true
unfolding bloom
full-contains = refl

insert-contains_example : contains (insert empty (7 ∷ 8 ∷ [])).1 (7 ∷ 8 ∷ []) ≡ true
insert-contains_example = insert-contains empty (7 ∷ 8 ∷ []) empty-IsValid (omega arith)
