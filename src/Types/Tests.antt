-- ===== src/Types/Tests.antt =====
-- Values of fields at work.
use mdb_linux.Base.{ℕ, ◌≡◌, refl, true, List, [], ◌∷◌, none, some}
use mdb_linux.Types.{int16, int32, field_type_size, made, datum_create, datum_type_create, datum_as}
use mdb_linux.Types.Values.{datum_of}

-- Two numbers of 16 bits, and a byte too many.
abbrev numbers : List ℕ
numbers = 1 ∷ 0 ∷ 2 ∷ 0 ∷ 9 ∷ []

created : datum_create true int16 numbers 5 ≡ made (datum_of int16 numbers 5)
unfolding datum_create datum_type_create field_type_size
created = refl

read_back : datum_as int16 (datum_of int16 numbers 5) ≡ some (1 ∷ 0 ∷ 2 ∷ 0 ∷ [])
unfolding datum_as field_type_size
read_back = refl

not_read_back : datum_as int32 (datum_of int16 numbers 5) ≡ none
unfolding datum_as
not_read_back = refl
