-- ===== src/Types/Values.antt =====
-- What is made of a value (mdv_types/mdv_datum.c).
use mdb_linux.Base.{
  ℕ, ◌*◌, ◌/◌, ◌≤◌, min, ◌≡◌, ap, ◌∙◌, true, List, length, length-take, take, le→ltb, arith,
}
use mdb_linux.Types.{
  FieldType, bool, char, byte, int8, uint8, int16, uint16, int32, uint32, int64, uint64, float,
  double, field_type_size, Datum, outside, datum_create, datum_type_create, datum_count,
}

-- Whole values fit into the size that is given.
count_fits : (t : FieldType) (size : ℕ) → field_type_size t * (size / field_type_size t) ≤ size
unfolding field_type_size
count_fits bool size = omega arith
count_fits char size = omega arith
count_fits byte size = omega arith
count_fits int8 size = omega arith
count_fits uint8 size = omega arith
count_fits int16 size = omega arith
count_fits uint16 size = omega arith
count_fits int32 size = omega arith
count_fits uint32 size = omega arith
count_fits int64 size = omega arith
count_fits uint64 size = omega arith
count_fits float size = omega arith
count_fits double size = omega arith

counted : (t : FieldType) (n : ℕ) → field_type_size t * n / field_type_size t ≡ n
unfolding field_type_size
counted bool n = omega arith
counted char n = omega arith
counted byte n = omega arith
counted int8 n = omega arith
counted uint8 n = omega arith
counted int16 n = omega arith
counted uint16 n = omega arith
counted int32 n = omega arith
counted uint32 n = omega arith
counted int64 n = omega arith
counted uint64 n = omega arith
counted float n = omega arith
counted double n = omega arith

min_left : (a b : ℕ) → a ≤ b → min a b ≡ a
min_left a b l = omega arith

-- The datum that is made when nothing goes wrong.
abbrev pub datum_of : FieldType → List ℕ → ℕ → Datum
datum_of t v size = record {
  type = t;
  bytes = take (field_type_size t * (size / field_type_size t)) v;
}

-- The count of a datum is that of the whole values in the size it was made from.
pub datum_count-datum_of :
    (t : FieldType) (v : List ℕ) (size : ℕ)
    → size ≤ length v
    → datum_count (datum_of t v size) ≡ size / field_type_size t
unfolding datum_count
datum_count-datum_of t v size l =
    let whole = field_type_size t * (size / field_type_size t) in
    let n : length (take whole v) ≡ whole =
      length-take whole v ∙ min_left whole (length v) (omega (arith, l, count_fits t size)) in
    ap (λ k. k / field_type_size t) n ∙ counted t (size / field_type_size t)

-- For characters the closing zero goes to the first byte behind the block, however many there are.
pub datum_create-outside : (v : List ℕ) (size : ℕ) → datum_create true char v size ≡ outside
unfolding datum_create datum_type_create
datum_create-outside v size = rw (
    le→ltb (field_type_size char * (size / field_type_size char))
      (field_type_size char * (size / field_type_size char)) (omega arith))
