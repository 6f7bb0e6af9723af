-- ===== src/Types.antt =====
-- mdv_types/mdv_field.c and mdv_datum.c: the types of fields, and a value of a field with its type.
-- Values are the bytes in memory; a datum is made in one block behind its header.
pub mod Values
mod Tests
use mdb_linux.Base.{
  ℕ, ◌+◌, ◌*◌, ◌/◌, Bool, true, false, List, [], Option, none, some, length, take, ltb, ◌==◌,
  if◌then◌else◌,
}

-- mdv_field_type.
pub data FieldType : Type 0 where
  bool char byte int8 uint8 int16 uint16 int32 uint32 int64 uint64 float double : FieldType

unfoldable pub field_type_size : FieldType → ℕ
field_type_size bool = 1
field_type_size char = 1
field_type_size byte = 1
field_type_size int8 = 1
field_type_size uint8 = 1
field_type_size int16 = 2
field_type_size uint16 = 2
field_type_size int32 = 4
field_type_size uint32 = 4
field_type_size int64 = 8
field_type_size uint64 = 8
field_type_size float = 4
field_type_size double = 8

abbrev type_code : FieldType → ℕ
type_code bool = 1
type_code char = 2
type_code byte = 3
type_code int8 = 4
type_code uint8 = 5
type_code int16 = 6
type_code uint16 = 7
type_code int32 = 8
type_code uint32 = 9
type_code int64 = 10
type_code uint64 = 11
type_code float = 12
type_code double = 13

abbrev pub same_type : FieldType → FieldType → Bool
same_type t u = type_code t == type_code u

pub record Datum : Type 0 where
  pub type : FieldType
  pub bytes : List ℕ

-- `outside` is a write behind the end of the block.
pub data Made : Type 0 where
  no_memory outside : Made
  made : Datum → Made

-- mdv_datum_<type>_create: `v` begins with the values. The block has room for them alone; the last
-- zero of characters is written behind them.
unfoldable pub datum_type_create : Bool → FieldType → List ℕ → ℕ → Made
unfolding field_type_size
datum_type_create granted t v count =
    let block = field_type_size t * count in
    let datum = made (record { type = t; bytes = take block v }) in
    if granted
    then (if same_type t char
        then (if ltb (field_type_size t * count) block then datum else outside)
        else datum)
    else no_memory

unfoldable pub datum_create : Bool → FieldType → List ℕ → ℕ → Made
unfolding datum_type_create
datum_create granted t v size = datum_type_create granted t v (size / field_type_size t)

-- mdv_datum_as_<type>: the values, if the datum has the type that is asked for.
unfoldable pub datum_as : FieldType → Datum → Option (List ℕ)
datum_as t d = if same_type d.type t then some d.bytes else none

unfoldable pub datum_size : Datum → ℕ
datum_size d = length d.bytes

unfoldable pub datum_count : Datum → ℕ
datum_count d = length d.bytes / field_type_size d.type
