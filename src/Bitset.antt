-- ===== src/Bitset.antt =====
-- mdv_platform/generic/mdv_bitset.c: a reference-counted set of positions in 32-bit words.
-- The null pointer is `none`. A position past the words is undefined in the source; here it reads
-- as 0 and writes nothing, and the theorems ask for a position within the capacity.
pub mod Positions
pub mod Count
mod Tests
use Prim.Native.Nat.{bit_and, bit_or}
use mdb_linux.Base.{
  ℕ, zero, suc, ◌+◌, ◌-◌, ◌*◌, ◌/◌, ◌%◌, ◌^◌, Bool, true, false, List, [], ◌∷◌, Option, none, some,
  length, set, get_or, replicate, bit, ◌==◌, if◌then◌else◌,
}

pub record Bitset : Type 0 where
  pub rc : ℕ
  pub size : ℕ
  pub bits : List ℕ

-- `sizeof(uint32_t) * CHAR_BIT`.
abbrev pub word_bits : ℕ
word_bits = 32

abbrev pub size_mod : ℕ
size_mod = 2 ^ 64

unfoldable pub capacity_calc : ℕ → ℕ
capacity_calc size = word_bits * ((size + word_bits - 1) % size_mod / word_bits) % size_mod

unfoldable pub capacity : Bitset → ℕ
unfolding capacity_calc
capacity s = capacity_calc s.size

-- `memset` of all the words to 0xFF or 0.
unfoldable pub fill : Bitset → Bool → Bitset
unfolding capacity_calc
fill s val = record s {
  bits = replicate (capacity_calc s.size / word_bits) (if val then 2 ^ word_bits - 1 else 0);
}

-- `granted` tells whether the allocator returns memory.
unfoldable pub create : Bool → ℕ → Option Bitset
unfolding fill
create granted size =
    if granted then some (fill (record { rc = 1; size = size; bits = [] }) false) else none

-- The result tells whether the position was not in the set before.
unfoldable pub set_bit : Bitset → ℕ → Bool × Bitset
set_bit s pos =
    let n = pos / word_bits in
    let offs = pos % word_bits in
    let word = get_or s.bits n 0 in
    if bit word offs
    then (false, s)
    else (true, record s { bits = set s.bits n (bit_or word (2 ^ offs)) })

unfoldable pub reset : Bitset → ℕ → Bitset
reset s pos =
    let n = pos / word_bits in
    let offs = pos % word_bits in
    record s { bits = set s.bits n (bit_and (get_or s.bits n 0) (2 ^ word_bits - 1 - 2 ^ offs)) }

unfoldable pub test : Option Bitset → ℕ → Bool
test none pos = true
test (some s) pos = bit (get_or s.bits (pos / word_bits) 0) (pos % word_bits)

-- `==` of two `bool`.
abbrev pub same : Bool → Bool → Bool
same true b = b
same false true = false
same false false = true

-- The loop of `mdv_bitset_count`, over `n` positions from `i` on.
unfoldable pub count_from : Bitset → Bool → ℕ → ℕ → ℕ
unfolding test
count_from s val zero i = 0
count_from s val (suc n) i =
    (if same (test (some s) i) val then 1 else 0) + count_from s val n (i + 1)

unfoldable pub count : Bitset → Bool → ℕ
unfolding count_from
count s val = count_from s val s.size 0

unfoldable pub retain : Option Bitset → Option Bitset
retain none = none
retain (some s) = some (record s { rc = (s.rc + 1) % size_mod })

-- The returned count is cut to 32 bits; at 0 the set is freed.
unfoldable pub release : Option Bitset → ℕ × Option Bitset
release none = (0, none)
release (some s) =
    let rc = (s.rc + size_mod - 1) % size_mod in
    let refs = rc % 2 ^ 32 in (refs, (if refs == 0 then none else some (record s { rc = rc })))
