-- ===== src/Bloom.antt =====
-- mdv_platform/generic/mdv_bloom.c: a Bloom filter over the Murmur hash.
-- The floating-point formulas for the number of bits and of hash functions are parameters: both
-- values are passed to `create`.
pub mod Members
mod Tests
use Prim.Native.Nat.{bit_or}
use mdb_linux.Base.{
  ℕ, zero, suc, ◌+◌, ◌-◌, ◌*◌, ◌/◌, ◌%◌, ◌^◌, Bool, true, false, not, ◌&&◌, ◌||◌, List, [], ◌∷◌,
  Option, none, some, length, set, get_or, replicate, ltb, ◌==◌, if◌then◌else◌,
}
use mdb_linux.Hash.{murmur2a}

pub record Bloom : Type 0 where
  pub bits : ℕ
  pub capacity : ℕ
  pub size : ℕ
  pub hashes : ℕ
  pub bf : List ℕ

abbrev pub hash_seed : ℕ
hash_seed = 836091947

unfoldable pub create : Bool → ℕ → ℕ → ℕ → Option Bloom
create granted entries bits hashes =
    if granted
    then some (record {
      bits = bits;
      capacity = entries;
      size = 0;
      hashes = hashes;
      bf = replicate ((bits + 7) / 8) 0;
    })
    else none

-- The bit that the hash function `i` names: the position of its byte and the offset in it.
unfoldable pub position : ℕ → List ℕ → ℕ → ℕ
position bits key i = murmur2a key (i * hash_seed % 2 ^ 32) % bits

-- `bf[byte] >> offset` compared with 0.
unfoldable pub is_clear : List ℕ → ℕ → Bool
is_clear bf bit = get_or bf (bit / 8) 0 / 2 ^ (bit % 8) == 0

unfoldable pub mark : List ℕ → ℕ → List ℕ
mark bf bit = set bf (bit / 8) (bit_or (get_or bf (bit / 8) 0) (2 ^ (bit % 8)))

-- The loop of `mdv_bloom_insert` from `i` on, `n` rounds: whether a byte changed, and the bytes.
unfoldable pub insert_loop : ℕ → List ℕ → ℕ → ℕ → Bool × List ℕ → Bool × List ℕ
unfolding position is_clear mark
insert_loop bits key i zero acc = acc
insert_loop bits key i (suc n) acc =
    let bit = position bits key i in
    insert_loop bits key (i + 1) n (acc.0 || is_clear acc.1 bit, mark acc.1 bit)

unfoldable pub insert : Bloom → List ℕ → Bool × Bloom
unfolding insert_loop
insert bloom key =
    let r = insert_loop bloom.bits key 0 bloom.hashes (false, bloom.bf) in
    if ltb bloom.size bloom.capacity
    then (r.0, record bloom { size = (if r.0 then bloom.size + 1 else bloom.size); bf = r.1 })
    else (false, bloom)

unfoldable pub contains_loop : ℕ → List ℕ → List ℕ → ℕ → ℕ → Bool
unfolding position is_clear
contains_loop bits bf key i zero = true
contains_loop bits bf key i (suc n) =
    let rest = contains_loop bits bf key (i + 1) n in
    if is_clear bf (position bits key i) then false else rest

unfoldable pub contains : Bloom → List ℕ → Bool
unfolding contains_loop
contains bloom key = contains_loop bloom.bits bloom.bf key 0 bloom.hashes
