-- ===== src/Bitset/Positions.antt =====
-- What mdv_bitset.c's operations do to each position.
use Prim.Native.Nat.{bit_and, bit_or}
use mdb_linux.Base.{
  ℕ, zero, suc, ◌+◌, ◌-◌, ◌/◌, ◌%◌, ◌^◌, ◌≤◌, ◌<◌, ◌≡◌, refl, sym, ap, subst, [], some-eq-some, ◌∙◌,
  inl, inr, Bool, true, false, not, ◌&&◌, ◌||◌, List, some, length, set, get_or, replicate, bit,
  ◌==◌, if◌then◌else◌, arith, length-set, length-replicate, get_or-set_self, get_or-set_ne,
  bit-bit_or, bit-bit_and, bit-pow, bit-mask, bit-ones, bit-zero, Bool-cases,
}
use mdb_linux.Bitset.{
  Bitset, word_bits, capacity_calc, capacity, fill, create, set_bit, reset, test,
}

-- As many words as the capacity takes, and a size that rounding up does not wrap.
pub record IsValid (s : Bitset) : Type 0 where
  pub words : length s.bits ≡ capacity s / word_bits
  pub small : s.size < 2 ^ 63

-- The capacity is the size rounded up to whole words.
pub capacity_bounds :
    (s : Bitset)
    → s.size < 2 ^ 63
    → (s.size ≤ capacity s) × (capacity s < s.size + word_bits) × (capacity s % word_bits ≡ 0)
unfolding capacity
capacity_bounds s h = (omega arith, omega arith, omega arith)

pub in_words :
    (s : Bitset) → IsValid s → (pos : ℕ) → pos < capacity s → pos / word_bits < length s.bits
unfolding capacity
in_words s v pos h = omega (arith, v.words, v.small)

get_or-replicate_below : (n i v : ℕ) → i < n → get_or (replicate n v) i 0 ≡ v
get_or-replicate_below zero i v h = absurd (omega arith)
get_or-replicate_below (suc n) zero v h = refl
get_or-replicate_below (suc n) (suc i) v h = get_or-replicate_below n i v (omega arith)

-- Two positions are one exactly when their words and offsets are.
position_eq :
    (i j : ℕ) → (i == j) ≡ ((i / word_bits == j / word_bits) && (i % word_bits == j % word_bits))
position_eq i j = ground arith

get_or-set :
    (xs : List ℕ) (n m v : ℕ)
    → n < length xs
    → get_or (set xs n v) m 0 ≡ (if n == m then v else get_or xs m 0)
get_or-set xs n m v h = elim (Bool-cases (n == m)) [
  | inl e ↦
      let e' : n ≡ m = ground arith in
      rw e (ap (λ k. get_or (set xs n v) k 0) (sym e') ∙ get_or-set_self xs n v 0 h)
  | inr e ↦ rw e (get_or-set_ne xs n m v 0 (λ e'. absurd (ground arith)))
]

-- A word that is written at `i` decides the positions of its word, and no other.
written :
    (s : Bitset) (i j v : ℕ)
    → i / word_bits < length s.bits
    → bit (get_or (set s.bits (i / word_bits) v) (j / word_bits) 0) (j % word_bits)
      ≡ (if i / word_bits == j / word_bits then bit v (j % word_bits) else test (some s) j)
unfolding test
written s i j v h =
    rw (get_or-set s.bits (i / word_bits) (j / word_bits) v h)
      (push (i / word_bits == j / word_bits))
  where
    push :
        (b : Bool)
        → bit (if b then v else get_or s.bits (j / word_bits) 0) (j % word_bits) ≡ (
            if b
            then bit v (j % word_bits)
            else bit (get_or s.bits (j / word_bits) 0) (j % word_bits))
    push true = refl
    push false = refl

word_of :
    (s : Bitset) (i j : ℕ)
    → i / word_bits == j / word_bits ≡ true
    → bit (get_or s.bits (i / word_bits) 0) (j % word_bits) ≡ test (some s) j
unfolding test
word_of s i j e =
    let e' : i / word_bits ≡ j / word_bits = ground arith in
    ap (λ n. bit (get_or s.bits n 0) (j % word_bits)) e'

-- The word of position `i`, and the word with that position set, or reset.
abbrev word_at : Bitset → ℕ → ℕ
word_at s i = get_or s.bits (i / word_bits) 0

set_word :
    (s : Bitset) (i j : ℕ)
    → (if i / word_bits == j / word_bits
        then bit (bit_or (word_at s i) (2 ^ (i % word_bits))) (j % word_bits)
        else test (some s) j)
      ≡ ((i == j) || test (some s) j)
set_word s i j = elim (Bool-cases (i / word_bits == j / word_bits)) [
  | inl e ↦ rw (e, bit-bit_or, bit-pow, word_of s i j e) (ground (arith, position_eq i j))
  | inr e ↦ rw e (ground (arith, position_eq i j))
]

reset_word :
    (s : Bitset) (i j : ℕ)
    → (if i / word_bits == j / word_bits
        then bit (bit_and (word_at s i) (2 ^ word_bits - 1 - 2 ^ (i % word_bits))) (j % word_bits)
        else test (some s) j)
      ≡ (not (i == j) && test (some s) j)
reset_word s i j = elim (Bool-cases (i / word_bits == j / word_bits)) [
  | inl e ↦
      rw
        (
          e,
          bit-bit_and (word_at s i) (2 ^ word_bits - 1 - 2 ^ (i % word_bits)) (j % word_bits),
          bit-mask word_bits (i % word_bits) (j % word_bits) (omega arith) (omega arith),
          word_of s i j e,
        )
        (ground (arith, position_eq i j))
  | inr e ↦ rw e (ground (arith, position_eq i j))
]

test_self :
    (s : Bitset) (i j : ℕ)
    → bit (word_at s i) (i % word_bits) ≡ true
    → i ≡ j
    → test (some s) j ≡ true
unfolding test
test_self s i j old e = subst (λ k. bit (word_at s k) (k % word_bits) ≡ true) e old

-- Setting a position within the capacity of a valid set puts it into the set and changes no other
-- position. The result tells whether it was new.
pub test-set_bit :
    (s : Bitset) (i j : ℕ)
    → IsValid s
    → i < capacity s
    → (test (some (set_bit s i).1) j ≡ ((i == j) || test (some s) j))
      × ((set_bit s i).0 ≡ not (test (some s) i))
unfolding set_bit test
test-set_bit s i j v h = elim (Bool-cases (bit (word_at s i) (i % word_bits))) [
  | inl old ↦ rw old (ground (arith, test_self s i j old), refl)
  | inr new ↦ rw new (
    written s i j (bit_or (word_at s i) (2 ^ (i % word_bits))) (in_words s v i h) ∙ set_word s i j,
    refl,
  )
]

-- Resetting a position within the capacity of a valid set takes it out of the set and changes no
-- other position.
pub test-reset :
    (s : Bitset) (i j : ℕ)
    → IsValid s
    → i < capacity s
    → test (some (reset s i)) j ≡ (not (i == j) && test (some s) j)
unfolding reset test
test-reset s i j v h =
    written s i j (bit_and (word_at s i) (2 ^ word_bits - 1 - 2 ^ (i % word_bits)))
      (in_words s v i h)
    ∙ reset_word s i j

pub set_bit-IsValid : (s : Bitset) (i : ℕ) → IsValid s → IsValid (set_bit s i).1
unfolding set_bit capacity
set_bit-IsValid s i v = ground (
  arith,
  v.words,
  v.small,
  length-set s.bits (i / word_bits) (bit_or (word_at s i) (2 ^ (i % word_bits))),
)

pub reset-IsValid : (s : Bitset) (i : ℕ) → IsValid s → IsValid (reset s i)
unfolding reset capacity
reset-IsValid s i v = record {
  words =
      length-set s.bits (i / word_bits)
        (bit_and (word_at s i) (2 ^ word_bits - 1 - 2 ^ (i % word_bits)))
      ∙ v.words;
  small = v.small;
}

pub fill-IsValid : (s : Bitset) (b : Bool) → s.size < 2 ^ 63 → IsValid (fill s b)
unfolding fill capacity
fill-IsValid s b h = record { words = length-replicate _ _; small = h }

-- After a fill every position within the capacity reads as the value.
pub test-fill :
    (s : Bitset) (b : Bool) (j : ℕ)
    → s.size < 2 ^ 63
    → j < capacity s
    → test (some (fill s b)) j ≡ b
unfolding fill test capacity
test-fill s b j h k =
    rw
      (get_or-replicate_below (capacity_calc s.size / word_bits) (j / word_bits)
        (if b then 2 ^ word_bits - 1 else 0) (omega arith))
      (filled b)
  where
    filled : (b : Bool) → bit (if b then 2 ^ word_bits - 1 else 0) (j % word_bits) ≡ b
    filled true = bit-ones word_bits (j % word_bits) (omega arith)
    filled false = bit-zero (j % word_bits)

-- A set created, with memory, for fewer than 2 ^ 63 positions is valid, and no position within its
-- capacity is in it.
pub create-empty :
    (size : ℕ) (j : ℕ) {s : Bitset}
    → size < 2 ^ 63
    → create true size ≡ some s
    → j < capacity s
    → IsValid s × (test (some s) j ≡ false)
unfolding create capacity
create-empty size j h e k =
    let blank : Bitset = record { rc = 1; size = size; bits = [] } in
    let e' = some-eq-some e in
    (
      subst IsValid e' (fill-IsValid blank false h),
      subst (λ t. j < capacity t → test (some t) j ≡ false) e' (λ q. test-fill blank false j h q) k,
    )
