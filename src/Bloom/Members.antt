-- ===== src/Bloom/Members.antt =====
-- What mdv_bloom_insert leaves for mdv_bloom_contains.
use Prim.Native.Nat.{bit_or}
use native.Mathlib.Nat.{mod-lt}
use mdb_linux.Base.{
  ℕ, zero, suc, ◌+◌, ◌*◌, ◌/◌, ◌%◌, ◌^◌, ◌≤◌, ◌<◌, ◌≡◌, refl, sym, ap, ◌∙◌, inl, inr, Bool, true,
  false, ◌||◌, List, length, length-set, set, get_or, get_or-set_self, get_or-set_ne, ltb, ◌==◌,
  eq→==, arith, Bool-cases, lt→ltb, bit_or-above, shift-above, above-shift,
}
use mdb_linux.Bloom
use mdb_linux.Hash.{murmur2a}
use mdb_linux.Bloom.{hash_seed, Bloom, position, is_clear, mark, insert_loop, contains_loop}

length-mark : (bf : List ℕ) (bit : ℕ) → length (mark bf bit) ≡ length bf
unfolding mark
length-mark bf bit = length-set bf (bit / 8) (bit_or (get_or bf (bit / 8) 0) (2 ^ (bit % 8)))

-- A mark is not clear, and no mark is cleared by another.
mark_self : (bf : List ℕ) (bit : ℕ) → bit < length bf * 8 → is_clear (mark bf bit) bit ≡ false
unfolding is_clear mark
mark_self bf bit h =
    let old = get_or bf (bit / 8) 0 in
    ap (λ (w : ℕ). w / 2 ^ (bit % 8) == 0)
      (get_or-set_self bf (bit / 8) (bit_or old (2 ^ (bit % 8))) 0 (omega arith))
    ∙ shift-above (bit_or old (2 ^ (bit % 8))) (bit % 8) (bit_or-above old (2 ^ (bit % 8))).1

mark_other :
    (bf : List ℕ) (bit other : ℕ)
    → bit < length bf * 8
    → is_clear bf other ≡ false
    → is_clear (mark bf bit) other ≡ false
unfolding is_clear mark
mark_other bf bit other h c =
    let old = get_or bf (bit / 8) 0 in
    let new = bit_or old (2 ^ (bit % 8)) in
    elim (Bool-cases (other / 8 == bit / 8)) [
      | inl e ↦
          let p : other / 8 ≡ bit / 8 = ground (arith, e) in
          ap (λ (w : ℕ). w / 2 ^ (other % 8) == 0)
            (ap (λ (i : ℕ). get_or (set bf (bit / 8) new) i 0) p
              ∙ get_or-set_self bf (bit / 8) new 0 (omega arith))
          ∙ shift-above new (other % 8) (
              omega (
                arith,
                above-shift (get_or bf (other / 8) 0) (other % 8) c,
                ap (λ (i : ℕ). get_or bf i 0) p,
                (bit_or-above old (2 ^ (bit % 8))).0,
              ))
      | inr d ↦
          ap (λ (w : ℕ). w / 2 ^ (other % 8) == 0)
            (get_or-set_ne bf (bit / 8) (other / 8) new 0
              (λ e. absurd (ground (arith, d, eq→== (other / 8) (bit / 8) (sym e)))))
          ∙ c
    ]

module _ (bits : ℕ) (positive : 0 < bits) where
  -- The bytes cover the bits, as they do from `create` on.
  abbrev pub Covers : List ℕ → Type 0
  Covers bf = bits ≤ length bf * 8

  position-bound : (key : List ℕ) (i : ℕ) → position bits key i < bits
  unfolding position
  position-bound key i = mod-lt (murmur2a key (i * hash_seed % 2 ^ 32)) positive

  insert_loop-keeps :
      (key : List ℕ) (i n other : ℕ) (acc : Bool × List ℕ)
      → Covers acc.1
      → is_clear acc.1 other ≡ false
      → is_clear (insert_loop bits key i n acc).1 other ≡ false
  unfolding insert_loop
  insert_loop-keeps key i zero other acc c h = h
  insert_loop-keeps key i (suc n) other acc c h =
      let bit = position bits key i in
      insert_loop-keeps key (i + 1) n other (acc.0 || is_clear acc.1 bit, mark acc.1 bit)
        (omega (arith, length-mark acc.1 bit))
        (mark_other acc.1 bit other (omega (arith, position-bound key i)) h)

  insert_loop-Covers :
      (key : List ℕ) (i n : ℕ) (acc : Bool × List ℕ)
      → Covers acc.1
      → Covers (insert_loop bits key i n acc).1
  unfolding insert_loop
  insert_loop-Covers key i zero acc c = c
  insert_loop-Covers key i (suc n) acc c =
      let bit = position bits key i in
      insert_loop-Covers key (i + 1) n (acc.0 || is_clear acc.1 bit, mark acc.1 bit)
        (omega (arith, length-mark acc.1 bit))

  insert_loop-sets :
      (key : List ℕ) (i n k : ℕ) (acc : Bool × List ℕ)
      → Covers acc.1
      → k < n
      → is_clear (insert_loop bits key i n acc).1 (position bits key (i + k)) ≡ false
  unfolding insert_loop
  insert_loop-sets key i zero k acc c h = absurd (omega arith)
  insert_loop-sets key i (suc n) zero acc c h =
      let bit = position bits key i in
      let next : Bool × List ℕ = (acc.0 || is_clear acc.1 bit, mark acc.1 bit) in
      insert_loop-keeps key (i + 1) n (position bits key (i + 0)) next
        (omega (arith, length-mark acc.1 bit))
        (ap (λ (b : ℕ). is_clear (mark acc.1 bit) b) (ap (position bits key) (omega arith))
          ∙ mark_self acc.1 bit (omega (arith, position-bound key i)))
  insert_loop-sets key i (suc n) (suc k) acc c h =
      let bit = position bits key i in
      let next : Bool × List ℕ = (acc.0 || is_clear acc.1 bit, mark acc.1 bit) in
      ap (λ (b : ℕ). is_clear (insert_loop bits key (i + 1) n next).1 (position bits key b))
        (omega arith)
      ∙ insert_loop-sets key (i + 1) n k next (omega (arith, length-mark acc.1 bit)) (omega arith)

  contains_loop-of-set :
      (bf key : List ℕ) (i n : ℕ)
      → ((k : ℕ) → k < n → is_clear bf (position bits key (i + k)) ≡ false)
      → contains_loop bits bf key i n ≡ true
  unfolding contains_loop
  contains_loop-of-set bf key i zero h = refl
  contains_loop-of-set bf key i (suc n) h =
      let first : is_clear bf (position bits key i) ≡ false =
        ap (λ (j : ℕ). is_clear bf (position bits key j)) (omega arith) ∙ h 0 (omega arith) in
      let rest = contains_loop-of-set bf key (i + 1) n (λ k l.
        ap (λ (j : ℕ). is_clear bf (position bits key j)) (omega arith)
        ∙ h (k + 1) (omega arith)) in
      rw (first) rest

  contains_loop-set :
      (bf key : List ℕ) (i n k : ℕ)
      → contains_loop bits bf key i n ≡ true
      → k < n
      → is_clear bf (position bits key (i + k)) ≡ false
  unfolding contains_loop
  contains_loop-set bf key i zero k h l = absurd (omega arith)
  contains_loop-set bf key i (suc n) zero h l =
      let first : is_clear bf (position bits key i) ≡ false = ground (arith, h) in
      ap (λ (j : ℕ). is_clear bf (position bits key j)) (omega arith) ∙ first
  contains_loop-set bf key i (suc n) (suc k) h l =
      ap (λ (j : ℕ). is_clear bf (position bits key j)) (omega arith)
      ∙ contains_loop-set bf key (i + 1) n k (ground (arith, h)) (omega arith)

pub record IsValid (bloom : Bloom) : Type 0 where
  pub some_bits : 0 < bloom.bits
  pub covers : bloom.bits ≤ length bloom.bf * 8

-- A key put into a valid filter that is not full is found in it.
pub insert-contains :
    (bloom : Bloom) (key : List ℕ)
    → IsValid bloom
    → bloom.size < bloom.capacity
    → Bloom.contains (Bloom.insert bloom key).1 key ≡ true
unfolding Bloom.insert Bloom.contains
insert-contains bloom key v h = rw (lt→ltb bloom.size bloom.capacity h) (
    contains_loop-of-set bloom.bits v.some_bits
      (insert_loop bloom.bits key 0 bloom.hashes (false, bloom.bf)).1 key 0 bloom.hashes
      (λ k l.
        insert_loop-sets bloom.bits v.some_bits key 0 bloom.hashes k (false, bloom.bf) v.covers l))

-- No insertion into a valid filter, whether it is accepted or refused because the filter is full,
-- makes it lose a key that it was found to contain, and it stays valid.
pub insert-keeps :
    (bloom : Bloom) (new key : List ℕ)
    → IsValid bloom
    → Bloom.contains bloom key ≡ true
    → (Bloom.contains (Bloom.insert bloom new).1 key ≡ true) × IsValid (Bloom.insert bloom new).1
unfolding Bloom.insert Bloom.contains
insert-keeps bloom new key v h = elim (Bool-cases (ltb bloom.size bloom.capacity)) [
  | inl t ↦ rw (t) (
    contains_loop-of-set bloom.bits v.some_bits
        (insert_loop bloom.bits new 0 bloom.hashes (false, bloom.bf)).1 key 0 bloom.hashes
        (λ k l.
          insert_loop-keeps bloom.bits v.some_bits new 0 bloom.hashes
            (position bloom.bits key (0 + k)) (false, bloom.bf) v.covers
            (contains_loop-set bloom.bits v.some_bits bloom.bf key 0 bloom.hashes k h l)),
    record {
      some_bits = v.some_bits;
      covers =
          insert_loop-Covers bloom.bits v.some_bits new 0 bloom.hashes (false, bloom.bf) v.covers;
    },
  )
  | inr f ↦ rw (f) (h, v)
]
