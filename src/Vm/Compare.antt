-- ===== src/Vm/Compare.antt =====
-- The comparisons of mdv_vm.c against the lexicographic order of byte strings.
use Prim.Native.Nat.{compare, Ordering}
use mdb_linux.Base.{
  ℕ, zero, suc, ◌+◌, ◌≤◌, ◌≡◌, ◌≢◌, refl, sym, ap, ◌∙◌, ◌↔◌, Bool, true, false, not, ◌&&◌, ◌||◌,
  List, [], ◌∷◌, length, take, ap₂, take-all, length-take, length-append, arith, ltb, ◌==◌,
  if◌then◌else◌, min, Bool-cases, inl, inr,
}
use mdb_linux.Vm.Machine.{Machine, ok, IsValid, read}
use mdb_linux.Vm.Datum.{Datum, inline, external, size}
use mdb_linux.Vm.Ops.{
  memcmp, contents, vm_bool, is_eq, is_lt, is_gt, same_bytes, prefix_order, compare_op, equal_test,
  stack_pop_pair, not_equal_test, greater_test, greater_or_equal_test, less_test,
  less_or_equal_test,
}
use mdb_linux.Vm.RoundTrip.{
  extend, image, IsWord, length-image, stack_push-extend, stack_pop-extend,
}

-- The bytes that a datum stands for.
abbrev pub value : (ℕ → ℕ) → Datum → List ℕ
value mem d = contents mem d (size d)

-- The lexicographic order, in which a proper prefix comes first.
unfoldable pub lex : List ℕ → List ℕ → Ordering
lex [] [] = Ordering.eq
lex [] (y ∷ ys) = Ordering.lt
lex (x ∷ xs) [] = Ordering.gt
lex (x ∷ xs) (y ∷ ys) =
    let rest = lex xs ys in
    elim (compare x y) [
      | Ordering.lt ↦ Ordering.lt
      | Ordering.eq ↦ rest
      | Ordering.gt ↦ Ordering.gt
    ]

pub is_eq-lex : (xs ys : List ℕ) → (is_eq (lex xs ys) ≡ true) ↔ (xs ≡ ys)
unfolding lex
is_eq-lex xs ys = (sound xs ys, complete xs ys)
  where
    sound : (xs ys : List ℕ) → is_eq (lex xs ys) ≡ true → xs ≡ ys
    sound [] [] h = refl
    sound [] (y ∷ ys) h = cc
    sound (x ∷ xs) [] h = cc
    sound (x ∷ xs) (y ∷ ys) h = ground (arith, sound xs ys)

    complete : (xs ys : List ℕ) → xs ≡ ys → is_eq (lex xs ys) ≡ true
    complete [] [] h = refl
    complete [] (y ∷ ys) h = cc
    complete (x ∷ xs) [] h = cc
    complete (x ∷ xs) (y ∷ ys) h = ground (arith, complete xs ys)

-- `memcmp` of the common length decides, and the lengths decide between a string and its prefix.
memcmp-take :
    (k : ℕ) (xs ys : List ℕ)
    → k ≡ min (length xs) (length ys)
    → (is_lt (lex xs ys) ≡ (
        is_lt (memcmp (take k xs) (take k ys))
        || (is_eq (memcmp (take k xs) (take k ys)) && ltb (length xs) (length ys))))
      × (is_gt (lex xs ys) ≡ (
          is_gt (memcmp (take k xs) (take k ys))
          || (is_eq (memcmp (take k xs) (take k ys)) && ltb (length ys) (length xs))))
      × (is_eq (lex xs ys) ≡ (is_eq (memcmp (take k xs) (take k ys)) && (length xs == length ys)))
unfolding lex memcmp
memcmp-take zero [] [] h = ground arith
memcmp-take (suc k) [] [] h = absurd (omega arith)
memcmp-take zero [] (y ∷ ys) h = ground arith
memcmp-take (suc k) [] (y ∷ ys) h = absurd (omega arith)
memcmp-take zero (x ∷ xs) [] h = ground arith
memcmp-take (suc k) (x ∷ xs) [] h = absurd (omega arith)
memcmp-take zero (x ∷ xs) (y ∷ ys) h = absurd (omega arith)
memcmp-take (suc k) (x ∷ xs) (y ∷ ys) h = ground (arith, memcmp-take k xs ys)

take-read : (mem : ℕ → ℕ) (a n m : ℕ) → n ≤ m → take n (read mem a m) ≡ read mem a n
unfolding read
take-read mem a zero m h = refl
take-read mem a (suc n) zero h = absurd (omega arith)
take-read mem a (suc n) (suc m) h = ap (◌∷◌ (mem a)) (take-read mem (a + 1) n m (omega arith))

length-read : (mem : ℕ → ℕ) (a n : ℕ) → length (read mem a n) ≡ n
unfolding read
length-read mem a zero = refl
length-read mem a (suc n) = ap suc (length-read mem (a + 1) n)

pub length-value : (mem : ℕ → ℕ) (d : Datum) → length (value mem d) ≡ size d
unfolding contents size
length-value mem (inline bs) = omega (arith, length-take (length bs) bs)
length-value mem (external n a) = length-read mem a n

contents-take :
    (mem : ℕ → ℕ) (d : Datum) (n : ℕ) → n ≤ size d → contents mem d n ≡ take n (value mem d)
unfolding contents size
contents-take mem (inline bs) n h = rw (take-all (length bs) bs (omega arith))
contents-take mem (external k a) n h = sym (take-read mem a n k h)

-- The loop over the common length compares the common prefixes of the two values.
prefix_order-take :
    (mem : ℕ → ℕ) (a b : Datum)
    → (k : ℕ) × (k ≡ min (length (value mem a)) (length (value mem b)))
      × (prefix_order mem a b ≡ memcmp (take k (value mem a)) (take k (value mem b)))
unfolding prefix_order
prefix_order-take mem a b =
    let k = if ltb (size a) (size b) then size a else size b in
    let la = length-value mem a in
    let lb = length-value mem b in
    (
      k,
      ground (arith, la, lb),
      ap₂ memcmp (contents-take mem a k (ground arith)) (contents-take mem b k (ground arith)),
    )

memcmp-lex : (xs ys : List ℕ) → length xs ≡ length ys → memcmp xs ys ≡ lex xs ys
unfolding memcmp lex
memcmp-lex [] [] h = refl
memcmp-lex [] (y ∷ ys) h = absurd (omega arith)
memcmp-lex (x ∷ xs) [] h = absurd (omega arith)
memcmp-lex (x ∷ xs) (y ∷ ys) h = ground (arith, memcmp-lex xs ys)

lex_lengths : (xs ys : List ℕ) → length xs ≢ length ys → is_eq (lex xs ys) ≡ false
lex_lengths xs ys h = elim (Bool-cases (is_eq (lex xs ys))) [
  | inl e ↦ absurd (h (ap length ((is_eq-lex xs ys).0 e)))
  | inr e ↦ e
]

memcmp-value :
    (mem : ℕ → ℕ) (a b : Datum)
    → size a ≡ size b
    → memcmp (value mem a) (contents mem b (size a)) ≡ lex (value mem a) (value mem b)
memcmp-value mem a b e =
    ap (λ n. memcmp (value mem a) (contents mem b n)) e
    ∙ memcmp-lex (value mem a) (value mem b) (length-value mem a ∙ (e ∙ sym (length-value mem b)))

same_bytes-lex :
    (mem : ℕ → ℕ) (a b : Datum) → same_bytes mem a b ≡ is_eq (lex (value mem a) (value mem b))
unfolding same_bytes
same_bytes-lex mem a b = elim (Bool-cases (size a == size b)) [
  | inl e ↦ rw (e, memcmp-value mem a b (ground arith))
  | inr e ↦ rw (
    e,
    lex_lengths (value mem a) (value mem b)
        (λ l. absurd (ground (arith, length-value mem a, length-value mem b))),
  )
]

not_equal-same_bytes :
    (mem : ℕ → ℕ) (a b : Datum) → not_equal_test mem a b ≡ not (same_bytes mem a b)
unfolding not_equal_test same_bytes
not_equal-same_bytes mem a b = ground arith

-- The tests of the six comparisons beside the order `lex`.
pub record Agrees (mem : ℕ → ℕ) (a b : Datum) : Type 0 where
  pub less : less_test mem a b ≡ is_lt (lex (value mem a) (value mem b))
  pub greater : greater_test mem a b ≡ is_gt (lex (value mem a) (value mem b))
  pub less_or_equal : less_or_equal_test mem a b ≡ not (is_gt (lex (value mem a) (value mem b)))
  pub greater_or_equal :
      greater_or_equal_test mem a b ≡ not (is_lt (lex (value mem a) (value mem b)))
  pub equal : equal_test mem a b ≡ is_eq (lex (value mem a) (value mem b))
  pub not_equal : not_equal_test mem a b ≡ not (is_eq (lex (value mem a) (value mem b)))

-- Whatever the memory and the operands, the six comparisons are those of the lexicographic order on
-- the bytes that the operands stand for.
pub tests-Agrees : (mem : ℕ → ℕ) (a b : Datum) → Agrees mem a b
unfolding less_test greater_test less_or_equal_test greater_or_equal_test equal_test
tests-Agrees mem a b =
    let (k, e, p) = prefix_order-take mem a b in
    let m = memcmp-take k (value mem a) (value mem b) e in
    let la = length-value mem a in
    let lb = length-value mem b in
    record {
      less = ground (arith, p, m, la, lb);
      greater = ground (arith, p, m, la, lb);
      less_or_equal = ground (arith, p, m, la, lb);
      greater_or_equal = ground (arith, p, m, la, lb);
      equal = same_bytes-lex mem a b;
      not_equal = not_equal-same_bytes mem a b ∙ ap not (same_bytes-lex mem a b);
    }

-- On a stack within its bounds that ends in two operands whose sizes and addresses fit in their
-- fields, a comparison takes both off and leaves the truth value of its test there.
pub compare_op-extend :
    (test : (ℕ → ℕ) → Datum → Datum → Bool) (s : Machine) (a b : Datum)
    → IsWord a
    → IsWord b
    → IsValid (extend (extend s (image a)) (image b))
    → compare_op test (extend (extend s (image a)) (image b))
      ≡ (ok tt, extend s (image (inline (vm_bool (test s.mem a b) ∷ []))))
unfolding compare_op stack_pop_pair
compare_op-extend test s a b wa wb v =
    let s₁ = extend s (image a) in
    rw (
      stack_pop-extend s₁ b wb,
      stack_pop-extend s a wa,
      stack_push-extend s (inline (vm_bool (test s.mem a b) ∷ [])) (
          omega (
            arith,
            length-image a,
            length-image b,
            length-append s.stack.items (image a),
            length-append s₁.stack.items (image b),
          )),
    )
