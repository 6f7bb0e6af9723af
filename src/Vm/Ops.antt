-- ===== src/Vm/Ops.antt =====
-- The functions that mdv_vm.c offers to programs: comparisons of two popped data, bitwise
-- combinations of them, and the complement of the datum at the top.
use Prim.Native.Nat.{compare, Ordering, bit_and, bit_or}
use mdb_linux.Base.{
  ℕ, ◌+◌, ◌-◌, Bool, true, false, List, [], ◌∷◌, ◌++◌, take, drop, length, get_or, map, ltb, leb,
  ◌==◌, ◌&&◌, ◌||◌, not, if◌then◌else◌,
}
use mdb_linux.Vm.Machine.{Machine, ok, invalid_arg, invalid_type, M, return, fail, ◌>>=◌, read}
use mdb_linux.Vm.Datum.{Datum, inline, external, size, stack_push, stack_pop, stack_top}

-- The order of unsigned bytes that `memcmp` of the C library reports.
unfoldable pub memcmp : List ℕ → List ℕ → Ordering
memcmp [] ys = Ordering.eq
memcmp (x ∷ xs) [] = Ordering.gt
memcmp (x ∷ xs) (y ∷ ys) =
    let rest = memcmp xs ys in
    elim (compare x y) [
      | Ordering.lt ↦ Ordering.lt
      | Ordering.eq ↦ rest
      | Ordering.gt ↦ Ordering.gt
    ]

-- The first `n` bytes behind the pointer `data`.
unfoldable pub contents : (ℕ → ℕ) → Datum → ℕ → List ℕ
contents mem (inline bs) n = take n bs
contents mem (external k a) n = read mem a n

abbrev pub memory : M (ℕ → ℕ)
memory s = (ok s.mem, s)

-- MDV_VM_TRUE and MDV_VM_FALSE.
abbrev pub vm_bool : Bool → ℕ
vm_bool b = if b then 255 else 0

unfoldable pub stack_pop_pair : M (Datum × Datum)
stack_pop_pair = do b ← stack_pop; a ← stack_pop; return (a, b)

abbrev pub is_eq : Ordering → Bool
is_eq o = elim o [ Ordering.eq ↦ true | _ ↦ false ]

abbrev pub is_gt : Ordering → Bool
is_gt o = elim o [ Ordering.gt ↦ true | _ ↦ false ]

abbrev pub is_lt : Ordering → Bool
is_lt o = elim o [ Ordering.lt ↦ true | _ ↦ false ]

-- What each comparison finds for two data.
unfoldable pub same_bytes : (ℕ → ℕ) → Datum → Datum → Bool
same_bytes mem a b =
    size a == size b && is_eq (memcmp (contents mem a (size a)) (contents mem b (size a)))

unfoldable pub prefix_order : (ℕ → ℕ) → Datum → Datum → Ordering
prefix_order mem a b =
    let n = if ltb (size a) (size b) then size a else size b in
    memcmp (contents mem a n) (contents mem b n)

-- The common shape of the comparisons: two operands off the stack, one truth value onto it.
unfoldable pub compare_op : ((ℕ → ℕ) → Datum → Datum → Bool) → M (Unit {0})
compare_op test = do
  p ← stack_pop_pair
  mem ← memory
  stack_push (inline (vm_bool (test mem p.0 p.1) ∷ []))

unfoldable pub equal_test : (ℕ → ℕ) → Datum → Datum → Bool
equal_test mem a b = same_bytes mem a b

unfoldable pub not_equal_test : (ℕ → ℕ) → Datum → Datum → Bool
not_equal_test mem a b =
    not (size a == size b)
    || not (is_eq (memcmp (contents mem a (size a)) (contents mem b (size a))))

unfoldable pub greater_test : (ℕ → ℕ) → Datum → Datum → Bool
greater_test mem a b = let o = prefix_order mem a b in is_gt o || (is_eq o && ltb (size b) (size a))

unfoldable pub greater_or_equal_test : (ℕ → ℕ) → Datum → Datum → Bool
greater_or_equal_test mem a b =
    let o = prefix_order mem a b in is_gt o || (is_eq o && leb (size b) (size a))

unfoldable pub less_test : (ℕ → ℕ) → Datum → Datum → Bool
less_test mem a b = let o = prefix_order mem a b in is_lt o || (is_eq o && ltb (size a) (size b))

unfoldable pub less_or_equal_test : (ℕ → ℕ) → Datum → Datum → Bool
less_or_equal_test mem a b =
    let o = prefix_order mem a b in is_lt o || (is_eq o && leb (size a) (size b))

unfoldable pub vmop_equal : M (Unit {0})
vmop_equal = compare_op equal_test

unfoldable pub vmop_not_equal : M (Unit {0})
vmop_not_equal = compare_op not_equal_test

unfoldable pub vmop_greater : M (Unit {0})
vmop_greater = compare_op greater_test

unfoldable pub vmop_greater_or_equal : M (Unit {0})
vmop_greater_or_equal = compare_op greater_or_equal_test

unfoldable pub vmop_less : M (Unit {0})
vmop_less = compare_op less_test

unfoldable pub vmop_less_or_equal : M (Unit {0})
vmop_less_or_equal = compare_op less_or_equal_test

-- The loop `res[i] = lhs[i] op rhs[i]` over two arrays of one size.
unfoldable pub zip_bytes : (ℕ → ℕ → ℕ) → List ℕ → List ℕ → List ℕ
zip_bytes f [] ys = []
zip_bytes f (x ∷ xs) [] = []
zip_bytes f (x ∷ xs) (y ∷ ys) = f x y ∷ zip_bytes f xs ys

-- The operands must have one size; their bytes are combined into a new datum.
unfoldable pub combine : (ℕ → ℕ → ℕ) → (ℕ → ℕ) → Datum → Datum → M (Unit {0})
combine f mem a b =
    if size a == size b
    then stack_push (inline (zip_bytes f (contents mem a (size a)) (contents mem b (size a))))
    else fail invalid_arg

unfoldable pub bitwise_op : (ℕ → ℕ → ℕ) → M (Unit {0})
unfolding combine
bitwise_op f = do p ← stack_pop_pair; mem ← memory; combine f mem p.0 p.1

unfoldable pub vmop_and : M (Unit {0})
vmop_and = bitwise_op bit_and

unfoldable pub vmop_or : M (Unit {0})
vmop_or = bitwise_op bit_or

-- `~` of a byte.
abbrev pub complement : ℕ → ℕ
complement b = 255 - b

-- The bytes behind the pointer `op.data` complemented in place: on the stack for an inline datum
-- (they end five bytes below its top), in memory for an external one.
unfoldable pub complement_at : Datum → Machine → Machine
complement_at (inline bs) s =
    let items = s.stack.items in
    let start = length items - 5 - length bs in
    record s {
      stack = record {
        capacity = s.stack.capacity;
        items = take start items ++ (map complement bs ++ drop (start + length bs) items);
      };
    }
complement_at (external n a) s = record s {
  mem = λ x. if leb a x && ltb x (a + n) then complement (s.mem x) else s.mem x;
}

unfoldable pub vmop_not : M (Unit {0})
vmop_not = do d ← stack_top; λ s. (ok tt, complement_at d s)

-- `mdv_vm_result_as_bool`. The datum at the top must be one byte long.
unfoldable pub result_as_bool : M Bool
result_as_bool = do
  d ← stack_top
  mem ← memory
  if size d == 1 then return (not (get_or (contents mem d 1) 0 0 == 0)) else fail invalid_type
