-- ===== src/Vm/RoundTrip.antt =====
-- What mdv_vm_stack_push writes, and that mdv_vm_stack_pop and mdv_vm_stack_top read it back.
use mdb_linux.Base.{
  ℕ, ◌+◌, ◌-◌, ◌^◌, ◌≤◌, ◌<◌, ◌≡◌, refl, ap, List, [], ◌∷◌, ◌++◌, append_assoc, length,
  length-append, take-append, drop-append, encode, decode, decode-encode, arith, le→leb, lt→leb,
}
use mdb_linux.Stack
use mdb_linux.Stack.{Stack}
use mdb_linux.Vm.Machine.{Machine, ok, err, stack_overflow, push_bytes, pop_bytes, ◌>>◌}
use mdb_linux.Vm.Datum.{
  Datum, inline, external, size, payload, flag, stack_push, stack_pop, assemble, payload_size,
  is_external,
}

-- The machine with more bytes on its stack.
abbrev pub extend : Machine → List ℕ → Machine
extend s bs = record s {
  stack = record { capacity = s.stack.capacity; items = s.stack.items ++ bs };
}

pub push_bytes-extend :
    (s : Machine) (bs : List ℕ)
    → length s.stack.items + length bs ≤ s.stack.capacity
    → push_bytes bs s ≡ (ok tt, extend s bs)
unfolding push_bytes Stack.push_multiple
push_bytes-extend s bs h = rw (le→leb _ _ h)

pub push_bytes_overflow :
    (s : Machine) (bs : List ℕ)
    → s.stack.capacity < length s.stack.items + length bs
    → push_bytes bs s ≡ (err stack_overflow, s)
unfolding push_bytes Stack.push_multiple
push_bytes_overflow s bs h = rw (lt→leb _ _ h)

pub pop_bytes-extend :
    (s : Machine) (bs : List ℕ) (n : ℕ) → n ≡ length bs → pop_bytes n (extend s bs) ≡ (ok bs, s)
unfolding pop_bytes Stack.pop_multiple
pop_bytes-extend s bs n e =
    let items = s.stack.items in
    let above = length-append items bs in
    rw (
      le→leb n (length (items ++ bs)) (omega arith),
      take-append (length (items ++ bs) - n) items bs (omega arith),
      drop-append (length (items ++ bs) - n) items bs (omega arith),
    )

-- The bytes of a datum on the stack.
abbrev pub image : Datum → List ℕ
image d = payload d ++ (encode 4 (size d) ++ flag d ∷ [])

-- A size fits in four bytes and an address in eight.
abbrev pub IsWord : Datum → Type 0
IsWord (inline bs) = length bs < 256 ^ 4
IsWord (external n a) = (n < 256 ^ 4) × (a < 256 ^ 8)

pub length-image : (d : Datum) → length (image d) ≡ length (payload d) + 5
length-image d = omega (arith, length-append (payload d) (encode 4 (size d) ++ flag d ∷ []))

extend-extend : (s : Machine) (xs ys : List ℕ) → extend (extend s xs) ys ≡ extend s (xs ++ ys)
extend-extend s xs ys = rw append_assoc

-- With room on the stack, pushing a datum writes its image.
pub stack_push-extend :
    (s : Machine) (d : Datum)
    → length s.stack.items + length (image d) ≤ s.stack.capacity
    → stack_push d s ≡ (ok tt, extend s (image d))
unfolding stack_push
stack_push-extend s d h =
    let n = length-image d in
    let s₁ = extend s (payload d) in
    let s₂ = extend s₁ (encode 4 (size d)) in
    let l₁ = length-append s.stack.items (payload d) in
    let l₂ = length-append s₁.stack.items (encode 4 (size d)) in
    rw (
      push_bytes-extend s (payload d) (omega arith),
      push_bytes-extend s₁ (encode 4 (size d)) (omega arith),
      push_bytes-extend s₂ (flag d ∷ []) (omega arith),
      append_assoc,
      append_assoc,
    )

image-parts :
    (s : Machine) (d : Datum)
    → extend s (image d) ≡ extend (extend (extend s (payload d)) (encode 4 (size d))) (flag d ∷ [])
image-parts s d = rw (append_assoc, append_assoc)

pub decode-size : (d : Datum) → IsWord d → decode (encode 4 (size d)) ≡ size d
unfolding size
decode-size (inline bs) w = decode-encode 4 (length bs) w
decode-size (external n a) w = decode-encode 4 n w.0

pub assemble-parts :
    (d : Datum) → IsWord d → assemble (is_external (flag d ∷ [])) (size d) (payload d) ≡ d
unfolding assemble size
assemble-parts (inline bs) w = refl
assemble-parts (external n a) w = ap (external n) (decode-encode 8 a w.1)

pub payload_size-length :
    (d : Datum) → payload_size (is_external (flag d ∷ [])) (size d) ≡ length (payload d)
unfolding size
payload_size-length (inline bs) = refl
payload_size-length (external n a) = refl

-- Popping from a stack that ends in the image of a datum gives the datum, and leaves the rest.
pub stack_pop-extend :
    (s : Machine) (d : Datum) → IsWord d → stack_pop (extend s (image d)) ≡ (ok d, s)
unfolding stack_pop
stack_pop-extend s d w =
    let s₁ = extend s (payload d) in
    let s₂ = extend s₁ (encode 4 (size d)) in
    rw (
      image-parts s d,
      pop_bytes-extend s₂ (flag d ∷ []) 1 refl,
      pop_bytes-extend s₁ (encode 4 (size d)) 4 refl,
      decode-size d w,
      pop_bytes-extend s (payload d) _ (payload_size-length d),
      assemble-parts d w,
    )

-- A datum whose size fits in four bytes, and whose address, if it is external, in eight, is pushed
-- onto a stack with room for its bytes and popped again: the pop gives the datum, and the machine
-- is as it was before the push.
pub stack_pop-stack_push :
    (s : Machine) (d : Datum)
    → IsWord d
    → length s.stack.items + length (image d) ≤ s.stack.capacity
    → (stack_push d >> stack_pop) s ≡ (ok d, s)
stack_pop-stack_push s d w h = rw (stack_push-extend s d h) (stack_pop-extend s d w)
