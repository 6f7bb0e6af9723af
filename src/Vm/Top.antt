-- ===== src/Vm/Top.antt =====
-- mdv_vm_stack_top, and what reads or changes the datum at the top in place: mdv_vmop_not and
-- mdv_vm_result_as_bool.
use mdb_linux.Base.{
  ℕ, ◌+◌, ◌-◌, ◌^◌, ◌<◌, ◌≡◌, ◌≢◌, refl, sym, ap, ap₂, ◌∙◌, Bool, true, false, not, List, [], ◌∷◌,
  ◌++◌, append_assoc, map, length, take, drop, get_or, length-append, length-map, take-append,
  drop-append, encode, arith, ◌==◌, le→ltb, All,
}
use mdb_linux.Vm.Machine.{Machine, ok, err, invalid_type, ◌>>◌}
use mdb_linux.Vm.Datum.{Datum, inline, size, payload, flag, slice, stack_top}
use mdb_linux.Vm.Ops.{contents, complement, complement_at, vmop_not, result_as_bool, vm_bool}
use mdb_linux.Vm.RoundTrip.{
  extend, image, IsWord, length-image, decode-size, payload_size-length, assemble-parts,
}

slice-parts :
    (items xs ys zs : List ℕ) (above n : ℕ)
    → items ≡ xs ++ (ys ++ zs)
    → above ≡ length zs
    → n ≡ length ys
    → slice items above n ≡ ys
slice-parts items xs ys zs above n e ha hn =
    let l = ap length e in
    let start = length items - above - n in
    rw (
      e,
      drop-append (length (xs ++ (ys ++ zs)) - above - n) xs (ys ++ zs)
          (omega (arith, length-append xs (ys ++ zs), length-append ys zs)),
      take-append n ys zs hn,
    )

module _ (s : Machine) (d : Datum) (w : IsWord d) where
  items : List ℕ
  items = s.stack.items ++ image d

  top_flag : slice items 0 1 ≡ flag d ∷ []
  unfolding items
  top_flag =
      slice-parts items (s.stack.items ++ (payload d ++ encode 4 (size d))) (flag d ∷ []) [] 0 1
        (rw (append_assoc, append_assoc)) refl refl

  top_size : slice items 1 4 ≡ encode 4 (size d)
  unfolding items
  top_size =
      slice-parts items (s.stack.items ++ payload d) (encode 4 (size d)) (flag d ∷ []) 1 4
        (rw append_assoc) refl refl

  top_payload : slice items 5 (length (payload d)) ≡ payload d
  unfolding items
  top_payload =
      slice-parts items s.stack.items (payload d) (encode 4 (size d) ++ flag d ∷ []) 5 _ refl refl
        refl

  -- At a stack that ends in the image of a datum, the top is that datum.
  pub stack_top-extend : stack_top (extend s (image d)) ≡ (ok d, extend s (image d))
  unfolding stack_top items
  stack_top-extend =
      let n = length-append s.stack.items (image d) in
      let m = length-image d in
      rw (
        top_flag,
        top_size,
        decode-size d w,
        payload_size-length d,
        top_payload,
        le→ltb (length (s.stack.items ++ image d)) 5 (omega arith),
        le→ltb (length (s.stack.items ++ image d)) (length (payload d) + 5) (omega arith),
        assemble-parts d w,
      )

complement_at-extend :
    (s : Machine) (bs : List ℕ)
    → complement_at (inline bs) (extend s (image (inline bs)))
      ≡ extend s (image (inline (map complement bs)))
unfolding complement_at size
complement_at-extend s bs =
    let tail = encode 4 (length bs) ++ 0 ∷ [] in
    let items = s.stack.items in
    let n = length-append items (bs ++ tail) in
    let m = length-append bs tail in
    let start = length (items ++ (bs ++ tail)) - 5 - length bs in
    let seam : start + length bs ≡ length (items ++ bs) = omega (arith, length-append items bs) in
    let back : drop (start + length bs) (items ++ (bs ++ tail)) ≡ tail =
      ap (drop (start + length bs)) (sym (append_assoc items bs tail))
      ∙ drop-append (start + length bs) (items ++ bs) tail seam in
    rw (take-append start items (bs ++ tail) (omega arith), back, length-map complement bs)

-- `mdv_vmop_not` replaces the bytes of an inline datum at the top by their complements.
pub vmop_not-extend :
    (s : Machine) (bs : List ℕ)
    → length bs < 256 ^ 4
    → vmop_not (extend s (image (inline bs)))
      ≡ (ok tt, extend s (image (inline (map complement bs))))
unfolding vmop_not
vmop_not-extend s bs w =
    rw (stack_top-extend s (inline bs) w) (ap (λ t. (ok tt, t)) (complement_at-extend s bs))

complement_twice : (bs : List ℕ) → All (λ b. b < 256) bs → map complement (map complement bs) ≡ bs
complement_twice [] h = refl
complement_twice (b ∷ bs) h = ap₂ ◌∷◌ (omega arith) (complement_twice bs h.1)

-- Two complements of an inline datum of fewer than 256 ^ 4 bytes at the top of the stack restore
-- its bytes, and the whole machine.
pub vmop_not_twice :
    (s : Machine) (bs : List ℕ)
    → length bs < 256 ^ 4
    → All (λ b. b < 256) bs
    → (vmop_not >> vmop_not) (extend s (image (inline bs))) ≡ (ok tt, extend s (image (inline bs)))
vmop_not_twice s bs w h = rw (
  vmop_not-extend s bs w,
  vmop_not-extend s (map complement bs) (omega (arith, length-map complement bs)),
  complement_twice bs h,
)

read_truth : (b : Bool) → not (get_or (take 1 (vm_bool b ∷ [])) 0 0 == 0) ≡ b
read_truth true = refl
read_truth false = refl

-- A truth value that an operation left at the top is read back, and stays there.
pub result_as_bool-vm_bool :
    (s : Machine) (b : Bool)
    → result_as_bool (extend s (image (inline (vm_bool b ∷ []))))
      ≡ (ok b, extend s (image (inline (vm_bool b ∷ []))))
unfolding result_as_bool size contents
result_as_bool-vm_bool s b =
    rw (stack_top-extend s (inline (vm_bool b ∷ [])) (omega arith), read_truth b)

-- A datum that is not one byte long is no truth value.
pub result_as_bool_type :
    (s : Machine) (d : Datum)
    → IsWord d
    → size d ≢ 1
    → result_as_bool (extend s (image d)) ≡ (err invalid_type, extend s (image d))
unfolding result_as_bool
result_as_bool_type s d w h = rw (stack_top-extend s d w) (ground arith)
