-- ===== src/Vm/Bounds.antt =====
-- mdv_vm.c never writes outside the stack's array: whatever the program, and also where an
-- operation fails half way, the size stays within the capacity.
use mdb_linux.Base.{
  ℕ, zero, suc, ◌+◌, ◌-◌, ◌≤◌, ◌≡◌, refl, subst, ◌∙◌, Bool, true, false, List, [], ◌∷◌, ◌++◌, map,
  length, take, drop, length-append, length-take, length-drop, length-map, arith, some, All, ◌⊎◌,
  inl, inr, Bool-cases, decode, ltb→ge, some-eq-some, ltb, ◌==◌, if◌then◌else◌,
}
use mdb_linux.Stack
use mdb_linux.Stack.{Stack}
use mdb_linux.Vm.Machine.{
  Machine, Result, ok, err, failed, M, IsValid, push_bytes, pop_bytes, continue, ◌>>=◌,
}
use mdb_linux.Vm.Datum.{
  Datum, inline, external, payload, stack_push, stack_pop, stack_top, payload_size, is_external,
  slice, size, assemble,
}
use mdb_linux.Vm.Ops.{
  compare_op, stack_pop_pair, bitwise_op, combine, vmop_not, complement, complement_at, memory,
}
use mdb_linux.Vm.Run.{
  fetch, Fetched, nop, push, call, end, unknown, call_fn, resume, dispatch, run, Outcome,
}

-- What an operation leaves behind has its size within the capacity, which is as before.
abbrev pub InBounds : Machine → Machine → Type 0
InBounds s t = IsValid t × (t.stack.capacity ≡ s.stack.capacity)

pub record Keeps {A : Type 0} (m : M A) : Type 0 where
  pub apply : (s : Machine) → IsValid s → InBounds s (m s).1

pub push_bytes-Keeps : (bs : List ℕ) → Keeps (push_bytes bs)
unfolding push_bytes Stack.push_multiple
push_bytes-Keeps bs = record { apply = λ s v. ground (arith, length-append s.stack.items bs) }

pub pop_bytes-Keeps : (n : ℕ) → Keeps (pop_bytes n)
unfolding pop_bytes Stack.pop_multiple
pop_bytes-Keeps n = record {
  apply = λ s v. ground (arith, length-take (length s.stack.items - n) s.stack.items);
}

continue-Keeps :
    {A B : Type 0} (r : Result A) (s : Machine) (f : A → M B)
    → ((a : A) → Keeps (f a))
    → IsValid s
    → InBounds s (continue r s f).1
continue-Keeps (ok a) s f k v = (k a).apply s v
continue-Keeps (err e) s f k v = (v, refl)

-- A sequence of operations that keep the bounds keeps them.
pub bind-Keeps :
    {A B : Type 0} {m : M A} {f : A → M B} → Keeps m → ((a : A) → Keeps (f a)) → Keeps (m >>= f)
bind-Keeps {m = m} {f = f} km kf = record {
  apply = λ s v.
      let first = km.apply s v in
      let rest = continue-Keeps (m s).0 (m s).1 f kf first.0 in (rest.0, rest.1 ∙ first.1);
}

pub return-Keeps : {A : Type 0} (r : Result A) → Keeps (λ s. (r, s))
return-Keeps r = record { apply = λ s v. (v, refl) }

pub memory-Keeps : Keeps memory
memory-Keeps = record { apply = λ s v. (v, refl) }

pub if-Keeps : {A : Type 0} (b : Bool) {m n : M A} → Keeps m → Keeps n → Keeps (if b then m else n)
if-Keeps true km kn = km
if-Keeps false km kn = kn

pub stack_push-Keeps : (d : Datum) → Keeps (stack_push d)
unfolding stack_push
stack_push-Keeps d =
    bind-Keeps (push_bytes-Keeps _) (λ _. bind-Keeps (push_bytes-Keeps _) (λ _. push_bytes-Keeps _))

pub stack_pop-Keeps : Keeps stack_pop
unfolding stack_pop
stack_pop-Keeps = bind-Keeps (pop_bytes-Keeps 1) (λ e.
    bind-Keeps (pop_bytes-Keeps 4) (λ n. bind-Keeps (pop_bytes-Keeps _) (λ _. return-Keeps _)))

stack_pop_pair-Keeps : Keeps stack_pop_pair
unfolding stack_pop_pair
stack_pop_pair-Keeps =
    bind-Keeps stack_pop-Keeps (λ _. bind-Keeps stack_pop-Keeps (λ _. return-Keeps _))

pub compare_op-Keeps : (test : (ℕ → ℕ) → Datum → Datum → Bool) → Keeps (compare_op test)
unfolding compare_op
compare_op-Keeps test =
    bind-Keeps stack_pop_pair-Keeps (λ p. bind-Keeps memory-Keeps (λ mem. stack_push-Keeps _))

combine-Keeps : (f : ℕ → ℕ → ℕ) (mem : ℕ → ℕ) (a b : Datum) → Keeps (combine f mem a b)
unfolding combine
combine-Keeps f mem a b = if-Keeps (size a == size b) (stack_push-Keeps _) (return-Keeps _)

pub bitwise_op-Keeps : (f : ℕ → ℕ → ℕ) → Keeps (bitwise_op f)
unfolding bitwise_op
bitwise_op-Keeps f =
    bind-Keeps stack_pop_pair-Keeps
      (λ p. bind-Keeps memory-Keeps (λ mem. combine-Keeps f mem p.0 p.1))

length-slice :
    (items : List ℕ) (above n : ℕ) → above + n ≤ length items → length (slice items above n) ≡ n
length-slice items above n h =
    let start = length items - above - n in
    omega (arith, length-take n (drop start items), length-drop start items)

length-payload-assemble :
    (ext : Bool) (n : ℕ) (bs : List ℕ)
    → length bs ≡ payload_size ext n
    → length (payload (assemble ext n bs)) ≡ payload_size ext n
unfolding assemble
length-payload-assemble true n bs h = refl
length-payload-assemble false n bs h = h

-- What `stack_top` finds at the top lies wholly on the stack, and the machine does not change.
pub stack_top-cases :
    (s : Machine)
    → (stack_top s ≡ (err failed, s))
      ⊎ ((d : Datum) × (stack_top s ≡ (ok d, s)) × (length (payload d) + 5 ≤ length s.stack.items))
unfolding stack_top
stack_top-cases s =
    let items = s.stack.items in
    let ext = is_external (slice items 0 1) in
    let n = decode (slice items 1 4) in
    let sz = payload_size ext n in
    elim (Bool-cases (ltb (length items) 5)) [
      | inl small ↦ inl (rw small)
      | inr big ↦ elim (Bool-cases (ltb (length items) (sz + 5))) [
        | inl small ↦ inl (rw (big, small))
        | inr fits ↦
            let room : sz + 5 ≤ length items = ltb→ge _ _ fits in
            let found = length-slice items 5 sz (omega arith) in
            inr (
              assemble ext n (slice items 5 sz),
              rw (big, fits),
              omega (arith, length-payload-assemble ext n (slice items 5 sz) found),
            )
      ]
    ]

complement_at-InBounds :
    (d : Datum) (s : Machine)
    → length (payload d) + 5 ≤ length s.stack.items
    → IsValid s
    → InBounds s (complement_at d s)
unfolding complement_at
complement_at-InBounds (external n a) s h v = (v, refl)
complement_at-InBounds (inline bs) s h v =
    let items = s.stack.items in
    let start = length items - 5 - length bs in
    let tail = map complement bs ++ drop (start + length bs) items in
    omega (
      arith,
      length-append (take start items) tail,
      length-append (map complement bs) (drop (start + length bs) items),
      length-take start items,
      length-map complement bs,
      length-drop (start + length bs) items,
    )

not_at-InBounds :
    (r : Result Datum × Machine) (s : Machine)
    → IsValid s
    → ((r ≡ (err failed, s))
        ⊎ ((d : Datum) × (r ≡ (ok d, s)) × (length (payload d) + 5 ≤ length s.stack.items)))
    → InBounds s (continue r.0 r.1 (λ d t. (ok tt, complement_at d t))).1
not_at-InBounds r s v (inl e) = rw e (v, refl)
not_at-InBounds r s v (inr (d, e, h)) = rw e (complement_at-InBounds d s h v)

pub vmop_not-Keeps : Keeps vmop_not
unfolding vmop_not
vmop_not-Keeps = record { apply = λ s v. not_at-InBounds (stack_top s) s v (stack_top-cases s) }

call_fn-Keeps : (fns : List (M (Unit {0}))) → All Keeps fns → (id : ℕ) → Keeps (call_fn fns id)
unfolding call_fn
call_fn-Keeps [] k id = return-Keeps _
call_fn-Keeps (f ∷ fs) k zero = record { apply = k.0.apply }
call_fn-Keeps (f ∷ fs) k (suc id) = record { apply = (call_fn-Keeps fs k.1 id).apply }

module _ (fns : List (M (Unit {0}))) (keep : All Keeps fns) where
  resume-InBounds :
      (r : Result (Unit {0}) × Machine) (s : Machine) (k : Machine → Outcome)
      {out : Result (Unit {0}) × Machine}
      → InBounds s r.1
      → ((t : Machine) → IsValid t → k t ≡ some out → InBounds t out.1)
      → resume r k ≡ some out
      → InBounds s out.1
  unfolding resume
  resume-InBounds (ok _, t) s k b ih h = let c = ih t b.0 h in (c.0, c.1 ∙ b.1)
  resume-InBounds (err e, t) s k b ih h = subst (λ o. InBounds s o.1) (some-eq-some h) b

  dispatch-InBounds :
      (loop : ℕ → Machine → Outcome) (i : Fetched) (ip : ℕ) (s : Machine)
      {out : Result (Unit {0}) × Machine}
      → ((jp : ℕ) (t : Machine) → IsValid t → loop jp t ≡ some out → InBounds t out.1)
      → IsValid s
      → dispatch fns loop i ip s ≡ some out
      → InBounds s out.1
  unfolding dispatch
  dispatch-InBounds loop nop ip s ih v h = ih (ip + 1) s v h
  dispatch-InBounds loop (push d next) ip s ih v h =
      resume-InBounds (stack_push d s) s (loop next) ((stack_push-Keeps d).apply s v) (ih next) h
  dispatch-InBounds loop (call id next) ip s ih v h =
      resume-InBounds (call_fn fns id s) s (loop next) ((call_fn-Keeps fns keep id).apply s v)
        (ih next) h
  dispatch-InBounds loop end ip s ih v h = subst (λ o. InBounds s o.1) (some-eq-some h) (v, refl)
  dispatch-InBounds loop unknown ip s ih v h =
      subst (λ o. InBounds s o.1) (some-eq-some h) (v, refl)

  -- A run of any program from any address that ends, with functions that keep a stack within its
  -- bounds, leaves the stack within its bounds and its capacity unchanged if it was within them at
  -- the start, whether the run ends normally or in an error.
  pub run-InBounds :
      (fuel ip : ℕ) (s : Machine) {out : Result (Unit {0}) × Machine}
      → IsValid s
      → run fns fuel ip s ≡ some out
      → InBounds s out.1
  unfolding run
  run-InBounds zero ip s v h = cc
  run-InBounds (suc fuel) ip s v h =
      dispatch-InBounds (run fns fuel) (fetch s.mem ip) ip s
        (λ jp t w e. run-InBounds fuel jp t w e) v h
