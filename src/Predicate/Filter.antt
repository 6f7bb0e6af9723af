-- ===== src/Predicate/Filter.antt =====
-- What a compiled filter does when the stack machine runs it.
use mdb_linux.Base.{
  ℕ, suc, ◌+◌, ◌≤◌, ◌≡◌, sym, ap, ◌∙◌, subst, some-eq-some, Bool, true, List, [], ◌∷◌, some, length,
  arith, All,
}
use mdb_linux.Vector
use mdb_linux.Vm.Machine.{Machine, Result, ok, IsValid}
use mdb_linux.Vm.Datum.{inline}
use mdb_linux.Vm.Ops.{
  result_as_bool, vmop_equal, vmop_not_equal, vmop_greater, vmop_greater_or_equal, vmop_less,
  vmop_less_or_equal, vmop_and, vmop_or,
}
use mdb_linux.Vm.Run.{end, run, dispatch, fetch}
use mdb_linux.Vm.RoundTrip.{extend, image, stack_push-extend, length-image}
use mdb_linux.Vm.Bounds.{
  InBounds, Keeps, compare_op-Keeps, bitwise_op-Keeps, vmop_not-Keeps, run-InBounds,
}
use mdb_linux.Vm.Program.{Loaded, fetch-Loaded, push_inline, program, layout, Loaded-append}
use mdb_linux.Vm.Top.{result_as_bool-vm_bool}
use mdb_linux.Predicate
use mdb_linux.Predicate.{Predicate, predicate_fns, empty_predicate}

fns-Keep : All Keeps predicate_fns
unfolding vmop_equal vmop_not_equal vmop_greater vmop_greater_or_equal vmop_less vmop_less_or_equal
    vmop_and vmop_or
fns-Keep = (
  compare_op-Keeps _,
  (
    compare_op-Keeps _,
    (
      compare_op-Keeps _,
      (
        compare_op-Keeps _,
        (
          compare_op-Keeps _,
          (compare_op-Keeps _, (bitwise_op-Keeps _, (bitwise_op-Keeps _, (vmop_not-Keeps, tt)))),
        ),
      ),
    ),
  ),
)

-- Whatever bytes stand at an address, running them with the functions of a predicate never leaves
-- the bounds of the stack and never changes its capacity, if the stack is within its bounds at the
-- start and the run ends.
pub fns-InBounds :
    (fuel ip : ℕ) (s : Machine) {out : Result (Unit {0}) × Machine}
    → IsValid s
    → run predicate_fns fuel ip s ≡ some out
    → InBounds s out.1
fns-InBounds fuel ip s v h = run-InBounds predicate_fns fns-Keep fuel ip s v h

end_there : (mem : ℕ → ℕ) (ip : ℕ) → mem ip ≡ 255 → fetch mem ip ≡ end
unfolding fetch
end_there mem ip h = rw (h)

default_run :
    (fuel a : ℕ) (s : Machine)
    → Loaded s.mem a empty_predicate
    → length s.stack.items + 6 ≤ s.stack.capacity
    → run predicate_fns (suc (suc fuel)) a s ≡ some (ok tt, extend s (image (inline (255 ∷ []))))
unfolding run dispatch
default_run fuel a s l room =
    let (front, back) = Loaded-append s.mem a (layout (push_inline (255 ∷ []))) (program []) l in
    rw
      (
        fetch-Loaded s.mem a (push_inline (255 ∷ [])) (omega arith) front,
        stack_push-extend s (inline (255 ∷ [])) (omega (arith, length-image (inline (255 ∷ [])))),
      )
      (rw (end_there s.mem (a + 1 + 5 + 1) (ap s.mem (omega arith) ∙ back.0)))

abbrev parsed : ℕ → Predicate
parsed data_ptr = record {
  rc = 1;
  expr = record {
    rc = 1;
    capacity = 8;
    item_size = 1;
    data_ptr = data_ptr;
    items = empty_predicate;
  };
  fns = predicate_fns;
}

parse-parsed :
    (grants : ℕ → Bool) (moved : ℕ → ℕ) (data_ptr : ℕ) (expression : List ℕ)
    → grants 8 ≡ true
    → Predicate.parse true grants moved data_ptr expression ≡ some (parsed data_ptr)
unfolding Predicate.parse Vector.create Vector.append Vector.resize_if_required Vector.double_until
parse-parsed grants moved data_ptr expression g = rw (g)

-- Whatever the expression, a predicate that is parsed when its vector gets its memory holds the
-- default program, and every run of that program with two units of fuel from where it stands in
-- memory, on a stack with room for six more bytes, ends normally and leaves the answer true.
pub parse-true :
    (grants : ℕ → Bool) (moved : ℕ → ℕ) (data_ptr : ℕ) (expression : List ℕ) (p : Predicate)
    (fuel a : ℕ) (s : Machine)
    → grants 8 ≡ true
    → Predicate.parse true grants moved data_ptr expression ≡ some p
    → Loaded s.mem a p.expr.items
    → length s.stack.items + 6 ≤ s.stack.capacity
    → (out : Machine) × (run p.fns (suc (suc fuel)) a s ≡ some (ok tt, out))
      × (result_as_bool out ≡ (ok true, out))
parse-true grants moved data_ptr expression p fuel a s g h l room =
    let e : parsed data_ptr ≡ p =
      some-eq-some (sym (parse-parsed grants moved data_ptr expression g) ∙ h) in
    let out = extend s (image (inline (255 ∷ []))) in
    (
      out,
      subst (λ (q : Predicate). run q.fns (suc (suc fuel)) a s ≡ some (ok tt, out)) e
          (default_run fuel a s (subst (λ (q : Predicate). Loaded s.mem a q.expr.items) (sym e) l)
            room),
      result_as_bool-vm_bool s true,
    )
