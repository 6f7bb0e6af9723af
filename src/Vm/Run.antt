-- ===== src/Vm/Run.antt =====
-- mdv_vm_run: the interpreter loop. `none` is a run that the fuel cut short.
use mdb_linux.Base.{
  ℕ, zero, suc, ◌+◌, List, [], ◌∷◌, Option, none, some, decode, not, ◌==◌, if◌then◌else◌,
}
use mdb_linux.Vm.Machine.{Machine, Result, ok, err, failed, no_impl, M, read}
use mdb_linux.Vm.Datum.{Datum, inline, external, stack_push}

-- The instruction that stands at an address, taken apart: where its operands lie and what follows.
pub data Fetched : Type 0 where
  nop : Fetched
  push : Datum → ℕ → Fetched
  call : ℕ → ℕ → Fetched
  end : Fetched
  unknown : Fetched

-- The operands of MDV_VM_PUSH at `ip`. The pointer of an external datum is the address of its
-- operand in the program, and the operand takes eight bytes.
unfoldable pub fetch_push : (ℕ → ℕ) → ℕ → Fetched
fetch_push mem ip =
    let n = decode (read mem (ip + 1) 4) in
    if not (mem ip == 0)
    then push (external n (ip + 5)) (ip + 5 + 8)
    else push (inline (read mem (ip + 5) n)) (ip + 5 + n)

unfoldable pub fetch : (ℕ → ℕ) → ℕ → Fetched
unfolding fetch_push
fetch mem ip =
    let op = mem ip in
    if op == 0
    then nop
    else if op == 1
    then fetch_push mem (ip + 1)
    else if op == 255
    then end
    else if op == 2
    then call (decode (read mem (ip + 1) 2)) (ip + 1 + 2)
    else unknown

-- `fns[id](stack)`, under the test of `fns_count`.
unfoldable pub call_fn : List (M (Unit {0})) → ℕ → M (Unit {0})
call_fn [] id s = (err no_impl, s)
call_fn (f ∷ fs) zero s = f s
call_fn (f ∷ fs) (suc id) s = call_fn fs id s

abbrev pub Outcome : Type 0
Outcome = Option (Result (Unit {0}) × Machine)

-- After a push or a call the loop goes on, or stops with the error.
unfoldable pub resume : Result (Unit {0}) × Machine → (Machine → Outcome) → Outcome
resume (ok _, s) k = k s
resume (err e, s) k = some (err e, s)

module _ (fns : List (M (Unit {0}))) where
  -- The `switch` on the instruction at `ip`, with the rest of the loop as a function.
  unfoldable pub dispatch : (ℕ → Machine → Outcome) → Fetched → ℕ → Machine → Outcome
  unfolding resume
  dispatch loop nop ip s = loop (ip + 1) s
  dispatch loop (push d next) ip s = resume (stack_push d s) (loop next)
  dispatch loop (call id next) ip s = resume (call_fn fns id s) (loop next)
  dispatch loop end ip s = some (ok tt, s)
  dispatch loop unknown ip s = some (err failed, s)

  unfoldable pub run : ℕ → ℕ → Machine → Outcome
  unfolding dispatch
  run zero ip s = none
  run (suc fuel) ip s = dispatch (run fuel) (fetch s.mem ip) ip s
