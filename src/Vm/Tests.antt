-- ===== src/Vm/Tests.antt =====
-- Runs of the stack machine on small programs.
use mdb_linux.Base.{ℕ, ◌≡◌, refl, List, [], ◌∷◌, some, get_or, arith}
use mdb_linux.Stack
use mdb_linux.Vm.Machine.{Machine, ok, push_bytes, pop_bytes, read, ◌>>◌}
use mdb_linux.Vm.Datum.{Datum, inline, external, size, stack_push, stack_pop, stack_top, assemble}
use mdb_linux.Vm.Ops.{
  memcmp, contents, stack_pop_pair, same_bytes, compare_op, vmop_equal, equal_test, zip_bytes,
  bitwise_op, vmop_and, vmop_not, complement_at, result_as_bool,
}
use mdb_linux.Vm.RoundTrip.{stack_pop-stack_push}
use mdb_linux.Vm.Program.{push_inline, skip, exec, run-exec}
use mdb_linux.Vm.Bounds.{InBounds, Keeps, compare_op-Keeps, run-InBounds}
use mdb_linux.Vm.Compare.{Agrees, tests-Agrees}
use mdb_linux.Vm.Run.{fetch, call_fn, run}

machine : Unit {0}
unfolding read Stack.push_multiple Stack.pop_multiple push_bytes pop_bytes size stack_push stack_pop
    stack_top assemble memcmp contents stack_pop_pair same_bytes compare_op vmop_equal equal_test
    zip_bytes bitwise_op vmop_and vmop_not complement_at result_as_bool fetch call_fn run
machine = tt

-- PUSH 7; PUSH 7; CALL 0; END.
abbrev equal_program : List ℕ
equal_program = 1 ∷ 0 ∷ 1 ∷ 0 ∷ 0 ∷ 0 ∷ 7 ∷ 1 ∷ 0 ∷ 1 ∷ 0 ∷ 0 ∷ 0 ∷ 7 ∷ 2 ∷ 0 ∷ 0 ∷ 255 ∷ []

equal_Keeps : Keeps vmop_equal
unfolding vmop_equal
equal_Keeps = compare_op-Keeps equal_test

abbrev blank : Machine
blank = record { stack = record { capacity = 64; items = [] }; mem = λ a. get_or equal_program a 0 }

equal_run :
    run (vmop_equal ∷ []) 5 0 blank
    ≡ some (
      ok tt,
      record blank { stack = record { capacity = 64; items = 255 ∷ 1 ∷ 0 ∷ 0 ∷ 0 ∷ 0 ∷ [] } },
    )
unfolding machine
equal_run = refl

and_not :
    ((stack_push (inline (12 ∷ [])) >> stack_push (inline (10 ∷ [])) >> vmop_and >> vmop_not)
      blank).1.stack.items
    ≡ 247 ∷ 1 ∷ 0 ∷ 0 ∷ 0 ∷ 0 ∷ []
unfolding machine
and_not = refl

-- PUSH 7; NOP; END.
abbrev short_program : List ℕ
short_program = 1 ∷ 0 ∷ 1 ∷ 0 ∷ 0 ∷ 0 ∷ 7 ∷ 0 ∷ 255 ∷ []

abbrev loaded : Machine
loaded = record {
  stack = record { capacity = 64; items = [] };
  mem = λ a. get_or short_program a 0;
}

abbrev seven : Datum
seven = inline (7 ∷ [])

abbrev nine : Datum
nine = inline (9 ∷ 1 ∷ [])

stack_pop-stack_push_example : (stack_push nine >> stack_pop) blank ≡ (ok nine, blank)
stack_pop-stack_push_example = stack_pop-stack_push blank nine (omega arith) (omega arith)

run-exec_example : run [] 3 0 loaded ≡ some (exec [] 0 (push_inline (7 ∷ []) ∷ skip ∷ []) loaded)
run-exec_example =
    run-exec [] tt (push_inline (7 ∷ []) ∷ skip ∷ []) 3 0 loaded (omega arith)
      (omega arith, (tt, tt))
      (refl, (refl, (refl, (refl, (refl, (refl, (refl, (refl, (refl, tt)))))))))

run-InBounds_example :
    InBounds blank
      (record blank { stack = record { capacity = 64; items = 255 ∷ 1 ∷ 0 ∷ 0 ∷ 0 ∷ 0 ∷ [] } })
run-InBounds_example =
    run-InBounds (vmop_equal ∷ []) (equal_Keeps, tt) 5 0 blank (omega arith) equal_run

tests-Agrees_example : Agrees (λ a. a) seven (external 2 5)
tests-Agrees_example = tests-Agrees (λ a. a) seven (external 2 5)
