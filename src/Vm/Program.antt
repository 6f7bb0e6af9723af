-- ===== src/Vm/Program.antt =====
-- The instructions as mdv_vm.h documents their layout, and that mdv_vm_run carries out the
-- instructions of a program one after the other.
use mdb_linux.Base.{
  ℕ, zero, suc, ◌+◌, ◌^◌, ◌<◌, ◌≡◌, refl, sym, ap, ap₂, ◌∙◌, subst, List, [], ◌∷◌, ◌++◌, length,
  length-append, encode, decode-encode, arith, some, All,
}
use mdb_linux.Stack
use mdb_linux.Vm.Machine.{
  Machine, Result, ok, err, M, return, read, push_bytes, continue, ◌>>=◌, ◌>>◌,
}
use mdb_linux.Vm.Datum.{Datum, inline, external, stack_push}
use mdb_linux.Vm.Run.{Fetched, nop, push, call, end, fetch, call_fn, resume, dispatch, run, Outcome}

pub data Instruction : Type 0 where
  skip : Instruction
  push_inline : List ℕ → Instruction
  push_external : ℕ → ℕ → Instruction
  call_function : ℕ → Instruction

-- The bytes of an instruction: opcode, then the operands.
abbrev pub layout : Instruction → List ℕ
layout skip = 0 ∷ []
layout (push_inline bs) = 1 ∷ 0 ∷ (encode 4 (length bs) ++ bs)
layout (push_external n p) = 1 ∷ 1 ∷ (encode 4 n ++ encode 8 p)
layout (call_function id) = 2 ∷ encode 2 id

abbrev pub program : List Instruction → List ℕ
program [] = 255 ∷ []
program (i ∷ is) = layout i ++ program is

abbrev pub Fits : Instruction → Type 0
Fits skip = Unit
Fits (push_inline bs) = length bs < 256 ^ 4
Fits (push_external n p) = n < 256 ^ 4
Fits (call_function id) = id < 256 ^ 2

-- The bytes stand in memory from an address on.
abbrev pub Loaded : (ℕ → ℕ) → ℕ → List ℕ → Type 0
Loaded mem a [] = Unit
Loaded mem a (b ∷ bs) = (mem a ≡ b) × Loaded mem (a + 1) bs

read-Loaded :
    (mem : ℕ → ℕ) (a n : ℕ) (bs : List ℕ) → n ≡ length bs → Loaded mem a bs → read mem a n ≡ bs
unfolding read
read-Loaded mem a zero [] e l = refl
read-Loaded mem a zero (b ∷ bs) e l = absurd (omega arith)
read-Loaded mem a (suc n) [] e l = absurd (omega arith)
read-Loaded mem a (suc n) (b ∷ bs) e l =
    ap₂ ◌∷◌ l.0 (read-Loaded mem (a + 1) n bs (omega arith) l.1)

pub Loaded-append :
    (mem : ℕ → ℕ) (a : ℕ) (xs ys : List ℕ)
    → Loaded mem a (xs ++ ys)
    → Loaded mem a xs × Loaded mem (a + length xs) ys
Loaded-append mem a [] ys l = (tt, subst (λ k. Loaded mem k ys) (omega arith) l)
Loaded-append mem a (x ∷ xs) ys l =
    let (front, back) = Loaded-append mem (a + 1) xs ys l.1 in
    ((l.0, front), subst (λ k. Loaded mem k ys) (omega arith) back)

-- What the interpreter has to find at the instruction.
abbrev decoded : Instruction → ℕ → Fetched
decoded skip a = nop
decoded (push_inline bs) a = push (inline bs) (a + 1 + 5 + length bs)
decoded (push_external n p) a = push (external n (a + 1 + 5)) (a + 1 + 5 + 8)
decoded (call_function id) a = call id (a + 1 + 2)

pub fetch-Loaded :
    (mem : ℕ → ℕ) (a : ℕ) (i : Instruction)
    → Fits i
    → Loaded mem a (layout i)
    → fetch mem a ≡ decoded i a
unfolding fetch
fetch-Loaded mem a skip f l = rw (l.0)
fetch-Loaded mem a (push_inline bs) f l =
    rw
      (
        l.0,
        l.1.0,
        read-Loaded mem (a + 1 + 1) 4 (encode 4 (length bs)) refl
            (Loaded-append mem (a + 1 + 1) (encode 4 (length bs)) bs l.1.1).0,
        decode-encode 4 (length bs) f,
      )
      (ap (λ xs. push (inline xs) (a + 1 + 5 + length bs)) body)
  where
    body : read mem (a + 1 + 5) (length bs) ≡ bs
    body =
        let (front, back) = Loaded-append mem (a + 1 + 1) (encode 4 (length bs)) bs l.1.1 in
        read-Loaded mem (a + 1 + 5) (length bs) bs refl
          (subst (λ k. Loaded mem k bs) (omega arith) back)
fetch-Loaded mem a (push_external n p) f l =
    let (front, back) = Loaded-append mem (a + 1 + 1) (encode 4 n) (encode 8 p) l.1.1 in
    rw (l.0, l.1.0, read-Loaded mem (a + 1 + 1) 4 (encode 4 n) refl front, decode-encode 4 n f)
fetch-Loaded mem a (call_function id) f l =
    rw (l.0, read-Loaded mem (a + 1) 2 (encode 2 id) refl l.1, decode-encode 2 id f)

-- An operation that writes nothing to memory.
pub record KeepsMem {A : Type 0} (m : M A) : Type 0 where
  pub apply : (s : Machine) → (m s).1.mem ≡ s.mem

push_bytes-KeepsMem : (bs : List ℕ) → KeepsMem (push_bytes bs)
unfolding push_bytes Stack.push_multiple
push_bytes-KeepsMem bs = record { apply = λ s. ground arith }

continue-mem :
    {A B : Type 0} (r : Result A) (s : Machine) (f : A → M B)
    → ((a : A) → KeepsMem (f a))
    → (continue r s f).1.mem ≡ s.mem
continue-mem (ok a) s f k = (k a).apply s
continue-mem (err e) s f k = refl

pub bind-KeepsMem :
    {A B : Type 0} {m : M A} {f : A → M B}
    → KeepsMem m
    → ((a : A) → KeepsMem (f a))
    → KeepsMem (m >>= f)
bind-KeepsMem {m = m} {f = f} km kf = record {
  apply = λ s. continue-mem (m s).0 (m s).1 f kf ∙ km.apply s;
}

pub stack_push-KeepsMem : (d : Datum) → KeepsMem (stack_push d)
unfolding stack_push
stack_push-KeepsMem d =
    bind-KeepsMem (push_bytes-KeepsMem _)
      (λ _. bind-KeepsMem (push_bytes-KeepsMem _) (λ _. push_bytes-KeepsMem _))

call_fn-KeepsMem :
    (fns : List (M (Unit {0}))) → All KeepsMem fns → (id : ℕ) → KeepsMem (call_fn fns id)
unfolding call_fn
call_fn-KeepsMem [] k id = record { apply = λ s. refl }
call_fn-KeepsMem (f ∷ fs) k zero = record { apply = k.0.apply }
call_fn-KeepsMem (f ∷ fs) k (suc id) = record { apply = (call_fn-KeepsMem fs k.1 id).apply }

module _ (fns : List (M (Unit {0}))) where
  -- The effect of one instruction that stands at an address, and of a sequence of them.
  unfoldable pub exec_instruction : ℕ → Instruction → M (Unit {0})
  exec_instruction a skip = return tt
  exec_instruction a (push_inline bs) = stack_push (inline bs)
  exec_instruction a (push_external n p) = stack_push (external n (a + 1 + 5))
  exec_instruction a (call_function id) = call_fn fns id

  unfoldable pub exec : ℕ → List Instruction → M (Unit {0})
  unfolding exec_instruction
  exec a [] = return tt
  exec a (i ∷ is) = exec_instruction a i >> exec (a + length (layout i)) is

  module _ (keep : All KeepsMem fns) where
    resume-continue :
        (r : Result (Unit {0}) × Machine) (s : Machine) (k : Machine → Outcome) (g : M (Unit {0}))
        → r.1.mem ≡ s.mem
        → ((t : Machine) → t.mem ≡ s.mem → k t ≡ some (g t))
        → resume r k ≡ some (continue r.0 r.1 (λ _. g))
    unfolding resume
    resume-continue (ok _, t) s k g e ih = ih t e
    resume-continue (err x, t) s k g e ih = refl

    dispatch-decoded :
        (i : Instruction) (a : ℕ) (s : Machine) (loop : ℕ → Machine → Outcome) (g : M (Unit {0}))
        → ((t : Machine) → t.mem ≡ s.mem → loop (a + length (layout i)) t ≡ some (g t))
        → dispatch fns loop (decoded i a) a s ≡ some ((exec_instruction a i >> g) s)
    unfolding dispatch exec_instruction
    dispatch-decoded skip a s loop g ih = ih s refl
    dispatch-decoded (push_inline bs) a s loop g ih =
        resume-continue (stack_push (inline bs) s) s _ g ((stack_push-KeepsMem (inline bs)).apply s)
          (λ t e. ap (λ k. loop k t) (next bs) ∙ ih t e)
      where
        next : (bs : List ℕ) → a + 1 + 5 + length bs ≡ a + length (layout (push_inline bs))
        next bs = omega (arith, length-append (encode 4 (length bs)) bs)
    dispatch-decoded (push_external n p) a s loop g ih =
        resume-continue (stack_push (external n (a + 1 + 5)) s) s _ g
          ((stack_push-KeepsMem (external n (a + 1 + 5))).apply s)
          (λ t e.
            ap (λ k. loop k t) (omega (arith, length-append (encode 4 n) (encode 8 p))) ∙ ih t e)
    dispatch-decoded (call_function id) a s loop g ih =
        resume-continue (call_fn fns id s) s _ g ((call_fn-KeepsMem fns keep id).apply s)
          (λ t e. ap (λ k. loop k t) (omega arith) ∙ ih t e)

    -- If no function writes to memory and every operand fits in its field, a run of a program that
    -- stands in memory, with one unit of fuel for each instruction and one for END, ends, and does
    -- what its instructions do in order, up to the first that fails.
    pub run-exec :
        (is : List Instruction) (fuel a : ℕ) (s : Machine)
        → length is < fuel
        → All Fits is
        → Loaded s.mem a (program is)
        → run fns fuel a s ≡ some (exec a is s)
    unfolding run exec fetch
    run-exec is zero a s h f l = absurd (omega arith)
    run-exec [] (suc fuel) a s h f l = end_run (fetch s.mem a) (rw (l.0))
      where
        end_run : (i : Fetched) → i ≡ end → dispatch fns (run fns fuel) i a s ≡ some (ok tt, s)
        end_run i e = rw e
    run-exec (i ∷ is) (suc fuel) a s h f l =
        let (front, back) = Loaded-append s.mem a (layout i) (program is) l in
        rw (fetch-Loaded s.mem a i f.0 front) (
          dispatch-decoded i a s (run fns fuel) (exec (a + length (layout i)) is) (λ t e.
            run-exec is fuel (a + length (layout i)) t (omega arith) f.1
              (subst (λ m. Loaded m (a + length (layout i)) (program is)) (sym e) back)))
