-- ===== src/Vm/Machine.antt =====
-- What the operations of mdv_vm.c work on: the byte stack, and the memory that a pointer reaches.
-- A byte is a number; an address is a number, and the program stands in the same memory.
use mdb_linux.Base.{ℕ, zero, suc, ◌+◌, ◌≤◌, List, [], ◌∷◌, Option, none, some, length}
use mdb_linux.Stack
use mdb_linux.Stack.{Stack}

-- The error codes of mdv_errno.h that the machine returns; MDV_OK is `Result.ok`.
pub data Errno : Type 0 where
  failed invalid_arg invalid_type no_impl stack_overflow : Errno

pub record Machine : Type 0 where
  pub stack : Stack ℕ
  pub mem : ℕ → ℕ

pub data Result (A : Type 0) : Type 0 where
  ok : A → Result A
  err : Errno → Result A

-- A failed operation keeps what it did to the machine before it failed.
abbrev pub M : Type 0 → Type 0
M A = Machine → Result A × Machine

abbrev pub return : {A : Type 0} → A → M A
return a s = (ok a, s)

abbrev pub fail : {A : Type 0} → Errno → M A
fail e s = (err e, s)

abbrev pub continue : {A B : Type 0} → Result A → Machine → (A → M B) → Result B × Machine
continue (ok a) s f = f a s
continue (err e) s f = (err e, s)

infixl 5 ◌>>=◌ ◌>>◌
abbrev pub ◌>>=◌ : {A B : Type 0} → M A → (A → M B) → M B
◌>>=◌ m f s = let r = m s in continue r.0 r.1 f

abbrev pub ◌>>◌ : {A B : Type 0} → M A → M B → M B
m >> k = m >>= λ _. k

-- `mdv_stack_push` of bytes, as a step of the machine.
pushed : Option (Stack ℕ) → M (Unit {0})
pushed none s = (err stack_overflow, s)
pushed (some t) s = (ok tt, record s { stack = t })

unfoldable pub push_bytes : List ℕ → M (Unit {0})
unfolding pushed
push_bytes bs s = pushed (Stack.push_multiple s.stack bs) s

-- `mdv_stack_pop` of bytes, with the null pointer answered by MDV_FAILED.
popped : Option (List ℕ × Stack ℕ) → M (List ℕ)
popped none s = (err failed, s)
popped (some (bs, t)) s = (ok bs, record s { stack = t })

unfoldable pub pop_bytes : ℕ → M (List ℕ)
unfolding popped
pop_bytes n s = popped (Stack.pop_multiple s.stack n) s

-- The `n` bytes from an address on.
unfoldable pub read : (ℕ → ℕ) → ℕ → ℕ → List ℕ
read mem a zero = []
read mem a (suc n) = mem a ∷ read mem (a + 1) n

abbrev pub IsValid : Machine → Type 0
IsValid s = length s.stack.items ≤ s.stack.capacity
