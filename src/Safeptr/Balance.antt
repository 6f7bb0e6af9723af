-- ===== src/Safeptr/Balance.antt =====
-- The references that a safe pointer takes and gives back (mdv_platform/mdv_safeptr.c).
use mdb_linux.Base.{
  ℕ, ◌+◌, ◌-◌, ◌≡◌, refl, sym, ap, inl, inr, Bool, true, false, List, [], ◌∷◌, Option, none, some,
  ◌==◌, if◌then◌else◌, Bool-cases, arith, some-eq-some,
}
use mdb_linux.Safeptr
use mdb_linux.Safeptr.{Safeptr, Counts, retain, release, retain_ptr, release_ptr}

-- A call, with what the lock answers.
pub data Call : Type 0 where
  set : Bool → Option ℕ → Call
  get : Bool → Call

-- The references to an object that a pointer holds.
abbrev pub held : Option ℕ → ℕ → ℕ
held none q = 0
held (some p) q = if q == p then 1 else 0

-- The pointers that `get` gave to its callers are kept in a list.
abbrev pub State : Type 0
State = List (Option ℕ) × (Safeptr × Counts)

abbrev pub call : Call → State → State
call (set locked ptr) (given, s) = (given, (Safeptr.set locked ptr s).1)
call (get locked) (given, s) = ((Safeptr.get locked s).0 ∷ given, (Safeptr.get locked s).1)

abbrev pub calls : List Call → State → State
calls [] s = s
calls (c ∷ cs) s = calls cs (call c s)

abbrev pub all_held : List (Option ℕ) → ℕ → ℕ
all_held [] q = 0
all_held (p ∷ ps) q = held p q + all_held ps q

-- Every reference that is counted beyond `base` is that of the pointer or of a caller.
abbrev pub Balanced : Counts → State → Type 0
Balanced base (given, (s, counts)) = (q : ℕ) → counts q ≡ base q + held s.ptr q + all_held given q

retain_ptr-held :
    (p : Option ℕ) (counts : Counts) (q : ℕ) → retain_ptr p counts q ≡ counts q + held p q
retain_ptr-held none counts q = omega arith
retain_ptr-held (some p) counts q = elim (Bool-cases (q == p)) [
  | inl e ↦ rw (e) refl
  | inr n ↦ rw (n) (omega arith)
]

release_ptr-held :
    (p : Option ℕ) (counts : Counts) (q : ℕ) → release_ptr p counts q ≡ counts q - held p q
release_ptr-held none counts q = omega arith
release_ptr-held (some p) counts q = elim (Bool-cases (q == p)) [
  | inl e ↦ rw (e) refl
  | inr n ↦ rw (n) (omega arith)
]

call-Balanced : (base : Counts) (c : Call) (t : State) → Balanced base t → Balanced base (call c t)
unfolding Safeptr.set Safeptr.get
call-Balanced base (set false ptr) (given, (s, counts)) b q = b q
call-Balanced base (set true ptr) (given, (s, counts)) b q =
    omega (
      arith,
      retain_ptr-held ptr (release_ptr s.ptr counts) q,
      release_ptr-held s.ptr counts q,
      b q,
    )
call-Balanced base (get false) (given, (s, counts)) b q = omega (arith, b q)
call-Balanced base (get true) (given, (s, counts)) b q =
    omega (arith, retain_ptr-held s.ptr counts q, b q)

calls-Balanced :
    (base : Counts) (cs : List Call) (t : State) → Balanced base t → Balanced base (calls cs t)
calls-Balanced base [] t b = b
calls-Balanced base (c ∷ cs) t b = calls-Balanced base cs (call c t) (call-Balanced base c t b)

start-Balanced :
    (ptr : Option ℕ) (base counts : Counts) (s : Safeptr)
    → Safeptr.create true true ptr base ≡ (some s, counts)
    → Balanced base ([], (s, counts))
unfolding Safeptr.create
start-Balanced ptr base counts s e q = omega (
  arith,
  ap (λ x. x.1 q) (sym e),
  retain_ptr-held ptr base q,
  ap (λ x. held x.ptr q) (some-eq-some (ap (λ x. x.0) e)),
)

-- A safe pointer that is created, set and read in any order, with any answers of its mutex, and
-- freed at the end, leaves of every object just the references that were there and those that its
-- callers got and still hold.
pub free-calls :
    (ptr : Option ℕ) (base counts : Counts) (s : Safeptr) (cs : List Call) (q : ℕ)
    → Safeptr.create true true ptr base ≡ (some s, counts)
    → Safeptr.free (some (calls cs ([], (s, counts))).1.0) (calls cs ([], (s, counts))).1.1 q
      ≡ base q + all_held (calls cs ([], (s, counts))).0 q
unfolding Safeptr.free
free-calls ptr base counts s cs q e =
    let t = calls cs ([], (s, counts)) in
    omega (
      arith,
      release_ptr-held t.1.0.ptr t.1.1 q,
      calls-Balanced base cs ([], (s, counts)) (start-Balanced ptr base counts s e) q,
    )
