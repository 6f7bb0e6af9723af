-- ===== src/Predicate.antt =====
-- mdv_storage/mdv_predicate.c: a compiled row filter, its bytecode and the functions it may call.
pub mod Filter
mod Tests
use mdb_linux.Base.{
  ℕ, zero, suc, ◌+◌, ◌-◌, ◌%◌, ◌^◌, ◌==◌, Bool, true, false, List, [], ◌∷◌, Option, none, some,
  if◌then◌else◌,
}
use mdb_linux.Vector
use mdb_linux.Vector.{Vector}
use mdb_linux.Vm.Machine.{M}
use mdb_linux.Vm.Ops.{
  vmop_equal, vmop_not_equal, vmop_greater, vmop_greater_or_equal, vmop_less, vmop_less_or_equal,
  vmop_and, vmop_or, vmop_not,
}

pub record Predicate : Type 0 where
  pub rc : ℕ
  pub expr : Vector ℕ
  pub fns : List (M (Unit {0}))

-- PUSH of the one byte MDV_VM_TRUE, and END.
abbrev pub empty_predicate : List ℕ
empty_predicate = 1 ∷ 0 ∷ 1 ∷ 0 ∷ 0 ∷ 0 ∷ 255 ∷ 255 ∷ []

-- The table that a CALL indexes; `fns_count` is its length.
abbrev pub predicate_fns : List (M (Unit {0}))
predicate_fns =
    vmop_equal ∷ vmop_not_equal ∷ vmop_greater ∷ vmop_greater_or_equal ∷ vmop_less
    ∷ vmop_less_or_equal ∷ vmop_and ∷ vmop_or ∷ vmop_not ∷ []

-- The expression is not parsed. An append that fails is not noticed. `granted` answers the
-- allocation of the predicate, `grants` those of its vector, and `moved` is where it grows.
unfoldable pub parse : Bool → (ℕ → Bool) → (ℕ → ℕ) → ℕ → List ℕ → Option Predicate
unfolding Vector.create Vector.append
parse granted grants moved data_ptr expression =
    if granted
    then elim (Vector.create grants 8 1 data_ptr) [
      | none ↦ none
      | some v ↦ elim (Vector.append grants moved v empty_predicate) [
        | none ↦ none
        | some (at, expr) ↦ some (record { rc = 1; expr = expr; fns = predicate_fns })
      ]
    ]
    else none

unfoldable pub retain : Predicate → Predicate
retain p = record p { rc = (p.rc + 1) % 2 ^ 64 }

-- At 0 the predicate and its vector are freed.
unfoldable pub release : Option Predicate → ℕ × Option Predicate
release none = (0, none)
release (some p) =
    let rc = (p.rc + 2 ^ 64 - 1) % 2 ^ 64 in
    let refs = rc % 2 ^ 32 in (refs, (if refs == 0 then none else some (record p { rc = rc })))
