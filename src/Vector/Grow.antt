-- ===== src/Vector/Grow.antt =====
-- The doubling loop of mdv_vector.c: it ends on every positive capacity, and never on 0.
use native.Mathlib.Nat.{pow-suc}
use mdb_linux.Base.{
  ℕ, zero, suc, ◌*◌, ◌%◌, ◌^◌, ◌≤◌, ◌<◌, ◌≡◌, refl, ap, ◌⊎◌, inl, inr, none, some, ltb, arith,
  Bool-cases, ltb→lt, ltb→ge, le→ltb, lt→ltb,
}
use mdb_linux.Vector.{double_until, rounds, size_mod}

-- The loop stops at a capacity that is enough, and less than twice what is needed unless it was
-- enough from the start.
pub record Grown (need capacity result : ℕ) : Type 0 where
  pub enough : need ≤ result
  pub grows : capacity ≤ result
  pub tight : (result ≡ capacity) ⊎ (result < 2 * need)

half :
    {need capacity next r : ℕ}
    → capacity < need
    → next ≡ capacity * 2
    → ((r ≡ next) ⊎ (r < 2 * need))
    → r < 2 * need
half h n (inl e) = omega arith
half h n (inr l) = l

double_until-Grown :
    (fuel need capacity : ℕ)
    → 0 < capacity
    → need ≤ 2 ^ 63
    → need ≤ capacity * 2 ^ fuel
    → (r : ℕ) × (double_until (suc fuel) need capacity ≡ some r) × Grown need capacity r
unfolding double_until
double_until-Grown zero need capacity p h k = (
  capacity,
  rw (le→ltb capacity need (omega arith)),
  record { enough = omega arith; grows = omega arith; tight = inl refl },
)
double_until-Grown (suc fuel) need capacity p h k = elim (Bool-cases (ltb capacity need)) [
  | inr done ↦ (
    capacity,
    rw done,
    record { enough = ltb→ge _ _ done; grows = omega arith; tight = inl refl },
  )
  | inl more ↦
      let below = ltb→lt _ _ more in
      let next : capacity * 2 % size_mod ≡ capacity * 2 = omega arith in
      let k' : need ≤ capacity * 2 % size_mod * 2 ^ fuel =
        rw next (omega (arith, ap (λ (t : ℕ). capacity * t) (pow-suc 2 fuel))) in
      let (r, e, g) = double_until-Grown fuel need (capacity * 2 % size_mod) (omega arith) h k' in
      (
        r,
        rw more e,
        record {
          enough = g.enough;
          grows = omega (arith, g.grows);
          tight = inr (half below next g.tight);
        },
      )
]

-- From any positive capacity the growth loop ends within its rounds for every need up to 2 ^ 63,
-- with a capacity that is enough, not below the old one, and either the old one or less than twice
-- the need.
pub double_until_total :
    (need capacity : ℕ)
    → 0 < capacity
    → need ≤ 2 ^ 63
    → (r : ℕ) × (double_until rounds need capacity ≡ some r) × Grown need capacity r
double_until_total need capacity p h =
    double_until-Grown 63 need capacity p h (omega (arith, le_times capacity p))
  where
    le_times : (c : ℕ) → 0 < c → 2 ^ 63 ≤ c * 2 ^ 63
    le_times c q = omega arith

-- From capacity 0 and for a positive need the growth loop does not end, whatever the fuel.
pub double_until_zero : (fuel need : ℕ) → 0 < need → double_until fuel need 0 ≡ none
unfolding double_until
double_until_zero zero need p = refl
double_until_zero (suc fuel) need p = rw (lt→ltb 0 need p) (double_until_zero fuel need p)
