-- ===== src/Operators/Ranges.antt =====
-- The items that the loop of mdv_project_range_next keeps.
use mdb_linux.Base.{
  ℕ, zero, suc, ◌+◌, ◌-◌, ◌≡◌, refl, sym, ap, le→leb, lt→leb, ◌∙◌, List, [], ◌∷◌, take, drop, max,
  arith,
}
use mdb_linux.Operators.{range_items}

module _ {I : Type 0} where
  drop-nil : (n : ℕ) → drop {A = I} n [] ≡ []
  drop-nil zero = refl
  drop-nil (suc n) = refl

  -- At item `i`, with `f` items still to be left out and at most `suc n` to be looked at.
  range_items-slice :
      (from to i f n : ℕ) (items : List I)
      → f ≡ from - i
      → i + suc n ≡ max to 1
      → range_items from to i items ≡ drop f (take (suc n) items)
  unfolding range_items
  range_items-slice from to i f n [] p q = sym (drop-nil f)
  range_items-slice from to i zero zero (item ∷ items) p q = ground arith
  range_items-slice from to i (suc f) zero (item ∷ items) p q = ground (arith, drop-nil f)
  range_items-slice from to i zero (suc n) (item ∷ items) p q =
      let rest = range_items-slice from to (i + 1) zero n items (omega arith) (omega arith) in
      rw (lt→leb to (i + 1) (omega arith), le→leb from i (omega arith)) (ap (◌∷◌ item) rest)
  range_items-slice from to i (suc f) (suc n) (item ∷ items) p q =
      let rest = range_items-slice from to (i + 1) f n items (omega arith) (omega arith) in
      rw (lt→leb to (i + 1) (omega arith), lt→leb from i (omega arith)) rest

  -- The range projection keeps the items from position `from` up to but not including `to`, where
  -- a `to` of 0 counts as 1.
  pub range_items_lem :
      (from to : ℕ) (items : List I)
      → range_items from to 0 items ≡ drop from (take (max to 1) items)
  range_items_lem from to items =
      let n = max to 1 - 1 in
      let all : suc n ≡ max to 1 = omega arith in
      range_items-slice from to 0 from n items (omega arith) (omega arith)
      ∙ ap (λ (b : ℕ). drop from (take b items)) all
