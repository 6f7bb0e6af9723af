-- ===== src/Operators/Indices.antt =====
-- The items that the loop of mdv_project_by_indices_next keeps.
use mdb_linux.Base.{
  ℕ, suc, ◌-◌, ◌≤◌, ◌≡◌, refl, sym, ap, ap₂, ◌∙◌, List, [], ◌∷◌, Option, none, some, get_elem?,
  arith, inl, inr, Bool-cases, ◌==◌,
}
use mdb_linux.Operators.{picked_items}

-- The indices grow from a bound on.
abbrev pub Grows : ℕ → List ℕ → Type 0
Grows i [] = Unit
Grows i (j ∷ js) = (i ≤ j) × Grows (suc j) js

Grows-weaken : (a b : ℕ) (js : List ℕ) → a ≤ b → Grows b js → Grows a js
Grows-weaken a b [] h g = tt
Grows-weaken a b (j ∷ js) h g = (omega (arith, g.0), g.1)

module _ {I : Type 0} where
  abbrev pub prepend : Option I → List I → List I
  prepend none xs = xs
  prepend (some x) xs = x ∷ xs

  -- The items at the indices less an offset, those outside the list left out.
  unfoldable pub gather : ℕ → List ℕ → List I → List I
  gather i [] items = []
  gather i (j ∷ js) items = prepend (get_elem? items (j - i)) (gather i js items)

  gather-nil : (i : ℕ) (js : List ℕ) → gather i js [] ≡ []
  unfolding gather
  gather-nil i [] = refl
  gather-nil i (j ∷ js) = gather-nil i js

  gather-tail :
      (i : ℕ) (js : List ℕ) (x : I) (items : List I)
      → Grows (suc i) js
      → gather i js (x ∷ items) ≡ gather (suc i) js items
  unfolding gather
  gather-tail i [] x items g = refl
  gather-tail i (j ∷ js) x items g =
      let later : j - i ≡ suc (j - suc i) = omega (arith, g.0) in
      ap₂ (λ (o : Option I) (xs : List I). prepend o xs) (ap (get_elem? (x ∷ items)) later)
        (gather-tail i js x items (Grows-weaken (suc i) (suc j) js (omega (arith, g.0)) g.1))

  picked_items-gather :
      (i : ℕ) (js : List ℕ) (items : List I)
      → Grows i js
      → picked_items i js items ≡ gather i js items
  unfolding picked_items gather
  picked_items-gather i js [] g = sym (gather-nil i js)
  picked_items-gather i [] (item ∷ items) g = refl
  picked_items-gather i (j ∷ js) (item ∷ items) g = elim (Bool-cases (i == j)) [
    | inl e ↦
        let same : i ≡ j = ground (arith, e) in
        let here : j - i ≡ 0 = omega (arith, same) in
        let after : Grows (suc i) js = Grows-weaken (suc i) (suc j) js (omega (arith, same)) g.1 in
        rw (e) (
          ap (◌∷◌ item) (
            ap (λ (k : ℕ). picked_items k js items) (omega arith)
            ∙ picked_items-gather (suc i) js items after
            ∙ sym (gather-tail i js item items after))
          ∙ sym (
              ap (λ (k : ℕ). prepend (get_elem? (item ∷ items) k) (gather i js (item ∷ items)))
                here))
    | inr d ↦
        let beyond : Grows (suc i) (j ∷ js) = (ground (arith, d, g.0), g.1) in
        rw (d) (
          ap (λ (k : ℕ). picked_items k (j ∷ js) items) (omega arith)
          ∙ picked_items-gather (suc i) (j ∷ js) items beyond
          ∙ sym (gather-tail i (j ∷ js) item items beyond))
  ]

  -- For indices that grow strictly, the projection by indices gives the items that stand at them,
  -- in their order, and leaves out the indices behind the end of the list.
  pub picked_items_lem :
      (js : List ℕ) (items : List I) → Grows 0 js → picked_items 0 js items ≡ gather 0 js items
  picked_items_lem js items g = picked_items-gather 0 js items g
