-- ===== src/Vector/Erase.antt =====
-- mdv_vector_erase and mdv_vector_find against plain lists.
use native.Mathlib.Nat.{div-lt_iff_lt-mul, mul-div_cancel}
use mdb_linux.Base.{
  ℕ, zero, suc, ◌+◌, ◌-◌, ◌*◌, ◌/◌, ◌≤◌, ◌<◌, ◌≡◌, ◌≢◌, refl, ap, ◌∙◌, ◌⊎◌, inl, inr, Bool, true,
  false, List, [], ◌∷◌, ◌&&◌, none, some, length, take, set, get_elem?, ltb, leb, ◌==◌, arith,
  Bool-cases, Option-cases, le→leb, lt→ltb, eq→==, All,
}
use mdb_linux.Vector.{Vector, size, shift_down, erase, find, find_from}

-- The list without its item `i`.
abbrev pub remove_at : {A : Type 0} → ℕ → List A → List A
remove_at i [] = []
remove_at zero (x ∷ xs) = xs
remove_at (suc i) (x ∷ xs) = x ∷ remove_at i xs

-- Moving everything behind `dst` down by one, and dropping the last, removes item `dst`.
shift_down-cons :
    {A : Type 0} (n : ℕ) (x : A) (xs : List A) (dst : ℕ)
    → shift_down n (x ∷ xs) (suc dst) ≡ x ∷ shift_down n xs dst
unfolding shift_down
shift_down-cons zero x xs dst = refl
shift_down-cons (suc n) x xs dst = elim (Option-cases (get_elem? xs (suc dst))) [
  | inl e ↦ rw (e, shift_down)
  | inr (y, e) ↦ rw (e, shift_down) (shift_down-cons n x (set xs dst y) (suc dst))
]

take-shift_down :
    {A : Type 0} (n m : ℕ) (xs : List A) (dst : ℕ)
    → suc m ≡ length xs
    → dst ≤ m
    → m < n + dst
    → take m (shift_down n xs dst) ≡ remove_at dst xs
unfolding shift_down
take-shift_down n m [] dst e h k = absurd (omega arith)
take-shift_down zero m (x ∷ xs) zero e h k = absurd (omega arith)
take-shift_down (suc n) zero (x ∷ []) zero e h k = refl
take-shift_down (suc n) (suc m) (x ∷ []) zero e h k = absurd (omega arith)
take-shift_down (suc n) zero (x ∷ y ∷ ys) zero e h k = absurd (omega arith)
take-shift_down (suc n) (suc m) (x ∷ y ∷ ys) zero e h k =
    rw (shift_down-cons n y (y ∷ ys) 0)
      (ap (◌∷◌ y) (take-shift_down n m (y ∷ ys) 0 (omega arith) (omega arith) (omega arith)))
take-shift_down n zero (x ∷ xs) (suc dst) e h k = absurd (omega arith)
take-shift_down n (suc m) (x ∷ xs) (suc dst) e h k =
    rw (shift_down-cons n x xs dst)
      (ap (◌∷◌ x) (take-shift_down n m xs dst (omega arith) (omega arith) (omega arith)))

module _ {A : Type 0} (v : Vector A) (pos : 0 < v.item_size) where
  -- In a vector of items of at least one byte, erasing the pointer of item `i` removes that item,
  -- and keeps the others in their order.
  pub erase_item :
      (i : ℕ)
      → i < size v
      → erase v (v.data_ptr + i * v.item_size) ≡ record v { items = remove_at i v.items }
  unfolding erase
  erase_item i h =
      let off : v.data_ptr + i * v.item_size - v.data_ptr ≡ i * v.item_size = omega arith in
      let inside : i * v.item_size < v.item_size * size v = grind arith in
      rw (
        off,
        mul-div_cancel i pos,
        le→leb v.data_ptr (v.data_ptr + i * v.item_size) (omega arith),
        lt→ltb (v.data_ptr + i * v.item_size) (v.data_ptr + v.item_size * size v) (omega arith),
        eq→== (v.data_ptr + i * v.item_size) (v.data_ptr + i * v.item_size) refl,
        take-shift_down (size v) (size v - 1) v.items i (omega arith) (omega arith) (omega arith),
      )

  -- A pointer that is the address of no item leaves the vector as it was.
  pub erase_other :
      (p : ℕ) → ((i : ℕ) → i < size v → p ≢ v.data_ptr + i * v.item_size) → erase v p ≡ v
  unfolding erase
  erase_other p h =
      elim (Bool-cases (leb v.data_ptr p && ltb p (v.data_ptr + v.item_size * size v))) [
        | inr out ↦ rw out
        | inl within ↦
            elim (Bool-cases (v.data_ptr + (p - v.data_ptr) / v.item_size * v.item_size == p)) [
              | inr skew ↦ rw (within, skew)
              | inl at_item ↦
                  let below : (p - v.data_ptr) / v.item_size < size v =
                    (div-lt_iff_lt-mul pos).1 (ground arith) in
                  absurd (h _ below (ground arith))
            ]
      ]

module _ {A : Type 0} (equ : A → Bool) where
  -- The item at `i` is the first that `equ` accepts.
  pub record IsFirst (xs : List A) (i : ℕ) : Type 0 where
    pub before : All (λ y. equ y ≡ false) (take i xs)
    pub item : A
    pub stands : get_elem? xs i ≡ some item
    pub accepted : equ item ≡ true

  find_from-some :
      (xs : List A) (k i : ℕ) → find_from equ xs k ≡ some i → (j : ℕ) × (i ≡ k + j) × IsFirst xs j
  unfolding find_from
  find_from-some [] k i h = cc
  find_from-some (x ∷ xs) k i h = elim (Bool-cases (equ x)) [
    | inl e ↦ (0, ground arith, record { before = tt; item = x; stands = refl; accepted = e })
    | inr e ↦
        let (j, e', f) = find_from-some xs (k + 1) i (ground arith) in
        (
          suc j,
          omega arith,
          record {
            before = (e, f.before);
            item = f.item;
            stands = f.stands;
            accepted = f.accepted;
          },
        )
  ]

  find_from-none : (xs : List A) (k : ℕ) → find_from equ xs k ≡ none → All (λ y. equ y ≡ false) xs
  unfolding find_from
  find_from-none [] k h = tt
  find_from-none (x ∷ xs) k h = elim (Bool-cases (equ x)) [
    | inl e ↦ absurd (ground arith)
    | inr e ↦ (e, find_from-none xs (k + 1) (ground arith))
  ]

  -- `mdv_vector_find` returns the first item that the comparison accepts, or null if it accepts
  -- none.
  pub find-IsFirst :
      (v : Vector A)
      → ((i : ℕ) × (find equ v ≡ some i) × IsFirst v.items i)
        ⊎ ((find equ v ≡ none) × All (λ y. equ y ≡ false) v.items)
  unfolding find
  find-IsFirst v = elim (Option-cases (find_from equ v.items 0)) [
    | inl e ↦ inr (e, find_from-none v.items 0 e)
    | inr (i, e) ↦
        let (j, e', f) = find_from-some v.items 0 i e in inl (j, e ∙ ap some (omega arith), f)
  ]
