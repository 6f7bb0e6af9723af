-- ===== src/Algorithm/LowerBound.antt =====
-- mdv_lower_bound: it finds the place of a key that is not below the first item, and reads outside
-- the array for some that are.
use Prim.Native.Nat.{Ordering}
use native.Mathlib.Decide.{dec_lt}
use mdb_linux.Base.{
  ℕ, zero, suc, ◌+◌, ◌-◌, ◌/◌, ◌≤◌, ◌<◌, ◌≡◌, ◌≢◌, refl, sym, ap, ◌∙◌, ◌⊎◌, inl, inr, false, List,
  [], ◌∷◌, Option, some, none, length, get_elem?, ltb, ◌==◌, arith, Bool-cases, ltb→lt, ltb→ge,
  some-eq-some,
}
use mdb_linux.Algorithm.{Bound, index, outside, last_read, search_loop, lower_bound}

get_elem?-some :
    {A : Type 0} (xs : List A) (i : ℕ) → i < length xs → (x : A) × (get_elem? xs i ≡ some x)
get_elem?-some [] i h = absurd (omega arith)
get_elem?-some (x ∷ xs) zero h = (x, refl)
get_elem?-some (x ∷ xs) (suc i) h = get_elem?-some xs i (omega arith)

get_elem?-inside :
    {A : Type 0} (xs : List A) (i : ℕ) (x : A) → get_elem? xs i ≡ some x → i < length xs
get_elem?-inside [] i x e = cc
get_elem?-inside (y ∷ xs) zero x e = omega arith
get_elem?-inside (y ∷ xs) (suc i) x e = omega (arith, get_elem?-inside xs i x e)

module _ {A : Type 0} (cmp : A → Ordering) (arr : List A) where
  -- The comparisons of the key with the items go from greater, over at most one equal, to less.
  pub record IsOrdered : Type 0 where
    pub less :
        (i j : ℕ) (x y : A)
        → i < j
        → get_elem? arr i ≡ some x
        → get_elem? arr j ≡ some y
        → cmp x ≢ Ordering.gt
        → cmp y ≡ Ordering.lt
    pub greater :
        (i j : ℕ) (x y : A)
        → i < j
        → get_elem? arr i ≡ some x
        → get_elem? arr j ≡ some y
        → cmp y ≢ Ordering.lt
        → cmp x ≡ Ordering.gt

  -- The key is greater than every item before `i`, and than none from `i` on.
  pub record Splits (i : ℕ) : Type 0 where
    pub inside : i ≤ length arr
    pub before : (j : ℕ) (x : A) → j < i → get_elem? arr j ≡ some x → cmp x ≡ Ordering.gt
    pub behind : (j : ℕ) (x : A) → i ≤ j → get_elem? arr j ≡ some x → cmp x ≢ Ordering.gt

  record Narrowed (a hi : ℕ) : Type 0 where
    order : a ≤ hi
    top : hi ≤ length arr
    low : (j : ℕ) (x : A) → j < a → get_elem? arr j ≡ some x → cmp x ≡ Ordering.gt
    high : (j : ℕ) (x : A) → hi ≤ j → get_elem? arr j ≡ some x → cmp x ≡ Ordering.lt

  sign-cases : (o : Ordering) → (o ≡ Ordering.lt) ⊎ ((o ≡ Ordering.eq) ⊎ (o ≡ Ordering.gt))
  sign-cases Ordering.lt = inl refl
  sign-cases Ordering.eq = inr (inl refl)
  sign-cases Ordering.gt = inr (inr refl)

  read_above :
      (b : ℕ) (x : A)
      → get_elem? arr b ≡ some x
      → cmp x ≡ Ordering.gt
      → last_read cmp arr (suc b) ≡ index (suc b)
  unfolding last_read
  read_above b x e g = ground arith

  read_below :
      (b : ℕ) (x : A)
      → get_elem? arr b ≡ some x
      → cmp x ≢ Ordering.gt
      → last_read cmp arr (suc b) ≡ index b
  unfolding last_read
  read_below b x e g = elim (sign-cases (cmp x)) [
    | inl l ↦ ground arith
    | inr (inl q) ↦ ground arith
    | inr (inr r) ↦ absurd (g r)
  ]

  sign_at :
      (i j : ℕ) (x y : A)
      → i ≡ j
      → get_elem? arr i ≡ some x
      → get_elem? arr j ≡ some y
      → cmp x ≡ cmp y
  sign_at i j x y e f g = ap cmp (some-eq-some (sym f ∙ (ap (get_elem? arr) e ∙ g)))

  not-gt-of-lt : (o : Ordering) → o ≡ Ordering.lt → o ≢ Ordering.gt
  not-gt-of-lt o e f = cc

  last-above :
      (a b : ℕ) (x : A)
      → Narrowed a (suc b)
      → b ≤ a
      → get_elem? arr b ≡ some x
      → cmp x ≡ Ordering.gt
      → Splits (suc b)
  last-above a b x n h e g = record {
    inside = n.top;
    before = λ j y l f. elim (dec_lt j a) [
      | yes p ↦ n.low j y p f
      | no p ↦ sign_at j b y x (omega arith) f e ∙ g
    ];
    behind = λ j y l f. not-gt-of-lt (cmp y) (n.high j y l f);
  }

  last-below :
      (a b : ℕ) (x : A)
      → Narrowed a (suc b)
      → b ≤ a
      → get_elem? arr b ≡ some x
      → cmp x ≢ Ordering.gt
      → Splits b
  last-below a b x n h e g = record {
    inside = omega (arith, n.top);
    before = λ j y l f. n.low j y (omega arith) f;
    behind = λ j y l f. elim (dec_lt b j) [
      | yes p ↦ not-gt-of-lt (cmp y) (n.high j y p f)
      | no p ↦ λ q. g (sign_at b j x y (omega arith) e f ∙ q)
    ];
  }

  -- Where the loop ends with its range not empty below, the item read last decides.
  last_read-Splits :
      (a hi : ℕ)
      → Narrowed a hi
      → hi ≤ a + 1
      → 0 < hi
      → (i : ℕ) × (last_read cmp arr hi ≡ index i) × Splits i
  last_read-Splits a zero n h p = absurd (omega arith)
  last_read-Splits a (suc b) n h p =
      let (x, e) = get_elem?-some arr b (omega (arith, n.top)) in decide x e (sign-cases (cmp x))
    where
      decide :
          (x : A)
          → get_elem? arr b ≡ some x
          → ((cmp x ≡ Ordering.lt) ⊎ ((cmp x ≡ Ordering.eq) ⊎ (cmp x ≡ Ordering.gt)))
          → (i : ℕ) × (last_read cmp arr (suc b) ≡ index i) × Splits i
      decide x e (inl l) =
          let g = not-gt-of-lt (cmp x) l in
          (b, read_below b x e g, last-below a b x n (omega arith) e g)
      decide x e (inr (inl q)) =
          let g : cmp x ≢ Ordering.gt = λ r. cc in
          (b, read_below b x e g, last-below a b x n (omega arith) e g)
      decide x e (inr (inr g)) = (suc b, read_above b x e g, last-above a b x n (omega arith) e g)

  module _ (ordered : IsOrdered) (first : (x : A) → get_elem? arr 0 ≡ some x → cmp x ≢ Ordering.lt)
      (some_item : 0 < length arr) where
    hi-pos : (a hi : ℕ) → Narrowed a hi → 0 < hi
    hi-pos a zero n =
        let (x, e) = get_elem?-some arr 0 some_item in
        absurd (first x e (n.high 0 x (omega arith) e))
    hi-pos a (suc hi) n = omega arith

    abbrev Found : Bound → Type 0
    Found r = (i : ℕ) × (r ≡ index i) × Splits i

    probe-Found :
        (c : ℕ) (o : Option A) (x : A) (less greater : Bound)
        → o ≡ some x
        → (cmp x ≡ Ordering.lt → Found less)
        → (cmp x ≡ Ordering.eq → Splits c)
        → (cmp x ≡ Ordering.gt → Found greater)
        → Found (elim o [
          | none ↦ outside
          | some y ↦ elim (cmp y) [
            | Ordering.lt ↦ less
            | Ordering.gt ↦ greater
            | Ordering.eq ↦ index c
          ]
        ])
    probe-Found c o x less greater e l q g = rw e (elim (sign-cases (cmp x)) [
      | inl s ↦ rw s (l s)
      | inr (inl s) ↦ rw s (c, refl, q s)
      | inr (inr s) ↦ rw s (g s)
    ])

    hit :
        (c : ℕ) (x : A) → c < length arr → get_elem? arr c ≡ some x → cmp x ≡ Ordering.eq → Splits c
    hit c x h e q = record {
      inside = omega arith;
      before = λ j y l f. ordered.greater j c y x l f e (λ s. cc);
      behind = λ j y l f. elim (dec_lt c j) [
        | yes p ↦ not-gt-of-lt (cmp y) (ordered.less c j x y p e f (λ s. cc))
        | no p ↦ λ s. eq-not-gt (sign_at c j x y (omega arith) e f) q s
      ];
    }
      where
        eq-not-gt : {o p : Ordering} → o ≡ p → o ≡ Ordering.eq → p ≡ Ordering.gt → ⊥
        eq-not-gt e f g = cc

    go_left :
        (a c hi : ℕ) (x : A)
        → Narrowed a hi
        → a ≤ c
        → c < hi
        → get_elem? arr c ≡ some x
        → cmp x ≡ Ordering.lt
        → Narrowed a c
    go_left a c hi x n h k e l = record {
      order = h;
      top = omega (arith, n.top);
      low = n.low;
      high = λ j y m f. elim (dec_lt c j) [
        | yes p ↦ ordered.less c j x y p e f (not-gt-of-lt (cmp x) l)
        | no p ↦ sign_at j c y x (omega arith) f e ∙ l
      ];
    }

    go_right :
        (a c hi : ℕ) (x : A)
        → Narrowed a hi
        → c < hi
        → get_elem? arr c ≡ some x
        → cmp x ≡ Ordering.gt
        → Narrowed (suc c) hi
    go_right a c hi x n k e g = record {
      order = k;
      top = n.top;
      low = λ j y m f. elim (dec_lt j c) [
        | yes p ↦ ordered.greater j c y x p f e (λ s. cc)
        | no p ↦ sign_at j c y x (omega arith) f e ∙ g
      ];
      high = n.high;
    }

    search_loop-Splits :
        (fuel a hi : ℕ) → Narrowed a hi → hi ≤ a + 1 + fuel → Found (search_loop cmp arr fuel a hi)
    unfolding search_loop
    search_loop-Splits zero a hi n h = last_read-Splits a hi n (omega arith) (hi-pos a hi n)
    search_loop-Splits (suc fuel) a hi n h = elim (Bool-cases (ltb (a + 1) hi)) [
      | inr stop ↦ rw stop (last_read-Splits a hi n (ltb→ge _ _ stop) (hi-pos a hi n))
      | inl more ↦
          let c = a + (hi - 1 - a) / 2 in
          let l = ltb→lt _ _ more in
          let (x, e) = get_elem?-some arr c (omega (arith, n.top)) in
          rw more (
            probe-Found c (get_elem? arr c) x _ _ e
              (λ s.
                search_loop-Splits fuel a c (go_left a c hi x n (omega arith) (omega arith) e s)
                  (omega arith))
              (λ s. hit c x (omega (arith, n.top)) e s)
              (λ s.
                search_loop-Splits fuel (suc c) hi (go_right a c hi x n (omega arith) e s)
                  (omega arith)))
    ]

    -- In an array with at least one item, in which items greater than the key follow items less than
    -- it with at most one equal item between them, and for a key that is not below the first item,
    -- the search ends inside the array, at the first item that is not less than the key, or behind
    -- the last.
    pub lower_bound-Splits : (i : ℕ) × (lower_bound cmp arr ≡ index i) × Splits i
    unfolding lower_bound
    lower_bound-Splits =
        rw (nonempty (length arr) some_item)
          (search_loop-Splits (length arr) 0 (length arr) start (omega arith))
      where
        nonempty : (n : ℕ) → 0 < n → n == 0 ≡ false
        nonempty n h = ground arith

        start : Narrowed 0 (length arr)
        start = record {
          order = omega arith;
          top = omega arith;
          low = λ j x l f. absurd (omega arith);
          high = λ j x l f. absurd (omega (arith, get_elem?-inside arr j x f));
        }

-- For an array of two items and a key below the first the search reads before the array.
pub lower_bound_outside :
    {A : Type 0} (cmp : A → Ordering) (x y : A)
    → cmp x ≡ Ordering.lt
    → lower_bound cmp (x ∷ y ∷ []) ≡ outside
unfolding lower_bound search_loop last_read
lower_bound_outside cmp x y l = rw l
