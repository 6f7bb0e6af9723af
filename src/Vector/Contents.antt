-- ===== src/Vector/Contents.antt =====
-- What mdv_vector_append, push_back, resize and find do to the items.
use mathlib.Core.Option
use mdb_linux.Base.{
  ℕ, zero, suc, ◌+◌, ◌-◌, ◌%◌, ◌^◌, ◌≤◌, ◌<◌, ◌≡◌, refl, ap, ◌⊎◌, inl, inr, Bool, true, false, List,
  [], ◌∷◌, ◌++◌, Option, none, some, length, take, replicate, leb, arith, Bool-cases, length-append,
  length-replicate, take-all, leb→le, sym,
}
use mdb_linux.Vector.{
  Vector, size, size_mod, rounds, double_until, reserve, resize_if_required, store, fill, append,
  push_back, resize,
}
use mdb_linux.Vector.Grow.{double_until_total}

-- A vector with room for something, of fewer items than 2 ^ 62.
pub record IsValid {A : Type 0} (v : Vector A) : Type 0 where
  pub room : 0 < v.capacity
  pub within : size v ≤ v.capacity
  pub small : size v < 2 ^ 62

-- What is left after a call that had to make room for `extra` items: the same items, and, if the
-- call succeeded, a capacity for them all.
pub record Reserved {A : Type 0} (v : Vector A) (extra : ℕ) (r : Bool × Vector A) : Type 0 where
  pub same : r.1.items ≡ v.items
  pub kept : v.capacity ≤ r.1.capacity
  pub fits : r.0 ≡ true → size v + extra ≤ r.1.capacity
  pub unchanged : r.0 ≡ false → r.1 ≡ v

module _ {A : Type 0} (grants : ℕ → Bool) (moved : ℕ → ℕ) where
  reserve-Reserved :
      (v : Vector A) (extra c : ℕ)
      → IsValid v
      → v.capacity ≤ c
      → size v + extra ≤ c
      → Reserved v extra (reserve grants moved v c)
  reserve-Reserved v extra c valid g h = record {
    same = ground arith;
    kept = ground arith;
    fits = ground arith;
    unchanged = ground arith;
  }

  resize_if_required-eq :
      (v : Vector A) (extra c : ℕ)
      → double_until rounds ((size v + extra) % size_mod) v.capacity ≡ some c
      → resize_if_required grants moved v extra ≡ some (reserve grants moved v c)
  unfolding resize_if_required
  resize_if_required-eq v extra c e = rw (e, resize_if_required)

  pub resize_if_required-Reserved :
      (v : Vector A) (extra : ℕ)
      → IsValid v
      → extra < 2 ^ 62
      → (r : Bool × Vector A) × (resize_if_required grants moved v extra ≡ some r)
        × Reserved v extra r
  resize_if_required-Reserved v extra valid h =
      let (c, e, g) =
        double_until_total ((size v + extra) % size_mod) v.capacity valid.room (omega arith) in
      (
        reserve grants moved v c,
        resize_if_required-eq v extra c e,
        reserve-Reserved v extra c valid g.grows (omega (arith, g.enough)),
      )

-- What a call that adds `xs` leaves behind: the items with `xs` after them and the index of the
-- first, or, without memory, the null pointer and the vector as it was.
abbrev pub Added : {A : Type 0} → Vector A → List A → Option ℕ × Vector A → Type 0
Added v xs r =
    ((r.0 ≡ some (size v)) × (r.1.items ≡ v.items ++ xs) × (size r.1 ≤ r.1.capacity))
    ⊎ ((r.0 ≡ none) × (r.1 ≡ v))

module _ {A : Type 0} where
  store-Added :
      (v : Vector A) (xs : List A) (r : Bool × Vector A)
      → Reserved v (length xs) r
      → Added v xs (store xs r)
  store-Added v xs (true, w) p = inl (
    ap (λ ys. some (length ys)) p.same,
    ap (λ ys. ys ++ xs) p.same,
    omega (arith, length-append w.items xs, ap length p.same, p.fits refl),
  )
  store-Added v xs (false, w) p = inr (refl, p.unchanged refl)

module _ {A : Type 0} (grants : ℕ → Bool) (moved : ℕ → ℕ) where
  -- Appending fewer than 2 ^ 62 items to a valid vector ends, and either adds all of them in order
  -- and gives the index of the first, or gives the null pointer and changes nothing.
  pub append-Added :
      (v : Vector A) (xs : List A)
      → IsValid v
      → length xs < 2 ^ 62
      → (r : Option ℕ × Vector A) × (append grants moved v xs ≡ some r) × Added v xs r
  unfolding append
  append-Added v xs valid h =
      let (r, e, p) = resize_if_required-Reserved grants moved v (length xs) valid h in
      (store xs r, ap (Option.map (store xs)) e, store-Added v xs r p)

  -- `mdv_vector_push_back` is an append of one item.
  pub push_back-append :
      (v : Vector A) (x : A) → push_back grants moved v x ≡ append grants moved v (x ∷ [])
  unfolding push_back append
  push_back-append v x = refl

-- The first `n` of the items, followed by zero items where there are fewer.
unfoldable pub resized : {A : Type 0} → A → ℕ → List A → List A
resized zero_item n xs = take n (xs ++ replicate (n - length xs) zero_item)

take-append_zeros :
    {A : Type 0} (n : ℕ) (xs : List A) (z : A)
    → length xs ≤ n
    → resized z n xs ≡ xs ++ replicate (n - length xs) z
unfolding resized
take-append_zeros n xs z h = take-all n (xs ++ replicate (n - length xs) z) (
    omega
      (arith, length-append xs (replicate (n - length xs) z), length-replicate (n - length xs) z))

take-append_left :
    {A : Type 0} (n : ℕ) (xs ys : List A) → n ≤ length xs → take n (xs ++ ys) ≡ take n xs
take-append_left zero xs ys h = refl
take-append_left (suc n) [] ys h = absurd (omega arith)
take-append_left (suc n) (x ∷ xs) ys h = ap (◌∷◌ x) (take-append_left n xs ys (omega arith))

fill-resized :
    {A : Type 0} (z : A) (n : ℕ) (v : Vector A) (r : Bool × Vector A)
    → size v ≤ n
    → r.1.items ≡ v.items
    → r.0 ≡ true
    → ((fill z n r).0 ≡ true) × ((fill z n r).1.items ≡ resized z n v.items)
fill-resized z n v (true, w) h e t = (refl, rw e (sym (take-append_zeros n v.items z h)))
fill-resized z n v (false, w) h e t = cc

module _ {A : Type 0} (grants : ℕ → Bool) (moved : ℕ → ℕ) where
  -- Resizing a valid vector to fewer than 2 ^ 62 items ends. Either it succeeds, and the vector
  -- holds its first `n` items, with zero items behind them up to `n`, or it fails and the vector is
  -- as it was.
  pub resize-resized :
      (z : A) (v : Vector A) (n : ℕ)
      → IsValid v
      → n < 2 ^ 62
      → (r : Bool × Vector A) × (resize grants moved z v n ≡ some r)
        × (((r.0 ≡ true) × (r.1.items ≡ resized z n v.items)) ⊎ ((r.0 ≡ false) × (r.1 ≡ v)))
  unfolding resize resized
  resize-resized z v n valid h = elim (Bool-cases (leb n (size v))) [
    | inl shrink ↦ (
      (true, record v { items = take n v.items }),
      rw shrink,
      inl (refl, sym (shrunk (leb→le _ _ shrink))),
    )
    | inr grow ↦ elim (Bool-cases (leb n v.capacity)) [
      | inl fits ↦ (
        fill z n (true, v),
        rw (grow, fits),
        inl (fill-resized z n v (true, v) (ground arith) refl refl),
      )
      | inr more ↦
          let (r, e, p) =
            resize_if_required-Reserved grants moved v (n - size v) valid (omega arith) in
          (fill z n r, rw (grow, more) (ap (Option.map (fill z n)) e), made (ground arith) r p)
    ]
  ]
    where
      shrunk : n ≤ size v → resized z n v.items ≡ take n v.items
      shrunk l = take-append_left n v.items _ l

      made :
          size v ≤ n
          → (r : Bool × Vector A) → Reserved v (n - size v) r
          → (((fill z n r).0 ≡ true) × ((fill z n r).1.items ≡ resized z n v.items))
            ⊎ (((fill z n r).0 ≡ false) × ((fill z n r).1 ≡ v))
      made l (true, w) p = inl (fill-resized z n v (true, w) l p.same refl)
      made l (false, w) p = inr (refl, p.unchanged refl)
