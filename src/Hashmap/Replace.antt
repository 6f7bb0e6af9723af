-- ===== src/Hashmap/Replace.antt =====
-- One chain of a valid table put in the place of another.
use native.Mathlib.Nat.{mod-lt}
use mdb_linux.Base.{
  ℕ, ◌%◌, ◌≤◌, ◌<◌, ◌≡◌, refl, sym, ap, ◌∙◌, inl, inr, Bool, true, false, List, [], ◌++◌, Option,
  none, some, set, get_or, if◌then◌else◌, arith, Bool-cases, ◌==◌, get_or-set_self, get_or-set_ne,
  eq→==,
}
use mdb_linux.Hashmap.{Hashmap, Keys, find_entry, remove_entry}
use mdb_linux.Hashmap.Chains.{
  count, count-append, find_entry-append, or_else, count-remove, find_entry-remove,
}
use mdb_linux.Hashmap.Moves.{IsValid}

or_else-cases :
    {A : Type 0} (b : Bool) (x y : Option A)
    → (b ≡ false → y ≡ none)
    → or_else (if b then none else x) y ≡ (if b then y else x)
or_else-cases true x y h = refl
or_else-cases false none y h = h refl
or_else-cases false (some a) y h = refl

module _ {A K : Type 0} (keys : Keys A K) where
  -- A chain put in the place of another.
  pub placed-set :
      (hm : Hashmap A) (i : ℕ) (c : List A)
      → IsValid keys hm
      → i < hm.capacity
      → ((q : K) → count keys q c ≤ (if i == keys.hash q % hm.capacity then 1 else 0))
      → (q : K) (j : ℕ)
      → count keys q (get_or (set hm.buckets i c) j [])
        ≤ (if j == keys.hash q % hm.capacity then 1 else 0)
  placed-set hm i c v h fits q j = elim (Bool-cases (j == i)) [
    | inl t ↦
        let p : j ≡ i = ground (arith, t) in
        rw (p, get_or-set_self hm.buckets i c [] (omega (arith, v.chains))) (fits q)
    | inr f ↦
        rw (get_or-set_ne hm.buckets i j c [] (λ p. absurd (ground (arith, f, eq→== j i (sym p)))))
          (v.placed q j)
  ]

  find-set :
      (hm : Hashmap A) (i j : ℕ) (c : List A) (q : K)
      → IsValid keys hm
      → i < hm.capacity
      → find_entry keys q (get_or (set hm.buckets i c) j [])
        ≡ (if j == i then find_entry keys q c else find_entry keys q (get_or hm.buckets j []))
  find-set hm i j c q v h = elim (Bool-cases (j == i)) [
    | inl t ↦
        let p : j ≡ i = ground (arith, t) in
        rw (t, p, get_or-set_self hm.buckets i c [] (omega (arith, v.chains)))
    | inr f ↦
        rw (
          f,
          get_or-set_ne hm.buckets i j c [] (λ p. absurd (ground (arith, f, eq→== j i (sym p)))),
        )
  ]

  same-home :
      (hm : Hashmap A) (q k : K)
      → keys.same q k ≡ true
      → keys.hash q % hm.capacity ≡ keys.hash k % hm.capacity
  same-home hm q k h = ap (λ (x : K). keys.hash x % hm.capacity) ((keys.same_iff q k).0 h)

  -- The chain of a key without its entry, then perhaps a new one.
  pub replaced-fits :
      (hm : Hashmap A) (k : K) (tail : List A)
      → IsValid keys hm
      → ((q : K) → count keys q tail ≤ (if keys.same q k then 1 else 0))
      → (q : K)
      → count keys q
          (remove_entry keys k (get_or hm.buckets (keys.hash k % hm.capacity) []) ++ tail)
        ≤ (if keys.hash k % hm.capacity == keys.hash q % hm.capacity then 1 else 0)
  replaced-fits hm k tail v t q =
      let i = keys.hash k % hm.capacity in
      let chain = get_or hm.buckets i [] in
      ground (
        arith,
        count-append keys q (remove_entry keys k chain) tail,
        count-remove keys k q chain (ground (arith, v.placed k i)),
        t q,
        v.placed q i,
        same-home hm q k,
      )

  pub replaced-find :
      (hm : Hashmap A) (k q : K) (tail : List A)
      → IsValid keys hm
      → 0 < hm.capacity
      → (keys.same q k ≡ false → find_entry keys q tail ≡ none)
      → find_entry keys q (
          get_or
            (set hm.buckets
              (keys.hash k % hm.capacity)
              (remove_entry keys k (get_or hm.buckets (keys.hash k % hm.capacity) []) ++ tail))
            (keys.hash q % hm.capacity)
            [])
        ≡ (if keys.same q k
            then find_entry keys q tail
            else find_entry keys q (get_or hm.buckets (keys.hash q % hm.capacity) []))
  replaced-find hm k q tail v h t =
      let i = keys.hash k % hm.capacity in
      let j = keys.hash q % hm.capacity in
      let chain = get_or hm.buckets i [] in
      let rest = remove_entry keys k chain in
      let found : find_entry keys q (rest ++ tail)
          ≡ (if keys.same q k then find_entry keys q tail else find_entry keys q chain) =
        find_entry-append keys q rest tail
        ∙ ap (λ (o : Option A). or_else o (find_entry keys q tail))
            (find_entry-remove keys k q chain (ground (arith, v.placed k i)))
        ∙ or_else-cases (keys.same q k) (find_entry keys q chain) (find_entry keys q tail) t in
      find-set hm i j (rest ++ tail) q v (mod-lt (keys.hash k) h) ∙ (elim (Bool-cases (j == i)) [
        | inl e ↦ let p : j ≡ i = ground (arith, e) in rw (e, found, p)
        | inr d ↦ ground (arith, d, same-home hm q k)
      ])
