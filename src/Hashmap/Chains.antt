-- ===== src/Hashmap/Chains.antt =====
-- One chain of the table: lookup, removal, and how often a key occurs.
use mdb_linux.Base.{
  ℕ, ◌+◌, ◌≤◌, ◌≡◌, refl, sym, ap, inl, inr, true, false, List, [], ◌∷◌, ◌++◌, Option, none, some,
  length, if◌then◌else◌, arith, Bool-cases,
}
use mdb_linux.Hashmap.{Keys, find_entry, remove_entry}

abbrev pub or_else : {A : Type 0} → Option A → Option A → Option A
or_else none b = b
or_else (some a) b = some a

module _ {A K : Type 0} (keys : Keys A K) where
  -- How many entries of a chain stand under a key.
  unfoldable pub count : K → List A → ℕ
  count q [] = 0
  count q (e ∷ es) = (if keys.same q (keys.key_of e) then 1 else 0) + count q es

  pub same_refl : (k : K) → keys.same k k ≡ true
  same_refl k = (keys.same_iff k k).1 refl

  -- A key that is the key of an entry, and one that is not, among the tests on it.
  pub same-key :
      (k q : K) (e : A)
      → keys.same k (keys.key_of e) ≡ true
      → keys.same q (keys.key_of e) ≡ keys.same q k
  same-key k q e h = sym (ap (keys.same q) ((keys.same_iff k (keys.key_of e)).0 h))

  pub same-other :
      (k q : K) (e : A)
      → keys.same k (keys.key_of e) ≡ false
      → keys.same q (keys.key_of e) ≡ true
      → keys.same q k ≡ false
  same-other k q e h g = elim (Bool-cases (keys.same q k)) [
    | inl t ↦ absurd (
        ground (
          arith,
          h,
          sym (ap (λ (x : K). keys.same x (keys.key_of e)) ((keys.same_iff q k).0 t)),
          g,
        ))
    | inr f ↦ f
  ]

  pub count-append : (q : K) (xs ys : List A) → count q (xs ++ ys) ≡ count q xs + count q ys
  unfolding count
  count-append q [] ys = omega arith
  count-append q (e ∷ es) ys = omega (arith, count-append q es ys)

  pub count_same : (k q : K) (xs : List A) → keys.same q k ≡ true → count q xs ≡ count k xs
  count_same k q xs h = ap (λ (x : K). count x xs) ((keys.same_iff q k).0 h)

  pub find_entry-append :
      (q : K) (xs ys : List A)
      → find_entry keys q (xs ++ ys) ≡ or_else (find_entry keys q xs) (find_entry keys q ys)
  unfolding find_entry
  find_entry-append q [] ys = refl
  find_entry-append q (e ∷ es) ys = ground (arith, find_entry-append q es ys)

  pub find_entry-eq-none : (q : K) (xs : List A) → count q xs ≡ 0 → find_entry keys q xs ≡ none
  unfolding count find_entry
  find_entry-eq-none q [] h = refl
  find_entry-eq-none q (e ∷ es) h = ground (arith, find_entry-eq-none q es)

  pub count_of_none : (q : K) (xs : List A) → find_entry keys q xs ≡ none → count q xs ≡ 0
  unfolding count find_entry
  count_of_none q [] h = refl
  count_of_none q (e ∷ es) h = ground (arith, count_of_none q es)

  -- Removing a key that occurs at most once makes it absent, and keeps every other.
  pub find_entry-remove :
      (k q : K) (xs : List A)
      → count k xs ≤ 1
      → find_entry keys q (remove_entry keys k xs)
        ≡ (if keys.same q k then none else find_entry keys q xs)
  unfolding find_entry remove_entry count
  find_entry-remove k q [] h = ground arith
  find_entry-remove k q (e ∷ es) h = ground (
    arith,
    same-key k q e,
    same-other k q e,
    find_entry-remove k q es,
    find_entry-eq-none q es,
    count_same k q es,
  )

  pub count-remove :
      (k q : K) (xs : List A)
      → count k xs ≤ 1
      → count q (remove_entry keys k xs) ≡ (if keys.same q k then 0 else count q xs)
  unfolding remove_entry count
  count-remove k q [] h = ground arith
  count-remove k q (e ∷ es) h =
      ground (arith, same-key k q e, same-other k q e, count-remove k q es, count_same k q es)

  pub length-remove_none :
      (k : K) (xs : List A)
      → find_entry keys k xs ≡ none
      → length (remove_entry keys k xs) ≡ length xs
  unfolding find_entry remove_entry
  length-remove_none k [] h = refl
  length-remove_none k (e ∷ es) h = ground (arith, length-remove_none k es)

  pub length-remove_some :
      (k : K) (xs : List A) (x : A)
      → find_entry keys k xs ≡ some x
      → length (remove_entry keys k xs) + 1 ≡ length xs
  unfolding find_entry remove_entry
  length-remove_some k [] x h = ground arith
  length-remove_some k (e ∷ es) x h = ground (arith, length-remove_some k es x)
