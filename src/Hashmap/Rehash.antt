-- ===== src/Hashmap/Rehash.antt =====
-- The loops of mdv_hashmap_resize: where the entries of the old chains stand in the new ones.
use native.Mathlib.Nat.{mod-lt}
use mdb_linux.Base.{
  ℕ, zero, suc, ◌+◌, ◌%◌, ◌≤◌, ◌<◌, ◌≡◌, ◌≢◌, refl, sym, ap, ap₂, ◌∙◌, inl, inr, true, List, [],
  ◌∷◌, ◌++◌, Option, none, some, length, set, get_or, replicate, if◌then◌else◌, arith, Bool-cases,
  length-append, ◌==◌, length-set, append-nil, append_assoc, get_or-set_self, get_or-set_ne, eq→==,
}
use mdb_linux.Hashmap.{Keys, find_entry, move_entries, move_chains}
use mdb_linux.Hashmap.Chains.{count, count-append, find_entry-append, or_else, find_entry-eq-none}

or_else-none : {A : Type 0} (o : Option A) → or_else o none ≡ o
or_else-none none = refl
or_else-none (some a) = refl

-- The entries of all the chains.
unfoldable pub total : {A : Type 0} → List (List A) → ℕ
total [] = 0
total (c ∷ cs) = length c + total cs

pub total-set :
    {A : Type 0} (cs : List (List A)) (i : ℕ) (c : List A)
    → i < length cs
    → total (set cs i c) + length (get_or cs i []) ≡ total cs + length c
unfolding total
total-set [] i c h = absurd (omega arith)
total-set (x ∷ cs) zero c h = omega arith
total-set (x ∷ cs) (suc i) c h = omega (arith, total-set cs i c (omega arith))

pub length-get_or : {A : Type 0} (cs : List (List A)) (i : ℕ) → length (get_or cs i []) ≤ total cs
unfolding total
length-get_or [] i = omega arith
length-get_or (x ∷ cs) zero = omega arith
length-get_or (x ∷ cs) (suc i) = omega (arith, length-get_or cs i)

pub total-replicate : (A : Type 0) (n : ℕ) → total (replicate {A = List A} n []) ≡ 0
unfolding total
total-replicate A zero = refl
total-replicate A (suc n) = omega (arith, total-replicate A n)

-- An entry appended to the chain at an index.
get_or-put :
    {A : Type 0} (e : A) (buckets : List (List A)) (i j : ℕ)
    → i < length buckets
    → get_or (set buckets i (get_or buckets i [] ++ e ∷ [])) j []
      ≡ get_or buckets j [] ++ (if j == i then e ∷ [] else [])
get_or-put e buckets i j h = elim (Bool-cases (j == i)) [
  | inl t ↦
      let p : j ≡ i = ground (arith, t) in
      rw (t, p, get_or-set_self buckets i (get_or buckets i [] ++ e ∷ []) [] h)
  | inr f ↦ rw (
    f,
    get_or-set_ne buckets i j (get_or buckets i [] ++ e ∷ []) []
        (λ p. absurd (ground (arith, f, eq→== j i (sym p)))),
    append-nil (get_or buckets j []),
  )
]

module _ {A K : Type 0} (keys : Keys A K) (capacity : ℕ) where
  -- The entries whose hash leads to a chain, in their order.
  unfoldable pub arrivals : ℕ → List A → List A
  arrivals j [] = []
  arrivals j (e ∷ es) =
      (if j == keys.hash (keys.key_of e) % capacity then e ∷ [] else []) ++ arrivals j es

  unfoldable pub all_arrivals : ℕ → List (List A) → List A
  all_arrivals j [] = []
  all_arrivals j (c ∷ cs) = arrivals j c ++ all_arrivals j cs

  length-move_entries :
      (es : List A) (buckets : List (List A))
      → length (move_entries keys capacity es buckets) ≡ length buckets
  unfolding move_entries
  length-move_entries [] buckets = refl
  length-move_entries (e ∷ es) buckets =
      let i = keys.hash (keys.key_of e) % capacity in
      length-move_entries es (set buckets i (get_or buckets i [] ++ e ∷ []))
      ∙ length-set buckets i (get_or buckets i [] ++ e ∷ [])

  pub length-move_chains :
      (cs buckets : List (List A)) → length (move_chains keys capacity cs buckets) ≡ length buckets
  unfolding move_chains
  length-move_chains [] buckets = refl
  length-move_chains (c ∷ cs) buckets =
      length-move_chains cs (move_entries keys capacity c buckets) ∙ length-move_entries c buckets

  get_or-move_entries :
      (es : List A) (buckets : List (List A)) (j : ℕ)
      → 0 < capacity
      → length buckets ≡ capacity
      → get_or (move_entries keys capacity es buckets) j [] ≡ get_or buckets j [] ++ arrivals j es
  unfolding move_entries arrivals
  get_or-move_entries [] buckets j p h = sym (append-nil (get_or buckets j []))
  get_or-move_entries (e ∷ es) buckets j p h =
      let i = keys.hash (keys.key_of e) % capacity in
      let one = get_or buckets i [] ++ e ∷ [] in
      let inside : i < capacity = mod-lt (keys.hash (keys.key_of e)) p in
      get_or-move_entries es (set buckets i one) j p (length-set buckets i one ∙ h)
      ∙ ap (λ (c : List A). c ++ arrivals j es) (get_or-put e buckets i j (omega arith))
      ∙ append_assoc (get_or buckets j []) (if j == i then e ∷ [] else []) (arrivals j es)

  pub get_or-move_chains :
      (cs buckets : List (List A)) (j : ℕ)
      → 0 < capacity
      → length buckets ≡ capacity
      → get_or (move_chains keys capacity cs buckets) j []
        ≡ get_or buckets j [] ++ all_arrivals j cs
  unfolding move_chains all_arrivals
  get_or-move_chains [] buckets j p h = sym (append-nil (get_or buckets j []))
  get_or-move_chains (c ∷ cs) buckets j p h =
      get_or-move_chains cs (move_entries keys capacity c buckets) j p
        (length-move_entries c buckets ∙ h)
      ∙ ap (λ (x : List A). x ++ all_arrivals j cs) (get_or-move_entries c buckets j p h)
      ∙ append_assoc (get_or buckets j []) (arrivals j c) (all_arrivals j cs)

  same-home :
      (q : K) (e : A)
      → keys.same q (keys.key_of e) ≡ true
      → keys.hash q % capacity ≡ keys.hash (keys.key_of e) % capacity
  same-home q e h = ap (λ (k : K). keys.hash k % capacity) ((keys.same_iff q (keys.key_of e)).0 h)

  -- What arrives under a key, all of it in the chain its hash leads to.
  count-arrivals :
      (q : K) (es : List A) (j : ℕ)
      → count keys q (arrivals j es) ≡ (if j == keys.hash q % capacity then count keys q es else 0)
  unfolding arrivals count
  count-arrivals q [] j = ground arith
  count-arrivals q (e ∷ es) j = ground (arith, same-home q e, count-arrivals q es j)

  find-arrivals :
      (q : K) (es : List A)
      → find_entry keys q (arrivals (keys.hash q % capacity) es) ≡ find_entry keys q es
  unfolding arrivals find_entry
  find-arrivals q [] = refl
  find-arrivals q (e ∷ es) = ground (arith, same-home q e, find-arrivals q es)

  unfoldable pub count_all : K → List (List A) → ℕ
  count_all q [] = 0
  count_all q (c ∷ cs) = count keys q c + count_all q cs

  -- The same for all the chains, when a key stands in the chain of its old home only.
  pub count-all_arrivals :
      (q : K) (cs : List (List A)) (j : ℕ)
      → count keys q (all_arrivals j cs)
        ≡ (if j == keys.hash q % capacity then count_all q cs else 0)
  unfolding all_arrivals count_all count
  count-all_arrivals q [] j = ground arith
  count-all_arrivals q (c ∷ cs) j = ground (
    arith,
    count-append keys q (arrivals j c) (all_arrivals j cs),
    count-arrivals q c j,
    count-all_arrivals q cs j,
  )

  -- Where a key stands in one chain only, the search of all the chains is the search of that one.
  count_all-absent :
      (q : K) (cs : List (List A))
      → ((j : ℕ) → count keys q (get_or cs j []) ≡ 0)
      → count_all q cs ≡ 0
  unfolding count_all
  count_all-absent q [] h = refl
  count_all-absent q (c ∷ cs) h = omega (arith, h 0, count_all-absent q cs (λ j. h (suc j)))

  pub count_all-only :
      (q : K) (cs : List (List A)) (i : ℕ)
      → ((j : ℕ) → j ≢ i → count keys q (get_or cs j []) ≡ 0)
      → count_all q cs ≡ count keys q (get_or cs i [])
  unfolding count_all count
  count_all-only q [] i h = refl
  count_all-only q (c ∷ cs) zero h =
      omega (arith, count_all-absent q cs (λ j. h (suc j) (λ e. absurd (omega arith))))
  count_all-only q (c ∷ cs) (suc i) h = omega (
    arith,
    h 0 (λ e. absurd (omega arith)),
    count_all-only q cs i (λ j n. h (suc j) (λ e. n (omega arith))),
  )

  find-absent :
      (q : K) (cs : List (List A))
      → count_all q cs ≡ 0
      → find_entry keys q (all_arrivals (keys.hash q % capacity) cs) ≡ none
  find-absent q cs h =
      find_entry-eq-none keys q (all_arrivals (keys.hash q % capacity) cs)
        (ground (arith, count-all_arrivals q cs (keys.hash q % capacity)))

  pub find-all_arrivals :
      (q : K) (cs : List (List A)) (i : ℕ)
      → ((j : ℕ) → j ≢ i → count keys q (get_or cs j []) ≡ 0)
      → find_entry keys q (all_arrivals (keys.hash q % capacity) cs)
        ≡ find_entry keys q (get_or cs i [])
  unfolding all_arrivals find_entry
  find-all_arrivals q [] i h = refl
  find-all_arrivals q (c ∷ cs) zero h =
      let rest =
        find-absent q cs (count_all-absent q cs (λ j. h (suc j) (λ e. absurd (omega arith)))) in
      find_entry-append keys q (arrivals (keys.hash q % capacity) c)
        (all_arrivals (keys.hash q % capacity) cs)
      ∙ ap₂ (λ (a b : Option A). or_else a b) (find-arrivals q c) rest
      ∙ or_else-none (find_entry keys q c)
  find-all_arrivals q (c ∷ cs) (suc i) h =
      find_entry-append keys q (arrivals (keys.hash q % capacity) c)
        (all_arrivals (keys.hash q % capacity) cs)
      ∙ ap₂ (λ (a b : Option A). or_else a b)
          (find-arrivals q c ∙ find_entry-eq-none keys q c (h 0 (λ e. absurd (omega arith))))
          (find-all_arrivals q cs i (λ j n. h (suc j) (λ e. n (omega arith))))

  -- No entry is lost.
  total-move_entries :
      (es : List A) (buckets : List (List A))
      → 0 < capacity
      → length buckets ≡ capacity
      → total (move_entries keys capacity es buckets) ≡ total buckets + length es
  unfolding move_entries
  total-move_entries [] buckets p h = omega arith
  total-move_entries (e ∷ es) buckets p h =
      let i = keys.hash (keys.key_of e) % capacity in
      let one = get_or buckets i [] ++ e ∷ [] in
      let inside : i < capacity = mod-lt (keys.hash (keys.key_of e)) p in
      omega (
        arith,
        total-move_entries es (set buckets i one) p (length-set buckets i one ∙ h),
        total-set buckets i one (omega arith),
        length-append (get_or buckets i []) (e ∷ []),
      )

  pub total-move_chains :
      (cs buckets : List (List A))
      → 0 < capacity
      → length buckets ≡ capacity
      → total (move_chains keys capacity cs buckets) ≡ total buckets + total cs
  unfolding move_chains total
  total-move_chains [] buckets p h = omega arith
  total-move_chains (c ∷ cs) buckets p h = omega (
    arith,
    total-move_chains cs (move_entries keys capacity c buckets) p
        (length-move_entries c buckets ∙ h),
    total-move_entries c buckets p h,
  )
