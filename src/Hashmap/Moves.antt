-- ===== src/Hashmap/Moves.antt =====
-- What mdv_hashmap_resize keeps of a valid table, and how a lookup reads one.
use mdb_linux.Base.{
  ℕ, ◌%◌, ◌≤◌, ◌<◌, ◌≡◌, ◌≢◌, refl, sym, ap, ◌∙◌, inl, inr, List, [], ◌∷◌, ◌++◌, none, length,
  get_or, replicate, if◌then◌else◌, arith, Bool-cases, ◌==◌, get_or-replicate, length-replicate,
}
use mdb_linux.Hashmap
use mdb_linux.Hashmap.{
  Hashmap, Keys, find_entry, remove_entry, move_chains, Run, done, division_by_zero,
}
use mdb_linux.Hashmap.Chains.{count}
use mdb_linux.Hashmap.Rehash.{
  total, total-replicate, total-move_chains, length-move_chains, get_or-move_chains,
  count-all_arrivals, count_all-only, find-all_arrivals, all_arrivals,
}

module _ {A K : Type 0} (keys : Keys A K) where
  -- A chain per bucket, every entry counted, and a key at most once and in the chain of its hash
  -- only. The load factor keeps the entries at most as many as the chains.
  pub record IsValid (hm : Hashmap A) : Type 0 where
    pub chains : length hm.buckets ≡ hm.capacity
    pub counted : hm.size ≡ total hm.buckets
    pub room : hm.size ≤ hm.capacity
    pub placed :
        (q : K) (j : ℕ)
        → count keys q (get_or hm.buckets j []) ≤ (if j == keys.hash q % hm.capacity then 1 else 0)

  elsewhere :
      (hm : Hashmap A)
      → IsValid hm
      → (q : K) (j : ℕ) → j ≢ keys.hash q % hm.capacity
      → count keys q (get_or hm.buckets j []) ≡ 0
  elsewhere hm v q j n = ground (arith, v.placed q j)

  moved-count :
      (hm : Hashmap A) (capacity : ℕ)
      → IsValid hm
      → hm.size < capacity
      → (q : K) (j : ℕ)
      → count keys q (get_or (move_chains keys capacity hm.buckets (replicate capacity [])) j [])
        ≡ (if j == keys.hash q % capacity
            then count keys q (get_or hm.buckets (keys.hash q % hm.capacity) [])
            else 0)
  moved-count hm capacity v h q j =
      let fresh = replicate {A = List A} capacity [] in
      ap (count keys q) (
        get_or-move_chains keys capacity hm.buckets fresh j (omega arith)
          (length-replicate capacity []))
      ∙ ap (λ (c : List A). count keys q (c ++ all_arrivals keys capacity j hm.buckets))
          (get_or-replicate capacity j [])
      ∙ count-all_arrivals keys capacity q hm.buckets j
      ∙ ap (λ (n : ℕ). if j == keys.hash q % capacity then n else 0)
          (count_all-only keys capacity q hm.buckets (keys.hash q % hm.capacity) (elsewhere hm v q))

  pub moved-IsValid :
      (hm : Hashmap A) (capacity : ℕ)
      → IsValid hm
      → hm.size < capacity
      → IsValid (record hm {
        capacity = capacity;
        buckets = move_chains keys capacity hm.buckets (replicate capacity []);
      })
  moved-IsValid hm capacity v h =
      let fresh = replicate {A = List A} capacity [] in
      let len : length fresh ≡ capacity = length-replicate capacity [] in
      record {
        chains = length-move_chains keys capacity hm.buckets fresh ∙ len;
        counted = omega (
          arith,
          v.counted,
          total-replicate A capacity,
          total-move_chains keys capacity hm.buckets fresh (omega arith) len,
        );
        room = omega arith;
        placed = λ q j.
            ground (arith, moved-count hm capacity v h q j, v.placed q (keys.hash q % hm.capacity));
      }

  pub moved-find :
      (hm : Hashmap A) (capacity : ℕ)
      → IsValid hm
      → hm.size < capacity
      → (q : K)
      → find_entry keys q (
          get_or
            (move_chains keys capacity hm.buckets (replicate capacity []))
            (keys.hash q % capacity)
            [])
        ≡ find_entry keys q (get_or hm.buckets (keys.hash q % hm.capacity) [])
  moved-find hm capacity v h q =
      let fresh = replicate {A = List A} capacity [] in
      let j = keys.hash q % capacity in
      ap (find_entry keys q) (
        get_or-move_chains keys capacity hm.buckets fresh j (omega arith)
          (length-replicate capacity []))
      ∙ ap (λ (c : List A). find_entry keys q (c ++ all_arrivals keys capacity j hm.buckets))
          (get_or-replicate capacity j [])
      ∙ find-all_arrivals keys capacity q hm.buckets (keys.hash q % hm.capacity) (elsewhere hm v q)

  no_chains :
      (k : K) (i : ℕ) (cs : List (List A))
      → length cs ≡ 0
      → find_entry keys k (get_or cs i []) ≡ none
  unfolding find_entry
  no_chains k i [] h = refl
  no_chains k i (c ∷ cs) h = absurd (omega arith)

  -- The lookup reads the chain of the key's hash; a table without chains holds nothing.
  pub find-chain :
      (hm : Hashmap A) (k : K)
      → IsValid hm
      → Hashmap.find keys hm k
        ≡ find_entry keys k (get_or hm.buckets (keys.hash k % hm.capacity) [])
  unfolding Hashmap.find
  find-chain hm k v = elim (Bool-cases (hm.capacity == 0)) [
    | inl t ↦
        rw (t)
          (sym (no_chains k (keys.hash k % hm.capacity) hm.buckets (ground (arith, v.chains, t))))
    | inr f ↦ rw (f)
  ]

  pub find-open :
      (hm : Hashmap A) (k : K)
      → 0 < hm.capacity
      → Hashmap.find keys hm k
        ≡ find_entry keys k (get_or hm.buckets (keys.hash k % hm.capacity) [])
  unfolding Hashmap.find
  find-open hm k h = ground arith
