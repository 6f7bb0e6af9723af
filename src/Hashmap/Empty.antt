-- ===== src/Hashmap/Empty.antt =====
-- Tables without chains or entries: mdv_hashmap_create, mdv_hashmap_clear, and capacity 0.
use mdb_linux.Base.{
  ℕ, ◌*◌, ◌/◌, ◌%◌, ◌≤◌, ◌<◌, ◌≡◌, refl, sym, subst, some-eq-some, ◌∙◌, Bool, true, false, List, [],
  ◌∷◌, none, some, get_or, replicate, arith, ◌==◌, length-replicate, get_or-replicate, le→ltb,
}
use mdb_linux.Hashmap
use mdb_linux.Hashmap.{Hashmap, Keys, find_entry, Run, done, division_by_zero}
use mdb_linux.Hashmap.Chains.{count}
use mdb_linux.Hashmap.Rehash.{total, total-replicate}
use mdb_linux.Hashmap.Moves.{IsValid, find-chain}

total-clear : {A : Type 0} (cs : List (List A)) → total (Hashmap.clear_chains cs) ≡ 0
unfolding total Hashmap.clear_chains
total-clear [] = refl
total-clear (c ∷ cs) = omega (arith, total-clear cs)

module _ {A K : Type 0} (keys : Keys A K) where
  grow-idle :
      (granted : Bool) (hm : Hashmap A) → hm.size ≡ 0 → Hashmap.grow keys granted hm ≡ (true, hm)
  unfolding Hashmap.grow
  grow-idle granted hm z = rw (le→ltb (hm.capacity * 3 / 4) hm.size (omega arith))

  -- In an empty table of capacity 0 the insertion of an item that covers its key takes a hash
  -- modulo 0, whatever the allocator grants.
  pub insert_without_chains :
      (granted_table granted_entry : Bool) (hm : Hashmap A) (item : A) (bytes : ℕ)
      → hm.capacity ≡ 0
      → hm.size ≡ 0
      → hm.key_end ≤ bytes
      → Hashmap.insert keys granted_table granted_entry hm item bytes ≡ division_by_zero
  unfolding Hashmap.insert
  insert_without_chains granted_table granted_entry hm item bytes c z b =
      ground (arith, grow-idle granted_table hm z, le→ltb bytes hm.key_end b)

  abbrev fresh : ℕ → ℕ → Hashmap A
  fresh capacity key_end = record {
    rc = 1;
    capacity = capacity * (5 / 4);
    size = 0;
    key_end = key_end;
    buckets = replicate (capacity * (5 / 4)) [];
  }

  empty_chain :
      (q : K) (n j : ℕ)
      → (find_entry keys q (get_or (replicate {A = List A} n []) j []) ≡ none)
        × (count keys q (get_or (replicate {A = List A} n []) j []) ≡ 0)
  unfolding find_entry count
  empty_chain q n j = rw (get_or-replicate {A = List A} n j []) (refl, refl)

  fresh-IsValid : (capacity key_end : ℕ) → IsValid keys (fresh capacity key_end)
  fresh-IsValid capacity key_end =
      let n = capacity * (5 / 4) in
      record {
        chains = length-replicate n [];
        counted = sym (total-replicate A n);
        room = omega arith;
        placed = λ q j. omega (arith, (empty_chain q n j).1);
      }

  fresh-find : (capacity key_end : ℕ) (q : K) → Hashmap.find keys (fresh capacity key_end) q ≡ none
  fresh-find capacity key_end q =
      find-chain keys (fresh capacity key_end) q (fresh-IsValid capacity key_end)
      ∙ (empty_chain q (capacity * (5 / 4)) (keys.hash q % (capacity * (5 / 4)))).0

  -- A table created with memory is valid, has the capacity asked for, not five quarters of it, and
  -- finds nothing.
  pub create-IsValid :
      (hm : Hashmap A) (capacity key_end : ℕ)
      → Hashmap.create true capacity key_end ≡ some hm
      → IsValid keys hm × (hm.capacity ≡ capacity) × ((q : K) → Hashmap.find keys hm q ≡ none)
  unfolding Hashmap.create
  create-IsValid hm capacity key_end h =
      subst
        (λ (x : Hashmap A).
          IsValid keys x × (x.capacity ≡ capacity) × ((q : K) → Hashmap.find keys x q ≡ none))
        (some-eq-some h) (fresh-IsValid capacity key_end, omega arith, fresh-find capacity key_end)

  -- Clearing a valid table that is not empty leaves no entry in its chains but leaves its size, so
  -- the table no longer counts what it holds.
  pub clear-size :
      (hm : Hashmap A)
      → IsValid keys hm
      → 0 < hm.size
      → (total (Hashmap.clear hm).buckets ≡ 0)
        × ((Hashmap.clear hm).size ≡ hm.size)
        × (¬ IsValid keys (Hashmap.clear hm))
  unfolding Hashmap.clear
  clear-size hm v h =
      let z : hm.size == 0 ≡ false = ground arith in
      rw (z) (
        total-clear hm.buckets,
        refl,
        λ w. absurd (omega (arith, w.counted, total-clear hm.buckets)),
      )
