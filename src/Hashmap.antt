-- ===== src/Hashmap.antt =====
-- mdv_platform/generic/mdv_hashmap.c: a reference-counted hash table with chains.
-- A chain is an `mdv_list`: `mdv_list_emplace_back` adds at its end, `mdv_list_remove` takes an
-- entry out. Products of a capacity with 2 and 3 do not wrap, since an array of that many buckets
-- of 16 bytes stands in memory. What the allocator grants is passed in.
pub mod Chains
pub mod Rehash
pub mod Moves
pub mod Replace
pub mod Put
pub mod Methods
pub mod Empty
mod Tests
use mdb_linux.Base.{
  ℕ, zero, suc, ◌+◌, ◌-◌, ◌*◌, ◌/◌, ◌%◌, ◌^◌, ◌≡◌, ◌↔◌, Bool, true, false, List, [], ◌∷◌, ◌++◌,
  Option, none, some, length, set, get_or, replicate, ltb, leb, ◌==◌, if◌then◌else◌,
}

-- How the table reads its items: the offset of the key, `hash_fn`, and whether `key_cmp_fn` is 0.
-- The comparison is asked to tell equal keys from different ones.
pub record Keys (A K : Type 0) : Type 0 where
  pub key_of : A → K
  pub hash : K → ℕ
  pub same : K → K → Bool
  pub same_iff : (a b : K) → (same a b ≡ true) ↔ (a ≡ b)

-- `key_end` is `key_offset + key_size`.
pub record Hashmap (A : Type 0) : Type 0 where
  pub rc : ℕ
  pub capacity : ℕ
  pub size : ℕ
  pub key_end : ℕ
  pub buckets : List (List A)

-- What a call that may divide by a capacity of 0 does: it is undefined then.
pub data Run (R : Type 0) : Type 0 where
  division_by_zero : Run R
  done : R → Run R

abbrev pub size_mod : ℕ
size_mod = 2 ^ 64

-- `capacity *= 5 / 4` divides the numerals first.
unfoldable pub create : {A : Type 0} → Bool → ℕ → ℕ → Option (Hashmap A)
create granted capacity key_end =
    let n = capacity * (5 / 4) in
    if granted
    then some
        (record { rc = 1; capacity = n; size = 0; key_end = key_end; buckets = replicate n [] })
    else none

module _ {A K : Type 0} (keys : Keys A K) where
  -- The first entry of a chain under a key, and the chain without it.
  unfoldable pub find_entry : K → List A → Option A
  find_entry k [] = none
  find_entry k (e ∷ es) =
      let rest = find_entry k es in if keys.same k (keys.key_of e) then some e else rest

  unfoldable pub remove_entry : K → List A → List A
  remove_entry k [] = []
  remove_entry k (e ∷ es) =
      let rest = e ∷ remove_entry k es in if keys.same k (keys.key_of e) then es else rest

  -- The loops of `mdv_hashmap_resize`: the entries of one chain, and of all of them.
  unfoldable pub move_entries : ℕ → List A → List (List A) → List (List A)
  move_entries capacity [] buckets = buckets
  move_entries capacity (e ∷ es) buckets =
      let idx = keys.hash (keys.key_of e) % capacity in
      move_entries capacity es (set buckets idx (get_or buckets idx [] ++ e ∷ []))

  unfoldable pub move_chains : ℕ → List (List A) → List (List A) → List (List A)
  unfolding move_entries
  move_chains capacity [] buckets = buckets
  move_chains capacity (c ∷ cs) buckets = move_chains capacity cs (move_entries capacity c buckets)

  unfoldable pub resize : Bool → Hashmap A → ℕ → Bool × Hashmap A
  unfolding move_chains
  resize granted hm capacity =
      if ltb hm.size capacity
      then if granted
        then (
          true,
          record hm {
            capacity = capacity;
            buckets = move_chains capacity hm.buckets (replicate capacity []);
          },
        )
        else (false, hm)
      else (false, hm)

  -- The growth at the head of `mdv_hashmap_insert`; the load factor is 3 / 4.
  unfoldable pub grow : Bool → Hashmap A → Bool × Hashmap A
  unfolding resize
  grow granted hm =
      if ltb (hm.capacity * 3 / 4) hm.size then resize granted hm (hm.capacity * 2) else (true, hm)

  -- The old entry goes before the new one is allocated, so a failure there loses it.
  unfoldable pub put_entry : Bool → Hashmap A → A → Bool × Hashmap A
  unfolding find_entry remove_entry
  put_entry granted hm item =
      let k = keys.key_of item in
      let idx = keys.hash k % hm.capacity in
      let chain = get_or hm.buckets idx [] in
      let rest = remove_entry k chain in
      let kept : ℕ = elim (find_entry k chain) [ none ↦ hm.size | some old ↦ hm.size - 1 ] in
      if granted
      then (true, record hm { size = kept + 1; buckets = set hm.buckets idx (rest ++ item ∷ []) })
      else (false, record hm { size = kept; buckets = set hm.buckets idx rest })

  -- The result tells whether a pointer to the new entry is returned.
  unfoldable pub insert : Bool → Bool → Hashmap A → A → ℕ → Run (Bool × Hashmap A)
  unfolding grow put_entry
  insert granted_table granted_entry hm item bytes =
      let r = grow granted_table hm in
      if ltb bytes hm.key_end then done (false, hm) else elim r.0 [
        | false ↦ done (false, r.1)
        | true ↦
            if r.1.capacity == 0 then division_by_zero else done (put_entry granted_entry r.1 item)
      ]

  unfoldable pub find : Hashmap A → K → Option A
  unfolding find_entry
  find hm k =
      if hm.capacity == 0
      then none
      else find_entry k (get_or hm.buckets (keys.hash k % hm.capacity) [])

  unfoldable pub erase : Hashmap A → K → Bool × Hashmap A
  unfolding find_entry remove_entry
  erase hm k =
      let idx = keys.hash k % hm.capacity in
      let chain = get_or hm.buckets idx [] in
      let shrunk = record hm {
        size = hm.size - 1;
        buckets = set hm.buckets idx (remove_entry k chain);
      } in
      if hm.capacity == 0
      then (false, hm)
      else elim (find_entry k chain) [ none ↦ (false, hm) | some e ↦ (true, shrunk) ]

-- `mdv_hashmap_clear` empties the chains and leaves `size` alone.
unfoldable pub clear_chains : {A : Type 0} → List (List A) → List (List A)
clear_chains [] = []
clear_chains (c ∷ cs) = [] ∷ clear_chains cs

unfoldable pub clear : {A : Type 0} → Hashmap A → Hashmap A
unfolding clear_chains
clear hm = if hm.size == 0 then hm else record hm { buckets = clear_chains hm.buckets }

unfoldable pub retain : {A : Type 0} → Hashmap A → Hashmap A
retain hm = record hm { rc = (hm.rc + 1) % size_mod }

-- The returned count is cut to 32 bits; at 0 the table is freed.
unfoldable pub release : {A : Type 0} → Option (Hashmap A) → ℕ × Option (Hashmap A)
release none = (0, none)
release (some hm) =
    let rc = (hm.rc + size_mod - 1) % size_mod in
    let refs = rc % 2 ^ 32 in (refs, (if refs == 0 then none else some (record hm { rc = rc })))
