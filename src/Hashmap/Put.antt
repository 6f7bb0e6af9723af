-- ===== src/Hashmap/Put.antt =====
-- The entry that mdv_hashmap_insert puts into a chain, and the one that mdv_hashmap_erase drops.
use native.Mathlib.Nat.{mod-lt}
use mdb_linux.Base.{
  ℕ, ◌+◌, ◌-◌, ◌%◌, ◌≤◌, ◌<◌, ◌≡◌, refl, sym, ap, ap₂, ◌∙◌, inl, inr, Bool, true, List, [], ◌∷◌,
  ◌++◌, Option, none, some, length, set, get_or, if◌then◌else◌, arith, Option-cases, length-append,
  length-set, append-nil,
}
use mdb_linux.Hashmap
use mdb_linux.Hashmap.{
  Hashmap, Keys, find_entry, remove_entry, move_chains, Run, done, division_by_zero,
}
use mdb_linux.Hashmap.Chains.{count, length-remove_none, length-remove_some}
use mdb_linux.Hashmap.Rehash.{total, total-set, length-get_or}
use mdb_linux.Hashmap.Moves.{IsValid, find-open}
use mdb_linux.Hashmap.Replace.{placed-set, replaced-fits, replaced-find}

module _ {A K : Type 0} (keys : Keys A K) where
  find_entry-one :
      (q : K) (e : A)
      → find_entry keys q (e ∷ []) ≡ (if keys.same q (keys.key_of e) then some e else none)
  unfolding find_entry
  find_entry-one q e = refl

  count-one :
      (q : K) (e : A) → count keys q (e ∷ []) ≤ (if keys.same q (keys.key_of e) then 1 else 0)
  unfolding count
  count-one q e = ground arith

  nothing : (q : K) → find_entry keys q [] ≡ none
  unfolding find_entry
  nothing q = refl

  none_there : (k q : K) → count keys q [] ≤ (if keys.same q k then 1 else 0)
  unfolding count
  none_there k q = omega arith

  pub put-find :
      (hm : Hashmap A) (item : A) (q : K)
      → IsValid keys hm
      → 0 < hm.capacity
      → Hashmap.find keys (Hashmap.put_entry keys true hm item).1 q
        ≡ (if keys.same q (keys.key_of item) then some item else Hashmap.find keys hm q)
  unfolding Hashmap.put_entry
  put-find hm item q v h =
      find-open keys (Hashmap.put_entry keys true hm item).1 q h
      ∙ replaced-find keys hm (keys.key_of item) q (item ∷ []) v h
          (λ d. find_entry-one q item ∙ ap (λ (b : Bool). if b then some item else none) d)
      ∙ sym (
          ap₂ (λ (x y : Option A). if keys.same q (keys.key_of item) then x else y) refl
            (find-open keys hm q h))
      ∙ ground arith

  shrunk-total :
      (hm : Hashmap A) (k : K) (tail : List A) (n : ℕ)
      → IsValid keys hm
      → 0 < hm.capacity
      → n ≡ elim (find_entry keys k (get_or hm.buckets (keys.hash k % hm.capacity) [])) [
        | none ↦ hm.size
        | some old ↦ hm.size - 1
      ]
      → n + length tail
        ≡ total (
            set hm.buckets
              (keys.hash k % hm.capacity)
              (remove_entry keys k (get_or hm.buckets (keys.hash k % hm.capacity) []) ++ tail))
  shrunk-total hm k tail n v h e =
      let i = keys.hash k % hm.capacity in
      let chain = get_or hm.buckets i [] in
      let rest = remove_entry keys k chain in
      let inside : i < length hm.buckets = omega (arith, v.chains, mod-lt (keys.hash k) h) in
      let sum = total-set hm.buckets i (rest ++ tail) inside in
      elim (Option-cases (find_entry keys k chain)) [
        | inl o ↦ omega (
          arith,
          sum,
          v.counted,
          length-append rest tail,
          length-remove_none keys k chain o,
          e ∙ ap (λ (x : Option A). elim x [ none ↦ hm.size | some old ↦ hm.size - 1 ]) o,
        )
        | inr (x, o) ↦ omega (
          arith,
          length-get_or hm.buckets i,
          sum,
          v.counted,
          length-append rest tail,
          length-remove_some keys k chain x o,
          e ∙ ap (λ (x : Option A). elim x [ none ↦ hm.size | some old ↦ hm.size - 1 ]) o,
        )
      ]

  kept-le : (o : Option A) (n : ℕ) → elim o [ none ↦ n | some old ↦ n - 1 ] ≤ n
  kept-le none n = omega arith
  kept-le (some a) n = omega arith

  pub put-IsValid :
      (hm : Hashmap A) (item : A)
      → IsValid keys hm
      → hm.size < hm.capacity
      → IsValid keys (Hashmap.put_entry keys true hm item).1
  unfolding Hashmap.put_entry
  put-IsValid hm item v h =
      let k = keys.key_of item in
      let i = keys.hash k % hm.capacity in
      let rest = remove_entry keys k (get_or hm.buckets i []) in
      let kept : ℕ = elim (find_entry keys k (get_or hm.buckets i [])) [
        | none ↦ hm.size
        | some old ↦ hm.size - 1
      ] in
      record {
        chains = length-set hm.buckets i (rest ++ item ∷ []) ∙ v.chains;
        counted = shrunk-total hm k (item ∷ []) kept v (omega arith) refl;
        room = omega (arith, kept-le (find_entry keys k (get_or hm.buckets i [])) hm.size);
        placed =
            placed-set keys hm i (rest ++ item ∷ []) v (mod-lt (keys.hash k) (omega arith))
              (replaced-fits keys hm k (item ∷ []) v (λ q. count-one q item));
      }

  pub drop-IsValid :
      (hm : Hashmap A) (k : K)
      → IsValid keys hm
      → 0 < hm.capacity
      → (n : ℕ)
      → n ≡ elim (find_entry keys k (get_or hm.buckets (keys.hash k % hm.capacity) [])) [
        | none ↦ hm.size
        | some old ↦ hm.size - 1
      ]
      → IsValid keys (record hm {
        size = n;
        buckets =
            set hm.buckets
              (keys.hash k % hm.capacity)
              (remove_entry keys k (get_or hm.buckets (keys.hash k % hm.capacity) []));
      })
  drop-IsValid hm k v h n e =
      let i = keys.hash k % hm.capacity in
      let rest = remove_entry keys k (get_or hm.buckets i []) in
      record {
        chains = length-set hm.buckets i rest ∙ v.chains;
        counted = omega (
          arith,
          shrunk-total hm k [] n v h e,
          ap (λ (c : List A). total (set hm.buckets i c)) (append-nil rest),
        );
        room = omega (arith, e, kept-le (find_entry keys k (get_or hm.buckets i [])) hm.size);
        placed = placed-set keys hm i rest v (mod-lt (keys.hash k) h) (λ q. omega (
          arith,
          replaced-fits keys hm k [] v (none_there k) q,
          ap (count keys q) (append-nil rest),
        ));
      }

  pub drop-find :
      (hm : Hashmap A) (k q : K)
      → IsValid keys hm
      → 0 < hm.capacity
      → find_entry keys q (
          get_or
            (set hm.buckets
              (keys.hash k % hm.capacity)
              (remove_entry keys k (get_or hm.buckets (keys.hash k % hm.capacity) [])))
            (keys.hash q % hm.capacity)
            [])
        ≡ (if keys.same q k then none else Hashmap.find keys hm q)
  drop-find hm k q v h =
      let i = keys.hash k % hm.capacity in
      let rest = remove_entry keys k (get_or hm.buckets i []) in
      ap
        (λ (c : List A).
          find_entry keys q (get_or (set hm.buckets i c) (keys.hash q % hm.capacity) []))
        (sym (append-nil rest))
      ∙ replaced-find keys hm k q [] v h (λ d. nothing q)
      ∙ sym (
          ap₂ (λ (x y : Option A). if keys.same q k then x else y) (sym (nothing q))
            (find-open keys hm q h))
