-- ===== src/Hashmap/Methods.antt =====
-- The operations of mdv_hashmap.c against the partial function from keys to items they implement.
use mdb_linux.Base.{
  ℕ, ◌-◌, ◌*◌, ◌/◌, ◌%◌, ◌≤◌, ◌<◌, ◌≡◌, ◌↔◌, refl, sym, ap, ◌∙◌, inl, inr, Bool, true, false, [],
  Option, none, some, set, get_or, replicate, if◌then◌else◌, arith, Bool-cases, Option-cases, ◌==◌,
  ltb, ltb→lt, lt→ltb, le→ltb, ltb→ge,
}
use mdb_linux.Hashmap
use mdb_linux.Hashmap.{Hashmap, Keys, find_entry, Run, done, division_by_zero}
use mdb_linux.Hashmap.Moves.{IsValid, moved-IsValid, moved-find, find-chain, find-open}
use mdb_linux.Hashmap.Put.{put-find, put-IsValid, drop-IsValid, drop-find}

module _ {A K : Type 0} (keys : Keys A K) where
  abbrev moved : Hashmap A → ℕ → Hashmap A
  moved hm capacity = record hm {
    capacity = capacity;
    buckets = Hashmap.move_chains keys capacity hm.buckets (replicate capacity []);
  }

  moved-same :
      (hm : Hashmap A) (capacity : ℕ)
      → IsValid keys hm
      → hm.size < capacity
      → (q : K) → Hashmap.find keys (moved hm capacity) q ≡ Hashmap.find keys hm q
  moved-same hm capacity v h q =
      find-open keys (moved hm capacity) q (omega arith)
      ∙ moved-find keys hm capacity v h q
      ∙ sym (find-chain keys hm q v)

  resize-moved :
      (hm : Hashmap A) (capacity : ℕ)
      → hm.size < capacity
      → Hashmap.resize keys true hm capacity ≡ (true, moved hm capacity)
  unfolding Hashmap.resize
  resize-moved hm capacity h = rw (lt→ltb hm.size capacity h)

  -- Resizing a valid table, whether it is done, is refused or fails, leaves a valid table in which
  -- every key finds what it found before.
  pub resize-find :
      (granted : Bool) (hm : Hashmap A) (capacity : ℕ)
      → IsValid keys hm
      → IsValid keys (Hashmap.resize keys granted hm capacity).1
        × ((q : K)
            → Hashmap.find keys (Hashmap.resize keys granted hm capacity).1 q
              ≡ Hashmap.find keys hm q)
  unfolding Hashmap.resize
  resize-find true hm capacity v = elim (Bool-cases (ltb hm.size capacity)) [
    | inl t ↦ rw (t) (
      moved-IsValid keys hm capacity v (ltb→lt hm.size capacity t),
      (moved-same hm capacity v (ltb→lt hm.size capacity t)),
    )
    | inr f ↦ rw (f) (v, λ q. refl)
  ]
  resize-find false hm capacity v = elim (Bool-cases (ltb hm.size capacity)) [
    | inl t ↦ rw (t) (v, λ q. refl)
    | inr f ↦ rw (f) (v, λ q. refl)
  ]

  none_found : (hm : Hashmap A) (k : K) → hm.capacity == 0 ≡ true → Hashmap.find keys hm k ≡ none
  unfolding Hashmap.find
  none_found hm k z = rw (z)

  absent :
      (hm : Hashmap A) (q k : K)
      → Hashmap.find keys hm k ≡ none
      → Hashmap.find keys hm q ≡ (if keys.same q k then none else Hashmap.find keys hm q)
  absent hm q k h = elim (Bool-cases (keys.same q k)) [
    | inl t ↦ rw (t) (ap (Hashmap.find keys hm) ((keys.same_iff q k).0 t) ∙ h)
    | inr f ↦ rw (f)
  ]

  -- Erasing a key from a valid table leaves a valid table in which that key finds nothing and every
  -- other what it found before, and tells whether the key was there.
  pub erase-find :
      (hm : Hashmap A) (k : K)
      → IsValid keys hm
      → IsValid keys (Hashmap.erase keys hm k).1
        × (((Hashmap.erase keys hm k).0 ≡ false) ↔ (Hashmap.find keys hm k ≡ none))
        × ((q : K)
            → Hashmap.find keys (Hashmap.erase keys hm k).1 q
              ≡ (if keys.same q k then none else Hashmap.find keys hm q))
  unfolding Hashmap.erase
  erase-find hm k v =
      let i = keys.hash k % hm.capacity in
      elim (Bool-cases (hm.capacity == 0)) [
        | inl z ↦
            rw (z)
              (v, ((λ e. none_found hm k z), (λ e. refl)), λ q. absent hm q k (none_found hm k z))
        | inr o ↦ elim (Option-cases (find_entry keys k (get_or hm.buckets i []))) [
          | inl n ↦
              rw (o, n)
                (
                  v,
                  ((λ e. find-chain keys hm k v ∙ n), (λ e. refl)),
                  λ q. absent hm q k (find-chain keys hm k v ∙ n),
                )
          | inr (x, s) ↦
              rw (o, s)
                (let open_table : 0 < hm.capacity = ground (arith, o) in
                  (
                    drop-IsValid keys hm k v open_table (hm.size - 1) (rw (s)),
                    (
                      (λ e. absurd (ground arith)),
                      (λ e. absurd (ground (arith, e, find-chain keys hm k v, s))),
                    ),
                    λ q.
                        find-open keys
                          (record hm {
                            size = hm.size - 1;
                            buckets =
                                set hm.buckets i
                                  (Hashmap.remove_entry keys k (get_or hm.buckets i []));
                          })
                          q open_table
                        ∙ drop-find keys hm k q v open_table,
                  ))
        ]
      ]

  grow-find :
      (hm : Hashmap A)
      → IsValid keys hm
      → 0 < hm.capacity
      → ((Hashmap.grow keys true hm).0 ≡ true)
        × IsValid keys (Hashmap.grow keys true hm).1
        × ((Hashmap.grow keys true hm).1.size < (Hashmap.grow keys true hm).1.capacity)
        × ((q : K) → Hashmap.find keys (Hashmap.grow keys true hm).1 q ≡ Hashmap.find keys hm q)
  unfolding Hashmap.grow
  grow-find hm v h = elim (Bool-cases (ltb (hm.capacity * 3 / 4) hm.size)) [
    | inl t ↦ rw (t) (
        let large : hm.size < hm.capacity * 2 = omega arith in
        rw (resize-moved hm (hm.capacity * 2) large) (
          refl,
          moved-IsValid keys hm (hm.capacity * 2) v large,
          large,
          moved-same hm (hm.capacity * 2) v large,
        ))
    | inr f ↦ rw (f) (refl, v, omega (arith, ltb→ge (hm.capacity * 3 / 4) hm.size f), λ q. refl)
  ]

  open_capacity : (hm : Hashmap A) → hm.size < hm.capacity → hm.capacity == 0 ≡ false
  open_capacity hm h = ground arith

  -- Inserting an item that covers its key into a valid table with at least one chain, when memory
  -- is granted, succeeds and leaves a valid table in which the item's key finds the item and every
  -- other key what it found before.
  pub insert-find :
      (hm : Hashmap A) (item : A) (bytes : ℕ)
      → IsValid keys hm
      → 0 < hm.capacity
      → hm.key_end ≤ bytes
      → (after : Hashmap A) × (Hashmap.insert keys true true hm item bytes ≡ done (true, after))
        × IsValid keys after
        × ((q : K)
            → Hashmap.find keys after q
              ≡ (if keys.same q (keys.key_of item) then some item else Hashmap.find keys hm q))
  unfolding Hashmap.insert
  insert-find hm item bytes v h b =
      let g = (Hashmap.grow keys true hm).1 in
      let (grown, valid, room, same) = grow-find hm v h in
      (
        (Hashmap.put_entry keys true g item).1,
        rw (le→ltb bytes hm.key_end b, grown, open_capacity g room) refl,
        put-IsValid keys g item valid room,
        λ q.
            put-find keys g item q valid (omega arith)
            ∙ ap (λ (x : Option A). if keys.same q (keys.key_of item) then some item else x)
                (same q),
      )
