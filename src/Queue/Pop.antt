-- ===== src/Queue/Pop.antt =====
-- The pops of mdv_queue.c: they take from the front what was pushed first.
use native.Mathlib.Nat.{mod-lt, mul-div_cancel}
use mdb_linux.Base.{
  ℕ, ◌+◌, ◌-◌, ◌*◌, ◌%◌, ◌≤◌, ◌<◌, ◌≡◌, refl, sym, ap, ap₂, ◌∙◌, ◌⊎◌, inl, inr, List, [], ◌∷◌, ◌++◌,
  some, none, length, ltb, leb, ◌==◌, arith, Bool-cases, eq→==, leb→le, ltb→lt, ltb→ge,
}
use mdb_linux.Queue.{Queue, size, read_block, read_round, pop_one, pop_multiple}
use mdb_linux.Queue.Contents.{
  IsValid, slot, mod-slot, tabulate, contents, tabulate-ext, tabulate-add, length-tabulate,
  read_block-tabulate, size-le, slot-cases, size-cases,
}

module _ {A : Type 0} (q : Queue A) (v : IsValid q) (n : ℕ) (held : n ≤ size q) where
  abbrev value_at : ℕ → A
  value_at k = q.data_at (slot q.capacity q.head k)

  -- Up to the end of the array the slots follow one another.
  straight :
      (m : ℕ) → q.head + m ≤ q.capacity + 1 → read_block q.data_at q.head m ≡ tabulate m value_at
  straight m h =
      read_block-tabulate q.data_at q.head m ∙ tabulate-ext m _ _ (λ k l. ap q.data_at (place k l))
    where
      place : (k : ℕ) → k < m → q.head + k ≡ slot q.capacity q.head k
      place k l = elim (slot-cases q.capacity q.head k) [
        | inl (p, i) ↦ omega arith
        | inr (p, i) ↦ absurd (omega arith)
      ]

  -- What the two `memcpy` of a pop read are the first items.
  read_round-tabulate : read_round q n ≡ tabulate n value_at
  unfolding read_round
  read_round-tabulate = elim (size-cases q) [
    | inl (f, s) ↦ rw f (straight n (omega (arith, v.tail_in)))
    | inr (f, s, t) ↦ elim (Bool-cases (leb n (q.capacity + 1 - q.head))) [
      | inl fits ↦ rw (f, fits) (straight n (omega (arith, v.head_in, leb→le _ _ fits)))
      | inr split ↦ rw (f, split) (round (ground arith))
    ]
  ]
    where
      first : ℕ
      first = q.capacity + 1 - q.head

      wrapped : (k : ℕ) → k < n - first → first < n → 0 + k ≡ slot q.capacity q.head (first + k)
      wrapped k l g = elim (slot-cases q.capacity q.head (first + k)) [
        | inl (p, i) ↦ absurd (omega (arith, v.head_in))
        | inr (p, i) ↦ omega (arith, v.head_in)
      ]

      round :
          first < n
          → read_block q.data_at q.head first ++ read_block q.data_at 0 (n - first)
            ≡ tabulate n value_at
      round g =
          ap₂ ◌++◌ (straight first (omega (arith, v.head_in))) (
            read_block-tabulate q.data_at 0 (n - first)
            ∙ tabulate-ext (n - first) _ _ (λ k l. ap q.data_at (wrapped k l g)))
          ∙ (sym (tabulate-add first (n - first) value_at)
              ∙ ap (λ t. tabulate t value_at) (omega arith))

  -- The queue without its first `n` items.
  abbrev advanced : Queue A
  advanced = record q { head = (q.head + n) % (q.capacity + 1) }

  advanced-IsValid : IsValid advanced
  advanced-IsValid = record {
    head_in = omega (arith, mod-lt (q.head + n) {m = q.capacity + 1} (omega arith));
    tail_in = v.tail_in;
    small = v.small;
  }

  size-advanced : size advanced ≡ size q - n
  unfolding size
  size-advanced =
      rw (mod-slot q.capacity q.head n v.head_in (omega (arith, size-le q v)))
        (ground (arith, v.tail_in, v.head_in, held))

  advance-slot :
      (k : ℕ)
      → k < size q - n
      → slot q.capacity ((q.head + n) % (q.capacity + 1)) k ≡ slot q.capacity q.head (n + k)
  advance-slot k l =
      rw (mod-slot q.capacity q.head n v.head_in (omega (arith, size-le q v)))
        (ground (arith, v.head_in, size-le q v))

  contents-advanced : contents q ≡ read_round q n ++ contents advanced
  contents-advanced =
      ap (λ t. tabulate t value_at) (omega (arith, held))
      ∙ (tabulate-add n (size q - n) value_at
          ∙ ap₂ ◌++◌ (sym read_round-tabulate) (
              sym (
                ap
                  (λ t.
                    tabulate t
                      (λ k. q.data_at (slot q.capacity ((q.head + n) % (q.capacity + 1)) k)))
                  size-advanced
                ∙ tabulate-ext (size q - n) _ _ (λ k l. ap q.data_at (advance-slot k l)))))

  length-read_round : length (read_round q n) ≡ n
  length-read_round = ap length read_round-tabulate ∙ length-tabulate n value_at

module _ {A : Type 0} (q : Queue A) (v : IsValid q) (p : 0 < q.item_size) where
  -- Popping `n` whole items of at least one byte each from a valid queue leaves a valid queue, and
  -- gives the first `n` and leaves the others, or, if there are fewer, gives none and leaves the
  -- queue as it was.
  pub pop_multiple_refines :
      (n : ℕ)
      → let (r, t) = pop_multiple q (n * q.item_size) in
        IsValid t
        × (((xs : List A) × (r ≡ some xs) × (length xs ≡ n) × (contents q ≡ xs ++ contents t))
            ⊎ ((size q < n) × (r ≡ none) × (t ≡ q)))
  unfolding pop_multiple
  pop_multiple_refines n =
      rw (mul-div_cancel n p, eq→== (n * q.item_size) (n * q.item_size) refl)
        (elim (Bool-cases (ltb (size q) n)) [
          | inl few ↦ rw few (v, inr (ltb→lt _ _ few, refl, refl))
          | inr held ↦
              let h = ltb→ge _ _ held in
              rw held (
                advanced-IsValid q v n h,
                inl (read_round q n, refl, length-read_round q v n h, contents-advanced q v n h),
              )
        ])

  -- Popping one item of at least one byte from a valid queue leaves a valid queue, and gives the
  -- first item and leaves the others, or fails on an empty queue and leaves it as it was.
  pub pop_one_refines :
      let (r, t) = pop_one q q.item_size in
      IsValid t
      × (((x : A) × (r ≡ some x) × (contents q ≡ x ∷ contents t))
          ⊎ ((size q ≡ 0) × (r ≡ none) × (t ≡ q)))
  unfolding pop_one
  pop_one_refines = rw (eq→== q.item_size q.item_size refl) (elim (Bool-cases (size q == 0)) [
    | inl none_left ↦ rw none_left (v, inr (ground arith, refl, refl))
    | inr held ↦
        let h : 1 ≤ size q = ground arith in
        rw held (
          advanced-IsValid q v 1 h,
          inl (q.data_at q.head, refl, contents-advanced q v 1 h ∙ one h),
        )
  ])
    where
      here : slot q.capacity q.head 0 ≡ q.head
      here = elim (slot-cases q.capacity q.head 0) [
        | inl (e, l) ↦ omega arith
        | inr (e, l) ↦ absurd (omega (arith, v.head_in))
      ]

      one :
          (h : 1 ≤ size q)
          → read_round q 1 ++ contents (advanced q v 1 h)
            ≡ q.data_at q.head ∷ contents (advanced q v 1 h)
      one h =
          ap (λ xs. xs ++ contents (advanced q v 1 h))
            (read_round-tabulate q v 1 h ∙ ap (λ i. q.data_at i ∷ []) here)
