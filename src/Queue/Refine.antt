-- ===== src/Queue/Refine.antt =====
-- The ring buffer of mdv_queue.c as a first-in first-out queue of bounded length.
use native.Mathlib.Nat.{mod-lt, mul-div_cancel, div_self}
use mdb_linux.Base.{
  ℕ, zero, suc, ◌+◌, ◌-◌, ◌*◌, ◌/◌, ◌%◌, ◌≤◌, ◌<◌, ◌≡◌, refl, ap, ap₂, ◌∙◌, ◌⊎◌, inl, inr, true,
  false, List, [], ◌∷◌, ◌++◌, length, take, drop, get_or, leb, ◌==◌, if◌then◌else◌, arith,
  Bool-cases, length-take, length-drop, le→ltb, lt→ltb, eq→==, le→leb, lt→leb, leb→le,
}
use mdb_linux.Queue.{Queue, size, write_block, write_round, sub64, push_one, push_multiple}
use mdb_linux.Queue.Contents.{
  IsValid, slot, mod-slot, tabulate, contents, tabulate-ext, tabulate-add, tabulate-get_or,
  get_or-take, get_or-drop, size-le, free_space-eq, slot-cases, size-cases,
}

module _ {A : Type 0} where
  get_or_default : (xs : List A) (k : ℕ) (d e : A) → k < length xs → get_or xs k d ≡ get_or xs k e
  get_or_default [] k d e h = absurd (omega arith)
  get_or_default (x ∷ xs) zero d e h = refl
  get_or_default (x ∷ xs) (suc k) d e h = get_or_default xs k d e (omega arith)

  block_hit :
      (f : ℕ → A) (pos : ℕ) (xs : List A) (i k : ℕ) (d : A)
      → i ≡ pos + k
      → k < length xs
      → write_block f pos xs i ≡ get_or xs k d
  unfolding write_block
  block_hit f pos xs i k d e h =
      let off : i - pos ≡ k = omega arith in
      rw (le→leb pos i (omega arith), lt→ltb i (pos + length xs) (omega arith), off)
        (get_or_default xs k (f i) d h)

  block_before :
      (f : ℕ → A) (pos : ℕ) (xs : List A) (i : ℕ) → i < pos → write_block f pos xs i ≡ f i
  unfolding write_block
  block_before f pos xs i h = rw (lt→leb pos i h)

  block_behind :
      (f : ℕ → A) (pos : ℕ) (xs : List A) (i : ℕ)
      → pos + length xs ≤ i
      → write_block f pos xs i ≡ f i
  unfolding write_block
  block_behind f pos xs i h = rw (le→leb pos i (omega arith), le→ltb i (pos + length xs) h)

  round_plain :
      (q : Queue A) (xs : List A) (n : ℕ)
      → ((leb q.head q.tail ≡ false) ⊎ (leb n (q.capacity + 1 - q.tail) ≡ true))
      → write_round q xs n ≡ write_block q.data_at q.tail xs
  unfolding write_round
  round_plain q xs n (inl e) = rw e
  round_plain q xs n (inr e) = elim (Bool-cases (leb q.head q.tail)) [
    | inl f ↦ rw (f, e)
    | inr f ↦ rw f
  ]

  round_split :
      (q : Queue A) (xs : List A) (n : ℕ)
      → leb q.head q.tail ≡ true
      → leb n (q.capacity + 1 - q.tail) ≡ false
      → write_round q xs n
        ≡ write_block
            (write_block q.data_at q.tail (take (q.capacity + 1 - q.tail) xs))
            0
            (drop (q.capacity + 1 - q.tail) xs)
  unfolding write_round
  round_split q xs n e f = rw (e, f)

module _ {A : Type 0} (q : Queue A) (v : IsValid q) (xs : List A)
    (room : size q + length xs ≤ q.capacity) where
  abbrev n : ℕ
  n = length xs

  abbrev first : ℕ
  first = q.capacity + 1 - q.tail

  old_plain :
      (i k : ℕ)
      → k < size q
      → i ≡ slot q.capacity q.head k
      → write_block q.data_at q.tail xs i ≡ q.data_at i
  old_plain i k h e = elim (size-cases q) [
    | inl (f, s) ↦ elim (slot-cases q.capacity q.head k) [
      | inl (p, l) ↦ block_before q.data_at q.tail xs i (omega arith)
      | inr (p, l) ↦ absurd (omega (arith, v.tail_in))
    ]
    | inr (f, s, t) ↦ elim (slot-cases q.capacity q.head k) [
      | inl (p, l) ↦ block_behind q.data_at q.tail xs i (omega (arith, v.head_in))
      | inr (p, l) ↦ block_before q.data_at q.tail xs i (omega (arith, v.head_in))
    ]
  ]

  -- A slot that holds an item is not written.
  old_kept :
      (k : ℕ)
      → k < size q
      → write_round q xs n (slot q.capacity q.head k) ≡ q.data_at (slot q.capacity q.head k)
  old_kept k h = elim (Bool-cases (leb n first)) [
    | inl fits ↦
        ap (λ f. f (slot q.capacity q.head k)) (round_plain q xs n (inr fits))
        ∙ old_plain _ k h refl
    | inr split ↦ elim (size-cases q) [
      | inr (f, s, t) ↦
          ap (λ g. g (slot q.capacity q.head k)) (round_plain q xs n (inl f)) ∙ old_plain _ k h refl
      | inl (f, s) ↦ elim (slot-cases q.capacity q.head k) [
        | inr (p, l) ↦ absurd (omega (arith, v.tail_in))
        | inl (p, l) ↦
            ap (λ g. g (slot q.capacity q.head k)) (round_split q xs n f split)
            ∙ (block_behind _ 0 (drop first xs) _ (omega (arith, length-drop first xs, v.head_in))
                ∙ block_before q.data_at q.tail (take first xs) _ (omega arith))
      ]
    ]
  ]

  -- The slots behind the tail take the new items in order.
  new_written :
      (k : ℕ) (d : A)
      → k < n
      → write_round q xs n (slot q.capacity q.head (size q + k)) ≡ get_or xs k d
  new_written k d h = elim (size-cases q) [
    | inr (f, s, t) ↦
        ap (λ g. g (slot q.capacity q.head (size q + k))) (round_plain q xs n (inl f))
        ∙ block_hit q.data_at q.tail xs _ k d (back f s t) h
    | inl (f, s) ↦ elim (Bool-cases (leb n first)) [
      | inl fits ↦
          ap (λ g. g (slot q.capacity q.head (size q + k))) (round_plain q xs n (inr fits))
          ∙ block_hit q.data_at q.tail xs _ k d (front s (leb→le _ _ fits)) h
      | inr split ↦
          ap (λ g. g (slot q.capacity q.head (size q + k))) (round_split q xs n f split)
          ∙ halves s (slot-cases q.capacity q.head (size q + k))
    ]
  ]
    where
      back :
          leb q.head q.tail ≡ false
          → q.tail < q.head
          → size q ≡ q.capacity + 1 + q.tail - q.head
          → slot q.capacity q.head (size q + k) ≡ q.tail + k
      back f s t = elim (slot-cases q.capacity q.head (size q + k)) [
        | inl (p, l) ↦ absurd (omega (arith, v.head_in))
        | inr (p, l) ↦ omega (arith, v.head_in)
      ]

      front :
          size q + q.head ≡ q.tail → n ≤ first → slot q.capacity q.head (size q + k) ≡ q.tail + k
      front s fits = elim (slot-cases q.capacity q.head (size q + k)) [
        | inl (p, l) ↦ omega arith
        | inr (p, l) ↦ absurd (omega (arith, v.tail_in))
      ]

      halves :
          size q + q.head ≡ q.tail
          → (((slot q.capacity q.head (size q + k) ≡ q.head + (size q + k))
                × (q.head + (size q + k) ≤ q.capacity))
              ⊎ ((slot q.capacity q.head (size q + k) ≡ q.head + (size q + k) - (q.capacity + 1))
                  × (q.capacity < q.head + (size q + k))))
          → write_block
              (write_block q.data_at q.tail (take first xs))
              0
              (drop first xs)
              (slot q.capacity q.head (size q + k))
            ≡ get_or xs k d
      halves s (inl (p, l)) =
          block_behind _ 0 (drop first xs) _ (omega (arith, length-drop first xs))
          ∙ (block_hit q.data_at q.tail (take first xs) _ k d (omega arith)
                (omega (arith, length-take first xs))
              ∙ get_or-take xs first k d (omega arith))
      halves s (inr (p, l)) =
          block_hit (write_block q.data_at q.tail (take first xs)) 0 (drop first xs) _ (k - first) d
            (omega (arith, v.tail_in)) (omega (arith, length-drop first xs, v.tail_in))
          ∙ (get_or-drop xs first (k - first) d
              ∙ ap (λ j. get_or xs j d) (omega (arith, v.tail_in)))

  -- The queue after the items were stored.
  abbrev stored : Queue A
  stored = record q { tail = (q.tail + n) % (q.capacity + 1); data_at = write_round q xs n }

  size-stored : size stored ≡ size q + n
  unfolding size
  size-stored =
      rw (mod-slot q.capacity q.tail n v.tail_in (omega arith))
        (ground (arith, v.tail_in, v.head_in, room))

  stored-IsValid : IsValid stored
  stored-IsValid = record {
    head_in = v.head_in;
    tail_in = omega (arith, mod-lt (q.tail + n) {m = q.capacity + 1} (omega arith));
    small = v.small;
  }

  contents-stored : contents stored ≡ contents q ++ xs
  contents-stored =
      ap (λ t. tabulate t (λ k. write_round q xs n (slot q.capacity q.head k))) size-stored
      ∙ (tabulate-add (size q) n (λ k. write_round q xs n (slot q.capacity q.head k))
          ∙ ap₂ ◌++◌ (tabulate-ext (size q) _ _ old_kept) (
              tabulate-ext n _ _ (λ k l. new_written k (q.data_at k) l)
              ∙ tabulate-get_or xs q.data_at))

-- An empty vector of bytes aside, `bytes` is the size of that many items.
abbrev pub HoldsBytes : {A : Type 0} → Queue A → List A → ℕ → Type 0
HoldsBytes q xs bytes = (0 < q.item_size) × (bytes ≡ length xs * q.item_size)

module _ {A : Type 0} (q : Queue A) (v : IsValid q) where
  -- Pushing whole items of at least one byte each into a valid queue leaves a valid queue, stores
  -- all the items behind the others if there is room for them, and else nothing. The result tells
  -- which.
  pub push_multiple_refines :
      (xs : List A) (bytes : ℕ)
      → HoldsBytes q xs bytes
      → let (done, r) = push_multiple q xs bytes in
        IsValid r
        × ((done ≡ leb (size q + length xs) q.capacity)
            × (contents r
                ≡ (if leb (size q + length xs) q.capacity then contents q ++ xs else contents q)))
  unfolding push_multiple
  push_multiple_refines xs bytes b =
      let count : bytes / q.item_size ≡ length xs =
        ap (λ m. m / q.item_size) b.1 ∙ mul-div_cancel (length xs) b.0 in
      let free = free_space-eq q v in
      let small = size-le q v in
      elim (Bool-cases (leb (size q + length xs) q.capacity)) [
        | inl fits ↦
            let room = leb→le _ _ fits in
            rw
              (
                count,
                eq→== bytes (length xs * q.item_size) b.1,
                free,
                le→ltb (q.capacity - size q) (length xs) (omega arith),
                fits,
              )
              (stored-IsValid q v xs room, (refl, contents-stored q v xs room))
        | inr full ↦
            rw
              (
                count,
                eq→== bytes (length xs * q.item_size) b.1,
                free,
                lt→ltb (q.capacity - size q) (length xs) (ground arith),
                full,
              )
              (v, (refl, refl))
      ]

  -- Pushing one item of at least one byte into a valid queue does as pushing an array of one.
  pub push_one-push_multiple :
      (x : A) → 0 < q.item_size → push_one q x q.item_size ≡ push_multiple q (x ∷ []) q.item_size
  unfolding push_one push_multiple
  push_one-push_multiple x p =
      rw
        (
          div_self p,
          eq→== q.item_size q.item_size refl,
          eq→== q.item_size (1 * q.item_size) (omega arith),
          round_plain q (x ∷ []) 1
              (inr (le→leb 1 (q.capacity + 1 - q.tail) (omega (arith, v.tail_in)))),
        )
        (elim (Bool-cases (sub64 q.capacity (size q) == 0)) [
          | inl full ↦ rw (full, lt→ltb (sub64 q.capacity (size q)) 1 (ground arith))
          | inr free ↦ rw (free, le→ltb (sub64 q.capacity (size q)) 1 (ground arith))
        ])
