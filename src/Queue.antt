-- ===== src/Queue.antt =====
-- mdv_platform/generic/mdv_queue.c: a ring buffer of `capacity + 1` slots, one of them always free.
-- The head and the tail are read and written by one thread here. `data` gives the item of each
-- slot. A difference of `size_t` wraps.
pub mod Contents
pub mod Refine
pub mod Pop
mod Tests
use mdb_linux.Base.{
  ℕ, zero, suc, ◌+◌, ◌-◌, ◌*◌, ◌/◌, ◌%◌, ◌^◌, Bool, true, false, not, ◌&&◌, List, [], ◌∷◌, ◌++◌,
  Option, none, some, length, take, drop, get_or, ltb, leb, ◌==◌, if◌then◌else◌,
}

pub record Queue (A : Type 0) : Type 0 where
  pub capacity : ℕ
  pub item_size : ℕ
  pub head : ℕ
  pub tail : ℕ
  pub data_at : ℕ → A

abbrev pub sub64 : ℕ → ℕ → ℕ
sub64 a b = (a + 2 ^ 64 - b) % 2 ^ 64

module _ {A : Type 0} where
  -- `mdv_queue_clear`, over an array of `slots` items.
  unfoldable pub clear : ℕ → ℕ → (ℕ → A) → Queue A
  clear slots item_size data_at = record {
    capacity = slots - 1;
    item_size = item_size;
    head = 0;
    tail = 0;
    data_at = data_at;
  }

  unfoldable pub size : Queue A → ℕ
  size q =
      let capacity = q.capacity + 1 in
      if leb q.head q.tail then q.tail - q.head else capacity + q.tail - q.head

  unfoldable pub free_space : Queue A → ℕ
  free_space q = sub64 q.capacity (size q)

  unfoldable pub is_empty : Queue A → Bool
  is_empty q = q.head == q.tail

  -- `memcpy` of items to slot `pos` and the slots after it, and from them.
  unfoldable pub write_block : (ℕ → A) → ℕ → List A → ℕ → A
  write_block f pos xs i =
      if leb pos i && ltb i (pos + length xs) then get_or xs (i - pos) (f i) else f i

  unfoldable pub read_block : (ℕ → A) → ℕ → ℕ → List A
  read_block f pos zero = []
  read_block f pos (suc n) = f pos ∷ read_block f (pos + 1) n

  -- `bytes` is the size that the caller passes; the result is 0 or 1.
  unfoldable pub push_one : Queue A → A → ℕ → Bool × Queue A
  unfolding size
  push_one q x bytes =
      let capacity = q.capacity + 1 in
      if not (bytes == q.item_size)
      then (false, q)
      else if sub64 q.capacity (size q) == 0
      then (false, q)
      else (
        true,
        record q {
          tail = (q.tail + 1) % capacity;
          data_at = write_block q.data_at q.tail (x ∷ []);
        },
      )

  -- The two `memcpy` of a block that may go round the end of the array.
  unfoldable pub write_round : Queue A → List A → ℕ → ℕ → A
  write_round q xs n =
      let capacity = q.capacity + 1 in
      if leb q.head q.tail
      then if leb n (capacity - q.tail)
        then write_block q.data_at q.tail xs
        else write_block (write_block q.data_at q.tail (take (capacity - q.tail) xs)) 0
            (drop (capacity - q.tail) xs)
      else write_block q.data_at q.tail xs

  unfoldable pub push_multiple : Queue A → List A → ℕ → Bool × Queue A
  unfolding size
  push_multiple q xs bytes =
      let capacity = q.capacity + 1 in
      let n = bytes / q.item_size in
      if not (bytes == n * q.item_size)
      then (false, q)
      else if ltb (sub64 q.capacity (size q)) n
      then (false, q)
      else (true, record q { tail = (q.tail + n) % capacity; data_at = write_round q xs n })

  unfoldable pub pop_one : Queue A → ℕ → Option A × Queue A
  unfolding size
  pop_one q bytes =
      let capacity = q.capacity + 1 in
      if not (bytes == q.item_size)
      then (none, q)
      else if size q == 0
      then (none, q)
      else (some (q.data_at q.head), record q { head = (q.head + 1) % capacity })

  unfoldable pub read_round : Queue A → ℕ → List A
  read_round q n =
      let capacity = q.capacity + 1 in
      if leb q.head q.tail
      then read_block q.data_at q.head n
      else if leb n (capacity - q.head)
      then read_block q.data_at q.head n
      else read_block q.data_at q.head (capacity - q.head)
        ++ read_block q.data_at 0 (n - (capacity - q.head))

  unfoldable pub pop_multiple : Queue A → ℕ → Option (List A) × Queue A
  unfolding size
  pop_multiple q bytes =
      let capacity = q.capacity + 1 in
      let n = bytes / q.item_size in
      if not (bytes == n * q.item_size)
      then (none, q)
      else if ltb (size q) n
      then (none, q)
      else (some (read_round q n), record q { head = (q.head + n) % capacity })
