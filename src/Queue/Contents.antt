-- ===== src/Queue/Contents.antt =====
-- The items of the ring buffer in order, and where they stand.
use native.Mathlib.Nat.{mod-eq_of_lt, mod-eq-sub-mod}
use mdb_linux.Base.{
  ℕ, zero, suc, ◌+◌, ◌-◌, ◌%◌, ◌^◌, ◌≤◌, ◌<◌, ◌≡◌, refl, ap, ap₂, ◌∙◌, ◌⊎◌, inl, inr, true, false,
  List, [], ◌∷◌, ◌++◌, length, take, drop, get_or, leb, if◌then◌else◌, arith, Bool-cases,
}
use mdb_linux.Queue.{Queue, size, read_block, sub64}

-- A head and a tail inside the array, whose length is a `size_t`.
pub record IsValid {A : Type 0} (q : Queue A) : Type 0 where
  pub head_in : q.head ≤ q.capacity
  pub tail_in : q.tail ≤ q.capacity
  pub small : q.capacity < 2 ^ 63

-- The slot `k` places after `from`, going round the end of the array.
abbrev pub slot : ℕ → ℕ → ℕ → ℕ
slot capacity from k = if leb (from + k) capacity then from + k else from + k - (capacity + 1)

-- `% (capacity + 1)` of a sum that goes round at most once.
pub mod-slot :
    (capacity from k : ℕ)
    → from ≤ capacity
    → k ≤ capacity + 1
    → (from + k) % (capacity + 1) ≡ slot capacity from k
mod-slot capacity from k h l = elim (Bool-cases (leb (from + k) capacity)) [
  | inl e ↦ rw e (mod-eq_of_lt (ground arith))
  | inr e ↦ rw e (mod-eq-sub-mod (ground arith) ∙ mod-eq_of_lt (omega arith))
]

-- The list of the values at 0, …, n - 1.
abbrev pub tabulate : {A : Type 0} → ℕ → (ℕ → A) → List A
tabulate zero f = []
tabulate (suc n) f = f 0 ∷ tabulate n (λ k. f (suc k))

-- What the queue holds, the oldest first.
abbrev pub contents : {A : Type 0} → Queue A → List A
contents q = tabulate (size q) (λ k. q.data_at (slot q.capacity q.head k))

pub tabulate-ext :
    {A : Type 0} (n : ℕ) (f g : ℕ → A) → ((k : ℕ) → k < n → f k ≡ g k) → tabulate n f ≡ tabulate n g
tabulate-ext zero f g h = refl
tabulate-ext (suc n) f g h =
    ap₂ ◌∷◌ (h 0 (omega arith)) (tabulate-ext n _ _ (λ k l. h (suc k) (omega arith)))

pub tabulate-add :
    {A : Type 0} (n m : ℕ) (f : ℕ → A)
    → tabulate (n + m) f ≡ tabulate n f ++ tabulate m (λ k. f (n + k))
tabulate-add zero m f =
    ap (λ t. tabulate t f) (omega arith) ∙ tabulate-ext m _ _ (λ k l. ap f (omega arith))
tabulate-add (suc n) m f =
    ap (λ t. tabulate t f) (suc-add n m)
    ∙ ap (◌∷◌ (f 0)) (
        tabulate-add n m (λ k. f (suc k))
        ∙ ap (◌++◌ (tabulate n (λ k. f (suc k)))) (tabulate-ext m _ _ (λ k l. ap f (omega arith))))
  where
    suc-add : (n m : ℕ) → suc n + m ≡ suc (n + m)
    suc-add n m = omega arith

pub length-tabulate : {A : Type 0} (n : ℕ) (f : ℕ → A) → length (tabulate n f) ≡ n
length-tabulate zero f = refl
length-tabulate (suc n) f = ap suc (length-tabulate n (λ k. f (suc k)))

pub tabulate-get_or :
    {A : Type 0} (xs : List A) (d : ℕ → A) → tabulate (length xs) (λ k. get_or xs k (d k)) ≡ xs
tabulate-get_or [] d = refl
tabulate-get_or (x ∷ xs) d = ap (◌∷◌ x) (tabulate-get_or xs (λ k. d (suc k)))

pub read_block-tabulate :
    {A : Type 0} (f : ℕ → A) (pos n : ℕ) → read_block f pos n ≡ tabulate n (λ k. f (pos + k))
unfolding read_block
read_block-tabulate f pos zero = refl
read_block-tabulate f pos (suc n) =
    ap₂ ◌∷◌ (ap f (omega arith))
      (read_block-tabulate f (pos + 1) n ∙ tabulate-ext n _ _ (λ k l. ap f (omega arith)))

pub get_or-take :
    {A : Type 0} (xs : List A) (n k : ℕ) (d : A) → k < n → get_or (take n xs) k d ≡ get_or xs k d
get_or-take [] zero k d h = absurd (omega arith)
get_or-take [] (suc n) k d h = refl
get_or-take (x ∷ xs) zero k d h = absurd (omega arith)
get_or-take (x ∷ xs) (suc n) zero d h = refl
get_or-take (x ∷ xs) (suc n) (suc k) d h = get_or-take xs n k d (omega arith)

pub get_or-drop :
    {A : Type 0} (xs : List A) (n k : ℕ) (d : A) → get_or (drop n xs) k d ≡ get_or xs (n + k) d
get_or-drop xs zero k d = ap (λ j. get_or xs j d) (omega arith)
get_or-drop [] (suc n) k d = refl
get_or-drop (x ∷ xs) (suc n) k d =
    get_or-drop xs n k d ∙ ap (λ j. get_or (x ∷ xs) j d) (suc-add n k)
  where
    suc-add : (n k : ℕ) → suc (n + k) ≡ suc n + k
    suc-add n k = omega arith

-- No wrap in the sizes of a valid queue.
pub size-le : {A : Type 0} (q : Queue A) → IsValid q → size q ≤ q.capacity
unfolding size
size-le q v = ground arith

pub free_space-eq :
    {A : Type 0} (q : Queue A) → IsValid q → sub64 q.capacity (size q) ≡ q.capacity - size q
free_space-eq q v = omega (arith, size-le q v, v.small)

-- The tail is the slot behind the last item.
pub tail-slot : {A : Type 0} (q : Queue A) → IsValid q → q.tail ≡ slot q.capacity q.head (size q)
unfolding size
tail-slot q v = ground arith

-- The two ways a slot is found.
pub slot-cases :
    (capacity from k : ℕ)
    → ((slot capacity from k ≡ from + k) × (from + k ≤ capacity))
      ⊎ ((slot capacity from k ≡ from + k - (capacity + 1)) × (capacity < from + k))
slot-cases capacity from k = elim (Bool-cases (leb (from + k) capacity)) [
  | inl e ↦ inl (rw e, ground arith)
  | inr e ↦ inr (rw e, ground arith)
]

-- The two shapes of a valid queue.
pub size-cases :
    {A : Type 0} (q : Queue A)
    → ((leb q.head q.tail ≡ true) × (size q + q.head ≡ q.tail))
      ⊎ ((leb q.head q.tail ≡ false)
          × (q.tail < q.head)
          × (size q ≡ q.capacity + 1 + q.tail - q.head))
unfolding size
size-cases q = elim (Bool-cases (leb q.head q.tail)) [
  | inl e ↦ inl (e, ground arith)
  | inr e ↦ inr (e, ground arith, ground arith)
]
