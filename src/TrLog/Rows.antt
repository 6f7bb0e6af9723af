-- ===== src/TrLog/Rows.antt =====
-- The log of mdv_core/storage/mdv_trlog.c as a list of operations with ascending identifiers.
use mdb_linux.Base.{
  zero, suc, take, ℕ, ◌+◌, ◌^◌, ◌≤◌, ◌<◌, ◌≡◌, refl, sym, ap, inl, inr, Bool, true, false, List, [],
  ◌∷◌, ◌++◌, ◌==◌, ltb, leb, if◌then◌else◌, Bool-cases, All, arith, ltb→lt, ltb→ge, lt→ltb, le→ltb,
  leb→le, le→leb, lt→leb,
}
use mdb_linux.Storage.Rows.{insert, from_key, last_row}
use mdb_linux.TrLog
use mdb_linux.TrLog.{Bytes, Data, nat_keys, same_to}

abbrev pub AscendingFrom : ℕ → List Data → Type 0
AscendingFrom b [] = Unit
AscendingFrom b (p ∷ rows) = (b ≤ p.0) × AscendingFrom (p.0 + 1) rows

-- Every identifier is below the bound.
abbrev pub Under : ℕ → List Data → Type 0
Under n rows = All (λ p. p.0 < n) rows

-- One more than the last identifier.
abbrev pub end_of : List Data → ℕ
end_of [] = 0
end_of (p ∷ []) = p.0 + 1
end_of (p ∷ q ∷ rows) = end_of (q ∷ rows)

pub AscendingFrom-weaken :
    (a b : ℕ) (rows : List Data) → a ≤ b → AscendingFrom b rows → AscendingFrom a rows
AscendingFrom-weaken a b [] l h = tt
AscendingFrom-weaken a b (p ∷ rows) l (h, r) = (omega arith, r)

not_same : (a b : ℕ) → b < a → a == b ≡ false
not_same a b h = ground arith

-- A new identifier behind all others goes to the end of the log.
pub insert-append :
    (k b : ℕ) (v : Bytes) (rows : List Data)
    → AscendingFrom b rows
    → Under k rows
    → insert nat_keys k v rows ≡ rows ++ (k, v) ∷ []
insert-append k b v [] h u = refl
insert-append k b v (p ∷ rows) (h, r) (l, u) =
    rw (not_same k p.0 l, le→ltb k p.0 (omega arith))
      (ap (◌∷◌ p) (insert-append k (p.0 + 1) v rows r u))

pub insert-AscendingFrom :
    (k b : ℕ) (v : Bytes) (rows : List Data)
    → b ≤ k
    → AscendingFrom b rows
    → AscendingFrom b (insert nat_keys k v rows)
insert-AscendingFrom k b v [] l h = (l, tt)
insert-AscendingFrom k b v (p ∷ rows) l (h, r) = elim (Bool-cases (k == p.0)) [
  | inl e ↦
      let s = same_to k p.0 e in
      rw (e) (l, AscendingFrom-weaken (k + 1) (p.0 + 1) rows (omega arith) r)
  | inr n ↦ elim (Bool-cases (ltb k p.0)) [
    | inl e ↦ rw (n, e) (l, (omega (arith, ltb→lt k p.0 e), r))
    | inr g ↦
        rw (n, g) (h, insert-AscendingFrom k (p.0 + 1) v rows (ground (arith, n, ltb→ge k p.0 g)) r)
  ]
]

pub insert-Under :
    (k n : ℕ) (v : Bytes) (rows : List Data)
    → k < n
    → Under n rows
    → Under n (insert nat_keys k v rows)
insert-Under k n v [] l u = (l, tt)
insert-Under k n v (p ∷ rows) l (h, u) = elim (Bool-cases (k == p.0)) [
  | inl e ↦ rw (e) (l, u)
  | inr d ↦ elim (Bool-cases (ltb k p.0)) [
    | inl e ↦ rw (d, e) (l, (h, u))
    | inr g ↦ rw (d, g) (h, insert-Under k n v rows l u)
  ]
]

pub Under-weaken : (m n : ℕ) (rows : List Data) → m ≤ n → Under m rows → Under n rows
Under-weaken m n [] l u = tt
Under-weaken m n (p ∷ rows) l (h, u) = (omega arith, Under-weaken m n rows l u)

-- The end of an ascending log bounds all of it, and no lower bound does.
pub Under-end_of : (b : ℕ) (rows : List Data) → AscendingFrom b rows → Under (end_of rows) rows
Under-end_of b [] h = tt
Under-end_of b (p ∷ []) h = (omega arith, tt)
Under-end_of b (p ∷ q ∷ rows) (h, (g, r)) =
    let u = Under-end_of (p.0 + 1) (q ∷ rows) (g, r) in (omega (arith, u.0), u)

pub end_of-le : (n : ℕ) (rows : List Data) → Under n rows → end_of rows ≤ n
end_of-le n [] u = omega arith
end_of-le n (p ∷ []) (h, u) = omega arith
end_of-le n (p ∷ q ∷ rows) (h, u) = end_of-le n (q ∷ rows) u

pub next_of-last_row :
    (rows : List Data) → end_of rows < 2 ^ 64 → TrLog.next_of (last_row rows) ≡ end_of rows
next_of-last_row [] l = refl
next_of-last_row (p ∷ []) l = omega arith
next_of-last_row (p ∷ q ∷ rows) l = next_of-last_row (q ∷ rows) l

pub take-AscendingFrom :
    (n b : ℕ) (rows : List Data) → AscendingFrom b rows → AscendingFrom b (take n rows)
take-AscendingFrom zero b rows h = tt
take-AscendingFrom (suc n) b [] h = tt
take-AscendingFrom (suc n) b (p ∷ rows) (h, r) = (h, take-AscendingFrom n (p.0 + 1) rows r)

pub take-Under : (n m : ℕ) (rows : List Data) → Under m rows → Under m (take n rows)
take-Under zero m rows h = tt
take-Under (suc n) m [] h = tt
take-Under (suc n) m (p ∷ rows) (h, r) = (h, take-Under n m rows r)

pub from_key-AscendingFrom :
    (k b : ℕ) (rows : List Data) → AscendingFrom b rows → AscendingFrom k (from_key nat_keys k rows)
from_key-AscendingFrom k b [] h = tt
from_key-AscendingFrom k b (p ∷ rows) (h, r) = elim (Bool-cases (ltb p.0 k)) [
  | inl l ↦ rw (l) (from_key-AscendingFrom k (p.0 + 1) rows r)
  | inr g ↦ rw (g) (ltb→ge p.0 k g, r)
]

pub from_key-Under :
    (k n : ℕ) (rows : List Data) → Under n rows → Under n (from_key nat_keys k rows)
from_key-Under k n [] u = tt
from_key-Under k n (p ∷ rows) (h, u) = elim (Bool-cases (ltb p.0 k)) [
  | inl l ↦ rw (l) (from_key-Under k n rows u)
  | inr g ↦ rw (g) (h, u)
]

-- The operations with identifiers from `from` up to and not with `to`.
abbrev pub between : ℕ → ℕ → List Data → List Data
between from to [] = []
between from to (p ∷ rows) =
    let rest = between from to rows in
    if leb from p.0 then (if ltb p.0 to then p ∷ rest else rest) else rest

between-none :
    (from to b : ℕ) (rows : List Data) → AscendingFrom b rows → to ≤ b → between from to rows ≡ []
between-none from to b [] h l = refl
between-none from to b (p ∷ rows) (h, r) l = elim (Bool-cases (leb from p.0)) [
  | inl y ↦
      rw (y, le→ltb p.0 to (omega arith)) (between-none from to (p.0 + 1) rows r (omega arith))
  | inr n ↦ rw (n) (between-none from to (p.0 + 1) rows r (omega arith))
]

abbrev pub all_granted : ℕ → Bool
all_granted n = true

range_loop-between :
    (from to n b : ℕ) (rows : List Data)
    → AscendingFrom b rows
    → from ≤ b
    → TrLog.range_loop all_granted to n rows ≡ between from to rows
unfolding TrLog.range_loop
range_loop-between from to n b [] h l = refl
range_loop-between from to n b (p ∷ rows) (h, r) l = elim (Bool-cases (leb to p.0)) [
  | inl y ↦
      let g = leb→le to p.0 y in
      rw (y, le→leb from p.0 (omega arith), le→ltb p.0 to g)
        (sym (between-none from to (p.0 + 1) rows r (omega arith)))
  | inr f ↦
      rw (f, le→leb from p.0 (omega arith), lt→ltb p.0 to (ground (arith, f)))
        (ap (◌∷◌ p) (range_loop-between from to (n + 1) (p.0 + 1) rows r (omega arith)))
]

pub range_loop-from_key :
    (from to b : ℕ) (rows : List Data)
    → AscendingFrom b rows
    → TrLog.range_loop all_granted to 0 (from_key nat_keys from rows) ≡ between from to rows
range_loop-from_key from to b [] h = range_loop-between from to 0 from [] tt (omega arith)
range_loop-from_key from to b (p ∷ rows) (h, r) = elim (Bool-cases (ltb p.0 from)) [
  | inl l ↦
      rw (l, lt→leb from p.0 (ltb→lt p.0 from l)) (range_loop-from_key from to (p.0 + 1) rows r)
  | inr g ↦
      rw (g) (range_loop-between from to 0 from (p ∷ rows) (ltb→ge p.0 from g, r) (omega arith))
]

Under-insert :
    (k n : ℕ) (v : Bytes) (rows : List Data) → Under n (insert nat_keys k v rows) → Under n rows
Under-insert k n v [] u = tt
Under-insert k n v (p ∷ rows) u = elim (Bool-cases (k == p.0)) [
  | inl e ↦
      let s = same_to k p.0 e in
      let h : Under n ((k, v) ∷ rows) = rw (e) at u in (omega (arith, s, h.0), h.1)
  | inr d ↦ elim (Bool-cases (ltb k p.0)) [
    | inl e ↦ let h : Under n ((k, v) ∷ p ∷ rows) = rw (d, e) at u in h.1
    | inr g ↦
        let h : Under n (p ∷ insert nat_keys k v rows) = rw (d, g) at u in
        (h.0, Under-insert k n v rows h.1)
  ]
]

-- A write never lowers the end of the log.
pub end_of-insert :
    (k b : ℕ) (v : Bytes) (rows : List Data)
    → b ≤ k
    → AscendingFrom b rows
    → end_of rows ≤ end_of (insert nat_keys k v rows)
end_of-insert k b v rows l h =
    let new = insert nat_keys k v rows in
    end_of-le (end_of new) rows (
      Under-insert k (end_of new) v rows (Under-end_of b new (insert-AscendingFrom k b v rows l h)))
