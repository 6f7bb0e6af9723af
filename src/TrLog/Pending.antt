-- ===== src/TrLog/Pending.antt =====
-- The operations of mdv_core/storage/mdv_trlog.c that wait to be applied, as the loops go through
-- them.
use mdb_linux.Base.{
  ℕ, zero, suc, ◌+◌, ◌%◌, ◌^◌, ◌≤◌, ◌<◌, ◌≡◌, refl, ap, ◌∙◌, inl, inr, Bool, true, List, [], ◌∷◌,
  Bool-cases, arith, ltb, ltb→lt, lt→ltb, le→ltb, le→leb, lt→leb, length, take, drop, ◌≢◌, ◌++◌,
}
use mdb_linux.Storage.Rows.{from_key}
use mdb_linux.TrLog
use mdb_linux.TrLog.{Bytes, Data, nat_keys}
use mdb_linux.TrLog.Rows.{AscendingFrom, Under, end_of, all_granted}

-- The position behind some operations.
abbrev pub pos_after : ℕ → List Data → ℕ
pos_after pos [] = pos
pos_after pos (p ∷ ops) = pos_after (p.0 + 1) ops

-- What a callback makes of its argument when it takes all the operations.
abbrev pub fold_ops : {A : Type 0} → (A → Bytes → Bool × A) → List Data → A → A
fold_ops fn [] arg = arg
fold_ops fn (p ∷ ops) arg = fold_ops fn ops (fn arg p.1).1

pub read_loop-take :
    (size n m : ℕ) (rows : List Data)
    → size ≡ n + suc m
    → TrLog.read_loop all_granted size n rows ≡ take (suc m) rows
unfolding TrLog.read_loop
read_loop-take size n m [] e = refl
read_loop-take size n zero (p ∷ rows) e = rw (le→leb size (n + 1) (omega (arith, e)))
read_loop-take size n (suc m) (p ∷ rows) e =
    rw (lt→leb size (n + 1) (omega (arith, e)))
      (ap (◌∷◌ p) (read_loop-take size (n + 1) m rows (omega (arith, e))))

pub pos_after-le : (pos : ℕ) (ops : List Data) → AscendingFrom pos ops → pos ≤ pos_after pos ops
pos_after-le pos [] h = omega arith
pos_after-le pos (p ∷ ops) (h, r) = omega (arith, pos_after-le (p.0 + 1) ops r)

pub take-AscendingFrom :
    (j b : ℕ) (rows : List Data) → AscendingFrom b rows → AscendingFrom b (take j rows)
take-AscendingFrom zero b rows h = tt
take-AscendingFrom (suc j) b [] h = tt
take-AscendingFrom (suc j) b (p ∷ rows) (h, r) = (h, take-AscendingFrom j (p.0 + 1) rows r)

-- A start that is nowhere behind the first operation leaves all of them.
pub from_key-all :
    (pos : ℕ) (rows : List Data) → AscendingFrom pos rows → from_key nat_keys pos rows ≡ rows
from_key-all pos [] h = refl
from_key-all pos (p ∷ rows) (h, r) = rw (le→ltb p.0 pos h)

-- Behind the first j operations, the others are left.
pub from_key-drop :
    (j pos : ℕ) (rows : List Data)
    → AscendingFrom pos rows
    → from_key nat_keys (pos_after pos (take j rows)) rows ≡ drop j rows
from_key-drop zero pos rows h = from_key-all pos rows h
from_key-drop (suc j) pos [] h = refl
from_key-drop (suc j) pos (p ∷ rows) (h, r) =
    let l = pos_after-le (p.0 + 1) (take j rows) (take-AscendingFrom j (p.0 + 1) rows r) in
    rw (lt→ltb p.0 (pos_after (p.0 + 1) (take j rows)) (omega (arith, l)))
      (from_key-drop j (p.0 + 1) rows r)

-- A later start in what an earlier one left.
pub from_key-twice :
    (low high : ℕ) (rows : List Data)
    → low ≤ high
    → from_key nat_keys high (from_key nat_keys low rows) ≡ from_key nat_keys high rows
from_key-twice low high [] l = refl
from_key-twice low high (p ∷ rows) l = elim (Bool-cases (ltb p.0 low)) [
  | inl y ↦
      rw (y, lt→ltb p.0 high (omega (arith, ltb→lt p.0 low y))) (from_key-twice low high rows l)
  | inr n ↦ rw (n)
]

not_nil : (p : Data) (rows : List Data) → p ∷ rows ≢ []
not_nil p rows h = omega (arith, ap length h)

pub from_key-none :
    (pos n : ℕ) (rows : List Data) → Under n rows → n ≤ pos → from_key nat_keys pos rows ≡ []
from_key-none pos n [] u l = refl
from_key-none pos n (p ∷ rows) (h, u) l =
    rw (lt→ltb p.0 pos (omega arith)) (from_key-none pos n rows u l)

pub pos_after-none : (pos : ℕ) (ops : List Data) → length ops ≡ 0 → pos_after pos ops ≡ pos
pos_after-none pos [] h = refl
pos_after-none pos (p ∷ ops) h = absurd (omega (arith, h))

pub pos_after-Under : (pos n : ℕ) (ops : List Data) → Under n ops → pos ≤ n → pos_after pos ops ≤ n
pos_after-Under pos n [] u l = l
pos_after-Under pos n (p ∷ ops) (h, u) l = pos_after-Under (p.0 + 1) n ops u (omega arith)

pub take-Under : (j n : ℕ) (rows : List Data) → Under n rows → Under n (take j rows)
take-Under zero n rows u = tt
take-Under (suc j) n [] u = tt
take-Under (suc j) n (p ∷ rows) (h, u) = (h, take-Under j n rows u)

pub fold_ops-append :
    {A : Type 0} (fn : A → Bytes → Bool × A) (a b : List Data) (arg : A)
    → fold_ops fn (a ++ b) arg ≡ fold_ops fn b (fold_ops fn a arg)
fold_ops-append fn [] b arg = refl
fold_ops-append fn (p ∷ a) b arg = fold_ops-append fn a b (fn arg p.1).1

-- When nothing is left, the start is behind the end.
pub end_of-from_key :
    (pos b : ℕ) (rows : List Data)
    → AscendingFrom b rows
    → from_key nat_keys pos rows ≡ []
    → end_of rows ≤ pos
end_of-from_key pos b [] h e = omega arith
end_of-from_key pos b (p ∷ []) h e = elim (Bool-cases (ltb p.0 pos)) [
  | inl y ↦ omega (arith, ltb→lt p.0 pos y)
  | inr n ↦ absurd (not_nil p [] (rw (n) at e))
]
end_of-from_key pos b (p ∷ q ∷ rows) (h, r) e = elim (Bool-cases (ltb p.0 pos)) [
  | inl y ↦ end_of-from_key pos (p.0 + 1) (q ∷ rows) r (rw (y) at e)
  | inr n ↦ absurd (not_nil p (q ∷ rows) (rw (n) at e))
]

module _ {A : Type 0} (fn : A → Bytes → Bool × A) where
  abbrev pub Accepts : Type 0
  Accepts = (arg : A) (op : Bytes) → (fn arg op).0 ≡ true

  pub apply_loop-fold :
      (ops : List Data) (n pos m : ℕ) (arg : A)
      → Accepts
      → Under m ops
      → m < 2 ^ 64
      → TrLog.apply_loop fn ops (n, (pos, arg))
        ≡ (n + length ops, (pos_after pos ops, fold_ops fn ops arg))
  unfolding TrLog.apply_loop
  apply_loop-fold [] n pos m arg a u b = ap (λ k. (k, (pos, arg))) (omega arith)
  apply_loop-fold (p ∷ ops) n pos m arg a (g, u) b =
      let next : (p.0 + 1) % 2 ^ 64 ≡ p.0 + 1 = omega arith in
      let count : n + 1 + length ops ≡ n + suc (length ops) = omega arith in
      rw (a arg p.1, next)
        (apply_loop-fold ops (n + 1) (p.0 + 1) m (fn arg p.1).1 a u b
          ∙ ap (λ k. (k, (pos_after (p.0 + 1) ops, fold_ops fn ops (fn arg p.1).1))) count)
