-- ===== src/Base/Bits.antt =====
-- The digits of `|`, `&` and `~` at every position.
use Prim.Native.Nat.{
  ℕ, zero, suc, ◌+◌, ◌-◌, ◌*◌, ◌/◌, ◌%◌, ◌^◌, ◌≤◌, ◌<◌, min, max, bit_and, bit_or, digits,
  bit_and-bitwise, bit_or-bitwise,
}
use mathlib.Core.Path.{◌≡◌, refl, ap, ap₂, ◌∙◌, sym}
use mathlib.Core.Bool.{Bool, true, false, not, ◌&&◌, ◌||◌}
use native.Mathlib.Omega.{arith}
use native.Mathlib.Nat.{pow-suc, one-le-pow, div-div-eq-div-mul, mul_comm, le-div_iff_mul-le}
use mdb_linux.Base.Tests.{◌==◌}

-- Digit `p` of a number, `(w >> p) & 1`.
abbrev pub bit : ℕ → ℕ → Bool
bit w p = w / 2 ^ p % 2 == 1

pub bit-suc : (w p : ℕ) → bit w (suc p) ≡ bit (w / 2) p
bit-suc w p = ap (λ n. n % 2 == 1) halves
  where
    halves : w / 2 ^ suc p ≡ w / 2 / 2 ^ p
    halves =
        ap (λ n. w / n) (pow-suc 2 p ∙ mul_comm (2 ^ p) 2) ∙ sym (div-div-eq-div-mul w 2 (2 ^ p))

-- The fuel of the digit recursion does not matter, once it is enough.
digits_fuel :
    (z : ℕ → ℕ) (f : ℕ → ℕ → ℕ) (n m a b : ℕ) → a ≤ n → a ≤ m → digits z f n a b ≡ digits z f m a b
digits_fuel z f zero zero zero b h k = refl
digits_fuel z f zero (suc m) zero b h k = refl
digits_fuel z f (suc n) zero zero b h k = refl
digits_fuel z f (suc n) (suc m) zero b h k = refl
digits_fuel z f zero m (suc a) b h k = absurd (omega arith)
digits_fuel z f (suc n) zero (suc a) b h k = absurd (omega arith)
digits_fuel z f (suc n) (suc m) (suc a) b h k =
    ap (λ (t : ℕ). t * 2 + f (suc a % 2) (b % 2))
      (digits_fuel z f n m (suc a / 2) (b / 2) (omega arith) (omega arith))

zero-bit_or : (b : ℕ) → bit_or 0 b ≡ b
zero-bit_or b = bit_or-bitwise 0 b

zero-bit_and : (b : ℕ) → bit_and 0 b ≡ 0
zero-bit_and b = bit_and-bitwise 0 b

bit_or_last : (a b : ℕ) → bit_or a b ≡ bit_or (a / 2) (b / 2) * 2 + max (a % 2) (b % 2)
bit_or_last zero b = omega (arith, zero-bit_or b, zero-bit_or (b / 2))
bit_or_last (suc a) b = omega (
  arith,
  bit_or-bitwise (suc a) b,
  bit_or-bitwise (suc a / 2) (b / 2),
  digits_fuel (λ c. c) max a (suc a / 2) (suc a / 2) (b / 2) (omega arith) (omega arith),
)

bit_and_last : (a b : ℕ) → bit_and a b ≡ bit_and (a / 2) (b / 2) * 2 + min (a % 2) (b % 2)
bit_and_last zero b = omega (arith, zero-bit_and b, zero-bit_and (b / 2))
bit_and_last (suc a) b = omega (
  arith,
  bit_and-bitwise (suc a) b,
  bit_and-bitwise (suc a / 2) (b / 2),
  digits_fuel (λ c. zero) min a (suc a / 2) (suc a / 2) (b / 2) (omega arith) (omega arith),
)

pub bit-bit_or : (a b p : ℕ) → bit (bit_or a b) p ≡ bit a p || bit b p
bit-bit_or a b zero = ground (arith, bit_or_last a b)
bit-bit_or a b (suc p) =
    bit-suc (bit_or a b) p
    ∙ (ap (λ n. bit n p) (omega (arith, bit_or_last a b))
        ∙ (bit-bit_or (a / 2) (b / 2) p ∙ sym (ap₂ ◌||◌ (bit-suc a p) (bit-suc b p))))

pub bit-bit_and : (a b p : ℕ) → bit (bit_and a b) p ≡ bit a p && bit b p
bit-bit_and a b zero = ground (arith, bit_and_last a b)
bit-bit_and a b (suc p) =
    bit-suc (bit_and a b) p
    ∙ (ap (λ n. bit n p) (omega (arith, bit_and_last a b))
        ∙ (bit-bit_and (a / 2) (b / 2) p ∙ sym (ap₂ ◌&&◌ (bit-suc a p) (bit-suc b p))))

pub bit-zero : (p : ℕ) → bit 0 p ≡ false
bit-zero zero = refl
bit-zero (suc p) = bit-suc 0 p ∙ bit-zero p

-- `1u << o` has one digit.
pub bit-pow : (o p : ℕ) → bit (2 ^ o) p ≡ (o == p)
bit-pow zero zero = refl
bit-pow zero (suc p) = bit-suc 1 p ∙ (bit-zero p ∙ ground arith)
bit-pow (suc o) zero = ground (arith, pow-suc 2 o)
bit-pow (suc o) (suc p) =
    bit-suc (2 ^ suc o) p
    ∙ (ap (λ n. bit n p) (omega (arith, pow-suc 2 o)) ∙ (bit-pow o p ∙ ground arith))

-- All digits below the width are set in `2 ^ w - 1`.
pub bit-ones : (w p : ℕ) → p < w → bit (2 ^ w - 1) p ≡ true
bit-ones zero p h = absurd (omega arith)
bit-ones (suc w) zero h = ground (arith, pow-suc 2 w, one-le-pow w 2)
bit-ones (suc w) (suc p) h =
    bit-suc (2 ^ suc w - 1) p
    ∙ (ap (λ n. bit n p) (omega (arith, pow-suc 2 w, one-le-pow w 2)) ∙ bit-ones w p (omega arith))

double-pow-le : (o w : ℕ) → o < w → 2 ^ o * 2 ≤ 2 ^ w
double-pow-le o zero h = absurd (omega arith)
double-pow-le zero (suc w) h = omega (arith, pow-suc 2 w, one-le-pow w 2)
double-pow-le (suc o) (suc w) h =
    omega (arith, pow-suc 2 w, pow-suc 2 o, double-pow-le o w (omega arith))

-- `~(1u << o)` in a word of `w` digits.
pub bit-mask : (w o p : ℕ) → o < w → p < w → bit (2 ^ w - 1 - 2 ^ o) p ≡ not (o == p)
bit-mask zero o p h k = absurd (omega arith)
bit-mask (suc w) zero zero h k = ground (arith, pow-suc 2 w, one-le-pow w 2)
bit-mask (suc w) zero (suc p) h k =
    bit-suc (2 ^ suc w - 1 - 1) p
    ∙ (ap (λ n. bit n p) (omega (arith, pow-suc 2 w, one-le-pow w 2))
        ∙ (bit-ones w p (omega arith) ∙ ground arith))
bit-mask (suc w) (suc o) zero h k =
    ground (arith, pow-suc 2 w, pow-suc 2 o, double-pow-le o w (omega arith), one-le-pow o 2)
bit-mask (suc w) (suc o) (suc p) h k =
    bit-suc (2 ^ suc w - 1 - 2 ^ suc o) p
    ∙ (ap (λ n. bit n p) (omega (arith, pow-suc 2 w, pow-suc 2 o, one-le-pow w 2))
        ∙ (bit-mask w o p (omega arith) (omega arith) ∙ ground arith))

-- `|` keeps what either side holds.
or_bounds : (n a b : ℕ) → a ≤ n → b ≤ n → (a ≤ bit_or a b) × (b ≤ bit_or a b)
or_bounds zero a b h k = (omega arith, omega arith)
or_bounds (suc n) a b h k =
    let (p, q) = or_bounds n (a / 2) (b / 2) (omega arith) (omega arith) in
    (omega (arith, bit_or_last a b), omega (arith, bit_or_last a b))

pub bit_or-above : (a b : ℕ) → (a ≤ bit_or a b) × (b ≤ bit_or a b)
bit_or-above a b = or_bounds (a + b) a b (omega arith) (omega arith)

-- A number shifted right is not 0 where it reaches the place of the lowest digit kept.
pub shift-above : (w o : ℕ) → 2 ^ o ≤ w → (w / 2 ^ o == 0) ≡ false
shift-above w o h = ground (
  arith,
  (le-div_iff_mul-le {k = 2 ^ o} {x = 1} {y = w} (one-le-pow o 2 (omega arith))).1 (omega arith),
)

pub above-shift : (w o : ℕ) → (w / 2 ^ o == 0) ≡ false → 2 ^ o ≤ w
above-shift w o h = omega (
  arith,
  (le-div_iff_mul-le {k = 2 ^ o} {x = 1} {y = w} (one-le-pow o 2 (omega arith))).0 (ground arith),
)
