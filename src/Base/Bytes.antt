-- ===== src/Base/Bytes.antt =====
-- Integers as little-endian bytes, the way memcpy of a native integer lays them out.
use Prim.Native.Nat.{ℕ, zero, suc, ◌+◌, ◌*◌, ◌/◌, ◌%◌, ◌^◌, ◌<◌}
use mathlib.Core.Path.{◌≡◌, refl, ap}
use mathlib.Core.List.{List, [], ◌∷◌}
use native.Mathlib.Omega.{arith}
use native.Mathlib.Nat.{pow-suc}
use mdb_linux.Base.Lists.{length}

-- The `w` low bytes of a number, the lowest first.
abbrev pub encode : ℕ → ℕ → List ℕ
encode zero n = []
encode (suc w) n = n % 256 ∷ encode w (n / 256)

abbrev pub decode : List ℕ → ℕ
decode [] = 0
decode (b ∷ bs) = b + 256 * decode bs

pub length-encode : (w n : ℕ) → length (encode w n) ≡ w
length-encode zero n = refl
length-encode (suc w) n = ap suc (length-encode w (n / 256))

pub decode-encode : (w n : ℕ) → n < 256 ^ w → decode (encode w n) ≡ n
decode-encode zero n h = omega arith
decode-encode (suc w) n h =
    omega (arith, pow-suc 256 w, decode-encode w (n / 256) (omega (arith, pow-suc 256 w)))
