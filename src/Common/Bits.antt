-- ===== src/Common/Bits.antt =====
-- Masks of resources: what `bit_and` and `bit_or` are at the lowest bit, and masks without a common bit.
use Prim.Native.Nat.{
  ℕ, zero, suc, ◌+◌, ◌*◌, ◌/◌, ◌%◌, ◌≤◌, min, max, bit_and, bit_or, digits, bit_and-bitwise,
  bit_or-bitwise,
}
use mathlib.Core.Path.{◌≡◌, refl}
use native.Mathlib.Omega.{arith}

-- The definition on fuel, at any operation on bits.
module _ (left : ℕ → ℕ) (op : ℕ → ℕ → ℕ) where
  enough_fuel : (n m a b : ℕ) → a ≤ n → a ≤ m → digits left op n a b ≡ digits left op m a b
  enough_fuel zero zero a b p q = refl
  enough_fuel zero (suc m) zero b p q = refl
  enough_fuel zero (suc m) (suc a) b p q = absurd (omega arith)
  enough_fuel (suc n) zero zero b p q = refl
  enough_fuel (suc n) zero (suc a) b p q = absurd (omega arith)
  enough_fuel (suc n) (suc m) zero b p q = refl
  enough_fuel (suc n) (suc m) (suc a) b p q =
      omega (arith, enough_fuel n m (suc a / 2) (b / 2) (omega arith) (omega arith))

zero-bit_and : (b : ℕ) → bit_and 0 b ≡ 0
zero-bit_and b = bit_and-bitwise 0 b

zero-bit_or : (b : ℕ) → bit_or 0 b ≡ b
zero-bit_or b = bit_or-bitwise 0 b

bit_and_low : (a b : ℕ) → bit_and a b ≡ bit_and (a / 2) (b / 2) * 2 + min (a % 2) (b % 2)
bit_and_low zero b = omega (arith, zero-bit_and b, zero-bit_and (b / 2))
bit_and_low (suc a) b = omega (
  arith,
  bit_and-bitwise (suc a) b,
  bit_and-bitwise (suc a / 2) (b / 2),
  enough_fuel (λ b. zero) min a (suc a / 2) (suc a / 2) (b / 2) (omega arith) (omega arith),
)

bit_or_low : (a b : ℕ) → bit_or a b ≡ bit_or (a / 2) (b / 2) * 2 + max (a % 2) (b % 2)
bit_or_low zero b = omega (arith, zero-bit_or b, zero-bit_or (b / 2))
bit_or_low (suc a) b = omega (
  arith,
  bit_or-bitwise (suc a) b,
  bit_or-bitwise (suc a / 2) (b / 2),
  enough_fuel (λ b. b) max a (suc a / 2) (suc a / 2) (b / 2) (omega arith) (omega arith),
)

halves :
    (a b : ℕ) → (bit_or a b / 2 ≡ bit_or (a / 2) (b / 2)) × (bit_or a b % 2 ≡ max (a % 2) (b % 2))
halves a b = let low = bit_or_low a b in (omega arith, omega arith)

and_or_fuel :
    (n a b c : ℕ) → a ≤ n → bit_and a (bit_or b c) ≡ 0 → (bit_and a b ≡ 0) × (bit_and a c ≡ 0)
and_or_fuel n zero b c h e = (zero-bit_and b, zero-bit_and c)
and_or_fuel zero (suc a) b c h e = absurd (omega arith)
and_or_fuel (suc n) (suc a) b c h e =
    let low = bit_and_low (suc a) (bit_or b c) in
    let (half, bit) = halves b c in
    let none : bit_and (suc a / 2) (bit_or b c / 2) ≡ 0 = omega arith in
    let rest = and_or_fuel n (suc a / 2) (b / 2) (c / 2) (omega arith) (rw half at none) in
    (omega (arith, bit_and_low (suc a) b, rest.0), omega (arith, bit_and_low (suc a) c, rest.1))

-- A mask that has no bit in common with a union has none in common with its parts.
pub bit_and-bit_or :
    (a b c : ℕ) → bit_and a (bit_or b c) ≡ 0 → (bit_and a b ≡ 0) × (bit_and a c ≡ 0)
bit_and-bit_or a b c e = and_or_fuel a a b c (omega arith) e

comm_fuel : (n a b : ℕ) → a + b ≤ n → bit_and a b ≡ bit_and b a
comm_fuel zero zero b h = let none : b ≡ 0 = omega arith in rw none refl
comm_fuel zero (suc a) b h = absurd (omega arith)
comm_fuel (suc n) zero zero h = refl
comm_fuel (suc n) zero (suc b) h =
    omega
      (arith, bit_and_low 0 (suc b), bit_and_low (suc b) 0, comm_fuel n 0 (suc b / 2) (omega arith))
comm_fuel (suc n) (suc a) b h = omega (
  arith,
  bit_and_low (suc a) b,
  bit_and_low b (suc a),
  comm_fuel n (suc a / 2) (b / 2) (omega arith),
)

pub bit_and_comm : (a b : ℕ) → bit_and a b ≡ bit_and b a
bit_and_comm a b = comm_fuel (a + b) a b (omega arith)
