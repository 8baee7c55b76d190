-- ===== src/Prelude/Bits.antt =====
-- `|` of a field above and bits below it, as arithmetic.
use Prim.Native.Nat.{
  ℕ, zero, suc, ◌+◌, ◌*◌, ◌/◌, ◌^◌, ◌≤◌, ◌<◌, max, bit_or, digits, bit_or-bitwise,
}
use mathlib.Core.Path.{◌≡◌, refl, ap, ◌∙◌}
use native.Mathlib.Omega.{arith}
use native.Mathlib.Nat.{pow-zero, pow-suc}

-- With fuel that the field's own size bounds: no digit of the sum carries.
no_carry :
    (fuel a k q r : ℕ)
    → a ≤ fuel
    → a ≡ q * 2 ^ k
    → r < 2 ^ k
    → digits (λ low. low) max fuel a r ≡ a + r
no_carry zero a k q r le field fits = omega arith
no_carry (suc fuel) zero k q r le field fits = omega arith
no_carry (suc fuel) (suc a) zero q r le field fits =
    let none_below : r ≡ 0 = omega (arith, pow-zero 2) in
    omega (
      arith,
      no_carry fuel (suc a / 2) 0 (suc a / 2) (r / 2) (omega arith) (grind (arith, pow-zero 2))
          (omega (arith, pow-zero 2)),
    )
no_carry (suc fuel) (suc a) (suc k) q r le field fits =
    let even : suc a ≡ 2 * (q * 2 ^ k) =
      omega (arith, ap (λ (power : ℕ). q * power) (pow-suc 2 k)) in
    omega (
      arith,
      no_carry fuel (suc a / 2) k q (r / 2) (omega arith) (omega arith)
          (omega (arith, pow-suc 2 k)),
    )

-- A number shifted above `k` bits, with `k` bits below it.
pub bit_or_above : (k q r : ℕ) → r < 2 ^ k → bit_or (q * 2 ^ k) r ≡ q * 2 ^ k + r
bit_or_above k q r fits =
    bit_or-bitwise (q * 2 ^ k) r ∙ no_carry (q * 2 ^ k) (q * 2 ^ k) k q r (omega arith) refl fits
