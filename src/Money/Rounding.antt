-- ===== src/Money/Rounding.antt =====
-- Amounts round up, in favour of the pool, and formatted amounts read back.
use refract_backend.Prelude.{
  inr, inl, Bool-cases, leb→le, leb, ◌∙◌, ap, ok, refl, ◌≡◌, ◌<◌, ◌≤◌, ◌%◌, ◌/◌, ◌*◌, ◌-◌, ◌+◌, suc,
  ℕ, arith,
}
use refract_backend.Money.{mul_div_round_up, div_round_up}
use refract_backend.Prelude.Int.{◌*ℤ◌, pos}
use native.Mathlib.Nat.{mul-le-mul_right, div-add-mod', mod-lt}

pos-*ℤ : (m n : ℕ) → pos m *ℤ pos n ≡ pos (m * n)
unfolding ◌*ℤ◌
pos-*ℤ m n = ground arith

-- The quotient rounded up is the least one that covers.
round_up_bounds :
    (n d : ℕ)
    → (q : ℕ) × (div_round_up (pos n) (pos (suc d)) ≡ ok (pos q))
      × (n ≤ q * suc d)
      × (q * suc d < n + suc d)
unfolding div_round_up
round_up_bounds n d =
    let above : (n + suc d - 1) / suc d * suc d + (n + suc d - 1) % suc d ≡ n + suc d - 1 =
      div-add-mod' (n + suc d - 1) (suc d) in
    let small : (n + suc d - 1) % suc d < suc d = mod-lt (n + suc d - 1) (omega arith) in
    ((n + suc d - 1) / suc d, refl, omega arith, omega arith)

cancel : (q r d : ℕ) → q * suc d < (r + 1) * suc d → q ≤ r
cancel q r d h = elim (Bool-cases (leb q r)) [
  | inl le ↦ leb→le q r le
  | inr more ↦
      let larger : r + 1 ≤ q = ground arith in
      absurd (omega (arith, mul-le-mul_right (suc d) larger))
]

-- A charge on an amount is the least whole number that covers the exact share; charging two parts
-- of the amount apart costs at least as much and at most one unit more.
pub mul_div_round_up-split :
    (a b numerator d : ℕ)
    → (q qa qb : ℕ) × (mul_div_round_up (pos (a + b)) (pos numerator) (pos (suc d)) ≡ ok (pos q))
      × (mul_div_round_up (pos a) (pos numerator) (pos (suc d)) ≡ ok (pos qa))
      × (mul_div_round_up (pos b) (pos numerator) (pos (suc d)) ≡ ok (pos qb))
      × ((a + b) * numerator ≤ q * suc d)
      × (q * suc d < (a + b) * numerator + suc d)
      × (q ≤ qa + qb)
      × (qa + qb ≤ q + 1)
unfolding mul_div_round_up
mul_div_round_up-split a b n d =
    let (q, total, low, high) = round_up_bounds ((a + b) * n) d in
    let (qa, first, low_a, high_a) = round_up_bounds (a * n) d in
    let (qb, second, low_b, high_b) = round_up_bounds (b * n) d in
    (
      q,
      qa,
      qb,
      ap (λ x. div_round_up x (pos (suc d))) (pos-*ℤ (a + b) n) ∙ total,
      ap (λ x. div_round_up x (pos (suc d))) (pos-*ℤ a n) ∙ first,
      ap (λ x. div_round_up x (pos (suc d))) (pos-*ℤ b n) ∙ second,
      low,
      high,
      cancel q (qa + qb) d (grind arith),
      cancel (qa + qb) (q + 1) d (grind arith),
    )
