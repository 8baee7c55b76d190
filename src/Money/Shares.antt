-- ===== src/Money/Shares.antt =====
-- Shares bought and sold at a pool's own price.
use refract_backend.Prelude.{subst, ◌<◌, ◌/◌, ok, ◌≡◌, ◌≤◌, ◌*◌, ◌+◌, ℕ, arith}
use refract_backend.Money.{divide, calculate_usdc_out, calculate_shares_out}
use native.Mathlib.Nat.{div-mul-le_self, le_of_mul-le-mul_right}

divide_ok : (n d q : ℕ) → divide n d ≡ ok q → (0 < d) × (q * d ≤ n)
divide_ok n d q h =
    let quotient : n / d ≡ q = ground arith in
    (ground arith, subst (λ (x : ℕ). x * d ≤ n) quotient (div-mul-le_self n d))

-- Shares that are bought for an amount and sold at once bring no more than the amount, and buying
-- does not lower what a share is worth.
pub shares_round_trip :
    (amount total_shares total_usdc shares usdc : ℕ)
    → calculate_shares_out amount total_shares total_usdc ≡ ok shares
    → calculate_usdc_out shares (total_usdc + amount) (total_shares + shares) ≡ ok usdc
    → (usdc ≤ amount)
      × (total_usdc * (total_shares + shares) ≤ (total_usdc + amount) * total_shares)
unfolding calculate_shares_out calculate_usdc_out
shares_round_trip amount ts tu shares usdc h k =
    let (some_usdc, bought) = divide_ok (amount * ts) tu shares h in
    let (some_shares, sold) = divide_ok (shares * (tu + amount)) (ts + shares) usdc k in
    let covered : usdc * (ts + shares) ≤ amount * (ts + shares) = grind arith in
    (le_of_mul-le-mul_right covered some_shares, grind arith)
