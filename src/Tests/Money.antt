-- ===== src/Tests/Money.antt =====
-- src/common/fixed-point.ts and src/pool/share-price.math.ts at concrete inputs.
use refract_backend.Prelude.{◌∷◌, [], refl, ◌≡◌, ◌≤◌, ◌*◌, ◌+◌}
use refract_backend.Money.Shares.{shares_round_trip}
use refract_backend.Money.{format_percent, calculate_usdc_out, calculate_shares_out}
use refract_backend.Prelude.Int.{negsuc}
use refract_backend.Prelude.Radix.{digits_of}

shares_round_trip_example : (99 ≤ 101) × (1000 * (333 + 33) ≤ (1000 + 101) * 333)
unfolding calculate_shares_out calculate_usdc_out
shares_round_trip_example = shares_round_trip 101 333 1000 33 99 refl refl

-- A rate of -0.015 is written "-1.-500".
negative_percent : format_percent (negsuc 149999) 4 ≡ 45 ∷ 49 ∷ 46 ∷ 45 ∷ 53 ∷ 48 ∷ 48 ∷ []
unfolding format_percent digits_of
negative_percent = refl
