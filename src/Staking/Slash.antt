-- ===== src/Staking/Slash.antt =====
-- The pure rules of src/services/staking.ts: the size of a slash, how it is split over the bond and
-- the unbonding lots, and which bond is eligible for a tier.
use refract_backend.Prelude.{
  ℕ, ◌+◌, ◌-◌, ◌*◌, ◌/◌, ◌≤◌, ◌<◌, min, ◌≡◌, refl, ◌⊎◌, ◌≢◌, String, Bool, false, ◌||◌, Option,
  none, some, List, [], ◌∷◌, arith, ltb, leb, ◌==◌, if◌then◌else◌, sum_of, All, Result, ok, err,
  string_discrete,
}
use refract_backend.Prelude.Dict.{Dict, lookup, insert, lookup-insert_ne}
use refract_backend.Staking.{StakingError, slash_exceeds_stake, bps_denominator}

-- `slashAmountFor`: floor division, capped at the stake. Amounts and rates are not negative.
unfoldable pub slash_amount_for : ℕ → ℕ → ℕ
slash_amount_for at_stake bps =
    if at_stake == 0 || bps == 0 then 0 else min (at_stake * bps / bps_denominator) at_stake

pub record UnbondingLot : Type 0 where
  pub id : String
  pub amount : ℕ

-- The loop of `allocateSlash`: what remains, and the map from lots to what is taken of them.
unfoldable pub allocate_lots : ℕ → Dict String ℕ → List UnbondingLot → ℕ × Dict String ℕ
allocate_lots remaining from_unbonding [] = (remaining, from_unbonding)
allocate_lots remaining from_unbonding (lot ∷ lots) =
    let taken = min lot.amount remaining in
    let with_lot =
      if ltb 0 taken then insert string_discrete lot.id taken from_unbonding else from_unbonding in
    let rest = allocate_lots (remaining - taken) with_lot lots in
    if remaining == 0 then (remaining, from_unbonding) else rest

pub record Allocation : Type 0 where
  pub from_bonded : ℕ
  pub from_unbonding : Dict String ℕ

-- `allocateSlash`.
unfoldable pub allocate_slash : ℕ → List UnbondingLot → ℕ → Result StakingError Allocation
allocate_slash bonded unbonding amount =
    let from_bonded = min bonded amount in
    let (remaining, from_unbonding) = allocate_lots (amount - from_bonded) [] unbonding in
    if remaining == 0
    then ok (record { from_bonded = from_bonded; from_unbonding = from_unbonding })
    else err slash_exceeds_stake

-- `isBondEligible`. The ages compare in milliseconds; a bond of the future is too young.
unfoldable pub is_bond_eligible : ℕ → Option ℕ → ℕ → ℕ → ℕ → Bool
is_bond_eligible bonded none tier_minimum min_bond_age_seconds now = false
is_bond_eligible bonded (some first_bonded_at) tier_minimum min_bond_age_seconds now =
    if ltb bonded tier_minimum
    then false
    else leb (first_bonded_at + min_bond_age_seconds * 1000) now

-- What the lots hold.
abbrev pub lots_total : List UnbondingLot → ℕ
lots_total = sum_of (λ lot. lot.amount)

-- A slash never passes the stake, never passes the exact share of the stake at the given rate,
-- and is that share rounded down or the whole stake.
pub slash_amount_for_bounds :
    (at_stake bps : ℕ)
    → (slash_amount_for at_stake bps ≤ at_stake)
      × (slash_amount_for at_stake bps * bps_denominator ≤ at_stake * bps)
      × ((at_stake * bps < (slash_amount_for at_stake bps + 1) * bps_denominator)
          ⊎ (slash_amount_for at_stake bps ≡ at_stake))
unfolding slash_amount_for
slash_amount_for_bounds at_stake bps = (ground arith, ground arith, ground arith)

pub allocate_lots_remaining :
    (remaining : ℕ) (m : Dict String ℕ) (lots : List UnbondingLot)
    → (allocate_lots remaining m lots).0 ≡ remaining - lots_total lots
unfolding allocate_lots
allocate_lots_remaining remaining m [] = omega arith
allocate_lots_remaining remaining m (lot ∷ lots) = ground (
  arith,
  allocate_lots_remaining (remaining - min lot.amount remaining)
      (if ltb 0 (min lot.amount remaining)
        then insert string_discrete lot.id (min lot.amount remaining) m
        else m)
      lots,
)

-- What each lot gives, and what is left of the slash, once the loop has run.
pub allocate_lots_other :
    (remaining : ℕ) (m : Dict String ℕ) (lots : List UnbondingLot) (id : String)
    → All (λ lot. lot.id ≢ id) lots
    → lookup string_discrete id (allocate_lots remaining m lots).1 ≡ lookup string_discrete id m
unfolding allocate_lots
allocate_lots_other remaining m [] id h = refl
allocate_lots_other remaining m (lot ∷ lots) id h =
    let taken = min lot.amount remaining in
    ground (
      arith,
      allocate_lots_other (remaining - taken)
          (if ltb 0 taken then insert string_discrete lot.id taken m else m) lots id h.1,
      lookup-insert_ne string_discrete lot.id id taken m h.0,
    )

-- The split of a slash fails exactly when the amount passes the bond and the lots together;
-- otherwise the bond gives the smaller of itself and the amount, and the loop over the lots
-- allocates the rest.
pub allocate_slash_cases :
    (bonded : ℕ) (unbonding : List UnbondingLot) (amount : ℕ)
    → ((bonded + lots_total unbonding < amount)
        × (allocate_slash bonded unbonding amount ≡ err slash_exceeds_stake))
      ⊎ ((amount ≤ bonded + lots_total unbonding)
          × (allocate_slash bonded unbonding amount
              ≡ ok (record {
                from_bonded = min bonded amount;
                from_unbonding = (allocate_lots (amount - min bonded amount) [] unbonding).1;
              })))
unfolding allocate_slash
allocate_slash_cases bonded unbonding amount =
    ground (arith, allocate_lots_remaining (amount - min bonded amount) [] unbonding)
