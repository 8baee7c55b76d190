-- ===== src/Staking/Bonds.antt =====
-- The bond operations of `StakingService`, src/services/staking.ts: a handler takes the clock of the
-- database (`now()`) and the tables, and answers the new tables, or throws and leaves them as they
-- were (`withTransaction` rolls back).
use refract_backend.Prelude.{
  ℕ, ◌+◌, ◌-◌, ◌*◌, ◌/◌, String, Bool, false, not, ◌&&◌, Option, none, some, List, [], ◌∷◌, ◌++◌,
  map, leb, if◌then◌else◌, ite, string_discrete, any, all, keep, sum_of, Result, ok, err, ◌>>=◌,
  ◌>>◌, guard, or_fail,
}
use refract_backend.Prelude.Dict.{lookup, insert}
use refract_backend.Staking.{
  FeedTier, tier1, tier2, tier3, StakingPolicy, BondRow, UnbondRow, unbonding, withdrawn, Tables,
  StakingError, amount_invalid, unbond_exceeds_bond, withdrawal_blocked, no_bond, is_open,
  is_unbonding, ProposalRow, ProposalView, to_proposal_view,
}
use refract_backend.Staking.Slash.{is_bond_eligible}

-- A JSON value, as far as `parseAmount` looks: a text by its code units, or anything else.
pub data Input : Type 0 where
  text : List ℕ → Input
  other : Input

abbrev is_digit : ℕ → Bool
is_digit c = leb b'0' c && leb c b'9'

-- `BigInt(value)` of a text of digits.
unfoldable pub digits_value : ℕ → List ℕ → ℕ
digits_value acc [] = acc
digits_value acc (c ∷ cs) = digits_value (acc * 10 + (c - b'0')) cs

-- `parseAmount`: the pattern is /^[1-9]\d*$/.
unfoldable pub parse_amount : Input → Result StakingError ℕ
parse_amount other = err amount_invalid
parse_amount (text []) = err amount_invalid
parse_amount (text (c ∷ cs)) =
    if leb b'1' c && leb c b'9' && all is_digit cs
    then ok (digits_value 0 (c ∷ cs))
    else err amount_invalid

-- `operator_id = $1 AND status = 'unbonding'`.
unfoldable pub is_lot_of : String → UnbondRow → Bool
unfolding is_unbonding
is_lot_of operator_id row =
    ite (string_discrete row.operator_id operator_id) (is_unbonding row.status) false

-- `operator_id = $1 AND status = ANY(OPEN_PROPOSAL_STATUSES)`.
unfoldable pub is_open_of : String → ProposalRow → Bool
unfolding is_open
is_open_of operator_id row =
    ite (string_discrete row.operator_id operator_id) (is_open row.status) false

-- `lockBond`, as it is called with `required`.
unfoldable pub lock_bond : String → Tables → Result StakingError BondRow
lock_bond operator_id tables = or_fail (lookup string_discrete operator_id tables.bonds) no_bond

-- `atStake`: the bond and the sum of the unbonding lots.
unfoldable pub at_stake : String → ℕ → Tables → ℕ
at_stake operator_id bonded tables =
    bonded + sum_of (λ row. row.amount) (keep (is_lot_of operator_id) tables.unbonds)

-- `COALESCE(first_bonded_at, now())`.
abbrev pub coalesce : Option ℕ → ℕ → ℕ
coalesce none now = now
coalesce (some t) now = t

-- The upsert of `recordBond`.
unfoldable pub upsert_bond : ℕ → ℕ → Option BondRow → BondRow
upsert_bond now amount none = record { bonded_amount = amount; first_bonded_at = some now }
upsert_bond now amount (some bond) = record {
  bonded_amount = bond.bonded_amount + amount;
  first_bonded_at = some (coalesce bond.first_bonded_at now);
}

-- `recordBond`.
unfoldable pub record_bond : ℕ → String → Input → Tables → Result StakingError Tables
unfolding upsert_bond
record_bond now operator_id amount_input tables = do
  amount ← parse_amount amount_input
  let bond = lookup string_discrete operator_id tables.bonds
  ok (record tables {
    bonds = insert string_discrete operator_id (upsert_bond now amount bond) tables.bonds;
  })

-- `UPDATE operator_bonds SET bonded_amount = bonded_amount - $2`.
unfoldable pub debit_bond : String → BondRow → ℕ → Tables → Tables
debit_bond operator_id bond amount tables = record tables {
  bonds =
      insert string_discrete operator_id
        (record bond { bonded_amount = bond.bonded_amount - amount }) tables.bonds;
}

pub record UnbondReceipt : Type 0 where
  pub id : String
  pub available_at : ℕ

-- `requestUnbond`; `id` is the key that the database gives the new row.
unfoldable pub request_unbond :
    StakingPolicy
    → ℕ
    → String
    → String
    → Input
    → Tables
    → Result StakingError (UnbondReceipt × Tables)
unfolding debit_bond
request_unbond policy now id operator_id amount_input tables = do
  amount ← parse_amount amount_input
  bond ← lock_bond operator_id tables
  guard (leb amount bond.bonded_amount) unbond_exceeds_bond
  let available_at = now + policy.unbonding_period_seconds * 1000
  let debited = debit_bond operator_id bond amount tables
  let row : UnbondRow = record {
    id = id;
    operator_id = operator_id;
    amount = amount;
    status = unbonding;
    available_at = available_at;
    withdrawn_at = none;
  }
  ok (
    record { id = id; available_at = available_at },
    record debited { unbonds = debited.unbonds ++ row ∷ [] },
  )

-- A lot that `withdraw` releases.
unfoldable pub is_matured : String → ℕ → UnbondRow → Bool
is_matured operator_id now row = is_lot_of operator_id row && leb row.available_at now

unfoldable pub release_lot : String → ℕ → UnbondRow → UnbondRow
unfolding is_matured
release_lot operator_id now row =
    if is_matured operator_id now row
    then record row { status = withdrawn; withdrawn_at = some now }
    else row

-- `withdraw`: the amount withdrawn, and the tables.
unfoldable pub withdraw : ℕ → String → Tables → Result StakingError (ℕ × Tables)
unfolding release_lot
withdraw now operator_id tables = do
  locked ← lock_bond operator_id tables
  guard (not (any (is_open_of operator_id) tables.proposals)) withdrawal_blocked
  ok (
    sum_of (λ row. row.amount) (keep (is_matured operator_id now) tables.unbonds),
    record tables { unbonds = map (release_lot operator_id now) tables.unbonds },
  )

pub record LotView : Type 0 where
  pub id : String
  pub amount : ℕ
  pub available_at : ℕ
  pub remaining_seconds : ℕ

pub record StatusView : Type 0 where
  pub operator_id : String
  pub bonded_amount : ℕ
  pub eligible_tiers : List FeedTier
  pub unbonding : List LotView
  pub pending_slashing : List ProposalView

abbrev pub bonded_of : Option BondRow → ℕ
bonded_of none = 0
bonded_of (some bond) = bond.bonded_amount

abbrev first_bonded_of : Option BondRow → Option ℕ
first_bonded_of none = none
first_bonded_of (some bond) = bond.first_bonded_at

-- `Math.max(0, Math.ceil((available_at - now) / 1000))`: the subtraction stops at 0.
unfoldable pub remaining_seconds : ℕ → ℕ → ℕ
remaining_seconds now available_at = (available_at - now + 999) / 1000

unfoldable pub lot_view : ℕ → UnbondRow → LotView
unfolding remaining_seconds
lot_view now row = record {
  id = row.id;
  amount = row.amount;
  available_at = row.available_at;
  remaining_seconds = remaining_seconds now row.available_at;
}

-- `FEED_TIERS`.
abbrev feed_tiers : List FeedTier
feed_tiers = tier1 ∷ tier2 ∷ tier3 ∷ []

-- `getStatus`.
unfoldable pub get_status : StakingPolicy → ℕ → String → Tables → StatusView
unfolding lot_view is_bond_eligible
get_status policy now operator_id tables =
    let bond = lookup string_discrete operator_id tables.bonds in
    let bonded = bonded_of bond in
    record {
      operator_id = operator_id;
      bonded_amount = bonded;
      eligible_tiers =
          keep
            (λ tier.
              is_bond_eligible bonded (first_bonded_of bond) (policy.min_bond_by_tier tier)
                policy.min_bond_age_seconds now)
            feed_tiers;
      unbonding = map (lot_view now) (keep (is_lot_of operator_id) tables.unbonds);
      pending_slashing = map to_proposal_view (keep (is_open_of operator_id) tables.proposals);
    }
