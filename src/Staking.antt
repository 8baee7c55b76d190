-- ===== src/Staking.antt =====
-- src/services/staking.ts: bonds, unbonding lots and slashing proposals of oracle operators.
-- This file has the policy and the rows of the three tables; its children have the pure rules
-- (Slash, Findings), the service's operations (Bonds, Proposals, Review) and what is proved of them.
pub mod Slash
pub mod Findings
pub mod Bonds
pub mod Proposals
pub mod Review
pub mod Funds
pub mod Execution
pub mod Lifecycle
pub mod Safeguards
pub mod Replays
use refract_backend.Prelude.{ℕ, ◌+◌, ◌*◌, ◌≡◌, String, Bool, Option, none, some, List, true, false}
use refract_backend.Prelude.Dict.{Dict}

pub data FeedTier : Type 0 where
  tier1 tier2 tier3 : FeedTier

pub data SlashReason : Type 0 where
  outside_tolerance post_quarantine equivocation : SlashReason

pub data ProposalStatus : Type 0 where
  pending_review pending_appeal approved rejected executed : ProposalStatus

-- The values of the column `unbond_requests.status`.
pub data LotStatus : Type 0 where
  unbonding withdrawn slashed : LotStatus

-- `BPS_DENOMINATOR`.
abbrev pub bps_denominator : ℕ
bps_denominator = 10_000

pub record AutoSlash : Type 0 where
  pub enabled : Bool
  pub max_bps : ℕ
  pub appeal_window_seconds : ℕ

-- `Record<FeedTier, bigint>` and `Record<SlashReason, number>` have a value at every key.
pub record StakingPolicy : Type 0 where
  pub unbonding_period_seconds : ℕ
  pub min_bond_age_seconds : ℕ
  pub min_bond_by_tier : FeedTier → ℕ
  pub slash_bps : SlashReason → ℕ
  pub auto_slash : AutoSlash

-- A row of `operator_bonds`. Times are milliseconds since the epoch.
pub record BondRow : Type 0 where
  pub bonded_amount : ℕ
  pub first_bonded_at : Option ℕ

pub record UnbondRow : Type 0 where
  pub id : String
  pub operator_id : String
  pub amount : ℕ
  pub status : LotStatus
  pub available_at : ℕ
  pub withdrawn_at : Option ℕ

pub record ProposalRow : Type 0 where
  pub id : String
  pub operator_id : String
  pub reason : SlashReason
  pub evidence_ids : List String
  pub evidence_key : String
  pub amount : ℕ
  pub status : ProposalStatus
  pub appeal_until : Option ℕ
  pub execution_tx_hash : Option String
  pub reviewed_by : Option String

-- The tables. `operator_bonds` is keyed by the operator. `unbond_requests` and
-- `slashing_proposals` list their rows in the order in which they were inserted, which is that of
-- `requested_at` and `created_at`.
pub record Tables : Type 0 where
  pub bonds : Dict String BondRow
  pub unbonds : List UnbondRow
  pub proposals : List ProposalRow

pub record ProposalView : Type 0 where
  pub id : String
  pub operator_id : String
  pub reason : SlashReason
  pub evidence_ids : List String
  pub amount : ℕ
  pub status : ProposalStatus
  pub appeal_until : Option ℕ
  pub execution_tx_hash : Option String

-- `toProposalView`.
unfoldable pub to_proposal_view : ProposalRow → ProposalView
to_proposal_view row = record {
  id = row.id;
  operator_id = row.operator_id;
  reason = row.reason;
  evidence_ids = row.evidence_ids;
  amount = row.amount;
  status = row.status;
  appeal_until = row.appeal_until;
  execution_tx_hash = row.execution_tx_hash;
}

-- The exceptions, one for each message.
pub data StakingError : Type 0 where
  amount_invalid tx_hash_required : StakingError
  unbond_exceeds_bond withdrawal_blocked not_approved no_transition : StakingError
  no_bond proposal_not_found : StakingError
  slash_exceeds_stake : StakingError

-- `status = ANY(OPEN_PROPOSAL_STATUSES)`.
unfoldable pub is_open : ProposalStatus → Bool
is_open pending_review = true
is_open pending_appeal = true
is_open approved = true
is_open _ = false

-- `status = 'unbonding'`.
unfoldable pub is_unbonding : LotStatus → Bool
is_unbonding unbonding = true
is_unbonding _ = false
