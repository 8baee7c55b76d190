-- ===== src/Staking/Review.antt =====
-- The slashing proposals of `StakingService`, src/services/staking.ts: their review and their
-- execution. A statement `UPDATE ... WHERE id = $1 AND c RETURNING ...` answers the rows
-- that it changed; no row means that the transition is refused.
use refract_backend.Prelude.{
  ℕ, ◌+◌, ◌-◌, min, String, Bool, true, false, not, Option, none, some, List, [], ◌∷◌, map, ltb,
  leb, ◌==◌, if◌then◌else◌, ite, string_discrete, keep, find?, Result, ok, ◌>>=◌, ◌>>◌, guard,
  or_fail,
}
use refract_backend.Prelude.Dict.{Dict, lookup}
use refract_backend.Staking.{
  ProposalStatus, pending_review, pending_appeal, approved, rejected, executed, slashed, BondRow,
  UnbondRow, ProposalRow, ProposalView, Tables, StakingError, tx_hash_required, not_approved,
  no_transition, proposal_not_found, to_proposal_view,
}
use refract_backend.Staking.Slash.{UnbondingLot, allocate_slash, lots_total}
use refract_backend.Staking.Bonds.{is_lot_of, lock_bond, debit_bond}

-- `id = $1 AND c`.
abbrev pub selects : String → (ProposalRow → Bool) → ProposalRow → Bool
selects id c row = ite (string_discrete row.id id) (c row) false

abbrev pub rewrite_row :
    (ProposalRow → Bool) → (ProposalRow → ProposalRow) → ProposalRow → ProposalRow
rewrite_row p f row = if p row then f row else row

-- `UPDATE slashing_proposals SET f WHERE id = $1 AND c RETURNING ...`, and `requireTransition`.
unfoldable pub transition :
    (ProposalRow → Bool)
    → (ProposalRow → ProposalRow)
    → String
    → Tables
    → Result StakingError (ProposalView × Tables)
transition c f id tables = do
  row ← or_fail (find? (selects id c) tables.proposals) no_transition
  ok (
    to_proposal_view (f row),
    record tables { proposals = map (rewrite_row (selects id c) f) tables.proposals },
  )

-- `appeal_until <= now()`; a comparison with NULL is not true.
abbrev pub closed_by : ℕ → Option ℕ → Bool
closed_by now none = false
closed_by now (some t) = leb t now

abbrev pub open_at : ℕ → Option ℕ → Bool
open_at now none = false
open_at now (some t) = ltb now t

abbrev pub can_approve : ℕ → ProposalStatus → Option ℕ → Bool
can_approve now pending_review appeal_until = true
can_approve now pending_appeal appeal_until = closed_by now appeal_until
can_approve now _ appeal_until = false

abbrev pub can_reject : ProposalStatus → Bool
can_reject pending_review = true
can_reject pending_appeal = true
can_reject _ = false

abbrev pub can_appeal : ℕ → ProposalStatus → Option ℕ → Bool
can_appeal now pending_appeal appeal_until = open_at now appeal_until
can_appeal now _ appeal_until = false

abbrev pub is_approved : ProposalStatus → Bool
is_approved approved = true
is_approved _ = false

-- `approveProposal`.
unfoldable pub approve_proposal :
    ℕ → String → String → Tables → Result StakingError (ProposalView × Tables)
unfolding transition
approve_proposal now id reviewer =
    transition (λ row. can_approve now row.status row.appeal_until)
      (λ row. record row { status = approved; reviewed_by = some reviewer }) id

-- `rejectProposal`.
unfoldable pub reject_proposal :
    String → String → Tables → Result StakingError (ProposalView × Tables)
unfolding transition
reject_proposal id reviewer =
    transition (λ row. can_reject row.status)
      (λ row. record row { status = rejected; reviewed_by = some reviewer }) id

-- `appealProposal`.
unfoldable pub appeal_proposal : ℕ → String → Tables → Result StakingError (ProposalView × Tables)
unfolding transition
appeal_proposal now id =
    transition (λ row. can_appeal now row.status row.appeal_until)
      (λ row. record row { status = pending_review; appeal_until = none }) id

abbrev pub lot_of : UnbondRow → UnbondingLot
lot_of row = record { id = row.id; amount = row.amount }

-- `UPDATE unbond_requests SET amount = $2, status = CASE WHEN $2 = 0 ... WHERE id = $1`.
unfoldable pub set_lot : String → ℕ → UnbondRow → UnbondRow
set_lot id amount row =
    ite (string_discrete row.id id)
      (record row { amount = amount; status = if amount == 0 then slashed else row.status }) row

-- One round of the loop over the lots in `executeProposal`.
unfoldable pub pay_lot : Dict String ℕ → UnbondingLot → List UnbondRow → List UnbondRow
unfolding set_lot
pay_lot from_unbonding lot rows = elim (lookup string_discrete lot.id from_unbonding) [
  | none ↦ rows
  | some taken ↦ map (set_lot lot.id (lot.amount - taken)) rows
]

unfoldable pub pay_lots : Dict String ℕ → List UnbondingLot → List UnbondRow → List UnbondRow
pay_lots from_unbonding [] rows = rows
pay_lots from_unbonding (lot ∷ lots) rows =
    pay_lots from_unbonding lots (pay_lot from_unbonding lot rows)

-- The last statement of `executeProposal`.
unfoldable pub mark_executed : String → ProposalRow → ProposalRow
mark_executed tx_hash row = record row { status = executed; execution_tx_hash = some tx_hash }

-- What `executeProposal` takes, and the tables that it leaves.
unfoldable pub charge : ProposalRow → BondRow → Tables → Result StakingError Tables
charge proposal bond tables = do
  let lots = map lot_of (keep (is_lot_of proposal.operator_id) tables.unbonds)
  let slash = min proposal.amount (bond.bonded_amount + lots_total lots)
  allocation ← allocate_slash bond.bonded_amount lots slash
  let debited = debit_bond proposal.operator_id bond allocation.from_bonded tables
  ok (record debited { unbonds = pay_lots allocation.from_unbonding lots debited.unbonds })

-- `id = $1`.
abbrev pub has_id : String → ProposalRow → Bool
has_id id = selects id (λ row. true)

-- `executeProposal`. `is_blank` says whether the hash is empty once it is trimmed.
unfoldable pub execute_proposal :
    (String → Bool) → String → String → Tables → Result StakingError (ProposalView × Tables)
execute_proposal is_blank id tx_hash tables = do
  guard (not (is_blank tx_hash)) tx_hash_required
  proposal ← or_fail (find? (has_id id) tables.proposals) proposal_not_found
  guard (is_approved proposal.status) not_approved
  bond ← lock_bond proposal.operator_id tables
  charged ← charge proposal bond tables
  ok (
    to_proposal_view (mark_executed tx_hash proposal),
    record charged {
      proposals = map (rewrite_row (has_id id) (mark_executed tx_hash)) charged.proposals;
    },
  )
