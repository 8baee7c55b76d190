-- ===== src/Staking/Safeguards.antt =====
-- What the service of src/services/staking.ts guards against: evidence that is replayed, stake that
-- is unbonded ahead of a slash, and funds that leave while a proposal is open.
use refract_backend.Prelude.{
  ℕ, ◌+◌, ◌-◌, ◌*◌, ◌≤◌, ◌≡◌, refl, subst, inl, inr, String, false, none, some, List, [], ◌∷◌, ◌++◌,
  map, arith, string_discrete, keep, find?, any, sum_of, sum_of-append, ok, Option-cases,
  find?-append_none, keep-append, Result-cases,
}
use refract_backend.Prelude.Dict.{lookup, lookup-insert}
use refract_backend.Staking.{
  StakingPolicy, BondRow, UnbondRow, unbonding, ProposalRow, ProposalView, Tables, to_proposal_view,
}
use refract_backend.Staking.Slash.{slash_amount_for}
use refract_backend.Staking.Findings.{SlashableFinding}
use refract_backend.Staking.Bonds.{
  Input, UnbondReceipt, at_stake, is_lot_of, is_open_of, is_matured, release_lot, lock_bond,
  debit_bond, request_unbond, withdraw, parse_amount,
}
use refract_backend.Staking.Proposals.{create_proposal, new_proposal, evidence_key_of, has_key}
use refract_backend.Staking.Funds.{unbonding_total}
use refract_backend.Staking.Execution.{stake_at_risk}

pub create_existing :
    (policy : StakingPolicy) (now : ℕ) (id operator_id : String) (finding : SlashableFinding)
    (tables : Tables) (bond : BondRow) (row : ProposalRow)
    → lookup string_discrete operator_id tables.bonds ≡ some bond
    → find? (has_key (evidence_key_of finding)) tables.proposals ≡ some row
    → create_proposal policy now id operator_id finding tables
      ≡ (some (to_proposal_view row), tables)
unfolding create_proposal
create_existing policy now id operator_id finding tables bond row b e = ground arith

pub created_row :
    (policy : StakingPolicy) (now : ℕ) (id operator_id : String) (finding : SlashableFinding)
    (tables : Tables) (view : ProposalView)
    → (create_proposal policy now id operator_id finding tables).0 ≡ some view
    → (row : ProposalRow) × (find?
          (has_key (evidence_key_of finding))
          (create_proposal policy now id operator_id finding tables).1.proposals
        ≡ some row)
      × (to_proposal_view row ≡ view)
unfolding create_proposal has_key to_proposal_view
created_row policy now id operator_id finding tables view h =
    elim (Option-cases (lookup string_discrete operator_id tables.bonds)) [
      | inl e ↦ absurd (ground arith)
      | inr (bond, e) ↦
          elim (Option-cases (find? (has_key (evidence_key_of finding)) tables.proposals)) [
            | inl new ↦ (
              new_proposal policy now id operator_id finding (
                  slash_amount_for (at_stake operator_id bond.bonded_amount tables)
                    (policy.slash_bps finding.reason)),
              ground (
                arith,
                find?-append_none (has_key (evidence_key_of finding)) tables.proposals (
                    new_proposal policy now id operator_id finding (
                      slash_amount_for (at_stake operator_id bond.bonded_amount tables)
                        (policy.slash_bps finding.reason))
                    ∷ []),
              ),
              ground arith,
            )
            | inr (row, old) ↦ (row, ground arith, ground arith)
          ]
    ]

unbonded_stake :
    (operator_id other : String) (bond : BondRow) (amount : ℕ) (row : UnbondRow) (tables : Tables)
    → lookup string_discrete operator_id tables.bonds ≡ some bond
    → amount ≤ bond.bonded_amount
    → row.operator_id ≡ operator_id
    → row.amount ≡ amount
    → row.status ≡ unbonding
    → stake_at_risk other (record (debit_bond operator_id bond amount tables) {
      unbonds = tables.unbonds ++ row ∷ [];
    })
      ≡ stake_at_risk other tables
unfolding at_stake debit_bond is_lot_of
unbonded_stake operator_id other bond amount row tables found fits owner same open_lot =
    rw
      (
        keep-append (is_lot_of other) tables.unbonds (row ∷ []),
        sum_of-append (λ r. r.amount) (keep (is_lot_of other) tables.unbonds)
            (keep (is_lot_of other) (row ∷ [])),
      )
      (ground (
        arith,
        lookup-insert string_discrete operator_id other
            (record bond { bonded_amount = bond.bonded_amount - amount }) tables.bonds,
      ))

-- A request to unbond that succeeds leaves the stake at risk of every operator as it was, the
-- requesting operator's included: stake moves from the bond to a lot that stays slashable.
pub request_unbond_stake :
    (policy : StakingPolicy) (now : ℕ) (id operator_id : String) (amount : Input) (tables : Tables)
    (other : String) {receipt : UnbondReceipt} {after : Tables}
    → request_unbond policy now id operator_id amount tables ≡ ok (receipt, after)
    → stake_at_risk other after ≡ stake_at_risk other tables
unfolding request_unbond lock_bond
request_unbond_stake policy now id operator_id amount tables other {receipt} {after} h =
    elim (Result-cases (parse_amount amount)) [
      | inr (e, p) ↦ absurd (ground arith)
      | inl (a, p) ↦ elim (Option-cases (lookup string_discrete operator_id tables.bonds)) [
        | inl e ↦ absurd (ground arith)
        | inr (bond, e) ↦
            let row : UnbondRow = record {
              id = id;
              operator_id = operator_id;
              amount = a;
              status = unbonding;
              available_at = now + policy.unbonding_period_seconds * 1000;
              withdrawn_at = none;
            } in
            let fits : a ≤ bond.bonded_amount = ground arith in
            let same : record (debit_bond operator_id bond a tables) {
              unbonds = tables.unbonds ++ row ∷ [];
            }
                ≡ after =
              ground arith in
            subst (λ t. stake_at_risk other t ≡ stake_at_risk other tables) same
              (unbonded_stake operator_id other bond a row tables e fits refl refl refl)
      ]
    ]

release-total :
    (operator_id : String) (now : ℕ) (rows : List UnbondRow)
    → unbonding_total operator_id (map (release_lot operator_id now) rows)
        + sum_of (λ row. row.amount) (keep (is_matured operator_id now) rows)
      ≡ unbonding_total operator_id rows
unfolding release_lot is_matured is_lot_of
release-total operator_id now [] = omega arith
release-total operator_id now (row ∷ rows) = ground (arith, release-total operator_id now rows)

-- A withdrawal that succeeds found no open proposal against the operator, and takes exactly the
-- answered amount out of the operator's stake at risk.
pub withdraw_blocked :
    (now : ℕ) (operator_id : String) (tables : Tables) {withdrawn : ℕ} {after : Tables}
    → withdraw now operator_id tables ≡ ok (withdrawn, after)
    → (any (is_open_of operator_id) tables.proposals ≡ false)
      × (stake_at_risk operator_id after + withdrawn ≡ stake_at_risk operator_id tables)
unfolding withdraw at_stake
withdraw_blocked now operator_id tables h =
    ground (arith, release-total operator_id now tables.unbonds)
