-- ===== src/Staking/Execution.antt =====
-- What `executeProposal` of src/services/staking.ts does to the stakes of the operators.
use refract_backend.Prelude.{
  ℕ, ◌+◌, ◌-◌, min, ◌≡◌, refl, ap, inl, inr, ◌≢◌, String, Bool, false, none, some, List, [], ◌∷◌,
  map, arith, string_discrete, find?, All, ok,
}
use refract_backend.Prelude.Dict.{Dict, lookup, insert, lookup-insert_self, lookup-insert_ne}
use refract_backend.Staking.{
  BondRow, UnbondRow, ProposalRow, ProposalView, Tables, approved, executed, to_proposal_view,
}
use refract_backend.Staking.Slash.{allocate_lots, lots_total, allocate_slash_cases}
use refract_backend.Staking.Bonds.{at_stake, bonded_of, lock_bond, debit_bond}
use refract_backend.Staking.Review.{charge, execute_proposal, has_id, mark_executed, rewrite_row}
use refract_backend.Staking.Funds.{
  HasUniqueIds, lots_of, unbonding_total, settled, pay_lots-settled, unbonding_total-settled,
  unbonding_total-settled_other,
}

-- The stake of an operator that a slash can reach: the bond and the unbonding lots.
abbrev pub stake_at_risk : String → Tables → ℕ
stake_at_risk operator_id tables =
    at_stake operator_id (bonded_of (lookup string_discrete operator_id tables.bonds)) tables

lots_total-lots_of :
    (operator_id : String) (rows : List UnbondRow)
    → lots_total (lots_of operator_id rows) ≡ unbonding_total operator_id rows
lots_total-lots_of operator_id [] = refl
lots_total-lots_of operator_id (row ∷ rows) = ground (arith, lots_total-lots_of operator_id rows)

fresh_map : (rows : List UnbondRow) → All (λ r. lookup {V = ℕ} string_discrete r.id [] ≡ none) rows
fresh_map [] = tt
fresh_map (row ∷ rows) = (refl, fresh_map rows)

-- The amount that an execution takes, its part from the bond, and its parts from the lots.
abbrev pub slash_of : ProposalRow → BondRow → Tables → ℕ
slash_of proposal bond tables =
    min proposal.amount (bond.bonded_amount + unbonding_total proposal.operator_id tables.unbonds)

abbrev takes_of : ProposalRow → BondRow → Tables → Dict String ℕ
takes_of proposal bond tables =
    (allocate_lots
      (slash_of proposal bond tables - min bond.bonded_amount (slash_of proposal bond tables)) []
      (lots_of proposal.operator_id tables.unbonds)).1

charged : ProposalRow → BondRow → Tables → Tables
charged proposal bond tables = record tables {
  bonds =
      insert string_discrete proposal.operator_id
        (record bond {
          bonded_amount =
              bond.bonded_amount - min bond.bonded_amount (slash_of proposal bond tables);
        })
        tables.bonds;
  unbonds = map (settled proposal.operator_id (takes_of proposal bond tables)) tables.unbonds;
}

-- The charge never fails.
charge_lem :
    (proposal : ProposalRow) (bond : BondRow) (tables : Tables)
    → HasUniqueIds tables.unbonds
    → charge proposal bond tables ≡ ok (charged proposal bond tables)
unfolding charge charged debit_bond
charge_lem proposal bond tables u =
    rw (lots_total-lots_of proposal.operator_id tables.unbonds)
      (elim (allocate_slash_cases bond.bonded_amount (lots_of proposal.operator_id tables.unbonds)
        (slash_of proposal bond tables)) [
          | inl (over, _) ↦
              absurd (omega (arith, lots_total-lots_of proposal.operator_id tables.unbonds))
          | inr (_, e) ↦ rw e (
              rw (
                pay_lots-settled proposal.operator_id (takes_of proposal bond tables) tables.unbonds
                  u))
        ])

charged_stake :
    (proposal : ProposalRow) (bond : BondRow) (tables : Tables)
    → HasUniqueIds tables.unbonds
    → lookup string_discrete proposal.operator_id tables.bonds ≡ some bond
    → stake_at_risk proposal.operator_id (charged proposal bond tables)
        + min proposal.amount (stake_at_risk proposal.operator_id tables)
      ≡ stake_at_risk proposal.operator_id tables
unfolding charged at_stake
charged_stake proposal bond tables u found =
    rw (found, lookup-insert_self string_discrete proposal.operator_id _ tables.bonds)
      (omega (
        arith,
        unbonding_total-settled proposal.operator_id
            (slash_of proposal bond tables - min bond.bonded_amount (slash_of proposal bond tables))
            [] tables.unbonds u (fresh_map tables.unbonds),
      ))

charged_other :
    (proposal : ProposalRow) (bond : BondRow) (tables : Tables) (other : String)
    → proposal.operator_id ≢ other
    → stake_at_risk other (charged proposal bond tables) ≡ stake_at_risk other tables
unfolding charged at_stake
charged_other proposal bond tables other h =
    rw (lookup-insert_ne string_discrete proposal.operator_id other _ tables.bonds h) (
      ap (◌+◌ (bonded_of (lookup string_discrete other tables.bonds))) (
        unbonding_total-settled_other proposal.operator_id other (takes_of proposal bond tables)
          tables.unbonds h))

-- The tables after an execution.
after_execution : String → String → ProposalRow → BondRow → Tables → Tables
after_execution id tx_hash proposal bond tables =
    let t = charged proposal bond tables in
    record t { proposals = map (rewrite_row (has_id id) (mark_executed tx_hash)) t.proposals }

-- An approved proposal is executed whenever the operator has a bond, the hash is not blank and
-- lot ids are unique, whatever was unbonded since: the operator's stake at risk falls by the
-- proposal's amount or by all of it where it holds less, the answer is the proposal marked
-- executed under the hash, and the stake of any other operator is unchanged.
pub execute_proposal_total :
    (is_blank : String → Bool) (id tx_hash other : String) (proposal : ProposalRow) (bond : BondRow)
    (tables : Tables)
    → is_blank tx_hash ≡ false
    → find? (has_id id) tables.proposals ≡ some proposal
    → proposal.status ≡ approved
    → lookup string_discrete proposal.operator_id tables.bonds ≡ some bond
    → HasUniqueIds tables.unbonds
    → proposal.operator_id ≢ other
    → (after : Tables) × (execute_proposal is_blank id tx_hash tables
        ≡ ok (to_proposal_view (mark_executed tx_hash proposal), after))
      × (stake_at_risk proposal.operator_id after
            + min proposal.amount (stake_at_risk proposal.operator_id tables)
          ≡ stake_at_risk proposal.operator_id tables)
      × (stake_at_risk other after ≡ stake_at_risk other tables)
unfolding execute_proposal lock_bond after_execution at_stake
execute_proposal_total is_blank id tx_hash other proposal bond tables hash found status bonded u
      ne =
    (
      after_execution id tx_hash proposal bond tables,
      simp (hash, found, status, bonded, charge_lem proposal bond tables u),
      charged_stake proposal bond tables u bonded,
      charged_other proposal bond tables other ne,
    )

-- An execution that succeeds found a proposal under the id, that proposal was approved, and the
-- answer says executed.
pub execute_proposal-approved :
    (is_blank : String → Bool) (id tx_hash : String) (tables : Tables) {view : ProposalView}
    {after : Tables}
    → execute_proposal is_blank id tx_hash tables ≡ ok (view, after)
    → (proposal : ProposalRow) × (find? (has_id id) tables.proposals ≡ some proposal)
      × (proposal.status ≡ approved)
      × (view.status ≡ executed)
unfolding execute_proposal to_proposal_view mark_executed
execute_proposal-approved is_blank id tx_hash tables h = ground arith
