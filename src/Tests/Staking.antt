-- ===== src/Tests/Staking.antt =====
-- src/services/staking.ts at concrete inputs.
use text.Mathlib.TextEquality.{eq_iff}
use refract_backend.Prelude.{
  List, arith, ℕ, ◌+◌, ◌-◌, ◌*◌, ◌≤◌, ◌<◌, min, ◌≡◌, refl, ◌⊎◌, String, Bool, true, false, none,
  some, [], ◌∷◌, map, any, ok, err, string_discrete,
}
use refract_backend.Prelude.Int.{pos}
use refract_backend.Staking.{
  StakingPolicy, outside_tolerance, post_quarantine, pending_appeal, approved, executed, unbonding,
  withdrawn, BondRow, UnbondRow, ProposalRow, ProposalView, Tables, slash_exceeds_stake,
  to_proposal_view, bps_denominator,
}
use refract_backend.Staking.Slash.{
  slash_amount_for, allocate_slash, allocate_lots, lots_total, slash_amount_for_bounds,
  allocate_slash_cases,
}
use refract_backend.Staking.Findings.{
  OracleSubmission, SlashableFinding, equivocations, equivocations_symm,
}
use refract_backend.Tests.Orders.{code_order}
use refract_backend.Staking.Bonds.{
  record_bond, lock_bond, debit_bond, is_lot_of, at_stake, parse_amount, digits_value, is_matured,
  Input, request_unbond, withdraw, is_open_of,
}
use refract_backend.Staking.Proposals.{create_proposal, has_key, evidence_key_of}
use refract_backend.Staking.Review.{
  reject_proposal, charge, pay_lot, execute_proposal, mark_executed, pay_lots,
}
use refract_backend.Staking.Funds.{lots_of, settled, pay_lots-settled}
use refract_backend.Staking.Execution.{stake_at_risk, execute_proposal_total}
use refract_backend.Staking.Lifecycle.{executes, rejects, review, MovesOne, review-Moves}
use refract_backend.Staking.Replays.{
  Operation, reviews, bonds, perform, perform_all, create_proposal_again,
}
use refract_backend.Staking.Safeguards.{request_unbond_stake, withdraw_blocked}
use refract_backend.Prelude.Dict.{lookup}

abbrev policy : StakingPolicy
policy = record {
  unbonding_period_seconds = 60;
  min_bond_age_seconds = 30;
  min_bond_by_tier = λ tier. 100;
  slash_bps = λ reason. 500;
  auto_slash = record { enabled = true; max_bps = 500; appeal_window_seconds = 10 };
}

abbrev bond : BondRow
bond = record { bonded_amount = 70; first_bonded_at = some 1000 }

abbrev lot : UnbondRow
lot = record {
  id = "u1";
  operator_id = "op";
  amount = 30;
  status = unbonding;
  available_at = 2000;
  withdrawn_at = none;
}

abbrev proposal : ProposalRow
proposal = record {
  id = "p1";
  operator_id = "op";
  reason = post_quarantine;
  evidence_ids = "e1" ∷ [];
  evidence_key = "post_quarantine:e1";
  amount = 90;
  status = approved;
  appeal_until = none;
  execution_tx_hash = none;
  reviewed_by = some "rev";
}

abbrev tables : Tables
tables = record { bonds = ("op", bond) ∷ []; unbonds = lot ∷ []; proposals = proposal ∷ [] }

abbrev no_proposals : Tables
no_proposals = record tables { proposals = [] }

abbrev not_blank : String → Bool
not_blank s = false

slash_amount_for_bounds_example :
    (slash_amount_for 1999 500 ≤ 1999)
    × (slash_amount_for 1999 500 * bps_denominator ≤ 1999 * 500)
    × ((1999 * 500 < (slash_amount_for 1999 500 + 1) * bps_denominator)
        ⊎ (slash_amount_for 1999 500 ≡ 1999))
slash_amount_for_bounds_example = slash_amount_for_bounds 1999 500

allocate_slash_cases_example :
    ((70 + lots_total (lots_of "op" (lot ∷ [])) < 90)
      × (allocate_slash 70 (lots_of "op" (lot ∷ [])) 90 ≡ err slash_exceeds_stake))
    ⊎ ((90 ≤ 70 + lots_total (lots_of "op" (lot ∷ [])))
        × (allocate_slash 70 (lots_of "op" (lot ∷ [])) 90
            ≡ ok (record {
              from_bonded = min 70 90;
              from_unbonding = (allocate_lots (90 - min 70 90) [] (lots_of "op" (lot ∷ []))).1;
            })))
allocate_slash_cases_example = allocate_slash_cases 70 (lots_of "op" (lot ∷ [])) 90

pay_lots-settled_example :
    pay_lots (("u1", 20) ∷ []) (lots_of "op" (lot ∷ [])) (lot ∷ [])
    ≡ map (settled "op" (("u1", 20) ∷ [])) (lot ∷ [])
pay_lots-settled_example = pay_lots-settled "op" (("u1", 20) ∷ []) (lot ∷ []) (tt, tt)

execute_proposal_total_example :
    (after : Tables) × (execute_proposal not_blank "p1" "tx" tables
      ≡ ok (to_proposal_view (mark_executed "tx" proposal), after))
    × (stake_at_risk "op" after + min 90 (stake_at_risk "op" tables) ≡ stake_at_risk "op" tables)
    × (stake_at_risk "other" after ≡ stake_at_risk "other" tables)
unfolding string_discrete
execute_proposal_total_example =
    execute_proposal_total not_blank "p1" "tx" "other" proposal bond tables refl refl refl refl
      (tt, tt) (ground (arith, eq_iff "op" "other"))

executed_view : ProposalView
unfolding to_proposal_view mark_executed
executed_view = to_proposal_view (mark_executed "tx" proposal)

abbrev executed_tables : Tables
executed_tables = record {
  bonds = ("op", record bond { bonded_amount = 0 }) ∷ [];
  unbonds = record lot { amount = 10 } ∷ [];
  proposals = record proposal { status = executed; execution_tx_hash = some "tx" } ∷ [];
}

execution : execute_proposal not_blank "p1" "tx" tables ≡ ok (executed_view, executed_tables)
unfolding execute_proposal executed_view lock_bond charge allocate_slash allocate_lots debit_bond
    pay_lots pay_lot is_lot_of string_discrete
execution = refl

review-Moves_example : MovesOne "p1" tables.proposals executed_tables.proposals
unfolding review
review-Moves_example =
    review-Moves not_blank 50 "p1" (executes "tx") tables {view = executed_view}
      {after = executed_tables} (tt, tt) execution

abbrev finding : SlashableFinding
finding = record { reason = outside_tolerance; evidence_ids = "e7" ∷ [] }

created_view : ProposalView
created_view = record {
  id = "p2";
  operator_id = "op";
  reason = outside_tolerance;
  evidence_ids = "e7" ∷ [];
  amount = 5;
  status = pending_appeal;
  appeal_until = some 10100;
  execution_tx_hash = none;
}

created : (create_proposal policy 100 "p2" "op" finding no_proposals).0 ≡ some created_view
unfolding create_proposal created_view at_stake slash_amount_for is_lot_of string_discrete has_key
    evidence_key_of to_proposal_view
created = refl

-- The proposal is rejected, and the operator bonds more.
abbrev meanwhile : List Operation
meanwhile =
    reviews not_blank 200 "p2" (rejects "ann") ∷ bonds 300 "op" (Input.text (b'4' ∷ [])) ∷ []

bonded :
    let after =
      perform_all meanwhile (create_proposal policy 100 "p2" "op" finding no_proposals).1 in
    lookup string_discrete "op" after.bonds ≡ some (record bond { bonded_amount = 74 })
unfolding create_proposal at_stake slash_amount_for is_lot_of string_discrete has_key
    evidence_key_of perform_all perform review reject_proposal record_bond parse_amount digits_value
bonded = refl

create_proposal_again_example :
    let after =
      perform_all meanwhile (create_proposal policy 100 "p2" "op" finding no_proposals).1 in
    (again : ProposalView) × (create_proposal policy 900 "p3" "op" finding after
      ≡ (some again, after))
    × (again.id ≡ "p2")
    × (again.operator_id ≡ "op")
    × (again.reason ≡ outside_tolerance)
    × (again.amount ≡ 5)
unfolding created_view
create_proposal_again_example =
    create_proposal_again policy policy 100 900 "p2" "p3" "op" "op" finding no_proposals
      created_view meanwhile _ created bonded

abbrev forty : Input
forty = Input.text (b'4' ∷ b'0' ∷ [])

abbrev unbonded : Tables
unbonded = record tables {
  bonds = ("op", record bond { bonded_amount = 30 }) ∷ [];
  unbonds =
      lot
      ∷ record {
        id = "u2";
        operator_id = "op";
        amount = 40;
        status = unbonding;
        available_at = 60500;
        withdrawn_at = none;
      }
      ∷ [];
}

request_unbond_stake_example : stake_at_risk "op" unbonded ≡ stake_at_risk "op" tables
unfolding request_unbond parse_amount digits_value lock_bond debit_bond string_discrete
request_unbond_stake_example =
    request_unbond_stake policy 500 "u2" "op" forty tables "op"
      {receipt = record { id = "u2"; available_at = 60500 }} {after = unbonded} refl

abbrev released : Tables
released = record no_proposals {
  unbonds = record lot { status = withdrawn; withdrawn_at = some 2500 } ∷ [];
}

withdraw_blocked_example :
    (any (is_open_of "op") no_proposals.proposals ≡ false)
    × (stake_at_risk "op" released + 30 ≡ stake_at_risk "op" no_proposals)
unfolding withdraw lock_bond string_discrete is_matured is_lot_of
withdraw_blocked_example =
    withdraw_blocked 2500 "op" no_proposals {withdrawn = 30} {after = released} refl

abbrev submission : String → ℕ → OracleSubmission
submission id value = record {
  evidence_id = id;
  operator_id = "op";
  feed_id = "f";
  round_id = "r";
  value = pos value;
  submitted_at = 0;
}

equivocations_symm_example :
    equivocations code_order (submission "a" 3) (submission "b" 4 ∷ [])
    ≡ equivocations code_order (submission "b" 4) (submission "a" 3 ∷ [])
equivocations_symm_example = equivocations_symm code_order (submission "a" 3) (submission "b" 4)
