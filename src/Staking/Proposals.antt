-- ===== src/Staking/Proposals.antt =====
-- The slashing proposals of `StakingService`, src/services/staking.ts: how evidence opens one.
use Prim.Native.String.{◌++◌ as text_append}
use refract_backend.Prelude.{
  ℕ, ◌+◌, ◌*◌, String, Bool, true, false, ◌&&◌, Option, none, some, List, [], ◌∷◌, ◌++◌, leb, ◌==◌,
  if◌then◌else◌, ite, string_discrete, find?,
}
use refract_backend.Prelude.Dict.{lookup}
use refract_backend.Staking.{
  StakingPolicy, SlashReason, outside_tolerance, post_quarantine, equivocation, pending_review,
  pending_appeal, BondRow, ProposalRow, ProposalView, Tables, to_proposal_view,
}
use refract_backend.Staking.Slash.{slash_amount_for}
use refract_backend.Staking.Findings.{
  StringOrder, OracleSubmission, SubmissionContext, SlashableFinding, detect_slashable_conditions,
}
use refract_backend.Staking.Bonds.{at_stake}

abbrev reason_text : SlashReason → String
reason_text outside_tolerance = "outside_tolerance"
reason_text post_quarantine = "post_quarantine"
reason_text equivocation = "equivocation"

abbrev join : String → List String → String
join sep [] = ""
join sep (s ∷ []) = s
join sep (s ∷ t ∷ ss) = text_append s (text_append sep (join sep (t ∷ ss)))

-- The template of `evidenceKey`.
unfoldable pub evidence_key_of : SlashableFinding → String
evidence_key_of finding =
    text_append (reason_text finding.reason) (text_append ":" (join "|" finding.evidence_ids))

-- `evidence_key = $1`.
unfoldable pub has_key : String → ProposalRow → Bool
has_key key row = ite (string_discrete row.evidence_key key) true false

-- The row that `createProposal` inserts.
unfoldable pub new_proposal :
    StakingPolicy → ℕ → String → String → SlashableFinding → ℕ → ProposalRow
new_proposal policy now id operator_id finding amount =
    let auto_eligible =
      policy.auto_slash.enabled
      && leb (policy.slash_bps finding.reason) policy.auto_slash.max_bps in
    record {
      id = id;
      operator_id = operator_id;
      reason = finding.reason;
      evidence_ids = finding.evidence_ids;
      evidence_key = evidence_key_of finding;
      amount = amount;
      status = if auto_eligible then pending_appeal else pending_review;
      appeal_until =
          if auto_eligible
          then some (now + policy.auto_slash.appeal_window_seconds * 1000)
          else none;
      execution_tx_hash = none;
      reviewed_by = none;
    }

-- The insertion of `createProposal`, once the evidence is known to be new.
unfoldable pub open_proposal :
    StakingPolicy
    → ℕ
    → String
    → String
    → SlashableFinding
    → BondRow
    → Tables
    → Option ProposalView × Tables
unfolding new_proposal
open_proposal policy now id operator_id finding bond tables =
    let amount =
      slash_amount_for (at_stake operator_id bond.bonded_amount tables)
        (policy.slash_bps finding.reason) in
    let row = new_proposal policy now id operator_id finding amount in
    if amount == 0
    then (none, tables)
    else (some (to_proposal_view row), record tables { proposals = tables.proposals ++ row ∷ [] })

-- `createProposal`; `id` is the key that the database gives the new row.
unfoldable pub create_proposal :
    StakingPolicy → ℕ → String → String → SlashableFinding → Tables → Option ProposalView × Tables
unfolding open_proposal
create_proposal policy now id operator_id finding tables =
    elim (lookup string_discrete operator_id tables.bonds) [
      | none ↦ (none, tables)
      | some bond ↦ elim (find? (has_key (evidence_key_of finding)) tables.proposals) [
        | some existing ↦ (some (to_proposal_view existing), tables)
        | none ↦ open_proposal policy now id operator_id finding bond tables
      ]
    ]

abbrev push_created : Option ProposalView → List ProposalView → List ProposalView
push_created none created = created
push_created (some proposal) created = proposal ∷ created

-- The loop of `evaluateSubmission`; `ids n` is the key of the row that the n-th finding inserts.
unfoldable pub create_proposals :
    StakingPolicy
    → ℕ
    → (ℕ → String)
    → String
    → List SlashableFinding
    → Tables
    → List ProposalView × Tables
create_proposals policy now ids operator_id [] tables = ([], tables)
create_proposals policy now ids operator_id (finding ∷ findings) tables =
    let (proposal, tables') = create_proposal policy now (ids 0) operator_id finding tables in
    let (created, tables'') =
      create_proposals policy now (λ n. ids (n + 1)) operator_id findings tables' in
    (push_created proposal created, tables'')

-- `evaluateSubmission`.
unfoldable pub evaluate_submission :
    StringOrder
    → StakingPolicy
    → ℕ
    → (ℕ → String)
    → OracleSubmission
    → List OracleSubmission
    → SubmissionContext
    → Tables
    → List ProposalView × Tables
evaluate_submission order policy now ids submission siblings context tables =
    create_proposals policy now ids submission.operator_id
      (detect_slashable_conditions order submission siblings context) tables
