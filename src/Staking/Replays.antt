-- ===== src/Staking/Replays.antt =====
-- Evidence that is replayed (src/services/staking.ts): a proposal that was opened for it is found by
-- every later call, whatever the service did in between.
use refract_backend.Prelude.{
  ℕ, ◌≡◌, refl, sym, ap, subst, ◌∙◌, inl, inr, String, Bool, some, List, [], ◌∷◌, map, arith,
  string_discrete, find?, any, leb, Result, ok, err, Option-cases, find?-append_some, Result-cases,
  Bool-cases,
}
use refract_backend.Prelude.Dict.{lookup}
use refract_backend.Staking.{
  StakingPolicy, BondRow, ProposalRow, ProposalView, Tables, StakingError, to_proposal_view,
}
use refract_backend.Staking.Slash.{slash_amount_for}
use refract_backend.Staking.Findings.{SlashableFinding}
use refract_backend.Staking.Bonds.{
  Input, record_bond, request_unbond, withdraw, lock_bond, debit_bond, parse_amount, is_open_of,
  at_stake,
}
use refract_backend.Staking.Proposals.{
  create_proposal, open_proposal, new_proposal, evidence_key_of, has_key,
}
use refract_backend.Staking.Review.{
  rewrite_row, selects, transition, has_id, mark_executed, execute_proposal, approve_proposal,
  reject_proposal, appeal_proposal,
}
use refract_backend.Staking.Lifecycle.{
  Action, approves, rejects, appeals, executes, review, executed_rows,
}
use refract_backend.Staking.Safeguards.{created_row, create_existing}

-- The calls of the service that change its tables.
pub data Operation : Type 0 where
  bonds : ℕ → String → Input → Operation
  unbonds : StakingPolicy → ℕ → String → String → Input → Operation
  withdraws : ℕ → String → Operation
  creates : StakingPolicy → ℕ → String → String → SlashableFinding → Operation
  reviews : (String → Bool) → ℕ → String → Action → Operation

-- The tables after a transaction, which leaves them alone where it fails.
abbrev after_ok : {A : Type 0} → Result StakingError (A × Tables) → Tables → Tables
after_ok (ok (a, after)) tables = after
after_ok (err e) tables = tables

abbrev or_same : Result StakingError Tables → Tables → Tables
or_same (ok after) tables = after
or_same (err e) tables = tables

unfoldable pub perform : Operation → Tables → Tables
perform (bonds now id amount) tables = or_same (record_bond now id amount tables) tables
perform (unbonds policy now id operator amount) tables =
    after_ok (request_unbond policy now id operator amount tables) tables
perform (withdraws now operator) tables = after_ok (withdraw now operator tables) tables
perform (creates policy now id operator finding) tables =
    (create_proposal policy now id operator finding tables).1
perform (reviews is_blank now id action) tables =
    after_ok (review is_blank now id action tables) tables

unfoldable pub perform_all : List Operation → Tables → Tables
unfolding perform
perform_all [] tables = tables
perform_all (o ∷ os) tables = perform_all os (perform o tables)

-- The proposal of the view, as it is by now, is the one that the key finds.
abbrev Known : String → ProposalView → List ProposalRow → Type 0
Known key view rows =
    (row : ProposalRow) × (find? (has_key key) rows ≡ some row)
    × (row.id ≡ view.id)
    × (row.operator_id ≡ view.operator_id)
    × (row.reason ≡ view.reason)
    × (row.amount ≡ view.amount)

-- A rewriting that leaves what a proposal is for.
abbrev KeepsIdentity : (ProposalRow → ProposalRow) → Type 0
KeepsIdentity f =
    (row : ProposalRow)
    → ((f row).evidence_key ≡ row.evidence_key)
      × ((f row).id ≡ row.id)
      × ((f row).operator_id ≡ row.operator_id)
      × ((f row).reason ≡ row.reason)
      × ((f row).amount ≡ row.amount)

find-map :
    (key : String) (f : ProposalRow → ProposalRow) (rows : List ProposalRow) (row : ProposalRow)
    → KeepsIdentity f
    → find? (has_key key) rows ≡ some row
    → find? (has_key key) (map f rows) ≡ some (f row)
unfolding has_key
find-map key f [] row keeps h = absurd (ground arith)
find-map key f (r ∷ rows) row keeps h = ground (arith, (keeps r).0, find-map key f rows row keeps)

map-Known :
    (key : String) (view : ProposalView) (f : ProposalRow → ProposalRow) (rows : List ProposalRow)
    → KeepsIdentity f
    → Known key view rows
    → Known key view (map f rows)
map-Known key view f rows keeps (row, found, i, o, r, a) =
    let (_, i', o', r', a') = keeps row in
    (f row, find-map key f rows row keeps found, i' ∙ i, o' ∙ o, r' ∙ r, a' ∙ a)

rewrite-KeepsIdentity :
    (p : ProposalRow → Bool) (f : ProposalRow → ProposalRow)
    → KeepsIdentity f
    → KeepsIdentity (rewrite_row p f)
rewrite-KeepsIdentity p f keeps row = elim (Bool-cases (p row)) [
  | inl t ↦ rw t (keeps row)
  | inr n ↦ rw n (refl, refl, refl, refl, refl)
]

transition-Known :
    (key : String) (view : ProposalView) (c : ProposalRow → Bool) (f : ProposalRow → ProposalRow)
    (id : String) (tables : Tables)
    → KeepsIdentity f
    → Known key view tables.proposals
    → Known key view (after_ok (transition c f id tables) tables).proposals
unfolding transition
transition-Known key view c f id tables keeps known =
    elim (Option-cases (find? (selects id c) tables.proposals)) [
      | inl e ↦ rw e known
      | inr (row, e) ↦ rw e (
          map-Known key view (rewrite_row (selects id c) f) tables.proposals
            (rewrite-KeepsIdentity (selects id c) f keeps) known)
    ]

review-Known :
    (key : String) (view : ProposalView) (is_blank : String → Bool) (now : ℕ) (id : String)
    (action : Action) (tables : Tables)
    → Known key view tables.proposals
    → Known key view (after_ok (review is_blank now id action tables) tables).proposals
unfolding review approve_proposal reject_proposal appeal_proposal mark_executed
review-Known key view is_blank now id (approves reviewer) tables known =
    transition-Known key view _ _ id tables (λ row. (refl, refl, refl, refl, refl)) known
review-Known key view is_blank now id (rejects reviewer) tables known =
    transition-Known key view _ _ id tables (λ row. (refl, refl, refl, refl, refl)) known
review-Known key view is_blank now id appeals tables known =
    transition-Known key view _ _ id tables (λ row. (refl, refl, refl, refl, refl)) known
review-Known key view is_blank now id (executes tx_hash) tables known =
    elim (Result-cases (execute_proposal is_blank id tx_hash tables)) [
      | inr (e, failed) ↦ rw failed known
      | inl ((v, after), done) ↦ rw done (
          subst (Known key view) (executed_rows is_blank id tx_hash tables done) (
            map-Known key view (rewrite_row (has_id id) (mark_executed tx_hash)) tables.proposals
              (rewrite-KeepsIdentity (has_id id) (mark_executed tx_hash) (marked tx_hash)) known))
    ]
  where
    marked : (tx : String) → KeepsIdentity (mark_executed tx)
    marked tx row = (refl, refl, refl, refl, refl)

create-found :
    (key : String) (row : ProposalRow) (policy : StakingPolicy) (now : ℕ) (id operator : String)
    (finding : SlashableFinding) (tables : Tables)
    → find? (has_key key) tables.proposals ≡ some row
    → find? (has_key key) (create_proposal policy now id operator finding tables).1.proposals
      ≡ some row
unfolding create_proposal open_proposal
create-found key row policy now id operator finding tables found =
    elim (Option-cases (lookup string_discrete operator tables.bonds)) [
      | inl e ↦ ground (arith, e)
      | inr (bond, e) ↦
          elim (Option-cases (find? (has_key (evidence_key_of finding)) tables.proposals)) [
            | inr (old, d) ↦ ground (arith, e, d)
            | inl new ↦
                let amount =
                  slash_amount_for (at_stake operator bond.bonded_amount tables)
                    (policy.slash_bps finding.reason) in
                ground (
                  arith,
                  e,
                  new,
                  find?-append_some (has_key key) tables.proposals
                      (new_proposal policy now id operator finding amount ∷ []) row found,
                )
          ]
    ]

record_bond-proposals :
    (now : ℕ) (operator : String) (amount : Input) (tables : Tables)
    → (or_same (record_bond now operator amount tables) tables).proposals ≡ tables.proposals
unfolding record_bond
record_bond-proposals now operator amount tables = elim (Result-cases (parse_amount amount)) [
  | inl (a, e) ↦ rw e refl
  | inr (why, e) ↦ rw e refl
]

request_unbond-proposals :
    (policy : StakingPolicy) (now : ℕ) (id operator : String) (amount : Input) (tables : Tables)
    → (after_ok (request_unbond policy now id operator amount tables) tables).proposals
      ≡ tables.proposals
unfolding request_unbond debit_bond
request_unbond-proposals policy now id operator amount tables =
    elim (Result-cases (parse_amount amount)) [
      | inr (why, e) ↦ rw e refl
      | inl (a, e) ↦ elim (Result-cases (lock_bond operator tables)) [
        | inr (why, d) ↦ rw (e, d) refl
        | inl (bond, d) ↦ elim (Bool-cases (leb a bond.bonded_amount)) [
          | inl t ↦ rw (e, d, t) refl
          | inr f ↦ rw (e, d, f) refl
        ]
      ]
    ]

withdraw-proposals :
    (now : ℕ) (operator : String) (tables : Tables)
    → (after_ok (withdraw now operator tables) tables).proposals ≡ tables.proposals
unfolding withdraw
withdraw-proposals now operator tables = elim (Result-cases (lock_bond operator tables)) [
  | inr (why, d) ↦ rw d refl
  | inl (bond, d) ↦ elim (Bool-cases (any (is_open_of operator) tables.proposals)) [
    | inl t ↦ rw (d, t) refl
    | inr f ↦ rw (d, f) refl
  ]
]

perform-Known :
    (key : String) (view : ProposalView) (o : Operation) (tables : Tables)
    → Known key view tables.proposals
    → Known key view (perform o tables).proposals
unfolding perform
perform-Known key view (bonds now id amount) tables known =
    subst (Known key view) (sym (record_bond-proposals now id amount tables)) known
perform-Known key view (unbonds policy now id operator amount) tables known =
    subst (Known key view) (sym (request_unbond-proposals policy now id operator amount tables))
      known
perform-Known key view (withdraws now operator) tables known =
    subst (Known key view) (sym (withdraw-proposals now operator tables)) known
perform-Known key view (creates policy now id operator finding) tables known =
    let (row, found, i, o, r, a) = known in
    (row, create-found key row policy now id operator finding tables found, i, o, r, a)
perform-Known key view (reviews is_blank now id action) tables known =
    review-Known key view is_blank now id action tables known

perform_all-Known :
    (key : String) (view : ProposalView) (os : List Operation) (tables : Tables)
    → Known key view tables.proposals
    → Known key view (perform_all os tables).proposals
unfolding perform_all
perform_all-Known key view [] tables known = known
perform_all-Known key view (o ∷ os) tables known =
    perform_all-Known key view os (perform o tables) (perform-Known key view o tables known)

-- Once a call has answered a proposal, and whatever bonds, unbondings, withdrawals, proposals and
-- reviews follow, failed ones included, any later call with the same finding, for an operator
-- that has a bond by then, answers the proposal of the same id, operator, reason and amount and
-- leaves the tables unchanged.
pub create_proposal_again :
    (policy policy' : StakingPolicy) (now later : ℕ) (id id' operator_id operator_id' : String)
    (finding : SlashableFinding) (tables : Tables) (view : ProposalView) (os : List Operation)
    (bond : BondRow)
    → (create_proposal policy now id operator_id finding tables).0 ≡ some view
    → let after = perform_all os (create_proposal policy now id operator_id finding tables).1 in
      lookup string_discrete operator_id' after.bonds ≡ some bond
      → let after = perform_all os (create_proposal policy now id operator_id finding tables).1 in
        (again : ProposalView) × (create_proposal policy' later id' operator_id' finding after
          ≡ (some again, after))
        × (again.id ≡ view.id)
        × (again.operator_id ≡ view.operator_id)
        × (again.reason ≡ view.reason)
        × (again.amount ≡ view.amount)
unfolding to_proposal_view
create_proposal_again policy policy' now later id id' operator operator' finding tables view os bond
      h b =
    let created = (create_proposal policy now id operator finding tables).1 in
    let (row, found, same) = created_row policy now id operator finding tables view h in
    let (kept, known, i, o, r, a) = perform_all-Known (evidence_key_of finding) view os created (
      row,
      found,
      ap (λ v. v.id) same,
      ap (λ v. v.operator_id) same,
      ap (λ v. v.reason) same,
      ap (λ v. v.amount) same,
    ) in
    (
      to_proposal_view kept,
      create_existing policy' later id' operator' finding (perform_all os created) bond kept b
          known,
      i,
      o,
      r,
      a,
    )
