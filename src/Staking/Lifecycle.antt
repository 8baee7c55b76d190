-- ===== src/Staking/Lifecycle.antt =====
-- The life of a slashing proposal of src/services/staking.ts, as a step relation that each review
-- of the service follows.
use refract_backend.Prelude.{
  ℕ, ◌≡◌, refl, sym, subst, ◌⊎◌, inl, inr, ◌≢◌, String, Bool, true, Option, some, List, [], ◌∷◌,
  map, arith, string_discrete, find?, any, none, All, Result, ok, Bool-cases, Option-cases,
}
use refract_backend.Staking.{
  ProposalStatus, pending_review, pending_appeal, approved, rejected, executed, ProposalRow,
  ProposalView, Tables, StakingError,
}
use refract_backend.Staking.Bonds.{debit_bond}
use refract_backend.Staking.Review.{
  approve_proposal, reject_proposal, appeal_proposal, execute_proposal, transition, selects,
  can_approve, can_reject, rewrite_row, charge, has_id, mark_executed, can_appeal,
}

-- The life of a proposal. An appeal window that is open is left by an appeal or a rejection only.
infix 40 ◌⟶◌
pub data ◌⟶◌ : ProposalStatus → ProposalStatus → Type 0 where
  approve_reviewed : pending_review ⟶ approved
  approve_unappealed : pending_appeal ⟶ approved
  reject_reviewed : pending_review ⟶ rejected
  reject_appealable : pending_appeal ⟶ rejected
  appeal : pending_appeal ⟶ pending_review
  execute : approved ⟶ executed

-- A row that a review may have rewritten: its status, its appeal window, its reviewer and its
-- transaction are new, and nothing else is.
abbrev pub Rewritten : ProposalRow → ProposalRow → Type 0
Rewritten r s = s ≡ record r {
  status = s.status;
  appeal_until = s.appeal_until;
  reviewed_by = s.reviewed_by;
  execution_tx_hash = s.execution_tx_hash;
}

-- The row of the id moves along the diagram, and each other row stays as it is.
abbrev pub Moves : String → List ProposalRow → List ProposalRow → Type 0
Moves id [] [] = Unit {0}
Moves id (r ∷ rs) (s ∷ ss) =
    (((r.id ≢ id) × (r ≡ s)) ⊎ ((r.id ≡ id) × (r.status ⟶ s.status) × Rewritten r s))
    × Moves id rs ss
Moves id _ _ = ⊥

-- The four reviews of a proposal.
pub data Action : Type 0 where
  approves rejects : String → Action
  appeals : Action
  executes : String → Action

-- A review of the proposal `id` at the time `now`.
unfoldable pub review :
    (String → Bool) → ℕ → String → Action → Tables → Result StakingError (ProposalView × Tables)
review is_blank now id (approves reviewer) tables = approve_proposal now id reviewer tables
review is_blank now id (rejects reviewer) tables = reject_proposal id reviewer tables
review is_blank now id appeals tables = appeal_proposal now id tables
review is_blank now id (executes tx_hash) tables = execute_proposal is_blank id tx_hash tables

-- `id` is the primary key of `slashing_proposals`.
abbrev pub HasUniqueProposals : List ProposalRow → Type 0
HasUniqueProposals [] = Unit {0}
HasUniqueProposals (row ∷ rows) = All (λ r. r.id ≢ row.id) rows × HasUniqueProposals rows

can_approve-⟶ :
    (now : ℕ) (status : ProposalStatus) (appeal_until : Option ℕ)
    → can_approve now status appeal_until ≡ true
    → status ⟶ approved
can_approve-⟶ now pending_review a h = approve_reviewed
can_approve-⟶ now pending_appeal a h = approve_unappealed
can_approve-⟶ now approved a h = cc
can_approve-⟶ now rejected a h = cc
can_approve-⟶ now executed a h = cc

can_reject-⟶ : (status : ProposalStatus) → can_reject status ≡ true → status ⟶ rejected
can_reject-⟶ pending_review h = reject_reviewed
can_reject-⟶ pending_appeal h = reject_appealable
can_reject-⟶ approved h = cc
can_reject-⟶ rejected h = cc
can_reject-⟶ executed h = cc

can_appeal-⟶ :
    (now : ℕ) (status : ProposalStatus) (appeal_until : Option ℕ)
    → can_appeal now status appeal_until ≡ true
    → status ⟶ pending_review
can_appeal-⟶ now pending_appeal a h = appeal
can_appeal-⟶ now pending_review a h = cc
can_appeal-⟶ now approved a h = cc
can_appeal-⟶ now rejected a h = cc
can_appeal-⟶ now executed a h = cc

absent-find :
    (id : String) (c : ProposalRow → Bool) (rows : List ProposalRow)
    → All (λ r. r.id ≢ id) rows
    → find? (selects id c) rows ≡ none
absent-find id c [] h = refl
absent-find id c (row ∷ rows) (ne, h) = ground (arith, absent-find id c rows h)

-- The row that is found is the only one of the id.
abbrev Only : String → ProposalRow → List ProposalRow → Type 0
Only id found = All (λ row. row.id ≡ id → row ≡ found)

absent-Only :
    (id : String) (found : ProposalRow) (rows : List ProposalRow)
    → All (λ r. r.id ≢ id) rows
    → Only id found rows
absent-Only id found [] h = tt
absent-Only id found (row ∷ rows) (ne, h) = (λ e. absurd (ne e), absent-Only id found rows h)

find-Only :
    (id : String) (c : ProposalRow → Bool) (rows : List ProposalRow) (found : ProposalRow)
    → HasUniqueProposals rows
    → find? (selects id c) rows ≡ some found
    → (c found ≡ true) × (any (has_id id) rows ≡ true) × Only id found rows
find-Only id c [] found u h = absurd (ground arith)
find-Only id c (row ∷ rows) found (fresh, u) h = elim (string_discrete row.id id) [
  | yes p ↦
      let gone = subst (λ i. All (λ r. r.id ≢ i) rows) p fresh in
      elim (Bool-cases (c row)) [
        | inl t ↦ (ground arith, ground arith, (λ _. ground arith, absent-Only id found rows gone))
        | inr f ↦ absurd (ground (arith, absent-find id c rows gone))
      ]
  | no p ↦
      let (holds, some_row, only) = find-Only id c rows found u (ground arith) in
      (holds, ground arith, (λ e. absurd (p e), only))
]

rewrite-Moves :
    (id : String) (c : ProposalRow → Bool) (f : ProposalRow → ProposalRow) (rows : List ProposalRow)
    (found : ProposalRow)
    → c found ≡ true
    → found.status ⟶ (f found).status
    → Rewritten found (f found)
    → Only id found rows
    → Moves id rows (map (rewrite_row (selects id c) f) rows)
rewrite-Moves id c f [] found holds moves kept only = tt
rewrite-Moves id c f (row ∷ rows) found holds moves kept (one, only) =
    let rest = rewrite-Moves id c f rows found holds moves kept only in
    elim (string_discrete row.id id) [
      | no p ↦ (inl (p, ground arith), rest)
      | yes p ↦
          let picked : rewrite_row (selects id c) f row ≡ f found = ground (arith, one p) in
          (
            inr (
              p,
              subst (λ s. row.status ⟶ s.status) (sym picked)
                  (subst (λ r. r.status ⟶ (f found).status) (sym (one p)) moves),
              subst (Rewritten row) (sym picked)
                  (subst (λ r. Rewritten r (f found)) (sym (one p)) kept),
            ),
            rest,
          )
    ]

-- What a review does to the rows: there is a row of the id, and it alone moves.
abbrev pub MovesOne : String → List ProposalRow → List ProposalRow → Type 0
MovesOne id rows after = (any (has_id id) rows ≡ true) × Moves id rows after

transition-Moves :
    (c : ProposalRow → Bool) (f : ProposalRow → ProposalRow) (id : String) (tables : Tables)
    {view : ProposalView} {after : Tables}
    → HasUniqueProposals tables.proposals
    → ((row : ProposalRow) → c row ≡ true → row.status ⟶ (f row).status)
    → ((row : ProposalRow) → Rewritten row (f row))
    → transition c f id tables ≡ ok (view, after)
    → MovesOne id tables.proposals after.proposals
unfolding transition
transition-Moves c f id tables {view} {after} u step kept h =
    elim (Option-cases (find? (selects id c) tables.proposals)) [
      | inl e ↦ absurd (ground arith)
      | inr (row, e) ↦
          let same : map (rewrite_row (selects id c) f) tables.proposals ≡ after.proposals =
            ground arith in
          let (holds, some_row, only) = find-Only id c tables.proposals row u e in
          (
            some_row,
            subst (Moves id tables.proposals) same
                (rewrite-Moves id c f tables.proposals row holds (step row holds) (kept row) only),
          )
    ]

pub executed_rows :
    (is_blank : String → Bool) (id tx_hash : String) (tables : Tables) {view : ProposalView}
    {after : Tables}
    → execute_proposal is_blank id tx_hash tables ≡ ok (view, after)
    → map (rewrite_row (has_id id) (mark_executed tx_hash)) tables.proposals ≡ after.proposals
unfolding execute_proposal charge debit_bond
executed_rows is_blank id tx_hash tables h = ground arith

execute-Moves :
    (is_blank : String → Bool) (id tx_hash : String) (tables : Tables) {view : ProposalView}
    {after : Tables}
    → HasUniqueProposals tables.proposals
    → execute_proposal is_blank id tx_hash tables ≡ ok (view, after)
    → MovesOne id tables.proposals after.proposals
unfolding execute_proposal mark_executed
execute-Moves is_blank id tx_hash tables {view} {after} u h =
    elim (Option-cases (find? (has_id id) tables.proposals)) [
      | inl e ↦ absurd (ground arith)
      | inr (proposal, e) ↦
          let status : proposal.status ≡ approved = ground arith in
          let same : map (rewrite_row (has_id id) (mark_executed tx_hash)) tables.proposals
              ≡ after.proposals =
            executed_rows is_blank id tx_hash tables h in
          let (holds, some_row, only) = find-Only id (λ row. true) tables.proposals proposal u e in
          (
            some_row,
            subst (Moves id tables.proposals) same (
                rewrite-Moves id (λ row. true) (mark_executed tx_hash) tables.proposals proposal
                  holds (subst (λ s. s ⟶ executed) (sym status) execute) refl only),
          )
    ]

-- With unique proposal ids, an approval, rejection, appeal or execution that succeeds found a
-- proposal of its id, moves that proposal one step along the diagram of its life, changes nothing
-- else of it but its appeal window, reviewer and transaction, and leaves every other row as it
-- is; so only an approved proposal is executed, and an executed or rejected one never changes.
pub review-Moves :
    (is_blank : String → Bool) (now : ℕ) (id : String) (action : Action) (tables : Tables)
    {view : ProposalView} {after : Tables}
    → HasUniqueProposals tables.proposals
    → review is_blank now id action tables ≡ ok (view, after)
    → MovesOne id tables.proposals after.proposals
unfolding review approve_proposal reject_proposal appeal_proposal
review-Moves is_blank now id (approves reviewer) tables u h =
    transition-Moves (λ row. can_approve now row.status row.appeal_until) _ id tables u
      (λ row. can_approve-⟶ now row.status row.appeal_until) (λ row. refl) h
review-Moves is_blank now id (rejects reviewer) tables u h =
    transition-Moves (λ row. can_reject row.status) _ id tables u (λ row. can_reject-⟶ row.status)
      (λ row. refl) h
review-Moves is_blank now id appeals tables u h =
    transition-Moves (λ row. can_appeal now row.status row.appeal_until) _ id tables u
      (λ row. can_appeal-⟶ now row.status row.appeal_until) (λ row. refl) h
review-Moves is_blank now id (executes tx_hash) tables u h =
    execute-Moves is_blank id tx_hash tables u h
