-- ===== src/Disputes/Update.antt =====
-- What a transition's update does to the rows.
use refract_backend.Prelude.{
  ap, some, none, Option, ◌&&◌, not, inr, inl, ◌⊎◌, subst, sym, if_intro, Bool-cases, if◌then◌else◌,
  false, true, refl, ◌≡◌, String, ℕ, arith,
}
use refract_backend.Disputes.{
  is_under_review, or_keep, is_withdrawn, DisputeStatus, same_status, value_or, bond_on_resolution,
  withdrawn, is_open_status, open_status, posted, upheld, reversed, BondStatus,
  TransitionDisputeInput, can_move, under_review, is_reversed, DisputeRow,
}
use refract_backend.Disputes.Moves.{has_text}
use refract_backend.Disputes.Consistency.{is_some, RowOk}
use refract_backend.Disputes.Rows.{is_row, moved_row, update_row}

can_move-open : (from to : DisputeStatus) → can_move from to ≡ true → is_open_status from ≡ true
unfolding can_move
can_move-open open_status to h = refl
can_move-open under_review to h = refl
can_move-open upheld to h = absurd (ground arith)
can_move-open reversed to h = absurd (ground arith)
can_move-open withdrawn to h = absurd (ground arith)

same_status-open :
    (a b : DisputeStatus) → same_status a b ≡ true → is_open_status a ≡ is_open_status b
same_status-open a b h = ground arith

same_status-eq : (a b : DisputeStatus) → same_status a b ≡ true → a ≡ b
same_status-eq a b h = ground arith

-- The bond of the next status, from an open one.
bond_moves :
    (from to : DisputeStatus) (bond : BondStatus)
    → can_move from to ≡ true
    → bond ≡ value_or (bond_on_resolution from) posted
    → value_or (bond_on_resolution to) bond ≡ value_or (bond_on_resolution to) posted
unfolding can_move bond_on_resolution
bond_moves from to bond h k = ground arith

time_moves :
    (from to : DisputeStatus) (now : ℕ) (old : Option ℕ)
    → can_move from to ≡ true
    → is_some old ≡ not (is_open_status from)
    → is_some (if is_under_review to then old else some now) ≡ not (is_open_status to)
unfolding can_move
time_moves from to now old h k = ground arith

replacement_moves :
    (from to : DisputeStatus) (old new : Option String)
    → can_move from to ≡ true
    → (is_reversed to ≡ true → has_text new ≡ true)
    → is_some old ≡ is_reversed from
    → is_some (or_keep (if is_reversed to then new else none) old) ≡ is_reversed to
unfolding can_move
replacement_moves from to old new h given k = ground arith

module _ (now : ℕ) (input : TransitionDisputeInput) where
  moved_row-RowOk :
      (r : DisputeRow)
      → can_move r.status input.to ≡ true
      → (is_reversed input.to ≡ true → has_text input.replacement_decision_id ≡ true)
      → RowOk r
      → RowOk (moved_row now input r)
  unfolding moved_row can_move
  moved_row-RowOk r h given (bond, time, replacement) = (
    bond_moves r.status input.to r.bond_status h bond,
    time_moves r.status input.to now r.resolved_at h time,
    replacement_moves r.status input.to r.replacement_decision_id input.replacement_decision_id h
        given replacement,
  )

  module _ (id : String) (row : DisputeRow) (allowed : can_move row.status input.to ≡ true) where
    abbrev pub update : DisputeRow → DisputeRow
    update r = update_row now id row.status input r

    -- A row is the one that moves, or stays.
    pub update_intro {κ} :
        (P : DisputeRow → Type κ) (r : DisputeRow)
        → (is_row id r ≡ true → same_status r.status row.status ≡ true → P (moved_row now input r))
        → P r
        → P (update r)
    update_intro P r h k =
        if_intro P (is_row id r && same_status r.status row.status)
          (λ e. h (ground arith) (ground arith)) (λ _. k)

    pub update-final : (r : DisputeRow) → is_open_status r.status ≡ false → update r ≡ r
    update-final r h =
        update_intro (λ q. q ≡ r) r
          (λ _ e. absurd (
            ground (
              arith,
              same_status-open r.status row.status e,
              can_move-open row.status input.to allowed,
            )))
          refl

    pub update-id : (r : DisputeRow) → (update r).id ≡ r.id
    unfolding moved_row
    update-id r = update_intro (λ q. q.id ≡ r.id) r (λ _ _. refl) refl

    pub update-decision_id : (r : DisputeRow) → (update r).decision_id ≡ r.decision_id
    unfolding moved_row
    update-decision_id r = update_intro (λ q. q.decision_id ≡ r.decision_id) r (λ _ _. refl) refl

    pub update-RowOk :
        (is_reversed input.to ≡ true → has_text input.replacement_decision_id ≡ true)
        → (r : DisputeRow) → RowOk r
        → RowOk (update r)
    update-RowOk given r h =
        update_intro RowOk r
          (λ _ e.
            moved_row-RowOk r
              (subst (λ s. can_move s input.to ≡ true) (sym (same_status-eq r.status row.status e))
                allowed)
              given h)
          h

    -- A row that is withdrawn after the update may not have been so before; the converse holds.
    pub update-live :
        (r : DisputeRow) → is_withdrawn (update r).status ≡ false → is_withdrawn r.status ≡ false
    update-live r h = elim (Bool-cases (is_open_status r.status)) [
      | inl e ↦ ground arith
      | inr e ↦ subst (λ q. is_withdrawn q.status ≡ false) (update-final r e) h
    ]

    -- What is reversed after the update was so before, or is the row that moved_row.
    pub update-reversed :
        (r : DisputeRow)
        → is_reversed (update r).status ≡ true
        → (is_reversed r.status ≡ true) ⊎ ((is_reversed input.to ≡ true) × (is_row id r ≡ true))
    unfolding moved_row
    update-reversed r =
        update_intro
          (λ q.
            is_reversed q.status ≡ true
            → (is_reversed r.status ≡ true)
              ⊎ ((is_reversed input.to ≡ true) × (is_row id r ≡ true)))
          r (λ e _ h. inr (h, e)) (λ h. inl h)

    -- The row itself takes the new status.
    pub update-status : is_row id row ≡ true → (update row).status ≡ input.to
    unfolding moved_row
    update-status h =
        let selected : is_row id row && same_status row.status row.status ≡ true = ground arith in
        ap (λ b. (if b then moved_row now input row else row).status) selected
