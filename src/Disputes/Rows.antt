-- ===== src/Disputes/Rows.antt =====
-- The statements that the service runs, with the constraints of the tables.
use refract_backend.Prelude.{
  ok, Result, ◌>>◌, guard, ltb, find?, any, ◌∷◌, List, some, none, Option, ◌||◌, ◌&&◌, not, false,
  Bool, String, same, if◌then◌else◌, ℕ,
}
use refract_backend.Disputes.{
  same_status, is_reversed, TransitionDisputeInput, is_under_review, DisputeError,
  bond_on_resolution, DisputeTables, Settlement, DisputeStatus, Reversal, value_or, conflict,
  check_violation, or_keep, is_withdrawn, DisputeRow,
}

abbrev pub settlement_of : String → List Settlement → Option Settlement
settlement_of decision = find? (λ s. same s.decision_id decision)

abbrev pub is_row : String → DisputeRow → Bool
is_row id r = same r.id id

abbrev pub is_live_on : String → DisputeRow → Bool
is_live_on decision r = same r.decision_id decision && not (is_withdrawn r.status)

-- The insert, which the primary key and `idx_claim_disputes_live_decision` can refuse.
unfoldable pub insert_dispute : DisputeRow → DisputeTables → Result DisputeError DisputeTables
insert_dispute row t =
    guard
      (not (any (is_row row.id) t.disputes) && not (any (is_live_on row.decision_id) t.disputes))
      conflict
    >> ok (record t { disputes = row ∷ t.disputes })

-- The insert: the amount is positive, and a dispute and a decision are in the table at most once.
unfoldable pub insert_reversal : Reversal → DisputeTables → Result DisputeError DisputeTables
insert_reversal v t =
    guard (ltb 0 v.amount) check_violation
    >> guard
        (not (
          any (λ w. same w.dispute_id v.dispute_id || same w.decision_id v.decision_id)
            t.reversals))
        conflict
    >> ok (record t { reversals = v ∷ t.reversals })

-- A decision that is taken by the unique column, and one that is the disputed decision itself.
abbrev pub is_replacement : Option String → DisputeRow → Bool
is_replacement none r = false
is_replacement (some replacement) r = elim r.replacement_decision_id [
  | none ↦ false
  | some taken ↦ same taken replacement
]

abbrev pub is_own : Option String → String → Bool
is_own none decision = false
is_own (some replacement) decision = same replacement decision

-- The update of a row.
unfoldable pub moved_row : ℕ → TransitionDisputeInput → DisputeRow → DisputeRow
moved_row now input r = record r {
  status = input.to;
  resolution_note = or_keep input.note r.resolution_note;
  replacement_decision_id =
      or_keep (if is_reversed input.to then input.replacement_decision_id else none)
        r.replacement_decision_id;
  bond_status = value_or (bond_on_resolution input.to) r.bond_status;
  resolved_at = if is_under_review input.to then r.resolved_at else some now;
}

-- `WHERE id = $1 AND status = $7`.
abbrev pub update_row :
    ℕ → String → DisputeStatus → TransitionDisputeInput → DisputeRow → DisputeRow
update_row now id from input r =
    if is_row id r && same_status r.status from then moved_row now input r else r
