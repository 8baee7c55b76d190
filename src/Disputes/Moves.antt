-- ===== src/Disputes/Moves.antt =====
-- The two handlers that change the tables, `open` and `transition`, and the answer that follows.
use refract_backend.Prelude.{
  ◌>>=◌, or_fail, guard, ◌>>◌, Result, ok, any, length, find?, keep, map, some, none, Option, ◌&&◌,
  not, false, Bool, String, ◌*◌, ◌+◌, same, if◌then◌else◌, leb, ℕ,
}
use refract_backend.Disputes.{
  not_found, is_reversed, OpenDisputeInput, Settlement, posted, bad_request, same_status, conflict,
  check_violation, DisputeError, open_status, owed, can_move, is_in_flight, has_paid_out,
  window_hours_for, ReversalStatus, is_open_status, DisputeTables, Reversal, TransitionDisputeInput,
  DisputeRow,
}
use refract_backend.Disputes.Rows.{
  update_row, is_own, is_replacement, insert_reversal, is_row, settlement_of, insert_dispute,
}
use refract_backend.Prelude.Dict.{Dict}

abbrev pub new_dispute : String → OpenDisputeInput → Settlement → ℕ → DisputeRow
new_dispute id input settlement closes = record {
  id = id;
  decision_id = input.decision_id;
  policy_id = settlement.policy_id;
  status = open_status;
  reason = input.reason;
  bond_reference = input.bond_reference;
  bond_status = posted;
  opened_by = input.actor;
  window_closes_at = closes;
  resolution_note = none;
  replacement_decision_id = none;
  resolved_at = none;
}

-- When the window of a settlement closes.
abbrev pub closes_at : Dict String ℕ → Settlement → ℕ
closes_at windows s = s.created_at + window_hours_for windows s.coverage_type * 3600

unfoldable pub open_dispute :
    Dict String ℕ
    → ℕ
    → String
    → OpenDisputeInput
    → DisputeTables
    → Result DisputeError DisputeTables
open_dispute windows now id input t =
    or_fail (settlement_of input.decision_id t.settlements) not_found >>= λ s.
    guard (not (is_in_flight s.status)) conflict
    >> guard (has_paid_out s.status) conflict
    >> guard (not (leb (closes_at windows s) now)) conflict
    >> insert_dispute (new_dispute id input s (closes_at windows s)) t

abbrev pub has_text : Option String → Bool
has_text none = false
has_text (some s) = not (same s "")

-- The reversal that is owed for a settlement.
abbrev pub reversal_of : String → DisputeRow → Settlement → Reversal
reversal_of id row s = record {
  dispute_id = id;
  decision_id = row.decision_id;
  policy_id = row.policy_id;
  amount = s.amount;
  status = owed;
}

unfoldable pub book_owed :
    String
    → TransitionDisputeInput
    → DisputeRow
    → Settlement
    → DisputeTables
    → Result DisputeError DisputeTables
book_owed id input row s t =
    guard (has_text input.replacement_decision_id) bad_request
    >> guard (has_paid_out s.status) conflict
    >> insert_reversal (reversal_of id row s) t

-- The branch `input.to === "reversed"`.
unfoldable pub book_reversal :
    String
    → TransitionDisputeInput
    → DisputeRow
    → Settlement
    → DisputeTables
    → Result DisputeError DisputeTables
book_reversal id input row s t = if is_reversed input.to then book_owed id input row s t else ok t

-- The replacement that the update writes.
abbrev pub replacement_of : TransitionDisputeInput → Option String
replacement_of input = if is_reversed input.to then input.replacement_decision_id else none

unfoldable pub update_dispute :
    ℕ
    → String
    → TransitionDisputeInput
    → DisputeRow
    → DisputeTables
    → Result DisputeError DisputeTables
update_dispute now id input row t =
    guard (not (is_own (replacement_of input) row.decision_id)) check_violation
    >> guard (not (any (is_replacement (replacement_of input)) t.disputes)) conflict
    >> guard (any (λ r. is_row id r && same_status r.status row.status) t.disputes) conflict
    >> ok (record t { disputes = map (update_row now id row.status input) t.disputes })

module _ (is_uuid : String → Bool) where
  unfoldable pub transition_dispute :
      ℕ → String → TransitionDisputeInput → DisputeTables → Result DisputeError DisputeTables
  transition_dispute now id input t =
      guard (is_uuid id) not_found
      >> (or_fail (find? (is_row id) t.disputes) not_found >>= λ row.
          or_fail (settlement_of row.decision_id t.settlements) not_found >>= λ s.
          guard (can_move row.status input.to) conflict
          >> (book_reversal id input row s t >>= update_dispute now id input row))

-- `DisputeRecord`: the row, with its policy's coverage type and what is owed for a reversal.
pub record DisputeRecord : Type 0 where
  pub dispute : DisputeRow
  pub coverage_type : String
  pub reversal : Option (ℕ × ReversalStatus)

unfoldable pub to_record : DisputeRow → String → Option Reversal → DisputeRecord
to_record row coverage found = record {
  dispute = row;
  coverage_type = coverage;
  reversal = elim found [ none ↦ none | some v ↦ some (v.amount, v.status) ];
}

unfoldable pub get_dispute :
    (String → Bool) → String → DisputeTables → Result DisputeError DisputeRecord
get_dispute is_uuid id t =
    guard (is_uuid id) not_found
    >> (or_fail (find? (is_row id) t.disputes) not_found >>= λ row.
        or_fail (settlement_of row.decision_id t.settlements) not_found >>= λ s.
        ok (to_record row s.coverage_type (find? (λ v. same v.dispute_id id) t.reversals)))

-- What `refreshOpenGauge` counts.
abbrev pub open_count : DisputeTables → ℕ
open_count t = length (keep (λ r. is_open_status r.status) t.disputes)
