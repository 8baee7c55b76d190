-- ===== src/Tests/Disputes.antt =====
-- src/claim/dispute/dispute.service.ts at concrete inputs.
use refract_backend.Prelude.{
  ok, err, any, some, none, ◌&&◌, not, true, Bool, refl, ◌≡◌, String, ◌*◌, ◌+◌, string_discrete,
  ◌∷◌, [], ℕ,
}
use refract_backend.Disputes.Lifecycle.{Steps-Consistent}
use refract_backend.Disputes.Consistency.{moves, then_step, opens, Consistent, done, Steps}
use refract_backend.Disputes.{
  TransitionDisputeInput, window_hours_for, conflict, OpenDisputeInput, under_review, can_move,
  bond_on_resolution, returned, is_open_status, reversed, DisputeRow, DisputeTables, confirmed,
  Settlement,
}
use refract_backend.Disputes.Moves.{
  book_owed, update_dispute, transition_dispute, book_reversal, open_dispute, reversal_of,
  new_dispute,
}
use refract_backend.Disputes.Rows.{moved_row, insert_dispute, insert_reversal}
use refract_backend.Prelude.Dict.{Dict}

abbrev paid : Settlement
paid = record {
  decision_id = "d1";
  policy_id = "p1";
  coverage_type = "flight_delay";
  status = confirmed;
  amount = 500;
  created_at = 1000;
}

abbrev start : DisputeTables
start = record { settlements = paid ∷ []; disputes = []; reversals = [] }

abbrev challenge : OpenDisputeInput
challenge = record { decision_id = "d1"; reason = "late"; bond_reference = "b1"; actor = "alice" }

abbrev review : TransitionDisputeInput
review = record { to = under_review; note = none; replacement_decision_id = none; actor = "bob" }

abbrev reverse_it : TransitionDisputeInput
reverse_it = record {
  to = reversed;
  note = some "recomputed";
  replacement_decision_id = some "d2";
  actor = "bob";
}

abbrev any_id : String → Bool
any_id s = true

abbrev windows : Dict String ℕ
windows = []

abbrev opened_row : DisputeRow
opened_row = new_dispute "u1" challenge paid (1000 + 72 * 3600)

abbrev opened_tables : DisputeTables
opened_tables = record start { disputes = opened_row ∷ [] }

abbrev reviewed_row : DisputeRow
reviewed_row = record opened_row { status = under_review }

abbrev reviewed_tables : DisputeTables
reviewed_tables = record start { disputes = reviewed_row ∷ [] }

abbrev reversed_tables : DisputeTables
reversed_tables = record start {
  disputes =
      record opened_row {
        status = reversed;
        bond_status = returned;
        resolution_note = some "recomputed";
        replacement_decision_id = some "d2";
        resolved_at = some 3000;
      }
      ∷ [];
  reversals = reversal_of "u1" opened_row paid ∷ [];
}

opened_run : open_dispute windows 2000 "u1" challenge start ≡ ok opened_tables
unfolding open_dispute insert_dispute window_hours_for string_discrete
opened_run = refl

reviewed_run : transition_dispute any_id 2500 "u1" review opened_tables ≡ ok reviewed_tables
unfolding transition_dispute book_reversal update_dispute moved_row can_move bond_on_resolution
    string_discrete
reviewed_run = refl

reversed_run : transition_dispute any_id 3000 "u1" reverse_it reviewed_tables ≡ ok reversed_tables
unfolding transition_dispute book_reversal book_owed insert_reversal update_dispute moved_row
    can_move bond_on_resolution string_discrete
reversed_run = refl

-- A second challenge of the decision is refused.
reopened_run : open_dispute windows 2000 "u2" challenge reversed_tables ≡ err conflict
unfolding open_dispute insert_dispute window_hours_for string_discrete
reopened_run = refl

whole_run : Steps any_id windows start reversed_tables
whole_run = then_step (opens 2000 "u1" challenge opened_run) (
    then_step (moves 2500 "u1" review reviewed_run)
      (then_step (moves 3000 "u1" reverse_it reversed_run) done))

nothing_yet : Consistent start
nothing_yet = record { rows = tt; ids = tt; apart = tt; once = tt; booked = tt; owed_for = tt }

Steps-Consistent_example :
    Consistent reversed_tables
    × ((p : DisputeRow → Bool)
        → any (λ r. p r && not (is_open_status r.status)) start.disputes ≡ true
        → any (λ r. p r && not (is_open_status r.status)) reversed_tables.disputes ≡ true)
Steps-Consistent_example = Steps-Consistent any_id windows whole_run nothing_yet
