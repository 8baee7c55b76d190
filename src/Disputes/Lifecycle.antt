-- ===== src/Disputes/Lifecycle.antt =====
-- Every request keeps the tables consistent, and what was decided stays decided.
use refract_backend.Prelude.{
  ok, then_ok, or_fail, ok_inj, bind_ok, guard, checked_ok, ◌>>◌, any, map, ◌&&◌, not, true, Bool,
  inr, inl, subst, ap, sym, refl, ◌≡◌, String, leb, ℕ, arith,
}
use refract_backend.Disputes.{
  Settlement, DisputeTables, is_in_flight, TransitionDisputeInput, is_open_status, OpenDisputeInput,
  has_paid_out, bond_on_resolution, conflict, not_found, DisputeRow,
}
use refract_backend.Disputes.Moves.{
  new_dispute, transition_dispute, open_dispute, book_reversal, closes_at,
}
use refract_backend.Disputes.Update.{update-final}
use refract_backend.Disputes.Inserts.{settles-Consistent, any-map, insert_dispute-Consistent}
use refract_backend.Disputes.Consistency.{
  moves, done, Consistent, then_step, Step, Steps, settles, RowOk, opens,
}
use refract_backend.Disputes.Transition.{
  book_reversal_cases, transition_dispute-Consistent, transition_parts,
}
use refract_backend.Disputes.Rows.{settlement_of, insert_dispute, is_row, is_live_on, update_row}
use refract_backend.Prelude.Dict.{Dict}

-- The dispute that a request opened.
open_parts :
    (windows : Dict String ℕ) (now : ℕ) (id : String) (input : OpenDisputeInput)
    (t u : DisputeTables)
    → open_dispute windows now id input t ≡ ok u
    → (s : Settlement) × (insert_dispute (new_dispute id input s (closes_at windows s)) t ≡ ok u)
unfolding open_dispute
open_parts windows now id input t u h =
    let (s, _, guarded) =
      bind_ok (or_fail (settlement_of input.decision_id t.settlements) not_found) _ h in
    (
      s,
      (then_ok
          (guard (not (is_in_flight s.status)) conflict
            >> guard (has_paid_out s.status) conflict
            >> guard (not (leb (closes_at windows s) now)) conflict)
          (insert_dispute (new_dispute id input s (closes_at windows s)) t) guarded).1,
    )

new_dispute-RowOk :
    (id : String) (input : OpenDisputeInput) (s : Settlement) (closes : ℕ)
    → RowOk (new_dispute id input s closes)
unfolding bond_on_resolution
new_dispute-RowOk id input s closes = (refl, refl, refl)

insert_dispute-keeps :
    (p : DisputeRow → Bool) (row : DisputeRow) (t u : DisputeTables)
    → insert_dispute row t ≡ ok u
    → any p t.disputes ≡ true
    → any p u.disputes ≡ true
unfolding insert_dispute
insert_dispute-keeps p row t u h k =
    let (_, made) =
      checked_ok
        (not (any (is_row row.id) t.disputes) && not (any (is_live_on row.decision_id) t.disputes))
        conflict _ h in
    subst (λ (w : DisputeTables). any p w.disputes ≡ true) (ok_inj made) (ground arith)

abbrev decided : (DisputeRow → Bool) → DisputeRow → Bool
decided p r = p r && not (is_open_status r.status)

book_reversal-disputes :
    (id : String) (input : TransitionDisputeInput) (row : DisputeRow) (s : Settlement)
    (t u : DisputeTables)
    → book_reversal id input row s t ≡ ok u
    → Consistent t
    → u.disputes ≡ t.disputes
book_reversal-disputes id input row s t u h c =
    elim (book_reversal_cases id input row s t u h c.once) [
      | inl (_, tables) ↦ ap (λ (w : DisputeTables). w.disputes) tables
      | inr (_, _, _, _, _, tables, _) ↦ ap (λ (w : DisputeTables). w.disputes) tables
    ]

transition_dispute-keeps :
    (is_uuid : String → Bool) (now : ℕ) (id : String) (input : TransitionDisputeInput)
    (p : DisputeRow → Bool) (t u : DisputeTables)
    → transition_dispute is_uuid now id input t ≡ ok u
    → Consistent t
    → any (decided p) t.disputes ≡ true
    → any (decided p) u.disputes ≡ true
transition_dispute-keeps is_uuid now id input p t u h c k =
    let (row, s, t1, found, allowed, booked, made) = transition_parts is_uuid now id input t u h in
    let rows : t1.disputes ≡ t.disputes = book_reversal-disputes id input row s t t1 booked c in
    subst (λ (w : DisputeTables). any (decided p) w.disputes ≡ true) (sym made)
      (subst (λ rs. any (decided p) (map (update_row now id row.status input) rs) ≡ true) (sym rows)
        (any-map (decided p) (decided p) (update_row now id row.status input) t.disputes
          (λ r e.
            subst (λ q. decided p q ≡ true)
              (sym (update-final now input id row allowed r (ground arith))) e)
          k))

Step-keeps :
    (is_uuid : String → Bool) (windows : Dict String ℕ) {t u : DisputeTables}
    → Step is_uuid windows t u
    → Consistent t
    → Consistent u
      × ((p : DisputeRow → Bool)
          → any (decided p) t.disputes ≡ true
          → any (decided p) u.disputes ≡ true)
Step-keeps is_uuid windows {t} {u} (opens now id input h) c =
    let (s, inserted) = open_parts windows now id input t u h in
    (
      insert_dispute-Consistent (new_dispute id input s (closes_at windows s)) t u inserted refl
          (new_dispute-RowOk id input s (closes_at windows s)) c,
      (λ p.
          insert_dispute-keeps (decided p) (new_dispute id input s (closes_at windows s)) t u
            inserted),
    )
Step-keeps is_uuid windows {t} {u} (moves now id input h) c = (
  transition_dispute-Consistent is_uuid now id input t u h c,
  (λ p. transition_dispute-keeps is_uuid now id input p t u h c),
)
Step-keeps is_uuid windows {t} (settles settlements) c =
    (settles-Consistent t settlements c, (λ p e. e))

-- Requests and settlement writes in any order keep the dispute tables consistent: unique ids, a
-- bond, a time of resolution and a replacement that fit the status, at most one dispute of a
-- decision that is not withdrawn, and one reversal for each reversed dispute, never two for a
-- decision; and a resolved dispute stays as it is.
pub Steps-Consistent :
    (is_uuid : String → Bool) (windows : Dict String ℕ) {t u : DisputeTables}
    → Steps is_uuid windows t u
    → Consistent t
    → Consistent u
      × ((p : DisputeRow → Bool)
          → any (λ r. p r && not (is_open_status r.status)) t.disputes ≡ true
          → any (λ r. p r && not (is_open_status r.status)) u.disputes ≡ true)
Steps-Consistent is_uuid windows done c = (c, (λ p e. e))
Steps-Consistent is_uuid windows (then_step step rest) c =
    let (next, kept) = Step-keeps is_uuid windows step c in
    let (last, kept_on) = Steps-Consistent is_uuid windows rest next in
    (last, (λ p e. kept_on p (kept p e)))
