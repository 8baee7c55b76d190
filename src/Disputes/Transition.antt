-- ===== src/Disputes/Transition.antt =====
-- A transition keeps the tables consistent.
use refract_backend.Prelude.{
  ◌>>◌, guard, then_ok, ◌&&◌, not, bind_ok, checked_ok, find?_holds, Bool, ◌⊎◌, refl, same_refl,
  or_fail, ok, ok_inj, any, Pairwise, All, find?, map, ◌∷◌, [], List, some, none, Option, false,
  true, inr, inl, ◌∙◌, subst, ap₂, ap, sym, ◌≡◌, String, same→ne, same→eq, same, Bool-cases, ℕ,
  arith,
}
use refract_backend.Disputes.{
  has_paid_out, bad_request, same_status, check_violation, not_found, conflict, Settlement,
  Reversal, DisputeTables, TransitionDisputeInput, can_move, is_reversed, DisputeRow,
}
use refract_backend.Disputes.Moves.{
  replacement_of, reversal_of, book_owed, transition_dispute, book_reversal, update_dispute,
  has_text,
}
use refract_backend.Disputes.Update.{
  update-status, update-final, update-RowOk, update-decision_id, update-live, update,
  update-reversed, update-id,
}
use refract_backend.Disputes.Inserts.{
  insert_reversal-once, any-found, Pairwise-map, All-map, any-map,
}
use refract_backend.Disputes.Consistency.{books, Apart, RowOk, Consistent}
use refract_backend.Disputes.Rows.{
  insert_reversal, is_replacement, is_own, update_row, settlement_of, is_row,
}
use refract_backend.Pages.Sorted.{All-imp}

or_fail_ok : {E A : Type 0} (o : Option A) (e : E) (a : A) → or_fail o e ≡ ok a → o ≡ some a
or_fail_ok none e a h = absurd (ground arith)
or_fail_ok (some b) e a h = ap some (ok_inj h)

All-and :
    {A : Type 0} (P Q : A → Type 0) (xs : List A) → All P xs → All Q xs → All (λ x. P x × Q x) xs
All-and P Q [] p q = tt
All-and P Q (x ∷ xs) (p, ps) (q, qs) = ((p, q), All-and P Q xs ps qs)

-- The row that an id finds is the only one with it.
found_only :
    (id : String) (rows : List DisputeRow) (row : DisputeRow)
    → Pairwise (λ r s. same r.id s.id ≡ false) rows
    → find? (is_row id) rows ≡ some row
    → All (λ r. is_row id r ≡ true → r ≡ row) rows
found_only id [] row apart h = tt
found_only id (r ∷ rows) row (others, apart) h = elim (Bool-cases (is_row id r)) [
  | inl here ↦
      let first : r ≡ row = ground arith in
      (
        (λ _. first),
        All-imp rows
            (λ s differ e. absurd (
              ground
                (arith, same→ne r.id s.id differ (same→eq r.id id here ∙ sym (same→eq s.id id e)))))
            others,
      )
  | inr other ↦ ((λ e. absurd (ground arith)), found_only id rows row apart (ground arith))
]

module _ (now : ℕ) (id : String) (input : TransitionDisputeInput) (row : DisputeRow)
    (allowed : can_move row.status input.to ≡ true) (t : DisputeTables) (c : Consistent t) where
  abbrev after : DisputeRow → DisputeRow
  after = update now input id row allowed

  reversed_stays : (r : DisputeRow) → is_reversed r.status ≡ true → after r ≡ r
  reversed_stays r h = update-final now input id row allowed r (ground arith)

  books-after : (v : Reversal) (r : DisputeRow) → books v r ≡ true → books v (after r) ≡ true
  books-after v r h = subst (λ q. books v q ≡ true) (sym (reversed_stays r (ground arith))) h

  old_booked : All (λ v. any (books v) (map after t.disputes) ≡ true) t.reversals
  old_booked =
      All-imp t.reversals (λ v. any-map (books v) (books v) after t.disputes (books-after v))
        c.booked

  old_owed :
      (r : DisputeRow)
      → (is_reversed r.status ≡ true → any (λ v. books v r) t.reversals ≡ true)
      → is_reversed r.status ≡ true
      → any (λ v. books v (after r)) t.reversals ≡ true
  old_owed r h reversed_before =
      subst (λ q. any (λ v. books v q) t.reversals ≡ true) (sym (reversed_stays r reversed_before))
        (h reversed_before)

  Apart-after : (r s : DisputeRow) → Apart r s → Apart (after r) (after s)
  Apart-after r s h =
      let same_decisions : same (after r).decision_id (after s).decision_id
          ≡ same r.decision_id s.decision_id =
        ap₂ same (update-decision_id now input id row allowed r)
          (update-decision_id now input id row allowed s) in
      ground (
        arith,
        same_decisions,
        update-live now input id row allowed r,
        update-live now input id row allowed s,
      )

  -- The tables with the row updated and these reversals.
  updated :
      (reversals : List Reversal)
      → (is_reversed input.to ≡ true → has_text input.replacement_decision_id ≡ true)
      → Pairwise (λ v w. same v.decision_id w.decision_id ≡ false) reversals
      → All (λ v. any (books v) (map after t.disputes) ≡ true) reversals
      → All
          (λ r. is_reversed r.status ≡ true → any (λ v. books v r) reversals ≡ true)
          (map after t.disputes)
      → Consistent (record {
        settlements = t.settlements;
        disputes = map after t.disputes;
        reversals = reversals;
      })
  updated reversals given once booked balance = record {
    rows =
        All-map RowOk after t.disputes
          (All-imp t.disputes (update-RowOk now input id row allowed given) c.rows);
    ids =
        Pairwise-map (λ r s. same r.id s.id ≡ false) after t.disputes
          (λ r s e.
            ap₂ same (update-id now input id row allowed r) (update-id now input id row allowed s)
            ∙ e)
          c.ids;
    apart = Pairwise-map Apart after t.disputes Apart-after c.apart;
    once = once;
    booked = booked;
    owed_for = balance;
  }

  stays-Consistent :
      is_reversed input.to ≡ false → Consistent (record t { disputes = map after t.disputes })
  stays-Consistent other =
      updated t.reversals (λ e. absurd (ground arith)) c.once old_booked
        (All-map _ after t.disputes (
          All-imp t.disputes
            (λ r h e. elim (update-reversed now input id row allowed r e) [
              | inl before ↦ old_owed r h before
              | inr (to_reversed, _) ↦ absurd (ground arith)
            ])
            c.owed_for))

  module _ (v : Reversal) (of_id : v.dispute_id ≡ id)
      (of_decision : v.decision_id ≡ row.decision_id) where
    books_moved :
        (r : DisputeRow)
        → is_row id r ≡ true
        → r.decision_id ≡ row.decision_id
        → is_reversed (after r).status ≡ true
        → books v (after r) ≡ true
    books_moved r with_id on_decision to_reversed =
        let ids : same (after r).id v.dispute_id ≡ true =
          ap₂ same (update-id now input id row allowed r ∙ same→eq r.id id with_id) of_id
          ∙ same_refl id in
        let decisions : same (after r).decision_id v.decision_id ≡ true =
          ap₂ same (update-decision_id now input id row allowed r ∙ on_decision) of_decision
          ∙ same_refl row.decision_id in
        ground arith

    row_booked :
        is_reversed input.to ≡ true
        → find? (is_row id) t.disputes ≡ some row
        → any (books v) (map after t.disputes) ≡ true
    row_booked to_reversed found =
        let with_id : is_row id row ≡ true = find?_holds (is_row id) t.disputes row found in
        any-map (λ r. books v (after r)) (books v) after t.disputes (λ r e. e)
          (any-found (is_row id) (λ r. books v (after r)) t.disputes row found
            (books_moved row with_id refl
              (ap is_reversed (update-status now input id row allowed with_id) ∙ to_reversed)))

  reverses-Consistent :
      (v : Reversal)
      → is_reversed input.to ≡ true
      → has_text input.replacement_decision_id ≡ true
      → find? (is_row id) t.disputes ≡ some row
      → v.dispute_id ≡ id
      → v.decision_id ≡ row.decision_id
      → Pairwise (λ v w. same v.decision_id w.decision_id ≡ false) (v ∷ t.reversals)
      → Consistent (record t { disputes = map after t.disputes; reversals = v ∷ t.reversals })
  reverses-Consistent v to_reversed given found of_id of_decision once =
      updated (v ∷ t.reversals) (λ _. given) once
        (row_booked v of_id of_decision to_reversed found, old_booked)
        (All-map _ after t.disputes (
          All-imp t.disputes
            (λ r both e. elim (update-reversed now input id row allowed r e) [
              | inl before ↦ ground (arith, old_owed r both.0 before)
              | inr (_, with_id) ↦ ground (
                arith,
                books_moved v of_id of_decision r with_id (ap (λ q. q.decision_id) (both.1 with_id))
                    e,
              )
            ])
            (All-and _ _ t.disputes c.owed_for (found_only id t.disputes row c.ids found))))

pub book_reversal_cases :
    (id : String) (input : TransitionDisputeInput) (row : DisputeRow) (s : Settlement)
    (t u : DisputeTables)
    → book_reversal id input row s t ≡ ok u
    → Pairwise (λ v w. same v.decision_id w.decision_id ≡ false) t.reversals
    → ((is_reversed input.to ≡ false) × (u ≡ t))
      ⊎ ((is_reversed input.to ≡ true)
          × (has_text input.replacement_decision_id ≡ true)
          × (v : Reversal) × (v.dispute_id ≡ id)
          × (v.decision_id ≡ row.decision_id)
          × (u ≡ record t { reversals = v ∷ t.reversals })
          × Pairwise (λ v w. same v.decision_id w.decision_id ≡ false) (v ∷ t.reversals))
unfolding book_reversal book_owed
book_reversal_cases id input row s t u h once = elim (Bool-cases (is_reversed input.to)) [
  | inr e ↦ inl (e, ground arith)
  | inl e ↦
      let booked : book_owed id input row s t ≡ ok u = ground arith in
      let (checked, inserted) =
        then_ok
          (guard (has_text input.replacement_decision_id) bad_request
            >> guard (has_paid_out s.status) conflict)
          (insert_reversal (reversal_of id row s) t) booked in
      let (made, once') = insert_reversal-once (reversal_of id row s) t u inserted once in
      inr (e, ground arith, reversal_of id row s, refl, refl, made, once')
]

update_dispute-made :
    (now : ℕ) (id : String) (input : TransitionDisputeInput) (row : DisputeRow)
    (t u : DisputeTables)
    → update_dispute now id input row t ≡ ok u
    → u ≡ record t { disputes = map (update_row now id row.status input) t.disputes }
unfolding update_dispute
update_dispute-made now id input row t u h =
    let (_, made) =
      then_ok
        (guard (not (is_own (replacement_of input) row.decision_id)) check_violation
          >> guard (not (any (is_replacement (replacement_of input)) t.disputes)) conflict
          >> guard (any (λ r. is_row id r && same_status r.status row.status) t.disputes) conflict)
        (ok (record t { disputes = map (update_row now id row.status input) t.disputes })) h in
    sym (ok_inj made)

-- What a transition that goes through has found and done.
pub transition_parts :
    (is_uuid : String → Bool) (now : ℕ) (id : String) (input : TransitionDisputeInput)
    (t u : DisputeTables)
    → transition_dispute is_uuid now id input t ≡ ok u
    → (row : DisputeRow) × (s : Settlement) × (t1 : DisputeTables) × (find? (is_row id) t.disputes
        ≡ some row)
      × (can_move row.status input.to ≡ true)
      × (book_reversal id input row s t ≡ ok t1)
      × (u ≡ record t1 { disputes = map (update_row now id row.status input) t1.disputes })
unfolding transition_dispute
transition_parts is_uuid now id input t u h =
    let (_, known) = checked_ok (is_uuid id) not_found _ h in
    let (row, looked, settled) =
      bind_ok (or_fail (find? (is_row id) t.disputes) not_found) _ known in
    let (s, _, checked) =
      bind_ok (or_fail (settlement_of row.decision_id t.settlements) not_found) _ settled in
    let (allowed, written) = checked_ok (can_move row.status input.to) conflict _ checked in
    let (t1, booked, updates) = bind_ok (book_reversal id input row s t) _ written in
    (
      row,
      s,
      t1,
      or_fail_ok _ not_found row looked,
      allowed,
      booked,
      update_dispute-made now id input row t1 u updates,
    )

transition_row-Consistent :
    (now : ℕ) (id : String) (input : TransitionDisputeInput) (t t1 u : DisputeTables)
    (row : DisputeRow) (s : Settlement)
    → find? (is_row id) t.disputes ≡ some row
    → can_move row.status input.to ≡ true
    → book_reversal id input row s t ≡ ok t1
    → u ≡ record t1 { disputes = map (update_row now id row.status input) t1.disputes }
    → Consistent t
    → Consistent u
transition_row-Consistent now id input t t1 u row s found allowed booked made c =
    elim (book_reversal_cases id input row s t t1 booked c.once) [
      | inl (other, same_tables) ↦
          subst Consistent
            (sym (
              made
              ∙ ap
                  (λ (w : DisputeTables). record w {
                    disputes = map (update_row now id row.status input) w.disputes;
                  })
                  same_tables))
            (stays-Consistent now id input row allowed t c other)
      | inr (to_reversed, given, v, of_id, of_decision, tables, once) ↦
          subst Consistent
            (sym (
              made
              ∙ ap
                  (λ (w : DisputeTables). record w {
                    disputes = map (update_row now id row.status input) w.disputes;
                  })
                  tables))
            (reverses-Consistent now id input row allowed t c v to_reversed given found of_id
              of_decision once)
    ]

pub transition_dispute-Consistent :
    (is_uuid : String → Bool) (now : ℕ) (id : String) (input : TransitionDisputeInput)
    (t u : DisputeTables)
    → transition_dispute is_uuid now id input t ≡ ok u
    → Consistent t
    → Consistent u
transition_dispute-Consistent is_uuid now id input t u h c =
    let (row, s, t1, found, allowed, booked, made) = transition_parts is_uuid now id input t u h in
    transition_row-Consistent now id input t t1 u row s found allowed booked made c
