-- ===== src/Disputes/Inserts.antt =====
-- Lists under a change of their entries, and the two inserts.
use refract_backend.Prelude.{
  checked_ok, then_ok, guard, ◌>>◌, ok_inj, ltb, ◌||◌, ◌&&◌, not, inr, inl, subst, sym,
  same-comm_false, same, Bool-cases, ok, find?, Pairwise, any, All, map, ◌∷◌, [], List, some, false,
  true, Bool, ◌≡◌, arith,
}
use refract_backend.Disputes.{
  Reversal, conflict, check_violation, open_status, DisputeTables, Settlement, DisputeRow,
}
use refract_backend.Disputes.Consistency.{Apart, RowOk, Consistent}
use refract_backend.Disputes.Rows.{insert_reversal, is_live_on, is_row, insert_dispute}
use refract_backend.Pages.Sorted.{All-imp}

pub All-map :
    {A B : Type 0} (P : B → Type 0) (f : A → B) (xs : List A)
    → All (λ x. P (f x)) xs
    → All P (map f xs)
All-map P f [] h = tt
All-map P f (x ∷ xs) (p, h) = (p, All-map P f xs h)

pub Pairwise-map :
    {A : Type 0} (R : A → A → Type 0) (f : A → A) (xs : List A)
    → ((x y : A) → R x y → R (f x) (f y))
    → Pairwise R xs
    → Pairwise R (map f xs)
Pairwise-map R f [] keeps h = tt
Pairwise-map R f (x ∷ xs) keeps (r, h) =
    (All-map (R (f x)) f xs (All-imp xs (λ y. keeps x y) r), Pairwise-map R f xs keeps h)

pub any-map :
    {A : Type 0} (p q : A → Bool) (f : A → A) (xs : List A)
    → ((x : A) → p x ≡ true → q (f x) ≡ true)
    → any p xs ≡ true
    → any q (map f xs) ≡ true
any-map p q f [] keeps h = absurd (ground arith)
any-map p q f (x ∷ xs) keeps h = ground (arith, keeps x, any-map p q f xs keeps)

none_of : {A : Type 0} (p : A → Bool) (xs : List A) → any p xs ≡ false → All (λ x. p x ≡ false) xs
none_of p [] h = tt
none_of p (x ∷ xs) h = (ground arith, none_of p xs (ground arith))

pub any-found :
    {A : Type 0} (p q : A → Bool) (xs : List A) (x : A)
    → find? p xs ≡ some x
    → q x ≡ true
    → any q xs ≡ true
any-found p q [] x h k = absurd (ground arith)
any-found p q (y ∷ ys) x h k = ground (arith, any-found p q ys x)

-- The step that a settlement's writer makes.
pub settles-Consistent :
    (t : DisputeTables) (settlements : List Settlement)
    → Consistent t
    → Consistent (record t { settlements = settlements })
settles-Consistent t settlements c = record {
  rows = c.rows;
  ids = c.ids;
  apart = c.apart;
  once = c.once;
  booked = c.booked;
  owed_for = c.owed_for;
}

pub insert_dispute-Consistent :
    (row : DisputeRow) (t u : DisputeTables)
    → insert_dispute row t ≡ ok u
    → row.status ≡ open_status
    → RowOk row
    → Consistent t
    → Consistent u
unfolding insert_dispute
insert_dispute-Consistent row t u h opened good c =
    let (free, made) =
      checked_ok
        (not (any (is_row row.id) t.disputes) && not (any (is_live_on row.decision_id) t.disputes))
        conflict _ h in
    let new_id = none_of (is_row row.id) t.disputes (ground arith) in
    let not_live = none_of (is_live_on row.decision_id) t.disputes (ground arith) in
    subst Consistent (ok_inj made) (record {
      rows = (good, c.rows);
      ids = (All-imp t.disputes (λ s. same-comm_false s.id row.id) new_id, c.ids);
      apart = (All-imp t.disputes (λ s e. live_apart s e) not_live, c.apart);
      once = c.once;
      booked = All-imp t.reversals (λ v e. ground arith) c.booked;
      owed_for = ((λ e. absurd (ground arith)), c.owed_for);
    })
  where
    live_apart : (s : DisputeRow) → is_live_on row.decision_id s ≡ false → Apart row s
    live_apart s e = elim (Bool-cases (same s.decision_id row.decision_id)) [
      | inl on_it ↦ ground arith
      | inr other ↦ ground (arith, same-comm_false s.decision_id row.decision_id other)
    ]

pub insert_reversal-once :
    (v : Reversal) (t u : DisputeTables)
    → insert_reversal v t ≡ ok u
    → Pairwise (λ v w. same v.decision_id w.decision_id ≡ false) t.reversals
    → (u ≡ record t { reversals = v ∷ t.reversals })
      × Pairwise (λ v w. same v.decision_id w.decision_id ≡ false) (v ∷ t.reversals)
unfolding insert_reversal
insert_reversal-once v t u h once =
    let (guarded, made) =
      then_ok
        (guard (ltb 0 v.amount) check_violation
          >> guard
              (not (
                any (λ w. same w.dispute_id v.dispute_id || same w.decision_id v.decision_id)
                  t.reversals))
              conflict)
        (ok (record t { reversals = v ∷ t.reversals })) h in
    let new =
      none_of (λ w. same w.dispute_id v.dispute_id || same w.decision_id v.decision_id) t.reversals
        (ground arith) in
    (
      sym (ok_inj made),
      (
        All-imp t.reversals (λ w e. same-comm_false w.decision_id v.decision_id (ground arith)) new,
        once,
      ),
    )
