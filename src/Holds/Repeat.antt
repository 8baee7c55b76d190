-- ===== src/Holds/Repeat.antt =====
-- A claim that is scanned again (claim-hold.service.ts): the gate finds the hold that it placed, answers
-- the same and writes nothing.
use refract_backend.Prelude.{
  ℕ, ite, ◌+◌, none, some, List, [], ◌∷◌, ◌++◌, String, Bool, true, false, not, ◌&&◌, same, keep,
  any, All, ltb, sort_by, insert_sorted, any-sort_by, string_discrete, Result, ok, err, ◌≡◌, inl,
  inr, refl, sym, ap, ◌∙◌, arith, Bool-cases, Option-cases, if_intro, same_refl,
}
use refract_backend.Prelude.Dict.{lookup, insert, lookup-insert_self}
use refract_backend.Ledger.{Decision, EvidenceGap, EvidenceEvent, HoldPlaced, hold_placed}
use refract_backend.Ledger.Gaps.{are_hashes}
use refract_backend.Ledger.Store.{Ledger, continue_done, now, return, ◌▷◌}
use refract_backend.Holds.{
  ClaimHold, Holds, payout_held, is_terminal, new_hold, hold_step, fold_holds,
}
use refract_backend.Holds.Service.{
  Services, HoldCandidate, GateResult, block, BlockReason, claim_is, active_hold_for,
  denied_hold_for, list, last_of, gate, try_gate, judge, assess, settle_gaps, place, write_audit,
  fail_closed, values,
}
use refract_backend.Holds.Gate.{Outcome-cases, gaps_on, time_on, gate_existing}
use refract_backend.Holds.Transitions.{two_events, fold_holds-append, step_audit}

module _ (q : ClaimHold → Bool) where
  -- Of the holds that pass, there is only this one.
  abbrev OnlyThis : ClaimHold → List ClaimHold → Type 0
  OnlyThis h = All (λ k. q k ≡ true → k ≡ h)

  none_passes : (h : ClaimHold) (d : Holds) → any q (values d) ≡ false → OnlyThis h (values d)
  none_passes h [] e = tt
  none_passes h ((j, k) ∷ d) e = (λ t. absurd (ground arith), none_passes h d (ground arith))

  insert-OnlyThis :
      (id : String) (h : ClaimHold) (d : Holds)
      → any q (values d) ≡ false
      → OnlyThis h (values (insert string_discrete id h d))
  insert-OnlyThis id h [] e = (λ t. refl, tt)
  insert-OnlyThis id h ((j, k) ∷ d) e =
      elim (string_discrete j id)
        as (λ x.
          OnlyThis h (values (ite x ((j, h) ∷ d) ((j, k) ∷ insert string_discrete id h d)))) [
            | yes p ↦ (λ t. refl, none_passes h d (ground (arith, e)))
            | no p ↦ (λ t. absurd (ground (arith, e)), insert-OnlyThis id h d (ground (arith, e)))
          ]

  sort_by-OnlyThis :
      (h : ClaimHold) (before : ClaimHold → ClaimHold → Bool) (ks : List ClaimHold)
      → OnlyThis h ks
      → OnlyThis h (sort_by before ks)
  sort_by-OnlyThis h before [] e = tt
  sort_by-OnlyThis h before (k ∷ ks) (p, e) =
      inserted k (sort_by before ks) p (sort_by-OnlyThis h before ks e)
    where
      inserted :
          (x : ClaimHold) (xs : List ClaimHold)
          → (q x ≡ true → x ≡ h)
          → OnlyThis h xs
          → OnlyThis h (insert_sorted before x xs)
      inserted x [] p e = (p, tt)
      inserted x (y ∷ ys) p (r, e) =
          if_intro (OnlyThis h) (before y x) (λ _. (r, inserted x ys p e)) (λ _. (p, (r, e)))

  lookup-any :
      (id : String) (h : ClaimHold) (d : Holds)
      → lookup string_discrete id d ≡ some h
      → q h ≡ true
      → any q (values d) ≡ true
  lookup-any id h [] found e = absurd (ground arith)
  lookup-any id h ((j, k) ∷ d) found e = ground (arith, lookup-any id h d)

  none_last : (ks : List ClaimHold) → last_of (keep q ks) ≡ none → any q ks ≡ false
  none_last [] e = refl
  none_last (k ∷ ks) e = elim (Bool-cases (q k)) [
    | inr f ↦ ground (arith, none_last ks)
    | inl t ↦ absurd (some_last k (keep q ks) (ground arith))
  ]
    where
      some_last : (x : ClaimHold) (xs : List ClaimHold) → last_of (x ∷ xs) ≡ none → ⊥
      some_last x [] e = absurd (ground arith)
      some_last x (y ∷ ys) e = some_last y ys e

  only_last :
      (h : ClaimHold) (ks : List ClaimHold)
      → OnlyThis h ks
      → any q ks ≡ true
      → last_of (keep q ks) ≡ some h
  only_last h [] only e = absurd (ground arith)
  only_last h (k ∷ ks) (one, only) e = elim (Bool-cases (q k)) [
    | inl t ↦ rw t (last_this k (keep q ks) (one t) (kept ks only))
    | inr f ↦ rw f (only_last h ks only (ground arith))
  ]
    where
      kept : (xs : List ClaimHold) → OnlyThis h xs → All (λ x. x ≡ h) (keep q xs)
      kept [] o = tt
      kept (x ∷ xs) (p, o) =
          if_intro (All (λ y. y ≡ h)) (q x) (λ t. (p t, kept xs o)) (λ _. kept xs o)

      last_this :
          (x : ClaimHold) (xs : List ClaimHold)
          → x ≡ h
          → All (λ y. y ≡ h) xs
          → last_of (x ∷ xs) ≡ some h
      last_this x [] e o = ap some e
      last_this x (y ∷ ys) e (p, o) = last_this y ys p o

module _ {N : Type 0} (services : Services N) (candidate : HoldCandidate) where
  -- The hold that `place` puts on a claim.
  step_placed :
      (holds : Holds) (e : EvidenceEvent N) (p : HoldPlaced)
      → e.body ≡ hold_placed p
      → hold_step holds e ≡ insert string_discrete p.hold_id (new_hold p e.recorded_at) holds
  unfolding hold_step
  step_placed holds e p h = ground arith

  -- The only open hold of a claim that had none is the one that is placed.
  placed_only :
      (log : List (EvidenceEvent N)) (holds : Holds) (id : String) (h : ClaimHold)
      (after : List (EvidenceEvent N))
      → active_hold_for candidate.policy_id log ≡ none
      → fold_holds log ≡ holds
      → fold_holds after ≡ insert string_discrete id h holds
      → same h.policy_id candidate.policy_id ≡ true
      → is_terminal h.status ≡ false
      → active_hold_for candidate.policy_id after ≡ some h
  unfolding active_hold_for list
  placed_only log holds id h after fresh before placed own is_open =
      let q : ClaimHold → Bool =
        λ k. same k.policy_id candidate.policy_id && not (is_terminal k.status) in
      let order : ClaimHold → ClaimHold → Bool = λ a b. ltb a.placed_at b.placed_at in
      let none_open : any q (values (fold_holds log)) ≡ false =
        sym (any-sort_by q order (values (fold_holds log)))
        ∙ none_last q (sort_by order (values (fold_holds log))) fresh in
      let passes : q h ≡ true = ground (arith, own, is_open) in
      let ks = values (insert string_discrete id h holds) in
      ap (λ d. last_of (keep q (sort_by order (values d)))) placed
      ∙ only_last q h (sort_by order ks)
          (sort_by-OnlyThis q h order ks
            (insert-OnlyThis q id h holds (ap (λ d. any q (values d)) (sym before) ∙ none_open)))
          (any-sort_by q order ks
            ∙ lookup-any q id h (insert string_discrete id h holds)
                (lookup-insert_self string_discrete id h holds) passes)

  place-active :
      (d : Decision N) (gaps : List EvidenceGap) (ledger after : Ledger N) (h : ClaimHold)
      → active_hold_for candidate.policy_id ledger.log ≡ none
      → place services candidate d gaps ledger ≡ (ok h, after)
      → (active_hold_for candidate.policy_id after.log ≡ some h) × (h.status ≡ payout_held)
  unfolding place write_audit now new_hold
  place-active d gaps ledger after h fresh run =
      let (e, f, log, is_placed, is_audit, answered) =
        two_events services.outside _ _ (services.hold_id_of candidate.policy_id d.decision_id)
          (record ledger { calls = ledger.calls + 1 }) after h run in
      let folded =
        ap fold_holds log
        ∙ fold_holds-append (ledger.log ++ e ∷ []) f
        ∙ step_audit (fold_holds (ledger.log ++ e ∷ [])) f _ is_audit
        ∙ fold_holds-append ledger.log e
        ∙ step_placed (fold_holds ledger.log) e _ is_placed in
      let id = services.hold_id_of candidate.policy_id d.decision_id in
      let same_hold =
        sym (lookup-insert_self string_discrete id _ (fold_holds ledger.log))
        ∙ sym (ap (lookup string_discrete id) folded)
        ∙ answered in
      (
        placed_only ledger.log (fold_holds ledger.log) id _ after.log fresh refl folded
              (same_refl candidate.policy_id) refl
            ∙ same_hold,
        status_held _ e.recorded_at h same_hold,
      )
    where
      status_held :
          (p : HoldPlaced) (t : ℕ) (k : ClaimHold)
          → some (new_hold p t) ≡ some k
          → k.status ≡ payout_held
      status_held p t k eq = ground (arith, eq)

  -- The engine places no hold on the claim itself.
  abbrev pub LeavesHolds : Type 0
  LeavesHolds =
      (ledger : Ledger N)
      → active_hold_for candidate.policy_id (services.decide candidate.feed_id ledger).1.log
        ≡ active_hold_for candidate.policy_id ledger.log

  gate_open :
      (ledger : Ledger N) (h : ClaimHold)
      → active_hold_for candidate.policy_id ledger.log ≡ some h
      → h.status ≡ payout_held
      → gate services candidate ledger
        ≡ (block (some h.hold_id) (claim_is h.status h.reason), ledger)
  unfolding gate try_gate
  gate_open ledger h active status = ground (arith, active, status)

  settle_gaps-repeat :
      (d : Decision N) (gaps : List EvidenceGap) (ledger after : Ledger N) (id : String)
      (reason : BlockReason)
      → active_hold_for candidate.policy_id ledger.log ≡ none
      → settle_gaps services candidate d gaps ledger ≡ (ok (block (some id) reason), after)
      → gate services candidate after ≡ (block (some id) reason, after)
  unfolding settle_gaps
  settle_gaps-repeat d [] ledger after id reason fresh run = absurd (ground (arith, run))
  settle_gaps-repeat d (gap ∷ gaps) ledger after id reason fresh run =
      let (h, placed, made, answered) =
        continue_done (λ k. return (block (some k.hold_id) (claim_is k.status k.reason)))
          (place services candidate d (gap ∷ gaps) ledger) (block (some id) reason) after run in
      let (active, status) = place-active d (gap ∷ gaps) ledger placed h fresh made in
      ap (gate services candidate) (sym (ap (λ r. r.1) answered))
      ∙ gate_open placed h active status
      ∙ ap (λ (r : Result String GateResult × Ledger N). (fail_closed services r.0, r.1)) answered

  judge-repeat :
      (d : Decision N) (ledger after : Ledger N) (id : String) (reason : BlockReason)
      → active_hold_for candidate.policy_id ledger.log ≡ none
      → judge services candidate d ledger ≡ (ok (block (some id) reason), after)
      → gate services candidate after ≡ (block (some id) reason, after)
  unfolding judge assess now
  judge-repeat d ledger after id reason fresh run = elim (Outcome-cases d.outcome) [
    | inr e ↦ absurd (ground (arith, run, e))
    | inl e ↦ elim (Bool-cases d.triggered) [
      | inr untriggered ↦ absurd (ground (arith, run, e, untriggered))
      | inl triggered ↦
          elim (Bool-cases (are_hashes ledger.log d (time_on services candidate ledger))) [
            | inr faulty ↦ absurd (ground (arith, run, e, triggered, faulty))
            | inl sound ↦
                settle_gaps-repeat d (gaps_on services candidate d ledger)
                  (record ledger { calls = ledger.calls + 1 }) after id reason fresh
                  (ground (arith, run, e, triggered, sound))
          ]
    ]
  ]

  block_ok :
      (r : Result String GateResult) (id : String) (reason : BlockReason)
      → fail_closed services r ≡ block (some id) reason
      → r ≡ ok (block (some id) reason)
  block_ok (ok a) id reason h = ap ok h
  block_ok (err e) id reason h = absurd (ground (arith, h))

  asks_engine :
      (ledger : Ledger N) (id : String) (reason : BlockReason)
      → active_hold_for candidate.policy_id ledger.log ≡ none
      → denied_hold_for candidate.policy_id ledger.log ≡ none
      → (try_gate services candidate ledger).0 ≡ ok (block (some id) reason)
      → try_gate services candidate ledger
        ≡ (services.decide candidate.feed_id ▷ judge services candidate) ledger
  unfolding try_gate
  asks_engine ledger id reason fresh undenied h =
      elim (Bool-cases (services.is_governed candidate.feed_id)) [
        | inr free ↦ absurd (ground (arith, h, fresh, undenied, free))
        | inl governed ↦ ground (arith, fresh, undenied, governed)
      ]

  unchanged :
      (ledger : Ledger N) (id : String) (reason : BlockReason)
      → (gate services candidate ledger).1 ≡ ledger
      → (gate services candidate ledger).0 ≡ block (some id) reason
      → gate services candidate (gate services candidate ledger).1
        ≡ (block (some id) reason, (gate services candidate ledger).1)
  unchanged ledger id reason same_ledger h =
      ap (gate services candidate) same_ledger
      ∙ ap (λ (r : GateResult). (r, (gate services candidate ledger).1)) h

  denied_unchanged :
      (ledger : Ledger N) (hold : ClaimHold)
      → active_hold_for candidate.policy_id ledger.log ≡ none
      → denied_hold_for candidate.policy_id ledger.log ≡ some hold
      → (gate services candidate ledger).1 ≡ ledger
  unfolding gate try_gate
  denied_unchanged ledger hold fresh refused = ground (arith, fresh, refused)

  -- Where the gate blocks a claim and names a hold, whether it found the hold or placed it, a
  -- second scan of the ledger that is left answers the same and writes nothing, so that it places
  -- no second hold; for an engine that itself leaves the open hold of the claim as it was.
  pub gate_again :
      (ledger : Ledger N) (id : String) (reason : BlockReason)
      → LeavesHolds
      → (gate services candidate ledger).0 ≡ block (some id) reason
      → gate services candidate (gate services candidate ledger).1
        ≡ (block (some id) reason, (gate services candidate ledger).1)
  unfolding gate
  gate_again ledger id reason leaves h =
      elim (Option-cases (active_hold_for candidate.policy_id ledger.log)) [
        | inr (hold, active) ↦
            unchanged ledger id reason (gate_existing services candidate ledger hold active) h
        | inl fresh ↦ elim (Option-cases (denied_hold_for candidate.policy_id ledger.log)) [
          | inr (hold, refused) ↦
              unchanged ledger id reason (denied_unchanged ledger hold fresh refused) h
          | inl undenied ↦
              let answer = block_ok (try_gate services candidate ledger).0 id reason h in
              let final = (try_gate services candidate ledger).1 in
              let (d, decided_ledger, made, judged) =
                continue_done (judge services candidate) (services.decide candidate.feed_id ledger)
                  (block (some id) reason) final
                  (sym (asks_engine ledger id reason fresh undenied answer)
                    ∙ ap (λ (r : Result String GateResult). (r, final)) answer) in
              judge-repeat d decided_ledger final id reason
                (ap (λ r. active_hold_for candidate.policy_id r.1.log) (sym made)
                  ∙ leaves ledger
                  ∙ fresh)
                judged
        ]
      ]
