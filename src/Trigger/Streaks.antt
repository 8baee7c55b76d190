-- ===== src/Trigger/Streaks.antt =====
-- Why the condition of a key is met, over a whole history of observations: a change is confirmed
-- only by an unbroken streak of accepted ones that is long enough (trigger-stability.ts).
use refract_backend.Trigger.Evaluate.{move_from, move, observe, is_stale}
use refract_backend.Trigger.{
  NumberOps, TriggerStabilityConfig, TriggerObservation, TriggerKeyState, is_confirmed, breached,
  recovered, damp, initial_state,
}
use refract_backend.Prelude.{
  ◌∙◌, ap, ◌≡◌, true, false, inl, inr, refl, arith, Bool-cases, subst, sym, List, [], ◌∷◌,
  if◌then◌else◌,
}
use refract_backend.Trigger.Candidates.{
  CandidateIn, Candidate, Enough, move-Candidate, move_on, move_off,
}

module _ {F : Type 0} (ops : NumberOps F) (config : TriggerStabilityConfig F) where
  -- The state after a history, newest first.
  unfoldable pub state_after : List (TriggerObservation F) → TriggerKeyState F
  state_after [] = initial_state ops
  state_after (obs ∷ rest) = observe ops config obs (state_after rest)

  -- The observations of a history that were not ignored.
  unfoldable pub accepted_of : List (TriggerObservation F) → List (TriggerObservation F)
  unfolding state_after
  accepted_of [] = []
  accepted_of (obs ∷ rest) =
      let earlier = accepted_of rest in
      if is_stale ops obs (state_after rest) then earlier else obs ∷ earlier

  observe_stale :
      (obs : TriggerObservation F) (rest : List (TriggerObservation F))
      → is_stale ops obs (state_after rest) ≡ true
      → (state_after (obs ∷ rest) ≡ state_after rest)
        × (accepted_of (obs ∷ rest) ≡ accepted_of rest)
  unfolding state_after accepted_of observe
  observe_stale obs rest h = (ground arith, ground arith)

  observe_fresh :
      (obs : TriggerObservation F) (rest : List (TriggerObservation F))
      → is_stale ops obs (state_after rest) ≡ false
      → (state_after (obs ∷ rest)
          ≡ (move ops config obs (damp ops config obs (state_after rest))).state)
        × (accepted_of (obs ∷ rest) ≡ obs ∷ accepted_of rest)
  unfolding state_after accepted_of observe
  observe_fresh obs rest h = (ground arith, ground arith)

  damp-Candidate :
      (obs : TriggerObservation F) (s : TriggerKeyState F) (history : List (TriggerObservation F))
      → Candidate ops config s history
      → CandidateIn ops config s.phase
          (damp ops config obs s).candidate_since
          (damp ops config obs s).candidate_count
          history
  unfolding damp Candidate
  damp-Candidate obs s history c = c

  phase-damp :
      (obs : TriggerObservation F) (s : TriggerKeyState F) → (damp ops config obs s).phase ≡ s.phase
  unfolding damp
  phase-damp obs s = refl

  fresh-move :
      (obs : TriggerObservation F) (s : TriggerKeyState F)
      → (move ops config obs (damp ops config obs s)).state
        ≡ (move_from ops s.phase config obs (damp ops config obs s)).state
  fresh-move obs s =
      ap (λ p. (move_from ops p config obs (damp ops config obs s)).state) (phase-damp obs s)

  state_after-Candidate :
      (history : List (TriggerObservation F))
      → Candidate ops config (state_after history) (accepted_of history)
  unfolding Candidate CandidateIn state_after accepted_of initial_state
  state_after-Candidate [] = tt
  state_after-Candidate (obs ∷ rest) = elim (Bool-cases (is_stale ops obs (state_after rest))) [
    | inl e ↦
        subst (λ s. Candidate ops config s (accepted_of (obs ∷ rest)))
          (sym (observe_stale obs rest e).0)
          (subst (λ h. Candidate ops config (state_after rest) h) (sym (observe_stale obs rest e).1)
            (state_after-Candidate rest))
    | inr e ↦
        subst (λ s. Candidate ops config s (accepted_of (obs ∷ rest)))
          (sym ((observe_fresh obs rest e).0 ∙ fresh-move obs (state_after rest)))
          (subst
            (λ h.
              Candidate ops config
                (move_from ops (state_after rest).phase config obs
                  (damp ops config obs (state_after rest))).state
                h)
            (sym (observe_fresh obs rest e).1)
            (move-Candidate ops config (state_after rest).phase obs
              (damp ops config obs (state_after rest)) (accepted_of rest)
              (damp-Candidate obs (state_after rest) (accepted_of rest)
                (state_after-Candidate rest))
              (phase-damp obs (state_after rest))))
  ]

  -- Over any history of observations of a key, ignored ones included, the condition turns on only
  -- if the newest accepted observations, at least as many as the configured confirmations, are
  -- all past the threshold and span at least the configured dwell.
  pub confirmed-streak :
      (obs : TriggerObservation F) (rest : List (TriggerObservation F))
      → is_confirmed (state_after rest).phase ≡ false
      → is_confirmed (state_after (obs ∷ rest)).phase ≡ true
      → Enough ops config (breached ops) obs.observed_at (accepted_of (obs ∷ rest))
  confirmed-streak obs rest off on = elim (Bool-cases (is_stale ops obs (state_after rest))) [
    | inl e ↦ absurd (ground (arith, ap (λ s. is_confirmed s.phase) (observe_stale obs rest e).0))
    | inr e ↦
        subst (Enough ops config (breached ops) obs.observed_at) (sym (observe_fresh obs rest e).1)
          (move_on ops config (state_after rest).phase obs (damp ops config obs (state_after rest))
            (accepted_of rest)
            (damp-Candidate obs (state_after rest) (accepted_of rest) (state_after-Candidate rest))
            (phase-damp obs (state_after rest)) off
            (ap (λ s. is_confirmed s.phase)
                (sym ((observe_fresh obs rest e).0 ∙ fresh-move obs (state_after rest)))
              ∙ on))
  ]

  -- Over any history of observations of a key, ignored ones included, a condition that is met
  -- turns off only if the newest accepted observations, at least as many as the configured
  -- confirmations, all recovered past the hysteresis band and span at least the configured dwell.
  pub cleared-streak :
      (obs : TriggerObservation F) (rest : List (TriggerObservation F))
      → is_confirmed (state_after rest).phase ≡ true
      → is_confirmed (state_after (obs ∷ rest)).phase ≡ false
      → Enough ops config (recovered ops config) obs.observed_at (accepted_of (obs ∷ rest))
  cleared-streak obs rest on off = elim (Bool-cases (is_stale ops obs (state_after rest))) [
    | inl e ↦ absurd (ground (arith, ap (λ s. is_confirmed s.phase) (observe_stale obs rest e).0))
    | inr e ↦
        subst (Enough ops config (recovered ops config) obs.observed_at)
          (sym (observe_fresh obs rest e).1)
          (move_off ops config (state_after rest).phase obs (damp ops config obs (state_after rest))
            (accepted_of rest)
            (damp-Candidate obs (state_after rest) (accepted_of rest) (state_after-Candidate rest))
            (phase-damp obs (state_after rest)) on
            (ap (λ s. is_confirmed s.phase)
                (sym ((observe_fresh obs rest e).0 ∙ fresh-move obs (state_after rest)))
              ∙ off))
  ]
