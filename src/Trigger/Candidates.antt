-- ===== src/Trigger/Candidates.antt =====
-- The candidate for a change of phase (trigger-stability.ts): it stands on a streak of observations
-- that is as long as its count, and only a streak that is long enough turns into a change.
use refract_backend.Trigger.Evaluate.{
  count_candidate, begin_candidate, move_from, arm, disarm, Move,
}
use refract_backend.Trigger.{
  NumberOps, TriggerPhase, clear, arming, triggered, disarming, TriggerStabilityConfig,
  TriggerObservation, TriggerKeyState, is_confirmed, breached, recovered, dwell_met,
}
use refract_backend.Prelude.{
  ap, if_intro, ◌≡◌, ◌⊎◌, Bool, true, false, Option, some, inl, inr, refl, arith, Bool-cases, subst,
  sym, ℕ, List, ◌∷◌, ◌≤◌, ◌-◌, ◌+◌,
}

module _ {F : Type 0} where
  -- The newest `n` observations of a history, newest first, all pass the test, and the first of
  -- them was made at `since`.
  pub data Streak (test : TriggerObservation F → Bool)
      : ℕ → ℕ → List (TriggerObservation F) → Type 0 where
    start :
        {obs : TriggerObservation F} {rest : List (TriggerObservation F)}
        → test obs ≡ true
        → Streak test 1 obs.observed_at (obs ∷ rest)
    longer :
        {n since : ℕ} {obs : TriggerObservation F} {rest : List (TriggerObservation F)}
        → test obs ≡ true
        → Streak test n since rest
        → Streak test (n + 1) since (obs ∷ rest)

module _ {F : Type 0} (ops : NumberOps F) (config : TriggerStabilityConfig F) where
  -- A candidate for a change stands on a streak of its own length.
  unfoldable pub CandidateIn : TriggerPhase → Option ℕ → ℕ → List (TriggerObservation F) → Type 0
  CandidateIn clear at count history = Unit
  CandidateIn arming at count history =
      (since : ℕ) × (at ≡ some since) × Streak (breached ops) count since history
  CandidateIn triggered at count history = Unit
  CandidateIn disarming at count history =
      (since : ℕ) × (at ≡ some since) × Streak (recovered ops config) count since history

  unfoldable pub Candidate : TriggerKeyState F → List (TriggerObservation F) → Type 0
  Candidate s history = CandidateIn s.phase s.candidate_since s.candidate_count history

  -- A streak that is long enough for a change.
  unfoldable pub Enough : (TriggerObservation F → Bool) → ℕ → List (TriggerObservation F) → Type 0
  Enough test now history =
      (n since : ℕ) × (config.min_confirmations ≤ n)
      × (config.min_dwell_ms ≤ now - since)
      × Streak test n since history

  arm-cases :
      (obs : TriggerObservation F) (s : TriggerKeyState F)
      → ((arm ops config obs s).state ≡ s)
        ⊎ (((arm ops config obs s).state.phase ≡ triggered) × (dwell_met ops config obs s ≡ true))
  unfolding arm
  arm-cases obs s = ground arith

  disarm-cases :
      (obs : TriggerObservation F) (s : TriggerKeyState F)
      → ((disarm ops config obs s).state ≡ s)
        ⊎ (((disarm ops config obs s).state.phase ≡ clear) × (dwell_met ops config obs s ≡ true))
  unfolding disarm
  disarm-cases obs s = ground arith

  arm-Candidate :
      (obs : TriggerObservation F) (s : TriggerKeyState F) (history : List (TriggerObservation F))
      → Candidate s history
      → Candidate (arm ops config obs s).state history
  unfolding Candidate CandidateIn
  arm-Candidate obs s history c = elim (arm-cases obs s) [
    | inl e ↦ subst (λ t. Candidate t history) (sym e) c
    | inr (e, met) ↦
        subst
          (λ p.
            CandidateIn p (arm ops config obs s).state.candidate_since
              (arm ops config obs s).state.candidate_count history)
          (sym e) tt
  ]

  disarm-Candidate :
      (obs : TriggerObservation F) (s : TriggerKeyState F) (history : List (TriggerObservation F))
      → Candidate s history
      → Candidate (disarm ops config obs s).state history
  unfolding Candidate CandidateIn
  disarm-Candidate obs s history c = elim (disarm-cases obs s) [
    | inl e ↦ subst (λ t. Candidate t history) (sym e) c
    | inr (e, met) ↦
        subst
          (λ p.
            CandidateIn p (disarm ops config obs s).state.candidate_since
              (disarm ops config obs s).state.candidate_count history)
          (sym e) tt
  ]

  pub move-Candidate :
      (phase : TriggerPhase) (obs : TriggerObservation F) (s : TriggerKeyState F)
      (history : List (TriggerObservation F))
      → CandidateIn phase s.candidate_since s.candidate_count history
      → s.phase ≡ phase
      → Candidate (move_from ops phase config obs s).state (obs ∷ history)
  unfolding move_from Candidate CandidateIn
  move-Candidate clear obs s history c h =
      if_intro (λ (m : Move F). Candidate m.state (obs ∷ history)) (breached ops obs)
        (λ e.
          arm-Candidate obs (begin_candidate arming obs.observed_at s) (obs ∷ history)
            (obs.observed_at, refl, start e))
        (λ e. tt)
  move-Candidate arming obs s history (since, at, streak) h =
      if_intro (λ (m : Move F). Candidate m.state (obs ∷ history)) (breached ops obs)
        (λ e. arm-Candidate obs (count_candidate s) (obs ∷ history) (
          subst (λ p. CandidateIn p s.candidate_since (s.candidate_count + 1) (obs ∷ history))
            (sym h) (since, at, longer e streak)))
        (λ e. tt)
  move-Candidate triggered obs s history c h =
      if_intro (λ (m : Move F). Candidate m.state (obs ∷ history)) (recovered ops config obs)
        (λ e.
          disarm-Candidate obs (begin_candidate disarming obs.observed_at s) (obs ∷ history)
            (obs.observed_at, refl, start e))
        (λ e. tt)
  move-Candidate disarming obs s history (since, at, streak) h =
      if_intro (λ (m : Move F). Candidate m.state (obs ∷ history)) (recovered ops config obs)
        (λ e. disarm-Candidate obs (count_candidate s) (obs ∷ history) (
          subst (λ p. CandidateIn p s.candidate_since (s.candidate_count + 1) (obs ∷ history))
            (sym h) (since, at, longer e streak)))
        (λ e. tt)

  dwell-Enough :
      (test : TriggerObservation F → Bool) (obs : TriggerObservation F) (s : TriggerKeyState F)
      (history : List (TriggerObservation F)) (since : ℕ)
      → s.candidate_since ≡ some since
      → Streak test s.candidate_count since history
      → dwell_met ops config obs s ≡ true
      → Enough test obs.observed_at history
  unfolding dwell_met Enough
  dwell-Enough test obs s history since at streak met =
      (s.candidate_count, since, ground arith, ground arith, streak)

  arm_on :
      (obs : TriggerObservation F) (s : TriggerKeyState F) (history : List (TriggerObservation F))
      (since : ℕ)
      → is_confirmed s.phase ≡ false
      → s.candidate_since ≡ some since
      → Streak (breached ops) s.candidate_count since history
      → is_confirmed (arm ops config obs s).state.phase ≡ true
      → Enough (breached ops) obs.observed_at history
  arm_on obs s history since off at streak on = elim (arm-cases obs s) [
    | inl e ↦ absurd (ground arith)
    | inr (e, met) ↦ dwell-Enough (breached ops) obs s history since at streak met
  ]

  disarm_off :
      (obs : TriggerObservation F) (s : TriggerKeyState F) (history : List (TriggerObservation F))
      (since : ℕ)
      → is_confirmed s.phase ≡ true
      → s.candidate_since ≡ some since
      → Streak (recovered ops config) s.candidate_count since history
      → is_confirmed (disarm ops config obs s).state.phase ≡ false
      → Enough (recovered ops config) obs.observed_at history
  disarm_off obs s history since on at streak off = elim (disarm-cases obs s) [
    | inl e ↦ absurd (ground arith)
    | inr (e, met) ↦ dwell-Enough (recovered ops config) obs s history since at streak met
  ]

  pub move_on :
      (phase : TriggerPhase) (obs : TriggerObservation F) (s : TriggerKeyState F)
      (history : List (TriggerObservation F))
      → CandidateIn phase s.candidate_since s.candidate_count history
      → s.phase ≡ phase
      → is_confirmed phase ≡ false
      → is_confirmed (move_from ops phase config obs s).state.phase ≡ true
      → Enough (breached ops) obs.observed_at (obs ∷ history)
  unfolding move_from CandidateIn
  move_on clear obs s history c h off on = elim (Bool-cases (breached ops obs)) [
    | inl e ↦
        arm_on obs (begin_candidate arming obs.observed_at s) (obs ∷ history) obs.observed_at refl
          refl (start e) (ground arith)
    | inr e ↦ absurd (ground arith)
  ]
  move_on arming obs s history (since, at, streak) h off on = elim (Bool-cases (breached ops obs)) [
    | inl e ↦
        arm_on obs (count_candidate s) (obs ∷ history) since (ap is_confirmed h) at
          (longer e streak) (ground arith)
    | inr e ↦ absurd (ground arith)
  ]
  move_on triggered obs s history c h off on = absurd (ground arith)
  move_on disarming obs s history c h off on = absurd (ground arith)

  pub move_off :
      (phase : TriggerPhase) (obs : TriggerObservation F) (s : TriggerKeyState F)
      (history : List (TriggerObservation F))
      → CandidateIn phase s.candidate_since s.candidate_count history
      → s.phase ≡ phase
      → is_confirmed phase ≡ true
      → is_confirmed (move_from ops phase config obs s).state.phase ≡ false
      → Enough (recovered ops config) obs.observed_at (obs ∷ history)
  unfolding move_from CandidateIn
  move_off clear obs s history c h on off = absurd (ground arith)
  move_off arming obs s history c h on off = absurd (ground arith)
  move_off triggered obs s history c h on off = elim (Bool-cases (recovered ops config obs)) [
    | inl e ↦
        disarm_off obs (begin_candidate disarming obs.observed_at s) (obs ∷ history) obs.observed_at
          refl refl (start e) (ground arith)
    | inr e ↦ absurd (ground arith)
  ]
  move_off disarming obs s history (since, at, streak) h on off =
      elim (Bool-cases (recovered ops config obs)) [
        | inl e ↦
            disarm_off obs (count_candidate s) (obs ∷ history) since (ap is_confirmed h) at
              (longer e streak) (ground arith)
        | inr e ↦ absurd (ground arith)
      ]
