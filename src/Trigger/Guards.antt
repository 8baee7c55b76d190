-- ===== src/Trigger/Guards.antt =====
-- What the guards of src/claim/trigger/trigger-stability.ts hold back: when an observation may
-- change whether the condition of a key is met, and how far the flap penalty can rise.
use refract_backend.Trigger.Evaluate.{move, move_from, observe, is_stale, arm, disarm}
use refract_backend.Trigger.{
  NumberOps, TriggerStabilityConfig, TriggerObservation, TriggerKeyState, is_confirmed, breached,
  recovered, damp, decayed_penalty, next_penalty, is_flip, next_suppressed,
}
use refract_backend.Prelude.{
  ◌-◌, if_intro, Option-cases, ℕ, ◌≡◌, ◌≢◌, ◌⊎◌, Bool, true, false, inl, inr, refl, arith,
  Bool-cases, subst,
}

module _ {F : Type 0} (ops : NumberOps F) where
  phase-damp :
      (config : TriggerStabilityConfig F) (obs : TriggerObservation F) (s : TriggerKeyState F)
      → (damp ops config obs s).phase ≡ s.phase
  unfolding damp
  phase-damp config obs s = refl

  -- What a change of the confirmed outcome needs.
  unfoldable pub Earned : TriggerStabilityConfig F → TriggerObservation F → Bool → Bool → Type 0
  Earned config obs before suppressed =
      (suppressed ≡ false)
      × (((before ≡ false) × (breached ops obs ≡ true))
          ⊎ ((before ≡ true) × (recovered ops config obs ≡ true)))

  move_change :
      (config : TriggerStabilityConfig F) (obs : TriggerObservation F) (s : TriggerKeyState F)
      → is_confirmed (move ops config obs s).state.phase ≢ is_confirmed s.phase
      → Earned config obs (is_confirmed s.phase) s.suppressed
  unfolding move_from arm disarm Earned
  move_change config obs s h = ground arith

  -- An observation that changes whether the condition is met is newer than the last accepted one,
  -- finds the key not suppressed after its damping, and either breaches the threshold where the
  -- condition was not met or has recovered past the band where it was met.
  pub observe_change :
      (config : TriggerStabilityConfig F) (obs : TriggerObservation F) (s : TriggerKeyState F)
      → is_confirmed (observe ops config obs s).phase ≢ is_confirmed s.phase
      → (is_stale ops obs s ≡ false)
        × Earned config obs (is_confirmed s.phase) (damp ops config obs s).suppressed
  unfolding observe Earned damp
  observe_change config obs s h = elim (Bool-cases (is_stale ops obs s)) [
    | inl stale ↦ ground arith
    | inr fresh ↦ (fresh, move_change config obs (damp ops config obs s) (ground arith))
  ]

  -- Suppression ends only by decay.
  pub damp_suppressed :
      (config : TriggerStabilityConfig F) (obs : TriggerObservation F) (s : TriggerKeyState F)
      → s.suppressed ≡ true
      → ops.lt (damp ops config obs s).penalty config.flap.reuse_below ≡ false
      → (damp ops config obs s).suppressed ≡ true
  unfolding damp next_suppressed
  damp_suppressed config obs s h still = ground arith

  decayed_within :
      (Within : F → F → Type 0)
      (decay_le : (a b : F) (t half : ℕ) → Within a b → Within (ops.decay a t half) b)
      (config : TriggerStabilityConfig F) (obs : TriggerObservation F) (s : TriggerKeyState F)
      → Within s.penalty config.flap.max_penalty
      → Within (decayed_penalty ops config obs s) config.flap.max_penalty
  unfolding decayed_penalty
  decayed_within Within decay_le config obs s h = elim (Option-cases s.last_observed_at) [
    | inl e ↦ subst (λ p. Within p config.flap.max_penalty) (ground arith) h
    | inr (last, e) ↦
        subst (λ p. Within p config.flap.max_penalty) (ground arith)
          (decay_le s.penalty config.flap.max_penalty (obs.observed_at - last)
            config.flap.half_life_ms h)
  ]

  -- The flap penalty never passes its configured maximum: a state within it stays within it, for
  -- every relation that holds between the smaller of two numbers and the first, and that decay
  -- keeps.
  pub damp_penalty :
      (Within : F → F → Type 0) (smaller_le : (a b : F) → Within (ops.smaller a b) a)
      (decay_le : (a b : F) (t half : ℕ) → Within a b → Within (ops.decay a t half) b)
      (config : TriggerStabilityConfig F) (obs : TriggerObservation F) (s : TriggerKeyState F)
      → Within s.penalty config.flap.max_penalty
      → Within (damp ops config obs s).penalty config.flap.max_penalty
  unfolding damp next_penalty decayed_penalty
  damp_penalty Within smaller_le decay_le config obs s h =
      if_intro (λ p. Within p config.flap.max_penalty)
        (is_flip ops s.last_raw_breached (breached ops obs))
        (λ e.
          smaller_le config.flap.max_penalty
            (ops.add (decayed_penalty ops config obs s) config.flap.penalty_per_flip))
        (λ e. decayed_within Within decay_le config obs s h)
