-- ===== src/Trigger/Store.antt =====
-- The states that `TriggerStabilityEvaluator` keeps by key (trigger-stability.ts): what `evaluate`
-- does to the state of its own key and to the others.
use refract_backend.Trigger.Evaluate.{
  disarm, arm, evaluate, observe, is_stale, answer_of, arm, disarm, state_at, move, move_from,
  Answer, decision, ignored,
}
use refract_backend.Trigger.{
  NumberOps, TriggerStabilityConfig, TriggerObservation, TriggerKeyState, TriggerError,
  is_confirmed, damp, validate_trigger_config, non_finite_observation,
}
use refract_backend.Prelude.{
  ◌≡◌, ◌≢◌, true, false, none, arith, Bool-cases, Result-cases, ◌⊎◌, ◌∙◌, sym, inl, inr, Result, ok,
  err, String, string_discrete, guard, ◌>>◌, ◌&&◌, ap,
}
use refract_backend.Prelude.Dict.{Dict, lookup, insert, lookup-insert_self, lookup-insert_ne}

module _ {F : Type 0} (ops : NumberOps F) (config : TriggerStabilityConfig F) where
  abbrev checks_of : TriggerObservation F → Result TriggerError (Unit {0})
  checks_of obs =
      validate_trigger_config ops config
      >> guard (ops.is_finite obs.value && ops.is_finite obs.threshold) non_finite_observation

  unfoldable pub moved :
      String → TriggerObservation F → Dict String (TriggerKeyState F) → TriggerKeyState F
  moved key obs states = (move ops config obs (damp ops config obs (state_at ops key states))).state

  evaluate-cases :
      (key : String) (obs : TriggerObservation F) (states : Dict String (TriggerKeyState F))
      → ((e : TriggerError) × (checks_of obs ≡ err e)
          × (evaluate ops config key obs states ≡ (err e, states)))
        ⊎ (((is_stale ops obs (state_at ops key states) ≡ true)
              × (evaluate ops config key obs states ≡ (
                ok (decision ops (state_at ops key states) false false ignored, none),
                states,
              )))
            ⊎ ((is_stale ops obs (state_at ops key states) ≡ false)
                × (evaluate ops config key obs states ≡ (
                  ok (answer_of ops config key obs (state_at ops key states)),
                  insert string_discrete key (moved key obs states) states,
                ))))
  unfolding evaluate moved
  evaluate-cases key obs states = elim (Result-cases (checks_of obs)) [
    | inr (e, failed) ↦ inl (e, failed, ground arith)
    | inl (checked, passed) ↦ elim (Bool-cases (is_stale ops obs (state_at ops key states))) [
      | inl stale ↦ inr (inl (stale, ground arith))
      | inr fresh ↦ inr (inr (fresh, ground arith))
    ]
  ]

  last-move :
      (obs : TriggerObservation F) (s : TriggerKeyState F)
      → (move ops config obs s).state.last_observed_at ≡ s.last_observed_at
  unfolding move_from arm disarm
  last-move obs s = ground arith

  moved_stale :
      (key : String) (obs : TriggerObservation F) (states : Dict String (TriggerKeyState F))
      → is_stale ops obs (moved key obs states) ≡ true
  unfolding is_stale moved damp
  moved_stale key obs states =
      ground (arith, last-move obs (damp ops config obs (state_at ops key states)))

  state_at-insert :
      (key : String) (s : TriggerKeyState F) (states : Dict String (TriggerKeyState F))
      → state_at ops key (insert string_discrete key s states) ≡ s
  state_at-insert key s states = ground (arith, lookup-insert_self string_discrete key s states)

  observe_fresh :
      (key : String) (obs : TriggerObservation F) (states : Dict String (TriggerKeyState F))
      → is_stale ops obs (state_at ops key states) ≡ false
      → observe ops config obs (state_at ops key states) ≡ moved key obs states
  unfolding observe moved
  observe_fresh key obs states fresh = ground arith

  observe_stale :
      (key : String) (obs : TriggerObservation F) (states : Dict String (TriggerKeyState F))
      → is_stale ops obs (state_at ops key states) ≡ true
      → observe ops config obs (state_at ops key states) ≡ state_at ops key states
  unfolding observe
  observe_stale key obs states stale = ground arith

  -- An evaluation that does not throw moves the state of its key as the transition of the key
  -- alone says, reports whether that state meets the condition, and leaves the state of every
  -- other key unchanged.
  pub evaluate-observe :
      (key other : String) (obs : TriggerObservation F) (states : Dict String (TriggerKeyState F))
      (answer : Answer ops)
      → (evaluate ops config key obs states).0 ≡ ok answer
      → key ≢ other
      → (state_at ops key (evaluate ops config key obs states).1
          ≡ observe ops config obs (state_at ops key states))
        × (answer.0.is_triggered
            ≡ is_confirmed (observe ops config obs (state_at ops key states)).phase)
        × (lookup string_discrete other (evaluate ops config key obs states).1
            ≡ lookup string_discrete other states)
  unfolding decision answer_of moved
  evaluate-observe key other obs states answer h ne = elim (evaluate-cases key obs states) [
    | inl (e, failed, run) ↦ absurd (ground arith)
    | inr (inl (stale, run)) ↦ (
      ground (arith, observe_stale key obs states stale),
      ground (arith, observe_stale key obs states stale),
      ground arith,
    )
    | inr (inr (fresh, run)) ↦ (
      ap (λ r. state_at ops key r.1) run
          ∙ state_at-insert key (moved key obs states) states
          ∙ sym (observe_fresh key obs states fresh),
      ground (arith, observe_fresh key obs states fresh),
      ap (λ r. lookup string_discrete other r.1) run
          ∙ lookup-insert_ne string_discrete key other (moved key obs states) states ne,
    )
  ]

  passes :
      (key : String) (obs : TriggerObservation F) (states : Dict String (TriggerKeyState F))
      (answer : Answer ops)
      → (evaluate ops config key obs states).0 ≡ ok answer
      → (e : TriggerError) → checks_of obs ≡ err e
      → ⊥
  unfolding evaluate
  passes key obs states answer h e failed = ground arith

  stays_stale :
      (key : String) (obs : TriggerObservation F) (states : Dict String (TriggerKeyState F))
      (answer : Answer ops)
      → (evaluate ops config key obs states).0 ≡ ok answer
      → is_stale ops obs (state_at ops key (evaluate ops config key obs states).1) ≡ false
      → ⊥
  stays_stale key obs states answer h fresh = elim (evaluate-cases key obs states) [
    | inl (e, failed, run) ↦ passes key obs states answer h e failed
    | inr (inl (stale, run)) ↦ ground (arith, ap (λ r. is_stale ops obs (state_at ops key r.1)) run)
    | inr (inr (old, run)) ↦ ground (
      arith,
      moved_stale key obs states,
      ap (is_stale ops obs)
          (ap (λ r. state_at ops key r.1) run ∙ state_at-insert key (moved key obs states) states),
    )
  ]

  -- Once an evaluation has answered, evaluating the same observation again is answered as
  -- ignored, with the state that the key now has, and changes no state.
  pub evaluate_again :
      (key : String) (obs : TriggerObservation F) (states : Dict String (TriggerKeyState F))
      (answer : Answer ops)
      → (evaluate ops config key obs states).0 ≡ ok answer
      → evaluate ops config key obs (evaluate ops config key obs states).1 ≡ (
        ok (
          decision ops
              (state_at ops key (evaluate ops config key obs states).1)
              false
              false
              ignored,
          none,
        ),
        (evaluate ops config key obs states).1,
      )
  evaluate_again key obs states answer h =
      elim (evaluate-cases key obs (evaluate ops config key obs states).1) [
        | inl (e, failed, run) ↦ absurd (passes key obs states answer h e failed)
        | inr (inl (stale, run)) ↦ run
        | inr (inr (fresh, run)) ↦ absurd (stays_stale key obs states answer h fresh)
      ]
