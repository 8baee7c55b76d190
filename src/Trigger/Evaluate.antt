-- ===== src/Trigger/Evaluate.antt =====
-- The evaluator of src/claim/trigger/trigger-stability.ts: `evaluate`, the phases that it moves
-- through, its transition events, and the states that it keeps by key. A listener cannot change a
-- decision, since `emit` swallows what it throws; so an event is part of the answer.
use refract_backend.Prelude.{
  ℕ, ◌+◌, ◌-◌, Bool, true, false, not, ◌&&◌, ◌||◌, Option, none, some, leb, if◌then◌else◌, Result,
  ok, err, guard, ◌>>◌, String, string_discrete,
}
use refract_backend.Prelude.Dict.{Dict, lookup, insert, delete}
use refract_backend.Trigger.{
  NumberOps, TriggerDirection, TriggerPhase, clear, arming, triggered, disarming,
  TriggerStabilityConfig, TriggerObservation, TriggerKeyState, TriggerError, non_finite_observation,
  is_confirmed, validate_trigger_config, initial_state, breached, recovered, damp, dwell_met,
}

-- The messages in `reason`, with the numbers that they name.
pub data Reason (F : Type 0) : Type 0 where
  ignored not_breached breach_confirmed : Reason F
  waiting_to_trigger : ℕ → ℕ → Reason F
  trigger_suppressed : F → Reason F
  still_breached within_band waiting_to_clear recovery_confirmed : Reason F
  clear_suppressed : F → Reason F

pub record TriggerDecision (F : Type 0) : Type 0 where
  pub is_triggered : Bool
  pub phase : TriggerPhase
  pub suppressed : Bool
  pub penalty : F
  pub confirmed_at : Option ℕ
  pub changed : Bool
  pub accepted : Bool
  pub reason : Reason F

pub data EventKind : Type 0 where
  transition suppression : EventKind

pub record TransitionEvidence (F : Type 0) : Type 0 where
  pub value : F
  pub threshold : F
  pub direction : TriggerDirection
  pub hysteresis : F
  pub penalty : F
  pub flips : ℕ
  pub candidate_since : Option ℕ
  pub reason : Reason F

pub record TriggerTransitionEvent (F : Type 0) : Type 0 where
  pub key : String
  pub kind : EventKind
  pub from : TriggerPhase
  pub to : TriggerPhase
  pub at : ℕ
  pub evidence : TransitionEvidence F

-- What the `switch` leaves: the state, `suppressedChange` and the reason.
pub record Move (F : Type 0) : Type 0 where
  pub state : TriggerKeyState F
  pub suppressed_change : Bool
  pub reason : Reason F

abbrev pub drop_candidate : {F : Type 0} → TriggerPhase → TriggerKeyState F → TriggerKeyState F
drop_candidate phase s = record s { phase = phase; candidate_since = none; candidate_count = 0 }

abbrev pub begin_candidate : {F : Type 0} → TriggerPhase → ℕ → TriggerKeyState F → TriggerKeyState F
begin_candidate phase at s = record s {
  phase = phase;
  candidate_since = some at;
  candidate_count = 1;
}

abbrev pub count_candidate : {F : Type 0} → TriggerKeyState F → TriggerKeyState F
count_candidate s = record s { candidate_count = s.candidate_count + 1 }

abbrev waited : ℕ → Option ℕ → ℕ
waited now none = 0
waited now (some since) = now - since

module _ {F : Type 0} (ops : NumberOps F) where
  -- The breach goes on: count it, and confirm it when the dwell is met.
  unfoldable pub arm : TriggerStabilityConfig F → TriggerObservation F → TriggerKeyState F → Move F
  arm config obs s =
      if not (dwell_met ops config obs s)
      then record {
        state = s;
        suppressed_change = false;
        reason = waiting_to_trigger s.candidate_count (waited obs.observed_at s.candidate_since);
      }
      else if s.suppressed
      then record { state = s; suppressed_change = true; reason = trigger_suppressed s.penalty }
      else record {
        state = record (drop_candidate triggered s) { confirmed_at = some obs.observed_at };
        suppressed_change = false;
        reason = breach_confirmed;
      }

  -- The recovery goes on: count it, and clear the condition when the dwell is met.
  unfoldable pub disarm :
      TriggerStabilityConfig F → TriggerObservation F → TriggerKeyState F → Move F
  disarm config obs s =
      if not (dwell_met ops config obs s)
      then record { state = s; suppressed_change = false; reason = waiting_to_clear }
      else if s.suppressed
      then record { state = s; suppressed_change = true; reason = clear_suppressed s.penalty }
      else record {
        state = record (drop_candidate clear s) { confirmed_at = none };
        suppressed_change = false;
        reason = recovery_confirmed;
      }

  -- No candidate for a change: the phase is `phase`.
  abbrev pub settled : TriggerPhase → TriggerKeyState F → Reason F → Move F
  settled phase s reason = record {
    state = drop_candidate phase s;
    suppressed_change = false;
    reason = reason;
  }

  abbrev pub staying : TriggerObservation F → TriggerKeyState F → Move F
  staying obs s = settled triggered s (if breached ops obs then still_breached else within_band)

  -- The `switch` over the phase.
  unfoldable pub move_from :
      TriggerPhase → TriggerStabilityConfig F → TriggerObservation F → TriggerKeyState F → Move F
  unfolding arm disarm
  move_from clear config obs s =
      if breached ops obs
      then arm config obs (begin_candidate arming obs.observed_at s)
      else settled clear s not_breached
  move_from arming config obs s =
      if breached ops obs then arm config obs (count_candidate s) else settled clear s not_breached
  move_from triggered config obs s =
      if recovered ops config obs
      then disarm config obs (begin_candidate disarming obs.observed_at s)
      else staying obs s
  move_from disarming config obs s =
      if recovered ops config obs then disarm config obs (count_candidate s) else staying obs s

  abbrev pub move : TriggerStabilityConfig F → TriggerObservation F → TriggerKeyState F → Move F
  move config obs s = move_from s.phase config obs s

  unfoldable pub is_stale : TriggerObservation F → TriggerKeyState F → Bool
  is_stale obs s = elim s.last_observed_at [ none ↦ false | some last ↦ leb obs.observed_at last ]

  abbrev confirmed_time : TriggerKeyState F → Option ℕ
  confirmed_time s = if is_confirmed s.phase then s.confirmed_at else none

  -- `decision`.
  unfoldable pub decision : TriggerKeyState F → Bool → Bool → Reason F → TriggerDecision F
  decision s accepted changed reason = record {
    is_triggered = is_confirmed s.phase;
    phase = s.phase;
    suppressed = s.suppressed;
    penalty = s.penalty;
    confirmed_at = confirmed_time s;
    changed = changed;
    accepted = accepted;
    reason = reason;
  }

  abbrev flipped : Bool → Bool → Bool
  flipped true b = not b
  flipped false b = b

  -- The event that an accepted observation emits, if it does.
  unfoldable pub event_of :
      String
      → TriggerStabilityConfig F
      → TriggerObservation F
      → TriggerKeyState F
      → Move F
      → Option (TriggerTransitionEvent F)
  event_of key config obs prev next =
      let changed = flipped (is_confirmed prev.phase) (is_confirmed next.state.phase) in
      if changed || next.suppressed_change
      then some (record {
        key = key;
        kind = if changed then transition else suppression;
        from = prev.phase;
        to =
            if changed
            then next.state.phase
            else if is_confirmed prev.phase
            then clear
            else triggered;
        at = obs.observed_at;
        evidence = record {
          value = obs.value;
          threshold = obs.threshold;
          direction = obs.direction;
          hysteresis = config.hysteresis;
          penalty = next.state.penalty;
          flips = next.state.flips;
          candidate_since = prev.candidate_since;
          reason = next.reason;
        };
      })
      else none

  -- The part of `evaluate` past its checks that sets the state of the key.
  unfoldable pub observe :
      TriggerStabilityConfig F → TriggerObservation F → TriggerKeyState F → TriggerKeyState F
  unfolding is_stale move_from damp
  observe config obs prev =
      if is_stale obs prev then prev else (move config obs (damp ops config obs prev)).state

  abbrev pub state_at : String → Dict String (TriggerKeyState F) → TriggerKeyState F
  state_at key states = elim (lookup string_discrete key states) [
    | none ↦ initial_state ops
    | some s ↦ s
  ]

  abbrev pub Answer : Type 0
  Answer = TriggerDecision F × Option (TriggerTransitionEvent F)

  -- What `evaluate` answers to an observation that it accepts.
  unfoldable pub answer_of :
      TriggerStabilityConfig F → String → TriggerObservation F → TriggerKeyState F → Answer
  unfolding move_from damp decision event_of
  answer_of config key obs prev =
      let next = move config obs (damp ops config obs prev) in
      let changed = flipped (is_confirmed prev.phase) (is_confirmed next.state.phase) in
      (decision next.state true changed next.reason, event_of key config obs prev next)

  -- `evaluate`, with the configuration that `configFor` answers.
  unfoldable pub evaluate :
      TriggerStabilityConfig F
      → String
      → TriggerObservation F
      → Dict String (TriggerKeyState F)
      → Result TriggerError Answer × Dict String (TriggerKeyState F)
  unfolding is_stale move_from damp decision answer_of
  evaluate config key obs states =
      let prev = state_at key states in
      let checks =
        validate_trigger_config ops config
        >> guard (ops.is_finite obs.value && ops.is_finite obs.threshold) non_finite_observation in
      elim checks [
        | err e ↦ (err e, states)
        | ok checked ↦
            if is_stale obs prev then (ok (decision prev false false ignored, none), states) else (
              ok (answer_of config key obs prev),
              insert string_discrete key (move config obs (damp ops config obs prev)).state states,
            )
      ]

  -- `forget`.
  unfoldable pub forget : String → Dict String (TriggerKeyState F) → Dict String (TriggerKeyState F)
  forget key states = delete string_discrete key states
