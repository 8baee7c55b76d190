-- ===== src/Trigger.antt =====
-- src/claim/trigger/trigger-stability.ts: the debounced threshold trigger. This file has the
-- configuration, the state of a key and the guards (hysteresis, damping, dwell); Evaluate has the
-- evaluator, Guards, Candidates, Streaks and Store what is proved. `F` stands for a JavaScript number that is
-- not a count, with the operations in `NumberOps`; times and counts are whole numbers.
pub mod Evaluate
pub mod Guards
pub mod Candidates
pub mod Streaks
pub mod Store
use refract_backend.Prelude.{
  ℕ, ◌+◌, ◌-◌, Bool, true, false, not, ◌&&◌, ◌||◌, Option, none, some, ltb, leb, ◌==◌,
  if◌then◌else◌, Result, ok, err, guard, ◌>>◌,
}

-- The arithmetic of the readings; `decay p elapsed half_life` is `p * 2 ** (-elapsed / half_life)`.
pub record NumberOps (F : Type 0) : Type 0 where
  pub nil : F
  pub add : F → F → F
  pub sub : F → F → F
  pub lt : F → F → Bool
  pub le : F → F → Bool
  pub smaller : F → F → F
  pub is_finite : F → Bool
  pub decay : F → ℕ → ℕ → F

pub data TriggerDirection : Type 0 where
  below above : TriggerDirection

pub data TriggerPhase : Type 0 where
  clear arming triggered disarming : TriggerPhase

pub record FlapDampingConfig (F : Type 0) : Type 0 where
  pub penalty_per_flip : F
  pub suppress_above : F
  pub reuse_below : F
  pub half_life_ms : ℕ
  pub max_penalty : F

pub record TriggerStabilityConfig (F : Type 0) : Type 0 where
  pub hysteresis : F
  pub min_dwell_ms : ℕ
  pub min_confirmations : ℕ
  pub flap : FlapDampingConfig F

pub record TriggerObservation (F : Type 0) : Type 0 where
  pub value : F
  pub threshold : F
  pub direction : TriggerDirection
  pub observed_at : ℕ

pub record TriggerKeyState (F : Type 0) : Type 0 where
  pub phase : TriggerPhase
  pub candidate_since : Option ℕ
  pub candidate_count : ℕ
  pub confirmed_at : Option ℕ
  pub last_raw_breached : Option Bool
  pub penalty : F
  pub suppressed : Bool
  pub last_observed_at : Option ℕ
  pub flips : ℕ

pub data TriggerError : Type 0 where
  bad_hysteresis bad_min_confirmations bad_half_life bad_penalty_per_flip : TriggerError
  bad_reuse_below bad_max_penalty non_finite_observation : TriggerError

-- `isConfirmed`.
abbrev pub is_confirmed : TriggerPhase → Bool
is_confirmed clear = false
is_confirmed arming = false
is_confirmed triggered = true
is_confirmed disarming = true

module _ {F : Type 0} (ops : NumberOps F) where
  unfoldable pub validate_trigger_config : TriggerStabilityConfig F → Result TriggerError (Unit {0})
  validate_trigger_config config =
      guard (ops.is_finite config.hysteresis && not (ops.lt config.hysteresis ops.nil))
        bad_hysteresis
      >> guard (leb 1 config.min_confirmations) bad_min_confirmations
      >> guard (ltb 0 config.flap.half_life_ms) bad_half_life
      >> guard (ops.le ops.nil config.flap.penalty_per_flip) bad_penalty_per_flip
      >> guard
          (ops.lt ops.nil config.flap.reuse_below
            && ops.lt config.flap.reuse_below config.flap.suppress_above)
          bad_reuse_below
      >> guard (ops.le config.flap.suppress_above config.flap.max_penalty) bad_max_penalty

  -- `initialState`.
  unfoldable pub initial_state : TriggerKeyState F
  initial_state = record {
    phase = clear;
    candidate_since = none;
    candidate_count = 0;
    confirmed_at = none;
    last_raw_breached = none;
    penalty = ops.nil;
    suppressed = false;
    last_observed_at = none;
    flips = 0;
  }

  -- The value is past the threshold.
  unfoldable pub breached : TriggerObservation F → Bool
  breached obs = elim obs.direction [
    | below ↦ ops.lt obs.value obs.threshold
    | above ↦ ops.lt obs.threshold obs.value
  ]

  -- The value is back beyond the hysteresis band.
  unfoldable pub recovered : TriggerStabilityConfig F → TriggerObservation F → Bool
  recovered config obs = elim obs.direction [
    | below ↦ ops.le (ops.add obs.threshold config.hysteresis) obs.value
    | above ↦ ops.le obs.value (ops.sub obs.threshold config.hysteresis)
  ]

  -- The penalty as time has passed since the last observation.
  unfoldable pub decayed_penalty :
      TriggerStabilityConfig F → TriggerObservation F → TriggerKeyState F → F
  decayed_penalty config obs s = elim s.last_observed_at [
    | none ↦ s.penalty
    | some last ↦ ops.decay s.penalty (obs.observed_at - last) config.flap.half_life_ms
  ]

  abbrev differs : Bool → Bool → Bool
  differs true b = not b
  differs false b = b

  -- The raw comparison came out the other way the last time.
  unfoldable pub is_flip : Option Bool → Bool → Bool
  is_flip none now = false
  is_flip (some last) now = differs last now

  unfoldable pub next_penalty :
      TriggerStabilityConfig F → TriggerObservation F → TriggerKeyState F → F
  unfolding decayed_penalty is_flip
  next_penalty config obs s =
      if is_flip s.last_raw_breached (breached obs)
      then ops.smaller config.flap.max_penalty
          (ops.add (decayed_penalty config obs s) config.flap.penalty_per_flip)
      else decayed_penalty config obs s

  unfoldable pub next_suppressed : FlapDampingConfig F → F → Bool → Bool
  next_suppressed flap penalty suppressed =
      if not suppressed && ops.lt flap.suppress_above penalty
      then true
      else if suppressed && ops.lt penalty flap.reuse_below
      then false
      else suppressed

  -- The state with the damping of the observation, before the phase moves.
  unfoldable pub damp :
      TriggerStabilityConfig F → TriggerObservation F → TriggerKeyState F → TriggerKeyState F
  unfolding next_penalty next_suppressed is_flip
  damp config obs s =
      let penalty = next_penalty config obs s in
      record s {
        penalty = penalty;
        flips = if is_flip s.last_raw_breached (breached obs) then s.flips + 1 else s.flips;
        last_raw_breached = some (breached obs);
        last_observed_at = some obs.observed_at;
        suppressed = next_suppressed config.flap penalty s.suppressed;
      }

  unfoldable pub dwell_met :
      TriggerStabilityConfig F → TriggerObservation F → TriggerKeyState F → Bool
  dwell_met config obs s = elim s.candidate_since [
    | none ↦ false
    | some since ↦
        leb config.min_confirmations s.candidate_count
        && leb config.min_dwell_ms (obs.observed_at - since)
  ]
