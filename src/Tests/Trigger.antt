-- ===== src/Tests/Trigger.antt =====
-- src/claim/trigger/trigger-stability.ts at concrete inputs, with whole numbers for the readings.
use mathlib.Core.Bool.{false≢true}
use text.Mathlib.TextEquality.{eq_iff}
use refract_backend.Prelude.{
  sym, ℕ, ◌+◌, ◌-◌, ◌≤◌, ltb, leb, true, false, List, [], ◌∷◌, ok, ◌≡◌, arith, refl, if◌then◌else◌,
  none, string_discrete,
}
use refract_backend.Prelude.Dict.{lookup}
use refract_backend.Trigger.{
  NumberOps, TriggerStabilityConfig, TriggerObservation, below, is_confirmed, initial_state, damp,
  breached, recovered, dwell_met, validate_trigger_config,
}
use refract_backend.Trigger.Evaluate.{
  evaluate, observe, is_stale, decision, ignored, state_at, answer_of, move_from,
}
use refract_backend.Trigger.Guards.{Earned, observe_change, damp_penalty}
use refract_backend.Trigger.Candidates.{Enough}
use refract_backend.Trigger.Streaks.{state_after, accepted_of, confirmed-streak, cleared-streak}
use refract_backend.Trigger.Store.{evaluate-observe, evaluate_again}

-- A penalty that is gone after its half-life.
abbrev whole : NumberOps ℕ
whole = record {
  nil = 0;
  add = λ a b. a + b;
  sub = λ a b. a - b;
  lt = ltb;
  le = leb;
  smaller = λ a b. if leb a b then a else b;
  is_finite = λ a. true;
  decay = λ p elapsed half. if ltb elapsed half then p else 0;
}

abbrev config : TriggerStabilityConfig ℕ
config = record {
  hysteresis = 5;
  min_dwell_ms = 10;
  min_confirmations = 2;
  flap = record {
    penalty_per_flip = 1000;
    suppress_above = 3000;
    reuse_below = 750;
    half_life_ms = 100;
    max_penalty = 6000;
  };
}

abbrev reading_at : ℕ → ℕ → TriggerObservation ℕ
reading_at value at = record { value = value; threshold = 950; direction = below; observed_at = at }

abbrev dipped : List (TriggerObservation ℕ)
dipped = reading_at 949 20 ∷ reading_at 960 5 ∷ []

abbrev held : List (TriggerObservation ℕ)
held = reading_at 940 31 ∷ reading_at 949 20 ∷ dipped

abbrev back : List (TriggerObservation ℕ)
back = reading_at 956 40 ∷ held

confirmed-streak_example : Enough whole config (breached whole) 31 (accepted_of whole config held)
unfolding state_after observe is_stale move_from damp initial_state breached dwell_met recovered
confirmed-streak_example =
    confirmed-streak whole config (reading_at 940 31) (reading_at 949 20 ∷ dipped) refl refl

cleared-streak_example :
    Enough whole config
      (recovered whole config)
      52
      (accepted_of whole config (reading_at 960 52 ∷ back))
unfolding state_after observe is_stale move_from damp initial_state breached dwell_met recovered
cleared-streak_example = cleared-streak whole config (reading_at 960 52) back refl refl

observe_change_example :
    (is_stale whole (reading_at 940 31) (state_after whole config (reading_at 949 20 ∷ dipped))
      ≡ false)
    × Earned whole config
        (reading_at 940 31)
        (is_confirmed (state_after whole config (reading_at 949 20 ∷ dipped)).phase)
        (damp whole config
          (reading_at 940 31)
          (state_after whole config (reading_at 949 20 ∷ dipped))).suppressed
unfolding state_after observe is_stale move_from damp initial_state breached dwell_met recovered
observe_change_example =
    observe_change whole config (reading_at 940 31)
      (state_after whole config (reading_at 949 20 ∷ dipped)) (λ e. false≢true (sym e))

damp_penalty_example :
    (damp whole config (reading_at 960 8) (state_after whole config dipped)).penalty ≤ 6000
unfolding state_after observe is_stale move_from damp initial_state breached dwell_met recovered
damp_penalty_example =
    damp_penalty whole (λ a b. a ≤ b) (λ a b. ground arith) (λ a b t half h. ground arith) config
      (reading_at 960 8) (state_after whole config dipped) (omega arith)

evaluate-observe_example :
    (state_at whole "p1" (evaluate whole config "p1" (reading_at 949 20) []).1
      ≡ observe whole config (reading_at 949 20) (state_at whole "p1" []))
    × ((answer_of whole config "p1" (reading_at 949 20) (state_at whole "p1" [])).0.is_triggered
        ≡ is_confirmed (observe whole config (reading_at 949 20) (state_at whole "p1" [])).phase)
    × (lookup string_discrete "p2" (evaluate whole config "p1" (reading_at 949 20) []).1
        ≡ lookup string_discrete "p2" [])
unfolding evaluate validate_trigger_config is_stale initial_state
evaluate-observe_example =
    evaluate-observe whole config "p1" "p2" (reading_at 949 20) []
      (answer_of whole config "p1" (reading_at 949 20) (state_at whole "p1" [])) refl
      (ground (arith, eq_iff "p1" "p2"))

evaluate_again_example :
    evaluate whole config "p1"
      (reading_at 949 20)
      (evaluate whole config "p1" (reading_at 949 20) []).1
    ≡ (
      ok (
        decision whole
            (state_at whole "p1" (evaluate whole config "p1" (reading_at 949 20) []).1)
            false
            false
            ignored,
        none,
      ),
      (evaluate whole config "p1" (reading_at 949 20) []).1,
    )
unfolding evaluate validate_trigger_config is_stale initial_state
evaluate_again_example =
    evaluate_again whole config "p1" (reading_at 949 20) []
      (answer_of whole config "p1" (reading_at 949 20) (state_at whole "p1" [])) refl
