-- ===== src/Tests/Consensus.antt =====
-- src/oracle/consensus/consensus.ts at concrete inputs, over whole numbers.
use refract_backend.Prelude.{
  ok, err, length, ◌∷◌, [], List, some, none, false, true, Bool, ◌⊎◌, refl, ◌≡◌, String, max, ◌/◌,
  ◌*◌, ◌-◌, ◌+◌, ◌≤◌, string_discrete, if◌then◌else◌, leb, ltb, ℕ, arith,
}
use refract_backend.Prelude.Int.{ℤ, pos}
use refract_backend.Encoding.Provenance.{
  ReadingProvenance, provenance_from_decision, pack_provenance, unpack_provenance, not_agreed,
  is_decision_id, timestamp_max,
}
use refract_backend.Consensus.{
  ConsensusDecision, Canonical, median, is_valid_policy, SourceObservation, meets_quorum,
  ConsensusPolicy, unanimous, is_agreed, agreed, Numbers,
}
use refract_backend.Consensus.Evaluate.{
  round_status, decide, decide_screened, decision_id_of, tier_of, evaluate_consensus,
}
use refract_backend.Consensus.Outcome.{
  RoundOutcome, sources_counted, times_listed, evaluate_consensus-RoundOutcome,
}
use refract_backend.Consensus.Listing.{has_reported}
use refract_backend.Consensus.Totals.{Timely}
use refract_backend.Consensus.Publish.{evaluate_consensus-provenance}
use refract_backend.Consensus.Screening.{screen, by_source, verdict_of, is_well_formed}

abbrev whole : Numbers ℕ
whole = record {
  nil = 0;
  one = 1;
  two = 2;
  plus = λ a b. a + b;
  less = λ a b. (a - b) + (b - a);
  times = λ a b. a * b;
  over = λ a b. a / b;
  magnitude = λ a. a;
  larger = max;
  is_finite = λ a. true;
  below = ltb;
  at_least = λ a b. leb b a;
  seconds = λ t. pos (t / 1000);
}

abbrev strict : ConsensusPolicy ℕ
strict = record {
  quorum_ratio = 1;
  min_agreeing_sources = 2;
  max_deviation_ratio = 0;
  absolute_deviation_floor = 5;
  max_staleness_ms = 300000;
  max_future_skew_ms = 30000;
}

abbrev report : String → ℕ → ℕ → SourceObservation ℕ
report id value at = record {
  source_id = id;
  is_text = true;
  value = value;
  weight = 1;
  observed_at = at;
}

abbrev three_agree : List (SourceObservation ℕ)
three_agree = report "a" 100 1000 ∷ report "b" 102 2000 ∷ report "c" 101 3000 ∷ []

abbrev unsorted : String → String → Bool
unsorted a b = false

abbrev zeros : Canonical ℕ → List ℕ
zeros c = 48 ∷ 48 ∷ 48 ∷ 48 ∷ 48 ∷ 48 ∷ 48 ∷ 48 ∷ 48 ∷ 48 ∷ 48 ∷ 48 ∷ 48 ∷ 48 ∷ 48 ∷ 48 ∷ []

abbrev round_decision : ConsensusDecision ℕ
round_decision = record {
  status = agreed;
  value = some 101;
  trust_tier = unanimous;
  decision_id =
      zeros (record { rows = []; policy = strict; status = agreed; value = none; at = 0 });
  center = some 101;
  agreeing_sources = "a" ∷ "b" ∷ "c" ∷ [];
  outlier_sources = [];
  stale_sources = [];
  invalid_sources = [];
  agreeing_weight = 3;
  total_weight = 3;
  source_timestamp = some 1000;
  evaluated_at = 5000;
}

three_agree_run :
    evaluate_consensus whole unsorted (λ o. o.source_id) zeros strict 5000 three_agree
    ≡ ok round_decision
unfolding evaluate_consensus is_valid_policy screen by_source verdict_of is_well_formed
    decide_screened median decide round_status meets_quorum tier_of decision_id_of string_discrete
three_agree_run = refl

evaluate_consensus-RoundOutcome_example :
    (d : ConsensusDecision ℕ) × (evaluate_consensus whole unsorted
        (λ o. o.source_id)
        zeros
        strict
        5000
        three_agree
      ≡ ok d)
    × (sources_counted whole unsorted (λ o. o.source_id) zeros strict 5000 d
        ≡ length (by_source three_agree))
    × ((id : String)
        → times_listed whole unsorted (λ o. o.source_id) zeros strict 5000 id d
          ≡ (if has_reported id three_agree then 1 else 0))
    × RoundOutcome whole unsorted (λ o. o.source_id) zeros strict 5000 three_agree d
unfolding is_valid_policy
evaluate_consensus-RoundOutcome_example =
    evaluate_consensus-RoundOutcome whole unsorted (λ o. o.source_id) zeros strict 5000 three_agree
      refl refl

whole_times :
    (t : ℕ) → Timely whole strict 5000 t → (s : ℕ) × (whole.seconds t ≡ pos s) × (s ≤ timestamp_max)
whole_times t (ahead, _) = (t / 1000, refl, ground arith)

evaluate_consensus-provenance_example :
    (d : ConsensusDecision ℕ) × (evaluate_consensus whole unsorted
        (λ o. o.source_id)
        zeros
        strict
        5000
        three_agree
      ≡ ok d)
    × (((d.status ≡ agreed)
          × (p : ReadingProvenance) × (z : ℤ) × (provenance_from_decision whole d ≡ ok p)
          × (pack_provenance p ≡ ok z)
          × (unpack_provenance z ≡ ok p))
        ⊎ ((is_agreed d.status ≡ false) × (provenance_from_decision whole d ≡ err not_agreed)))
unfolding is_valid_policy is_decision_id
evaluate_consensus-provenance_example =
    evaluate_consensus-provenance whole unsorted (λ o. o.source_id) zeros strict 5000 three_agree
      refl refl (λ c. refl) (omega arith) whole_times
