-- ===== src/Consensus/Publish.antt =====
-- From a round to the chain: what `evaluateConsensus` agrees on is fit for `provenanceFromDecision`
-- and `packProvenance`, and nothing else is published.
use refract_backend.Prelude.Int.{ℤ, pos}
use refract_backend.Prelude.{
  guard_refused, List, Bool, inr, inl, ◌⊎◌, ◌∙◌, String, ok, err, length, some, false, true, ap,
  ◌≡◌, ◌<◌, ◌≤◌, ℕ, arith,
}
use refract_backend.Consensus.{
  ConsensusPolicy, Numbers, Canonical, is_valid_policy, agreed, is_agreed, ConsensusDecision,
  SourceObservation,
}
use refract_backend.Consensus.Outcome.{evaluate_consensus-RoundOutcome}
use refract_backend.Encoding.Provenance.{
  pack_provenance, unpack_provenance, ReadingProvenance, not_agreed, is_consistent, timestamp_max,
  is_decision_id, assert_valid_provenance, provenance_from_decision,
}
use refract_backend.Consensus.Evaluate.{evaluate_consensus}
use refract_backend.Consensus.Totals.{length-by_source, Timely}
use refract_backend.Encoding.Packing.{provenance_from_decision-packs}

refused :
    {N : Type 0} (num : Numbers N) (d : ConsensusDecision N)
    → is_agreed d.status ≡ false
    → provenance_from_decision num d ≡ err not_agreed
unfolding provenance_from_decision
refused num d h = guard_refused (is_agreed d.status) not_agreed _ h

accepted :
    {N : Type 0} (num : Numbers N) (d : ConsensusDecision N) (t : N) (s : ℕ)
    → d.status ≡ agreed
    → d.source_timestamp ≡ some t
    → num.seconds t ≡ pos s
    → s ≤ timestamp_max
    → 0 < d.trust_tier
    → d.trust_tier ≤ 3
    → is_consistent d.trust_tier (length d.agreeing_sources) ≡ true
    → length d.agreeing_sources ≤ 255
    → is_decision_id d.decision_id ≡ true
    → (p : ReadingProvenance) × (provenance_from_decision num d ≡ ok p)
unfolding provenance_from_decision assert_valid_provenance
accepted num d t s is_so time whole early low high consistent few named = (
  record {
    trust_tier = d.trust_tier;
    agreeing_sources = length d.agreeing_sources;
    decision_id = d.decision_id;
    source_timestamp = s;
  },
  ground arith,
)

module _ {N : Type 0} (num : Numbers N) (before : String → String → Bool)
    (row_text : SourceObservation N → String) (hash : Canonical N → List ℕ)
    (policy : ConsensusPolicy N) (now : N) where
  -- Under a valid policy and at a finite time, with a hash that gives 16 hex digits, at most 255
  -- observations, and where every time that is neither stale nor too far ahead is, in whole
  -- seconds, a number of at most 40 bits, a round either agrees, and then its provenance is
  -- derived, packs and unpacks to itself, or it does not agree, and then deriving a provenance
  -- fails.
  pub evaluate_consensus-provenance :
      (observations : List (SourceObservation N))
      → is_valid_policy num policy ≡ true
      → num.is_finite now ≡ true
      → ((c : Canonical N) → is_decision_id (hash c) ≡ true)
      → length observations ≤ 255
      → ((t : N)
          → Timely num policy now t
          → (s : ℕ) × (num.seconds t ≡ pos s) × (s ≤ timestamp_max))
      → (d : ConsensusDecision N) × (evaluate_consensus num before row_text hash policy now
            observations
          ≡ ok d)
        × (((d.status ≡ agreed)
              × (p : ReadingProvenance) × (z : ℤ) × (provenance_from_decision num d ≡ ok p)
              × (pack_provenance p ≡ ok z)
              × (unpack_provenance z ≡ ok p))
            ⊎ ((is_agreed d.status ≡ false) × (provenance_from_decision num d ≡ err not_agreed)))
  evaluate_consensus-provenance observations valid finite hex few fits =
      let (d, decided, count, once, (hashed, outcome)) =
        evaluate_consensus-RoundOutcome num before row_text hash policy now observations valid
          finite in
      (
        d,
        decided,
        elim outcome [
          | inr other ↦ inr (other, refused num d other)
          | inl (is_so, enough, quorum, consistent, low, high, t, time, bounded) ↦
              let named : is_decision_id d.decision_id ≡ true = ap is_decision_id hashed ∙ hex _ in
              let (seconds, whole, early) = fits t bounded in
              let (p, derived) =
                accepted num d t seconds is_so time whole early low high consistent
                  (omega (arith, count, length-by_source observations)) named in
              let packed = provenance_from_decision-packs num d p derived in
              inl (is_so, p, packed.0, derived, packed.1, packed.2)
        ],
      )
