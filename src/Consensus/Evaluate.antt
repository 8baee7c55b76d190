-- ===== src/Consensus/Evaluate.antt =====
-- The rest of `evaluateConsensus`: agreement around the median, the status and the trust tier.
use refract_backend.Prelude.{
  ◌>>◌, Result, guard, ok, ◌>>=◌, keep, fold, length, sort_by, map, ◌∷◌, [], List, some, none,
  Option, ◌&&◌, not, Bool, String, if◌then◌else◌, ◌==◌, leb, ltb, ℕ,
}
use refract_backend.Consensus.{
  is_agreed, Canonical, unverified, single_source, Numbers, agreed, ConsensusDecision, corroborated,
  invalid_policy, now_not_finite, ConsensusStatus, insufficient_sources, ConsensusPolicy, unanimous,
  is_empty, is_anomalous, median, no_valid_sources, ConsensusError, meets_quorum, no_quorum,
  is_valid_policy, SourceObservation,
}
use refract_backend.Consensus.Screening.{screen, Screened}

-- `Math.min` of the times of the agreeing sources, which are finite.
abbrev pub smaller : {N : Type 0} → Numbers N → N → N → N
smaller num a b = if num.below b a then b else a

abbrev pub earliest : {N : Type 0} → Numbers N → List N → Option N
earliest num [] = none
earliest num (t ∷ ts) = some (fold (smaller num) t ts)

unfoldable pub tier_of : ℕ → Bool → ℕ
tier_of agreeing undisputed =
    if agreeing == 1
    then single_source
    else if leb 3 agreeing && undisputed
    then unanimous
    else corroborated

module _ {N : Type 0} (num : Numbers N) (before : String → String → Bool)
    (row_text : SourceObservation N → String) (hash : Canonical N → List ℕ)
    (policy : ConsensusPolicy N) (now : N) where
  -- `finalize`: the id of what has been decided.
  unfoldable pub decision_id_of : List (SourceObservation N) → ConsensusStatus → Option N → List ℕ
  decision_id_of observations status value = hash (record {
    rows = sort_by before (map row_text observations);
    policy = policy;
    status = status;
    value = value;
    at = now;
  })

  abbrev pub agreeing_of : N → Screened N → List (SourceObservation N)
  agreeing_of center s = keep (λ f. not (is_anomalous num policy center f)) s.fresh

  abbrev pub outliers_of : N → Screened N → List (SourceObservation N)
  outliers_of center s = keep (λ f. is_anomalous num policy center f) s.fresh

  abbrev pub ids_of : List (SourceObservation N) → List String
  ids_of fresh = sort_by before (map (λ f. f.source_id) fresh)

  abbrev pub weight_of : List (SourceObservation N) → N
  weight_of agreeing = fold (λ total f. num.plus total f.weight) num.nil agreeing

  unfoldable pub round_status : ℕ → N → N → ConsensusStatus
  round_status agreeing weight total =
      if ltb agreeing policy.min_agreeing_sources
      then insufficient_sources
      else if not (meets_quorum num weight total policy.quorum_ratio)
      then no_quorum
      else agreed

  -- The decision, but for its status, value, tier and time.
  abbrev pub decision_with :
      List (SourceObservation N)
      → Screened N
      → Option N
      → List (SourceObservation N)
      → List (SourceObservation N)
      → ConsensusStatus
      → Option N
      → ℕ
      → Option N
      → ConsensusDecision N
  decision_with observations s center agreeing outliers status value tier time = record {
    status = status;
    value = value;
    trust_tier = tier;
    decision_id = decision_id_of observations status value;
    center = center;
    agreeing_sources = ids_of agreeing;
    outlier_sources = ids_of outliers;
    stale_sources = sort_by before s.stale;
    invalid_sources = sort_by before s.invalid;
    agreeing_weight = weight_of agreeing;
    total_weight = s.total_weight;
    source_timestamp = time;
    evaluated_at = now;
  }

  unfoldable pub decide :
      List (SourceObservation N) → Screened N → N → Result ConsensusError (ConsensusDecision N)
  decide observations s center =
      let agreeing = agreeing_of center s in
      let outliers = outliers_of center s in
      let status = round_status (length agreeing) (weight_of agreeing) s.total_weight in
      let undisputed = is_empty outliers && is_empty s.stale && is_empty s.invalid in
      if not (is_agreed status)
      then ok
          (decision_with observations s (some center) agreeing outliers status none unverified none)
      else (median num (map (λ f. f.value) agreeing) >>= λ value. ok (
          decision_with observations s (some center) agreeing outliers status (some value)
            (tier_of (length agreeing) undisputed)
            (earliest num (map (λ f. f.observed_at) agreeing))))

  unfoldable pub decide_screened :
      List (SourceObservation N) → Screened N → Result ConsensusError (ConsensusDecision N)
  decide_screened observations s =
      if is_empty s.fresh
      then ok (decision_with observations s none [] [] no_valid_sources none unverified none)
      else (median num (map (λ f. f.value) s.fresh) >>= decide observations s)

  unfoldable pub evaluate_consensus :
      List (SourceObservation N) → Result ConsensusError (ConsensusDecision N)
  evaluate_consensus observations =
      guard (is_valid_policy num policy) invalid_policy
      >> guard (num.is_finite now) now_not_finite
      >> decide_screened observations (screen num policy now observations)
