-- ===== src/Consensus/Screening.antt =====
-- The first part of `evaluateConsensus`: the reports of each source, and what is made of them.
use refract_backend.Prelude.{
  keep, fold, map, ◌++◌, ◌∷◌, [], List, ◌&&◌, not, Bool, String, same, if◌then◌else◌,
}
use refract_backend.Consensus.{Numbers, ConsensusPolicy, is_usable_weight, SourceObservation}

-- The map from a source to its reports, in the order in which sources first reported.
abbrev pub Sources : Type 0 → Type 0
Sources N = List (String × List (SourceObservation N))

module _ {N : Type 0} where
  abbrev pub add_copy : SourceObservation N → Sources N → Sources N
  add_copy o [] = (o.source_id, o ∷ []) ∷ []
  add_copy o ((id, copies) ∷ rest) =
      let others = add_copy o rest in
      if same id o.source_id then (id, copies ++ o ∷ []) ∷ rest else (id, copies) ∷ others

  unfoldable pub by_source : List (SourceObservation N) → Sources N
  by_source observations = fold (λ sources o. add_copy o sources) [] observations

pub data SourceVerdict (N : Type 0) : Type 0 where
  is_invalid is_stale : SourceVerdict N
  is_fresh : SourceObservation N → SourceVerdict N

-- The accumulators of the loop.
pub record Screened (N : Type 0) : Type 0 where
  pub invalid : List String
  pub stale : List String
  pub fresh : List (SourceObservation N)
  pub total_weight : N

module _ {N : Type 0} (num : Numbers N) (policy : ConsensusPolicy N) (now : N) where
  -- A time that is not too far ahead, and one that is too old.
  abbrev pub is_in_time : N → Bool
  is_in_time t = num.at_least (num.plus now policy.max_future_skew_ms) t

  abbrev pub is_old : N → Bool
  is_old t = num.below policy.max_staleness_ms (num.less now t)

  unfoldable pub is_well_formed : SourceObservation N → Bool
  is_well_formed o =
      o.is_text
      && not (same o.source_id "")
      && num.is_finite o.value
      && is_usable_weight num o.weight
      && num.is_finite o.observed_at
      && is_in_time o.observed_at

  unfoldable pub verdict_of : List (SourceObservation N) → SourceVerdict N
  unfolding is_well_formed
  verdict_of [] = is_invalid
  verdict_of (o ∷ p ∷ rest) = is_invalid
  verdict_of (o ∷ []) =
      if not (is_well_formed o)
      then is_invalid
      else if is_old o.observed_at
      then is_stale
      else is_fresh o

  -- The largest usable weight of a source's reports, if it has one.
  abbrev pub add_weight : N → List N → N
  add_weight total [] = total
  add_weight total (w ∷ ws) = num.plus total (fold num.larger w ws)

  abbrev pub place_source : String → SourceVerdict N → Screened N → Screened N
  place_source id is_invalid s = record s { invalid = s.invalid ++ id ∷ [] }
  place_source id is_stale s = record s { stale = s.stale ++ id ∷ [] }
  place_source id (is_fresh o) s = record s { fresh = s.fresh ++ o ∷ [] }

  abbrev pub screen_source : Screened N → String × List (SourceObservation N) → Screened N
  screen_source s (id, copies) = place_source id (verdict_of copies) (record s {
    total_weight =
        add_weight s.total_weight (keep (is_usable_weight num) (map (λ c. c.weight) copies));
  })

  unfoldable pub screen : List (SourceObservation N) → Screened N
  screen observations =
      fold screen_source (record { invalid = []; stale = []; fresh = []; total_weight = num.nil })
        (by_source observations)
