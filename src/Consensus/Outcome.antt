-- ===== src/Consensus/Outcome.antt =====
-- What a round decides: each source is sources_counted once, and agreement means a quorum.
use refract_backend.Prelude.{
  guard, sort_by, if◌then◌else◌, ◌>>◌, ◌>>=◌, none, Option, ◌&&◌, inr, inl, subst, ap, ap₂, sym, ok,
  All, fold, length-sort_by, keep, length, all, map, ◌∷◌, [], List, some, not, false, true, Bool,
  ◌⊎◌, ◌∙◌, refl, ◌≡◌, String, ◌<◌, ◌≤◌, ◌+◌, if_intro, ℕ, arith,
}
use refract_backend.Consensus.{
  no_valid_sources, invalid_policy, now_not_finite, unverified, is_empty, ConsensusStatus,
  is_anomalous, ConsensusDecision, ConsensusPolicy, is_agreed, agreed, Numbers, Canonical,
  is_valid_policy, meets_quorum, SourceObservation,
}
use refract_backend.Consensus.Screening.{by_source, screen, Screened}
use refract_backend.Consensus.Totals.{screened, median_ok, count_of, FreshReport, Timely}
use refract_backend.Consensus.Listing.{
  times_of, times_of-sort_by, times_of-keep_split, source_ids, listed, listed-screen, has_reported,
}
use refract_backend.Consensus.Evaluate.{
  decide_screened, decision_with, agreeing_of, weight_of, evaluate_consensus, outliers_of,
  decision_id_of, decide, tier_of, round_status, earliest, smaller, ids_of,
}
use refract_backend.Prelude.Radix.{length-map}
use refract_backend.Encoding.Provenance.{is_consistent}

length-keep_split :
    {A : Type 0} (p : A → Bool) (xs : List A)
    → length (keep (λ x. not (p x)) xs) + length (keep p xs) ≡ length xs
length-keep_split p [] = omega arith
length-keep_split p (x ∷ xs) = ground (arith, length-keep_split p xs)

All-keep_sub :
    {A : Type 0} (P : A → Type 0) (p : A → Bool) (xs : List A) → All P xs → All P (keep p xs)
All-keep_sub P p [] h = tt
All-keep_sub P p (x ∷ xs) (q, h) =
    if_intro (All P) (p x) (λ _. (q, All-keep_sub P p xs h)) (λ _. All-keep_sub P p xs h)

-- The earliest of some times is one of them.
earliest-some :
    {N : Type 0} (num : Numbers N) (P : N → Type 0) (ts : List N)
    → 0 < length ts
    → All P ts
    → (t : N) × (earliest num ts ≡ some t) × P t
earliest-some num P [] some_time h = absurd (omega arith)
earliest-some {N = N} num P (t ∷ ts) some_time (first, h) =
    (fold (smaller num) t ts, refl, smallest t ts first h)
  where
    smallest : (u : N) (us : List N) → P u → All P us → P (fold (smaller num) u us)
    smallest u [] k h = k
    smallest u (v ∷ vs) k (q, h) =
        smallest (smaller num u v) vs (if_intro P (num.below v u) (λ _. q) (λ _. k)) h

tier_consistent :
    (n : ℕ) (undisputed : Bool)
    → 1 ≤ n
    → (is_consistent (tier_of n undisputed) n ≡ true)
      × (0 < tier_of n undisputed)
      × (tier_of n undisputed ≤ 3)
unfolding is_consistent tier_of
tier_consistent n undisputed h = ground arith

module _ {N : Type 0} (num : Numbers N) (before : String → String → Bool)
    (row_text : SourceObservation N → String) (hash : Canonical N → List ℕ)
    (policy : ConsensusPolicy N) (now : N) where
  length-ids_of :
      (fresh : List (SourceObservation N))
      → length (ids_of num before row_text hash policy now fresh) ≡ length fresh
  length-ids_of fresh =
      length-sort_by before (map (λ f. f.source_id) fresh) ∙ length-map (λ f. f.source_id) fresh

  values_finite :
      (fresh : List (SourceObservation N))
      → All (FreshReport num policy now) fresh
      → all num.is_finite (map (λ f. f.value) fresh) ≡ true
  values_finite [] h = refl
  values_finite (f ∷ fs) (k, h) = ground (arith, k.0, values_finite fs h)

  times_bounded :
      (fresh : List (SourceObservation N))
      → All (FreshReport num policy now) fresh
      → All (Timely num policy now) (map (λ f. f.observed_at) fresh)
  times_bounded [] h = tt
  times_bounded (f ∷ fs) (k, h) = (k.1, times_bounded fs h)

  status_agreed :
      (n : ℕ) (weight total : N)
      → is_agreed (round_status num before row_text hash policy now n weight total) ≡ true
      → (round_status num before row_text hash policy now n weight total ≡ agreed)
        × (policy.min_agreeing_sources ≤ n)
        × (meets_quorum num weight total policy.quorum_ratio ≡ true)
  unfolding round_status
  status_agreed n weight total h = ground arith

  positive_policy : is_valid_policy num policy ≡ true → 1 ≤ policy.min_agreeing_sources
  unfolding is_valid_policy
  positive_policy h = ground arith

  -- What agreement means for a decision.
  abbrev pub AgreedWell : ConsensusDecision N → Type 0
  AgreedWell d =
      (d.status ≡ agreed)
      × (policy.min_agreeing_sources ≤ length d.agreeing_sources)
      × (meets_quorum num d.agreeing_weight d.total_weight policy.quorum_ratio ≡ true)
      × (is_consistent d.trust_tier (length d.agreeing_sources) ≡ true)
      × (0 < d.trust_tier)
      × (d.trust_tier ≤ 3)
      × (t : N) × (d.source_timestamp ≡ some t)
      × Timely num policy now t

  abbrev pub sources_counted : ConsensusDecision N → ℕ
  sources_counted d =
      length d.agreeing_sources
      + length d.outlier_sources
      + length d.stale_sources
      + length d.invalid_sources

  -- How often a decision lists a source.
  abbrev pub times_listed : String → ConsensusDecision N → ℕ
  times_listed id d =
      times_of id d.agreeing_sources
      + times_of id d.outlier_sources
      + times_of id d.stale_sources
      + times_of id d.invalid_sources

  -- The decision lists what the screening found.
  abbrev Counted : Screened N → ConsensusDecision N → Type 0
  Counted s d =
      (sources_counted d ≡ count_of num policy now s)
      × ((id : String) → times_listed id d ≡ listed id s)

  -- The id is the hash of the sorted observations, the policy, the status, the value and the time.
  abbrev pub Hashed : List (SourceObservation N) → ConsensusDecision N → Type 0
  Hashed observations d =
      d.decision_id
      ≡ hash (record {
        rows = sort_by before (map row_text observations);
        policy = policy;
        status = d.status;
        value = d.value;
        at = now;
      })

  abbrev pub RoundOutcome : List (SourceObservation N) → ConsensusDecision N → Type 0
  RoundOutcome observations d =
      Hashed observations d × (AgreedWell d ⊎ (is_agreed d.status ≡ false))

  module _ (observations : List (SourceObservation N)) (s : Screened N) (center : N) where
    abbrev agreeing : List (SourceObservation N)
    agreeing = agreeing_of num before row_text hash policy now center s

    abbrev outliers : List (SourceObservation N)
    outliers = outliers_of num before row_text hash policy now center s

    abbrev status : ConsensusStatus
    status =
        round_status num before row_text hash policy now (length agreeing)
          (weight_of num before row_text hash policy now agreeing) s.total_weight

    abbrev undisputed : Bool
    undisputed = is_empty outliers && is_empty s.stale && is_empty s.invalid

    abbrev decided_with : Option N → ℕ → Option N → ConsensusDecision N
    decided_with =
        decision_with num before row_text hash policy now observations s (some center) agreeing
          outliers status

    Counted-all :
        (value : Option N) (tier : ℕ) (time : Option N) → Counted s (decided_with value tier time)
    Counted-all value tier time = (
      omega (
        arith,
        length-ids_of agreeing,
        length-ids_of outliers,
        length-keep_split (λ f. is_anomalous num policy center f) s.fresh,
        length-sort_by before s.stale,
        length-sort_by before s.invalid,
      ),
      λ id. omega (
        arith,
        times_of-sort_by id before (source_ids agreeing),
        times_of-sort_by id before (source_ids outliers),
        times_of-keep_split id (λ f. is_anomalous num policy center f) s.fresh,
        times_of-sort_by id before s.stale,
        times_of-sort_by id before s.invalid,
      ),
    )

    agreed_outcome :
        (value : N)
        → is_valid_policy num policy ≡ true
        → All (FreshReport num policy now) agreeing
        → is_agreed status ≡ true
        → AgreedWell (
            decided_with
              (some value)
              (tier_of (length agreeing) undisputed)
              (earliest num (map (λ f. f.observed_at) agreeing)))
    agreed_outcome value valid fresh h =
        let (is_so, enough, quorum) =
          status_agreed (length agreeing) (weight_of num before row_text hash policy now agreeing)
            s.total_weight h in
        let some_agree : 1 ≤ length agreeing = omega (arith, positive_policy valid) in
        let (consistent, low, high) = tier_consistent (length agreeing) undisputed some_agree in
        let (t, time, bounded) =
          earliest-some num (Timely num policy now) (map (λ f. f.observed_at) agreeing)
            (omega (arith, length-map (λ f. f.observed_at) agreeing))
            (times_bounded agreeing fresh) in
        (
          is_so,
          omega (arith, length-ids_of agreeing),
          quorum,
          subst (λ (n : ℕ). is_consistent (tier_of (length agreeing) undisputed) n ≡ true)
              (sym (length-ids_of agreeing)) consistent,
          low,
          high,
          t,
          time,
          bounded,
        )

    decide_outcome :
        is_valid_policy num policy ≡ true
        → All (FreshReport num policy now) s.fresh
        → (d : ConsensusDecision N) × (decide num before row_text hash policy now observations s
              center
            ≡ ok d)
          × Counted s d
          × RoundOutcome observations d
    unfolding decide decision_id_of
    decide_outcome valid fresh =
        let fresh_agreeing =
          All-keep_sub (FreshReport num policy now) (λ f. not (is_anomalous num policy center f))
            s.fresh fresh in
        if_intro
          (λ r. (d : ConsensusDecision N) × (r ≡ ok d) × Counted s d × RoundOutcome observations d)
          (not (is_agreed status))
          (λ e. (
            decided_with none unverified none,
            refl,
            Counted-all none unverified none,
            (refl, inr (ground arith)),
          ))
          (λ e.
            let agrees : is_agreed status ≡ true = ground arith in
            let (_, enough, _) =
              status_agreed (length agreeing)
                (weight_of num before row_text hash policy now agreeing) s.total_weight agrees in
            let (value, found) =
              median_ok num (map (λ f. f.value) agreeing)
                (omega (arith, positive_policy valid, length-map (λ f. f.value) agreeing))
                (values_finite agreeing fresh_agreeing) in
            (
              _,
              ap
                  (λ r. r >>= λ v. ok (
                    decided_with (some v) (tier_of (length agreeing) undisputed)
                      (earliest num (map (λ f. f.observed_at) agreeing))))
                  found,
              Counted-all (some value) (tier_of (length agreeing) undisputed)
                  (earliest num (map (λ f. f.observed_at) agreeing)),
              (refl, inl (agreed_outcome value valid fresh_agreeing agrees)),
            ))

  screened_outcome :
      (observations : List (SourceObservation N)) (s : Screened N)
      → is_valid_policy num policy ≡ true
      → All (FreshReport num policy now) s.fresh
      → (d : ConsensusDecision N) × (decide_screened num before row_text hash policy now
            observations s
          ≡ ok d)
        × Counted s d
        × RoundOutcome observations d
  unfolding decide_screened decision_id_of
  screened_outcome observations s valid fresh =
      if_intro
        (λ r. (d : ConsensusDecision N) × (r ≡ ok d) × Counted s d × RoundOutcome observations d)
        (is_empty s.fresh)
        (λ e. (
          decision_with num before row_text hash policy now observations s none [] []
              no_valid_sources none unverified none,
          refl,
          (
            omega (
              arith,
              length-sort_by before s.stale,
              length-sort_by before s.invalid,
              empty s.fresh e,
            ),
            λ id. omega (
              arith,
              times_of-sort_by id before s.stale,
              times_of-sort_by id before s.invalid,
              none_fresh id s.fresh e,
            ),
          ),
          (refl, inr refl),
        ))
        (λ e.
          let (center, found) =
            median_ok num (map (λ f. f.value) s.fresh)
              (omega (arith, length-map (λ f. f.value) s.fresh, some_fresh s.fresh e))
              (values_finite s.fresh fresh) in
          let (d, decided, count, outcome) = decide_outcome observations s center valid fresh in
          (
            d,
            ap (λ r. r >>= decide num before row_text hash policy now observations s) found
                ∙ decided,
            count,
            outcome,
          ))
    where
      empty : {A : Type 0} (xs : List A) → is_empty xs ≡ true → length xs ≡ 0
      empty [] h = refl
      empty (x ∷ xs) h = absurd (ground arith)

      none_fresh :
          (id : String) (fresh : List (SourceObservation N))
          → is_empty fresh ≡ true
          → times_of id (source_ids fresh) ≡ 0
      none_fresh id [] h = refl
      none_fresh id (x ∷ xs) h = absurd (ground arith)

      some_fresh : {A : Type 0} (xs : List A) → is_empty xs ≡ false → 0 < length xs
      some_fresh [] h = absurd (ground arith)
      some_fresh (x ∷ xs) h = omega arith

  -- Under a valid policy and at a finite time every round is decided, whatever its observations:
  -- each source that reported stands exactly once in the lists of agreeing, outlier, stale and
  -- invalid sources, and no other source stands there; the id is the hash of the sorted
  -- observations, the policy, the status, the value and the time; and a decision is either not
  -- agreed, or at least as many sources agree as the policy asks for, their weight meets the
  -- quorum, the tier is one that fits their number, and the source time is neither stale nor too
  -- far ahead.
  pub evaluate_consensus-RoundOutcome :
      (observations : List (SourceObservation N))
      → is_valid_policy num policy ≡ true
      → num.is_finite now ≡ true
      → (d : ConsensusDecision N) × (evaluate_consensus num before row_text hash policy now
            observations
          ≡ ok d)
        × (sources_counted d ≡ length (by_source observations))
        × ((id : String) → times_listed id d ≡ (if has_reported id observations then 1 else 0))
        × RoundOutcome observations d
  unfolding evaluate_consensus
  evaluate_consensus-RoundOutcome observations valid finite =
      let (fresh, all_counted) = screened num policy now observations in
      let (d, decided, count, outcome) =
        screened_outcome observations (screen num policy now observations) valid fresh in
      (
        d,
        ap₂
              (λ a b.
                guard a invalid_policy
                >> guard b now_not_finite
                >> decide_screened num before row_text hash policy now observations
                    (screen num policy now observations))
              valid finite
            ∙ decided,
        count.0 ∙ all_counted,
        λ id. count.1 id ∙ listed-screen num policy now id observations,
        outcome,
      )
