-- ===== src/Ledger/Cutoff.antt =====
-- What was known at a time does not change (ledger-view.ts): no lookup at a time reads the events
-- that were recorded later.
use refract_backend.Prelude.{
  sort_by, ℕ, ◌<◌, Option, none, List, [], ◌∷◌, ◌++◌, String, Bool, false, leb, ltb, arith, ◌≡◌,
  refl, All, inl, inr, Option-cases, fold, ◌∙◌, ap, map,
}
use refract_backend.Prelude.Dict.{Dict}
use refract_backend.Ledger.{
  EvidenceEvent, SourceVersion, QuorumPolicy, Reading, SignatureResult, Decision,
  IndependencePenalty,
}
use refract_backend.Ledger.View.{
  source_version_step, source_version_at, sources_step, sources_at, policy_step, policy_at,
  to_source_state,
}
use refract_backend.Ledger.Readings.{
  signature_step, signature_results_at, reading_of, first_of, in_window, has_id, readings_in,
  readings_at, reading_by_id,
}
use refract_backend.Ledger.Late.{in_force_step, decision_in_force_at, penalty_step, penalties_at}

module _ {N : Type 0} (t : ℕ) where
  -- Every one of the events was recorded after `t`.
  abbrev pub AllLater : List (EvidenceEvent N) → Type 0
  AllLater later = All (λ e. t < e.recorded_at) later

  fold-later :
      {B : Type 0} (step : B → EvidenceEvent N → B)
      (ignores : (found : B) (e : EvidenceEvent N)
        → leb e.recorded_at t ≡ false
        → step found e ≡ found)
      (found : B) (events later : List (EvidenceEvent N))
      → AllLater later
      → fold step found (events ++ later) ≡ fold step found events
  fold-later step ignores found [] [] h = refl
  fold-later step ignores found [] (e ∷ later) (after, h) =
      ap (λ b. fold step b later) (ignores found e (ground arith))
      ∙ fold-later step ignores found [] later h
  fold-later step ignores found (e ∷ events) later h =
      fold-later step ignores (step found e) events later h

  policy_step_later :
      (feed_id : String) (found : Option (QuorumPolicy N)) (e : EvidenceEvent N)
      → leb e.recorded_at t ≡ false
      → policy_step feed_id t found e ≡ found
  unfolding policy_step
  policy_step_later feed_id found e h = ground arith

  source_step_later :
      (source_id : String) (found : Option (SourceVersion N)) (e : EvidenceEvent N)
      → leb e.recorded_at t ≡ false
      → source_version_step source_id t found e ≡ found
  unfolding source_version_step
  source_step_later source_id found e h = ground arith

  sources_step_later :
      (feed_id : String) (found : Dict String (SourceVersion N)) (e : EvidenceEvent N)
      → leb e.recorded_at t ≡ false
      → sources_step feed_id t found e ≡ found
  unfolding sources_step
  sources_step_later feed_id found e h = ground arith

  signature_step_later :
      (found : Dict String SignatureResult) (e : EvidenceEvent N)
      → leb e.recorded_at t ≡ false
      → signature_step t found e ≡ found
  unfolding signature_step
  signature_step_later found e h = ground arith

  in_force_step_later :
      (feed_id : String) (found : Option (ℕ × Decision N)) (e : EvidenceEvent N)
      → leb e.recorded_at t ≡ false
      → in_force_step feed_id t found e ≡ found
  unfolding in_force_step
  in_force_step_later feed_id found e h = ground arith

  penalty_step_later :
      (feed_id : String) (found : Dict String (ℕ × IndependencePenalty N)) (e : EvidenceEvent N)
      → leb e.recorded_at t ≡ false
      → penalty_step feed_id t found e ≡ found
  unfolding penalty_step
  penalty_step_later feed_id found e h = ground arith

  readings_later :
      (results : Dict String SignatureResult) (test : EvidenceEvent N → Reading N → Bool)
      (ignores : (e : EvidenceEvent N) (r : Reading N)
        → leb e.recorded_at t ≡ false
        → test e r ≡ false)
      (events later : List (EvidenceEvent N))
      → AllLater later
      → readings_in results test (events ++ later) ≡ readings_in results test events
  readings_later results test ignores [] [] h = refl
  readings_later results test ignores [] (e ∷ later) (after, h) =
      elim (Option-cases (reading_of e)) [
        | inl e_none ↦ ground (arith, readings_later results test ignores [] later h)
        | inr (r, e_some) ↦
            ground
              (arith, readings_later results test ignores [] later h, ignores e r (ground arith))
      ]
  readings_later results test ignores (e ∷ events) later h =
      ground (arith, readings_later results test ignores events later h)

  -- What was in force at a time is fixed: events that are recorded later than the time change
  -- neither the sources of a feed, nor the version of a source, nor the quorum policy, nor the
  -- decision in force, nor the mirror penalties at that time.
  pub lookups_fixed :
      (precedes : String → String → Bool) (feed_id source_id : String)
      (events later : List (EvidenceEvent N))
      → AllLater later
      → (sources_at precedes (events ++ later) feed_id t ≡ sources_at precedes events feed_id t)
        × (source_version_at (events ++ later) source_id t ≡ source_version_at events source_id t)
        × (policy_at (events ++ later) feed_id t ≡ policy_at events feed_id t)
        × (decision_in_force_at (events ++ later) feed_id t ≡ decision_in_force_at events feed_id t)
        × (penalties_at (events ++ later) feed_id t ≡ penalties_at events feed_id t)
  unfolding sources_at source_version_at policy_at decision_in_force_at penalties_at
  lookups_fixed precedes feed_id source_id events later h = (
    ap
        (λ latest.
          sort_by (λ a b. precedes a.source_id b.source_id)
            (map (λ entry. to_source_state t entry.1) latest))
        (fold-later (sources_step feed_id t) (sources_step_later feed_id) [] events later h),
    fold-later (source_version_step source_id t) (source_step_later source_id) none events later h,
    fold-later (policy_step feed_id t) (policy_step_later feed_id) none events later h,
    fold-later (in_force_step feed_id t) (in_force_step_later feed_id) none events later h,
    ap (λ penalties. sort_by (λ a b. ltb a.0 b.0) (map (λ entry. entry.1) penalties))
        (fold-later (penalty_step feed_id t) (penalty_step_later feed_id) [] events later h),
  )

  readings_same :
      (test : EvidenceEvent N → Reading N → Bool)
      (ignores : (e : EvidenceEvent N) (r : Reading N)
        → leb e.recorded_at t ≡ false
        → test e r ≡ false)
      (events later : List (EvidenceEvent N))
      → AllLater later
      → readings_in (signature_results_at (events ++ later) t) test (events ++ later)
        ≡ readings_in (signature_results_at events t) test events
  unfolding signature_results_at
  readings_same test ignores events later h =
      ap (λ results. readings_in results test (events ++ later))
        (fold-later (signature_step t) signature_step_later [] events later h)
      ∙ readings_later (signature_results_at events t) test ignores events later h

  -- The readings of a feed at a time and a reading by its id, their signatures included, are not
  -- changed by events that are recorded later than the time.
  pub readings_fixed :
      (feed_id reading_id : String) (from : ℕ) (events later : List (EvidenceEvent N))
      → AllLater later
      → (readings_at (events ++ later) feed_id t from ≡ readings_at events feed_id t from)
        × (reading_by_id (events ++ later) reading_id t ≡ reading_by_id events reading_id t)
  unfolding readings_at reading_by_id
  readings_fixed feed_id reading_id from events later h = (
    readings_same (in_window feed_id t from) (λ e r gt. ground arith) events later h,
    ap first_of (readings_same (has_id reading_id t) (λ e r gt. ground arith) events later h),
  )
