-- ===== src/Ledger/Gaps.antt =====
-- src/oracle/consensus/evidence-completeness.ts: what is missing before a triggered decision is paid.
-- `precedes` is the order of `localeCompare` and `available` tells the bodies in the payload store
-- (`PayloadStore.has` of evidence-ledger.ts), which throws on what is not a hash.
use refract_backend.Prelude.{
  sort_by, ℕ, ◌-◌, Option, none, some, List, [], ◌∷◌, ◌++◌, String, Bool, true, false, ltb, length,
  keep, fold, all, if◌then◌else◌, string_discrete,
}
use refract_backend.Prelude.Dict.{Dict, lookup, insert}
use refract_backend.Ledger.{
  EvidenceEvent, Decision, ContributingReading, EvidenceGap, EvidenceGapType, missing_raw_payload,
  insufficient_sources, source_in_warmup, signature_pending, QuorumPolicy, SourceStatus, warmup,
  SignatureStatus, pending,
}
use refract_backend.Ledger.Hashes.{is_hash}
use refract_backend.Ledger.View.{SourceState, sources_at, policy_at}
use refract_backend.Ledger.Readings.{ReadingState, reading_by_id}

abbrev is_independent : Option Bool → Bool
is_independent none = true
is_independent (some b) = b

abbrev is_warming : SourceStatus → Bool
is_warming s = elim s [ warmup ↦ true | _ ↦ false ]

abbrev is_pending : SignatureStatus → Bool
is_pending s = elim s [ pending ↦ true | _ ↦ false ]

abbrev of_contributor : EvidenceGapType → String → String → EvidenceGap
of_contributor gap_type source_id reading_id = record {
  gap_type = gap_type;
  reading_id = some reading_id;
  source_id = some source_id;
  counts = [];
}

abbrev has_payload : (String → Bool) → Option String → Bool
has_payload available none = false
has_payload available (some hash) = available hash

module _ {N : Type 0} where
  -- Fewer independent contributors than the policy expects; without a policy none are expected.
  unfoldable pub source_gaps : Option (QuorumPolicy N) → Decision N → List EvidenceGap
  source_gaps none d = []
  source_gaps (some policy) d =
      let independent = length (keep (λ c. is_independent c.independent) d.contributing) in
      if ltb independent policy.expected_sources
      then record {
        gap_type = insufficient_sources;
        reading_id = none;
        source_id = none;
        counts =
            independent
            ∷ (length d.contributing - independent)
            ∷ policy.version
            ∷ policy.expected_sources
            ∷ [];
      }
        ∷ []
      else []

  -- A loop over the contributors that collects what each one lacks.
  abbrev pub collect :
      (ContributingReading N → List EvidenceGap) → List (ContributingReading N) → List EvidenceGap
  collect f [] = []
  collect f (c ∷ cs) = f c ++ collect f cs

  unfoldable pub warmup_gap : Dict String (SourceState N) → ContributingReading N → List EvidenceGap
  warmup_gap sources c = elim (lookup string_discrete c.source_id sources) [
    | none ↦ []
    | some s ↦
        if is_warming s.status
        then of_contributor source_in_warmup c.source_id c.reading_id ∷ []
        else []
  ]

  unfoldable pub reading_gaps :
      (String → Bool) → Option (ReadingState N) → ContributingReading N → List EvidenceGap
  reading_gaps available none c = of_contributor missing_raw_payload c.source_id c.reading_id ∷ []
  reading_gaps available (some r) c =
      (if has_payload available r.payload_hash
        then []
        else of_contributor missing_raw_payload c.source_id c.reading_id ∷ [])
      ++ (if is_pending r.signature
          then of_contributor signature_pending c.source_id c.reading_id ∷ []
          else [])

  -- `assessEvidenceCompleteness`.
  unfoldable pub assess_evidence_completeness :
      (String → String → Bool)
      → (String → Bool)
      → List (EvidenceEvent N)
      → Decision N
      → ℕ
      → List EvidenceGap
  unfolding source_gaps warmup_gap reading_gaps
  assess_evidence_completeness precedes available events d now =
      let sources =
        fold (λ found s. insert string_discrete s.source_id s found) []
          (sources_at precedes events d.feed_id d.at) in
      let contributors = sort_by (λ a b. precedes a.reading_id b.reading_id) d.contributing in
      source_gaps (policy_at events d.feed_id d.at) d
      ++ collect (warmup_gap sources) contributors
      ++ collect (λ c. reading_gaps available (reading_by_id events c.reading_id now) c)
          contributors

  unfoldable pub has_no_fault : Option (ReadingState N) → Bool
  unfolding is_hash
  has_no_fault none = true
  has_no_fault (some r) = elim r.payload_hash [ none ↦ true | some hash ↦ is_hash hash ]

  -- `payloadAvailable` throws nothing: the payload hashes of the readings are hashes.
  unfoldable pub are_hashes : List (EvidenceEvent N) → Decision N → ℕ → Bool
  unfolding has_no_fault
  are_hashes events d now =
      all (λ c. has_no_fault (reading_by_id events c.reading_id now)) d.contributing
