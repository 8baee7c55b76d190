-- ===== src/Ledger/View.antt =====
-- src/oracle/consensus/ledger-view.ts: what was known and in force at a time;
-- Readings has the readings and Late the rest. A loop over the events
-- is a recursion with what it has found so far; `precedes` is the order of `localeCompare`.
use refract_backend.Prelude.{
  same, sort_by, fold, ℕ, max, Option, none, some, List, [], map, String, Bool, true, false, ltb,
  leb, ◌&&◌, if◌then◌else◌, string_discrete, keep,
}
use refract_backend.Prelude.Dict.{Dict, lookup, insert}
use refract_backend.Ledger.{
  EvidenceEvent, SourceVersion, QuorumPolicy, SourceStatus, active, warmup, source_version,
  quorum_policy,
}

-- `SourceState`; `seq` and the like of the event are not copied.
pub record SourceState (N : Type 0) : Type 0 where
  pub source_id : String
  pub provider_id : String
  pub feed_id : String
  pub version : ℕ
  pub status : SourceStatus
  pub weight : N
  pub retention_days : ℕ
  pub credential_ref : Option String
  pub declared_upstream : Option String
  pub effective_from : ℕ

abbrev warming : Option ℕ → ℕ → Bool
warming none t = false
warming (some until) t = ltb t until

module _ {N : Type 0} where
  -- `knownAt`.
  unfoldable pub known_at : List (EvidenceEvent N) → ℕ → List (EvidenceEvent N)
  known_at events t = keep (λ e. leb e.recorded_at t) events

  abbrev pub newer_source : SourceVersion N → Option (SourceVersion N) → Bool
  newer_source v none = true
  newer_source v (some found) = ltb found.version v.version

  -- One round of the loop of `sourceVersionAt`.
  unfoldable pub source_version_step :
      String → ℕ → Option (SourceVersion N) → EvidenceEvent N → Option (SourceVersion N)
  source_version_step source_id t found e = elim e.body [
    | source_version v ↦
        if same v.source_id source_id
          && leb e.recorded_at t
          && leb v.effective_from t
          && newer_source v found
        then some v
        else found
    | _ ↦ found
  ]

  unfoldable pub source_version_at : List (EvidenceEvent N) → String → ℕ → Option (SourceVersion N)
  unfolding source_version_step
  source_version_at events source_id t = fold (source_version_step source_id t) none events

  -- One round of the loop of `sourcesAt`, over the latest versions by source.
  unfoldable pub sources_step :
      String → ℕ → Dict String (SourceVersion N) → EvidenceEvent N → Dict String (SourceVersion N)
  sources_step feed_id t latest e = elim e.body [
    | source_version v ↦
        if same v.feed_id feed_id
          && leb e.recorded_at t
          && leb v.effective_from t
          && newer_source v (lookup string_discrete v.source_id latest)
        then insert string_discrete v.source_id v latest
        else latest
    | _ ↦ latest
  ]

  -- The status with the warm-up that lasts at `t`.
  unfoldable pub status_at : SourceVersion N → ℕ → SourceStatus
  status_at v t = elim v.status [
    | active ↦ if warming v.warmup_until t then warmup else active
    | other ↦ other
  ]

  unfoldable pub to_source_state : ℕ → SourceVersion N → SourceState N
  unfolding status_at
  to_source_state t v = record {
    source_id = v.source_id;
    provider_id = v.provider_id;
    feed_id = v.feed_id;
    version = v.version;
    status = status_at v t;
    weight = v.weight;
    retention_days = v.retention_days;
    credential_ref = v.credential_ref;
    declared_upstream = v.declared_upstream;
    effective_from = v.effective_from;
  }

  unfoldable pub sources_at :
      (String → String → Bool) → List (EvidenceEvent N) → String → ℕ → List (SourceState N)
  unfolding sources_step to_source_state
  sources_at precedes events feed_id t =
      sort_by (λ a b. precedes a.source_id b.source_id)
        (map (λ entry. to_source_state t entry.1) (fold (sources_step feed_id t) [] events))

  -- `latestSourceVersionNumber` and `latestPolicyVersionNumber`.
  unfoldable pub latest_source_version_number : List (EvidenceEvent N) → String → ℕ
  latest_source_version_number events source_id =
      fold
        (λ found e. elim e.body [
          | source_version v ↦ if same v.source_id source_id then max found v.version else found
          | _ ↦ found
        ])
        0 events

  unfoldable pub latest_policy_version_number : List (EvidenceEvent N) → String → ℕ
  latest_policy_version_number events feed_id =
      fold
        (λ found e. elim e.body [
          | quorum_policy v ↦ if same v.feed_id feed_id then max found v.version else found
          | _ ↦ found
        ])
        0 events

  abbrev pub newer_policy : QuorumPolicy N → Option (QuorumPolicy N) → Bool
  newer_policy v none = true
  newer_policy v (some found) = ltb found.version v.version

  -- One round of the loop of `policyAt`.
  unfoldable pub policy_step :
      String → ℕ → Option (QuorumPolicy N) → EvidenceEvent N → Option (QuorumPolicy N)
  policy_step feed_id t found e = elim e.body [
    | quorum_policy v ↦
        if same v.feed_id feed_id
          && leb e.recorded_at t
          && leb v.effective_from t
          && newer_policy v found
        then some v
        else found
    | _ ↦ found
  ]

  unfoldable pub policy_at : List (EvidenceEvent N) → String → ℕ → Option (QuorumPolicy N)
  unfolding policy_step
  policy_at events feed_id t = fold (policy_step feed_id t) none events
