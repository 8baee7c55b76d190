-- ===== src/Ledger/Late.antt =====
-- The rest of src/oracle/consensus/ledger-view.ts: the stored payloads, the decisions and the mirror
-- penalties at a time.
use refract_backend.Prelude.{
  same, sort_by, ℕ, Option, none, some, List, [], ◌∷◌, map, String, Bool, true, ltb, leb, ◌&&◌,
  ◌||◌, ◌==◌, if◌then◌else◌, string_discrete, fold,
}
use refract_backend.Prelude.Dict.{Dict, insert, delete}
use refract_backend.Ledger.{
  EvidenceEvent, Decision, IndependencePenalty, decision, payload_stored, independence_penalty,
  independence_penalty_cleared,
}

module _ {N : Type 0} where
  -- `storedPayloadsAt`, a set of hashes in the order in which they came.
  unfoldable pub stored_payloads_at : List (EvidenceEvent N) → ℕ → Dict String (Unit {0})
  stored_payloads_at events t =
      fold
        (λ stored e. elim e.body [
          | payload_stored hash source_id size_bytes ↦
              if leb e.recorded_at t then insert string_discrete hash tt stored else stored
          | _ ↦ stored
        ])
        [] events

  -- A decision comes after the one found so far: by its time, and by its number at the same time.
  unfoldable pub is_later : ℕ → Decision N → Option (ℕ × Decision N) → Bool
  is_later seq d none = true
  is_later seq d (some (found_seq, found)) =
      ltb found.at d.at || (d.at == found.at && ltb found_seq seq)

  -- One round of the loop of `decisionInForceAt`.
  unfoldable pub in_force_step :
      String → ℕ → Option (ℕ × Decision N) → EvidenceEvent N → Option (ℕ × Decision N)
  unfolding is_later
  in_force_step feed_id t found e = elim e.body [
    | decision d ↦
        if same d.feed_id feed_id && leb e.recorded_at t && leb d.at t && is_later e.seq d found
        then some (e.seq, d)
        else found
    | _ ↦ found
  ]

  -- `decisionInForceAt`, with the number of the event.
  unfoldable pub decision_in_force_at :
      List (EvidenceEvent N) → String → ℕ → Option (ℕ × Decision N)
  unfolding in_force_step
  decision_in_force_at events feed_id t = fold (in_force_step feed_id t) none events

  -- `decisionById`.
  unfoldable pub decision_by_id : List (EvidenceEvent N) → String → Option (Decision N)
  decision_by_id [] decision_id = none
  decision_by_id (e ∷ events) decision_id =
      let rest = decision_by_id events decision_id in
      elim e.body [
        | decision d ↦ if same d.decision_id decision_id then some d else rest
        | _ ↦ rest
      ]

  -- One round of the loop of `penaltiesAt`; a penalty keeps the number of its event.
  unfoldable pub penalty_step :
      String
      → ℕ
      → Dict String (ℕ × IndependencePenalty N)
      → EvidenceEvent N
      → Dict String (ℕ × IndependencePenalty N)
  penalty_step feed_id t penalties e = elim e.body [
    | independence_penalty p ↦
        if leb e.recorded_at t && same p.feed_id feed_id
        then insert string_discrete p.penalty_id (e.seq, p) penalties
        else penalties
    | independence_penalty_cleared penalty_id cleared_feed ↦
        if leb e.recorded_at t && same cleared_feed feed_id
        then delete string_discrete penalty_id penalties
        else penalties
    | _ ↦ penalties
  ]

  -- `penaltiesAt`.
  unfoldable pub penalties_at :
      List (EvidenceEvent N) → String → ℕ → List (ℕ × IndependencePenalty N)
  unfolding penalty_step
  penalties_at events feed_id t =
      sort_by (λ a b. ltb a.0 b.0)
        (map (λ entry. entry.1) (fold (penalty_step feed_id t) [] events))
