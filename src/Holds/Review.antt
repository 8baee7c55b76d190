-- ===== src/Holds/Review.antt =====
-- `reevaluateAll` of `ClaimHoldService` (claim-hold.service.ts): one round over the held claims, each
-- on its own, with the decisions that were made in the round kept by feed.
use refract_backend.Prelude.{
  same, ℕ, ◌+◌, Option, none, some, List, [], ◌∷◌, String, Bool, true, false, ltb, leb, not,
  if◌then◌else◌, string_discrete, keep, Result, ok, err, length,
}
use refract_backend.Prelude.Dict.{Dict, lookup, insert}
use refract_backend.Ledger.{
  EvidenceGap, HoldReason, expired_while_held, incomplete_at_deadline, contradicted, complete,
  HoldEscalationReason, deadline_exceeded, verdict_contradicted, policy_expired_while_held,
  Decision, decided, no_decision, hold_reevaluated, hold_released, hold_escalated,
  hold_released_action, hold_escalated_action, of_reason, of_text, of_escalation,
}
use refract_backend.Ledger.Store.{Ledger, Io, ◌▷◌, return, now, append_event}
use refract_backend.Ledger.Late.{decision_by_id}
use refract_backend.Holds.{HoldStatus, payout_held, ClaimHold}
use refract_backend.Holds.Service.{Services, list, assess, write_audit}

pub data Verdict : Type 0 where
  verdict_released verdict_escalated still_held : Verdict

pub record Summary : Type 0 where
  pub released : ℕ
  pub escalated : ℕ
  pub still_held : ℕ

abbrev pub is_held : HoldStatus → Bool
is_held s = elim s [ payout_held ↦ true | _ ↦ false ]

unfoldable pub count_verdict : Verdict → Summary → Summary
count_verdict verdict_released s = record s { released = s.released + 1 }
count_verdict verdict_escalated s = record s { escalated = s.escalated + 1 }
count_verdict still_held s = record s { still_held = s.still_held + 1 }

module _ {N : Type 0} (services : Services N) where
  -- `freshByFeed`.
  abbrev pub Fresh : Type 0
  Fresh = Dict String (Decision N)

  -- `release`.
  unfoldable pub release : ClaimHold → Decision N → Io N (Unit {0})
  unfolding write_audit
  release hold d =
      append_event services.outside none
        (hold_released hold.hold_id d.decision_id (complete d.decision_id d.reason))
      ▷ (λ e.
          write_audit services hold_released_action "system"
            (of_reason (complete d.decision_id d.reason))
            (("holdId", of_text hold.hold_id)
              ∷ ("policyId", of_text hold.policy_id)
              ∷ ("decisionId", of_text d.decision_id)
              ∷ []))
      ▷ (λ e. return tt)

  -- `escalate`.
  unfoldable pub escalate : ClaimHold → HoldEscalationReason → HoldReason → Io N (Unit {0})
  unfolding write_audit
  escalate hold escalation reason =
      append_event services.outside none (hold_escalated hold.hold_id escalation reason)
      ▷ (λ e. write_audit services hold_escalated_action "system" (of_reason reason) (
          ("holdId", of_text hold.hold_id)
          ∷ ("policyId", of_text hold.policy_id)
          ∷ ("escalation", of_escalation escalation)
          ∷ []))
      ▷ (λ e. return tt)

  -- The decision of the feed: of this round where there is one, and else a new one.
  unfoldable pub fresh_for : String → Fresh → Io N (Decision N × Fresh)
  fresh_for feed_id fresh = elim (lookup string_discrete feed_id fresh) [
    | some d ↦ return (d, fresh)
    | none ↦ services.decide feed_id ▷ (λ d. return (d, insert string_discrete feed_id d fresh))
  ]

  -- `candidates`.
  unfoldable pub candidates : Decision N → Option (Decision N) → List (Decision N)
  candidates d original = elim d.outcome [
    | decided ↦ d ∷ elim original [ none ↦ [] | some o ↦ o ∷ [] ]
    | no_decision ↦ elim original [ none ↦ [] | some o ↦ o ∷ [] ]
  ]

  abbrev is_better : List EvidenceGap → Option (String × List EvidenceGap) → Bool
  is_better gaps none = true
  is_better gaps (some best) = ltb (length gaps) (length best.1)

  -- The loop over the candidates: released, or the best of the gaps with its decision.
  unfoldable pub try_candidates :
      ClaimHold
      → List (Decision N)
      → Option (String × List EvidenceGap)
      → Io N (Verdict × Option (String × List EvidenceGap))
  unfolding assess release
  try_candidates hold [] best = return (still_held, best)
  try_candidates hold (d ∷ ds) best = assess services d ▷ (λ gaps. elim gaps [
    | [] ↦ release hold d ▷ (λ u. return (verdict_released, best))
    | gap ∷ more ↦
        let next = if is_better (gap ∷ more) best then some (d.decision_id, gap ∷ more) else best in
        try_candidates hold ds next
  ])

  -- `hold_reevaluated` is written where the gaps are others than before.
  unfoldable pub note_gaps : ClaimHold → Verdict × Option (String × List EvidenceGap) → Io N Verdict
  note_gaps hold (verdict_released, best) = return verdict_released
  note_gaps hold (verdict_escalated, best) = return verdict_escalated
  note_gaps hold (still_held, none) = return still_held
  note_gaps hold (still_held, some (decision_id, gaps)) =
      if same (services.json gaps) (services.json hold.gaps)
      then return still_held
      else append_event services.outside none (hold_reevaluated hold.hold_id decision_id gaps)
        ▷ (λ e. return still_held)

  abbrev pub contradicts : Decision N → Bool
  contradicts d = elim d.outcome [ decided ↦ not d.triggered | no_decision ↦ false ]

  -- `reevaluate` once the decision of the feed is there.
  unfoldable pub judge_fresh : ClaimHold → Decision N → Io N Verdict
  unfolding escalate candidates try_candidates note_gaps
  judge_fresh hold d ledger =
      if contradicts d
      then (escalate hold verdict_contradicted (contradicted d.reason d.decision_id)
            ▷ (λ u. return verdict_escalated))
          ledger
      else (try_candidates hold (candidates d (decision_by_id ledger.log hold.decision_id)) none
            ▷ note_gaps hold)
          ledger

  abbrev pub Round : Type 0
  Round = (Result String Verdict × Ledger N) × Fresh

  -- The decision stays in `freshByFeed` even where a later step throws.
  unfoldable pub with_fresh :
      ClaimHold → Fresh → Result String (Decision N × Fresh) × Ledger N → Round
  unfolding judge_fresh
  with_fresh hold fresh (err e, ledger) = ((err e, ledger), fresh)
  with_fresh hold fresh (ok (d, next), ledger) = (judge_fresh hold d ledger, next)

  unfoldable pub reevaluate_at : ClaimHold → Fresh → Result String ℕ × Ledger N → Round
  unfolding escalate with_fresh fresh_for
  reevaluate_at hold fresh (err e, ledger) = ((err e, ledger), fresh)
  reevaluate_at hold fresh (ok t, ledger) =
      if ltb hold.policy_expires_at t
      then (
        (escalate hold policy_expired_while_held expired_while_held
              ▷ (λ u. return verdict_escalated))
            ledger,
        fresh,
      )
      else if leb hold.deadline t
      then (
        (escalate hold deadline_exceeded (incomplete_at_deadline hold.gaps)
              ▷ (λ u. return verdict_escalated))
            ledger,
        fresh,
      )
      else with_fresh hold fresh (fresh_for hold.feed_id fresh ledger)

  -- `reevaluate`.
  unfoldable pub reevaluate : ClaimHold → Fresh → Ledger N → Round
  unfolding reevaluate_at
  reevaluate hold fresh ledger = reevaluate_at hold fresh (now services.outside ledger)

  abbrev pub verdict_of : Result String Verdict → Verdict
  verdict_of (ok verdict) = verdict
  verdict_of (err message) = still_held

  -- The loop of `reevaluateAll`; a hold that throws counts as still held.
  unfoldable pub reevaluate_each : List ClaimHold → Fresh → Summary → Ledger N → Summary × Ledger N
  unfolding reevaluate count_verdict
  reevaluate_each [] fresh summary ledger = (summary, ledger)
  reevaluate_each (hold ∷ holds) fresh summary ledger =
      let ((verdict, after), next) = reevaluate hold fresh ledger in
      reevaluate_each holds next (count_verdict (verdict_of verdict) summary) after

  -- `reevaluateAll`.
  unfoldable pub reevaluate_all : Ledger N → Summary × Ledger N
  unfolding reevaluate_each
  reevaluate_all ledger =
      reevaluate_each (keep (λ h. is_held h.status) (list ledger.log)) []
        (record { released = 0; escalated = 0; still_held = 0 }) ledger
