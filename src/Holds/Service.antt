-- ===== src/Holds/Service.antt =====
-- The methods of `ClaimHoldService` (claim-hold.service.ts). What the service is given stands in
-- `Services`: the consensus engine, which may write to the ledger and throw, the payload store, the
-- order of `localeCompare`, the hash that makes the id of a hold, and `JSON.stringify` of gaps.
use refract_backend.Prelude.{
  same, sort_by, ℕ, ◌+◌, Option, none, some, List, [], ◌∷◌, String, Bool, true, false, ltb, not,
  ◌&&◌, if◌then◌else◌, string_discrete, keep, map, Result, ok, err,
}
use refract_backend.Prelude.Dict.{Dict, lookup}
use refract_backend.Ledger.{
  EvidenceGap, HoldReason, described, HoldDisposition, approve_payout, deny, extend_hold, Decision,
  decided, no_decision, hold_placed, hold_disposed, hold_settled, audit, AuditAction,
  hold_placed_action, hold_disposed_action, hold_settled_action, AuditNote, of_reason, of_note,
  Detail, of_text, of_time, of_gaps, EvidenceEvent,
}
use refract_backend.Ledger.Store.{Ledger, Outside, Io, ◌▷◌, return, throw, now, append_event}
use refract_backend.Ledger.Gaps.{assess_evidence_completeness, are_hashes}
use refract_backend.Holds.{
  HoldStatus, payout_held, released, escalated, approved, denied, settled, ClaimHold, is_terminal,
  fold_holds,
}

pub record HoldCandidate : Type 0 where
  pub policy_id : String
  pub holder : String
  pub feed_id : String
  pub policy_expires_at : ℕ

-- The texts of `reason` in the answers of the gate.
pub data BlockReason : Type 0 where
  claim_is : HoldStatus → HoldReason → BlockReason
  denied_by : Option String → BlockReason
  produced_no_decision not_triggered : String → BlockReason
  gate_unavailable : String → BlockReason

pub data GateResult : Type 0 where
  proceed : Option String → GateResult
  block : Option String → BlockReason → GateResult

pub record Services (N : Type 0) : Type 0 where
  pub outside : Outside
  pub hold_max_duration_ms : ℕ
  pub is_governed : String → Bool
  pub decide : String → Io N (Decision N)
  pub available : String → Bool
  pub precedes : String → String → Bool
  pub hold_id_of : String → String → String
  pub json : List EvidenceGap → String

abbrev pub last_of : List ClaimHold → Option ClaimHold
last_of [] = none
last_of (h ∷ []) = some h
last_of (h ∷ k ∷ rest) = last_of (k ∷ rest)

abbrev pub is_denied : HoldStatus → Bool
is_denied s = elim s [ denied ↦ true | _ ↦ false ]

abbrev pub may_pay : HoldStatus → Bool
may_pay s = elim s [ released ↦ true | approved ↦ true | _ ↦ false ]

abbrev pub actor_of : ClaimHold → Option String
actor_of h = elim h.disposition [ none ↦ none | some d ↦ some d.actor ]

abbrev pub values : Dict String ClaimHold → List ClaimHold
values holds = map (λ entry. entry.1) holds

module _ {N : Type 0} where
  -- `list` without a status.
  unfoldable pub list : List (EvidenceEvent N) → List ClaimHold
  list events = sort_by (λ a b. ltb a.placed_at b.placed_at) (values (fold_holds events))

  -- `activeHoldFor`.
  unfoldable pub active_hold_for : String → List (EvidenceEvent N) → Option ClaimHold
  unfolding list
  active_hold_for policy_id events =
      last_of (keep (λ h. same h.policy_id policy_id && not (is_terminal h.status)) (list events))

  unfoldable pub denied_hold_for : String → List (EvidenceEvent N) → Option ClaimHold
  unfolding list
  denied_hold_for policy_id events =
      last_of (keep (λ h. same h.policy_id policy_id && is_denied h.status) (list events))

  -- `get`.
  unfoldable pub get : String → Io N ClaimHold
  get hold_id ledger = elim (lookup string_discrete hold_id (fold_holds ledger.log)) [
    | none ↦ throw "unknown hold" ledger
    | some h ↦ return h ledger
  ]

module _ {N : Type 0} (services : Services N) where
  -- `assess`; the payload store throws on a malformed hash.
  unfoldable pub assess : Decision N → Io N (List EvidenceGap)
  unfolding assess_evidence_completeness are_hashes
  assess d = now services.outside ▷ (λ t ledger.
      if are_hashes ledger.log d t
      then return (assess_evidence_completeness services.precedes services.available ledger.log d t)
          ledger
      else throw "Invalid payload hash" ledger)

  -- `audit`.
  unfoldable pub write_audit :
      AuditAction → String → AuditNote → Dict String Detail → Io N (EvidenceEvent N)
  write_audit action actor note details =
      append_event services.outside none
        (audit (record { action = action; actor = actor; note = note; details = details }))

  -- `place`.
  unfoldable pub place : HoldCandidate → Decision N → List EvidenceGap → Io N ClaimHold
  unfolding write_audit get
  place candidate d gaps =
      let hold_id = services.hold_id_of candidate.policy_id d.decision_id in
      now services.outside
      ▷ (λ t. append_event services.outside none (
          hold_placed (record {
            hold_id = hold_id;
            policy_id = candidate.policy_id;
            holder = candidate.holder;
            feed_id = candidate.feed_id;
            decision_id = d.decision_id;
            gaps = gaps;
            reason = described gaps;
            deadline = t + services.hold_max_duration_ms;
            policy_expires_at = candidate.policy_expires_at;
          })))
      ▷ (λ e. write_audit hold_placed_action "system" (of_reason (described gaps)) (
          ("holdId", of_text hold_id)
          ∷ ("policyId", of_text candidate.policy_id)
          ∷ ("decisionId", of_text d.decision_id)
          ∷ ("gaps", of_gaps gaps)
          ∷ []))
      ▷ (λ e. get hold_id)

  -- The answer on the gaps of a decision that is triggered.
  unfoldable pub settle_gaps : HoldCandidate → Decision N → List EvidenceGap → Io N GateResult
  unfolding place
  settle_gaps candidate d [] = return (proceed none)
  settle_gaps candidate d (gap ∷ gaps) =
      place candidate d (gap ∷ gaps)
      ▷ (λ h. return (block (some h.hold_id) (claim_is h.status h.reason)))

  unfoldable pub judge : HoldCandidate → Decision N → Io N GateResult
  unfolding assess settle_gaps
  judge candidate d = elim d.outcome [
    | no_decision ↦ return (block none (produced_no_decision d.reason))
    | decided ↦
        if not d.triggered
        then return (block none (not_triggered d.decision_id))
        else assess d ▷ settle_gaps candidate d
  ]

  -- The `try` block of `gate`.
  unfoldable pub try_gate : HoldCandidate → Io N GateResult
  unfolding active_hold_for denied_hold_for judge
  try_gate candidate ledger = elim (active_hold_for candidate.policy_id ledger.log) [
    | some h ↦
        if may_pay h.status
        then (ok (proceed (some h.hold_id)), ledger)
        else (ok (block (some h.hold_id) (claim_is h.status h.reason)), ledger)
    | none ↦ elim (denied_hold_for candidate.policy_id ledger.log) [
      | some h ↦ (ok (block (some h.hold_id) (denied_by (actor_of h))), ledger)
      | none ↦
          if not (services.is_governed candidate.feed_id)
          then (ok (proceed none), ledger)
          else (services.decide candidate.feed_id ▷ judge candidate) ledger
    ]
  ]

  -- The `catch` of `gate`.
  abbrev pub fail_closed : Result String GateResult → GateResult
  fail_closed (ok answer) = answer
  fail_closed (err message) = block none (gate_unavailable message)

  -- `gate`.
  unfoldable pub gate : HoldCandidate → Ledger N → GateResult × Ledger N
  unfolding try_gate
  gate candidate ledger = (fail_closed (try_gate candidate ledger).0, (try_gate candidate ledger).1)

  abbrev pub can_dispose : HoldStatus → Bool
  can_dispose s = elim s [ escalated ↦ true | payout_held ↦ true | _ ↦ false ]

  -- The deadline that `dispose` sets; a missing or zero extension is refused.
  unfoldable pub deadline_for : HoldDisposition → Option ℕ → Io N (Option ℕ)
  deadline_for extend_hold none = throw "extend_hold requires extendMs > 0"
  deadline_for extend_hold (some extend_ms) =
      if ltb 0 extend_ms
      then now services.outside ▷ (λ t. return (some (t + extend_ms)))
      else throw "extend_hold requires extendMs > 0"
  deadline_for approve_payout extend_ms = return none
  deadline_for deny extend_ms = return none

  -- The two events of a disposal, and its answer.
  unfoldable pub record_disposal :
      String → HoldDisposition → String → String → String → Option ℕ → Io N ClaimHold
  unfolding get write_audit
  record_disposal hold_id disposition actor note policy_id deadline =
      append_event services.outside none (
        hold_disposed (record {
          hold_id = hold_id;
          disposition = disposition;
          actor = actor;
          note = note;
          deadline = deadline;
        }))
      ▷ (λ e. write_audit (hold_disposed_action disposition) actor (of_note note) (
          ("holdId", of_text hold_id)
          ∷ ("policyId", of_text policy_id)
          ∷ ("deadline", of_time deadline)
          ∷ []))
      ▷ (λ e. get hold_id)

  -- `dispose` once the hold is found.
  unfoldable pub dispose_found :
      String → HoldDisposition → String → String → Option ℕ → ClaimHold → Io N ClaimHold
  unfolding deadline_for record_disposal
  dispose_found hold_id disposition actor note extend_ms h =
      if not (can_dispose h.status)
      then throw "only held or escalated claims can be disposed"
      else deadline_for disposition extend_ms
        ▷ record_disposal hold_id disposition actor note h.policy_id

  -- `dispose`; `has_texts` says whether the actor and the note are more than blanks.
  unfoldable pub dispose :
      String → HoldDisposition → String → String → Bool → Option ℕ → Io N ClaimHold
  unfolding get dispose_found
  dispose hold_id disposition actor note has_texts extend_ms =
      if not has_texts
      then throw "actor and note are required"
      else get hold_id ▷ dispose_found hold_id disposition actor note extend_ms

  abbrev is_settled : HoldStatus → Bool
  is_settled s = elim s [ settled ↦ true | _ ↦ false ]

  -- `markSettled`.
  unfoldable pub mark_settled : String → Io N (Unit {0})
  unfolding get write_audit
  mark_settled hold_id = get hold_id ▷ (λ h.
      if is_settled h.status
      then return tt
      else append_event services.outside none (hold_settled hold_id)
        ▷ (λ e.
            write_audit hold_settled_action "system" (of_note "settlement confirmed")
              (("holdId", of_text hold_id) ∷ ("policyId", of_text h.policy_id) ∷ []))
        ▷ (λ e. return tt))
