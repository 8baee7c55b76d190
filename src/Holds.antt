-- ===== src/Holds.antt =====
-- src/oracle/consensus/claim-hold.service.ts: payout holds, whose state is the fold of the events of
-- the ledger. This file has the holds and `foldHolds`; Service has the methods of
-- `ClaimHoldService`, Review its rounds over the held claims, Gate, Repeat, Rounds and
-- Transitions what is proved.
pub mod Service
pub mod Review
pub mod Rounds
pub mod Gate
pub mod Transitions
pub mod Repeat
use refract_backend.Prelude.{
  zero, suc, ℕ, Option, none, some, List, [], ◌∷◌, String, Bool, true, false, string_discrete, fold,
}
use refract_backend.Prelude.Dict.{Dict, lookup, insert}
use refract_backend.Ledger.{
  EvidenceEvent, EventBody, EvidenceGap, HoldReason, described, HoldEscalationReason,
  HoldDisposition, approve_payout, deny, extend_hold, HoldPlaced, HoldDisposed, hold_placed,
  hold_reevaluated, hold_released, hold_escalated, hold_disposed, hold_settled,
}

pub data HoldStatus : Type 0 where
  payout_held released escalated approved denied settled : HoldStatus

-- `ClaimHold["disposition"]`.
pub record Disposition : Type 0 where
  pub disposition : HoldDisposition
  pub actor : String
  pub note : String
  pub at : ℕ

pub record ClaimHold : Type 0 where
  pub hold_id : String
  pub policy_id : String
  pub holder : String
  pub feed_id : String
  pub decision_id : String
  pub current_decision_id : String
  pub status : HoldStatus
  pub gaps : List EvidenceGap
  pub reason : HoldReason
  pub placed_at : ℕ
  pub deadline : ℕ
  pub policy_expires_at : ℕ
  pub escalation : Option HoldEscalationReason
  pub disposition : Option Disposition
  pub updated_at : ℕ

-- `TERMINAL`.
abbrev pub is_terminal : HoldStatus → Bool
is_terminal payout_held = false
is_terminal released = false
is_terminal escalated = false
is_terminal approved = false
is_terminal denied = true
is_terminal settled = true

abbrev pub Holds : Type 0
Holds = Dict String ClaimHold

-- `patch`.
unfoldable pub patch : String → (ClaimHold → ClaimHold) → Holds → Holds
patch id fields holds = elim (lookup string_discrete id holds) [
  | none ↦ holds
  | some h ↦ insert string_discrete id (fields h) holds
]

unfoldable pub new_hold : HoldPlaced → ℕ → ClaimHold
new_hold p recorded_at = record {
  hold_id = p.hold_id;
  policy_id = p.policy_id;
  holder = p.holder;
  feed_id = p.feed_id;
  decision_id = p.decision_id;
  current_decision_id = p.decision_id;
  status = payout_held;
  gaps = p.gaps;
  reason = p.reason;
  placed_at = recorded_at;
  deadline = p.deadline;
  policy_expires_at = p.policy_expires_at;
  escalation = none;
  disposition = none;
  updated_at = recorded_at;
}

abbrev pub disposed_status : HoldDisposition → HoldStatus
disposed_status approve_payout = approved
disposed_status deny = denied
disposed_status extend_hold = payout_held

-- `e.disposition === "extend_hold" && e.deadline`: the deadline to set, which zero is not.
unfoldable pub new_deadline : HoldDisposition → Option ℕ → Option ℕ
new_deadline extend_hold none = none
new_deadline extend_hold (some zero) = none
new_deadline extend_hold (some (suc n)) = some (suc n)
new_deadline approve_payout deadline = none
new_deadline deny deadline = none

unfoldable pub extended : Option ℕ → ClaimHold → ClaimHold
extended none h = h
extended (some deadline) h = record h { deadline = deadline; escalation = none }

unfoldable pub dispose_hold : HoldDisposed → ℕ → ClaimHold → ClaimHold
unfolding new_deadline extended
dispose_hold d recorded_at h = extended (new_deadline d.disposition d.deadline) (record h {
  status = disposed_status d.disposition;
  disposition =
      some
        (record { disposition = d.disposition; actor = d.actor; note = d.note; at = recorded_at });
  updated_at = recorded_at;
})

module _ {N : Type 0} where
  -- One round of the loop of `foldHolds`.
  unfoldable pub hold_step : Holds → EvidenceEvent N → Holds
  unfolding patch new_hold dispose_hold
  hold_step holds e = elim e.body [
    | hold_placed p ↦ insert string_discrete p.hold_id (new_hold p e.recorded_at) holds
    | hold_reevaluated id decision_id gaps ↦
        patch id
          (λ h. record h {
            current_decision_id = decision_id;
            gaps = gaps;
            reason = described gaps;
            updated_at = e.recorded_at;
          })
          holds
    | hold_released id decision_id reason ↦
        patch id
          (λ h. record h {
            status = released;
            current_decision_id = decision_id;
            gaps = [];
            reason = reason;
            updated_at = e.recorded_at;
          })
          holds
    | hold_escalated id escalation reason ↦
        patch id
          (λ h. record h {
            status = escalated;
            escalation = some escalation;
            reason = reason;
            updated_at = e.recorded_at;
          })
          holds
    | hold_disposed d ↦ patch d.hold_id (dispose_hold d e.recorded_at) holds
    | hold_settled id ↦
        patch id (λ h. record h { status = settled; updated_at = e.recorded_at }) holds
    | _ ↦ holds
  ]

  -- `foldHolds`.
  unfoldable pub fold_holds : List (EvidenceEvent N) → Holds
  unfolding hold_step
  fold_holds events = fold hold_step [] events
