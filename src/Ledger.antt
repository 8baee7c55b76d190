-- ===== src/Ledger.antt =====
-- src/oracle/consensus/evidence.types.ts: the events of the append-only consensus ledger. Store has
-- the ledger itself (evidence-ledger.ts), View, Readings and Late the lookups at a time
-- (ledger-view.ts), Gaps the check that evidence is complete (evidence-completeness.ts), Hashes
-- the test of a payload hash; Increasing and Cutoff hold the proofs. `N` stands for a JavaScript number that is not a count.
pub mod Store
pub mod View
pub mod Readings
pub mod Late
pub mod Gaps
pub mod Hashes
pub mod Increasing
pub mod Cutoff
use refract_backend.Prelude.{ℕ, Bool, Option, List, String}
use refract_backend.Prelude.Dict.{Dict}

pub data SourceStatus : Type 0 where
  active warmup quarantined retired : SourceStatus

pub data SignatureStatus : Type 0 where
  verified pending failed not_required : SignatureStatus

pub data TriggerRule (N : Type 0) : Type 0 where
  lt gt : N → TriggerRule N

pub record SourceVersion (N : Type 0) : Type 0 where
  pub source_id : String
  pub provider_id : String
  pub feed_id : String
  pub version : ℕ
  pub status : SourceStatus
  pub weight : N
  pub warmup_until : Option ℕ
  pub retention_days : ℕ
  pub credential_ref : Option String
  pub declared_upstream : Option String
  pub effective_from : ℕ

pub record QuorumPolicy (N : Type 0) : Type 0 where
  pub feed_id : String
  pub version : ℕ
  pub min_sources : ℕ
  pub expected_sources : ℕ
  pub min_total_weight : N
  pub max_reading_age_ms : ℕ
  pub trigger : TriggerRule N
  pub effective_from : ℕ

pub record Reading (N : Type 0) : Type 0 where
  pub reading_id : String
  pub feed_id : String
  pub source_id : String
  pub value : N
  pub observed_at : ℕ
  pub ledger_seq : Option ℕ
  pub payload_hash : Option String
  pub signature : SignatureStatus
  pub fingerprint : Option String

-- `SignatureResultEvent["result"]`.
pub data SignatureResult : Type 0 where
  result_verified result_failed : SignatureResult

pub record ContributingReading (N : Type 0) : Type 0 where
  pub reading_id : String
  pub source_id : String
  pub value : N
  pub effective_weight : N
  pub independent : Option Bool

pub data Outcome : Type 0 where
  decided no_decision : Outcome

pub record Decision (N : Type 0) : Type 0 where
  pub decision_id : String
  pub feed_id : String
  pub at : ℕ
  pub ledger_seq : Option ℕ
  pub outcome : Outcome
  pub value : Option N
  pub triggered : Bool
  pub reason : String
  pub policy_version : Option ℕ
  pub contributing : List (ContributingReading N)

pub data EvidenceGapType : Type 0 where
  missing_raw_payload insufficient_sources source_in_warmup signature_pending : EvidenceGapType

-- `detail` is a text that names the values of the other fields and the counts.
pub record EvidenceGap : Type 0 where
  pub gap_type : EvidenceGapType
  pub reading_id : Option String
  pub source_id : Option String
  pub counts : List ℕ

pub data HoldEscalationReason : Type 0 where
  deadline_exceeded verdict_contradicted policy_expired_while_held : HoldEscalationReason

pub data HoldDisposition : Type 0 where
  approve_payout deny extend_hold : HoldDisposition

-- The texts of `reason` in the hold events, with the values that they name.
pub data HoldReason : Type 0 where
  described : List EvidenceGap → HoldReason
  expired_while_held : HoldReason
  incomplete_at_deadline : List EvidenceGap → HoldReason
  contradicted : String → String → HoldReason
  complete : String → String → HoldReason

pub record HoldPlaced : Type 0 where
  pub hold_id : String
  pub policy_id : String
  pub holder : String
  pub feed_id : String
  pub decision_id : String
  pub gaps : List EvidenceGap
  pub reason : HoldReason
  pub deadline : ℕ
  pub policy_expires_at : ℕ

pub record HoldDisposed : Type 0 where
  pub hold_id : String
  pub disposition : HoldDisposition
  pub actor : String
  pub note : String
  pub deadline : Option ℕ

pub record IndependencePenalty (N : Type 0) : Type 0 where
  pub penalty_id : String
  pub feed_id : String
  pub source_a : String
  pub source_b : String
  pub factor : N
  pub window_start : ℕ
  pub window_end : ℕ
  pub matches : ℕ
  pub informative_samples : ℕ
  pub exact_matches : ℕ
  pub match_ratio : N

-- `AuditEvent`; `details` are the values by their names.
pub data Detail : Type 0 where
  of_text : String → Detail
  of_time : Option ℕ → Detail
  of_gaps : List EvidenceGap → Detail
  of_escalation : HoldEscalationReason → Detail

pub data AuditAction : Type 0 where
  hold_placed_action hold_released_action hold_escalated_action : AuditAction
  hold_disposed_action : HoldDisposition → AuditAction
  hold_settled_action : AuditAction
  other_action : String → AuditAction

pub data AuditNote : Type 0 where
  of_reason : HoldReason → AuditNote
  of_note : String → AuditNote

pub record Audit : Type 0 where
  pub action : AuditAction
  pub actor : String
  pub note : AuditNote
  pub details : Dict String Detail

-- What the events say, without their number and time. The last kinds, which no lookup here reads,
-- keep the ids that they are found by.
pub data EventBody (N : Type 0) : Type 0 where
  source_version : SourceVersion N → EventBody N
  quorum_policy : QuorumPolicy N → EventBody N
  reading : Reading N → EventBody N
  signature_result : String → SignatureResult → EventBody N
  payload_stored : String → String → ℕ → EventBody N
  decision : Decision N → EventBody N
  hold_placed : HoldPlaced → EventBody N
  hold_reevaluated : String → String → List EvidenceGap → EventBody N
  hold_released : String → String → HoldReason → EventBody N
  hold_escalated : String → HoldEscalationReason → HoldReason → EventBody N
  hold_disposed : HoldDisposed → EventBody N
  hold_settled : String → EventBody N
  independence_penalty : IndependencePenalty N → EventBody N
  independence_penalty_cleared : String → String → EventBody N
  payload_purged offboarding_started : String → String → EventBody N
  credential_revoked offboarding_completed : String → String → EventBody N
  audit : Audit → EventBody N

pub record EvidenceEvent (N : Type 0) : Type 0 where
  pub seq : ℕ
  pub recorded_at : ℕ
  pub body : EventBody N
