-- ===== src/Evidence.antt =====
-- src/oracle/evidence: the buffer that keeps the oracle evidence trail complete while the database
-- is away. This file has the records (evidence-record.ts) and the state of `OracleEvidenceBuffer`
-- with the two halves of `append` and with `start`; Drain has the flusher, Trail, Waiting, History and
-- Recovery what is proved.
-- `P` is what a record carries beside its kind, coverage type and time.
pub mod Drain
pub mod Trail
pub mod Waiting
pub mod History
pub mod Recovery
use refract_backend.Prelude.{
  not, ℕ, ◌+◌, ◌-◌, max, String, Bool, true, false, ◌||◌, Option, none, some, List, [], ◌∷◌, ◌++◌,
  map, ltb, if◌then◌else◌, same, any, all, length, Result, ok, err,
}

pub data EvidenceKind : Type 0 where
  reading decision : EvidenceKind

pub record EvidenceEntry (P : Type 0) : Type 0 where
  pub kind : EvidenceKind
  pub coverage_type : String
  pub recorded_at : ℕ
  pub content : P

pub record EvidenceGap : Type 0 where
  pub seq : ℕ
  pub first_seq : ℕ
  pub last_seq : ℕ
  pub lost_count : ℕ
  pub opened_at : ℕ
  pub closed_at : ℕ
  pub reason : String

pub data EvidenceRecord (P : Type 0) : Type 0 where
  sequenced : ℕ → EvidenceEntry P → EvidenceRecord P
  gap : EvidenceGap → EvidenceRecord P

abbrev pub seq_of : {P : Type 0} → EvidenceRecord P → ℕ
seq_of (sequenced seq entry) = seq
seq_of (gap g) = g.seq

-- The names that `in` finds in every object, those of `Object.prototype`.
abbrev prototype_names : List String
prototype_names =
    "constructor" ∷ "__proto__" ∷ "__defineGetter__" ∷ "__defineSetter__" ∷ "__lookupGetter__"
    ∷ "__lookupSetter__" ∷ "hasOwnProperty" ∷ "isPrototypeOf" ∷ "propertyIsEnumerable"
    ∷ "toLocaleString" ∷ "toString" ∷ "valueOf" ∷ []

-- The keys of `EVIDENCE_COVERAGE_TYPES`.
abbrev coverage_types : List String
coverage_types =
    "StablecoinDepeg" ∷ "MarketCrash" ∷ "LiquidationShield" ∷ "SmartContractRisk" ∷ "FlightDelay"
    ∷ []

-- `coverageType in EVIDENCE_COVERAGE_TYPES`.
unfoldable pub is_coverage_type : String → Bool
is_coverage_type s = any (same s) (coverage_types ++ prototype_names)

-- `EvidenceBufferStatus["openGap"]`.
pub record OpenGap : Type 0 where
  pub first_seq : ℕ
  pub last_seq : ℕ
  pub lost_count : ℕ
  pub since : ℕ
  pub reason : String

-- The fields of `OracleEvidenceBuffer`. `retry_in` is the delay of the timer that is set.
pub record Buffer (P : Type 0) : Type 0 where
  pub pending : List (EvidenceRecord P)
  pub last_seq : ℕ
  pub last_stored_seq : ℕ
  pub opened : Bool
  pub retry_in : Option ℕ
  pub failures : ℕ
  pub batches_since_compact : ℕ
  pub last_store_error : Option String
  pub store_healthy : Bool
  pub open_gap : Option OpenGap
  pub lost_total : ℕ
  pub stopped : Bool

pub data AppendError : Type 0 where
  not_started unknown_coverage_type : AppendError
  not_durable : String → AppendError

-- What `EvidenceSpool.open` recovers.
pub record SpoolRecovery (P : Type 0) : Type 0 where
  pub pending : List (EvidenceRecord P)
  pub high_water_seq : ℕ
  pub discarded_lines : ℕ

-- The record that `closeGapRecord` makes, under the next number.
unfoldable pub close_gap_record : ℕ → OpenGap → ℕ → EvidenceGap
close_gap_record now g last_seq = record {
  seq = last_seq + 1;
  first_seq = g.first_seq;
  last_seq = g.last_seq;
  lost_count = g.lost_count;
  opened_at = g.since;
  closed_at = now;
  reason = g.reason;
}

-- How many numbers the open gap takes when it is recorded.
abbrev pub gap_slot : Option OpenGap → ℕ
gap_slot none = 0
gap_slot (some g) = 1

-- The gap record of a call, if a gap is open.
abbrev pub gap_taken : ℕ → Option OpenGap → ℕ → Option EvidenceGap
gap_taken now none last_seq = none
gap_taken now (some g) last_seq = some (close_gap_record now g last_seq)

-- The records of a call of `append` that waits for the spool: its gap record, and its entries, which
-- have the numbers after `before`.
pub record Write (P : Type 0) : Type 0 where
  pub gap : Option EvidenceGap
  pub before : ℕ
  pub entries : List (EvidenceEntry P)

-- What a call of `append` does up to the wait.
pub data Appending (P : Type 0) : Type 0 where
  refused : AppendError → Appending P
  nothing_to_do : Appending P
  waits : Write P → Appending P

module _ {P : Type 0} where
  unfoldable pub new_buffer : Buffer P
  new_buffer = record {
    pending = [];
    last_seq = 0;
    last_stored_seq = 0;
    opened = false;
    retry_in = none;
    failures = 0;
    batches_since_compact = 0;
    last_store_error = none;
    store_healthy = true;
    open_gap = none;
    lost_total = 0;
    stopped = false;
  }

  -- `noteLoss`.
  unfoldable pub note_loss : ℕ → ℕ → ℕ → ℕ → String → Buffer P → Buffer P
  note_loss now first_seq last_seq count reason b =
      let counted = record b { lost_total = b.lost_total + count } in
      elim b.open_gap [
        | some g ↦ record counted {
          open_gap = some (record g {
            last_seq = max g.last_seq last_seq;
            lost_count = g.lost_count + count;
            reason = reason;
          });
        }
        | none ↦ record counted {
          open_gap = some (record {
            first_seq = first_seq;
            last_seq = last_seq;
            lost_count = count;
            since = now;
            reason = reason;
          });
        }
      ]

  -- The loop of `append` over the entries: each takes the next number.
  unfoldable pub sequence : ℕ → List (EvidenceEntry P) → List (EvidenceRecord P)
  sequence last_seq [] = []
  sequence last_seq (entry ∷ entries) =
      sequenced (last_seq + 1) entry ∷ sequence (last_seq + 1) entries

  -- The records of a write, the gap first.
  unfoldable pub records_of : Write P → List (EvidenceRecord P)
  unfolding sequence
  records_of w = elim w.gap [
    | none ↦ sequence w.before w.entries
    | some g ↦ gap g ∷ sequence w.before w.entries
  ]

  -- `append` past its checks, up to the wait: the open gap is taken and the numbers are given out.
  unfoldable pub accept : ℕ → List (EvidenceEntry P) → Buffer P → Write P × Buffer P
  unfolding close_gap_record
  accept now entries b =
      let before = b.last_seq + gap_slot b.open_gap in
      (
        record { gap = gap_taken now b.open_gap b.last_seq; before = before; entries = entries },
        record b { last_seq = before + length entries; open_gap = none },
      )

  -- `append` up to the wait for the spool.
  unfoldable pub append : ℕ → List (EvidenceEntry P) → Buffer P → Appending P × Buffer P
  unfolding accept
  append now [] b = (if b.opened then nothing_to_do else refused not_started, b)
  append now (entry ∷ entries) b =
      if not b.opened
      then (refused not_started, b)
      else if not (all (λ e. is_coverage_type e.coverage_type) (entry ∷ entries))
      then (refused unknown_coverage_type, b)
      else (waits (accept now (entry ∷ entries) b).0, (accept now (entry ∷ entries) b).1)

  -- `if (gap) this.openGap = {...}` of a write that failed: the gap is open again, and its own number
  -- is lost too. A gap that another call opened by then is replaced.
  unfoldable pub reopen : Option EvidenceGap → Buffer P → Buffer P
  reopen none b = b
  reopen (some g) b = record b {
    open_gap = some (record {
      first_seq = g.first_seq;
      last_seq = g.seq;
      lost_count = g.lost_count + 1;
      since = g.opened_at;
      reason = g.reason;
    });
  }

  -- `append` after the wait; `written` is what the spool answers: nothing, or the message of its
  -- failure.
  unfoldable pub settle_write :
      ℕ → Option String → Write P → Buffer P → Result AppendError (List ℕ) × Buffer P
  unfolding records_of reopen note_loss
  settle_write now none w b = (
    ok (map seq_of (sequence w.before w.entries)),
    record b { pending = b.pending ++ records_of w },
  )
  settle_write now (some reason) w b = (
    err (not_durable reason),
    note_loss now (w.before + 1) (w.before + length w.entries) (length w.entries) reason
        (reopen w.gap b),
  )

  abbrev first_stored : List (EvidenceRecord P) → ℕ → ℕ
  first_stored [] high_water_seq = high_water_seq
  first_stored (r ∷ rs) high_water_seq = seq_of r - 1

  -- `start`.
  unfoldable pub start : ℕ → SpoolRecovery P → Buffer P → Buffer P
  unfolding note_loss
  start now recovered b =
      let resumed = record b {
        pending = recovered.pending;
        last_seq = recovered.high_water_seq;
        last_stored_seq = first_stored recovered.pending recovered.high_water_seq;
        opened = true;
      } in
      if ltb 0 recovered.discarded_lines
      then note_loss now (resumed.last_seq + 1) resumed.last_seq recovered.discarded_lines
          "unreadable spool lines discarded on recovery" resumed
      else resumed
