-- ===== src/Ledger/Readings.antt =====
-- The readings of src/oracle/consensus/ledger-view.ts, with the status of their signatures at a time.
use refract_backend.Prelude.{
  same, fold, ℕ, Option, none, some, List, [], ◌∷◌, String, Bool, leb, ◌&&◌, if◌then◌else◌,
  string_discrete,
}
use refract_backend.Prelude.Dict.{Dict, lookup, insert}
use refract_backend.Ledger.{
  EvidenceEvent, Reading, SignatureResult, result_verified, result_failed, SignatureStatus,
  not_required, verified, pending, failed, reading, signature_result,
}

pub record ReadingState (N : Type 0) : Type 0 where
  pub reading_id : String
  pub feed_id : String
  pub source_id : String
  pub value : N
  pub observed_at : ℕ
  pub ledger_seq : Option ℕ
  pub payload_hash : Option String
  pub signature : SignatureStatus
  pub seq : ℕ

abbrev pub status_of : SignatureResult → SignatureStatus
status_of result_verified = verified
status_of result_failed = failed

-- `toReadingState`: a later result replaces a signature that is pending.
unfoldable pub signature_of : SignatureStatus → Option SignatureResult → SignatureStatus
signature_of pending (some result) = status_of result
signature_of pending none = pending
signature_of verified override = verified
signature_of failed override = failed
signature_of not_required override = not_required

abbrev pub first_of : {A : Type 0} → List A → Option A
first_of [] = none
first_of (a ∷ rest) = some a

module _ {N : Type 0} where
  -- One round of the loop of `signatureResultsAt`.
  unfoldable pub signature_step :
      ℕ → Dict String SignatureResult → EvidenceEvent N → Dict String SignatureResult
  signature_step t results e = elim e.body [
    | signature_result reading_id result ↦
        if leb e.recorded_at t then insert string_discrete reading_id result results else results
    | _ ↦ results
  ]

  unfoldable pub signature_results_at : List (EvidenceEvent N) → ℕ → Dict String SignatureResult
  unfolding signature_step
  signature_results_at events t = fold (signature_step t) [] events

  unfoldable pub to_reading_state :
      EvidenceEvent N → Reading N → Option SignatureResult → ReadingState N
  unfolding signature_of
  to_reading_state e r override = record {
    reading_id = r.reading_id;
    feed_id = r.feed_id;
    source_id = r.source_id;
    value = r.value;
    observed_at = r.observed_at;
    ledger_seq = r.ledger_seq;
    payload_hash = r.payload_hash;
    signature = signature_of r.signature override;
    seq = e.seq;
  }

  abbrev pub reading_of : EvidenceEvent N → Option (Reading N)
  reading_of e = elim e.body [ reading r ↦ some r | _ ↦ none ]

  abbrev pub readings_in :
      Dict String SignatureResult
      → (EvidenceEvent N → Reading N → Bool)
      → List (EvidenceEvent N)
      → List (ReadingState N)
  readings_in results test [] = []
  readings_in results test (e ∷ events) =
      let rest = readings_in results test events in
      elim (reading_of e) [
        | none ↦ rest
        | some r ↦
            if test e r
            then to_reading_state e r (lookup string_discrete r.reading_id results) ∷ rest
            else rest
      ]

  abbrev pub in_window : String → ℕ → ℕ → EvidenceEvent N → Reading N → Bool
  in_window feed_id t from e r =
      same r.feed_id feed_id && leb e.recorded_at t && leb r.observed_at t && leb from r.observed_at

  abbrev pub has_id : String → ℕ → EvidenceEvent N → Reading N → Bool
  has_id reading_id t e r = same r.reading_id reading_id && leb e.recorded_at t

  -- `readingsAt`.
  unfoldable pub readings_at : List (EvidenceEvent N) → String → ℕ → ℕ → List (ReadingState N)
  unfolding to_reading_state signature_results_at
  readings_at events feed_id t from =
      readings_in (signature_results_at events t) (in_window feed_id t from) events

  -- `readingById`.
  unfoldable pub reading_by_id : List (EvidenceEvent N) → String → ℕ → Option (ReadingState N)
  unfolding to_reading_state signature_results_at
  reading_by_id events reading_id t =
      first_of (readings_in (signature_results_at events t) (has_id reading_id t) events)
