-- ===== src/Ingestion/Pipeline.antt =====
-- `OracleIngestionPipeline` (src/oracle/sources/oracle-ingestion.pipeline.ts): the checks of a reading
-- and of a batch, a webhook and a poll. A step runs to its sinks without giving way, so that steps
-- follow one another; the sinks answer whether they take the readings.
use refract_backend.Prelude.{
  ℕ, ◌+◌, ◌-◌, ◌*◌, Bool, true, false, not, Option, none, some, List, [], ◌∷◌, ◌++◌, length, all,
  any, ltb, leb, if◌then◌else◌, Result, ok, err, ◌>>=◌, ◌>>◌, guard, or_fail, sort_by,
}
use refract_backend.Prelude.Dict.{Dict, lookup, insert}
use refract_backend.Ingestion.{
  Text, text_discrete, same_text, Timestamp, ms, infinite, minus_infinite, nan, SourceReading,
  OracleSourceMode, pull, push, IngestedReading, OracleSourceAdapter, IngestionConfig,
  ReadingRejectReason, feed_not_registered, invalid_value, stale, future_dated, not_newer_than_last,
  sequence_not_increasing, after_signed_timestamp, WebhookRejectReason, replayed_nonce,
  nonce_store_full, unknown_source, body_too_large, BodyRejectReason, invalid_json, invalid_payload,
  too_many_readings, InboundWebhook, SignedWebhookHeaders, Runtime,
}
use refract_backend.Ingestion.Nonces.{Nonces, Claim, fresh, replayed, full, claim}
use refract_backend.Ingestion.Signature.{read_signature_headers, verify_webhook_signature}
use refract_backend.Ingestion.{
  minus_infinite, infinite, not_newer_than_last, WebhookRejectReason, ms, sequence_not_increasing,
  IngestionConfig, future_dated, stale, SourceReading, Timestamp, after_signed_timestamp,
  OracleSourceAdapter, IngestedReading, ReadingRejectReason, nan, Text,
}

-- An entry of `lastAccepted`.
pub record LastAccepted : Type 0 where
  pub observed_at : ℕ
  pub sequence : Option ℕ

pub record IngestionResult (V : Type 0) : Type 0 where
  pub accepted : List (IngestedReading V)
  pub rejected : List (SourceReading V × ReadingRejectReason)

-- What a webhook or a poll ends with; in `sink_threw` the readings were accepted, and a sink threw.
pub data IntakeAnswer (V : Type 0) : Type 0 where
  refused : WebhookRejectReason → IntakeAnswer V
  body_refused : BodyRejectReason → IntakeAnswer V
  ingested sink_threw : IngestionResult V → IntakeAnswer V
  not_polled : IntakeAnswer V

pub record Pipeline (V Json : Type 0) : Type 0 where
  pub sources : Dict Text (OracleSourceAdapter V Json)
  pub last_accepted : Dict Text LastAccepted
  pub nonces : Nonces
  pub sinks : List (List (IngestedReading V) → Bool)

-- The text `a:b`.
abbrev pub joined_key : Text → Text → Text
joined_key a b = a ++ 58 ∷ b

abbrev pub finite_time : Timestamp → Option ℕ
finite_time (ms t) = some t
finite_time infinite = none
finite_time minus_infinite = none
finite_time nan = none

-- The time that an accepted reading leaves; one that is not finite is never accepted.
abbrev pub observed_ms : Timestamp → ℕ
observed_ms (ms t) = t
observed_ms infinite = 0
observed_ms minus_infinite = 0
observed_ms nan = 0

-- A time by its place among all that are not NaN.
abbrev place_of : Timestamp → Option (ℕ × ℕ)
place_of minus_infinite = some (0, 0)
place_of (ms t) = some (1, t)
place_of infinite = some (2, 0)
place_of nan = none

-- `sequence ?? 0`.
abbrev sequence_or_zero : Option ℕ → ℕ
sequence_or_zero none = 0
sequence_or_zero (some n) = n

-- `a.observedAt - b.observedAt` is below zero, or else it is zero or NaN and `otherwise` holds.
unfoldable pub observed_before : Bool → Option (ℕ × ℕ) → Option (ℕ × ℕ) → Bool
observed_before otherwise none b = otherwise
observed_before otherwise (some a) none = otherwise
observed_before otherwise (some (i, s)) (some (j, t)) =
    if ltb i j
    then true
    else if ltb j i
    then false
    else if ltb s t
    then true
    else if ltb t s
    then false
    else otherwise

-- The comparison of `accept`.
unfoldable pub observed_first : {V : Type 0} → SourceReading V → SourceReading V → Bool
unfolding observed_before
observed_first a b =
    observed_before (ltb (sequence_or_zero a.sequence) (sequence_or_zero b.sequence))
      (place_of a.observed_at) (place_of b.observed_at)

-- A sequence number that does not grow, where the last reading had one.
unfoldable pub is_behind : Option ℕ → Option ℕ → Bool
is_behind none next = false
is_behind (some last) none = true
is_behind (some last) (some next) = leb next last

-- The part of `check` that compares with the last reading accepted.
unfoldable pub check_order : Option LastAccepted → ℕ → Option ℕ → Option ReadingRejectReason
unfolding is_behind
check_order none t sequence = none
check_order (some last) t sequence =
    if leb t last.observed_at
    then some not_newer_than_last
    else if is_behind last.sequence sequence
    then some sequence_not_increasing
    else none

-- `signedAtMs !== undefined && t > signedAtMs + skew`.
unfoldable pub is_after_signed : IngestionConfig → Option ℕ → ℕ → Bool
is_after_signed cfg none t = false
is_after_signed cfg (some signed) t = ltb (signed + cfg.max_future_skew_ms) t

unfoldable pub check_time :
    IngestionConfig → ℕ → Option ℕ → Option LastAccepted → Option ℕ → ℕ → Option ReadingRejectReason
unfolding check_order is_after_signed
check_time cfg now signed last sequence t =
    if ltb (now + cfg.max_future_skew_ms) t
    then some future_dated
    else if is_after_signed cfg signed t
    then some after_signed_timestamp
    else if ltb cfg.max_reading_age_ms (now - t)
    then some stale
    else check_order last t sequence

abbrev pub is_push : OracleSourceMode → Bool
is_push push = true
is_push pull = false

-- `rawBody ?? Buffer.alloc(0)`.
abbrev pub raw_bytes : Option (List ℕ) → List ℕ
raw_bytes none = []
raw_bytes (some bytes) = bytes

-- Whether no sink throws: the sinks get the readings one after the other.
abbrev all_take :
    {V : Type 0} → List (List (IngestedReading V) → Bool) → List (IngestedReading V) → Bool
all_take sinks [] = true
all_take sinks (r ∷ rs) = all (λ sink. sink (r ∷ rs)) sinks

-- The readings of a batch sorted out, and what is then the last accepted of each feed.
pub record Batch (V : Type 0) : Type 0 where
  pub result : IngestionResult V
  pub last_accepted : Dict Text LastAccepted

module _ {V Json : Type 0} (runtime : Runtime V Json) (cfg : IngestionConfig) (capacity : ℕ) where
  -- `check`.
  unfoldable pub check :
      OracleSourceAdapter V Json
      → SourceReading V
      → ℕ
      → Option ℕ
      → Dict Text LastAccepted
      → Option ReadingRejectReason
  unfolding check_time
  check source r now signed last =
      if not (any (same_text r.feed_id) source.feeds)
      then some feed_not_registered
      else if not (runtime.is_finite r.value)
      then some invalid_value
      else elim (finite_time r.observed_at) [
        | none ↦ some invalid_value
        | some t ↦
            check_time cfg now signed (lookup text_discrete (joined_key source.id r.feed_id) last)
              r.sequence t
      ]

  -- The update of `lastAccepted` in the loop of `accept`.
  unfoldable pub note_accepted :
      OracleSourceAdapter V Json
      → SourceReading V
      → Option ReadingRejectReason
      → Dict Text LastAccepted
      → Dict Text LastAccepted
  note_accepted source r (some reason) last = last
  note_accepted source r none last =
      insert text_discrete (joined_key source.id r.feed_id)
        (record { observed_at = observed_ms r.observed_at; sequence = r.sequence }) last

  -- The reading in the result of the loop, in front of those of later readings.
  unfoldable pub add_checked :
      OracleSourceAdapter V Json
      → ℕ
      → SourceReading V
      → Option ReadingRejectReason
      → IngestionResult V
      → IngestionResult V
  add_checked source now r (some reason) rest = record rest {
    rejected = (r, reason) ∷ rest.rejected;
  }
  add_checked source now r none rest = record rest {
    accepted =
        record { reading = r; source_id = source.id; mode = source.mode; received_at = now }
        ∷ rest.accepted;
  }

  -- The loop of `accept`.
  unfoldable pub accept_each :
      OracleSourceAdapter V Json
      → ℕ
      → Option ℕ
      → List (SourceReading V)
      → Dict Text LastAccepted
      → Batch V
  unfolding note_accepted add_checked
  accept_each source now signed [] last = record {
    result = record { accepted = []; rejected = [] };
    last_accepted = last;
  }
  accept_each source now signed (r ∷ rs) last =
      let reason = check source r now signed last in
      let rest = accept_each source now signed rs (note_accepted source r reason last) in
      record {
        result = add_checked source now r reason rest.result;
        last_accepted = rest.last_accepted;
      }

  -- `accept`.
  unfoldable pub accept_readings :
      OracleSourceAdapter V Json
      → List (SourceReading V)
      → ℕ
      → Option ℕ
      → Pipeline V Json
      → IntakeAnswer V × Pipeline V Json
  unfolding accept_each observed_first
  accept_readings source readings now signed s =
      let batch = accept_each source now signed (sort_by observed_first readings) s.last_accepted in
      (
        (if all_take s.sinks batch.result.accepted
            then ingested batch.result
            else sink_threw batch.result),
        record s { last_accepted = batch.last_accepted },
      )

  -- `ingestWebhook` up to the nonce: the source, the headers and the body.
  unfoldable pub authenticate :
      Text
      → InboundWebhook
      → ℕ
      → Pipeline V Json
      → Result WebhookRejectReason (OracleSourceAdapter V Json × SignedWebhookHeaders × List ℕ)
  authenticate source_id request now s = do
    source ← or_fail (lookup text_discrete source_id s.sources) unknown_source
    guard (is_push source.mode) unknown_source
    guard (leb (length (raw_bytes request.raw_body)) cfg.max_webhook_body_bytes) body_too_large
    headers ← read_signature_headers request.headers
    key ←
        verify_webhook_signature runtime source_id source.credentials headers
          (raw_bytes request.raw_body) now cfg.webhook_max_skew_ms
    ok (source, headers, raw_bytes request.raw_body)

  -- The readings of a body that is authentic.
  unfoldable pub read_body :
      OracleSourceAdapter V Json → List ℕ → Result BodyRejectReason (List (SourceReading V))
  read_body source raw_body = do
    body ← or_fail (runtime.json_parse raw_body) invalid_json
    readings ← or_fail (source.parse body) invalid_payload
    guard (leb (length readings) cfg.max_readings_per_delivery) too_many_readings
    ok readings

  -- `ingestWebhook` once the nonce is claimed.
  unfoldable pub ingest_body :
      OracleSourceAdapter V Json
      → SignedWebhookHeaders
      → List ℕ
      → ℕ
      → Pipeline V Json
      → IntakeAnswer V × Pipeline V Json
  unfolding accept_readings read_body
  ingest_body source headers raw_body now s = elim (read_body source raw_body) [
    | err e ↦ (body_refused e, s)
    | ok readings ↦ accept_readings source readings now (some (headers.timestamp * 1000)) s
  ]

  -- `nonceExpiry`.
  abbrev pub nonce_expiry : SignedWebhookHeaders → ℕ
  nonce_expiry headers = headers.timestamp * 1000 + cfg.webhook_max_skew_ms + 1

  unfoldable pub answer_claim :
      OracleSourceAdapter V Json
      → SignedWebhookHeaders
      → List ℕ
      → ℕ
      → Pipeline V Json
      → Claim × Nonces
      → IntakeAnswer V × Pipeline V Json
  unfolding ingest_body
  answer_claim source headers raw_body now s (fresh, entries) =
      ingest_body source headers raw_body now (record s { nonces = entries })
  answer_claim source headers raw_body now s (replayed, entries) =
      (refused replayed_nonce, record s { nonces = entries })
  answer_claim source headers raw_body now s (full, entries) =
      (refused nonce_store_full, record s { nonces = entries })

  -- `ingestWebhook` after the checks of the signature.
  unfoldable pub answer_request :
      Text
      → ℕ
      → Pipeline V Json
      → Result WebhookRejectReason (OracleSourceAdapter V Json × SignedWebhookHeaders × List ℕ)
      → IntakeAnswer V × Pipeline V Json
  unfolding answer_claim
  answer_request source_id now s (err e) = (refused e, s)
  answer_request source_id now s (ok (source, headers, raw_body)) =
      answer_claim source headers raw_body now s
        (claim capacity (joined_key source_id headers.nonce) (nonce_expiry headers) now s.nonces)

  -- `ingestWebhook`.
  unfoldable pub ingest_webhook :
      Text → InboundWebhook → ℕ → Pipeline V Json → IntakeAnswer V × Pipeline V Json
  unfolding authenticate answer_request
  ingest_webhook source_id request now s =
      answer_request source_id now s (authenticate source_id request now s)

  -- `ingestPull`, with what the source's `poll` answers.
  unfoldable pub ingest_pull :
      Text
      → Option (List (SourceReading V))
      → ℕ
      → Pipeline V Json
      → IntakeAnswer V × Pipeline V Json
  unfolding accept_readings
  ingest_pull source_id polled now s = elim (lookup text_discrete source_id s.sources) [
    | none ↦ (not_polled, s)
    | some source ↦ if is_push source.mode then (not_polled, s) else elim polled [
      | none ↦ (not_polled, s)
      | some readings ↦ accept_readings source readings now none s
    ]
  ]

-- Whether a webhook got past its nonce.
abbrev pub is_admitted : {V : Type 0} → IntakeAnswer V → Bool
is_admitted (refused e) = false
is_admitted not_polled = false
is_admitted (body_refused e) = true
is_admitted (ingested r) = true
is_admitted (sink_threw r) = true

-- A webhook, or what a source answered to a poll, and when.
pub data Arrival (V : Type 0) : Type 0 where
  webhook : Text → InboundWebhook → ℕ → Arrival V
  polled : Text → Option (List (SourceReading V)) → ℕ → Arrival V

abbrev pub event_time : {V : Type 0} → Arrival V → ℕ
event_time (webhook id request now) = now
event_time (polled id readings now) = now

module _ {V Json : Type 0} (runtime : Runtime V Json) (cfg : IngestionConfig) (capacity : ℕ) where
  unfoldable pub handle : Arrival V → Pipeline V Json → IntakeAnswer V × Pipeline V Json
  unfolding ingest_webhook ingest_pull
  handle (webhook id request now) s = ingest_webhook runtime cfg capacity id request now s
  handle (polled id readings now) s = ingest_pull runtime cfg capacity id readings now s

  unfoldable pub handle_all : List (Arrival V) → Pipeline V Json → Pipeline V Json
  unfolding handle
  handle_all [] s = s
  handle_all (event ∷ events) s = handle_all events (handle event s).1
