-- ===== src/Ingestion/Replay.antt =====
-- A webhook is taken at most once (oracle-ingestion.pipeline.ts with nonce-store.ts): its nonce is
-- recorded for as long as its time of signature passes.
use refract_backend.Prelude.{
  ℕ, ◌≤◌, ◌<◌, true, false, Option, none, some, List, [], ◌∷◌, Result, ok, err, Result-cases,
  Bool-cases, Option-cases, ok_inj, ◌≡◌, refl, sym, ap, subst, ◌∙◌, arith, inl, inr, All,
}
use refract_backend.Prelude.Dict.{lookup}
use refract_backend.Ingestion.{
  Text, text_discrete, SourceReading, OracleSourceAdapter, IngestionConfig, InboundWebhook,
  SignedWebhookHeaders, Runtime, WebhookRejectReason,
}
use refract_backend.Ingestion.Nonces.{
  Nonces, Claim, fresh, replayed, full, claim, IsKept, claim-IsKept, claim_fresh, claim_replayed,
}
use refract_backend.Ingestion.Signature.{read_signature_headers}
use refract_backend.Ingestion.Authentic.{authenticate-IsAuthentic, IsAuthentic, IsSigned}
use refract_backend.Ingestion.Pipeline.{
  Pipeline, joined_key, accept_readings, authenticate, read_body, ingest_body, nonce_expiry,
  answer_claim, answer_request, ingest_webhook, ingest_pull, is_admitted, Arrival, webhook, polled,
  event_time, handle, handle_all,
}

module _ {V Json : Type 0} (runtime : Runtime V Json) (cfg : IngestionConfig) (capacity : ℕ) where
  accept_readings-nonces :
      (source : OracleSourceAdapter V Json) (readings : List (SourceReading V)) (now : ℕ)
      (signed : Option ℕ) (s : Pipeline V Json)
      → (accept_readings runtime cfg capacity source readings now signed s).1.nonces ≡ s.nonces
  unfolding accept_readings
  accept_readings-nonces source readings now signed s = refl

  answer_claim-nonces :
      (source : OracleSourceAdapter V Json) (headers : SignedWebhookHeaders) (raw_body : List ℕ)
      (now : ℕ) (s : Pipeline V Json) (claimed : Claim) (entries : Nonces)
      → (answer_claim runtime cfg capacity source headers raw_body now s
          (claimed, entries)).1.nonces
        ≡ entries
  unfolding answer_claim ingest_body accept_readings
  answer_claim-nonces source headers raw_body now s fresh entries =
      elim (Result-cases (read_body runtime cfg capacity source raw_body)) [
        | inl (readings, e) ↦ ground (arith, e)
        | inr (why, e) ↦ ground (arith, e)
      ]
  answer_claim-nonces source headers raw_body now s replayed entries = refl
  answer_claim-nonces source headers raw_body now s full entries = refl

  ingest_pull-nonces :
      (id : Text) (readings : Option (List (SourceReading V))) (now : ℕ) (s : Pipeline V Json)
      → (ingest_pull runtime cfg capacity id readings now s).1.nonces ≡ s.nonces
  unfolding ingest_pull accept_readings
  ingest_pull-nonces id none now s = elim (Option-cases (lookup text_discrete id s.sources)) [
    | inl missing ↦ ground (arith, missing)
    | inr (source, found) ↦ ground (arith, found)
  ]
  ingest_pull-nonces id (some readings) now s =
      elim (Option-cases (lookup text_discrete id s.sources)) [
        | inl missing ↦ ground (arith, missing)
        | inr (source, found) ↦ ground (arith, found)
      ]

  answer_request-IsKept :
      (key id : Text) (expiry time now : ℕ) (s : Pipeline V Json)
      (r : Result WebhookRejectReason (OracleSourceAdapter V Json × SignedWebhookHeaders × List ℕ))
      → now ≤ time
      → IsKept key expiry time s.nonces
      → IsKept key expiry time (answer_request runtime cfg capacity id now s r).1.nonces
  unfolding answer_request
  answer_request-IsKept key id expiry time now s (err e) h kept = kept
  answer_request-IsKept key id expiry time now s (ok (source, headers, raw_body)) h kept =
      let k = joined_key id headers.nonce in
      let e = nonce_expiry runtime cfg capacity headers in
      subst (IsKept key expiry time)
        (sym (
          answer_claim-nonces source headers raw_body now s (claim capacity k e now s.nonces).0
            (claim capacity k e now s.nonces).1))
        (claim-IsKept capacity key k expiry e now time s.nonces h kept)

  handle-IsKept :
      (key : Text) (expiry time : ℕ) (event : Arrival V) (s : Pipeline V Json)
      → event_time event ≤ time
      → IsKept key expiry time s.nonces
      → IsKept key expiry time (handle runtime cfg capacity event s).1.nonces
  unfolding handle ingest_webhook ingest_pull accept_readings
  handle-IsKept key expiry time (webhook id request now) s h kept =
      answer_request-IsKept key id expiry time now s
        (authenticate runtime cfg capacity id request now s) h kept
  handle-IsKept key expiry time (polled id readings now) s h kept =
      subst (IsKept key expiry time) (sym (ingest_pull-nonces id readings now s)) kept

  handle_all-IsKept :
      (key : Text) (expiry time : ℕ) (events : List (Arrival V)) (s : Pipeline V Json)
      → All (λ event. event_time event ≤ time) events
      → IsKept key expiry time s.nonces
      → IsKept key expiry time (handle_all runtime cfg capacity events s).nonces
  unfolding handle_all
  handle_all-IsKept key expiry time [] s h kept = kept
  handle_all-IsKept key expiry time (event ∷ events) s (h, rest) kept =
      handle_all-IsKept key expiry time events (handle runtime cfg capacity event s).1 rest
        (handle-IsKept key expiry time event s h kept)

  admitted_claim :
      (source : OracleSourceAdapter V Json) (headers : SignedWebhookHeaders) (raw_body : List ℕ)
      (now : ℕ) (s : Pipeline V Json) (claimed : Claim) (entries : Nonces)
      → is_admitted
          (answer_claim runtime cfg capacity source headers raw_body now s (claimed, entries)).0
        ≡ true
      → claimed ≡ fresh
  unfolding answer_claim
  admitted_claim source headers raw_body now s fresh entries h = refl
  admitted_claim source headers raw_body now s replayed entries h = absurd (ground arith)
  admitted_claim source headers raw_body now s full entries h = absurd (ground arith)

  -- A webhook that got past its nonce leaves it recorded until its time of signature has passed.
  admitted-IsKept :
      (id : Text) (request : InboundWebhook) (now time : ℕ) (s : Pipeline V Json)
      → is_admitted (ingest_webhook runtime cfg capacity id request now s).0 ≡ true
      → (headers : SignedWebhookHeaders) × (read_signature_headers request.headers ≡ ok headers)
        × IsKept
            (joined_key id headers.nonce)
            (nonce_expiry runtime cfg capacity headers)
            time
            (ingest_webhook runtime cfg capacity id request now s).1.nonces
  unfolding ingest_webhook answer_request IsAuthentic
  admitted-IsKept id request now time s h =
      elim (Result-cases (authenticate runtime cfg capacity id request now s)) [
        | inr (why, e) ↦ absurd (ground (arith, e))
        | inl ((source, headers, raw_body), e) ↦
            let k = joined_key id headers.nonce in
            let expiry = nonce_expiry runtime cfg capacity headers in
            let claimed = claim capacity k expiry now s.nonces in
            let admitted =
              subst (λ r. is_admitted (answer_request runtime cfg capacity id now s r).0 ≡ true) e
                h in
            (
              headers,
              (authenticate-IsAuthentic runtime cfg capacity id request now s source headers
                  raw_body e).4,
              subst
                  (λ r.
                    IsKept k expiry time (answer_request runtime cfg capacity id now s r).1.nonces)
                  (sym e)
                  (inr (
                    ap (lookup text_discrete k)
                      (answer_claim-nonces source headers raw_body now s claimed.0 claimed.1)
                    ∙ claim_fresh capacity k expiry now s.nonces (
                        admitted_claim source headers raw_body now s claimed.0 claimed.1
                          admitted))),
            )
      ]

  refused_request :
      (id : Text) (now : ℕ) (s : Pipeline V Json) (why : WebhookRejectReason)
      → is_admitted (answer_request runtime cfg capacity id now s (err why)).0 ≡ false
  unfolding answer_request
  refused_request id now s why = refl

  not_replayed :
      (id : Text) (later : ℕ) (s : Pipeline V Json) (source : OracleSourceAdapter V Json)
      (headers : SignedWebhookHeaders) (raw_body : List ℕ)
      → later < nonce_expiry runtime cfg capacity headers
      → IsKept
          (joined_key id headers.nonce)
          (nonce_expiry runtime cfg capacity headers)
          later
          s.nonces
      → is_admitted
          (answer_request runtime cfg capacity id later s (ok (source, headers, raw_body))).0
        ≡ true
      → ⊥
  unfolding answer_request
  not_replayed id later s source headers raw_body early (inl past) h = omega (arith, early, past)
  not_replayed id later s source headers raw_body early (inr found) h =
      let k = joined_key id headers.nonce in
      let expiry = nonce_expiry runtime cfg capacity headers in
      let claimed = claim capacity k expiry later s.nonces in
      let taken = admitted_claim source headers raw_body later s claimed.0 claimed.1 h in
      let seen = claim_replayed capacity k expiry expiry later s.nonces found early in
      absurd (ground (arith, taken, seen))

  repeated :
      (id : Text) (request : InboundWebhook) (later : ℕ) (s : Pipeline V Json)
      (headers : SignedWebhookHeaders)
      → read_signature_headers request.headers ≡ ok headers
      → IsKept
          (joined_key id headers.nonce)
          (nonce_expiry runtime cfg capacity headers)
          later
          s.nonces
      → is_admitted (ingest_webhook runtime cfg capacity id request later s).0 ≡ false
  unfolding ingest_webhook IsAuthentic IsSigned
  repeated id request later s headers parsed kept =
      elim (Result-cases (authenticate runtime cfg capacity id request later s)) [
        | inr (why, e) ↦
            ap (λ r. is_admitted (answer_request runtime cfg capacity id later s r).0) e
            ∙ refused_request id later s why
        | inl ((source, headers1, raw_body), e) ↦
            let authentic =
              authenticate-IsAuthentic runtime cfg capacity id request later s source headers1
                raw_body e in
            let same = ok_inj (sym parsed ∙ authentic.4) in
            let close = authentic.5.3 in
            elim (Bool-cases
              (is_admitted (ingest_webhook runtime cfg capacity id request later s).0)) [
                | inr refused ↦ refused
                | inl admitted ↦ absurd (
                    not_replayed id later s source headers1 raw_body (omega (arith, close))
                      (subst
                        (λ t.
                          IsKept (joined_key id t.nonce) (nonce_expiry runtime cfg capacity t) later
                            s.nonces)
                        same kept)
                      (subst
                        (λ r.
                          is_admitted (answer_request runtime cfg capacity id later s r).0 ≡ true)
                        e admitted))
              ]
      ]

  -- A webhook that once got past its nonce never does so again: whatever webhooks and polls come
  -- in between, none of them later than its repetition, the repetition is refused.
  pub replay_refused :
      (id : Text) (request : InboundWebhook) (now later : ℕ) (s : Pipeline V Json)
      (events : List (Arrival V))
      → is_admitted (ingest_webhook runtime cfg capacity id request now s).0 ≡ true
      → All (λ event. event_time event ≤ later) events
      → is_admitted
          (ingest_webhook runtime cfg capacity id request later (
            handle_all runtime cfg capacity events
              (ingest_webhook runtime cfg capacity id request now s).1)).0
        ≡ false
  replay_refused id request now later s events h earlier =
      let first = (ingest_webhook runtime cfg capacity id request now s).1 in
      let (headers, parsed, kept) = admitted-IsKept id request now later s h in
      let found =
        handle_all-IsKept (joined_key id headers.nonce) (nonce_expiry runtime cfg capacity headers)
          later events first earlier kept in
      repeated id request later (handle_all runtime cfg capacity events first) headers parsed found
