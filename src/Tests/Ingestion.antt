-- ===== src/Tests/Ingestion.antt =====
-- src/oracle/sources at concrete inputs: a webhook with an empty body that is signed by a hash which
-- answers 64 zeros.
use refract_backend.Prelude.{
  ℕ, true, false, none, some, List, [], ◌∷◌, ◌≡◌, refl, arith, string_discrete,
}
use refract_backend.Prelude.Radix.{replicate}
use refract_backend.Ingestion.{
  text_discrete, SourceReading, ms, IngestionConfig, OracleSourceAdapter, push, InboundWebhook,
  Runtime, one, SignedWebhookHeaders,
}
use refract_backend.Ingestion.Signature.{
  read_signature_headers, verify_webhook_signature, sign_webhook, is_active,
}
use refract_backend.Ingestion.Pipeline.{
  Pipeline, ingest_webhook, is_admitted, webhook, polled, handle_all, authenticate, answer_request,
  answer_claim, ingest_body, read_body, accept_readings, accept_each,
}
use refract_backend.Ingestion.Nonces.{claim, claim_new}
use refract_backend.Ingestion.Authentic.{IsAuthentic, ingest_webhook-IsAuthentic}
use refract_backend.Ingestion.Order.{InOrder, accept_each-InOrder}
use refract_backend.Ingestion.Replay.{replay_refused}

abbrev runtime : Runtime ℕ ℕ
runtime = record {
  sha256_hex = λ bytes. [];
  hmac_sha256_hex = λ secret text. replicate 64 48;
  json_parse = λ bytes. some 0;
  is_finite = λ v. true;
}

abbrev config : IngestionConfig
config = record {
  max_reading_age_ms = 300000;
  max_future_skew_ms = 30000;
  webhook_max_skew_ms = 300000;
  max_webhook_body_bytes = 65536;
  max_readings_per_delivery = 100;
}

abbrev source : OracleSourceAdapter ℕ ℕ
source = record {
  id = 97 ∷ [];
  feeds = (102 ∷ []) ∷ [];
  mode = push;
  credentials = record { key_id = 107 ∷ []; secret = []; not_before = none; not_after = none } ∷ [];
  parse = λ json. some [];
}

abbrev pipeline : Pipeline ℕ ℕ
pipeline = record { sources = (97 ∷ [], source) ∷ []; last_accepted = []; nonces = []; sinks = [] }

abbrev request : InboundWebhook
request = record {
  headers =
      ("x-refract-key-id", one (107 ∷ []))
      ∷ ("x-refract-timestamp", one (49 ∷ 48 ∷ 48 ∷ 48 ∷ []))
      ∷ ("x-refract-nonce", one (replicate 16 97))
      ∷ ("x-refract-signature", one (118 ∷ 49 ∷ 61 ∷ replicate 64 48))
      ∷ [];
  raw_body = none;
}

taken : is_admitted (ingest_webhook runtime config 10 (97 ∷ []) request 1000000 pipeline).0 ≡ true
unfolding ingest_webhook authenticate answer_request answer_claim ingest_body read_body
    accept_readings claim read_signature_headers verify_webhook_signature sign_webhook is_active
    text_discrete string_discrete claim_new
taken = refl

replay_refused_example :
    is_admitted
      (ingest_webhook runtime config 10 (97 ∷ []) request 1200000 (
        handle_all runtime config 10
          (polled (98 ∷ []) none 1100000 ∷ webhook (97 ∷ []) request 1150000 ∷ [])
          (ingest_webhook runtime config 10 (97 ∷ []) request 1000000 pipeline).1)).0
    ≡ false
replay_refused_example =
    replay_refused runtime config 10 (97 ∷ []) request 1000000 1200000 pipeline
      (polled (98 ∷ []) none 1100000 ∷ webhook (97 ∷ []) request 1150000 ∷ []) taken
      (omega arith, (omega arith, tt))

ingest_webhook-IsAuthentic_example :
    (s : OracleSourceAdapter ℕ ℕ) × (headers : SignedWebhookHeaders) × (raw_body : List ℕ)
    × IsAuthentic runtime config 10 (97 ∷ []) request 1000000 pipeline s headers raw_body
ingest_webhook-IsAuthentic_example =
    ingest_webhook-IsAuthentic runtime config 10 (97 ∷ []) request 1000000 pipeline taken

abbrev first : SourceReading ℕ
first = record {
  feed_id = 102 ∷ [];
  coverage_type = [];
  value = 1;
  observed_at = ms 1000;
  sequence = none;
}

accept_each-InOrder_example : InOrder runtime config 10 (97 ∷ 58 ∷ 102 ∷ []) none (
    accept_each runtime config 10 source 1500 none
      (first ∷ record first { observed_at = ms 900 } ∷ record first { observed_at = ms 1200 } ∷ [])
      [])
accept_each-InOrder_example =
    accept_each-InOrder runtime config 10 source 1500 none (97 ∷ 58 ∷ 102 ∷ [])
      (first ∷ record first { observed_at = ms 900 } ∷ record first { observed_at = ms 1200 } ∷ [])
      []
