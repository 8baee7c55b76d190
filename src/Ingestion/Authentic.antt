-- ===== src/Ingestion/Authentic.antt =====
-- What a webhook that gets past its nonce has shown (webhook-signature.ts and
-- oracle-ingestion.pipeline.ts).
use refract_backend.Prelude.{
  ℕ, ◌*◌, ◌≤◌, true, Option, none, some, List, ok, or_fail, leb→le, bind_ok, checked_ok,
  Result-cases, ok_inj, find?, leb, length, ◌≡◌, refl, ap, subst, arith, inl, inr,
}
use refract_backend.Prelude.Dict.{lookup}
use refract_backend.Ingestion.{
  Text, text_discrete, same_text, OracleSourceAdapter, IngestionConfig, InboundWebhook,
  SignedWebhookHeaders, WebhookCredential, unknown_key, key_not_active, timestamp_out_of_window,
  bad_signature, unknown_source, body_too_large, same_text→eq, Runtime,
}
use refract_backend.Ingestion.Signature.{
  distance, is_active, sign_webhook, read_signature_headers, verify_webhook_signature,
}
use refract_backend.Ingestion.Pipeline.{
  Pipeline, authenticate, ingest_webhook, answer_request, raw_bytes, is_admitted, is_push,
}

or_fail_ok : {E A : Type 0} (o : Option A) (e : E) {a : A} → or_fail o e ≡ ok a → o ≡ some a
or_fail_ok none e h = absurd (ground arith)
or_fail_ok (some b) e h = ap some (ok_inj h)

module _ {V Json : Type 0} (runtime : Runtime V Json) where
  -- A credential of the headers' key, valid at the time, whose secret gives the signature of the
  -- headers and the body, which were signed at a time that is not further away than the skew.
  unfoldable pub IsSigned :
      Text → List WebhookCredential → SignedWebhookHeaders → List ℕ → ℕ → ℕ → Type 0
  IsSigned id credentials headers raw_body now skew =
      (c : WebhookCredential) × (find? (λ c. same_text c.key_id headers.key_id) credentials
        ≡ some c)
      × (is_active now c ≡ true)
      × (distance now (headers.timestamp * 1000) ≤ skew)
      × (sign_webhook runtime c.secret id headers.key_id headers.timestamp headers.nonce raw_body
          ≡ headers.signature)

  verified :
      (id : Text) (credentials : List WebhookCredential) (headers : SignedWebhookHeaders)
      (raw_body : List ℕ) (now skew : ℕ) (key : Text)
      → verify_webhook_signature runtime id credentials headers raw_body now skew ≡ ok key
      → IsSigned id credentials headers raw_body now skew
  unfolding IsSigned verify_webhook_signature
  verified id credentials headers raw_body now skew key h =
      let (c, found, rest) = bind_ok (or_fail _ unknown_key) _ h in
      let (active, rest1) = checked_ok (is_active now c) key_not_active _ rest in
      let (close, rest2) =
        checked_ok (leb (distance now (headers.timestamp * 1000)) skew) timestamp_out_of_window _
          rest1 in
      let (signed, rest3) =
        checked_ok
          (same_text
            (sign_webhook runtime c.secret id headers.key_id headers.timestamp headers.nonce
              raw_body)
            headers.signature)
          bad_signature _ rest2 in
      (
        c,
        or_fail_ok _ unknown_key found,
        active,
        leb→le (distance now (headers.timestamp * 1000)) skew close,
        same_text→eq _ headers.signature signed,
      )

module _ {V Json : Type 0} (runtime : Runtime V Json) (cfg : IngestionConfig) (capacity : ℕ) where
  -- The source is a push source, the headers are those of the request, and they sign its body.
  unfoldable pub IsAuthentic :
      Text
      → InboundWebhook
      → ℕ
      → Pipeline V Json
      → OracleSourceAdapter V Json
      → SignedWebhookHeaders
      → List ℕ
      → Type 0
  unfolding IsSigned
  IsAuthentic id request now s source headers raw_body =
      (lookup text_discrete id s.sources ≡ some source)
      × (is_push source.mode ≡ true)
      × (raw_bytes request.raw_body ≡ raw_body)
      × (length raw_body ≤ cfg.max_webhook_body_bytes)
      × (read_signature_headers request.headers ≡ ok headers)
      × IsSigned runtime id source.credentials headers raw_body now cfg.webhook_max_skew_ms

  pub authenticate-IsAuthentic :
      (id : Text) (request : InboundWebhook) (now : ℕ) (s : Pipeline V Json)
      (source : OracleSourceAdapter V Json) (headers : SignedWebhookHeaders) (raw_body : List ℕ)
      → authenticate runtime cfg capacity id request now s ≡ ok (source, headers, raw_body)
      → IsAuthentic id request now s source headers raw_body
  unfolding IsAuthentic authenticate
  authenticate-IsAuthentic id request now s source headers raw_body h =
      let (source1, found, rest) = bind_ok (or_fail _ unknown_source) _ h in
      let (pushes, rest1) = checked_ok (is_push source1.mode) unknown_source _ rest in
      let (small, rest2) = checked_ok _ body_too_large _ rest1 in
      let (headers1, parsed, rest3) = bind_ok (read_signature_headers request.headers) _ rest2 in
      let (key, checked, rest4) =
        bind_ok
          (verify_webhook_signature runtime id source1.credentials headers1
            (raw_bytes request.raw_body) now cfg.webhook_max_skew_ms)
          _ rest3 in
      let same = ok_inj rest4 in
      subst
        (λ (t : OracleSourceAdapter V Json × SignedWebhookHeaders × List ℕ).
          IsAuthentic id request now s t.0 t.1 t.2)
        same
        (
          or_fail_ok _ unknown_source found,
          pushes,
          refl,
          leb→le (length (raw_bytes request.raw_body)) cfg.max_webhook_body_bytes small,
          parsed,
          verified runtime id source1.credentials headers1 (raw_bytes request.raw_body) now
              cfg.webhook_max_skew_ms key checked,
        )

  -- A webhook that gets past its nonce is for a push source that is registered, has a body within
  -- the size, names a key of the source that is valid at the time, was signed within the skew,
  -- and carries the signature that the key's secret gives for it.
  pub ingest_webhook-IsAuthentic :
      (id : Text) (request : InboundWebhook) (now : ℕ) (s : Pipeline V Json)
      → is_admitted (ingest_webhook runtime cfg capacity id request now s).0 ≡ true
      → (source : OracleSourceAdapter V Json) × (headers : SignedWebhookHeaders) × (raw_body : List
          ℕ)
        × IsAuthentic id request now s source headers raw_body
  unfolding ingest_webhook answer_request
  ingest_webhook-IsAuthentic id request now s h =
      elim (Result-cases (authenticate runtime cfg capacity id request now s)) [
        | inl ((source, headers, raw_body), e) ↦ (
          source,
          headers,
          raw_body,
          authenticate-IsAuthentic id request now s source headers raw_body e,
        )
        | inr (why, e) ↦ absurd (ground (arith, e))
      ]
