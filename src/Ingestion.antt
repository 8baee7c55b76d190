-- ===== src/Ingestion.antt =====
-- The intake of oracle readings (src/oracle/sources/oracle-ingestion.pipeline.ts, nonce-store.ts,
-- webhook-signature.ts, oracle-source.ts): polled readings and signed webhooks. A text is the list of
-- its character codes, a raw body the list of its bytes; times are milliseconds, but a webhook is
-- signed at a second. The hashes and the JSON parser are arguments.
pub mod Nonces
pub mod Signature
pub mod Pipeline
pub mod Replay
pub mod Order
pub mod Authentic
use refract_backend.Prelude.{
  ℕ, Bool, true, false, Option, none, some, List, [], ◌∷◌, ite, refl, sym, ap₂, ℕ_discrete, String,
  ◌≡◌, ◌≢◌, arith,
}
use refract_backend.Prelude.Dict.{Dict}

abbrev pub Text : Type 0
Text = List ℕ

heads : {x y : ℕ} {xs ys : Text} → ◌≡◌ {A = Text} (x ∷ xs) (y ∷ ys) → x ≡ y
heads e = ground (arith, e)

tails : {x y : ℕ} {xs ys : Text} → ◌≡◌ {A = Text} (x ∷ xs) (y ∷ ys) → xs ≡ ys
tails e = ground (arith, e)

cons_nil : {x : ℕ} {xs : Text} → ◌≢◌ {A = Text} (x ∷ xs) []
cons_nil e = ground (arith, e)

abbrev dec_cons :
    (x y : ℕ) (xs ys : Text) → Dec (x ≡ y) → Dec (xs ≡ ys) → Dec (◌≡◌ {A = Text} (x ∷ xs) (y ∷ ys))
dec_cons x y xs ys (yes p) (yes q) = yes (ap₂ (λ (a : ℕ) (b : Text). a ∷ b) p q)
dec_cons x y xs ys (yes p) (no n) = no (λ e. n (tails e))
dec_cons x y xs ys (no n) d = no (λ e. n (heads e))

unfoldable pub text_discrete : Discrete Text
unfolding ℕ_discrete heads tails cons_nil
text_discrete [] [] = yes refl
text_discrete [] (y ∷ ys) = no (λ e. cons_nil (sym e))
text_discrete (x ∷ xs) [] = no cons_nil
text_discrete (x ∷ xs) (y ∷ ys) = dec_cons x y xs ys (ℕ_discrete x y) (text_discrete xs ys)

abbrev pub same_text : Text → Text → Bool
same_text a b = ite (text_discrete a b) true false

pub same_text→eq : (a b : Text) → same_text a b ≡ true → a ≡ b
same_text→eq a b h = elim (text_discrete a b) [ yes e ↦ e | no n ↦ absurd (ground arith) ]

pub same_text→ne : (a b : Text) → same_text a b ≡ false → a ≢ b
same_text→ne a b h e = elim (text_discrete a b) [ yes y ↦ absurd (ground arith) | no n ↦ n e ]

-- A JavaScript number that is a time; a finite one is taken to be a whole number from 1970 on.
pub data Timestamp : Type 0 where
  ms : ℕ → Timestamp
  infinite minus_infinite nan : Timestamp

pub record SourceReading (V : Type 0) : Type 0 where
  pub feed_id : Text
  pub coverage_type : Text
  pub value : V
  pub observed_at : Timestamp
  pub sequence : Option ℕ

pub data OracleSourceMode : Type 0 where
  pull push : OracleSourceMode

pub record IngestedReading (V : Type 0) : Type 0 where
  pub reading : SourceReading V
  pub source_id : Text
  pub mode : OracleSourceMode
  pub received_at : ℕ

pub record WebhookCredential : Type 0 where
  pub key_id : Text
  pub secret : Text
  pub not_before : Option ℕ
  pub not_after : Option ℕ

-- `OracleSourceAdapter`; a pull source has no credentials and does not parse.
pub record OracleSourceAdapter (V Json : Type 0) : Type 0 where
  pub id : Text
  pub feeds : List Text
  pub mode : OracleSourceMode
  pub credentials : List WebhookCredential
  pub parse : Json → Option (List (SourceReading V))

pub record IngestionConfig : Type 0 where
  pub max_reading_age_ms : ℕ
  pub max_future_skew_ms : ℕ
  pub webhook_max_skew_ms : ℕ
  pub max_webhook_body_bytes : ℕ
  pub max_readings_per_delivery : ℕ

pub data ReadingRejectReason : Type 0 where
  feed_not_registered invalid_value stale future_dated : ReadingRejectReason
  not_newer_than_last sequence_not_increasing after_signed_timestamp : ReadingRejectReason

-- The reasons of a status 401 or 413.
pub data WebhookRejectReason : Type 0 where
  missing_headers malformed_headers unknown_key key_not_active : WebhookRejectReason
  timestamp_out_of_window bad_signature replayed_nonce nonce_store_full : WebhookRejectReason
  unknown_source body_too_large : WebhookRejectReason

-- The reasons of a status 400, which only a body meets that is authentic.
pub data BodyRejectReason : Type 0 where
  invalid_json invalid_payload too_many_readings : BodyRejectReason

-- A header that is given once, or several times.
pub data HeaderValue : Type 0 where
  one : Text → HeaderValue
  many : List Text → HeaderValue

pub record InboundWebhook : Type 0 where
  pub headers : Dict String HeaderValue
  pub raw_body : Option (List ℕ)

pub record SignedWebhookHeaders : Type 0 where
  pub key_id : Text
  pub timestamp : ℕ
  pub nonce : Text
  pub signature : Text

-- What the code calls of the runtime.
pub record Runtime (V Json : Type 0) : Type 0 where
  pub sha256_hex : List ℕ → Text
  pub hmac_sha256_hex : Text → Text → Text
  pub json_parse : List ℕ → Option Json
  pub is_finite : V → Bool
