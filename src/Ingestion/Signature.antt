-- ===== src/Ingestion/Signature.antt =====
-- The signature of a webhook (src/oracle/sources/webhook-signature.ts): its headers, the text that is
-- signed and the checks of key, time and HMAC.
use refract_backend.Prelude.{
  ℕ, ◌+◌, ◌-◌, ◌*◌, Bool, false, not, ◌&&◌, ◌||◌, Option, none, some, List, [], ◌∷◌, ◌++◌, map,
  length, all, find?, ltb, leb, ◌==◌, Result, ok, ◌>>=◌, ◌>>◌, guard, or_fail, String,
  string_discrete, take, drop,
}
use refract_backend.Prelude.Dict.{Dict, lookup}
use refract_backend.Prelude.Radix.{digits_of, value_of}
use refract_backend.Ingestion.{
  Text, same_text, WebhookCredential, HeaderValue, one, many, SignedWebhookHeaders, Runtime,
  WebhookRejectReason, missing_headers, malformed_headers, unknown_key, key_not_active,
  timestamp_out_of_window, bad_signature,
}

-- `[0-9]`, `[A-Za-z0-9_-]` and `[0-9a-f]`.
abbrev pub is_digit : ℕ → Bool
is_digit c = leb 48 c && leb c 57

abbrev pub is_nonce_char : ℕ → Bool
is_nonce_char c =
    (leb 65 c && leb c 90) || (leb 97 c && leb c 122) || is_digit c || (c == 95) || (c == 45)

abbrev pub is_hex_char : ℕ → Bool
is_hex_char c = is_digit c || (leb 97 c && leb c 102)

-- A text of a pattern: so many characters, all of a kind.
abbrev pub matches : (ℕ → Bool) → ℕ → ℕ → Text → Bool
matches kind least most s = leb least (length s) && leb (length s) most && all kind s

-- `"v1="`.
abbrev pub signature_prefix : Text
signature_prefix = 118 ∷ 49 ∷ 61 ∷ []

-- `SIGNATURE_PATTERN`.
abbrev pub is_signature : Text → Bool
is_signature s = same_text (take 3 s) signature_prefix && matches is_hex_char 64 64 (drop 3 s)

abbrev decimal_text : ℕ → Text
decimal_text n = map (λ d. 48 + d) (digits_of 10 n)

abbrev pub to_number : Text → ℕ
to_number s = value_of 10 (map (λ c. c - 48) s)

abbrev newline : Text
newline = 10 ∷ []

-- `"v1\n"`.
abbrev version_line : Text
version_line = 118 ∷ 49 ∷ 10 ∷ []

module _ {V Json : Type 0} (runtime : Runtime V Json) where
  -- `buildSigningString`.
  unfoldable pub build_signing_string : Text → Text → ℕ → Text → List ℕ → Text
  build_signing_string source_id key_id timestamp nonce raw_body =
      version_line
      ++ source_id
      ++ newline
      ++ key_id
      ++ newline
      ++ decimal_text timestamp
      ++ newline
      ++ nonce
      ++ newline
      ++ runtime.sha256_hex raw_body

  -- `signWebhook`.
  unfoldable pub sign_webhook : Text → Text → Text → ℕ → Text → List ℕ → Text
  unfolding build_signing_string
  sign_webhook secret source_id key_id timestamp nonce raw_body =
      signature_prefix
      ++ runtime.hmac_sha256_hex secret
          (build_signing_string source_id key_id timestamp nonce raw_body)

-- The helper `get`: a header that is given several times counts as missing, and so does an empty one.
abbrev header_text : Option HeaderValue → Option Text
header_text (some (one (c ∷ cs))) = some (c ∷ cs)
header_text (some (one [])) = none
header_text (some (many values)) = none
header_text none = none

abbrev header : Dict String HeaderValue → String → Result WebhookRejectReason Text
header headers name = or_fail (header_text (lookup string_discrete name headers)) missing_headers

abbrev is_well_formed_headers : Text → Text → Text → Text → Bool
is_well_formed_headers key_id ts nonce signature =
    matches is_digit 1 12 ts
    && matches is_nonce_char 16 128 nonce
    && is_signature signature
    && leb (length key_id) 128

-- `readSignatureHeaders`.
unfoldable pub read_signature_headers :
    Dict String HeaderValue → Result WebhookRejectReason SignedWebhookHeaders
read_signature_headers headers = do
  key_id ← header headers "x-refract-key-id"
  ts ← header headers "x-refract-timestamp"
  nonce ← header headers "x-refract-nonce"
  signature ← header headers "x-refract-signature"
  guard (is_well_formed_headers key_id ts nonce signature) malformed_headers
  ok (record { key_id = key_id; timestamp = to_number ts; nonce = nonce; signature = signature })

-- `notBefore` has passed, `notAfter` has not.
unfoldable pub is_active : ℕ → WebhookCredential → Bool
is_active now c =
    not (elim c.not_before [ none ↦ false | some from ↦ ltb now from ])
    && not (elim c.not_after [ none ↦ false | some until ↦ leb until now ])

-- `Math.abs(a - b)`.
abbrev pub distance : ℕ → ℕ → ℕ
distance a b = (a - b) + (b - a)

module _ {V Json : Type 0} (runtime : Runtime V Json) where
  -- `verifyWebhookSignature`.
  unfoldable pub verify_webhook_signature :
      Text
      → List WebhookCredential
      → SignedWebhookHeaders
      → List ℕ
      → ℕ
      → ℕ
      → Result WebhookRejectReason Text
  unfolding sign_webhook is_active
  verify_webhook_signature source_id credentials headers raw_body now max_skew_ms = do
    credential ← or_fail (find? (λ c. same_text c.key_id headers.key_id) credentials) unknown_key
    guard (is_active now credential) key_not_active
    guard (leb (distance now (headers.timestamp * 1000)) max_skew_ms) timestamp_out_of_window
    guard
        (same_text
          (sign_webhook runtime credential.secret source_id headers.key_id headers.timestamp
            headers.nonce raw_body)
          headers.signature)
        bad_signature
    ok credential.key_id
