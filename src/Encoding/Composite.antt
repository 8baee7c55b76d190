-- ===== src/Encoding/Composite.antt =====
-- What the payload of a composite decision carries (`encodeCompositeDecisionPayload`).
use refract_backend.Encoding.RoundTrip.{formatted_reads}
use refract_backend.Prelude.{
  ok_inj, checked_ok, bind_ok, not, ◌∙◌, subst, ap, sym, ok, arith, List, ◌≡◌, String,
}
use refract_backend.Prelude.Int.{ℤ, ◌≤ℤ◌}
use refract_backend.Encoding.Decimal.{
  invalid_version, is_negative, format_fixed_decimal, to_text_ℤ, encode_composite_decision_payload,
  Text, assert_i128, i128_max, encode_composite_value, DecisionPayload, i128_min,
  parse_fixed_decimal,
}

in_range : (z y : ℤ) → assert_i128 z ≡ ok y → (y ≡ z) × (i128_min ≤ℤ z) × (z ≤ℤ i128_max)
unfolding assert_i128
in_range z y h = ground arith

encoded_value :
    (value : Text) (scale z : ℤ)
    → encode_composite_value value scale ≡ ok z
    → (parse_fixed_decimal value scale ≡ ok z) × (i128_min ≤ℤ z) × (z ≤ℤ i128_max)
unfolding encode_composite_value
encoded_value value scale z h =
    let (y, parsed, fits) = bind_ok (parse_fixed_decimal value scale) assert_i128 h in
    let (same, low, high) = in_range y z fits in
    (
      parsed ∙ ap ok (sym same),
      subst (λ w. i128_min ≤ℤ w) (sym same) low,
      subst (λ w. w ≤ℤ i128_max) (sym same) high,
    )

-- When a composite payload is encoded, its canonical value parses to the number the given value
-- parses to, the encoded value is that number's text, and the number fits in 128 bits.
pub payload_reads_back :
    (feed : String) (version scale : ℤ) (value : Text) (inputs : List String) (p : DecisionPayload)
    → encode_composite_decision_payload feed version scale value inputs ≡ ok p
    → (z : ℤ) × (parse_fixed_decimal value scale ≡ ok z)
      × (parse_fixed_decimal p.value scale ≡ ok z)
      × (p.encoded ≡ to_text_ℤ z)
      × (i128_min ≤ℤ z)
      × (z ≤ℤ i128_max)
unfolding encode_composite_decision_payload
payload_reads_back feed version scale value inputs p h =
    let (allowed, composed) = checked_ok (not (is_negative version)) invalid_version _ h in
    let (z, encoded, rest) = bind_ok (encode_composite_value value scale) _ composed in
    let (canonical, written, made) = bind_ok (format_fixed_decimal z scale) _ rest in
    let (parsed, low, high) = encoded_value value scale z encoded in
    (
      z,
      parsed,
      formatted_reads z scale p.value (written ∙ ap ok (ap (λ q. q.value) (ok_inj made))),
      sym (ap (λ q. q.encoded) (ok_inj made)),
      low,
      high,
    )
