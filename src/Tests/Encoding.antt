-- ===== src/Tests/Encoding.antt =====
-- src/oracle/oracle-encoding.ts at concrete inputs.
use refract_backend.Prelude.{
  ◌++◌, ok, ◌∷◌, [], some, Option, ite, ◌↔◌, refl, ◌≡◌, String, ◌*◌, string_discrete, ℕ, arith,
}
use refract_backend.Encoding.RoundTrip.{parse-format_fixed_decimal}
use refract_backend.Encoding.Packing.{pack_iff_unpack}
use refract_backend.Encoding.Injective.{build_publish_payload_inj}
use refract_backend.Encoding.Decimal.{Text, format_fixed_decimal, parse_fixed_decimal}
use refract_backend.Prelude.Int.{ℤ, negsuc, pos}
use refract_backend.Prelude.Radix.{fixed}
use refract_backend.Encoding.Provenance.{
  is_consistent, packed_fields, assert_valid_provenance, is_decision_id, ReadingProvenance,
  pack_provenance, unpack_provenance,
}
use refract_backend.Consensus.{corroborated}
use refract_backend.Encoding.Payload.{
  domain_tag, payload_of, coverage_type_to_u32, Bytes, scale_oracle_value, concat_parts, part,
  scale_factor, build_publish_payload,
}

-- "-30.11" with two places.
parse-format_fixed_decimal_example :
    (value : Text) × (format_fixed_decimal (negsuc 3010) (pos 2) ≡ ok value)
    × (parse_fixed_decimal value (pos 2) ≡ ok (negsuc 3010))
parse-format_fixed_decimal_example = parse-format_fixed_decimal (negsuc 3010) 2 (omega arith)

-- "00000000deadbeef".
abbrev decision_text : Text
decision_text =
    48 ∷ 48 ∷ 48 ∷ 48 ∷ 48 ∷ 48 ∷ 48 ∷ 48 ∷ 100 ∷ 101 ∷ 97 ∷ 100 ∷ 98 ∷ 101 ∷ 101 ∷ 102 ∷ []

abbrev provenance : ReadingProvenance
provenance = record {
  trust_tier = corroborated;
  agreeing_sources = 2;
  decision_id = decision_text;
  source_timestamp = 1700000000;
}

abbrev packed : ℤ
packed = pos 23936488549205020292831825828640571119

packs : pack_provenance provenance ≡ ok packed
unfolding pack_provenance assert_valid_provenance is_consistent is_decision_id packed_fields
packs = refl

pack_iff_unpack_example :
    (pack_provenance provenance ≡ ok packed) ↔ (unpack_provenance packed ≡ ok provenance)
pack_iff_unpack_example = pack_iff_unpack provenance packed

abbrev scaled_by : ℕ → ℕ → Option ℤ
scaled_by x k = some (pos (x * k))

abbrev utf8 : String → Bytes
utf8 s = ite (string_discrete s "C") (67 ∷ []) (68 ∷ 49 ∷ [])

abbrev signed_bytes : Bytes
signed_bytes =
    0 ∷ 0 ∷ 0 ∷ 17 ∷ domain_tag
    ++ 0 ∷ 0 ∷ 0 ∷ 1 ∷ 67 ∷ 0 ∷ 0 ∷ 0 ∷ 4 ∷ 0 ∷ 0 ∷ 0 ∷ 4 ∷ 0 ∷ 0 ∷ 0 ∷ 16 ∷ 0 ∷ 0 ∷ 0 ∷ 0 ∷ 0 ∷ 0
      ∷ 0 ∷ 0 ∷ 0 ∷ 0 ∷ 0 ∷ 0 ∷ 0 ∷ 0 ∷ 0 ∷ 247 ∷ 0 ∷ 0 ∷ 0 ∷ 2 ∷ 68 ∷ 49 ∷ []

signs : build_publish_payload scaled_by utf8 "C" "FlightDelay" 247 "D1" ≡ ok signed_bytes
unfolding build_publish_payload scale_oracle_value scale_factor coverage_type_to_u32 payload_of
    concat_parts part string_discrete fixed
signs = refl

build_publish_payload_inj_example :
    (utf8 "C" ≡ utf8 "C")
    × ◌≡◌ {A = String} "FlightDelay" "FlightDelay"
    × (pos 247 ≡ pos 247)
    × (utf8 "D1" ≡ utf8 "D1")
unfolding build_publish_payload scale_oracle_value scale_factor coverage_type_to_u32 payload_of
    concat_parts part string_discrete fixed
build_publish_payload_inj_example =
    build_publish_payload_inj scaled_by utf8 "C" "FlightDelay" "D1" "C" "FlightDelay" "D1" 247 247
      (pos 247) (pos 247) signed_bytes signs signs refl refl (omega arith) (omega arith)
      (omega arith) (omega arith)
