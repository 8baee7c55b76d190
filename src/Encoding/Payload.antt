-- ===== src/Encoding/Payload.antt =====
-- The bytes that every member of a quorum signs for one oracle decision (`buildPublishPayload`), with
-- the scaling of a value that they carry. A byte is a number below 256. A JavaScript number is a
-- `Num`: `scaled_by x k` is `BigInt(Math.round(x * k))`, or none where `BigInt` throws; `utf8` is
-- the encoding of a text.
use refract_backend.Prelude.{
  or_fail, err, Result, ◌>>=◌, ok, length, ◌++◌, ◌∷◌, [], List, Option, ite, String, ◌^◌, ◌%◌, ◌/◌,
  ◌-◌, string_discrete, if◌then◌else◌, ltb, ℕ,
}
use refract_backend.Encoding.Decimal.{
  out_of_range, composite_needs_text, not_finite, unknown_coverage_type, EncodingError,
}
use refract_backend.Prelude.Int.{ℤ, pos, negsuc}
use refract_backend.Prelude.Radix.{fixed}

abbrev pub Bytes : Type 0
Bytes = List ℕ

-- `coverageTypeToU32`: a record has no entry for any other name.
unfoldable pub coverage_type_to_u32 : String → Result EncodingError ℕ
coverage_type_to_u32 s = ite (string_discrete s "StablecoinDepeg") (ok 0) (
    ite (string_discrete s "MarketCrash") (ok 1) (
      ite (string_discrete s "LiquidationShield") (ok 2) (
        ite (string_discrete s "SmartContractRisk") (ok 3) (
          ite (string_discrete s "FlightDelay") (ok 4)
            (ite (string_discrete s "Composite") (ok 5) (err unknown_coverage_type))))))

-- The factor by which a value of a coverage type is scaled.
unfoldable pub scale_factor : String → Result EncodingError ℕ
scale_factor s = ite (string_discrete s "StablecoinDepeg") (ok 10000000) (
    ite (string_discrete s "MarketCrash") (ok 100) (
      ite (string_discrete s "SmartContractRisk") (ok 100) (
        ite (string_discrete s "LiquidationShield") (ok 10000) (
          ite (string_discrete s "FlightDelay") (ok 1) (
            ite (string_discrete s "Composite") (err composite_needs_text)
              (err unknown_coverage_type))))))

-- `scaled >> 64n`, which rounds down, and `BigInt.asUintN(64, scaled)`.
abbrev pub shift_right : ℤ → ℕ → ℤ
shift_right (pos n) k = pos (n / 2 ^ k)
shift_right (negsuc n) k = negsuc (n / 2 ^ k)

abbrev pub as_uint : ℕ → ℤ → ℕ
as_uint w (pos n) = n % 2 ^ w
as_uint w (negsuc n) = 2 ^ w - 1 - n % 2 ^ w

-- A number in so many bytes, the highest first.
abbrev pub write_be : ℕ → ℕ → Bytes
write_be width n = fixed 256 width n

abbrev pub value_bytes : ℤ → Bytes
value_bytes scaled =
    write_be 8 (as_uint 64 (shift_right scaled 64)) ++ write_be 8 (as_uint 64 scaled)

-- `writeUInt32BE` throws above 2^32 - 1.
unfoldable pub part : Bytes → Result EncodingError Bytes
part bytes =
    if ltb (length bytes) (2 ^ 32)
    then ok (write_be 4 (length bytes) ++ bytes)
    else err out_of_range

-- "refract-oracle-v1" in UTF-8.
abbrev pub domain_tag : Bytes
domain_tag =
    114 ∷ 101 ∷ 102 ∷ 114 ∷ 97 ∷ 99 ∷ 116 ∷ 45 ∷ 111 ∷ 114 ∷ 97 ∷ 99 ∷ 108 ∷ 101 ∷ 45 ∷ 118 ∷ 49
    ∷ []

-- `Buffer.concat` of the parts.
unfoldable pub concat_parts : List Bytes → Result EncodingError Bytes
concat_parts [] = ok []
concat_parts (b ∷ bs) = part b >>= λ first. concat_parts bs >>= λ rest. ok (first ++ rest)

unfoldable pub payload_of : Bytes → ℕ → ℤ → Bytes → Result EncodingError Bytes
payload_of contract code scaled decision =
    concat_parts (domain_tag ∷ contract ∷ write_be 4 code ∷ value_bytes scaled ∷ decision ∷ [])

module _ {Num : Type 0} (scaled_by : Num → ℕ → Option ℤ) where
  unfoldable pub scale_oracle_value : String → Num → Result EncodingError ℤ
  scale_oracle_value coverage x = scale_factor coverage >>= λ k. or_fail (scaled_by x k) not_finite

  unfoldable pub build_publish_payload :
      (String → Bytes) → String → String → Num → String → Result EncodingError Bytes
  build_publish_payload utf8 contract coverage x decision =
      scale_oracle_value coverage x >>= λ scaled. coverage_type_to_u32 coverage >>= λ code.
      payload_of (utf8 contract) code scaled (utf8 decision)
