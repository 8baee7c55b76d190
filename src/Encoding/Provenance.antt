-- ===== src/Encoding/Provenance.antt =====
-- Where a published value came from, packed into a u128 (`assertValidProvenance`, `packProvenance`,
-- `unpackProvenance`, `provenanceFromDecision`). A trust tier is the number that the enum gives it,
-- so that a number which is no tier can be unpacked and refused.
use Prim.Native.Nat.{bit_or}
use refract_backend.Prelude.{
  err, or_fail, ◌>>=◌, Result, ◌>>◌, ok, guard, length, all, map, ◌||◌, ◌&&◌, not, Bool, ◌^◌, ◌%◌,
  ◌/◌, ◌*◌, ◌-◌, ◌+◌, if◌then◌else◌, ◌==◌, leb, ℕ,
}
use refract_backend.Encoding.Decimal.{Text}
use refract_backend.Prelude.Int.{negsuc, ℤ, pos}
use refract_backend.Prelude.Radix.{digits_of, value_of, pad_start}
use refract_backend.Consensus.{
  single_source, corroborated, unanimous, unverified, is_agreed, ConsensusDecision, Numbers,
}

pub record ReadingProvenance : Type 0 where
  pub trust_tier : ℕ
  pub agreeing_sources : ℕ
  pub decision_id : Text
  pub source_timestamp : ℕ

pub data ProvenanceError : Type 0 where
  unknown_tier unverified_reading bad_count inconsistent_tier bad_decision_id : ProvenanceError
  bad_timestamp not_u128 unsupported_version reserved_set not_agreed : ProvenanceError

abbrev pub provenance_version : ℕ
provenance_version = 1

abbrev pub timestamp_max : ℕ
timestamp_max = 2 ^ 40 - 1

abbrev pub u128_max : ℕ
u128_max = 2 ^ 128 - 1

-- `0-9a-f`, what such a character stands for, and the character of a digit.
abbrev pub is_hex : ℕ → Bool
is_hex c = (leb 48 c && leb c 57) || (leb 97 c && leb c 102)

abbrev pub hex_value : ℕ → ℕ
hex_value c = if leb c 57 then c - 48 else c - 87

abbrev pub hex_char : ℕ → ℕ
hex_char d = if leb d 9 then 48 + d else 87 + d

-- `/^[0-9a-f]{16}$/`.
unfoldable pub is_decision_id : Text → Bool
is_decision_id s = (length s == 16) && all is_hex s

-- `TrustTier[t] !== undefined`.
abbrev pub is_tier : ℕ → Bool
is_tier t = leb t 3

-- `minSources`.
abbrev pub min_sources : ℕ → ℕ
min_sources t =
    if t == single_source
    then 1
    else if t == corroborated
    then 2
    else if t == unanimous
    then 3
    else 0

unfoldable pub is_consistent : ℕ → ℕ → Bool
is_consistent tier agreeing =
    if tier == single_source then agreeing == 1 else leb (min_sources tier) agreeing

unfoldable pub assert_valid_provenance : ReadingProvenance → Result ProvenanceError (Unit {0})
assert_valid_provenance p =
    guard (is_tier p.trust_tier) unknown_tier
    >> guard (not (p.trust_tier == unverified)) unverified_reading
    >> guard (leb p.agreeing_sources 255) bad_count
    >> guard (is_consistent p.trust_tier p.agreeing_sources) inconsistent_tier
    >> guard (is_decision_id p.decision_id) bad_decision_id
    >> guard (leb p.source_timestamp timestamp_max) bad_timestamp

-- `SHIFT`.
abbrev pub version_shift : ℕ
version_shift = 124

abbrev pub tier_shift : ℕ
tier_shift = 120

abbrev pub count_shift : ℕ
count_shift = 112

abbrev pub reserved_shift : ℕ
reserved_shift = 104

abbrev pub time_shift : ℕ
time_shift = 64

infixl 60 ◌<<<◌
abbrev pub ◌<<<◌ : ℕ → ℕ → ℕ
n <<< k = n * 2 ^ k

-- BigInt(`0x${id}`).
abbrev pub hex_number : Text → ℕ
hex_number s = value_of 16 (map hex_value s)

unfoldable pub packed_fields : ReadingProvenance → ℕ
packed_fields p =
    bit_or
      (bit_or
        (bit_or (bit_or (provenance_version <<< version_shift) (p.trust_tier <<< tier_shift))
          (p.agreeing_sources <<< count_shift))
        (p.source_timestamp <<< time_shift))
      (hex_number p.decision_id)

unfoldable pub pack_provenance : ReadingProvenance → Result ProvenanceError ℤ
pack_provenance p = assert_valid_provenance p >> ok (pos (packed_fields p))

-- `(packed >> shift) & ((1n << bits) - 1n)`.
abbrev pub field : ℕ → ℕ → ℕ → ℕ
field packed shift bits = packed / 2 ^ shift % 2 ^ bits

unfoldable pub unpacked_fields : ℕ → ReadingProvenance
unpacked_fields n = record {
  trust_tier = field n tier_shift 4;
  agreeing_sources = field n count_shift 8;
  decision_id = pad_start 16 48 (map hex_char (digits_of 16 (field n 0 64)));
  source_timestamp = field n time_shift 40;
}

abbrev pub checked_provenance : ReadingProvenance → Result ProvenanceError ReadingProvenance
checked_provenance p = assert_valid_provenance p >> ok p

unfoldable pub unpack_provenance : ℤ → Result ProvenanceError ReadingProvenance
unpack_provenance (negsuc n) = err not_u128
unpack_provenance (pos n) =
    guard (leb n u128_max) not_u128
    >> guard (field n version_shift 4 == provenance_version) unsupported_version
    >> guard (field n reserved_shift 8 == 0) reserved_set
    >> checked_provenance (unpacked_fields n)

-- The checks of a provenance whose time is an integer; the time is checked last.
abbrev pub checked_at : ℕ → ℕ → Text → ℤ → Result ProvenanceError ReadingProvenance
checked_at tier agreeing id (pos time) = checked_provenance (record {
  trust_tier = tier;
  agreeing_sources = agreeing;
  decision_id = id;
  source_timestamp = time;
})
checked_at tier agreeing id (negsuc time) =
    assert_valid_provenance (record {
      trust_tier = tier;
      agreeing_sources = agreeing;
      decision_id = id;
      source_timestamp = 0;
    })
    >> err bad_timestamp

unfoldable pub provenance_from_decision :
    {N : Type 0} → Numbers N → ConsensusDecision N → Result ProvenanceError ReadingProvenance
provenance_from_decision num d =
    guard (is_agreed d.status) not_agreed
    >> (or_fail d.source_timestamp not_agreed >>= λ time.
        checked_at d.trust_tier (length d.agreeing_sources) d.decision_id (num.seconds time))
