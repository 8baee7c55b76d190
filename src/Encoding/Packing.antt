-- ===== src/Encoding/Packing.antt =====
-- Packing and unpacking provenance are inverse to each other.
use refract_backend.Prelude.{
  err, same, or_fail, bind_ok, checked_ok, some, ok_inj, ◌>>◌, then_ok, ◌≤◌, ok, ◌↔◌, ◌∙◌, subst,
  ap, sym, all, length, All, map, ◌∷◌, [], List, true, ap₂, refl, ◌≡◌, ◌<◌, ◌^◌, ℕ, arith,
}
use refract_backend.Encoding.Provenance.{
  bad_timestamp, checked_at, not_agreed, provenance_from_decision, u128_max, checked_provenance,
  field, assert_valid_provenance, ReadingProvenance, unpack_provenance, unpacked_fields,
  packed_fields, hex_char, hex_value, is_hex, is_decision_id, hex_number, pack_provenance,
}
use refract_backend.Prelude.Radix.{
  fixed, pad-digits_of, map-pad_start, value_lt, value_of, fixed-All, fixed-value, length-map,
  value-fixed, pad_start, digits_of,
}
use refract_backend.Encoding.Decimal.{Text}
use refract_backend.Prelude.Int.{negsuc, pos, ℤ}
use refract_backend.Encoding.Fields.{joined-fields, fields-joined, joined, or_of_fields}
use refract_backend.Consensus.{
  Numbers, insufficient_sources, no_quorum, agreed, is_agreed, ConsensusDecision, ConsensusStatus,
  no_valid_sources,
}

hex_values : (ds : List ℕ) → All (λ d. d < 16) ds → map hex_value (map hex_char ds) ≡ ds
hex_values [] h = refl
hex_values (d ∷ ds) (digit, h) = ap₂ ◌∷◌ (ground arith) (hex_values ds h)

hex_chars :
    (s : Text)
    → all is_hex s ≡ true
    → (map hex_char (map hex_value s) ≡ s) × All (λ d. d < 16) (map hex_value s)
hex_chars [] h = (refl, tt)
hex_chars (c ∷ cs) h = (
  ap₂ ◌∷◌ (ground arith) (hex_chars cs (ground arith)).0,
  (ground arith, (hex_chars cs (ground arith)).1),
)

id_parts : (s : Text) → is_decision_id s ≡ true → (length s ≡ 16) × (all is_hex s ≡ true)
unfolding is_decision_id
id_parts s h = ground arith

-- A decision id is a 64-bit number, and the text of that number is the id.
id_lt : (s : Text) → is_decision_id s ≡ true → hex_number s < 2 ^ 64
id_lt s h =
    let (long, hex) = id_parts s h in
    subst (λ (k : ℕ). hex_number s < 16 ^ k) (length-map hex_value s ∙ long)
      (value_lt 16 (omega arith) (map hex_value s) (hex_chars s hex).1)

hex_text :
    (n : ℕ)
    → n < 2 ^ 64
    → pad_start 16 48 (map hex_char (digits_of 16 n)) ≡ map hex_char (fixed 16 16 n)
hex_text n h =
    map-pad_start hex_char 16 0 (digits_of 16 n)
    ∙ ap (map hex_char) (pad-digits_of 16 (omega arith) 15 n h)

id_text :
    (s : Text)
    → is_decision_id s ≡ true
    → pad_start 16 48 (map hex_char (digits_of 16 (hex_number s))) ≡ s
id_text s h =
    let (long, hex) = id_parts s h in
    hex_text (hex_number s) (id_lt s h)
    ∙ ap (map hex_char) (
        ap (λ (k : ℕ). fixed 16 k (hex_number s)) (sym (length-map hex_value s ∙ long))
        ∙ fixed-value 16 (omega arith) (map hex_value s) (hex_chars s hex).1)
    ∙ (hex_chars s hex).0

-- The text of a 64-bit number is of that number.
text_number :
    (n : ℕ) → n < 2 ^ 64 → hex_number (pad_start 16 48 (map hex_char (digits_of 16 n))) ≡ n
text_number n h =
    ap hex_number (hex_text n h)
    ∙ ap (value_of 16) (hex_values (fixed 16 16 n) (fixed-All 16 (omega arith) 16 n))
    ∙ value-fixed 16 (omega arith) 16 n h

valid_parts :
    (p : ReadingProvenance)
    → assert_valid_provenance p ≡ ok tt
    → (p.trust_tier < 16)
      × (p.agreeing_sources < 256)
      × (is_decision_id p.decision_id ≡ true)
      × (p.source_timestamp < 2 ^ 40)
unfolding assert_valid_provenance
valid_parts p h = ground arith

packed-joined :
    (p : ReadingProvenance)
    → assert_valid_provenance p ≡ ok tt
    → packed_fields p
      ≡ joined p.trust_tier p.agreeing_sources p.source_timestamp (hex_number p.decision_id)
unfolding packed_fields
packed-joined p h =
    let (tier, count, id, time) = valid_parts p h in
    or_of_fields p.trust_tier p.agreeing_sources p.source_timestamp (hex_number p.decision_id) tier
      count time (id_lt p.decision_id id)

unpacked-joined :
    (p : ReadingProvenance)
    → assert_valid_provenance p ≡ ok tt
    → unpacked_fields
        (joined p.trust_tier p.agreeing_sources p.source_timestamp (hex_number p.decision_id))
      ≡ p
unfolding unpacked_fields
unpacked-joined p h =
    let (tier, count, id, time) = valid_parts p h in
    let (version, same_tier, same_count, reserved, same_time, same_id) =
      fields-joined p.trust_tier p.agreeing_sources p.source_timestamp (hex_number p.decision_id)
        tier count time (id_lt p.decision_id id) in
    let same_text =
      ap (λ (n : ℕ). pad_start 16 48 (map hex_char (digits_of 16 n))) same_id
      ∙ id_text p.decision_id id in
    λ i. record {
      trust_tier = same_tier i;
      agreeing_sources = same_count i;
      decision_id = same_text i;
      source_timestamp = same_time i;
    }

unpack_of :
    (n : ℕ) (p : ReadingProvenance)
    → n ≤ u128_max
    → field n 124 4 ≡ 1
    → field n 104 8 ≡ 0
    → checked_provenance (unpacked_fields n) ≡ ok p
    → unpack_provenance (pos n) ≡ ok p
unfolding unpack_provenance
unpack_of n p fits version reserved checked = ground arith

unpack_parts :
    (n : ℕ) (p : ReadingProvenance)
    → unpack_provenance (pos n) ≡ ok p
    → (n ≤ u128_max)
      × (field n 124 4 ≡ 1)
      × (field n 104 8 ≡ 0)
      × (checked_provenance (unpacked_fields n) ≡ ok p)
unfolding unpack_provenance
unpack_parts n p h = ground arith

unpack_packed :
    (p : ReadingProvenance)
    → assert_valid_provenance p ≡ ok tt
    → unpack_provenance (pos (packed_fields p)) ≡ ok p
unpack_packed p h =
    let (tier, count, id, time) = valid_parts p h in
    let d_lt : hex_number p.decision_id < 2 ^ 64 = id_lt p.decision_id id in
    let fields =
      fields-joined p.trust_tier p.agreeing_sources p.source_timestamp (hex_number p.decision_id)
        tier count time d_lt in
    subst (λ (n : ℕ). unpack_provenance (pos n) ≡ ok p) (sym (packed-joined p h))
      (unpack_of _ p (omega arith) fields.0 fields.3
        (ap checked_provenance (unpacked-joined p h) ∙ ap (λ m. m >> ok p) h))

pack_unpack :
    (p : ReadingProvenance) (z : ℤ) → pack_provenance p ≡ ok z → unpack_provenance z ≡ ok p
unfolding pack_provenance
pack_unpack p z h =
    let (valid, made) = then_ok (assert_valid_provenance p) (ok (pos (packed_fields p))) h in
    subst (λ w. unpack_provenance w ≡ ok p) (ok_inj made) (unpack_packed p valid)

packed-unpacked :
    (n : ℕ)
    → n ≤ u128_max
    → field n 124 4 ≡ 1
    → field n 104 8 ≡ 0
    → assert_valid_provenance (unpacked_fields n) ≡ ok tt
    → packed_fields (unpacked_fields n) ≡ n
unfolding unpacked_fields
packed-unpacked n fits version reserved valid =
    packed-joined (unpacked_fields n) valid
    ∙ ap (joined (field n 120 4) (field n 112 8) (field n 64 40))
        (text_number (field n 0 64) (omega arith))
    ∙ joined-fields n fits version reserved

unpack_pack :
    (z : ℤ) (p : ReadingProvenance) → unpack_provenance z ≡ ok p → pack_provenance p ≡ ok z
unfolding pack_provenance unpack_provenance
unpack_pack (negsuc n) p h = absurd (ground arith)
unpack_pack (pos n) p h =
    let (fits, version, reserved, checked) = unpack_parts n p h in
    let (valid, made) =
      then_ok (assert_valid_provenance (unpacked_fields n)) (ok (unpacked_fields n)) checked in
    subst (λ q. pack_provenance q ≡ ok (pos n)) (ok_inj made)
      (ap (λ m. m >> ok (pos (packed_fields (unpacked_fields n)))) valid
        ∙ ap (λ (m : ℕ). ok (pos m)) (packed-unpacked n fits version reserved valid))

-- Packing a provenance gives an integer exactly when unpacking that integer gives the provenance:
-- the two are inverse to each other, errors included.
pub pack_iff_unpack :
    (p : ReadingProvenance) (z : ℤ) → (pack_provenance p ≡ ok z) ↔ (unpack_provenance z ≡ ok p)
pack_iff_unpack p z = (pack_unpack p z, unpack_pack z p)

-- What passes the checks is packed, and is what was checked.
checked_packs :
    (q p : ReadingProvenance)
    → checked_provenance q ≡ ok p
    → (z : ℤ) × (pack_provenance p ≡ ok z)
      × (unpack_provenance z ≡ ok p)
      × (0 < p.trust_tier)
      × (q ≡ p)
unfolding pack_provenance assert_valid_provenance
checked_packs q p h =
    let (valid, same) = then_ok (assert_valid_provenance q) (ok q) h in
    let valid_p : assert_valid_provenance p ≡ ok tt =
      subst (λ r. assert_valid_provenance r ≡ ok tt) (ok_inj same) valid in
    let packed : pack_provenance p ≡ ok (pos (packed_fields p)) =
      ap (λ m. m >> ok (pos (packed_fields p))) valid_p in
    (pos (packed_fields p), packed, unpack_packed p valid_p, tier_pos p valid_p, ok_inj same)
  where
    tier_pos : (r : ReadingProvenance) → assert_valid_provenance r ≡ ok tt → 0 < r.trust_tier
    tier_pos r v = ground arith

is_agreed-agreed : (s : ConsensusStatus) → is_agreed s ≡ true → s ≡ agreed
is_agreed-agreed agreed h = refl
is_agreed-agreed no_valid_sources h = absurd (ground arith)
is_agreed-agreed insufficient_sources h = absurd (ground arith)
is_agreed-agreed no_quorum h = absurd (ground arith)

-- A time before 1970 is refused.
checked_at-pos :
    (tier agreeing : ℕ) (id : Text) (time : ℤ) (p : ReadingProvenance)
    → checked_at tier agreeing id time ≡ ok p
    → (s : ℕ) × (time ≡ pos s)
      × (checked_provenance (record {
        trust_tier = tier;
        agreeing_sources = agreeing;
        decision_id = id;
        source_timestamp = s;
      })
          ≡ ok p)
checked_at-pos tier agreeing id (pos s) p h = (s, refl, h)
checked_at-pos tier agreeing id (negsuc s) p h =
    let (_, failed) = then_ok (assert_valid_provenance _) (err bad_timestamp) h in
    absurd (ground (arith, failed))

-- A provenance that is derived from a consensus decision packs and unpacks to itself; the
-- decision was agreed, its tier is not the unverified one, tier, id and number of agreeing
-- sources are the decision's, and the time is the decision's in whole seconds.
pub provenance_from_decision-packs :
    {N : Type 0} (num : Numbers N) (d : ConsensusDecision N) (p : ReadingProvenance)
    → provenance_from_decision num d ≡ ok p
    → (z : ℤ) × (pack_provenance p ≡ ok z)
      × (unpack_provenance z ≡ ok p)
      × (d.status ≡ agreed)
      × (0 < p.trust_tier)
      × (p.trust_tier ≡ d.trust_tier)
      × (p.decision_id ≡ d.decision_id)
      × (p.agreeing_sources ≡ length d.agreeing_sources)
      × (t : N) × (d.source_timestamp ≡ some t)
      × (num.seconds t ≡ pos p.source_timestamp)
unfolding provenance_from_decision pack_provenance
provenance_from_decision-packs num d p h =
    let (agreed_status, timed) = checked_ok (is_agreed d.status) not_agreed _ h in
    let (t, time, found) = bind_ok (or_fail d.source_timestamp not_agreed) _ timed in
    let (s, whole, checked) =
      checked_at-pos d.trust_tier (length d.agreeing_sources) d.decision_id (num.seconds t) p
        found in
    let (z, packs, unpacks, tier, same) = checked_packs _ p checked in
    (
      z,
      packs,
      unpacks,
      is_agreed-agreed d.status agreed_status,
      tier,
      sym (ap (λ q. q.trust_tier) same),
      sym (ap (λ q. q.decision_id) same),
      sym (ap (λ q. q.agreeing_sources) same),
      t,
      ground arith,
      whole ∙ ap (λ (q : ReadingProvenance). pos q.source_timestamp) same,
    )
