-- ===== src/Encoding/Injective.antt =====
-- No two decisions are signed with the same bytes.
use refract_backend.Prelude.{
  ok_inj, bind_ok, length-append, Option, ◌≢◌, subst, string_discrete, if◌then◌else◌, ◌==◌, ok,
  length, ◌++◌, ◌∷◌, [], List, ◌∙◌, ap₂, ap, sym, refl, ◌≡◌, String, ◌<◌, ◌^◌, ℕ, arith,
}
use refract_backend.Encoding.Payload.{
  domain_tag, scale_oracle_value, payload_of, build_publish_payload, value_bytes, concat_parts,
  write_be, Bytes, shift_right, coverage_type_to_u32, as_uint, part,
}
use refract_backend.Prelude.Int.{negsuc, ◌≤ℤ◌, pos, ℤ}
use refract_backend.Prelude.Radix.{append_assoc, length-fixed, value-fixed, value_of}
use refract_backend.Encoding.Decimal.{i128_min, i128_max}

append_inj :
    (xs ys us vs : Bytes) → length xs ≡ length ys → xs ++ us ≡ ys ++ vs → (xs ≡ ys) × (us ≡ vs)
append_inj [] [] us vs l h = (refl, h)
append_inj [] (y ∷ ys) us vs l h = absurd (omega arith)
append_inj (x ∷ xs) [] us vs l h = absurd (omega arith)
append_inj (x ∷ xs) (y ∷ ys) us vs l h =
    let (same, rest) = append_inj xs ys us vs (omega arith) (cc) in
    let head : x ≡ y = cc in (ap₂ ◌∷◌ head same, rest)

write_be_inj :
    (width m n : ℕ)
    → m < 256 ^ width
    → n < 256 ^ width
    → write_be width m ≡ write_be width n
    → m ≡ n
write_be_inj width m n hm hn h =
    sym (value-fixed 256 (omega arith) width m hm)
    ∙ ap (value_of 256) h
    ∙ value-fixed 256 (omega arith) width n hn

part_parts : (b p : Bytes) → part b ≡ ok p → (p ≡ write_be 4 (length b) ++ b) × (length b < 256 ^ 4)
unfolding part
part_parts b p h = ground arith

-- A part tells where it ends.
part_inj :
    (a b u v : Bytes)
    → length a < 256 ^ 4
    → length b < 256 ^ 4
    → (write_be 4 (length a) ++ a) ++ u ≡ (write_be 4 (length b) ++ b) ++ v
    → (a ≡ b) × (u ≡ v)
part_inj a b u v ha hb h =
    let flat : write_be 4 (length a) ++ (a ++ u) ≡ write_be 4 (length b) ++ (b ++ v) =
      sym (append_assoc (write_be 4 (length a)) a u)
      ∙ h
      ∙ append_assoc (write_be 4 (length b)) b v in
    let (lengths, rest) =
      append_inj (write_be 4 (length a)) (write_be 4 (length b)) _ _
        (length-fixed 256 (omega arith) 4 (length a)
          ∙ sym (length-fixed 256 (omega arith) 4 (length b)))
        flat in
    append_inj a b u v (write_be_inj 4 (length a) (length b) ha hb lengths) rest

-- The first part of what is joined, and what follows it.
concat_parts_first :
    (x : Bytes) (xs : List Bytes) (bytes : Bytes)
    → concat_parts (x ∷ xs) ≡ ok bytes
    → (rest : Bytes) × (concat_parts xs ≡ ok rest)
      × (length x < 256 ^ 4)
      × (bytes ≡ (write_be 4 (length x) ++ x) ++ rest)
unfolding concat_parts
concat_parts_first x xs bytes h =
    let (first, parted, others) = bind_ok (part x) _ h in
    let (rest, joined_rest, made) = bind_ok (concat_parts xs) _ others in
    let (shape, short) = part_parts x first parted in
    (rest, joined_rest, short, sym (ok_inj made) ∙ ap (λ (p : Bytes). p ++ rest) shape)

nonempty : (x rest : Bytes) → (write_be 4 (length x) ++ x) ++ rest ≢ []
nonempty x rest h =
    let none_left : length ((write_be 4 (length x) ++ x) ++ rest) ≡ 0 = ap length h in
    absurd (
      omega (
        arith,
        length-append (write_be 4 (length x) ++ x) rest,
        length-append (write_be 4 (length x)) x,
        length-fixed 256 (omega arith) 4 (length x),
      ))

concat_parts_none : (bytes : Bytes) → concat_parts [] ≡ ok bytes → [] ≡ bytes
unfolding concat_parts
concat_parts_none bytes h = ok_inj h

concat_parts_inj :
    (xs ys : List Bytes) (bytes : Bytes)
    → concat_parts xs ≡ ok bytes
    → concat_parts ys ≡ ok bytes
    → xs ≡ ys
concat_parts_inj [] [] bytes h k = refl
concat_parts_inj [] (y ∷ ys) bytes h k =
    let (rest, _, _, shape) = concat_parts_first y ys bytes k in
    absurd (nonempty y rest (sym shape ∙ sym (concat_parts_none bytes h)))
concat_parts_inj (x ∷ xs) [] bytes h k =
    let (rest, _, _, shape) = concat_parts_first x xs bytes h in
    absurd (nonempty x rest (sym shape ∙ sym (concat_parts_none bytes k)))
concat_parts_inj (x ∷ xs) (y ∷ ys) bytes h k =
    let (rest, joined_xs, short, shape) = concat_parts_first x xs bytes h in
    let (rest', joined_ys, short', shape') = concat_parts_first y ys bytes k in
    let (same, same_rest) = part_inj x y rest rest' short short' (sym shape ∙ shape') in
    ap₂ ◌∷◌ same (
      concat_parts_inj xs ys rest joined_xs
        (subst (λ r. concat_parts ys ≡ ok r) (sym same_rest) joined_ys))

as_uint_inj :
    (y z : ℤ)
    → i128_min ≤ℤ y
    → y ≤ℤ i128_max
    → i128_min ≤ℤ z
    → z ≤ℤ i128_max
    → as_uint 64 (shift_right y 64) ≡ as_uint 64 (shift_right z 64)
    → as_uint 64 y ≡ as_uint 64 z
    → y ≡ z
as_uint_inj (pos m) (pos n) ly hy lz hz high low = ap pos (omega arith)
as_uint_inj (pos m) (negsuc n) ly hy lz hz high low = absurd (omega arith)
as_uint_inj (negsuc m) (pos n) ly hy lz hz high low = absurd (omega arith)
as_uint_inj (negsuc m) (negsuc n) ly hy lz hz high low = ap negsuc (omega arith)

abbrev name_of : ℕ → String
name_of n =
    if n == 0
    then "StablecoinDepeg"
    else if n == 1
    then "MarketCrash"
    else if n == 2
    then "LiquidationShield"
    else if n == 3
    then "SmartContractRisk"
    else if n == 4
    then "FlightDelay"
    else "Composite"

coverage_name : (s : String) (n : ℕ) → coverage_type_to_u32 s ≡ ok n → (s ≡ name_of n) × (n < 6)
unfolding coverage_type_to_u32
coverage_name s n h = elim (string_discrete s "StablecoinDepeg") [
  | yes e ↦ ground arith
  | no _ ↦ elim (string_discrete s "MarketCrash") [
    | yes e ↦ ground arith
    | no _ ↦ elim (string_discrete s "LiquidationShield") [
      | yes e ↦ ground arith
      | no _ ↦ elim (string_discrete s "SmartContractRisk") [
        | yes e ↦ ground arith
        | no _ ↦ elim (string_discrete s "FlightDelay") [
          | yes e ↦ ground arith
          | no _ ↦ elim (string_discrete s "Composite") [
            | yes e ↦ ground arith
            | no _ ↦ ground arith
          ]
        ]
      ]
    ]
  ]
]

value_bytes_inj :
    (y z : ℤ)
    → i128_min ≤ℤ y
    → y ≤ℤ i128_max
    → i128_min ≤ℤ z
    → z ≤ℤ i128_max
    → value_bytes y ≡ value_bytes z
    → y ≡ z
value_bytes_inj y z ly hy lz hz h =
    let high : ℤ → ℕ = λ w. as_uint 64 (shift_right w 64) in
    let (highs, lows) =
      append_inj (write_be 8 (high y)) (write_be 8 (high z)) _ _
        (length-fixed 256 (omega arith) 8 (high y)
          ∙ sym (length-fixed 256 (omega arith) 8 (high z)))
        h in
    as_uint_inj y z ly hy lz hz
      (write_be_inj 8 (high y) (high z) (as_uint_lt (shift_right y 64))
        (as_uint_lt (shift_right z 64)) highs)
      (write_be_inj 8 (as_uint 64 y) (as_uint 64 z) (as_uint_lt y) (as_uint_lt z) lows)
  where
    as_uint_lt : (w : ℤ) → as_uint 64 w < 256 ^ 8
    as_uint_lt (pos n) = omega arith
    as_uint_lt (negsuc n) = omega arith

payload_of_inj :
    (a b d e : Bytes) (m n : ℕ) (y z : ℤ) (bytes : Bytes)
    → payload_of a m y d ≡ ok bytes
    → payload_of b n z e ≡ ok bytes
    → (a ≡ b) × (write_be 4 m ≡ write_be 4 n) × (value_bytes y ≡ value_bytes z) × (d ≡ e)
unfolding payload_of
payload_of_inj a b d e m n y z bytes h k =
    let same : domain_tag ∷ a ∷ write_be 4 m ∷ value_bytes y ∷ d ∷ []
        ≡ domain_tag ∷ b ∷ write_be 4 n ∷ value_bytes z ∷ e ∷ [] =
      concat_parts_inj _ _ bytes h k in
    (cc, cc, cc, cc)

module _ {Num : Type 0} (scaled_by : Num → ℕ → Option ℤ) (utf8 : String → Bytes) where
  -- If two decisions whose scaled values fit an i128 are signed with the same bytes, they agree
  -- in coverage type and scaled value and in the UTF-8 of contract and decision id.
  pub build_publish_payload_inj :
      (contract coverage decision contract' coverage' decision' : String) (x x' : Num) (y z : ℤ)
      (bytes : Bytes)
      → build_publish_payload scaled_by utf8 contract coverage x decision ≡ ok bytes
      → build_publish_payload scaled_by utf8 contract' coverage' x' decision' ≡ ok bytes
      → scale_oracle_value scaled_by coverage x ≡ ok y
      → scale_oracle_value scaled_by coverage' x' ≡ ok z
      → i128_min ≤ℤ y
      → y ≤ℤ i128_max
      → i128_min ≤ℤ z
      → z ≤ℤ i128_max
      → (utf8 contract ≡ utf8 contract')
        × (coverage ≡ coverage')
        × (y ≡ z)
        × (utf8 decision ≡ utf8 decision')
  unfolding build_publish_payload
  build_publish_payload_inj contract coverage decision contract' coverage' decision' x x' y z bytes
        h k hy hz ly uy lz uz =
      let (y', scaled, typed) = bind_ok (scale_oracle_value scaled_by coverage x) _ h in
      let (z', scaled', typed') = bind_ok (scale_oracle_value scaled_by coverage' x') _ k in
      let (m, code, made) = bind_ok (coverage_type_to_u32 coverage) _ typed in
      let (n, code', made') = bind_ok (coverage_type_to_u32 coverage') _ typed' in
      let (contracts, codes, values, decisions) =
        payload_of_inj (utf8 contract) (utf8 contract') (utf8 decision) (utf8 decision') m n y z
          bytes
          (subst (λ w. payload_of (utf8 contract) m w (utf8 decision) ≡ ok bytes)
            (ok_inj (sym scaled ∙ hy)) made)
          (subst (λ w. payload_of (utf8 contract') n w (utf8 decision') ≡ ok bytes)
            (ok_inj (sym scaled' ∙ hz)) made') in
      let (named, small) = coverage_name coverage m code in
      let (named', small') = coverage_name coverage' n code' in
      (
        contracts,
        named ∙ ap name_of (write_be_inj 4 m n (omega arith) (omega arith) codes) ∙ sym named',
        value_bytes_inj y z ly uy lz uz values,
        decisions,
      )
