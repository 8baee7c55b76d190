-- ===== src/Encoding/Decimal.antt =====
-- `parseFixedDecimal`, `formatFixedDecimal` and the composite values that are made with them.
use refract_backend.Prelude.{
  ℕ, zero, suc, ◌+◌, ◌-◌, ◌*◌, ◌/◌, ◌%◌, ◌^◌, Bool, true, false, not, ◌&&◌, ◌||◌, List, [], ◌∷◌,
  ◌++◌, map, ltb, leb, ◌==◌, if◌then◌else◌, length, all, Result, ok, err, ◌>>=◌, ◌>>◌, guard,
  Option, none, some, String,
}
use refract_backend.Prelude.Int.{ℤ, pos, negsuc, ltb_ℤ}
use refract_backend.Prelude.Radix.{digits_of, value_of, pad_start, pad_end}

abbrev pub Text : Type 0
Text = List ℕ

pub data EncodingError : Type 0 where
  invalid_scale invalid_decimal too_many_digits overflow invalid_version : EncodingError
  composite_needs_text unknown_coverage_type not_finite out_of_range : EncodingError

abbrev pub minus : ℕ
minus = 45

abbrev pub dot : ℕ
dot = 46

abbrev pub zero_char : ℕ
zero_char = 48

-- The character of a decimal digit, and what one stands for.
abbrev pub digit_char : ℕ → ℕ
digit_char d = 48 + d

abbrev pub char_digit : ℕ → ℕ
char_digit c = c - 48

abbrev pub is_decimal_digit : ℕ → Bool
is_decimal_digit c = leb 48 c && leb c 57

-- `n.toString()` and `BigInt(s)`.
abbrev pub to_text : ℕ → Text
to_text n = map digit_char (digits_of 10 n)

abbrev pub big_int : Text → ℕ
big_int s = value_of 10 (map char_digit s)

abbrev pub neg : ℕ → ℤ
neg zero = pos 0
neg (suc n) = negsuc n

abbrev pub abs : ℤ → ℕ
abs (pos n) = n
abs (negsuc n) = suc n

abbrev pub is_negative : ℤ → Bool
is_negative (pos n) = false
is_negative (negsuc n) = true

-- `\d+`.
abbrev pub digits_only : Text → Bool
digits_only [] = false
digits_only (c ∷ cs) = all is_decimal_digit (c ∷ cs)

-- `split(".")`: the first part, and the second one if there is a dot.
abbrev before_dot : ℕ → Text × Option Text → Text × Option Text
before_dot c rest = (c ∷ rest.0, rest.1)

abbrev pub split_dot : Text → Text × Option Text
split_dot [] = ([], none)
split_dot (c ∷ cs) = if c == dot then ([], some cs) else before_dot c (split_dot cs)

-- `value.startsWith("-")` and what follows.
abbrev pub sign_of : Text → Bool × Text
sign_of [] = (false, [])
sign_of (c ∷ cs) = if c == minus then (true, cs) else (false, c ∷ cs)

-- `/^-?\d+(\.\d+)?$/` on what follows the sign.
abbrev pub is_decimal : Text × Option Text → Bool
is_decimal (whole, none) = digits_only whole
is_decimal (whole, some fraction) = digits_only whole && digits_only fraction

abbrev pub fraction_of : Text × Option Text → Text
fraction_of (whole, none) = []
fraction_of (whole, some fraction) = fraction

-- `BigInt(fracPart || "0")`.
abbrev pub big_int_or_zero : Text → ℕ
big_int_or_zero [] = big_int (zero_char ∷ [])
big_int_or_zero (c ∷ cs) = big_int (c ∷ cs)

-- A whole number in 0..38; every other scale is refused.
unfoldable pub scale_of : ℤ → Result EncodingError ℕ
scale_of (pos n) = if leb n 38 then ok n else err invalid_scale
scale_of (negsuc n) = err invalid_scale

abbrev pub with_sign : Bool → ℕ → ℤ
with_sign negative n = if negative then neg n else pos n

unfoldable pub parse_parts : Bool → Text × Option Text → ℕ → Result EncodingError ℤ
parse_parts negative parts scale =
    if not (is_decimal parts)
    then err invalid_decimal
    else if ltb scale (length (fraction_of parts))
    then err too_many_digits
    else ok (
        with_sign negative (
          big_int parts.0 * 10 ^ scale
          + big_int_or_zero (pad_end scale zero_char (fraction_of parts))))

unfoldable pub parse_fixed_decimal : Text → ℤ → Result EncodingError ℤ
parse_fixed_decimal value scale =
    scale_of scale >>= λ places. parse_parts (sign_of value).0 (split_dot (sign_of value).1) places

abbrev pub body_of : ℕ → ℕ → Text
body_of n zero = to_text (n / 10 ^ 0)
body_of n (suc k) =
    to_text (n / 10 ^ suc k) ++ dot ∷ pad_start (suc k) zero_char (to_text (n % 10 ^ suc k))

unfoldable pub format_fixed_decimal : ℤ → ℤ → Result EncodingError Text
format_fixed_decimal scaled scale = scale_of scale >>= λ places. ok (
    if is_negative scaled then minus ∷ body_of (abs scaled) places else body_of (abs scaled) places)

abbrev pub i128_max : ℤ
i128_max = pos (2 ^ 127 - 1)

abbrev pub i128_min : ℤ
i128_min = negsuc (2 ^ 127 - 1)

unfoldable pub assert_i128 : ℤ → Result EncodingError ℤ
assert_i128 scaled =
    if ltb_ℤ i128_max scaled || ltb_ℤ scaled i128_min then err overflow else ok scaled

unfoldable pub encode_composite_value : Text → ℤ → Result EncodingError ℤ
encode_composite_value value scale = parse_fixed_decimal value scale >>= assert_i128

-- What `JSON.stringify` gets.
pub record DecisionPayload : Type 0 where
  pub feed_id : String
  pub formula_version : ℤ
  pub scale : ℤ
  pub value : Text
  pub encoded : Text
  pub input_decision_ids : List String

-- `scaled.toString()`.
abbrev pub to_text_ℤ : ℤ → Text
to_text_ℤ z = if is_negative z then minus ∷ to_text (abs z) else to_text (abs z)

unfoldable pub encode_composite_decision_payload :
    String → ℤ → ℤ → Text → List String → Result EncodingError DecisionPayload
encode_composite_decision_payload feed version scale value inputs =
    guard (not (is_negative version)) invalid_version
    >> (encode_composite_value value scale >>= λ scaled.
        format_fixed_decimal scaled scale >>= λ canonical. ok (record {
          feed_id = feed;
          formula_version = version;
          scale = scale;
          value = canonical;
          encoded = to_text_ℤ scaled;
          input_decision_ids = inputs;
        }))
