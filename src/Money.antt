-- ===== src/Money.antt =====
-- Monetary amounts as whole numbers of 1e-7 units (src/common/fixed-point.ts), and the arithmetic of
-- pool shares (src/pool/share-price.math.ts). An amount's text is the list of its character
-- codes.
pub mod Rounding
pub mod Shares
pub mod Amounts
use refract_backend.Prelude.{
  ◌>>=◌, ◌||◌, ◌&&◌, ok, err, Result, take, ◌++◌, ◌∷◌, [], Option, not, Bool, ◌%◌, ◌/◌, ◌*◌, ◌-◌,
  ◌+◌, suc, zero, if◌then◌else◌, ◌==◌, leb, ltb, ℕ, arith,
}
use refract_backend.Encoding.Decimal.{
  to_text_ℤ, fraction_of, dot, big_int_or_zero, abs, big_int, minus, with_sign, split_dot, to_text,
  sign_of, zero_char, is_decimal, is_negative, Text,
}
use refract_backend.Prelude.Int.{ℤ, negsuc, ◌*ℤ◌, pos}
use refract_backend.Prelude.Radix.{pad_end, pad_start}

pub data MoneyError : Type 0 where
  denominator_not_positive negative_numerator invalid_decimal_string division_by_zero : MoneyError

abbrev pub fixed_point_decimals : ℕ
fixed_point_decimals = 7

abbrev pub fixed_point_one : ℕ
fixed_point_one = 10000000

abbrev pub bps_one : ℤ
bps_one = pos 10000

unfoldable pub div_round_up : ℤ → ℤ → Result MoneyError ℤ
div_round_up (negsuc n) (pos (suc d)) = err negative_numerator
div_round_up (pos n) (pos (suc d)) = ok (pos ((n + suc d - 1) / suc d))
div_round_up numerator (pos zero) = err denominator_not_positive
div_round_up numerator (negsuc d) = err denominator_not_positive

unfoldable pub mul_by_bps : ℤ → ℤ → Result MoneyError ℤ
mul_by_bps amount bps = div_round_up (amount *ℤ bps) bps_one

unfoldable pub mul_by_scaled_rate : ℤ → ℤ → ℤ → Result MoneyError ℤ
mul_by_scaled_rate amount rate scale = div_round_up (amount *ℤ rate) scale

unfoldable pub mul_div_round_up : ℤ → ℤ → ℤ → Result MoneyError ℤ
mul_div_round_up amount numerator denominator = div_round_up (amount *ℤ numerator) denominator

-- The places after the point, cut to `decimals` of them.
abbrev pub fraction_digits : ℕ → ℕ → Text
fraction_digits decimals n =
    let padded = pad_start fixed_point_decimals zero_char (to_text n) in
    if leb fixed_point_decimals decimals then padded else take decimals padded

unfoldable pub format_fixed : ℤ → ℕ → Text
format_fixed value decimals =
    let sign = if is_negative value then minus ∷ [] else [] in
    let whole = to_text (abs value / fixed_point_one) in
    if ltb 0 decimals
    then sign ++ whole ++ dot ∷ fraction_digits decimals (abs value % fixed_point_one)
    else sign ++ whole

unfoldable pub fixed_of_parts : Bool → Text × Option Text → Result MoneyError ℤ
fixed_of_parts negative parts =
    if not (is_decimal parts)
    then err invalid_decimal_string
    else ok (
        with_sign negative (
          big_int parts.0 * fixed_point_one
          + big_int_or_zero (
              take fixed_point_decimals
                (pad_end fixed_point_decimals zero_char (fraction_of parts)))))

-- The white space that `trim` removes.
abbrev pub is_space : ℕ → Bool
is_space c =
    (leb 9 c && leb c 13)
    || c == 32
    || c == 160
    || c == 5760
    || (leb 8192 c && leb c 8202)
    || c == 8232
    || c == 8233
    || c == 8239
    || c == 8287
    || c == 12288
    || c == 65279

abbrev pub trim_start : Text → Text
trim_start [] = []
trim_start (c ∷ cs) = let rest = trim_start cs in if is_space c then rest else c ∷ cs

abbrev pub trim_end : Text → Text
trim_end [] = []
trim_end (c ∷ cs) = elim (trim_end cs) [
  | [] ↦ if is_space c then [] else c ∷ []
  | d ∷ ds ↦ c ∷ d ∷ ds
]

abbrev pub trim : Text → Text
trim s = trim_end (trim_start s)

unfoldable pub parse_fixed : Text → Result MoneyError ℤ
parse_fixed value =
    let trimmed = trim value in fixed_of_parts (sign_of trimmed).0 (split_dot (sign_of trimmed).1)

-- Amounts, shares and prices are not negative. `SHARE_PRICE_SCALE`:
abbrev pub share_price_scale : ℕ
share_price_scale = 10000

unfoldable pub divide_round_nearest : ℕ → ℕ → Result MoneyError ℕ
divide_round_nearest n d = if d == 0 then err denominator_not_positive else ok ((n + d / 2) / d)

unfoldable pub calculate_pool_share_value : ℕ → ℕ → Result MoneyError ℕ
calculate_pool_share_value shares price = divide_round_nearest (shares * price) share_price_scale

-- A division of bigints by zero throws.
abbrev pub divide : ℕ → ℕ → Result MoneyError ℕ
divide n d = if d == 0 then err division_by_zero else ok (n / d)

unfoldable pub calculate_shares_out : ℕ → ℕ → ℕ → Result MoneyError ℕ
calculate_shares_out amount total_shares total_usdc = divide (amount * total_shares) total_usdc

unfoldable pub calculate_usdc_out : ℕ → ℕ → ℕ → Result MoneyError ℕ
calculate_usdc_out shares total_usdc total_shares = divide (shares * total_usdc) total_shares

-- The text of a share of the pool in percent, with four places.
unfoldable pub format_fixed_percent : ℕ → ℕ → Result MoneyError Text
format_fixed_percent shares total_shares =
    divide_round_nearest (shares * 1000000) total_shares >>= λ scaled.
    ok (to_text (scaled / 10000) ++ dot ∷ pad_start 4 zero_char (to_text (scaled % 10000)))

-- `/` and `%` of bigints round towards zero, the remainder with the sign of the dividend.
unfoldable pub format_percent : ℤ → ℕ → Text
format_percent value decimals =
    let scaled = abs value * 100 in
    let signed = with_sign (is_negative value) in
    let whole = to_text_ℤ (signed (scaled / fixed_point_one)) in
    let padded =
      pad_start fixed_point_decimals zero_char (to_text_ℤ (signed (scaled % fixed_point_one))) in
    if ltb 0 decimals
    then whole ++ dot ∷ (if leb fixed_point_decimals decimals then padded else take decimals padded)
    else whole
