-- ===== src/Encoding/RoundTrip.antt =====
-- The exact decimals come back: what `formatFixedDecimal` writes, `parseFixedDecimal` reads.
use refract_backend.Prelude.{
  Result, err, ◌>>=◌, [], ◌&&◌, subst, ◌-◌, if◌then◌else◌, ok, all, ◌++◌, ◌∷◌, some, none, false,
  true, ◌∙◌, ap₂, ap, refl, ◌≡◌, ◌<◌, ◌≤◌, ◌^◌, ◌%◌, ◌/◌, ◌*◌, ◌+◌, suc, zero, length, All, Option,
  map, List, Bool, ℕ, arith,
}
use refract_backend.Encoding.Decimal.{
  EncodingError, minus, abs, is_negative, dot, with_sign, big_int_or_zero, fraction_of,
  is_decimal_digit, digit_char, char_digit, is_decimal, zero_char, scale_of, split_dot, body_of,
  to_text, format_fixed_decimal, big_int, sign_of, digits_only, Text, parse_parts,
  parse_fixed_decimal,
}
use refract_backend.Prelude.Radix.{
  map-pad_start, length-map, fixed-All, value-fixed, length-fixed, pad_end, pad-digits_of, value_of,
  fixed, replicate, digits_of_pos, digits_of-All, value-digits_of, pad_start, digits_of,
}
use refract_backend.Prelude.Int.{negsuc, pos, ℤ}
use native.Mathlib.Nat.{div-add-mod', mod-lt, one-le-pow, div-one, pow-zero}

char-digits : (ds : List ℕ) → map char_digit (map digit_char ds) ≡ ds
char-digits [] = refl
char-digits (d ∷ ds) = ap₂ ◌∷◌ (omega arith) (char-digits ds)

digit_chars : (ds : List ℕ) → All (λ d. d < 10) ds → all is_decimal_digit (map digit_char ds) ≡ true
digit_chars [] h = refl
digit_chars (d ∷ ds) (digit, h) = ground (arith, digit_chars ds h)

-- A dot splits what stands before it, when that is digits.
split_dot-digits :
    (ds cs : List ℕ)
    → All (λ d. d < 10) ds
    → split_dot (map digit_char ds ++ dot ∷ cs) ≡ (map digit_char ds, some cs)
split_dot-digits [] cs h = refl
split_dot-digits (d ∷ ds) cs (digit, h) = ground (arith, split_dot-digits ds cs h)

split_dot-none :
    (ds : List ℕ) → All (λ d. d < 10) ds → split_dot (map digit_char ds) ≡ (map digit_char ds, none)
split_dot-none [] h = refl
split_dot-none (d ∷ ds) (digit, h) = ground (arith, split_dot-none ds h)

append_nil : (xs : List ℕ) → xs ++ [] ≡ xs
append_nil [] = refl
append_nil (x ∷ xs) = ap (◌∷◌ x) (append_nil xs)

-- Digits are a number as `\\d+` has it.
digits_only-chars :
    (ds : List ℕ) → 0 < length ds → All (λ d. d < 10) ds → digits_only (map digit_char ds) ≡ true
digits_only-chars [] some_digit h = absurd (omega arith)
digits_only-chars (d ∷ ds) some_digit h = digit_chars (d ∷ ds) h

big_int-chars : (ds : List ℕ) → big_int (map digit_char ds) ≡ value_of 10 ds
big_int-chars ds = ap (value_of 10) (char-digits ds)

big_int-to_text : (n : ℕ) → big_int (to_text n) ≡ n
big_int-to_text n = big_int-chars (digits_of 10 n) ∙ value-digits_of 10 (omega arith) n

digits_only-to_text : (n : ℕ) → digits_only (to_text n) ≡ true
digits_only-to_text n =
    digits_only-chars (digits_of 10 n) (digits_of_pos 10 n) (digits_of-All 10 (omega arith) n)

pad_end_full : (k : ℕ) (s : Text) → length s ≡ k → pad_end k zero_char s ≡ s
pad_end_full k s h =
    let none_missing : k - length s ≡ 0 = omega arith in
    ap (λ (n : ℕ). s ++ replicate n zero_char) none_missing ∙ append_nil s

big_int_or_zero-pos : (s : Text) → 0 < length s → big_int_or_zero s ≡ big_int s
big_int_or_zero-pos [] h = absurd (omega arith)
big_int_or_zero-pos (c ∷ cs) h = refl

-- The fraction as it is written.
fraction-fixed :
    (k n : ℕ)
    → n < 10 ^ suc k
    → pad_start (suc k) zero_char (to_text n) ≡ map digit_char (fixed 10 (suc k) n)
fraction-fixed k n h =
    map-pad_start digit_char (suc k) 0 (digits_of 10 n)
    ∙ ap (map digit_char) (pad-digits_of 10 (omega arith) k n h)

-- What is read from parts that have the form and room.
read_parts :
    (negative : Bool) (parts : Text × Option Text) (k v : ℕ)
    → is_decimal parts ≡ true
    → length (fraction_of parts) ≤ k
    → big_int parts.0 * 10 ^ k + big_int_or_zero (pad_end k zero_char (fraction_of parts)) ≡ v
    → parse_parts negative parts k ≡ ok (with_sign negative v)
unfolding parse_parts
read_parts negative parts k v form room reads = ground arith

abbrev pub fraction_text : ℕ → ℕ → Text
fraction_text n k = map digit_char (fixed 10 (suc k) (n % 10 ^ suc k))

remainder_lt : (n k : ℕ) → n % 10 ^ k < 10 ^ k
remainder_lt n k = mod-lt n (one-le-pow k 10 (omega arith))

pub body_suc : (n k : ℕ) → body_of n (suc k) ≡ to_text (n / 10 ^ suc k) ++ dot ∷ fraction_text n k
body_suc n k =
    ap (λ cs. to_text (n / 10 ^ suc k) ++ dot ∷ cs)
      (fraction-fixed k (n % 10 ^ suc k) (remainder_lt n (suc k)))

length-fraction_text : (n k : ℕ) → length (fraction_text n k) ≡ suc k
length-fraction_text n k =
    length-map digit_char (fixed 10 (suc k) (n % 10 ^ suc k))
    ∙ length-fixed 10 (omega arith) (suc k) (n % 10 ^ suc k)

reads :
    (n k : ℕ)
    → big_int (to_text (n / 10 ^ suc k)) * 10 ^ suc k
        + big_int_or_zero (pad_end (suc k) zero_char (fraction_text n k))
      ≡ n
reads n k =
    ap₂ (λ (w f : ℕ). w * 10 ^ suc k + f) (big_int-to_text (n / 10 ^ suc k))
      (ap big_int_or_zero (pad_end_full (suc k) (fraction_text n k) (length-fraction_text n k))
        ∙ big_int_or_zero-pos (fraction_text n k) (omega (arith, length-fraction_text n k))
        ∙ big_int-chars (fixed 10 (suc k) (n % 10 ^ suc k))
        ∙ value-fixed 10 (omega arith) (suc k) (n % 10 ^ suc k) (remainder_lt n (suc k)))
    ∙ div-add-mod' n (10 ^ suc k)

both : {a b : Bool} → a ≡ true → b ≡ true → a && b ≡ true
both h k = ground arith

read_body :
    (negative : Bool) (n k : ℕ)
    → parse_parts negative (split_dot (body_of n k)) k ≡ ok (with_sign negative n)
read_body negative n zero =
    ap (λ parts. parse_parts negative parts 0)
      (split_dot-none (digits_of 10 (n / 10 ^ 0)) (digits_of-All 10 (omega arith) (n / 10 ^ 0)))
    ∙ read_parts negative (to_text (n / 10 ^ 0), none) 0 n (digits_only-to_text (n / 10 ^ 0))
        (omega arith) (grind (arith, big_int-to_text (n / 10 ^ 0), pow-zero 10, div-one n))
read_body negative n (suc k) =
    ap (λ (text : Text). parse_parts negative (split_dot text) (suc k)) (body_suc n k)
    ∙ ap (λ parts. parse_parts negative parts (suc k))
        (split_dot-digits (digits_of 10 (n / 10 ^ suc k)) (fraction_text n k)
          (digits_of-All 10 (omega arith) (n / 10 ^ suc k)))
    ∙ read_parts negative (to_text (n / 10 ^ suc k), some (fraction_text n k)) (suc k) n
        (both (digits_only-to_text (n / 10 ^ suc k)) (
          digits_only-chars (fixed 10 (suc k) (n % 10 ^ suc k))
            (omega (arith, length-fixed 10 (omega arith) (suc k) (n % 10 ^ suc k)))
            (fixed-All 10 (omega arith) (suc k) (n % 10 ^ suc k))))
        (omega (arith, length-fraction_text n k)) (reads n k)

-- What starts with a digit has no sign.
unsigned :
    (ds cs : List ℕ)
    → 0 < length ds
    → sign_of (map digit_char ds ++ cs) ≡ (false, map digit_char ds ++ cs)
unsigned [] cs h = absurd (omega arith)
unsigned (d ∷ ds) cs h = ground arith

body_unsigned : (n k : ℕ) → sign_of (body_of n k) ≡ (false, body_of n k)
body_unsigned n zero =
    subst (λ (text : Text). sign_of text ≡ (false, text)) (append_nil (to_text (n / 10 ^ 0)))
      (unsigned (digits_of 10 (n / 10 ^ 0)) [] (digits_of_pos 10 (n / 10 ^ 0)))
body_unsigned n (suc k) =
    unsigned (digits_of 10 (n / 10 ^ suc k))
      (dot ∷ pad_start (suc k) zero_char (to_text (n % 10 ^ suc k)))
      (digits_of_pos 10 (n / 10 ^ suc k))

with_sign-abs : (z : ℤ) → with_sign (is_negative z) (abs z) ≡ z
with_sign-abs (pos n) = refl
with_sign-abs (negsuc n) = refl

abbrev pub signed_body : ℤ → ℕ → Text
signed_body z k = if is_negative z then minus ∷ body_of (abs z) k else body_of (abs z) k

read_signed :
    (z : ℤ) (k : ℕ)
    → parse_parts (sign_of (signed_body z k)).0 (split_dot (sign_of (signed_body z k)).1) k ≡ ok z
read_signed (pos n) k =
    ap (λ (s : Bool × Text). parse_parts s.0 (split_dot s.1) k) (body_unsigned n k)
    ∙ read_body false n k
read_signed (negsuc n) k = read_body true (suc n) k

-- Whatever is formatted reads as what it was made from.
pub formatted_reads :
    (scaled scale : ℤ) (value : Text)
    → format_fixed_decimal scaled scale ≡ ok value
    → parse_fixed_decimal value scale ≡ ok scaled
unfolding parse_fixed_decimal format_fixed_decimal
formatted_reads scaled scale value h = read_at (scale_of scale) h
  where
    read_at :
        (r : Result EncodingError ℕ)
        → (r >>= λ k. ok (signed_body scaled k)) ≡ ok value
        → (r >>= λ k. parse_parts (sign_of value).0 (split_dot (sign_of value).1) k) ≡ ok scaled
    read_at (err e) h = absurd (ground arith)
    read_at (ok k) h =
        let written : signed_body scaled k ≡ value = ground arith in
        subst (λ (t : Text). parse_parts (sign_of t).0 (split_dot (sign_of t).1) k ≡ ok scaled)
          written (read_signed scaled k)

-- Every integer is formatted at every scale up to 38 places, and the text that is written parses
-- at that scale as the same integer.
pub parse-format_fixed_decimal :
    (scaled : ℤ) (places : ℕ)
    → places ≤ 38
    → (value : Text) × (format_fixed_decimal scaled (pos places) ≡ ok value)
      × (parse_fixed_decimal value (pos places) ≡ ok scaled)
unfolding format_fixed_decimal scale_of
parse-format_fixed_decimal scaled places le =
    let written : format_fixed_decimal scaled (pos places) ≡ ok (signed_body scaled places) =
      ground arith in
    (signed_body scaled places, written, formatted_reads scaled (pos places) _ written)
