-- ===== src/Money/Amounts.antt =====
-- The text of an amount reads back as the amount.
use refract_backend.Prelude.{
  take, length, length-append, map, ◌++◌, List, Option, Bool, inr, inl, subst, sym, ◌<◌, ◌^◌, ◌%◌,
  ◌/◌, ◌-◌, suc, Bool-cases, ltb→le, ltb, ◌∷◌, [], ◌∙◌, ap, refl, if◌then◌else◌, ok, All, false,
  ◌≡◌, ◌≤◌, ℕ, arith,
}
use refract_backend.Money.{
  Text, trim_start, trim_end, is_space, format_fixed, trim, fixed_of_parts, parse_fixed,
}
use refract_backend.Encoding.RoundTrip.{signed_body, body_suc, fraction_text, formatted_reads}
use refract_backend.Prelude.Int.{negsuc, ℤ, pos}
use refract_backend.Pages.Sorted.{take_all}
use refract_backend.Prelude.Radix.{
  length-replicate, replicate, digits_of-All, digits_of, pad_end, fixed, fixed-All,
}
use refract_backend.Encoding.Decimal.{
  body_of, scale_of, split_dot, parse_parts, zero_char, fraction_of, dot, format_fixed_decimal,
  parse_fixed_decimal, sign_of, digit_char, to_text,
}

trim_clean : (s : Text) → All (λ c. is_space c ≡ false) s → trim s ≡ s
trim_clean s h = ap trim_end (trim_start_all s h) ∙ trim_end_all s h
  where
    trim_start_all : (t : Text) → All (λ c. is_space c ≡ false) t → trim_start t ≡ t
    trim_start_all [] k = refl
    trim_start_all (c ∷ cs) (k, _) = ap (λ b. if b then trim_start cs else c ∷ cs) k

    trim_end_all : (t : Text) → All (λ c. is_space c ≡ false) t → trim_end t ≡ t
    trim_end_all [] k = refl
    trim_end_all (c ∷ []) (k, _) = ap (λ b. if b then [] else c ∷ []) k
    trim_end_all (c ∷ d ∷ ds) (k, l) =
        ap
          (λ (rest : Text). elim rest [
            | [] ↦ if is_space c then [] else c ∷ []
            | e ∷ es ↦ c ∷ e ∷ es
          ])
          (trim_end_all (d ∷ ds) l)

full_length : (s : Text) → length s ≤ 7 → take 7 (pad_end 7 zero_char s) ≡ pad_end 7 zero_char s
full_length s h = take_all 7 (pad_end 7 zero_char s) (
    omega (
      arith,
      length-append s (replicate (7 - length s) zero_char),
      length-replicate (7 - length s) zero_char,
    ))

same_parts :
    (negative : Bool) (parts : Text × Option Text) (z : ℤ)
    → parse_parts negative parts 7 ≡ ok z
    → fixed_of_parts negative parts ≡ ok z
unfolding parse_parts fixed_of_parts
same_parts negative parts z h = elim (Bool-cases (ltb 7 (length (fraction_of parts)))) [
  | inl long ↦ absurd (ground arith)
  | inr fits ↦
      ground (arith, full_length (fraction_of parts) (ltb→le 7 (length (fraction_of parts)) fits))
]

-- Where an exact decimal of seven places is read, an amount is read too.
parse_fixed-parse_fixed_decimal :
    (value : Text) (z : ℤ)
    → All (λ c. is_space c ≡ false) value
    → parse_fixed_decimal value (pos 7) ≡ ok z
    → parse_fixed value ≡ ok z
unfolding parse_fixed parse_fixed_decimal scale_of
parse_fixed-parse_fixed_decimal value z clean h =
    ap (λ (t : Text). fixed_of_parts (sign_of t).0 (split_dot (sign_of t).1))
      (trim_clean value clean)
    ∙ same_parts (sign_of value).0 (split_dot (sign_of value).1) z h

format_fixed-signed_body :
    (value : ℤ) (decimals : ℕ) → 7 ≤ decimals → format_fixed value decimals ≡ signed_body value 7
unfolding format_fixed
format_fixed-signed_body (pos n) decimals h = ground arith
format_fixed-signed_body (negsuc n) decimals h = ground arith

clean_digits :
    (ds : List ℕ) → All (λ d. d < 10) ds → All (λ c. is_space c ≡ false) (map digit_char ds)
clean_digits [] h = tt
clean_digits (d ∷ ds) (digit, h) = (ground arith, clean_digits ds h)

clean_append :
    (s t : Text)
    → All (λ c. is_space c ≡ false) s
    → All (λ c. is_space c ≡ false) t
    → All (λ c. is_space c ≡ false) (s ++ t)
clean_append [] t h k = k
clean_append (c ∷ s) t (clean, h) k = (clean, clean_append s t h k)

clean_body : (n : ℕ) → All (λ c. is_space c ≡ false) (body_of n 7)
clean_body n = subst (All (λ c. is_space c ≡ false)) (sym (body_suc n 6)) (
    clean_append (to_text (n / 10 ^ 7)) (dot ∷ fraction_text n 6)
      (clean_digits (digits_of 10 (n / 10 ^ 7)) (digits_of-All 10 (omega arith) (n / 10 ^ 7)))
      (refl, clean_digits (fixed 10 7 (n % 10 ^ 7)) (fixed-All 10 (omega arith) 7 (n % 10 ^ 7))))

clean_signed : (value : ℤ) → All (λ c. is_space c ≡ false) (signed_body value 7)
clean_signed (pos n) = clean_body n
clean_signed (negsuc n) = (refl, clean_body (suc n))

-- Printing an amount at seven or more displayed decimals and parsing the text gives the amount
-- back.
pub parse_fixed-format_fixed :
    (value : ℤ) (decimals : ℕ) → 7 ≤ decimals → parse_fixed (format_fixed value decimals) ≡ ok value
unfolding format_fixed_decimal scale_of
parse_fixed-format_fixed value decimals h =
    ap parse_fixed (format_fixed-signed_body value decimals h)
    ∙ parse_fixed-parse_fixed_decimal (signed_body value 7) value (clean_signed value)
        (formatted_reads value (pos 7) (signed_body value 7) refl)
