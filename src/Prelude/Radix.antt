-- ===== src/Prelude/Radix.antt =====
-- Numbers in a base, as lists of digits with the highest first: `digits_of` is what `toString(base)`
-- makes, `value_of` what reading the digits gives, and `fixed` the digits to a fixed width, which is
-- what `padStart` leaves.
use Prim.Native.Nat.{ℕ, zero, suc, ◌+◌, ◌-◌, ◌*◌, ◌/◌, ◌%◌, ◌^◌, ◌≤◌, ◌<◌}
use mathlib.Core.List.{map, List, [], ◌∷◌, ◌++◌}
use mathlib.Core.Bool.{true, false}
use mathlib.Core.Path.{◌≡◌, refl, ap, ap₂, ◌∙◌, sym}
use native.Mathlib.Omega.{arith}
use native.Mathlib.Nat.{
  pow-zero, zero-div, zero-mod, div-lt_self, mod-lt, div-add-mod', mul-add-div,
  mul-add-mod_self_left, mul-le-mul_right, div-lt_iff_lt-mul, pow-suc, mod-eq_of_lt, div-eq_of_lt,
}
use refract_backend.Prelude.Tests.{elim_intro, ltb, ltb→lt, ltb→le, elim_intro}
use refract_backend.Prelude.Lists.{length, length-append, All}

-- `padStart` and `padEnd` to a length.
module _ {A : Type 0} where
  abbrev pub replicate : ℕ → A → List A
  replicate zero x = []
  replicate (suc n) x = x ∷ replicate n x

  abbrev pub pad_start : ℕ → A → List A → List A
  pad_start k x xs = replicate (k - length xs) x ++ xs

  abbrev pub pad_end : ℕ → A → List A → List A
  pad_end k x xs = xs ++ replicate (k - length xs) x

  pub length-replicate : (n : ℕ) (x : A) → length (replicate n x) ≡ n
  length-replicate zero x = refl
  length-replicate (suc n) x = omega (arith, length-replicate n x)

  pub append_assoc : (xs ys zs : List A) → (xs ++ ys) ++ zs ≡ xs ++ (ys ++ zs)
  append_assoc [] ys zs = refl
  append_assoc (x ∷ xs) ys zs = ap (◌∷◌ x) (append_assoc xs ys zs)

  pad_start-snoc :
      (k : ℕ) (x y : A) (xs : List A)
      → pad_start (suc k) x (xs ++ y ∷ []) ≡ pad_start k x xs ++ y ∷ []
  pad_start-snoc k x y xs =
      ap (λ (n : ℕ). replicate n x ++ (xs ++ y ∷ [])) (omega (arith, length-append xs (y ∷ [])))
      ∙ sym (append_assoc (replicate (k - length xs) x) xs (y ∷ []))

module _ {A B : Type 0} (f : A → B) where
  pub length-map : (xs : List A) → length (map f xs) ≡ length xs
  length-map [] = refl
  length-map (x ∷ xs) = omega (arith, length-map xs)

  map-append : (xs ys : List A) → map f (xs ++ ys) ≡ map f xs ++ map f ys
  map-append [] ys = refl
  map-append (x ∷ xs) ys = ap (◌∷◌ (f x)) (map-append xs ys)

  map-replicate : (n : ℕ) (x : A) → map f (replicate n x) ≡ replicate n (f x)
  map-replicate zero x = refl
  map-replicate (suc n) x = ap (◌∷◌ (f x)) (map-replicate n x)

  -- Padding before or after each element is written.
  pub map-pad_start :
      (k : ℕ) (x : A) (xs : List A) → pad_start k (f x) (map f xs) ≡ map f (pad_start k x xs)
  map-pad_start k x xs =
      ap (λ (pads : List B). pads ++ map f xs)
        (ap (λ (n : ℕ). replicate (k - n) (f x)) (length-map xs)
          ∙ sym (map-replicate (k - length xs) x))
      ∙ sym (map-append (replicate (k - length xs) x) xs)

module _ (b : ℕ) where
  abbrev pub read_digits : ℕ → List ℕ → ℕ
  read_digits n [] = n
  read_digits n (d ∷ ds) = read_digits (n * b + d) ds

  abbrev pub value_of : List ℕ → ℕ
  value_of ds = read_digits 0 ds

  -- The digits of a number, with enough fuel at the number itself.
  abbrev digits_fuel : ℕ → ℕ → List ℕ
  digits_fuel zero n = n ∷ []
  digits_fuel (suc f) n = elim (ltb n b) [
    | true ↦ n ∷ []
    | false ↦ digits_fuel f (n / b) ++ n % b ∷ []
  ]

  unfoldable pub digits_of : ℕ → List ℕ
  digits_of n = digits_fuel n n

  unfoldable pub fixed : ℕ → ℕ → List ℕ
  fixed zero n = []
  fixed (suc k) n = fixed k (n / b) ++ n % b ∷ []

  read_digits-append :
      (n : ℕ) (xs ys : List ℕ) → read_digits n (xs ++ ys) ≡ read_digits (read_digits n xs) ys
  read_digits-append n [] ys = refl
  read_digits-append n (x ∷ xs) ys = read_digits-append (n * b + x) xs ys

digits_fuel_pos : (b f n : ℕ) → 0 < length (digits_fuel b f n)
digits_fuel_pos b zero n = omega arith
digits_fuel_pos b (suc f) n =
    elim_intro (λ ds. 0 < length ds) (ltb n b) (λ small. omega arith)
      (λ large. omega (arith, length-append (digits_fuel b f (n / b)) (n % b ∷ [])))

-- A number has a digit.
pub digits_of_pos : (b n : ℕ) → 0 < length (digits_of b n)
unfolding digits_of
digits_of_pos b n = digits_fuel_pos b n n

replicate-snoc : {A : Type 0} (n : ℕ) (x : A) → replicate n x ++ x ∷ [] ≡ replicate (suc n) x
replicate-snoc zero x = refl
replicate-snoc (suc n) x = ap (◌∷◌ x) (replicate-snoc n x)

pub All-snoc {κ} :
    {A : Type 0} (P : A → Type κ) (xs : List A) (y : A) → All P xs → P y → All P (xs ++ y ∷ [])
All-snoc P [] y h p = (p, tt)
All-snoc P (x ∷ xs) y (q, h) p = (q, All-snoc P xs y h p)

module _ (b : ℕ) (base : 1 < b) where
  quotient_lt : (k n : ℕ) → n < b ^ suc k → n / b < b ^ k
  quotient_lt k n h = (div-lt_iff_lt-mul (omega arith)).1 (omega (arith, pow-suc b k))

  pub value-fixed : (k n : ℕ) → n < b ^ k → value_of b (fixed b k n) ≡ n
  unfolding fixed
  value-fixed zero n h = omega (arith, pow-zero b)
  value-fixed (suc k) n h =
      read_digits-append b 0 (fixed b k (n / b)) (n % b ∷ [])
      ∙ ap (λ (v : ℕ). v * b + n % b) (value-fixed k (n / b) (quotient_lt k n h))
      ∙ div-add-mod' n b

  fixed_zero : (k : ℕ) → fixed b k 0 ≡ replicate k 0
  unfolding fixed
  fixed_zero zero = refl
  fixed_zero (suc k) =
      ap₂ (λ ds d. ds ++ d ∷ []) (ap (fixed b k) (zero-div b) ∙ fixed_zero k) (zero-mod b)
      ∙ replicate-snoc k 0

  pad-one : (n k : ℕ) → n < b → pad_start (suc k) 0 (n ∷ []) ≡ fixed b (suc k) n
  unfolding fixed
  pad-one n k h =
      ap₂ (λ ds d. ds ++ d ∷ [])
        (ap (λ (j : ℕ). replicate j 0) (omega arith)
          ∙ sym (fixed_zero k)
          ∙ ap (fixed b k) (sym (div-eq_of_lt h)))
        (sym (mod-eq_of_lt h))

  below_base : (n : ℕ) → n < b ^ 1 → n < b
  below_base n h = grind (arith, pow-suc b 0, pow-zero b)

  smaller : (f n : ℕ) → n ≤ suc f → b ≤ n → n / b ≤ f
  smaller f n le large = let shrinks : n / b < n = div-lt_self (omega arith) base in omega arith

  pad-digits_fuel :
      (f n k : ℕ)
      → n ≤ f
      → n < b ^ suc k
      → pad_start (suc k) 0 (digits_fuel b f n) ≡ fixed b (suc k) n
  unfolding fixed
  pad-digits_fuel zero n k le h = pad-one n k (omega arith)
  pad-digits_fuel (suc f) n zero le h =
      elim_intro (λ ds. pad_start 1 0 ds ≡ fixed b 1 n) (ltb n b)
        (λ small. pad-one n 0 (below_base n h))
        (λ large. absurd (omega (arith, below_base n h, ltb→le n b large)))
  pad-digits_fuel (suc f) n (suc k) le h =
      elim_intro (λ ds. pad_start (suc (suc k)) 0 ds ≡ fixed b (suc (suc k)) n) (ltb n b)
        (λ small. pad-one n (suc k) (ltb→lt n b small))
        (λ large.
          pad_start-snoc (suc k) 0 (n % b) (digits_fuel b f (n / b))
          ∙ ap (λ (ds : List ℕ). ds ++ n % b ∷ [])
              (pad-digits_fuel f (n / b) k (smaller f n le (ltb→le n b large))
                (quotient_lt (suc k) n h)))

  -- What a number's digits are when they are padded to a width that holds it.
  pub pad-digits_of :
      (k n : ℕ) → n < b ^ suc k → pad_start (suc k) 0 (digits_of b n) ≡ fixed b (suc k) n
  unfolding digits_of
  pad-digits_of k n h = pad-digits_fuel n n k (omega arith) h

  pub length-fixed : (k n : ℕ) → length (fixed b k n) ≡ k
  unfolding fixed
  length-fixed zero n = refl
  length-fixed (suc k) n =
      omega (arith, length-append (fixed b k (n / b)) (n % b ∷ []), length-fixed k (n / b))

  pub fixed-All : (k n : ℕ) → All (λ d. d < b) (fixed b k n)
  unfolding fixed
  fixed-All zero n = tt
  fixed-All (suc k) n =
      All-snoc (λ d. d < b) (fixed b k (n / b)) (n % b) (fixed-All k (n / b))
        (mod-lt n (omega arith))

  digits_fuel-All : (f n : ℕ) → n ≤ f → All (λ d. d < b) (digits_fuel b f n)
  digits_fuel-All zero n le = (omega arith, tt)
  digits_fuel-All (suc f) n le =
      elim_intro (All (λ d. d < b)) (ltb n b) (λ small. (ltb→lt n b small, tt))
        (λ large.
          All-snoc (λ d. d < b) (digits_fuel b f (n / b)) (n % b)
            (digits_fuel-All f (n / b) (smaller f n le (ltb→le n b large)))
            (mod-lt n (omega arith)))

  value-digits_fuel : (f n : ℕ) → n ≤ f → value_of b (digits_fuel b f n) ≡ n
  value-digits_fuel zero n le = omega arith
  value-digits_fuel (suc f) n le =
      elim_intro (λ ds. value_of b ds ≡ n) (ltb n b) (λ small. omega arith)
        (λ large.
          read_digits-append b 0 (digits_fuel b f (n / b)) (n % b ∷ [])
          ∙ ap (λ (v : ℕ). v * b + n % b)
              (value-digits_fuel f (n / b) (smaller f n le (ltb→le n b large)))
          ∙ div-add-mod' n b)

  -- The digits of a number are digits, and read back they give it.
  pub digits_of-All : (n : ℕ) → All (λ d. d < b) (digits_of b n)
  unfolding digits_of
  digits_of-All n = digits_fuel-All n n (omega arith)

  pub value-digits_of : (n : ℕ) → value_of b (digits_of b n) ≡ n
  unfolding digits_of
  value-digits_of n = value-digits_fuel n n (omega arith)

  -- A digit in front adds its multiple of a power of the base.
  pub fixed-cons :
      (k d n : ℕ) → n < b ^ k → d < b → fixed b (suc k) (d * b ^ k + n) ≡ d ∷ fixed b k n
  unfolding fixed
  fixed-cons zero d n h digit =
      let none_left : n ≡ 0 = omega (arith, pow-zero b) in
      ap (λ (x : ℕ). x ∷ [])
        (ap (λ (v : ℕ). v % b) (grind (arith, pow-zero b)) ∙ mod-eq_of_lt digit)
  fixed-cons (suc k) d n h digit =
      let scaled : d * b ^ suc k + n ≡ b * (d * b ^ k) + n = grind (arith, pow-suc b k) in
      ap₂ (λ xs x. xs ++ x ∷ [])
        (ap (fixed b (suc k))
            (ap (λ (v : ℕ). v / b) scaled ∙ mul-add-div (omega arith) (d * b ^ k) n)
          ∙ fixed-cons k d (n / b) (quotient_lt k n h) digit)
        (ap (λ (v : ℕ). v % b) scaled ∙ mul-add-mod_self_left b (d * b ^ k) n)

  pub read_digits-shift :
      (n : ℕ) (ds : List ℕ) → read_digits b n ds ≡ n * b ^ length ds + value_of b ds
  read_digits-shift n [] = grind (arith, pow-zero b)
  read_digits-shift n (d ∷ ds) =
      read_digits-shift (n * b + d) ds
      ∙ carry n d (b ^ length ds) (value_of b ds) (read_digits b (0 * b + d) ds)
          (b ^ suc (length ds)) (pow-suc b (length ds))
          (read_digits-shift (0 * b + d) ds
            ∙ ap (λ (x : ℕ). x * b ^ length ds + value_of b ds) (omega arith))
    where
      carry : (n d p v w q : ℕ) → q ≡ p * b → w ≡ d * p + v → (n * b + d) * p + v ≡ n * q + w
      carry n d p v w q e e' = grind arith

  value-cons : (d : ℕ) (ds : List ℕ) → value_of b (d ∷ ds) ≡ d * b ^ length ds + value_of b ds
  value-cons d ds = ap (λ (x : ℕ). read_digits b x ds) (omega arith) ∙ read_digits-shift d ds

  pub value_lt : (ds : List ℕ) → All (λ d. d < b) ds → value_of b ds < b ^ length ds
  value_lt [] h = omega (arith, pow-zero b)
  value_lt (d ∷ ds) (digit, h) =
      let bound : suc d * b ^ length ds ≤ b * b ^ length ds =
        mul-le-mul_right (b ^ length ds) digit in
      grind (arith, value-cons d ds, pow-suc b (length ds), value_lt ds h)

  -- Digits are what their value is written as, to their own length.
  pub fixed-value : (ds : List ℕ) → All (λ d. d < b) ds → fixed b (length ds) (value_of b ds) ≡ ds
  unfolding fixed
  fixed-value [] h = refl
  fixed-value (d ∷ ds) (digit, h) =
      ap (fixed b (suc (length ds))) (value-cons d ds)
      ∙ fixed-cons (length ds) d (value_of b ds) (value_lt ds h) digit
      ∙ ap (◌∷◌ d) (fixed-value ds h)
