-- ===== src/Consensus/Totals.antt =====
-- Every round is decided: no observation makes the median fail.
use refract_backend.Prelude.{
  length-append, ok, or_fail, ◌>>=◌, length, all, fold, All, sort_by, length-sort_by, ◌∷◌, [], List,
  some, Option, true, ◌∙◌, ap, refl, ◌≡◌, String, ◌<◌, ◌≤◌, ◌%◌, ◌/◌, ◌-◌, ◌+◌, suc, zero, if_intro,
  if◌then◌else◌, ◌==◌, ℕ, arith,
}
use refract_backend.Consensus.{
  false, Numbers, ConsensusPolicy, nth?, empty_median, middle, SourceObservation, median,
}
use refract_backend.Consensus.Screening.{
  is_old, is_in_time, is_invalid, add_copy, is_fresh, place_source, is_stale, SourceVerdict,
  by_source, screen_source, is_well_formed, verdict_of, Sources, screen, Screened,
}
use refract_backend.Prelude.Radix.{All-snoc}

nth?-lt : {A : Type 0} (xs : List A) (n : ℕ) → n < length xs → (x : A) × (nth? xs n ≡ some x)
nth?-lt [] n h = absurd (omega arith)
nth?-lt (x ∷ xs) zero h = (x, refl)
nth?-lt (x ∷ xs) (suc n) h = nth?-lt xs n (omega arith)

or_fail-some : {E A : Type 0} (o : Option A) (e : E) (a : A) → o ≡ some a → or_fail o e ≡ ok a
or_fail-some o e a h = ap (λ p. or_fail p e) h

module _ {N : Type 0} (num : Numbers N) where
  middle_ok :
      (sorted : List N) (mid : ℕ) → mid < length sorted → (m : N) × (middle num sorted mid ≡ ok m)
  middle_ok sorted mid h =
      let (hi, at_mid) = nth?-lt sorted mid h in
      let (lo, before_mid) = nth?-lt sorted (mid - 1) (omega arith) in
      if_intro (λ r. (m : N) × (r ≡ ok m)) (length sorted % 2 == 1)
        (λ _. (hi, or_fail-some _ empty_median hi at_mid))
        (λ _. (
          _,
          ap
                (λ r. r >>= λ l. or_fail (nth? sorted mid) empty_median >>= λ h. ok (
                  if num.is_finite (num.plus l h)
                  then num.over (num.plus l h) num.two
                  else num.plus (num.over l num.two) (num.over h num.two)))
                (or_fail-some _ empty_median lo before_mid)
              ∙ ap
                  (λ r. r >>= λ h. ok (
                    if num.is_finite (num.plus lo h)
                    then num.over (num.plus lo h) num.two
                    else num.plus (num.over lo num.two) (num.over h num.two)))
                  (or_fail-some _ empty_median hi at_mid),
        ))

  pub median_ok :
      (values : List N)
      → 0 < length values
      → all num.is_finite values ≡ true
      → (m : N) × (median num values ≡ ok m)
  unfolding median
  median_ok [] some_value finite = absurd (omega arith)
  median_ok (x ∷ xs) some_value finite =
      let (m, found) =
        middle_ok (sort_by num.below (x ∷ xs)) (length (x ∷ xs) / 2)
          (omega (arith, length-sort_by num.below (x ∷ xs))) in
      (m, ground arith)

module _ {N : Type 0} (num : Numbers N) (policy : ConsensusPolicy N) (now : N) where
  -- A time that is neither stale nor too far ahead.
  abbrev pub Timely : N → Type 0
  Timely t = (is_in_time num policy now t ≡ true) × (is_old num policy now t ≡ false)

  -- What is known of a fresh report.
  abbrev pub FreshReport : SourceObservation N → Type 0
  FreshReport o = (num.is_finite o.value ≡ true) × Timely o.observed_at

  abbrev pub count_of : Screened N → ℕ
  count_of s = length s.fresh + length s.stale + length s.invalid

  verdict_fresh :
      (copies : List (SourceObservation N)) (o : SourceObservation N)
      → verdict_of num policy now copies ≡ is_fresh o
      → FreshReport o
  unfolding verdict_of is_well_formed
  verdict_fresh [] o h = absurd (ground arith)
  verdict_fresh (p ∷ q ∷ rest) o h = absurd (ground arith)
  verdict_fresh (p ∷ []) o h = ground arith

  -- A source goes to one of the three lists.
  place_one :
      (id : String) (d : SourceVerdict N) (s : Screened N)
      → ((o : SourceObservation N) → d ≡ is_fresh o → FreshReport o)
      → All FreshReport s.fresh
      → All FreshReport (place_source num policy now id d s).fresh
        × (count_of (place_source num policy now id d s) ≡ suc (count_of s))
  place_one id is_invalid s sound h = (h, omega (arith, length-append s.invalid (id ∷ [])))
  place_one id is_stale s sound h = (h, omega (arith, length-append s.stale (id ∷ [])))
  place_one id (is_fresh o) s sound h = (
    All-snoc FreshReport s.fresh o h (sound o refl),
    omega (arith, length-append s.fresh (o ∷ [])),
  )

  screen_one :
      (s : Screened N) (source : String × List (SourceObservation N))
      → All FreshReport s.fresh
      → All FreshReport (screen_source num policy now s source).fresh
        × (count_of (screen_source num policy now s source) ≡ suc (count_of s))
  screen_one s (id, copies) h =
      place_one id (verdict_of num policy now copies) _ (verdict_fresh copies) h

  screen-All :
      (s : Screened N) (sources : Sources N)
      → All FreshReport s.fresh
      → All FreshReport (fold (screen_source num policy now) s sources).fresh
        × (count_of (fold (screen_source num policy now) s sources) ≡ count_of s + length sources)
  screen-All s [] h = (h, omega arith)
  screen-All s (x ∷ xs) h =
      let (fresh, one_more) = screen_one s x h in
      let (all_fresh, sources_counted) = screen-All (screen_source num policy now s x) xs fresh in
      (all_fresh, omega arith)

  pub screened :
      (observations : List (SourceObservation N))
      → All FreshReport (screen num policy now observations).fresh
        × (count_of (screen num policy now observations) ≡ length (by_source observations))
  unfolding screen
  screened observations =
      let (fresh, sources_counted) =
        screen-All (record { invalid = []; stale = []; fresh = []; total_weight = num.nil })
          (by_source observations) tt in
      (fresh, omega arith)

-- There are no more sources than reports.
pub length-by_source :
    {N : Type 0} (observations : List (SourceObservation N))
    → length (by_source observations) ≤ length observations
unfolding by_source
length-by_source {N = N} observations =
    let grown : length (fold (λ found o. add_copy o found) [] observations)
        ≤ 0 + length observations =
      grows [] observations in
    omega arith
  where
    length-add_copy :
        (o : SourceObservation N) (sources : Sources N)
        → length (add_copy o sources) ≤ length sources + 1
    length-add_copy o [] = omega arith
    length-add_copy o ((id, copies) ∷ rest) = ground (arith, length-add_copy o rest)

    grows :
        (sources : Sources N) (os : List (SourceObservation N))
        → length (fold (λ found o. add_copy o found) sources os) ≤ length sources + length os
    grows sources [] = omega arith
    grows sources (o ∷ os) = omega (arith, grows (add_copy o sources) os, length-add_copy o sources)
