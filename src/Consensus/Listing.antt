-- ===== src/Consensus/Listing.antt =====
-- Where a source is listed: a source that reported stands exactly once in the lists of a decision, and
-- no other source does.
use refract_backend.Prelude.{
  ℕ, ◌+◌, max, Bool, not, List, [], ◌∷◌, ◌++◌, map, String, same, same→eq, if◌then◌else◌, sum_of,
  sum_of-append, any, keep, fold, sort_by, insert_sorted, if_intro, All, ◌≡◌, refl, sym, ap, arith,
}
use refract_backend.Prelude.Radix.{All-snoc}
use refract_backend.Consensus.{Numbers, ConsensusPolicy, SourceObservation, is_usable_weight}
use refract_backend.Consensus.Screening.{
  Sources, add_copy, by_source, SourceVerdict, is_invalid, is_stale, is_fresh, Screened, verdict_of,
  place_source, screen_source, screen, add_weight,
}

-- How often a source is in a list.
abbrev pub times_of : String → List String → ℕ
times_of id xs = sum_of (λ x. if same x id then 1 else 0) xs

pub times_of-sort_by :
    (id : String) (before : String → String → Bool) (xs : List String)
    → times_of id (sort_by before xs) ≡ times_of id xs
times_of-sort_by id before [] = refl
times_of-sort_by id before (x ∷ xs) =
    ground (arith, inserted x (sort_by before xs), times_of-sort_by id before xs)
  where
    inserted :
        (y : String) (ys : List String)
        → times_of id (insert_sorted before y ys) ≡ (if same y id then 1 else 0) + times_of id ys
    inserted y [] = refl
    inserted y (z ∷ zs) = ground (arith, inserted y zs)

module _ {N : Type 0} where
  abbrev pub source_ids : List (SourceObservation N) → List String
  source_ids fresh = map (λ f. f.source_id) fresh

  pub times_of-keep_split :
      (id : String) (p : SourceObservation N → Bool) (fresh : List (SourceObservation N))
      → times_of id (source_ids (keep (λ f. not (p f)) fresh))
          + times_of id (source_ids (keep p fresh))
        ≡ times_of id (source_ids fresh)
  times_of-keep_split id p [] = refl
  times_of-keep_split id p (f ∷ fresh) = ground (arith, times_of-keep_split id p fresh)

  times_of-snoc :
      (id : String) (f : SourceObservation N) (fresh : List (SourceObservation N))
      → times_of id (source_ids (fresh ++ f ∷ []))
        ≡ times_of id (source_ids fresh) + (if same f.source_id id then 1 else 0)
  times_of-snoc id f [] = omega arith
  times_of-snoc id f (g ∷ fresh) = omega (arith, times_of-snoc id f fresh)

  abbrev pub listed : String → Screened N → ℕ
  listed id s = times_of id (source_ids s.fresh) + times_of id s.stale + times_of id s.invalid

  abbrev pub has_reported : String → List (SourceObservation N) → Bool
  has_reported id observations = any (λ o. same o.source_id id) observations

  -- How many groups of reports are of the source.
  abbrev groups : String → Sources N → ℕ
  groups id sources = sum_of (λ source. if same source.0 id then 1 else 0) sources

  groups-add_copy :
      (id : String) (o : SourceObservation N) (sources : Sources N)
      → groups id (add_copy o sources)
        ≡ (if same o.source_id id then max 1 (groups id sources) else groups id sources)
  groups-add_copy id o [] = ground arith
  groups-add_copy id o ((k, copies) ∷ rest) = ground (arith, groups-add_copy id o rest)

  groups-fold :
      (id : String) (sources : Sources N) (os : List (SourceObservation N))
      → groups id (fold (λ found o. add_copy o found) sources os)
        ≡ (if has_reported id os then max 1 (groups id sources) else groups id sources)
  groups-fold id sources [] = refl
  groups-fold id sources (o ∷ os) =
      ground (arith, groups-fold id (add_copy o sources) os, groups-add_copy id o sources)

  -- The reports of a group are its source's.
  abbrev OfSource : String × List (SourceObservation N) → Type 0
  OfSource (k, copies) = All (λ (o : SourceObservation N). o.source_id ≡ k) copies

  add_copy-All :
      (o : SourceObservation N) (sources : Sources N)
      → All OfSource sources
      → All OfSource (add_copy o sources)
  add_copy-All o [] h = ((refl, tt), tt)
  add_copy-All o ((k, copies) ∷ rest) (own, h) =
      if_intro (All OfSource) (same k o.source_id)
        (λ e. (
          All-snoc (λ (p : SourceObservation N). p.source_id ≡ k) copies o own
              (sym (same→eq k o.source_id e)),
          h,
        ))
        (λ _. (own, add_copy-All o rest h))

  fold-All :
      (sources : Sources N) (os : List (SourceObservation N))
      → All OfSource sources
      → All OfSource (fold (λ found o. add_copy o found) sources os)
  fold-All sources [] h = h
  fold-All sources (o ∷ os) h = fold-All (add_copy o sources) os (add_copy-All o sources h)

module _ {N : Type 0} (num : Numbers N) (policy : ConsensusPolicy N) (now : N) where
  -- The source of a report that is fresh.
  abbrev reported : String → SourceVerdict N → String
  reported k is_invalid = k
  reported k is_stale = k
  reported k (is_fresh o) = o.source_id

  verdict_own :
      (k : String) (copies : List (SourceObservation N))
      → All (λ (p : SourceObservation N). p.source_id ≡ k) copies
      → reported k (verdict_of num policy now copies) ≡ k
  unfolding verdict_of
  verdict_own k [] own = refl
  verdict_own k (p ∷ q ∷ rest) own = refl
  verdict_own k (p ∷ []) (own, _) = ground (arith, own)

  listed-place :
      (id k : String) (v : SourceVerdict N) (s : Screened N)
      → reported k v ≡ k
      → listed id (place_source num policy now k v s) ≡ listed id s + (if same k id then 1 else 0)
  listed-place id k is_invalid s own =
      omega (arith, sum_of-append (λ x. if same x id then 1 else 0) s.invalid (k ∷ []))
  listed-place id k is_stale s own =
      omega (arith, sum_of-append (λ x. if same x id then 1 else 0) s.stale (k ∷ []))
  listed-place id k (is_fresh o) s own =
      omega (arith, times_of-snoc id o s.fresh, ap {B = ℕ} (λ j. if same j id then 1 else 0) own)

  listed-fold :
      (id : String) (s : Screened N) (sources : Sources N)
      → All OfSource sources
      → listed id (fold (screen_source num policy now) s sources) ≡ listed id s + groups id sources
  listed-fold id s [] h = omega arith
  listed-fold id s ((k, copies) ∷ sources) (own, h) = omega (
    arith,
    listed-fold id (screen_source num policy now s (k, copies)) sources h,
    listed-place id k (verdict_of num policy now copies) (weighed s (k, copies))
        (verdict_own k copies own),
  )
    where
      weighed : Screened N → String × List (SourceObservation N) → Screened N
      weighed r (j, cs) = record r {
        total_weight =
            add_weight num policy now r.total_weight
              (keep (is_usable_weight num) (map (λ c. c.weight) cs));
      }

  -- The screening lists a source once if it reported, and not at all if it did not.
  pub listed-screen :
      (id : String) (observations : List (SourceObservation N))
      → listed id (screen num policy now observations)
        ≡ (if has_reported id observations then 1 else 0)
  unfolding screen by_source
  listed-screen id observations =
      let sources : Sources N = fold (λ found o. add_copy o found) [] observations in
      let start : Screened N = record {
        invalid = [];
        stale = [];
        fresh = [];
        total_weight = num.nil;
      } in
      ground (
        arith,
        listed-fold id start sources (fold-All [] observations tt),
        groups-fold id [] observations,
      )
