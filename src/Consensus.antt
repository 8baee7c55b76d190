-- ===== src/Consensus.antt =====
-- The consensus of one round of observations (src/oracle/consensus/consensus.ts). JavaScript numbers
-- are of a type `N` with their operations as a record, the times in milliseconds among them; `N` may
-- hold what is no number, for which `is_finite` is false as `Number.isFinite` is. The order of texts
-- that `sort` uses, what `String` writes of an observation and the hash of the canonical text are
-- given. An observation that is null itself, which the loop throws on, is not modelled.
pub mod Screening
pub mod Evaluate
pub mod Totals
pub mod Listing
pub mod Outcome
pub mod Publish
use refract_backend.Prelude.Int.{ℤ}
use refract_backend.Prelude.{
  ◌>>◌, Result, guard, ok, ◌>>=◌, or_fail, all, length, sort_by, ◌∷◌, [], List, some, none, Option,
  ◌||◌, ◌&&◌, not, false, true, Bool, String, ◌%◌, ◌/◌, ◌-◌, suc, zero, if◌then◌else◌, ◌==◌, leb, ℕ,
  arith,
}

-- `TrustTier`.
abbrev pub unverified : ℕ
unverified = 0

abbrev pub single_source : ℕ
single_source = 1

abbrev pub corroborated : ℕ
corroborated = 2

abbrev pub unanimous : ℕ
unanimous = 3

pub data ConsensusStatus : Type 0 where
  agreed no_valid_sources insufficient_sources no_quorum : ConsensusStatus

abbrev pub is_agreed : ConsensusStatus → Bool
is_agreed agreed = true
is_agreed no_valid_sources = false
is_agreed insufficient_sources = false
is_agreed no_quorum = false

-- `source_id` is what `String` makes of the id, and `is_text` tells whether the id is a string.
pub record SourceObservation (N : Type 0) : Type 0 where
  pub source_id : String
  pub is_text : Bool
  pub value : N
  pub weight : N
  pub observed_at : N

pub record ConsensusPolicy (N : Type 0) : Type 0 where
  pub quorum_ratio : N
  pub min_agreeing_sources : ℕ
  pub max_deviation_ratio : N
  pub absolute_deviation_floor : N
  pub max_staleness_ms : N
  pub max_future_skew_ms : N

pub record ConsensusDecision (N : Type 0) : Type 0 where
  pub status : ConsensusStatus
  pub value : Option N
  pub trust_tier : ℕ
  pub decision_id : List ℕ
  pub center : Option N
  pub agreeing_sources : List String
  pub outlier_sources : List String
  pub stale_sources : List String
  pub invalid_sources : List String
  pub agreeing_weight : N
  pub total_weight : N
  pub source_timestamp : Option N
  pub evaluated_at : N

pub data ConsensusError : Type 0 where
  invalid_policy now_not_finite empty_median median_not_finite : ConsensusError

-- The operations on numbers that the source uses; `below` is `<` and `at_least` is `>=`, and `seconds`
-- is `Math.floor(t / 1000)` of a finite `t`.
pub record Numbers (N : Type 0) : Type 0 where
  pub nil : N
  pub one : N
  pub two : N
  pub plus : N → N → N
  pub less : N → N → N
  pub times : N → N → N
  pub over : N → N → N
  pub magnitude : N → N
  pub larger : N → N → N
  pub is_finite : N → Bool
  pub below : N → N → Bool
  pub at_least : N → N → Bool
  pub seconds : N → ℤ

-- What the decision id is the hash of.
pub record Canonical (N : Type 0) : Type 0 where
  pub rows : List String
  pub policy : ConsensusPolicy N
  pub status : ConsensusStatus
  pub value : Option N
  pub at : N

module _ {A : Type 0} where
  abbrev pub nth? : List A → ℕ → Option A
  nth? [] n = none
  nth? (x ∷ xs) zero = some x
  nth? (x ∷ xs) (suc n) = nth? xs n

  abbrev pub is_empty : List A → Bool
  is_empty [] = true
  is_empty (x ∷ xs) = false

module _ {N : Type 0} (num : Numbers N) where
  -- The middle of the sorted values, or half the sum of the middle two.
  abbrev pub middle : List N → ℕ → Result ConsensusError N
  middle sorted mid =
      if length sorted % 2 == 1
      then or_fail (nth? sorted mid) empty_median
      else (or_fail (nth? sorted (mid - 1)) empty_median >>= λ lo.
          or_fail (nth? sorted mid) empty_median >>= λ hi. ok (
            if num.is_finite (num.plus lo hi)
            then num.over (num.plus lo hi) num.two
            else num.plus (num.over lo num.two) (num.over hi num.two)))

  unfoldable pub median : List N → Result ConsensusError N
  median values =
      guard (not (is_empty values)) empty_median
      >> guard (all num.is_finite values) median_not_finite
      >> middle (sort_by num.below values) (length values / 2)

  abbrev pub deviation_tolerance : N → ConsensusPolicy N → N
  deviation_tolerance center policy =
      num.larger (num.times policy.max_deviation_ratio (num.magnitude center))
        policy.absolute_deviation_floor

  abbrev pub is_anomalous : ConsensusPolicy N → N → SourceObservation N → Bool
  is_anomalous policy center o =
      num.below (deviation_tolerance center policy) (num.magnitude (num.less o.value center))

  unfoldable pub meets_quorum : N → N → N → Bool
  meets_quorum agreeing total ratio =
      if not (num.below num.nil total)
        || not (num.is_finite total)
        || not (num.at_least agreeing num.nil)
      then false
      else num.at_least (num.over agreeing total) ratio

  unfoldable pub is_valid_policy : ConsensusPolicy N → Bool
  is_valid_policy p =
      num.below num.nil p.quorum_ratio
      && num.at_least num.one p.quorum_ratio
      && leb 1 p.min_agreeing_sources
      && num.is_finite p.max_deviation_ratio
      && num.at_least p.max_deviation_ratio num.nil
      && num.is_finite p.absolute_deviation_floor
      && num.at_least p.absolute_deviation_floor num.nil
      && num.is_finite p.max_staleness_ms
      && num.at_least p.max_staleness_ms num.nil
      && num.is_finite p.max_future_skew_ms
      && num.at_least p.max_future_skew_ms num.nil

  abbrev pub is_usable_weight : N → Bool
  is_usable_weight w = num.is_finite w && num.at_least w num.nil
