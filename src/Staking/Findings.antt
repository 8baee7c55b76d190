-- ===== src/Staking/Findings.antt =====
-- `detectSlashableConditions` of src/services/staking.ts: the slashable conditions of a submission.
use refract_backend.Prelude.{
  arith, ℕ, ◌*◌, ◌≡◌, String, Bool, true, false, ◌&&◌, ◌||◌, ℕ_discrete, Option, none, some, List,
  [], ◌∷◌, ◌++◌, ltb, if◌then◌else◌, ite, string_discrete,
}
use refract_backend.Prelude.Int.{ℤ, pos, ltb_ℤ, pos_part, dist}
use refract_backend.Staking.{
  SlashReason, outside_tolerance, post_quarantine, equivocation, bps_denominator,
}

-- JavaScript's order of strings, by code units: `before a b` is `a < b`.
pub record StringOrder : Type 0 where
  pub before : String → String → Bool
  pub before_irrefl : (a : String) → before a a ≡ false
  pub before_asymm : (a b : String) → before a b ≡ true → before b a ≡ false
  pub before_total : (a b : String) → before a b ≡ false → before b a ≡ false → a ≡ b

pub record OracleSubmission : Type 0 where
  pub evidence_id : String
  pub operator_id : String
  pub feed_id : String
  pub round_id : String
  pub value : ℤ
  pub submitted_at : ℕ

pub record SubmissionContext : Type 0 where
  pub consensus : Option ℤ
  pub tolerance_bps : ℕ
  pub quarantined_at : Option ℕ

pub record SlashableFinding : Type 0 where
  pub reason : SlashReason
  pub evidence_ids : List String

-- The difference of the value and the consensus passes the tolerance.
unfoldable pub is_outside : ℤ → Option ℤ → ℕ → Bool
is_outside value none tolerance_bps = false
is_outside value (some consensus) tolerance_bps =
    ltb_ℤ (pos 0) consensus
    && ltb (pos_part consensus * tolerance_bps) (dist value consensus * bps_denominator)

unfoldable pub is_post_quarantine : ℕ → Option ℕ → Bool
is_post_quarantine submitted_at none = false
is_post_quarantine submitted_at (some quarantined_at) = ltb quarantined_at submitted_at

ℤ-discrete : Discrete ℤ
ℤ-discrete = hlevel (ℕ_discrete)

-- Another submission of the operator for the same round, with another value.
unfoldable pub is_equivocation : OracleSubmission → OracleSubmission → Bool
is_equivocation submission other =
    ite (string_discrete other.evidence_id submission.evidence_id) false (
      ite (string_discrete other.operator_id submission.operator_id)
        (ite (string_discrete other.feed_id submission.feed_id)
          (ite (string_discrete other.round_id submission.round_id)
            (ltb_ℤ other.value submission.value || ltb_ℤ submission.value other.value) false)
          false)
        false)

-- `[a, b].sort()`.
unfoldable pub sort_two : StringOrder → String → String → List String
sort_two order a b = if order.before b a then b ∷ a ∷ [] else a ∷ b ∷ []

module _ (order : StringOrder) where
  unfoldable pub equivocations : OracleSubmission → List OracleSubmission → List SlashableFinding
  equivocations submission [] = []
  equivocations submission (other ∷ siblings) =
      if is_equivocation submission other
      then record {
        reason = equivocation;
        evidence_ids = sort_two order submission.evidence_id other.evidence_id;
      }
        ∷ equivocations submission siblings
      else equivocations submission siblings

  unfoldable pub detect_slashable_conditions :
      OracleSubmission → List OracleSubmission → SubmissionContext → List SlashableFinding
  unfolding is_outside is_post_quarantine
  detect_slashable_conditions submission siblings context =
      (if is_outside submission.value context.consensus context.tolerance_bps
        then record { reason = outside_tolerance; evidence_ids = submission.evidence_id ∷ [] } ∷ []
        else [])
      ++ (if is_post_quarantine submission.submitted_at context.quarantined_at
          then record { reason = post_quarantine; evidence_ids = submission.evidence_id ∷ [] } ∷ []
          else [])
      ++ equivocations submission siblings

sort_two_symm : (order : StringOrder) (a b : String) → sort_two order a b ≡ sort_two order b a
unfolding sort_two
sort_two_symm order a b = ground (
  arith,
  order.before_asymm a b,
  order.before_asymm b a,
  order.before_total a b,
  order.before_irrefl a,
)

is_equivocation_symm : (s t : OracleSubmission) → is_equivocation s t ≡ is_equivocation t s
unfolding is_equivocation
is_equivocation_symm s t = ground arith

-- Two submissions give the same equivocation findings from whichever side they are seen, the
-- sorted evidence ids included, for every order of texts that is irreflexive, asymmetric and
-- total.
pub equivocations_symm :
    (order : StringOrder) (s t : OracleSubmission)
    → equivocations order s (t ∷ []) ≡ equivocations order t (s ∷ [])
unfolding equivocations
equivocations_symm order s t =
    ground (arith, is_equivocation_symm s t, sort_two_symm order s.evidence_id t.evidence_id)
