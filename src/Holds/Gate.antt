-- ===== src/Holds/Gate.antt =====
-- What the gate before a settlement lets through (claim-hold.service.ts): only claims whose hold was
-- released or approved, feeds that are not governed, and triggered decisions with complete evidence.
use refract_backend.Prelude.{
  ℕ, ◌+◌, Option, none, some, List, [], ◌∷◌, String, Bool, true, false, ◌≡◌, ◌⊎◌, inl, inr, refl,
  ap, Result, ok, err, arith, Bool-cases, Option-cases,
}
use refract_backend.Ledger.{Decision, Outcome, decided, no_decision, EvidenceGap}
use refract_backend.Ledger.Store.{
  Ledger, not_before, last_recorded_at, now, ◌▷◌, continue_ok, return,
}
use refract_backend.Ledger.Gaps.{assess_evidence_completeness, are_hashes}
use refract_backend.Holds.{
  ClaimHold, HoldStatus, payout_held, released, escalated, approved, denied, settled,
}
use refract_backend.Holds.Service.{
  Services, HoldCandidate, GateResult, proceed, block, claim_is, active_hold_for, denied_hold_for,
  may_pay, gate, try_gate, judge, assess, settle_gaps, place, fail_closed,
}

pub Outcome-cases : (o : Outcome) → (o ≡ decided) ⊎ (o ≡ no_decision)
Outcome-cases decided = inl refl
Outcome-cases no_decision = inr refl

may_pay_cases : (s : HoldStatus) → may_pay s ≡ true → (s ≡ released) ⊎ (s ≡ approved)
may_pay_cases payout_held h = absurd (ground arith)
may_pay_cases released h = inl refl
may_pay_cases escalated h = absurd (ground arith)
may_pay_cases approved h = inr refl
may_pay_cases denied h = absurd (ground arith)
may_pay_cases settled h = absurd (ground arith)

abbrev pub is_proceed : GateResult → Bool
is_proceed (proceed id) = true
is_proceed (block id reason) = false

module _ {N : Type 0} (services : Services N) (candidate : HoldCandidate) where
  -- `now` as the gate reads it.
  abbrev pub time_on : Ledger N → ℕ
  time_on ledger = not_before (services.outside.clock ledger.calls) (last_recorded_at ledger.log)

  -- The gaps of a decision as the gate assesses them on a ledger.
  abbrev pub gaps_on : Decision N → Ledger N → List EvidenceGap
  gaps_on d ledger =
      assess_evidence_completeness services.precedes services.available ledger.log d
        (time_on ledger)

  -- A decision that may be paid at once.
  unfoldable pub Payable : Ledger N → Type 0
  Payable ledger =
      (d : Decision N) × (after : Ledger N) × (services.decide candidate.feed_id ledger
        ≡ (ok d, after))
      × (d.outcome ≡ decided)
      × (d.triggered ≡ true)
      × (gaps_on d after ≡ [])

  settle_gaps-proceed :
      (d : Decision N) (gaps : List EvidenceGap) (ledger : Ledger N) (id : Option String)
      → (settle_gaps services candidate d gaps ledger).0 ≡ ok (proceed id)
      → gaps ≡ []
  unfolding settle_gaps
  settle_gaps-proceed d [] ledger id h = refl
  settle_gaps-proceed d (gap ∷ gaps) ledger id h =
      let (hold, after, placed, answered) =
        continue_ok (λ k. return (block (some k.hold_id) (claim_is k.status k.reason)))
          (place services candidate d (gap ∷ gaps) ledger) (proceed id) h in
      absurd (ground arith)

  judge-proceed :
      (d : Decision N) (ledger : Ledger N) (id : Option String)
      → (judge services candidate d ledger).0 ≡ ok (proceed id)
      → (d.outcome ≡ decided) × (d.triggered ≡ true) × (gaps_on d ledger ≡ [])
  unfolding judge assess now
  judge-proceed d ledger id h = elim (Outcome-cases d.outcome) [
    | inr e ↦ absurd (ground arith)
    | inl e ↦ elim (Bool-cases d.triggered) [
      | inl triggered ↦ elim (Bool-cases (are_hashes ledger.log d (time_on ledger))) [
        | inr faulty ↦ absurd (ground arith)
        | inl sound ↦ (
          e,
          triggered,
          settle_gaps-proceed d (gaps_on d ledger) (record ledger { calls = ledger.calls + 1 }) id
              (ground arith),
        )
      ]
      | inr untriggered ↦ absurd (ground arith)
    ]
  ]

  decide_proceed :
      (ledger : Ledger N) (id : Option String)
      → ((services.decide candidate.feed_id ▷ judge services candidate) ledger).0 ≡ ok (proceed id)
      → Payable ledger
  unfolding Payable
  decide_proceed ledger id h =
      let (d, after, made, answered) =
        continue_ok (judge services candidate) (services.decide candidate.feed_id ledger)
          (proceed id) h in
      let (outcome, triggered, complete) = judge-proceed d after id answered in
      (d, after, made, outcome, triggered, complete)

  governed_cases :
      (ledger : Ledger N) (id : Option String)
      → active_hold_for candidate.policy_id ledger.log ≡ none
      → denied_hold_for candidate.policy_id ledger.log ≡ none
      → (try_gate services candidate ledger).0 ≡ ok (proceed id)
      → (services.is_governed candidate.feed_id ≡ false) ⊎ Payable ledger
  unfolding try_gate
  governed_cases ledger id no_active no_denied h =
      elim (Bool-cases (services.is_governed candidate.feed_id)) [
        | inr free ↦ inl free
        | inl governed ↦ inr (decide_proceed ledger id (ground arith))
      ]

  fail_closed-proceed :
      (r : Result String GateResult) (id : Option String)
      → fail_closed services r ≡ proceed id
      → r ≡ ok (proceed id)
  fail_closed-proceed (ok a) id h = ap ok h
  fail_closed-proceed (err e) id h = absurd (ground arith)

  -- The gate lets a claim proceed only if its latest open hold was released or approved, or if it
  -- has no open and no denied hold and either its feed is not governed or the consensus engine
  -- answers a triggered decision whose evidence has no gap; in particular every error blocks the
  -- payout.
  pub gate-proceed :
      (ledger : Ledger N) (id : Option String)
      → (gate services candidate ledger).0 ≡ proceed id
      → ((hold : ClaimHold) × (active_hold_for candidate.policy_id ledger.log ≡ some hold)
          × ((hold.status ≡ released) ⊎ (hold.status ≡ approved)))
        ⊎ ((active_hold_for candidate.policy_id ledger.log ≡ none)
            × (denied_hold_for candidate.policy_id ledger.log ≡ none)
            × ((services.is_governed candidate.feed_id ≡ false) ⊎ Payable ledger))
  unfolding gate try_gate Payable
  gate-proceed ledger id h = elim (Option-cases (active_hold_for candidate.policy_id ledger.log)) [
    | inr (hold, active) ↦ inl (hold, active, may_pay_cases hold.status (ground arith))
    | inl no_active ↦ elim (Option-cases (denied_hold_for candidate.policy_id ledger.log)) [
      | inr (hold, refused) ↦ absurd (ground arith)
      | inl no_denied ↦ inr (
        no_active,
        no_denied,
        governed_cases ledger id no_active no_denied
            (fail_closed-proceed (try_gate services candidate ledger).0 id h),
      )
    ]
  ]

  -- For a claim with an open hold the gate writes nothing.
  pub gate_existing :
      (ledger : Ledger N) (hold : ClaimHold)
      → active_hold_for candidate.policy_id ledger.log ≡ some hold
      → (gate services candidate ledger).1 ≡ ledger
  unfolding gate try_gate
  gate_existing ledger hold h = elim (Bool-cases (may_pay hold.status)) [
    | inl pays ↦ ground arith
    | inr blocked ↦ ground arith
  ]
