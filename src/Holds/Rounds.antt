-- ===== src/Holds/Rounds.antt =====
-- The rounds of `reevaluateAll` (claim-hold.service.ts): every held claim is counted once, and one is
-- released only in time and on evidence that does not contradict the verdict.
use refract_backend.Prelude.{
  ℕ, ◌+◌, ◌<◌, ◌≤◌, List, [], ◌∷◌, ltb, leb, keep, length, ok, ◌≡◌, arith, inl, inr, Bool-cases,
}
use refract_backend.Ledger.{
  policy_expired_while_held, expired_while_held, deadline_exceeded, incomplete_at_deadline,
}
use refract_backend.Ledger.Store.{
  Ledger, Io, ◌▷◌, return, now, not_before, last_recorded_at, continue_ok,
}
use refract_backend.Holds.{ClaimHold}
use refract_backend.Holds.Service.{Services, list}
use refract_backend.Holds.Review.{
  Summary, Verdict, verdict_released, verdict_escalated, still_held, count_verdict, is_held, Fresh,
  reevaluate, reevaluate_at, reevaluate_each, reevaluate_all, verdict_of, escalate,
}

total : Summary → ℕ
total s = s.released + s.escalated + s.still_held

total-count : (v : Verdict) (s : Summary) → total (count_verdict v s) ≡ total s + 1
unfolding total count_verdict
total-count verdict_released s = omega arith
total-count verdict_escalated s = omega arith
total-count still_held s = omega arith

module _ {N : Type 0} (services : Services N) where
  total-each :
      (holds : List ClaimHold) (fresh : Fresh services) (summary : Summary) (ledger : Ledger N)
      → total (reevaluate_each services holds fresh summary ledger).0 ≡ total summary + length holds
  unfolding reevaluate_each
  total-each [] fresh summary ledger = omega arith
  total-each (hold ∷ holds) fresh summary ledger =
      let round = reevaluate services hold fresh ledger in
      omega (
        arith,
        total-each holds round.1 (count_verdict (verdict_of services round.0.0) summary) round.0.1,
        total-count (verdict_of services round.0.0) summary,
      )

  -- A round over the held claims always ends, whatever throws, and counts each claim that was
  -- held when it began once, as released, escalated or still held.
  pub reevaluate_all-length :
      (ledger : Ledger N)
      → (reevaluate_all services ledger).0.released
          + (reevaluate_all services ledger).0.escalated
          + (reevaluate_all services ledger).0.still_held
        ≡ length (keep (λ h. is_held h.status) (list ledger.log))
  unfolding reevaluate_all total
  reevaluate_all-length ledger = omega (
    arith,
    total-each (keep (λ h. is_held h.status) (list ledger.log)) []
        (record { released = 0; escalated = 0; still_held = 0 }) ledger,
  )

  -- `now` as the round reads it.
  abbrev pub time_of : Ledger N → ℕ
  time_of ledger = not_before (services.outside.clock ledger.calls) (last_recorded_at ledger.log)

  escalate_only :
      (m : Io N (Unit {0})) (ledger : Ledger N)
      → ((m ▷ (λ u. return verdict_escalated)) ledger).0 ≡ ok verdict_released
      → ⊥
  escalate_only m ledger h =
      let (u, after, ran, answered) =
        continue_ok (λ u. return verdict_escalated) (m ledger) verdict_released h in
      ground arith

  -- A held claim is released in a round only while its policy has not expired and before its
  -- deadline, by the time of the ledger.
  pub reevaluate_released :
      (hold : ClaimHold) (fresh : Fresh services) (ledger : Ledger N)
      → (reevaluate services hold fresh ledger).0.0 ≡ ok verdict_released
      → (time_of ledger ≤ hold.policy_expires_at) × (time_of ledger < hold.deadline)
  unfolding reevaluate reevaluate_at now
  reevaluate_released hold fresh ledger h =
      elim (Bool-cases (ltb hold.policy_expires_at (time_of ledger))) [
        | inl expired ↦ absurd (
            escalate_only (escalate services hold policy_expired_while_held expired_while_held)
              (record ledger { calls = ledger.calls + 1 }) (ground arith))
        | inr lasting ↦ elim (Bool-cases (leb hold.deadline (time_of ledger))) [
          | inl late ↦ absurd (
              escalate_only
                (escalate services hold deadline_exceeded (incomplete_at_deadline hold.gaps))
                (record ledger { calls = ledger.calls + 1 }) (ground arith))
          | inr timely ↦ (ground arith, ground arith)
        ]
      ]
