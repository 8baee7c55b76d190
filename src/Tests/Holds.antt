-- ===== src/Tests/Holds.antt =====
-- src/oracle/consensus/claim-hold.service.ts at concrete inputs.
use text.Mathlib.TextEquality.{eq_iff}
use refract_backend.Prelude.{
  ℕ, [], ◌∷◌, none, some, refl, ◌≡◌, ◌⊎◌, ◌≤◌, ◌<◌, ◌+◌, arith, true, false, length, keep,
  string_discrete,
}
use refract_backend.Prelude.Dict.{lookup}
use refract_backend.Ledger.{
  hold_placed, HoldPlaced, HoldReason, HoldDisposed, described, Decision, decided, approve_payout,
}
use refract_backend.Ledger.Store.{Ledger, return, append_event, now}
use refract_backend.Holds.{
  ClaimHold, payout_held, released, approved, new_hold, dispose_hold, fold_holds,
}
use refract_backend.Holds.Service.{
  Services, HoldCandidate, block, claim_is, gate, active_hold_for, denied_hold_for, dispose,
  can_dispose, list,
}
use refract_backend.Ledger.Gaps.{assess_evidence_completeness}
use refract_backend.Ledger.Hashes.{is_hash}
use refract_backend.Ledger.View.{policy_at, sources_at}
use refract_backend.Ledger.Readings.{reading_by_id}
use refract_backend.Holds.Gate.{gate-proceed, Payable, gaps_on}
use refract_backend.Holds.Repeat.{gate_again}
use refract_backend.Holds.Transitions.{dispose-Disposed, Disposed}
use refract_backend.Holds.Review.{reevaluate, reevaluate_all, is_held}
use refract_backend.Holds.Rounds.{reevaluate_released, reevaluate_all-length, time_of}
use refract_backend.Tests.Ledger.{outside}

abbrev sure : Decision ℕ
sure = record {
  decision_id = "d1";
  feed_id = "f";
  at = 90;
  ledger_seq = none;
  outcome = decided;
  value = some 3;
  triggered = true;
  reason = "below";
  policy_version = some 1;
  contributing = [];
}

abbrev services : Services ℕ
services = record {
  outside = outside;
  hold_max_duration_ms = 1000;
  is_governed = λ feed. true;
  decide = λ feed. return sure;
  available = λ hash. true;
  precedes = λ a b. true;
  hold_id_of = λ policy decision. policy;
  json = λ gaps. "";
}

abbrev candidate : HoldCandidate
candidate = record { policy_id = "p1"; holder = "h"; feed_id = "f"; policy_expires_at = 5000 }

abbrev placed : HoldPlaced
placed = record {
  hold_id = "hold_1";
  policy_id = "p1";
  holder = "h";
  feed_id = "f";
  decision_id = "d1";
  gaps = [];
  reason = described [];
  deadline = 1000;
  policy_expires_at = 5000;
}

abbrev held : Ledger ℕ
held = record {
  log = record { seq = 1; recorded_at = 10; body = hold_placed placed } ∷ [];
  calls = 0;
}

abbrev fresh : Ledger ℕ
fresh = record { log = []; calls = 0 }

gate-proceed_example :
    ((hold : ClaimHold) × (active_hold_for "p1" fresh.log ≡ some hold)
      × ((hold.status ≡ released) ⊎ (hold.status ≡ approved)))
    ⊎ ((active_hold_for "p1" fresh.log ≡ none)
        × (denied_hold_for "p1" fresh.log ≡ none)
        × ((services.is_governed "f" ≡ false) ⊎ Payable services candidate fresh))
unfolding gate fold_holds now assess_evidence_completeness policy_at
gate-proceed_example = gate-proceed services candidate fresh none refl

-- The decision rests on a reading that the ledger does not have, so that the first scan places a hold.
abbrev unread : Decision ℕ
unread = record sure {
  contributing =
      record {
        reading_id = "r1";
        source_id = "s1";
        value = 3;
        effective_weight = 1;
        independent = some true;
      }
      ∷ [];
}

abbrev doubted : Services ℕ
doubted = record services { decide = λ feed. return unread }

abbrev hold_reason : HoldReason
hold_reason = described (gaps_on doubted candidate unread fresh)

first_scan : (gate doubted candidate fresh).0 ≡ block (some "p1") (claim_is payout_held hold_reason)
unfolding gate fold_holds now assess_evidence_completeness policy_at append_event new_hold
    sources_at reading_by_id string_discrete
first_scan = refl

gate_again_example :
    gate doubted candidate (gate doubted candidate fresh).1
    ≡ (block (some "p1") (claim_is payout_held hold_reason), (gate doubted candidate fresh).1)
gate_again_example =
    gate_again doubted candidate fresh "p1" (claim_is payout_held hold_reason) (λ ledger. refl)
      first_scan

reevaluate_all-length_example :
    (reevaluate_all services held).0.released
      + (reevaluate_all services held).0.escalated
      + (reevaluate_all services held).0.still_held
    ≡ length (keep (λ h. is_held h.status) (list held.log))
reevaluate_all-length_example = reevaluate_all-length services held

reevaluate_released_example : (time_of services held ≤ 5000) × (time_of services held < 1000)
unfolding reevaluate now new_hold assess_evidence_completeness policy_at append_event
reevaluate_released_example = reevaluate_released services (new_hold placed 10) [] held refl

abbrev given : HoldDisposed
given = record {
  hold_id = "hold_1";
  disposition = approve_payout;
  actor = "op";
  note = "checked";
  deadline = none;
}

abbrev disposed : Ledger ℕ
disposed = (dispose services "hold_1" approve_payout "op" "checked" true none held).1

dispose-Disposed_example :
    (h : ClaimHold) × (lookup string_discrete "hold_1" (fold_holds held.log) ≡ some h)
    × (can_dispose services h.status ≡ true)
    × Disposed approve_payout "hold_1" "hold_2" held disposed
        (dispose_hold given 100 (new_hold placed 10))
unfolding dispose fold_holds string_discrete new_hold dispose_hold append_event
dispose-Disposed_example =
    dispose-Disposed services "hold_1" "hold_2" approve_payout "op" "checked" true none held
      disposed (dispose_hold given 100 (new_hold placed 10)) refl
      (ground (arith, eq_iff "hold_1" "hold_2"))

hash_accepted : is_hash "0123456789abcdef0123456789abcdef0123456789abcdef0123456789abcdef" ≡ true
unfolding is_hash
hash_accepted = refl

hash_refused : is_hash "0123456789abcdef0123456789abcdef0123456789abcdef0123456789abcdeg" ≡ false
unfolding is_hash
hash_refused = refl
