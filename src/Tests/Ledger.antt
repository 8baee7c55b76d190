-- ===== src/Tests/Ledger.antt =====
-- src/oracle/consensus/evidence-ledger.ts and ledger-view.ts at concrete inputs.
use refract_backend.Prelude.{
  ℕ, List, [], ◌∷◌, ◌++◌, none, some, refl, ◌≡◌, if◌then◌else◌, arith, String, Bool, true, leb,
}
use refract_backend.Ledger.{
  EvidenceEvent, EventBody, quorum_policy, reading, signature_result, result_verified, pending, lt,
}
use refract_backend.Ledger.Store.{Ledger, Outside, append_event, reserve_timestamp, full_event}
use refract_backend.Ledger.View.{known_at, sources_at, source_version_at, policy_at}
use refract_backend.Ledger.Late.{decision_in_force_at, penalties_at}
use refract_backend.Ledger.Increasing.{
  IsWellFormed, Increasing, append_event-IsWellFormed, reserve_exact,
}
use refract_backend.Ledger.Cutoff.{lookups_fixed}

-- The clock steps back after the first read; every write succeeds.
abbrev pub outside : Outside
outside = record { clock = λ n. if leb n 0 then 100 else 40; disk = λ n. none }

abbrev policy : ℕ → EventBody ℕ
policy version = quorum_policy (record {
  feed_id = "f";
  version = version;
  min_sources = 1;
  expected_sources = 2;
  min_total_weight = 1;
  max_reading_age_ms = 60;
  trigger = lt 5;
  effective_from = 0;
})

abbrev read : EventBody ℕ
read = reading (record {
  reading_id = "r1";
  feed_id = "f";
  source_id = "s";
  value = 3;
  observed_at = 90;
  ledger_seq = none;
  payload_hash = none;
  signature = pending;
  fingerprint = none;
})

abbrev log : List (EvidenceEvent ℕ)
log =
    record { seq = 1; recorded_at = 10; body = policy 1 }
    ∷ record { seq = 2; recorded_at = 95; body = read }
    ∷ []

abbrev later : List (EvidenceEvent ℕ)
later =
    record { seq = 3; recorded_at = 120; body = policy 2 }
    ∷ record { seq = 4; recorded_at = 130; body = signature_result "r1" result_verified }
    ∷ []

abbrev ledger : Ledger ℕ
ledger = record { log = log; calls = 1 }

log-IsWellFormed : IsWellFormed log
unfolding Increasing
log-IsWellFormed = (refl, tt, (refl, omega arith, tt))

append_event-IsWellFormed_example : IsWellFormed (append_event outside none (policy 2) ledger).1.log
append_event-IsWellFormed_example =
    append_event-IsWellFormed outside none (policy 2) ledger log-IsWellFormed

reserve_exact_example :
    ((full_event (outside.clock 2) (some 96) (policy 2) log).recorded_at ≡ 96)
    × (known_at log 96 ≡ log)
unfolding reserve_timestamp
reserve_exact_example = reserve_exact outside (policy 2) ledger 96 log-IsWellFormed refl

abbrev any_order : String → String → Bool
any_order a b = true

lookups_fixed_example :
    (sources_at any_order (log ++ later) "f" 100 ≡ sources_at any_order log "f" 100)
    × (source_version_at (log ++ later) "s" 100 ≡ source_version_at log "s" 100)
    × (policy_at (log ++ later) "f" 100 ≡ policy_at log "f" 100)
    × (decision_in_force_at (log ++ later) "f" 100 ≡ decision_in_force_at log "f" 100)
    × (penalties_at (log ++ later) "f" 100 ≡ penalties_at log "f" 100)
lookups_fixed_example =
    lookups_fixed 100 any_order "f" "s" log later (omega arith, (omega arith, tt))
