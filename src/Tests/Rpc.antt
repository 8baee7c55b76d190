-- ===== src/Tests/Rpc.antt =====
-- src/stellar/rpc-endpoint-pool.ts at concrete inputs.
use refract_backend.Prelude.{
  ℕ, [], ◌∷◌, some, none, ◌≡◌, true, false, refl, zero, suc, String, arith,
}
use refract_backend.Rpc.{RpcEndpointPoolOptions, EndpointEntry, unhealthy, read}
use refract_backend.Rpc.Call.{Response, answered, transient, Pool, call, is_served, is_fatal}
use refract_backend.Rpc.LastResort.{call-served}

abbrev options : RpcEndpointPoolOptions
options = record {
  max_ledger_lag = 10;
  failure_threshold = 3;
  cooldown_ms = 30000;
  max_attempts = 3;
}

abbrev down : String → ℕ → EndpointEntry
down url priority = record {
  url = url;
  priority = priority;
  state = unhealthy;
  latest_ledger = none;
  latency_ms = none;
  consecutive_failures = 3;
  last_error = some "timeout";
  last_checked_at = none;
  cooldown_until = some 50000;
}

abbrev pool : Pool
pool = record {
  endpoints = down "a" 0 ∷ down "b" 1 ∷ [];
  active = record { for_read = some 0; for_events = none; for_submit = none };
  requests = 0;
}

-- The first endpoint times out, the second answers.
abbrev second_answers : ℕ → ℕ → Response ℕ
second_answers n zero = transient "timeout"
second_answers n (suc i) = answered 7

second_never_fatal : (n i : ℕ) → is_fatal (second_answers n i) ≡ false
second_never_fatal n zero = refl
second_never_fatal n (suc i) = refl

call-served_example : is_served (call options (λ n. 1000) second_answers read pool).0 ≡ true
call-served_example =
    call-served options (λ n. 1000) second_answers read 1 (λ n. refl)
      (λ n i. second_never_fatal n i) pool (omega arith) (omega arith)
