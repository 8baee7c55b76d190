-- ===== src/Rpc.antt =====
-- src/stellar/rpc-endpoint-pool.ts: the pool of RPC endpoints. This file has the endpoints and how
-- calls and probes change their health; Call has the order of the candidates and the retry loop,
-- LastResort what is proved. Times are answers of the pool's clock.
pub mod Call
pub mod LastResort
use refract_backend.Prelude.{
  ℕ, ◌+◌, ◌-◌, Bool, true, false, not, ◌&&◌, ◌||◌, Option, none, some, List, [], ◌∷◌, map, any, ltb,
  leb, if◌then◌else◌, String, fold,
}

pub data RpcPurpose : Type 0 where
  read events submit : RpcPurpose

pub data EndpointState : Type 0 where
  healthy lagging unhealthy unknown : EndpointState

pub record RpcEndpointPoolOptions : Type 0 where
  pub max_ledger_lag : ℕ
  pub failure_threshold : ℕ
  pub cooldown_ms : ℕ
  pub max_attempts : ℕ

pub record EndpointEntry : Type 0 where
  pub url : String
  pub priority : ℕ
  pub state : EndpointState
  pub latest_ledger : Option ℕ
  pub latency_ms : Option ℕ
  pub consecutive_failures : ℕ
  pub last_error : Option String
  pub last_checked_at : Option ℕ
  pub cooldown_until : Option ℕ

abbrev pub is_unhealthy : EndpointState → Bool
is_unhealthy s = elim s [ unhealthy ↦ true | _ ↦ false ]

-- `STATE_RANK`.
abbrev pub state_rank : EndpointState → ℕ
state_rank healthy = 0
state_rank unknown = 1
state_rank lagging = 2
state_rank unhealthy = 3

abbrev pub reached : ℕ → Option ℕ → Bool
reached now none = false
reached now (some t) = leb t now

-- `effectiveState`.
unfoldable pub effective_state : ℕ → EndpointEntry → EndpointState
effective_state now e =
    if is_unhealthy e.state && reached now e.cooldown_until then unknown else e.state

-- `recordSuccess`.
unfoldable pub record_success : EndpointEntry → EndpointEntry
record_success e =
    let answered = record e { consecutive_failures = 0; last_error = none } in
    if is_unhealthy e.state
    then record answered { state = unknown; cooldown_until = none }
    else answered

-- `markUnhealthy`.
unfoldable pub mark_unhealthy : RpcEndpointPoolOptions → ℕ → EndpointEntry → EndpointEntry
mark_unhealthy options now e = record e {
  state = unhealthy;
  cooldown_until = some (now + options.cooldown_ms);
}

-- `recordFailure`.
unfoldable pub record_failure : RpcEndpointPoolOptions → ℕ → String → EndpointEntry → EndpointEntry
unfolding mark_unhealthy
record_failure options now message e =
    let failed = record e {
      consecutive_failures = e.consecutive_failures + 1;
      last_error = some message;
    } in
    if leb options.failure_threshold failed.consecutive_failures
    then mark_unhealthy options now failed
    else failed

abbrev higher : Option ℕ → Option ℕ → Option ℕ
higher head none = head
higher none (some ledger) = some ledger
higher (some head) (some ledger) = if ltb head ledger then some ledger else some head

-- `headLedger`.
unfoldable pub head_ledger : List EndpointEntry → Option ℕ
head_ledger endpoints =
    fold (λ head e. if is_unhealthy e.state then head else higher head e.latest_ledger) none
      endpoints

-- What the health call of an endpoint answers.
pub data Health : Type 0 where
  reported : Bool → String → Option ℕ → Health
  failed : String → Health

abbrev kept : Option ℕ → Option ℕ → Option ℕ
kept none old = old
kept (some ledger) old = some ledger

-- `probe`; the clock is read at its start, at its end and for the cooldown.
unfoldable pub probe : RpcEndpointPoolOptions → ℕ → ℕ → ℕ → Health → EndpointEntry → EndpointEntry
unfolding mark_unhealthy
probe options started ended now (reported true status ledger) e = record e {
  last_checked_at = some ended;
  latency_ms = some (ended - started);
  latest_ledger = ledger;
  consecutive_failures = 0;
  last_error = none;
  cooldown_until = none;
  state = healthy;
}
probe options started ended now (reported false status ledger) e =
    mark_unhealthy options now (record e {
      last_checked_at = some ended;
      latency_ms = some (ended - started);
      latest_ledger = kept ledger e.latest_ledger;
      last_error = some status;
    })
probe options started ended now (failed message) e =
    mark_unhealthy options now
      (record e { last_checked_at = some ended; latency_ms = none; last_error = some message })

-- The lag of an endpoint, as `probeAll` resolves it once every probe is done.
unfoldable pub resolve_lag : RpcEndpointPoolOptions → Option ℕ → EndpointEntry → EndpointEntry
resolve_lag options none e = e
resolve_lag options (some head) e = if is_unhealthy e.state then e else elim e.latest_ledger [
  | none ↦ e
  | some ledger ↦ record e {
    state = if ltb options.max_ledger_lag (head - ledger) then lagging else healthy;
  }
]

-- The loop of `probeAll`.
unfoldable pub resolve_lags : RpcEndpointPoolOptions → List EndpointEntry → List EndpointEntry
unfolding head_ledger resolve_lag
resolve_lags options endpoints = map (resolve_lag options (head_ledger endpoints)) endpoints

-- `isServiceable`.
unfoldable pub is_serviceable : ℕ → List EndpointEntry → Bool
unfolding effective_state
is_serviceable now endpoints = any (λ e. ltb (state_rank (effective_state now e)) 2) endpoints
