-- ===== src/Rpc/Call.antt =====
-- `candidateOrder` and `call` of src/stellar/rpc-endpoint-pool.ts. `operation n i` is what the n-th
-- request of the call, made to endpoint i, comes to; which errors are transient is told by a test on
-- their text, which is not modelled. `clock n` is the time of the n-th request.
use refract_backend.Prelude.{
  ℕ, ◌+◌, zero, suc, Bool, true, false, ◌&&◌, ◌||◌, ◌==◌, Option, none, some, List, [], ◌∷◌, ltb,
  if◌then◌else◌, String, sort_by,
}
use refract_backend.Rpc.{
  RpcPurpose, read, events, submit, RpcEndpointPoolOptions, EndpointEntry, state_rank,
  effective_state, record_success, record_failure,
}

pub data Response (A : Type 0) : Type 0 where
  answered : A → Response A
  transient : String → Response A
  fatal : String → Response A

-- `active`, by purpose.
pub record Active : Type 0 where
  pub for_read : Option ℕ
  pub for_events : Option ℕ
  pub for_submit : Option ℕ

abbrev pub active_for : RpcPurpose → Active → Option ℕ
active_for read a = a.for_read
active_for events a = a.for_events
active_for submit a = a.for_submit

abbrev pub set_active : RpcPurpose → ℕ → Active → Active
set_active read i a = record a { for_read = some i }
set_active events i a = record a { for_events = some i }
set_active submit i a = record a { for_submit = some i }

pub record Pool : Type 0 where
  pub endpoints : List EndpointEntry
  pub active : Active
  pub requests : ℕ

-- The endpoints with their index.
abbrev pub index_from : ℕ → List EndpointEntry → List (ℕ × EndpointEntry)
index_from k [] = []
index_from k (e ∷ es) = (k, e) ∷ index_from (k + 1) es

abbrev pub is_sticky : Option ℕ → ℕ → Bool
is_sticky none i = false
is_sticky (some s) i = i == s

-- The comparison of `candidateOrder`: by rank, the sticky one first, then by priority.
unfoldable pub comes_before : ℕ → Option ℕ → ℕ × EndpointEntry → ℕ × EndpointEntry → Bool
comes_before now sticky (i, a) (j, b) =
    let rank_a = state_rank (effective_state now a) in
    let rank_b = state_rank (effective_state now b) in
    ltb rank_a rank_b
    || (rank_a == rank_b
        && (if is_sticky sticky i
            then true
            else if is_sticky sticky j
            then false
            else ltb a.priority b.priority))

-- `candidateOrder`.
unfoldable pub candidate_order : ℕ → RpcPurpose → Pool → List (ℕ × EndpointEntry)
unfolding comes_before
candidate_order now purpose pool =
    sort_by (comes_before now (active_for purpose pool.active)) (index_from 0 pool.endpoints)

abbrev pub update_at : ℕ → (EndpointEntry → EndpointEntry) → List EndpointEntry → List EndpointEntry
update_at i f [] = []
update_at zero f (e ∷ es) = f e ∷ es
update_at (suc i) f (e ∷ es) = e ∷ update_at i f es

-- What a round over the candidates, or a call, comes to; `exhausted` has the last error.
pub data CallResult (A : Type 0) : Type 0 where
  served : A → CallResult A
  thrown : String → CallResult A
  exhausted : Option String → CallResult A

abbrev pub is_answer : {A : Type 0} → Response A → Bool
is_answer (answered a) = true
is_answer (transient message) = false
is_answer (fatal message) = false

abbrev pub is_fatal : {A : Type 0} → Response A → Bool
is_fatal (answered a) = false
is_fatal (transient message) = false
is_fatal (fatal message) = true

abbrev pub is_served : {A : Type 0} → CallResult A → Bool
is_served (served a) = true
is_served (thrown message) = false
is_served (exhausted last_error) = false

module _ {A : Type 0} (options : RpcEndpointPoolOptions) (clock : ℕ → ℕ)
    (operation : ℕ → ℕ → Response A) (purpose : RpcPurpose) where
  abbrev pub succeed : ℕ → Pool → Pool
  succeed i pool = record pool {
    endpoints = update_at i record_success pool.endpoints;
    active = set_active purpose i pool.active;
    requests = pool.requests + 1;
  }

  abbrev pub fail : ℕ → String → Pool → Pool
  fail i message pool = record pool {
    endpoints = update_at i (record_failure options (clock pool.requests) message) pool.endpoints;
    requests = pool.requests + 1;
  }

  -- The loop over the candidates.
  unfoldable pub try_each : List (ℕ × EndpointEntry) → Option String → Pool → CallResult A × Pool
  try_each [] last_error pool = (exhausted last_error, pool)
  try_each ((i, e) ∷ rest) last_error pool = elim (operation pool.requests i) [
    | answered a ↦ (served a, succeed i pool)
    | fatal message ↦ (thrown message, record pool { requests = pool.requests + 1 })
    | transient message ↦ try_each rest (some message) (fail i message pool)
  ]

  abbrev pub continue_with :
      (Option String → Pool → CallResult A × Pool) → CallResult A × Pool → CallResult A × Pool
  continue_with next (served a, pool) = (served a, pool)
  continue_with next (thrown message, pool) = (thrown message, pool)
  continue_with next (exhausted last_error, pool) = next last_error pool

  -- The loop over the attempts.
  unfoldable pub attempts : ℕ → Option String → Pool → CallResult A × Pool
  unfolding try_each candidate_order
  attempts zero last_error pool = (exhausted last_error, pool)
  attempts (suc n) last_error pool =
      continue_with (attempts n)
        (try_each (candidate_order (clock pool.requests) purpose pool) last_error pool)

  -- `call`.
  unfoldable pub call : Pool → CallResult A × Pool
  unfolding attempts
  call pool = attempts options.max_attempts none pool
