-- ===== src/Rpc/LastResort.antt =====
-- No endpoint is left out (rpc-endpoint-pool.ts): a call is served whenever any endpoint answers, also
-- when all of them are marked unhealthy.
use refract_backend.Prelude.{
  inl, inr, subst, ◌⊎◌, ℕ, ◌+◌, ◌<◌, zero, suc, true, false, ◌==◌, Option, none, some, List, [],
  ◌∷◌, any, length, String, ◌≡◌, refl, arith, ◌∙◌, any-sort_by, sort_by,
}
use refract_backend.Rpc.{RpcPurpose, RpcEndpointPoolOptions, EndpointEntry}
use refract_backend.Rpc.Call.{
  Response, answered, transient, fatal, Pool, index_from, comes_before, candidate_order, active_for,
  try_each, attempts, call, fail, is_answer, is_fatal, is_served,
}

any-index_from :
    (j k : ℕ) (es : List EndpointEntry)
    → j < length es
    → any (λ entry. entry.0 == k + j) (index_from k es) ≡ true
any-index_from j k [] h = absurd (omega arith)
any-index_from zero k (e ∷ es) h = ground arith
any-index_from (suc j) k (e ∷ es) h = ground (arith, any-index_from j (k + 1) es (omega arith))

any_zero :
    (j : ℕ) (es : List EndpointEntry)
    → j < length es
    → any (λ entry. entry.0 == j) (index_from 0 es) ≡ true
any_zero j es h =
    subst (λ m. any (λ entry. entry.0 == m) (index_from 0 es) ≡ true) (omega arith)
      (any-index_from j 0 es h)

Response-cases :
    {A : Type 0} (r : Response A)
    → ((a : A) × (r ≡ answered a))
      ⊎ (((message : String) × (r ≡ transient message))
          ⊎ ((message : String) × (r ≡ fatal message)))
Response-cases (answered a) = inl (a, refl)
Response-cases (transient message) = inr (inl (message, refl))
Response-cases (fatal message) = inr (inr (message, refl))

module _ {A : Type 0} (options : RpcEndpointPoolOptions) (clock : ℕ → ℕ)
    (operation : ℕ → ℕ → Response A) (purpose : RpcPurpose) (j : ℕ)
    (answers : (n : ℕ) → is_answer (operation n j) ≡ true)
    (never_fatal : (n i : ℕ) → is_fatal (operation n i) ≡ false) where
  try_each-served :
      (order : List (ℕ × EndpointEntry)) (last_error : Option String) (pool : Pool)
      → any (λ entry. entry.0 == j) order ≡ true
      → is_served (try_each options clock operation purpose order last_error pool).0 ≡ true
  unfolding try_each
  try_each-served [] last_error pool h = absurd (ground arith)
  try_each-served ((i, e) ∷ rest) last_error pool h =
      elim (Response-cases (operation pool.requests i)) [
        | inl (a, e) ↦ ground arith
        | inr (inr (message, e)) ↦ absurd (ground (arith, never_fatal pool.requests i))
        | inr (inl (message, e)) ↦ ground (
          arith,
          try_each-served rest (some message) (fail options clock operation purpose i message pool)
              (ground (arith, answers pool.requests)),
        )
      ]

  served_first :
      (n : ℕ) (last_error : Option String) (pool : Pool)
      → j < length pool.endpoints
      → is_served (attempts options clock operation purpose (suc n) last_error pool).0 ≡ true
  unfolding attempts candidate_order
  served_first n last_error pool h = ground (
    arith,
    try_each-served
        (sort_by (comes_before (clock pool.requests) (active_for purpose pool.active))
          (index_from 0 pool.endpoints))
        last_error pool
        (any-sort_by (λ entry. entry.0 == j)
            (comes_before (clock pool.requests) (active_for purpose pool.active))
            (index_from 0 pool.endpoints)
          ∙ any_zero j pool.endpoints h),
  )

  positive_attempts :
      (n : ℕ) (pool : Pool)
      → 0 < n
      → j < length pool.endpoints
      → is_served (attempts options clock operation purpose n none pool).0 ≡ true
  positive_attempts zero pool h k = absurd (omega arith)
  positive_attempts (suc n) pool h k = served_first n none pool k

  -- With at least one attempt, a call is served whenever some endpoint of the pool always answers
  -- and no request fails for good: whatever the health, the cooldowns, the sticky choice and the
  -- clock say, no endpoint is left out.
  pub call-served :
      (pool : Pool)
      → 0 < options.max_attempts
      → j < length pool.endpoints
      → is_served (call options clock operation purpose pool).0 ≡ true
  unfolding call
  call-served pool h k = positive_attempts options.max_attempts pool h k
