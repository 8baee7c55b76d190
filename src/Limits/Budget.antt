-- ===== src/Limits/Budget.antt =====
-- The budget of an identity (actor-rate-limiter.ts): how many hits of one window are allowed, and that
-- neither a hit nor the sweep touches the live window of another identity.
use refract_backend.Prelude.{
  ℕ, ◌+◌, ◌-◌, ◌<◌, min, true, none, some, leb, if◌then◌else◌, List, [], ◌∷◌, length, keep, String,
  string_discrete, ◌≡◌, ◌≢◌, arith, ap, ◌∙◌, All,
}
use refract_backend.Prelude.Dict.{lookup, lookup-insert_self, lookup-insert_ne}
use refract_backend.Limits.{
  RateLimitBudget, Window, Windows, is_live, sweep, window_or_new, current, counted, hit, peek,
  decision_on,
}

lookup-keep_live :
    (now : ℕ) (id : String) (windows : Windows) (w : Window)
    → lookup string_discrete id windows ≡ some w
    → is_live now w ≡ true
    → lookup string_discrete id (keep (λ entry. is_live now entry.1) windows) ≡ some w
lookup-keep_live now id [] w found live = found
lookup-keep_live now id ((j, v) ∷ windows) w found live =
    ground (arith, lookup-keep_live now id windows w)

lookup-keep-none :
    (now : ℕ) (id : String) (windows : Windows)
    → lookup string_discrete id windows ≡ none
    → lookup string_discrete id (keep (λ entry. is_live now entry.1) windows) ≡ none
lookup-keep-none now id [] missing = missing
lookup-keep-none now id ((j, v) ∷ windows) missing = ground (arith, lookup-keep-none now id windows)

lookup-sweep_live :
    (now : ℕ) (id : String) (windows : Windows) (w : Window)
    → lookup string_discrete id windows ≡ some w
    → is_live now w ≡ true
    → lookup string_discrete id (sweep now windows) ≡ some w
unfolding sweep
lookup-sweep_live now id windows w found live =
    ground (arith, lookup-keep_live now id windows w found live)

lookup-sweep-none :
    (now : ℕ) (id : String) (windows : Windows)
    → lookup string_discrete id windows ≡ none
    → lookup string_discrete id (sweep now windows) ≡ none
unfolding sweep
lookup-sweep-none now id windows missing = ground (arith, lookup-keep-none now id windows missing)

-- A hit never spends the budget of another identity: a window of another identity that has not
-- reset is as it was, also where the hit sweeps old windows away.
pub hit_others :
    (now later : ℕ) (id other : String) (budget : RateLimitBudget) (windows : Windows) (w : Window)
    → lookup string_discrete other windows ≡ some w
    → now < w.reset_at
    → id ≢ other
    → lookup string_discrete other (hit now later id budget windows).1 ≡ some w
unfolding hit
hit_others now later id other budget windows w found live ne =
    lookup-insert_ne string_discrete id other (counted (current now id budget windows))
      (sweep now windows) ne
    ∙ lookup-sweep_live now other windows w found (ground arith)

current_live :
    (now : ℕ) (id : String) (budget : RateLimitBudget) (windows : Windows) (w : Window)
    → lookup string_discrete id windows ≡ some w
    → is_live now w ≡ true
    → current now id budget windows ≡ w
unfolding current window_or_new
current_live now id budget windows w found live =
    ground (arith, lookup-sweep_live now id windows w found live)

current_new :
    (now : ℕ) (id : String) (budget : RateLimitBudget) (windows : Windows)
    → lookup string_discrete id windows ≡ none
    → current now id budget windows ≡ record { count = 0; reset_at = now + budget.window_ms }
unfolding current window_or_new
current_new now id budget windows missing = ground (arith, lookup-sweep-none now id windows missing)

-- How many of the hits at the times are allowed.
unfoldable pub allowed_hits : String → RateLimitBudget → List ℕ → Windows → ℕ
unfolding hit
allowed_hits id budget [] windows = 0
allowed_hits id budget (now ∷ times) windows =
    let rest = allowed_hits id budget times (hit now now id budget windows).1 in
    if (hit now now id budget windows).0.allowed then rest + 1 else rest

lookup-hit :
    (now later : ℕ) (id : String) (budget : RateLimitBudget) (windows : Windows) (w : Window)
    → current now id budget windows ≡ w
    → (lookup string_discrete id (hit now later id budget windows).1 ≡ some (counted w))
      × ((hit now later id budget windows).0.allowed ≡ leb (w.count + 1) budget.limit)
unfolding hit decision_on
lookup-hit now later id budget windows w same = (
  lookup-insert_self string_discrete id (counted (current now id budget windows))
        (sweep now windows)
      ∙ ap (λ v. some (counted v)) same,
  ap (λ v. leb (v.count + 1) budget.limit) same,
)

allowed-live :
    (id : String) (budget : RateLimitBudget) (times : List ℕ) (windows : Windows) (w : Window)
    → lookup string_discrete id windows ≡ some w
    → All (λ t. t < w.reset_at) times
    → allowed_hits id budget times windows ≡ min (budget.limit - w.count) (length times)
unfolding allowed_hits
allowed-live id budget [] windows w found within = omega arith
allowed-live id budget (now ∷ times) windows w found (before, within) =
    let next =
      lookup-hit now now id budget windows w
        (current_live now id budget windows w found (ground arith)) in
    ground (
      arith,
      next.1,
      allowed-live id budget times (hit now now id budget windows).1 (counted w) next.0 within,
    )

-- Of the hits of an identity without a window, the first and any number of further ones before
-- its window resets, exactly the budget's limit are allowed, or all where they are fewer; the
-- sweep of old windows does not change that.
pub allowed_hits-min :
    (id : String) (budget : RateLimitBudget) (now : ℕ) (times : List ℕ) (windows : Windows)
    → lookup string_discrete id windows ≡ none
    → All (λ t. t < now + budget.window_ms) times
    → allowed_hits id budget (now ∷ times) windows ≡ min budget.limit (length times + 1)
unfolding allowed_hits
allowed_hits-min id budget now times windows missing within =
    let fresh : Window = record { count = 0; reset_at = now + budget.window_ms } in
    let next =
      lookup-hit now now id budget windows fresh (current_new now id budget windows missing) in
    ground (
      arith,
      next.1,
      allowed-live id budget times (hit now now id budget windows).1 (counted fresh) next.0 within,
    )

-- While an identity has a window that has not reset, peek answers what a hit at the same times
-- would answer.
pub peek-hit :
    (now later : ℕ) (id : String) (budget : RateLimitBudget) (windows : Windows) (w : Window)
    → lookup string_discrete id windows ≡ some w
    → now < w.reset_at
    → peek now later id budget windows ≡ (hit now later id budget windows).0
unfolding peek hit
peek-hit now later id budget windows w found live =
    ground (arith, current_live now id budget windows w found (ground arith))
