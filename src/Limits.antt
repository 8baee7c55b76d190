-- ===== src/Limits.antt =====
-- src/oracle/admin/actor-rate-limiter.ts: `FixedWindowLimiter`, which counts the hits of an identity
-- in a window of fixed length. Budget holds what is proved. The clock is read twice in a call, so
-- each method takes both answers.
pub mod Budget
use refract_backend.Prelude.{
  ℕ, ◌+◌, ◌-◌, ◌/◌, max, Bool, true, false, not, Option, none, some, ltb, leb, if◌then◌else◌, List,
  [], ◌∷◌, length, keep, String, string_discrete,
}
use refract_backend.Prelude.Dict.{Dict, lookup, insert, delete}

pub record RateLimitBudget : Type 0 where
  pub limit : ℕ
  pub window_ms : ℕ

pub record RateLimitDecision : Type 0 where
  pub allowed : Bool
  pub limit : ℕ
  pub remaining : ℕ
  pub retry_after_seconds : ℕ

pub record Window : Type 0 where
  pub count : ℕ
  pub reset_at : ℕ

abbrev pub Windows : Type 0
Windows = Dict String Window

abbrev pub sweep_threshold : ℕ
sweep_threshold = 10000

abbrev pub is_live : ℕ → Window → Bool
is_live now w = ltb now w.reset_at

-- `Math.max(1, Math.ceil(d / 1000))`, where a reset in the past counts as one second too.
abbrev retry_after : ℕ → Window → ℕ
retry_after now w = max 1 ((w.reset_at - now + 999) / 1000)

unfoldable pub decision_on : ℕ → Window → RateLimitBudget → RateLimitDecision
decision_on now w budget = record {
  allowed = leb w.count budget.limit;
  limit = budget.limit;
  remaining = budget.limit - w.count;
  retry_after_seconds = retry_after now w;
}

-- The sweep of `current`.
unfoldable pub sweep : ℕ → Windows → Windows
sweep now windows =
    if ltb sweep_threshold (length windows)
    then keep (λ entry. is_live now entry.1) windows
    else windows

-- The window that `current` answers for a window found.
unfoldable pub window_or_new : ℕ → RateLimitBudget → Option Window → Window
window_or_new now budget none = record { count = 0; reset_at = now + budget.window_ms }
window_or_new now budget (some w) =
    if is_live now w then w else record { count = 0; reset_at = now + budget.window_ms }

-- `current`; the window goes into the map where it is new, and it is the same one where it is not.
unfoldable pub current : ℕ → String → RateLimitBudget → Windows → Window
unfolding sweep window_or_new
current now identity budget windows =
    window_or_new now budget (lookup string_discrete identity (sweep now windows))

abbrev pub counted : Window → Window
counted w = record w { count = w.count + 1 }

-- `hit`.
unfoldable pub hit : ℕ → ℕ → String → RateLimitBudget → Windows → RateLimitDecision × Windows
unfolding sweep current decision_on
hit now later identity budget windows =
    let w = counted (current now identity budget windows) in
    (decision_on later w budget, insert string_discrete identity w (sweep now windows))

-- `peek`.
unfoldable pub peek : ℕ → ℕ → String → RateLimitBudget → Windows → RateLimitDecision
unfolding decision_on
peek now later identity budget windows = elim (lookup string_discrete identity windows) [
  | none ↦ record {
    allowed = true;
    limit = budget.limit;
    remaining = budget.limit;
    retry_after_seconds = 0;
  }
  | some w ↦
      if not (is_live now w)
      then record {
        allowed = true;
        limit = budget.limit;
        remaining = budget.limit;
        retry_after_seconds = 0;
      }
      else decision_on later (counted w) budget
]

-- `reset`.
unfoldable pub reset : String → Windows → Windows
reset identity windows = delete string_discrete identity windows
