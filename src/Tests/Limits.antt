-- ===== src/Tests/Limits.antt =====
-- src/oracle/admin/actor-rate-limiter.ts at concrete inputs.
use text.Mathlib.TextEquality.{eq_iff}
use refract_backend.Prelude.{ℕ, [], ◌∷◌, ◌+◌, min, length, some, ◌≡◌, refl, arith, string_discrete}
use refract_backend.Prelude.Dict.{lookup}
use refract_backend.Limits.{RateLimitBudget, Window, Windows, hit, peek}
use refract_backend.Limits.Budget.{hit_others, allowed_hits, allowed_hits-min, peek-hit}

abbrev budget : RateLimitBudget
budget = record { limit = 2; window_ms = 60 }

abbrev open_window : Window
open_window = record { count = 2; reset_at = 100 }

abbrev windows : Windows
windows = ("alice", open_window) ∷ []

hit_others_example :
    lookup string_discrete "alice" (hit 50 50 "bob" budget windows).1 ≡ some open_window
unfolding string_discrete
hit_others_example =
    hit_others 50 50 "bob" "alice" budget windows open_window refl (omega arith)
      (ground (arith, eq_iff "bob" "alice"))

allowed_hits-min_example :
    allowed_hits "bob" budget (10 ∷ 20 ∷ 30 ∷ []) [] ≡ min 2 (length {A = ℕ} (20 ∷ 30 ∷ []) + 1)
allowed_hits-min_example =
    allowed_hits-min "bob" budget 10 (20 ∷ 30 ∷ []) [] refl (omega arith, (omega arith, tt))

peek-hit_example : peek 50 51 "alice" budget windows ≡ (hit 50 51 "alice" budget windows).0
unfolding string_discrete
peek-hit_example = peek-hit 50 51 "alice" budget windows open_window refl (omega arith)
