-- ===== src/Tests/Pages.antt =====
-- src/common/pagination.ts at concrete inputs: a cursor is the value itself.
use refract_backend.Prelude.{sum_of, ◌≢◌, ap, ok, ◌∷◌, [], List, some, none, refl, ◌≡◌, ℕ, arith}
use refract_backend.Pages.Walk.{walk, walk-sort_by}
use refract_backend.Pages.{PageKey, compare_desc}

abbrev row : ℕ → ℕ → PageKey
row at id = record { at = at; id = id ∷ [] }

abbrev stored : List PageKey
stored = row 10 97 ∷ row 30 97 ∷ row 30 98 ∷ row 20 97 ∷ []

other_time : (j k : PageKey) → j.at ≢ k.at → j ≢ k
other_time j k differ e = differ (ap (λ (l : PageKey). l.at) e)

other_id : (j k : PageKey) → sum_of (λ n. n) j.id ≢ sum_of (λ n. n) k.id → j ≢ k
other_id j k differ e = differ (ap (λ (l : PageKey). sum_of (λ n. n) l.id) e)

walk-sort_by_example :
    walk (λ j. j) some (λ k. k) 2 5 ((row 40 97 ∷ row 31 98 ∷ []) ∷ []) stored none
    ≡ ok (row 30 98 ∷ row 30 97 ∷ row 20 97 ∷ row 10 97 ∷ [])
unfolding compare_desc
walk-sort_by_example =
    walk-sort_by (λ j. j) some (λ k. refl) (λ k. k) 2 (omega arith) 5
      ((row 40 97 ∷ row 31 98 ∷ []) ∷ []) stored
      (
        (
          other_time _ _ (λ e. absurd (omega arith)),
          (
            other_time _ _ (λ e. absurd (omega arith)),
            (other_time _ _ (λ e. absurd (omega arith)), tt),
          ),
        ),
        (
          (
            other_id _ _ (λ e. absurd (omega arith)),
            (other_time _ _ (λ e. absurd (omega arith)), tt),
          ),
          ((other_time _ _ (λ e. absurd (omega arith)), tt), (tt, tt)),
        ),
      )
      (((refl, (refl, (refl, (refl, tt)))), ((refl, (refl, (refl, (refl, tt)))), tt)), tt)
      (omega arith)
