-- ===== src/Pages/Order.antt =====
-- `compareDesc` is a strict total order of the keys, newest first.
use refract_backend.Prelude.{
  inr, inl, Bool-cases, ◌∷◌, [], List, false, true, ◌≢◌, ap₂, refl, ◌≡◌, ℕ, arith,
}
use refract_backend.Pages.{compare_desc, comes_first, PageKey, text_lt}

text_lt_irrefl : (s : List ℕ) → text_lt s s ≡ false
text_lt_irrefl [] = refl
text_lt_irrefl (c ∷ cs) = ground (arith, text_lt_irrefl cs)

text_lt_trans : (r s t : List ℕ) → text_lt r s ≡ true → text_lt s t ≡ true → text_lt r t ≡ true
text_lt_trans [] [] t h k = absurd (ground arith)
text_lt_trans [] (d ∷ s) [] h k = absurd (ground arith)
text_lt_trans [] (d ∷ s) (e ∷ t) h k = refl
text_lt_trans (c ∷ r) [] t h k = absurd (ground arith)
text_lt_trans (c ∷ r) (d ∷ s) [] h k = absurd (ground arith)
text_lt_trans (c ∷ r) (d ∷ s) (e ∷ t) h k = ground (arith, text_lt_trans r s t)

text_lt_total : (s t : List ℕ) → text_lt s t ≡ false → text_lt t s ≡ false → s ≡ t
text_lt_total [] [] h k = refl
text_lt_total [] (d ∷ t) h k = absurd (ground arith)
text_lt_total (c ∷ s) [] h k = absurd (ground arith)
text_lt_total (c ∷ s) (d ∷ t) h k =
    ap₂ ◌∷◌ (ground arith) (text_lt_total s t (ground arith) (ground arith))

text_lt_asym : (s t : List ℕ) → text_lt s t ≡ true → text_lt t s ≡ false
text_lt_asym s t h = ground (arith, text_lt_trans s t s h, text_lt_irrefl s)

pub comes_first_irrefl : (k : PageKey) → comes_first k k ≡ false
unfolding compare_desc
comes_first_irrefl k = ground (arith, text_lt_irrefl k.id)

pub comes_first_trans :
    (j k l : PageKey) → comes_first j k ≡ true → comes_first k l ≡ true → comes_first j l ≡ true
unfolding compare_desc
comes_first_trans j k l h h' = ground (arith, text_lt_trans l.id k.id j.id, text_lt_asym l.id j.id)

same_key : (j k : PageKey) → j.at ≡ k.at → j.id ≡ k.id → j ≡ k
same_key j k times ids = λ i. record { at = times i; id = ids i }

unordered :
    (j k : PageKey)
    → comes_first j k ≡ false
    → comes_first k j ≡ false
    → (j.at ≡ k.at) × (text_lt j.id k.id ≡ false) × (text_lt k.id j.id ≡ false)
unfolding compare_desc
unordered j k h h' = ground (arith, text_lt_asym j.id k.id, text_lt_asym k.id j.id)

pub comes_first_total : (j k : PageKey) → j ≢ k → comes_first j k ≡ false → comes_first k j ≡ true
comes_first_total j k differ h = elim (Bool-cases (comes_first k j)) [
  | inl first ↦ first
  | inr neither ↦
      let (times, less, more) = unordered j k h neither in
      absurd (differ (same_key j k times (text_lt_total j.id k.id less more)))
]
