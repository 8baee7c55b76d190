-- ===== src/Pages/Sorted.antt =====
-- Lists in a strict order: what sorting makes of distinct entries, and what is left after one.
use refract_backend.Prelude.{
  ap, length, keep, sort_by, take, Pairwise, drop, All, ◌++◌, ◌∷◌, [], List, some, false, true,
  Bool, ◌∙◌, refl, ◌≡◌, ◌≤◌, suc, zero, if_intro, ℕ, arith,
}
use refract_backend.Prelude.Lists.{insert_sorted}
use refract_backend.Pages.{last?}

module _ {A : Type 0} (before : A → A → Bool) where
  abbrev pub Ordered : List A → Type 0
  Ordered [] = Unit
  Ordered (x ∷ xs) = All (λ y. before x y ≡ true) xs × Ordered xs

  pub All-insert_sorted :
      (P : A → Type 0) (x : A) (xs : List A) → P x → All P xs → All P (insert_sorted before x xs)
  All-insert_sorted P x [] p h = (p, tt)
  All-insert_sorted P x (y ∷ ys) p h =
      if_intro (All P) (before y x) (λ _. (h.0, All-insert_sorted P x ys p h.1)) (λ _. (p, h))

  pub keep-insert_sorted :
      (p : A → Bool) (x : A) (xs : List A)
      → p x ≡ false
      → keep p (insert_sorted before x xs) ≡ keep p xs
  keep-insert_sorted p x [] h = ground arith
  keep-insert_sorted p x (y ∷ ys) h = ground (arith, keep-insert_sorted p x ys h)

  -- A filter does not see rows that it refuses.
  pub keep-sort_by-append :
      (p : A → Bool) (xs ys : List A)
      → All (λ x. p x ≡ false) xs
      → keep p (sort_by before (xs ++ ys)) ≡ keep p (sort_by before ys)
  keep-sort_by-append p [] ys h = refl
  keep-sort_by-append p (x ∷ xs) ys (refused, h) =
      keep-insert_sorted p x (sort_by before (xs ++ ys)) refused ∙ keep-sort_by-append p xs ys h

pub All-sort_by :
    {A : Type 0} (before : A → A → Bool) (P : A → Type 0) (xs : List A)
    → All P xs
    → All P (sort_by before xs)
All-sort_by before P [] h = tt
All-sort_by before P (x ∷ xs) (p, h) =
    All-insert_sorted before P x (sort_by before xs) p (All-sort_by before P xs h)

pub All-imp :
    {A : Type 0} {P Q : A → Type 0} (xs : List A) → ((x : A) → P x → Q x) → All P xs → All Q xs
All-imp [] f h = tt
All-imp (x ∷ xs) f (p, h) = (f x p, All-imp xs f h)

pub Pairwise-imp :
    {A : Type 0} {R S : A → A → Type 0} (xs : List A)
    → ((x y : A) → R x y → S x y)
    → Pairwise R xs
    → Pairwise S xs
Pairwise-imp [] f h = tt
Pairwise-imp (x ∷ xs) f (r, h) = (All-imp xs (f x) r, Pairwise-imp xs f h)

pub All-keep : {A : Type 0} (p : A → Bool) (xs : List A) → All (λ x. p x ≡ true) (keep p xs)
All-keep p [] = tt
All-keep p (x ∷ xs) =
    if_intro (All (λ y. p y ≡ true)) (p x) (λ e. (e, All-keep p xs)) (λ _. All-keep p xs)

pub keep-All : {A : Type 0} (p : A → Bool) (xs : List A) → All (λ x. p x ≡ true) xs → keep p xs ≡ xs
keep-All p [] h = refl
keep-All p (x ∷ xs) (e, h) = ground (arith, keep-All p xs h)

-- A narrower filter needs no wider one before it.
pub keep-keep :
    {A : Type 0} (p q : A → Bool) (xs : List A)
    → ((x : A) → p x ≡ true → q x ≡ true)
    → keep p (keep q xs) ≡ keep p xs
keep-keep p q [] f = refl
keep-keep p q (x ∷ xs) f = ground (arith, keep-keep p q xs f, f x)

last?-cons :
    {A : Type 0} (y : A) (xs : List A) (x : A) → last? xs ≡ some x → last? (y ∷ xs) ≡ some x
last?-cons y [] x h = cc
last?-cons y (z ∷ zs) x h = h

module _ {A : Type 0} (before : A → A → Bool) (irrefl : (x : A) → before x x ≡ false)
    (trans : (x y z : A) → before x y ≡ true → before y z ≡ true → before x z ≡ true) where
  -- The last of the first `suc n` entries, and the entries that it comes before.
  pub cut :
      (n : ℕ) (xs : List A)
      → Ordered before xs
      → suc n ≤ length xs
      → (x : A) × (last? (take (suc n) xs) ≡ some x)
        × (keep (before x) xs ≡ drop (suc n) xs)
        × (((P : A → Type 0) → All P xs → P x) × All (λ y. before x y ≡ true) (drop (suc n) xs))
  cut n [] ordered h = absurd (omega arith)
  cut zero (y ∷ ys) (first, ordered) h =
      (y, refl, ground (arith, irrefl y, keep-All (before y) ys first), ((λ P all. all.0), first))
  cut (suc n) (y ∷ ys) (first, ordered) h =
      let (x, last, kept, (among, after)) = cut n ys ordered (omega arith) in
      let not_first : before x y ≡ false =
        ground (arith, among (λ z. before y z ≡ true) first, trans x y x, irrefl x) in
      (x, last?-cons y (take (suc n) ys) x last, ground arith, ((λ P all. among P all.1), after))

  pub cut_at :
      (n : ℕ) (xs : List A)
      → 1 ≤ n
      → Ordered before xs
      → n ≤ length xs
      → (x : A) × (last? (take n xs) ≡ some x)
        × (keep (before x) xs ≡ drop n xs)
        × (((P : A → Type 0) → All P xs → P x) × All (λ y. before x y ≡ true) (drop n xs))
  cut_at zero xs positive ordered h = absurd (omega arith)
  cut_at (suc n) xs positive ordered h = cut n xs ordered h

  Ordered-insert_sorted :
      (x : A) (xs : List A)
      → All (λ y. before x y ≡ false → before y x ≡ true) xs
      → Ordered before xs
      → Ordered before (insert_sorted before x xs)
  Ordered-insert_sorted x [] h ordered = (tt, tt)
  Ordered-insert_sorted x (y ∷ ys) (either, h) (first, ordered) =
      if_intro (Ordered before) (before y x)
        (λ e. (
          All-insert_sorted before (λ z. before y z ≡ true) x ys e first,
          Ordered-insert_sorted x ys h ordered,
        ))
        (λ e.
          let goes_first : before x y ≡ true = ground arith in
          ((goes_first, All-imp ys (λ z h. trans x y z goes_first h) first), (first, ordered)))

  pub Ordered-sort_by :
      (xs : List A)
      → Pairwise (λ x y. before x y ≡ false → before y x ≡ true) xs
      → Ordered before (sort_by before xs)
  Ordered-sort_by [] h = tt
  Ordered-sort_by (x ∷ xs) (h, k) =
      Ordered-insert_sorted x (sort_by before xs)
        (All-sort_by before (λ y. before x y ≡ false → before y x ≡ true) xs h)
        (Ordered-sort_by xs k)

pub Ordered-drop :
    {A : Type 0} (before : A → A → Bool) (n : ℕ) (xs : List A)
    → Ordered before xs
    → Ordered before (drop n xs)
Ordered-drop before zero xs h = h
Ordered-drop before (suc n) [] h = tt
Ordered-drop before (suc n) (x ∷ xs) h = Ordered-drop before n xs h.1

pub All-drop : {A : Type 0} (P : A → Type 0) (n : ℕ) (xs : List A) → All P xs → All P (drop n xs)
All-drop P zero xs h = h
All-drop P (suc n) [] h = tt
All-drop P (suc n) (x ∷ xs) h = All-drop P n xs h.1

pub take_all : {A : Type 0} (n : ℕ) (xs : List A) → length xs ≤ n → take n xs ≡ xs
take_all zero [] h = refl
take_all zero (x ∷ xs) h = absurd (omega arith)
take_all (suc n) [] h = refl
take_all (suc n) (x ∷ xs) h = ap (◌∷◌ x) (take_all n xs (omega arith))
