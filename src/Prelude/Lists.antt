-- ===== src/Prelude/Lists.antt =====
-- Lists measured by native numbers, under the library's names, and the sums of an amount over a list.
use Prim.Native.Nat.{ℕ, zero, suc, ◌+◌, ◌≤◌, ◌-◌}
use mathlib.Core.Bool.{Bool, true, false, ◌&&◌, ◌||◌}
use mathlib.Core.List.{List, [], ◌∷◌, ◌++◌}
use mathlib.Core.Option.{Option, none, some}
use mathlib.Core.Path.{◌≡◌, refl, ap, ◌∙◌}
use native.Mathlib.Omega.{arith}
use refract_backend.Prelude.Tests.{if◌then◌else◌}

module _ {ℓ} {A : Type ℓ} where
  abbrev pub length : List A → ℕ
  length [] = 0
  length (x ∷ xs) = suc (length xs)

  abbrev pub any : (A → Bool) → List A → Bool
  any p [] = false
  any p (x ∷ xs) = p x || any p xs

  abbrev pub all : (A → Bool) → List A → Bool
  all p [] = true
  all p (x ∷ xs) = p x && all p xs

  -- `Array.prototype.find`.
  abbrev pub find? : (A → Bool) → List A → Option A
  find? p [] = none
  find? p (x ∷ xs) = if p x then some x else find? p xs

  -- `Array.prototype.filter`.
  abbrev pub keep : (A → Bool) → List A → List A
  keep p [] = []
  keep p (x ∷ xs) = if p x then x ∷ keep p xs else keep p xs

  -- `reduce((sum, x) => sum + f(x), 0)`.
  abbrev pub sum_of : (A → ℕ) → List A → ℕ
  sum_of f [] = 0
  sum_of f (x ∷ xs) = f x + sum_of f xs

  -- A loop over the entries, with what it has found so far.
  abbrev pub fold : {B : Type 0} → (B → A → B) → B → List A → B
  fold step found [] = found
  fold step found (x ∷ xs) = fold step (step found x) xs

  abbrev pub take : ℕ → List A → List A
  take zero xs = []
  take (suc n) [] = []
  take (suc n) (x ∷ xs) = x ∷ take n xs

  abbrev pub drop : ℕ → List A → List A
  drop zero xs = xs
  drop (suc n) [] = []
  drop (suc n) (x ∷ xs) = drop n xs

module _ {ℓ} {A : Type ℓ} where
  pub length-append : (xs ys : List A) → length (xs ++ ys) ≡ length xs + length ys
  length-append [] ys = omega arith
  length-append (x ∷ xs) ys = omega (arith, length-append xs ys)

  pub sum_of-append : (f : A → ℕ) (xs ys : List A) → sum_of f (xs ++ ys) ≡ sum_of f xs + sum_of f ys
  sum_of-append f [] ys = omega arith
  sum_of-append f (x ∷ xs) ys = omega (arith, sum_of-append f xs ys)

  pub take-append-drop : (n : ℕ) (xs : List A) → take n xs ++ drop n xs ≡ xs
  take-append-drop zero xs = refl
  take-append-drop (suc n) [] = refl
  take-append-drop (suc n) (x ∷ xs) = ap (◌∷◌ x) (take-append-drop n xs)

  pub length-drop : (n : ℕ) (xs : List A) → length (drop n xs) ≡ length xs - n
  length-drop zero xs = omega arith
  length-drop (suc n) [] = omega arith
  length-drop (suc n) (x ∷ xs) = omega (arith, length-drop n xs)

  pub length-keep-le : (p : A → Bool) (xs : List A) → length (keep p xs) ≤ length xs
  length-keep-le p [] = omega arith
  length-keep-le p (x ∷ xs) = ground (arith, length-keep-le p xs)

module _ {ℓ κ} {A : Type ℓ} (P : A → Type κ) where
  -- A predicate of every entry; it computes to a tuple.
  abbrev pub All : List A → Type κ
  All [] = Unit
  All (x ∷ rest) = P x × All rest

-- A relation of every entry to every later one.
abbrev pub Pairwise : {A : Type 0} → (A → A → Type 0) → List A → Type 0
Pairwise R [] = Unit
Pairwise R (x ∷ xs) = All (R x) xs × Pairwise R xs

module _ {ℓ} {A : Type ℓ} where
  pub keep-append : (p : A → Bool) (xs ys : List A) → keep p (xs ++ ys) ≡ keep p xs ++ keep p ys
  keep-append p [] ys = refl
  keep-append p (x ∷ xs) ys = ground (arith, keep-append p xs ys)

  pub find?_holds : (p : A → Bool) (xs : List A) (x : A) → find? p xs ≡ some x → p x ≡ true
  find?_holds p [] x h = cc
  find?_holds p (y ∷ xs) x h = ground (arith, find?_holds p xs x)

  pub find?-append_some :
      (p : A → Bool) (xs ys : List A) (x : A) → find? p xs ≡ some x → find? p (xs ++ ys) ≡ some x
  find?-append_some p [] ys x h = cc
  find?-append_some p (y ∷ xs) ys x h = ground (arith, find?-append_some p xs ys x)

  pub find?-append_none :
      (p : A → Bool) (xs ys : List A) → find? p xs ≡ none → find? p (xs ++ ys) ≡ find? p ys
  find?-append_none p [] ys h = refl
  find?-append_none p (y ∷ xs) ys h = ground (arith, find?-append_none p xs ys)

  pub fold-append :
      {B : Type 0} (step : B → A → B) (found : B) (xs ys : List A)
      → fold step found (xs ++ ys) ≡ fold step (fold step found xs) ys
  fold-append step found [] ys = refl
  fold-append step found (x ∷ xs) ys = fold-append step (step found x) xs ys

-- The insertion of the stable `Array.sort`: an earlier entry stays before the later ones that are
-- equal; `before` is strict.
abbrev pub insert_sorted : {A : Type 0} → (A → A → Bool) → A → List A → List A
insert_sorted before x [] = x ∷ []
insert_sorted before x (y ∷ ys) =
    let rest = insert_sorted before x ys in if before y x then y ∷ rest else x ∷ y ∷ ys

abbrev pub sort_by : {A : Type 0} → (A → A → Bool) → List A → List A
sort_by before [] = []
sort_by before (x ∷ xs) = insert_sorted before x (sort_by before xs)

pub any-insert_sorted :
    {A : Type 0} (p : A → Bool) (before : A → A → Bool) (x : A) (xs : List A)
    → any p (insert_sorted before x xs) ≡ p x || any p xs
any-insert_sorted p before x [] = refl
any-insert_sorted p before x (y ∷ ys) = ground (arith, any-insert_sorted p before x ys)

-- A sort keeps what it sorts.
pub any-sort_by :
    {A : Type 0} (p : A → Bool) (before : A → A → Bool) (xs : List A)
    → any p (sort_by before xs) ≡ any p xs
any-sort_by p before [] = refl
any-sort_by p before (x ∷ xs) =
    ground (arith, any-insert_sorted p before x (sort_by before xs), any-sort_by p before xs)

pub length-sort_by :
    {A : Type 0} (before : A → A → Bool) (xs : List A) → length (sort_by before xs) ≡ length xs
length-sort_by before [] = refl
length-sort_by before (x ∷ xs) =
    length-insert_sorted x (sort_by before xs) ∙ ap suc (length-sort_by before xs)
  where
    length-insert_sorted :
        (y : _) (ys : List _) → length (insert_sorted before y ys) ≡ suc (length ys)
    length-insert_sorted y [] = refl
    length-insert_sorted y (z ∷ zs) = ground (arith, length-insert_sorted y zs)
