-- ===== src/Prelude/Tests.antt =====
-- Boolean tests on the native numbers, decisions on texts, and case splits that keep an equation.
use Prim.Native.Nat.{ℕ, compare, Ordering, ◌<◌, ◌≤◌}
use Prim.Native.String.{String}
use mathlib.Core.Bool.{Bool, true, false, false≢true}
use mathlib.Core.Logic.{ite, ◌≢◌, ◌⊎◌, inl, inr, ◌↔◌}
use mathlib.Core.Option.{Option, none, some}
use mathlib.Core.Path.{◌≡◌, refl, sym}
use native.Mathlib.Omega.{arith}
use text.Mathlib.Text.{◌==◌ as str_eq}
use text.Mathlib.TextEquality.{eq_iff}

abbrev pub ltb : ℕ → ℕ → Bool
ltb a b = elim (compare a b) [ Ordering.lt ↦ true | _ ↦ false ]

abbrev pub leb : ℕ → ℕ → Bool
leb a b = elim (compare a b) [ Ordering.gt ↦ false | _ ↦ true ]

infix 50 ◌==◌
abbrev pub ◌==◌ : ℕ → ℕ → Bool
a == b = elim (compare a b) [ Ordering.eq ↦ true | _ ↦ false ]

infix 1 if◌then◌else◌
abbrev pub if◌then◌else◌ {ℓ} : {A : Type ℓ} → Bool → A → A → A
if true then x else y = x
if false then x else y = y

pub ltb→lt : (a b : ℕ) → ltb a b ≡ true → a < b
ltb→lt a b h = ground arith

pub ltb→le : (a b : ℕ) → ltb a b ≡ false → b ≤ a
ltb→le a b h = ground arith

pub leb→le : (a b : ℕ) → leb a b ≡ true → a ≤ b
leb→le a b h = ground arith

pub Bool-cases : (b : Bool) → (b ≡ true) ⊎ (b ≡ false)
Bool-cases true = inl refl
Bool-cases false = inr refl

pub Option-cases {ℓ} : {A : Type ℓ} (o : Option A) → (o ≡ none) ⊎ ((a : A) × (o ≡ some a))
Option-cases none = inl refl
Option-cases (some a) = inr (a, refl)

-- A Boolean test that reflects a proposition decides it.
abbrev dec_of_iff {ℓ} : {P : Type ℓ} (b : Bool) → (b ≡ true) ↔ P → Dec P
dec_of_iff true h = yes (h.0 refl)
dec_of_iff false h = no (λ p. false≢true (h.1 p))

-- Equality of texts, which runs at literals.
unfoldable pub string_discrete : Discrete String
string_discrete a b = dec_of_iff (str_eq a b) (eq_iff a b)

abbrev pub same : String → String → Bool
same a b = ite (string_discrete a b) true false

pub same→eq : (a b : String) → same a b ≡ true → a ≡ b
same→eq a b h = elim (string_discrete a b) [ yes e ↦ e | no n ↦ absurd (ground arith) ]

pub same→ne : (a b : String) → same a b ≡ false → a ≢ b
same→ne a b h e = ground arith

pub same_refl : (a : String) → same a a ≡ true
same_refl a = elim (string_discrete a a) [ yes e ↦ ground arith | no n ↦ absurd (n refl) ]

pub same-comm_false : (a b : String) → same a b ≡ false → same b a ≡ false
same-comm_false a b h = elim (Bool-cases (same b a)) [
  | inl e ↦ absurd (same→ne a b h (sym (same→eq b a e)))
  | inr e ↦ e
]

-- What holds of both branches under their tests holds of the choice.
pub if_intro {ℓ κ} :
    {A : Type ℓ} (P : A → Type κ) (b : Bool) {x y : A}
    → (b ≡ true → P x)
    → (b ≡ false → P y)
    → P (if b then x else y)
if_intro P true h k = h refl
if_intro P false h k = k refl

-- The same for a choice that computes only the branch that is taken.
pub elim_intro {ℓ κ} :
    {A : Type ℓ} (P : A → Type κ) (b : Bool) {x y : A}
    → (b ≡ true → P x)
    → (b ≡ false → P y)
    → P (elim b [ true ↦ x | false ↦ y ])
elim_intro P true h k = h refl
elim_intro P false h k = k refl
