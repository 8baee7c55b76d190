-- ===== src/Prelude/Results.antt =====
-- What a handler answers: a value, or the exception that it throws.
use mathlib.Core.Bool.{Bool, true, false}
use mathlib.Core.Logic.{◌⊎◌, inl, inr}
use mathlib.Core.Option.{Option, none, some}
use mathlib.Core.Path.{◌≡◌, refl, ap}
use native.Mathlib.Omega.{arith}

pub data Result (E A : Type 0) : Type 0 where
  ok : A → Result E A
  err : E → Result E A

infixl 5 ◌>>=◌ ◌>>◌
abbrev pub ◌>>=◌ : {E A B : Type 0} → Result E A → (A → Result E B) → Result E B
m >>= next = elim m [ err e ↦ err e | ok a ↦ next a ]

abbrev pub ◌>>◌ : {E B : Type 0} → Result E (Unit {0}) → Result E B → Result E B
err e >> next = err e
ok checked >> next = next

module _ {E : Type 0} where
  -- `if (!allowed) throw e`.
  abbrev pub guard : Bool → E → Result E (Unit {0})
  guard allowed e = elim allowed [ true ↦ ok tt | false ↦ err e ]

  -- `if (found === undefined) throw e`.
  abbrev pub or_fail : {A : Type 0} → Option A → E → Result E A
  or_fail found e = elim found [ none ↦ err e | some a ↦ ok a ]

pub Result-cases :
    {E A : Type 0} (r : Result E A) → ((a : A) × (r ≡ ok a)) ⊎ ((e : E) × (r ≡ err e))
Result-cases (ok a) = inl (a, refl)
Result-cases (err e) = inr (e, refl)

-- A chain that answers went through each of its steps.
pub bind_ok :
    {E A B : Type 0} (m : Result E A) (next : A → Result E B) {b : B}
    → (m >>= next) ≡ ok b
    → (a : A) × (m ≡ ok a) × (next a ≡ ok b)
bind_ok (ok a) next h = (a, refl, h)
bind_ok (err e) next h = absurd (ground arith)

pub checked_ok :
    {E B : Type 0} (allowed : Bool) (e : E) (next : Result E B) {b : B}
    → (guard allowed e >> next) ≡ ok b
    → (allowed ≡ true) × (next ≡ ok b)
checked_ok true e next h = (refl, h)
checked_ok false e next h = absurd (ground arith)

-- Equal answers are of equal values.
abbrev or_else : {E A : Type 0} → A → Result E A → A
or_else a (ok b) = b
or_else a (err e) = a

pub ok_inj : {E A : Type 0} {a b : A} → ◌≡◌ {A = Result E A} (ok a) (ok b) → a ≡ b
ok_inj {a = a} h = ap (or_else a) h

pub then_ok :
    {E B : Type 0} (m : Result E (Unit {0})) (next : Result E B) {b : B}
    → (m >> next) ≡ ok b
    → (m ≡ ok tt) × (next ≡ ok b)
then_ok (ok tt) next h = (refl, h)
then_ok (err e) next h = absurd (ground arith)

pub guard_refused :
    {E B : Type 0} (allowed : Bool) (e : E) (next : Result E B)
    → allowed ≡ false
    → (guard allowed e >> next) ≡ err e
guard_refused true e next h = absurd (ground arith)
guard_refused false e next h = refl
