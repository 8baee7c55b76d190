-- ===== src/Staking/Funds.antt =====
-- Where a slash is taken from, src/services/staking.ts: the updates that `executeProposal` sends one
-- by one amount to one pass over the table, which takes from the lots exactly what was allocated.
use refract_backend.Prelude.{
  ℕ, zero, suc, ◌+◌, ◌-◌, ◌≤◌, min, ◌≡◌, refl, sym, ap, subst, ◌∙◌, inl, inr, ◌≢◌, String, true,
  false, Option, none, some, List, [], ◌∷◌, map, arith, ltb, if◌then◌else◌, string_discrete, keep,
  sum_of, All, Bool-cases, Option-cases,
}
use refract_backend.Prelude.Dict.{Dict, lookup, insert, lookup-insert_self, lookup-insert_ne}
use refract_backend.Staking.{UnbondRow}
use refract_backend.Staking.Slash.{UnbondingLot, allocate_lots, allocate_lots_other}
use refract_backend.Staking.Bonds.{is_lot_of}
use refract_backend.Staking.Review.{lot_of, set_lot, pay_lot, pay_lots}

-- `id` is the primary key of `unbond_requests`.
abbrev pub HasUniqueIds : List UnbondRow → Type 0
HasUniqueIds [] = Unit {0}
HasUniqueIds (row ∷ rows) = All (λ r. r.id ≢ row.id) rows × HasUniqueIds rows

-- The lots of an operator, in the order of their requests.
abbrev pub lots_of : String → List UnbondRow → List UnbondingLot
lots_of operator_id rows = map lot_of (keep (is_lot_of operator_id) rows)

-- What the unbonding lots of an operator hold.
abbrev pub unbonding_total : String → List UnbondRow → ℕ
unbonding_total operator_id rows = sum_of (λ row. row.amount) (keep (is_lot_of operator_id) rows)

settle_taken : UnbondRow → Option ℕ → UnbondRow
settle_taken row none = row
settle_taken row (some taken) = set_lot row.id (row.amount - taken) row

-- What the slash leaves of a row.
pub settled : String → Dict String ℕ → UnbondRow → UnbondRow
unfolding settle_taken
settled operator_id from_unbonding row =
    if is_lot_of operator_id row
    then settle_taken row (lookup string_discrete row.id from_unbonding)
    else row

map-set_lot_absent :
    (id : String) (amount : ℕ) (rows : List UnbondRow)
    → All (λ r. r.id ≢ id) rows
    → map (set_lot id amount) rows ≡ rows
unfolding set_lot
map-set_lot_absent id amount [] h = refl
map-set_lot_absent id amount (row ∷ rows) h = ground (arith, map-set_lot_absent id amount rows h.1)

lots_of_absent :
    (operator_id id : String) (rows : List UnbondRow)
    → All (λ r. r.id ≢ id) rows
    → All (λ lot. lot.id ≢ id) (lots_of operator_id rows)
lots_of_absent operator_id id [] h = tt
lots_of_absent operator_id id (row ∷ rows) h =
    ground (arith, lots_of_absent operator_id id rows h.1)

pay_lot_other :
    (m : Dict String ℕ) (lot : UnbondingLot) (row : UnbondRow) (rows : List UnbondRow)
    → lot.id ≢ row.id
    → pay_lot m lot (row ∷ rows) ≡ row ∷ pay_lot m lot rows
unfolding pay_lot
pay_lot_other m lot row rows h = ground arith

pay_lot_head :
    (m : Dict String ℕ) (row : UnbondRow) (rows : List UnbondRow)
    → All (λ r. r.id ≢ row.id) rows
    → pay_lot m (lot_of row) (row ∷ rows)
      ≡ settle_taken row (lookup string_discrete row.id m) ∷ rows
unfolding pay_lot settle_taken
pay_lot_head m row rows h = elim (Option-cases (lookup string_discrete row.id m)) [
  | inl e ↦ rw (e, pay_lot, settle_taken)
  | inr (taken, e) ↦
      rw (e, pay_lot, settle_taken)
        (ap (◌∷◌ (set_lot row.id (row.amount - taken) row))
          (map-set_lot_absent row.id (row.amount - taken) rows h))
]

pay_lots_head :
    (m : Dict String ℕ) (lots : List UnbondingLot) (row : UnbondRow) (rows : List UnbondRow)
    → All (λ lot. lot.id ≢ row.id) lots
    → pay_lots m lots (row ∷ rows) ≡ row ∷ pay_lots m lots rows
unfolding pay_lots
pay_lots_head m [] row rows h = refl
pay_lots_head m (lot ∷ lots) row rows h =
    rw (pay_lot_other m lot row rows h.0) (pay_lots_head m lots row (pay_lot m lot rows) h.1)

settle_taken_id : (row : UnbondRow) (o : Option ℕ) → (settle_taken row o).id ≡ row.id
unfolding settle_taken set_lot
settle_taken_id row none = refl
settle_taken_id row (some taken) = ground arith

pay_lots_first :
    (m : Dict String ℕ) (lots : List UnbondingLot) (row : UnbondRow) (rows : List UnbondRow)
    → All (λ r. r.id ≢ row.id) rows
    → All (λ lot. lot.id ≢ row.id) lots
    → pay_lots m (lot_of row ∷ lots) (row ∷ rows)
      ≡ settle_taken row (lookup string_discrete row.id m) ∷ pay_lots m lots rows
unfolding pay_lots
pay_lots_first m lots row rows h k = rw (pay_lot_head m row rows h) (
    pay_lots_head m lots (settle_taken row (lookup string_discrete row.id m)) rows
      (rw (settle_taken_id row (lookup string_discrete row.id m)) k))

-- With unique lot ids, the updates that an execution sends lot by lot to the table amount to one
-- pass that settles each row of the operator on its own.
pub pay_lots-settled :
    (operator_id : String) (m : Dict String ℕ) (rows : List UnbondRow)
    → HasUniqueIds rows
    → pay_lots m (lots_of operator_id rows) rows ≡ map (settled operator_id m) rows
unfolding settled pay_lots
pay_lots-settled operator_id m [] u = refl
pay_lots-settled operator_id m (row ∷ rows) u = ground (
  arith,
  pay_lots-settled operator_id m rows u.1,
  pay_lots_first m (lots_of operator_id rows) row rows u.0
      (lots_of_absent operator_id row.id rows u.0),
  pay_lots_head m (lots_of operator_id rows) row rows (lots_of_absent operator_id row.id rows u.0),
)

allocate_lots_zero :
    (m : Dict String ℕ) (lots : List UnbondingLot) → allocate_lots 0 m lots ≡ (0, m)
unfolding allocate_lots
allocate_lots_zero m [] = refl
allocate_lots_zero m (lot ∷ lots) = refl

-- One row's share: it loses what is left of the slash, or all that it has.
settled_total :
    (operator_id : String) (m : Dict String ℕ) (row : UnbondRow) (rows : List UnbondRow) (taken : ℕ)
    → is_lot_of operator_id row ≡ true
    → lookup string_discrete row.id m ≡ (if ltb 0 taken then some taken else none)
    → taken ≤ row.amount
    → unbonding_total operator_id (settled operator_id m row ∷ rows) + taken
      ≡ row.amount + unbonding_total operator_id rows
unfolding settled settle_taken set_lot is_lot_of
settled_total operator_id m row rows taken mine found fits = ground arith

-- The map after a lot has given its part.
abbrev with_lot : Dict String ℕ → String → ℕ → Dict String ℕ
with_lot m id taken = if ltb 0 taken then insert string_discrete id taken m else m

allocate_lots-cons :
    (remaining : ℕ) (m : Dict String ℕ) (lot : UnbondingLot) (lots : List UnbondingLot)
    → (allocate_lots remaining m (lot ∷ lots)).1
      ≡ (allocate_lots
          (remaining - min lot.amount remaining)
          (with_lot m lot.id (min lot.amount remaining))
          lots).1
unfolding allocate_lots
allocate_lots-cons zero m lot lots = ground (arith, allocate_lots_zero m lots)
allocate_lots-cons (suc remaining) m lot lots = ground arith

with_lot_fresh :
    (m : Dict String ℕ) (id : String) (taken : ℕ) (rows : List UnbondRow)
    → All (λ r. r.id ≢ id) rows
    → All (λ r. lookup string_discrete r.id m ≡ none) rows
    → All (λ r. lookup string_discrete r.id (with_lot m id taken) ≡ none) rows
with_lot_fresh m id taken [] h k = tt
with_lot_fresh m id taken (row ∷ rows) h k = ground (
  arith,
  with_lot_fresh m id taken rows h.1 k.1,
  lookup-insert_ne string_discrete id row.id taken m (λ e. h.0 (sym e)),
)

with_lot_self :
    (m : Dict String ℕ) (id : String) (taken : ℕ)
    → lookup string_discrete id m ≡ none
    → lookup string_discrete id (with_lot m id taken) ≡ (if ltb 0 taken then some taken else none)
with_lot_self m id taken h = ground (arith, lookup-insert_self string_discrete id taken m)

add-min : (a rem t : ℕ) → min rem (a + t) ≡ min a rem + min (rem - min a rem) t
add-min a rem t = omega arith

-- What the operator's lots hold is conserved by a pass that takes `remaining` of them.
abbrev Conserves : String → ℕ → List UnbondRow → Dict String ℕ → Type 0
Conserves operator_id remaining rows from_unbonding =
    unbonding_total operator_id (map (settled operator_id from_unbonding) rows)
      + min remaining (unbonding_total operator_id rows)
    ≡ unbonding_total operator_id rows

settled_other :
    (operator_id : String) (remaining : ℕ) (row : UnbondRow) (rows : List UnbondRow)
    (final : Dict String ℕ)
    → is_lot_of operator_id row ≡ false
    → Conserves operator_id remaining rows final
    → Conserves operator_id remaining (row ∷ rows) final
unfolding settled
settled_other operator_id remaining row rows final other ih = ground arith

settled_lot :
    (operator_id : String) (remaining : ℕ) (row : UnbondRow) (rows : List UnbondRow)
    (final : Dict String ℕ)
    → is_lot_of operator_id row ≡ true
    → lookup string_discrete row.id final
      ≡ (if ltb 0 (min row.amount remaining) then some (min row.amount remaining) else none)
    → Conserves operator_id (remaining - min row.amount remaining) rows final
    → Conserves operator_id remaining (row ∷ rows) final
settled_lot operator_id remaining row rows final mine found ih = rw mine (
    omega (
      arith,
      settled_total operator_id final row (map (settled operator_id final) rows)
          (min row.amount remaining) mine found (omega arith),
      add-min row.amount remaining (unbonding_total operator_id rows),
      ih,
    ))

lots_of-cons :
    (operator_id : String) (row : UnbondRow) (rows : List UnbondRow)
    → lots_of operator_id (row ∷ rows) ≡ (
        if is_lot_of operator_id row
        then lot_of row ∷ lots_of operator_id rows
        else lots_of operator_id rows)
lots_of-cons operator_id row rows = ground arith

-- The pass over an operator's lots takes the slash from them, or all that they hold.
pub unbonding_total-settled :
    (operator_id : String) (remaining : ℕ) (m : Dict String ℕ) (rows : List UnbondRow)
    → HasUniqueIds rows
    → All (λ r. lookup string_discrete r.id m ≡ none) rows
    → Conserves operator_id remaining rows (allocate_lots remaining m (lots_of operator_id rows)).1
unbonding_total-settled operator_id remaining m [] u fresh = omega arith
unbonding_total-settled operator_id remaining m (row ∷ rows) u fresh =
    let taken = min row.amount remaining in
    let m' = with_lot m row.id taken in
    let lots = lots_of operator_id rows in
    let ih =
      unbonding_total-settled operator_id (remaining - taken) m' rows u.1
        (with_lot_fresh m row.id taken rows u.0 fresh.1) in
    let skipped = unbonding_total-settled operator_id remaining m rows u.1 fresh.1 in
    elim (Bool-cases (is_lot_of operator_id row)) [
      | inl mine ↦
          subst (Conserves operator_id remaining (row ∷ rows))
            (sym (
              ap (λ l. (allocate_lots remaining m l).1)
                (lots_of-cons operator_id row rows ∙ rw mine refl)
              ∙ allocate_lots-cons remaining m (lot_of row) lots))
            (settled_lot operator_id remaining row rows _ mine
              (allocate_lots_other (remaining - taken) m' lots row.id
                  (lots_of_absent operator_id row.id rows u.0)
                ∙ with_lot_self m row.id taken fresh.0)
              ih)
      | inr other ↦
          subst (Conserves operator_id remaining (row ∷ rows))
            (sym (
              ap (λ l. (allocate_lots remaining m l).1)
                (lots_of-cons operator_id row rows ∙ rw other refl)))
            (settled_other operator_id remaining row rows _ other skipped)
    ]

-- The pass leaves the lots of the other operators alone.
pub unbonding_total-settled_other :
    (operator_id other : String) (m : Dict String ℕ) (rows : List UnbondRow)
    → operator_id ≢ other
    → unbonding_total other (map (settled operator_id m) rows) ≡ unbonding_total other rows
unfolding settled settle_taken set_lot is_lot_of
unbonding_total-settled_other operator_id other m [] h = refl
unbonding_total-settled_other operator_id other m (row ∷ rows) h =
    ground (arith, unbonding_total-settled_other operator_id other m rows)
