-- ===== src/Ledger/Store.antt =====
-- src/oracle/consensus/evidence-ledger.ts: the ledger, whose log is the list of its events, oldest
-- first. `clock` answers the reads of the wall clock and `disk` the writes to the file, each at the
-- number of its call, so that a write can fail and a clock can step back at any point.
use refract_backend.Prelude.{
  ◌≡◌, refl, arith, ℕ, ◌+◌, max, Option, none, some, List, [], ◌∷◌, ◌++◌, length, Result, ok, err,
  String,
}
use refract_backend.Ledger.{EvidenceEvent, EventBody}

-- The log, and how often the outside was asked.
pub record Ledger (N : Type 0) : Type 0 where
  pub log : List (EvidenceEvent N)
  pub calls : ℕ

pub record Outside : Type 0 where
  pub clock : ℕ → ℕ
  pub disk : ℕ → Option String

-- A method that reads and appends, and may throw a message.
abbrev pub Io : Type 0 → Type 0 → Type 0
Io N A = Ledger N → Result String A × Ledger N

infixl 5 ◌▷◌
abbrev pub continue :
    {N A B : Type 0} → (A → Io N B) → Result String A × Ledger N → Result String B × Ledger N
continue next (ok a, after) = next a after
continue next (err e, after) = (err e, after)

abbrev pub ◌▷◌ : {N A B : Type 0} → Io N A → (A → Io N B) → Io N B
(m ▷ next) ledger = continue next (m ledger)

-- A sequence answers only when its parts do.
pub continue_ok :
    {N A B : Type 0} (next : A → Io N B) (r : Result String A × Ledger N) (b : B)
    → (continue next r).0 ≡ ok b
    → (a : A) × (after : Ledger N) × (r ≡ (ok a, after)) × ((next a after).0 ≡ ok b)
continue_ok next (ok a, after) b h = (a, after, refl, h)
continue_ok next (err e, after) b h = absurd (ground arith)

pub continue_done :
    {N A B : Type 0} (next : A → Io N B) (r : Result String A × Ledger N) (b : B) (final : Ledger N)
    → continue next r ≡ (ok b, final)
    → (a : A) × (after : Ledger N) × (r ≡ (ok a, after)) × (next a after ≡ (ok b, final))
continue_done next (ok a, after) b final h = (a, after, refl, h)
continue_done next (err e, after) b final h = absurd (ground arith)

abbrev pub return : {N A : Type 0} → A → Io N A
return a ledger = (ok a, ledger)

abbrev pub throw : {N A : Type 0} → String → Io N A
throw e ledger = (err e, ledger)

-- `Math.max(t, this.lastRecordedAt())` and `Math.max(t, this.lastRecordedAt() + 1)`.
unfoldable pub not_before : ℕ → Option ℕ → ℕ
not_before t none = t
not_before t (some last) = max t last

unfoldable pub after_last : ℕ → Option ℕ → ℕ
after_last t none = t
after_last t (some last) = max t (last + 1)

abbrev pub wanted : Option ℕ → ℕ → ℕ
wanted none clock = clock
wanted (some t) clock = t

module _ {N : Type 0} where
  -- `lastRecordedAt`; nothing stands for minus infinity.
  unfoldable pub last_recorded_at : List (EvidenceEvent N) → Option ℕ
  last_recorded_at [] = none
  last_recorded_at (e ∷ []) = some e.recorded_at
  last_recorded_at (e ∷ f ∷ rest) = last_recorded_at (f ∷ rest)

  -- `now`.
  unfoldable pub now : Outside → Io N ℕ
  unfolding not_before last_recorded_at
  now outside ledger = (
    ok (not_before (outside.clock ledger.calls) (last_recorded_at ledger.log)),
    record ledger { calls = ledger.calls + 1 },
  )

  -- `reserveTimestamp`.
  unfoldable pub reserve_timestamp : Outside → Io N ℕ
  unfolding after_last last_recorded_at
  reserve_timestamp outside ledger = (
    ok (after_last (outside.clock ledger.calls) (last_recorded_at ledger.log)),
    record ledger { calls = ledger.calls + 1 },
  )

  -- The event that `append` makes of a body.
  unfoldable pub full_event : ℕ → Option ℕ → EventBody N → List (EvidenceEvent N) → EvidenceEvent N
  unfolding after_last last_recorded_at
  full_event clock recorded_at body log = record {
    seq = length log + 1;
    recorded_at = after_last (wanted recorded_at clock) (last_recorded_at log);
    body = body;
  }

  -- `append`.
  unfoldable pub append_event : Outside → Option ℕ → EventBody N → Io N (EvidenceEvent N)
  unfolding full_event
  append_event outside recorded_at body ledger =
      let e = full_event (outside.clock ledger.calls) recorded_at body ledger.log in
      elim (outside.disk ledger.calls) [
        | some failure ↦ (err failure, record ledger { calls = ledger.calls + 1 })
        | none ↦ (ok e, record { log = ledger.log ++ e ∷ []; calls = ledger.calls + 1 })
      ]
