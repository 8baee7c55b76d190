-- ===== src/Ledger/Increasing.antt =====
-- The order of the ledger (evidence-ledger.ts): its events are numbered from one and their times
-- grow strictly, whatever the clock does; so what was known at a time is a prefix of the log.
use refract_backend.Prelude.{
  ℕ, ◌+◌, ◌<◌, ◌≤◌, Option, none, some, List, [], ◌∷◌, ◌++◌, ◌⊎◌, length, take, ok, String, leb,
  arith, ◌≡◌, refl, subst, sym, inl, inr, Bool-cases, Result,
}
use refract_backend.Ledger.{EvidenceEvent, EventBody}
use refract_backend.Ledger.Store.{
  Ledger, Outside, last_recorded_at, after_last, wanted, full_event, append_event,
  reserve_timestamp,
}
use refract_backend.Ledger.View.{known_at}

abbrev After : Option ℕ → ℕ → Type 0
After none t = Unit
After (some last) t = last < t

After-after_last : (t : ℕ) (last : Option ℕ) → After last (after_last t last)
unfolding after_last
After-after_last t none = tt
After-after_last t (some last) = omega arith

ok_inj : {a b : ℕ} → ◌≡◌ {A = Result String ℕ} (ok a) (ok b) → a ≡ b
ok_inj h = ground arith

module _ {N : Type 0} where
  -- Numbers that follow `seq` and times that grow from `last`.
  unfoldable pub Increasing : ℕ → Option ℕ → List (EvidenceEvent N) → Type 0
  Increasing seq last [] = Unit
  Increasing seq last (e ∷ rest) =
      (e.seq ≡ seq + 1) × After last e.recorded_at × Increasing (seq + 1) (some e.recorded_at) rest

  abbrev pub IsWellFormed : List (EvidenceEvent N) → Type 0
  IsWellFormed log = Increasing 0 none log

  abbrev last_from : Option ℕ → List (EvidenceEvent N) → Option ℕ
  last_from last [] = last
  last_from last (e ∷ rest) = last_from (some e.recorded_at) rest

  last_from-last :
      (e : EvidenceEvent N) (rest : List (EvidenceEvent N))
      → last_from (some e.recorded_at) rest ≡ last_recorded_at (e ∷ rest)
  unfolding last_recorded_at
  last_from-last e [] = refl
  last_from-last e (f ∷ rest) = last_from-last f rest

  last_from-none : (log : List (EvidenceEvent N)) → last_from none log ≡ last_recorded_at log
  unfolding last_recorded_at
  last_from-none [] = refl
  last_from-none (e ∷ rest) = last_from-last e rest

  Increasing-append :
      (seq : ℕ) (last : Option ℕ) (log : List (EvidenceEvent N)) (e : EvidenceEvent N)
      → Increasing seq last log
      → e.seq ≡ seq + length log + 1
      → After (last_from last log) e.recorded_at
      → Increasing seq last (log ++ e ∷ [])
  unfolding Increasing
  Increasing-append seq last [] e h n after = (omega arith, after, tt)
  Increasing-append seq last (f ∷ log) e (k, later, h) n after =
      (k, later, Increasing-append (seq + 1) (some f.recorded_at) log e h (omega arith) after)

  full_event-After :
      (clock : ℕ) (recorded_at : Option ℕ) (body : EventBody N) (log : List (EvidenceEvent N))
      → After (last_from none log) (full_event clock recorded_at body log).recorded_at
  unfolding full_event
  full_event-After clock recorded_at body log =
      subst (λ l. After l (after_last (wanted recorded_at clock) (last_recorded_at log)))
        (sym (last_from-none log))
        (After-after_last (wanted recorded_at clock) (last_recorded_at log))

  append_event-cases :
      (outside : Outside) (recorded_at : Option ℕ) (body : EventBody N) (ledger : Ledger N)
      → ((append_event outside recorded_at body ledger).1.log ≡ ledger.log)
        ⊎ ((append_event outside recorded_at body ledger).1.log
            ≡ ledger.log
              ++ full_event (outside.clock ledger.calls) recorded_at body ledger.log ∷ [])
  unfolding append_event
  append_event-cases outside recorded_at body ledger = ground arith

  seq_full_event :
      (clock : ℕ) (recorded_at : Option ℕ) (body : EventBody N) (log : List (EvidenceEvent N))
      → (full_event clock recorded_at body log).seq ≡ 0 + length log + 1
  unfolding full_event
  seq_full_event clock recorded_at body log = omega arith

  -- Events numbered from one with strictly growing times stay so under an append, whether the
  -- write succeeds or fails, whatever the clock says and whatever time the caller asks for.
  pub append_event-IsWellFormed :
      (outside : Outside) (recorded_at : Option ℕ) (body : EventBody N) (ledger : Ledger N)
      → IsWellFormed ledger.log
      → IsWellFormed (append_event outside recorded_at body ledger).1.log
  append_event-IsWellFormed outside recorded_at body ledger h =
      elim (append_event-cases outside recorded_at body ledger) [
        | inl e ↦ subst IsWellFormed (sym e) h
        | inr e ↦ subst IsWellFormed (sym e) (
            Increasing-append 0 none ledger.log
              (full_event (outside.clock ledger.calls) recorded_at body ledger.log) h
              (seq_full_event (outside.clock ledger.calls) recorded_at body ledger.log)
              (full_event-After (outside.clock ledger.calls) recorded_at body ledger.log))
      ]

  known_none :
      (seq t last : ℕ) (log : List (EvidenceEvent N))
      → Increasing seq (some last) log
      → t ≤ last
      → known_at log t ≡ []
  unfolding Increasing known_at
  known_none seq t last [] h le = refl
  known_none seq t last (e ∷ log) (k, later, h) le =
      ground (arith, known_none (seq + 1) t e.recorded_at log h (omega arith))

  known-prefix :
      (seq t : ℕ) (last : Option ℕ) (log : List (EvidenceEvent N))
      → Increasing seq last log
      → known_at log t ≡ take (length (known_at log t)) log
  unfolding Increasing known_at
  known-prefix seq t last [] h = refl
  known-prefix seq t last (e ∷ log) (k, later, h) = elim (Bool-cases (leb e.recorded_at t)) [
    | inl le ↦ ground (arith, known-prefix (seq + 1) t (some e.recorded_at) log h)
    | inr gt ↦ ground (arith, known_none (seq + 1) t e.recorded_at log h (ground arith))
  ]

  -- In a well-formed ledger, what was known at a time is a prefix of the events.
  pub known_at_prefix :
      (log : List (EvidenceEvent N)) (t : ℕ)
      → IsWellFormed log
      → known_at log t ≡ take (length (known_at log t)) log
  known_at_prefix log t h = known-prefix 0 t none log h

  last_le :
      (t seq last : ℕ) (log : List (EvidenceEvent N))
      → Increasing seq (some last) log
      → After (last_from (some last) log) t
      → last < t
  unfolding Increasing
  last_le t seq last [] h after = after
  last_le t seq last (e ∷ log) (k, later, h) after =
      omega (arith, last_le t (seq + 1) e.recorded_at log h after)

  all_known :
      (t : ℕ) (seq : ℕ) (last : Option ℕ) (log : List (EvidenceEvent N))
      → Increasing seq last log
      → After (last_from last log) t
      → known_at log t ≡ log
  unfolding Increasing known_at
  all_known t seq last [] h after = refl
  all_known t seq last (e ∷ log) (k, later, h) after = ground (
    arith,
    all_known t (seq + 1) (some e.recorded_at) log h after,
    last_le t (seq + 1) e.recorded_at log h after,
  )

  reserved_time :
      (outside : Outside) (body : EventBody N) (ledger : Ledger N) (t : ℕ)
      → (reserve_timestamp outside ledger).0 ≡ ok t
      → (full_event (outside.clock (ledger.calls + 1)) (some t) body ledger.log).recorded_at ≡ t
  unfolding reserve_timestamp full_event after_last
  reserved_time outside body ledger t reserved = ground arith

  reserved_After :
      (outside : Outside) (ledger : Ledger N) (t : ℕ)
      → (reserve_timestamp outside ledger).0 ≡ ok t
      → After (last_from none ledger.log) t
  unfolding reserve_timestamp
  reserved_After outside ledger t reserved =
      subst (λ l. After l t) (sym (last_from-none ledger.log))
        (subst (After (last_recorded_at ledger.log)) (ok_inj reserved)
          (After-after_last (outside.clock ledger.calls) (last_recorded_at ledger.log)))

  -- In a well-formed ledger, an event that is appended with a reserved time gets exactly that
  -- time, whatever the clock says by then, and at that time the ledger knows all the events
  -- before it.
  pub reserve_exact :
      (outside : Outside) (body : EventBody N) (ledger : Ledger N) (t : ℕ)
      → IsWellFormed ledger.log
      → (reserve_timestamp outside ledger).0 ≡ ok t
      → ((full_event (outside.clock (ledger.calls + 1)) (some t) body ledger.log).recorded_at ≡ t)
        × (known_at ledger.log t ≡ ledger.log)
  reserve_exact outside body ledger t h reserved = (
    reserved_time outside body ledger t reserved,
    all_known t 0 none ledger.log h (reserved_After outside ledger t reserved),
  )
