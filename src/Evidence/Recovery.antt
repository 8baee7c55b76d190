-- ===== src/Evidence/Recovery.antt =====
-- Starting the evidence buffer and draining it (src/oracle/evidence/oracle-evidence-buffer.ts): what
-- the trail means for one number, where it begins, and that a store that accepts empties the buffer.
use mathlib.Core.List.{append_assoc, append-nil}
use mathlib.Core.Path.{ap₂}
use refract_backend.Prelude.{
  ℕ, zero, suc, ◌-◌, ◌≤◌, ◌<◌, ◌≡◌, refl, sym, ap, subst, ◌∙◌, ◌⊎◌, inl, inr, none, List, [], ◌∷◌,
  ◌++◌, arith, ltb, length, take, drop, take-append-drop, length-drop, Bool-cases,
}
use refract_backend.Evidence.{EvidenceRecord, Buffer, SpoolRecovery, note_loss, start, first_stored}
use refract_backend.Evidence.Drain.{
  Options, System, Event, flush_stored, send, settle_batch, settle, run, drain,
}
use refract_backend.Evidence.History.{AllQuiet, run-Inv}
use refract_backend.Evidence.Trail.{Covers, Covers-Accounted, Accounted, Known, Inv}

module _ {P : Type 0} where
  abbrev pub system : Buffer P → System P
  system b = record { writes = []; buffer = b; in_flight = none; stored = [] }

  -- A buffer that recovers an unbroken spool knows the numbers that it recovers.
  pub start-Inv :
      (now : ℕ) (recovered : SpoolRecovery P) (b : Buffer P)
      → b.open_gap ≡ none
      → Covers
          (first_stored recovered.pending recovered.high_water_seq)
          recovered.pending
          recovered.high_water_seq
      → Inv
          (first_stored recovered.pending recovered.high_water_seq)
          (system (start now recovered b))
  unfolding start note_loss
  start-Inv now recovered b fresh c =
      let known : (s : ℕ)
          → first_stored recovered.pending recovered.high_water_seq < s
          → s ≤ recovered.high_water_seq
          → Accounted s recovered.pending =
        λ s low high.
          Covers-Accounted (first_stored recovered.pending recovered.high_water_seq)
            recovered.high_water_seq s recovered.pending c low high in
      elim (Bool-cases (ltb 0 recovered.discarded_lines)) [
        | inl torn ↦
            rw (torn, fresh)
              (record {
                known = λ s low high. inl (known s low high);
                line = record {
                  bounded = (omega arith, omega arith);
                  ordered = tt;
                  fits = tt;
                  made = tt;
                };
                sent = tt;
              })
        | inr clean ↦
            rw (clean, fresh)
              (record {
                known = λ s low high. inl (known s low high);
                line = record { bounded = tt; ordered = tt; fits = tt; made = tt };
                sent = tt;
              })
      ]

  drop_taken : (n : ℕ) (rs : List (EvidenceRecord P)) → drop (length (take n rs)) rs ≡ drop n rs
  drop_taken zero rs = refl
  drop_taken (suc n) [] = refl
  drop_taken (suc n) (r ∷ rs) = drop_taken n rs

  -- One round of the loop.
  round_lem :
      (n : ℕ) (options : Options) (sys : System P) (r : EvidenceRecord P)
      (rs : List (EvidenceRecord P))
      → options.batch_size ≡ suc n
      → sys.in_flight ≡ none
      → sys.buffer.pending ≡ r ∷ rs
      → let sys' = settle options none (send options sys) in
        (sys'.in_flight ≡ none)
        × (sys'.buffer.pending ≡ drop n rs)
        × (sys'.stored ≡ sys.stored ++ (r ∷ take n rs))
  unfolding send settle settle_batch flush_stored
  round_lem n options sys r rs h f p = ground (arith, drop_taken n rs)

  idle_round :
      (options : Options) (sys : System P)
      → sys.in_flight ≡ none
      → sys.buffer.pending ≡ []
      → settle options none (send options sys) ≡ sys
  unfolding send settle
  idle_round options sys f p = ground arith

  List-cases :
      (rs : List (EvidenceRecord P))
      → (rs ≡ []) ⊎ ((s : EvidenceRecord P) × (ss : List (EvidenceRecord P)) × (rs ≡ s ∷ ss))
  List-cases [] = inl refl
  List-cases (s ∷ ss) = inr (s, ss, refl)

  -- The end of a drain: nothing is pending, and the store has the records in order.
  abbrev pub Drained : System P → System P → Type 0
  Drained sys after =
      (after.buffer.pending ≡ []) × (after.stored ≡ sys.stored ++ sys.buffer.pending)

  idle-Drained : (sys : System P) → sys.buffer.pending ≡ [] → Drained sys sys
  idle-Drained sys p = (p, rw p (sym (append-nil sys.stored)))

  -- With a positive batch size and no batch under way, as many rounds of send and successful
  -- settle as there are pending records empty the buffer, and append the pending records to the
  -- store, once each and in order.
  pub drain_total :
      (rounds : ℕ) (options : Options) (sys : System P)
      → 0 < options.batch_size
      → sys.in_flight ≡ none
      → length sys.buffer.pending ≤ rounds
      → Drained sys (drain rounds options sys)
  unfolding drain
  drain_total zero options sys h f k = elim (List-cases sys.buffer.pending) [
    | inl e ↦ idle-Drained sys e
    | inr (r, rs, e) ↦ absurd (omega (arith, ap length e))
  ]
  drain_total (suc rounds) options sys h f k =
      let sys' = settle options none (send options sys) in
      let n = options.batch_size - 1 in
      elim (List-cases sys.buffer.pending) [
        | inl e ↦
            subst (λ s. Drained sys (drain rounds options s)) (sym (idle_round options sys f e))
              (drain_total rounds options sys h f (omega (arith, ap length e)))
        | inr (r, rs, e) ↦
            let (f', p', s') = round_lem n options sys r rs (omega arith) f e in
            let (empty, all) =
              drain_total rounds options sys' h f'
                (omega (arith, ap length e, ap length p', length-drop n rs)) in
            (
              empty,
              all
                  ∙ ap₂ ◌++◌ s' p'
                  ∙ append_assoc sys.stored (r ∷ take n rs) (drop n rs)
                  ∙ ap (λ l. sys.stored ++ (r ∷ l)) (take-append-drop n rs)
                  ∙ ap (◌++◌ sys.stored) (sym e),
            )
      ]

  -- The buffer that starts on what the spool recovers, after the events.
  abbrev pub resumed : ℕ → SpoolRecovery P → Buffer P → Options → List (Event P) → System P
  resumed now recovered b options es = run options es (system (start now recovered b))

  -- Evidence is never lost silently while no call takes an open gap as another waits for the
  -- spool: from a start with no open gap on a spool whose records are unbroken up to its high
  -- water mark, and whatever calls of append then begin, overlap, succeed or fail in the order of
  -- the spool, with flushes that succeed or fail at any point between, each number given out is
  -- that of a record that is stored, pending or waiting for the spool, or lies in the range of a
  -- gap that is recorded, waiting or still open.
  pub trail_complete :
      (now : ℕ) (recovered : SpoolRecovery P) (b : Buffer P) (options : Options)
      (es : List (Event P)) (s : ℕ)
      → b.open_gap ≡ none
      → Covers
          (first_stored recovered.pending recovered.high_water_seq)
          recovered.pending
          recovered.high_water_seq
      → AllQuiet options es (system (start now recovered b))
      → first_stored recovered.pending recovered.high_water_seq < s
      → s ≤ (resumed now recovered b options es).buffer.last_seq
      → Known s
          ((resumed now recovered b options es).stored
            ++ (resumed now recovered b options es).buffer.pending)
          (resumed now recovered b options es).writes
          (resumed now recovered b options es).buffer.open_gap
  trail_complete now recovered b options es s fresh c quiet h k =
      let v : Inv (first_stored recovered.pending recovered.high_water_seq)
          (resumed now recovered b options es) =
        run-Inv options es _ quiet (start-Inv now recovered b fresh c) in
      v.known s h k
