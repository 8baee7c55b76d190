-- ===== src/Evidence/Waiting.antt =====
-- Calls of `append` that wait in line (src/oracle/evidence/oracle-evidence-buffer.ts): what a new call
-- takes, and what the gap holds that a failed one leaves open.
use refract_backend.Prelude.{
  ℕ, ◌+◌, ◌≤◌, ◌<◌, ◌≡◌, refl, ◌⊎◌, inl, inr, String, Option, none, some, List, [], ◌∷◌, ◌++◌,
  arith, length, All, Pairwise, max,
}
use native.Mathlib.Decide.{dec_lt}
use refract_backend.Evidence.{
  EvidenceEntry, OpenGap, EvidenceGap, Buffer, Write, records_of, gap_slot, gap_taken,
  close_gap_record, reopen, note_loss,
}
use refract_backend.Evidence.Trail.{
  Accounted, sequence-Accounted, sequence-bounds, InGap, Bounded, first_of, MadeGap, IsMade, Fits,
  Precedes, Line,
}

module _ {P : Type 0} where
  pub All-mono : (m n : ℕ) (ws : List (Write P)) → m ≤ n → All (IsMade m) ws → All (IsMade n) ws
  All-mono m n [] h k = tt
  All-mono m n (w ∷ ws) h ((low, made), k) = ((omega arith, made), All-mono m n ws h k)

  pub All-snoc_write {ℓ} :
      (Q : Write P → Type ℓ) (ws : List (Write P)) (w : Write P)
      → All Q ws
      → Q w
      → All Q (ws ++ w ∷ [])
  All-snoc_write Q [] w h q = (q, tt)
  All-snoc_write Q (v ∷ ws) w (p, h) q = (p, All-snoc_write Q ws w h q)

  pub Pairwise-snoc :
      (ws : List (Write P)) (w : Write P)
      → Pairwise Precedes ws
      → All (λ v. Precedes v w) ws
      → Pairwise Precedes (ws ++ w ∷ [])
  Pairwise-snoc [] w h k = (tt, tt)
  Pairwise-snoc (v ∷ ws) w (p, h) (q, k) =
      (All-snoc_write (Precedes v) ws w p q, Pairwise-snoc ws w h k)

  pub Fits-none : (ws : List (Write P)) → All (Fits none) ws
  Fits-none [] = tt
  Fits-none (w ∷ ws) = (tt, Fits-none ws)

  -- The writes behind one that fails fit the gap that it opens.
  Fits-behind :
      (g : OpenGap) (w : Write P) (ws : List (Write P))
      → g.first_seq ≤ first_of w.gap w.before
      → All (Precedes w) ws
      → All (Fits (some g)) ws
  Fits-behind g w [] h k = tt
  Fits-behind g w (v ∷ ws) h ((bare, later), k) = ((bare, omega arith), Fits-behind g w ws h k)

  -- The new write has the numbers given out, and those of the gap that it takes.
  pub taken-Accounted :
      (now last_seq s : ℕ) (entries : List (EvidenceEntry P)) (o : Option OpenGap)
      → (InGap s o ⊎ (last_seq < s))
      → s ≤ last_seq + gap_slot o + length entries
      → Accounted s (
          records_of (record {
            gap = gap_taken now o last_seq;
            before = last_seq + gap_slot o;
            entries = entries;
          }))
  unfolding records_of close_gap_record
  taken-Accounted now last_seq s entries none (inl h) k = absurd h
  taken-Accounted now last_seq s entries none (inr h) k =
      sequence-Accounted (last_seq + 0) s entries (omega arith) (omega arith)
  taken-Accounted now last_seq s entries (some g) (inl h) k = inl (inr h)
  taken-Accounted now last_seq s entries (some g) (inr h) k = elim (dec_lt (last_seq + 1) s) [
    | yes later ↦ inr (sequence-Accounted (last_seq + 1) s entries later (omega arith))
    | no here ↦ inl (inl (omega arith))
  ]

  -- What a failed write loses lies in the gap that it leaves open.
  pub lost-InGap :
      (now s : ℕ) (reason : String) (g : Option EvidenceGap) (before : ℕ)
      (entries : List (EvidenceEntry P)) (o : Option OpenGap) (b : Buffer P)
      → MadeGap g before
      → Fits o (record { gap = g; before = before; entries = entries })
      → (Accounted s (records_of (record { gap = g; before = before; entries = entries }))
          ⊎ InGap s o)
      → InGap s
          (note_loss now
            (before + 1)
            (before + length entries)
            (length entries)
            reason
            (reopen g (record b { open_gap = o }))).open_gap
  unfolding reopen note_loss records_of
  lost-InGap now s reason none before entries none b made fits (inl h) =
      let (low, high) = sequence-bounds before s entries h in (omega arith, high)
  lost-InGap now s reason none before entries none b made fits (inr h) = absurd h
  lost-InGap now s reason none before entries (some o) b made (bare, first) (inl h) =
      let (low, high) = sequence-bounds before s entries h in (omega arith, omega arith)
  lost-InGap now s reason none before entries (some o) b made fits (inr h) =
      (h.0, omega (arith, h.1))
  lost-InGap now s reason (some g) before entries (some o) b made (bare, first) h =
      absurd (ground (arith, bare))
  lost-InGap now s reason (some g) before entries none b made fits (inr h) = absurd h
  lost-InGap now s reason (some g) before entries none b (low, high, seq) fits (inl (inl (inl e))) =
      (omega arith, omega arith)
  lost-InGap now s reason (some g) before entries none b (low, high, seq) fits (inl (inl (inr h))) =
      (h.0, omega (arith, h.1))
  lost-InGap now s reason (some g) before entries none b (low, high, seq) fits (inl (inr h)) =
      let (after, upto) = sequence-bounds before s entries h in (omega arith, omega arith)

  -- The line behind a write that failed.
  pub failed-Line :
      (now : ℕ) (reason : String) (g : Option EvidenceGap) (before last_seq : ℕ)
      (entries : List (EvidenceEntry P)) (ws : List (Write P)) (o : Option OpenGap) (b : Buffer P)
      → Line o last_seq (record { gap = g; before = before; entries = entries } ∷ ws)
      → Line
          (note_loss now
            (before + 1)
            (before + length entries)
            (length entries)
            reason
            (reopen g (record b { open_gap = o }))).open_gap
          last_seq
          ws
  unfolding reopen note_loss
  failed-Line now reason none before last_seq entries ws none b v = record {
    bounded = (omega (arith, v.made.0.0), v.made.0.0);
    ordered = v.ordered.1;
    fits =
        Fits-behind
          (record {
            first_seq = before + 1;
            last_seq = before + length entries;
            lost_count = length entries;
            since = now;
            reason = reason;
          })
          (record { gap = none; before = before; entries = entries }) ws (omega arith) v.ordered.0;
    made = v.made.1;
  }
  failed-Line now reason none before last_seq entries ws (some o) b v = record {
    bounded = (v.bounded.0, omega (arith, v.bounded.1, v.made.0.0));
    ordered = v.ordered.1;
    fits = widened ws v.fits.1;
    made = v.made.1;
  }
    where
      widened :
          (vs : List (Write P))
          → All (Fits (some o)) vs
          → All
              (Fits (
                some (record o {
                  last_seq = max o.last_seq (before + length entries);
                  lost_count = o.lost_count + length entries;
                  reason = reason;
                })))
              vs
      widened [] h = tt
      widened (w ∷ vs) (h, k) = (h, widened vs k)
  failed-Line now reason (some g) before last_seq entries ws none b v = record {
    bounded = (
      omega (arith, v.made.0.0, v.made.0.1.0, v.made.0.1.2),
      omega (arith, v.made.0.0, v.made.0.1.2),
    );
    ordered = v.ordered.1;
    fits =
        Fits-behind
          (record {
            first_seq = g.first_seq;
            last_seq = max g.seq (before + length entries);
            lost_count = g.lost_count + 1 + length entries;
            since = g.opened_at;
            reason = reason;
          })
          (record { gap = some g; before = before; entries = entries }) ws (omega arith)
          v.ordered.0;
    made = v.made.1;
  }
  failed-Line now reason (some g) before last_seq entries ws (some o) b v =
      absurd (ground (arith, v.fits.0.0))

pub gap_taken-MadeGap :
    (now : ℕ) (o : Option OpenGap) (last_seq : ℕ)
    → Bounded o last_seq
    → MadeGap (gap_taken now o last_seq) (last_seq + gap_slot o)
unfolding close_gap_record
gap_taken-MadeGap now none last_seq h = tt
gap_taken-MadeGap now (some g) last_seq (low, high) = (omega arith, omega arith, omega arith)

module _ {P : Type 0} where
  -- Where no call waits or no gap is open, a new call stands behind those that wait.
  pub behind :
      (now last_seq : ℕ) (entries : List (EvidenceEntry P)) (o : Option OpenGap)
      (ws : List (Write P))
      → (o ≡ none) ⊎ (ws ≡ [])
      → All (IsMade last_seq) ws
      → All
          (λ w. Precedes w (record {
            gap = gap_taken now o last_seq;
            before = last_seq + gap_slot o;
            entries = entries;
          }))
          ws
  behind now last_seq entries o [] quiet made = tt
  behind now last_seq entries (some g) (w ∷ ws) (inl e) made = absurd (ground (arith, e))
  behind now last_seq entries (some g) (w ∷ ws) (inr e) made = absurd (ground (arith, e))
  behind now last_seq entries none (w ∷ ws) quiet (one, made) =
      ((refl, starts w one), behind now last_seq entries none ws (inl refl) made)
    where
      first_low :
          (g : Option EvidenceGap) (before : ℕ) → MadeGap g before → first_of g before ≤ before + 1
      first_low none before h = omega arith
      first_low (some g) before (low, high, seq) = omega arith

      starts : (w : Write P) → IsMade last_seq w → first_of w.gap w.before ≤ last_seq + 0 + 1
      starts w (low, made_gap) = omega (arith, first_low w.gap w.before made_gap)
