-- ===== src/Evidence/History.antt =====
-- Every history of the evidence buffer (src/oracle/evidence) in which no call takes an open gap while
-- another waits for the spool keeps each number known.
use mathlib.Core.List.{append_assoc}
use refract_backend.Prelude.{
  ℕ, ◌+◌, ◌≤◌, ◌≡◌, refl, sym, ap, subst, ◌∙◌, ◌⊎◌, inl, inr, String, Option, none, some, List, [],
  ◌∷◌, ◌++◌, arith, length, take, drop, take-append-drop, Option-cases,
}
use native.Mathlib.Decide.{dec_lt}
use refract_backend.Evidence.{
  EvidenceEntry, EvidenceRecord, Buffer, Write, records_of, gap_slot, accept, append, reopen,
  note_loss, settle_write,
}
use refract_backend.Evidence.Drain.{
  Options, System, Event, appends, writes_settle, sends, settles, fires, stops, schedule_retry,
  flush_failed, flush_stored, send, settle_batch, settle, enqueue, settle_first, step, run,
}
use refract_backend.Evidence.Trail.{
  Accounted, Accounted-left, Accounted-right, InWrites-left, InWrites-right, InGap, Known, IsMade,
  Prefix, trail, Line, Inv,
}
use refract_backend.Evidence.Waiting.{
  All-mono, All-snoc_write, Pairwise-snoc, Fits-none, taken-Accounted, lost-InGap, failed-Line,
  gap_taken-MadeGap, behind,
}

module _ {P : Type 0} where
  -- A call that would take an open gap finds no other call waiting.
  abbrev pub Quiet : Event P → System P → Type 0
  Quiet (appends now entries) sys = (sys.buffer.open_gap ≡ none) ⊎ (sys.writes ≡ [])
  Quiet (writes_settle now written) sys = Unit {0}
  Quiet sends sys = Unit {0}
  Quiet (settles outcome) sys = Unit {0}
  Quiet fires sys = Unit {0}
  Quiet stops sys = Unit {0}

  abbrev pub AllQuiet : Options → List (Event P) → System P → Type 0
  AllQuiet options [] sys = Unit {0}
  AllQuiet options (e ∷ es) sys = Quiet e sys × AllQuiet options es (step options e sys)

  Prefix-append :
      (sent : Option (List (EvidenceRecord P))) (pending more : List (EvidenceRecord P))
      → Prefix sent pending
      → Prefix sent (pending ++ more)
  Prefix-append none pending more h = tt
  Prefix-append (some batch) pending more (rest, e) =
      (rest ++ more, rw (e, append_assoc batch rest more))

  drop_prefix : (batch rest : List (EvidenceRecord P)) → drop (length batch) (batch ++ rest) ≡ rest
  drop_prefix [] rest = refl
  drop_prefix (r ∷ batch) rest = drop_prefix batch rest

  flush_failed-same :
      (options : Options) (reason : String) (b : Buffer P)
      → let b' = flush_failed options reason b in
        (b'.pending ≡ b.pending) × (b'.open_gap ≡ b.open_gap) × (b'.last_seq ≡ b.last_seq)
  unfolding flush_failed schedule_retry
  flush_failed-same options reason b = ground arith

  send-cases :
      (options : Options) (sys : System P)
      → (send options sys ≡ sys)
        ⊎ (send options sys
            ≡ record sys { in_flight = some (take options.batch_size sys.buffer.pending) })
  unfolding send
  send-cases options sys = ground arith

  settle-cases :
      (options : Options) (outcome : Option String) (sys : System P)
      → (settle options outcome sys ≡ sys)
        ⊎ ((batch : List (EvidenceRecord P)) × (sys.in_flight ≡ some batch)
            × (settle options outcome sys ≡ settle_batch options outcome batch sys))
  unfolding settle
  settle-cases options outcome sys = elim (Option-cases sys.in_flight) [
    | inl e ↦ inl (ground arith)
    | inr (batch, e) ↦ inr (batch, e, ground arith)
  ]

  settle_write-same :
      (now : ℕ) (reason : String) (w : Write P) (b : Buffer P)
      → let b' = (settle_write now (some reason) w b).1 in
        (b'.pending ≡ b.pending) × (b'.last_seq ≡ b.last_seq)
  unfolding settle_write note_loss reopen
  settle_write-same now reason w b = elim (Option-cases w.gap) [
    | inl e ↦ (ground (arith, e), ground (arith, e))
    | inr (g, e) ↦ (ground (arith, e), ground (arith, e))
  ]

  append-cases :
      (now : ℕ) (entries : List (EvidenceEntry P)) (sys : System P)
      → ((enqueue (append now entries sys.buffer).0 sys.writes ≡ sys.writes)
          × ((append now entries sys.buffer).1 ≡ sys.buffer))
        ⊎ ((enqueue (append now entries sys.buffer).0 sys.writes
              ≡ sys.writes ++ (accept now entries sys.buffer).0 ∷ [])
            × ((append now entries sys.buffer).1 ≡ (accept now entries sys.buffer).1))
  unfolding append
  append-cases now [] sys = inl (ground arith, refl)
  append-cases now (entry ∷ entries) sys = ground arith

module _ {P : Type 0} {base : ℕ} where
  -- A step that moves no record, takes no number and touches no gap.
  carry-Inv :
      (sys after : System P)
      → trail after ≡ trail sys
      → after.writes ≡ sys.writes
      → after.buffer.open_gap ≡ sys.buffer.open_gap
      → after.buffer.last_seq ≡ sys.buffer.last_seq
      → Prefix after.in_flight after.buffer.pending
      → Inv base sys
      → Inv base after
  carry-Inv sys after t w g l sent v = record {
    known = λ s low high.
        subst (λ rs. Known s rs after.writes after.buffer.open_gap) (sym t)
          (subst (λ ws. Known s (trail sys) ws after.buffer.open_gap) (sym w)
            (subst (λ o. Known s (trail sys) sys.writes o) (sym g)
              (v.known s low (subst (λ n. s ≤ n) l high))));
    line =
        subst (λ ws. Line after.buffer.open_gap after.buffer.last_seq ws) (sym w)
          (subst (λ o. Line o after.buffer.last_seq sys.writes) (sym g)
            (subst (λ n. Line sys.buffer.open_gap n sys.writes) (sym l) v.line));
    sent = sent;
  }

  accept-Inv :
      (now : ℕ) (entries : List (EvidenceEntry P)) (sys : System P)
      → (sys.buffer.open_gap ≡ none) ⊎ (sys.writes ≡ [])
      → Inv base sys
      → Inv base (record sys {
        writes = sys.writes ++ (accept now entries sys.buffer).0 ∷ [];
        buffer = (accept now entries sys.buffer).1;
      })
  unfolding accept
  accept-Inv now entries sys quiet v =
      let b = sys.buffer in
      let w = (accept now entries b).0 in
      let last = b.last_seq + gap_slot b.open_gap + length entries in
      record {
        known = λ s low high. elim (dec_lt b.last_seq s) [
          | yes later ↦ inr (
              inl (
                InWrites-right s sys.writes (w ∷ [])
                  (inl (taken-Accounted now b.last_seq s entries b.open_gap (inr later) high))))
          | no early ↦ elim (v.known s low (omega arith)) [
            | inl h ↦ inl h
            | inr (inl h) ↦ inr (inl (InWrites-left s sys.writes (w ∷ []) h))
            | inr (inr h) ↦ inr (
                inl (
                  InWrites-right s sys.writes (w ∷ [])
                    (inl (taken-Accounted now b.last_seq s entries b.open_gap (inl h) high))))
          ]
        ];
        line = record {
          bounded = tt;
          ordered =
              Pairwise-snoc sys.writes w v.line.ordered
                (behind now b.last_seq entries b.open_gap sys.writes quiet v.line.made);
          fits = Fits-none (sys.writes ++ w ∷ []);
          made =
              All-snoc_write (IsMade last) sys.writes w
                (All-mono b.last_seq last sys.writes (omega arith) v.line.made)
                (omega arith, gap_taken-MadeGap now b.open_gap b.last_seq v.line.bounded);
        };
        sent = v.sent;
      }

  settle_write-Inv :
      (now : ℕ) (written : Option String) (w : Write P) (ws : List (Write P)) (sys : System P)
      → sys.writes ≡ w ∷ ws
      → Inv base sys
      → Inv base (record sys { writes = ws; buffer = (settle_write now written w sys.buffer).1 })
  unfolding settle_write
  settle_write-Inv now none w ws sys e v =
      let line = subst (Line sys.buffer.open_gap sys.buffer.last_seq) e v.line in
      let moved = append_assoc sys.stored sys.buffer.pending (records_of w) in
      record {
        known = λ s low high.
            elim (subst (λ us. Known s (trail sys) us sys.buffer.open_gap) e (v.known s low high)) [
              | inl h ↦
                  inl (subst (Accounted s) moved (Accounted-left s (trail sys) (records_of w) h))
              | inr (inl (inl h)) ↦
                  inl (subst (Accounted s) moved (Accounted-right s (trail sys) (records_of w) h))
              | inr (inl (inr h)) ↦ inr (inl h)
              | inr (inr h) ↦ inr (inr h)
            ];
        line = record {
          bounded = line.bounded;
          ordered = line.ordered.1;
          fits = line.fits.1;
          made = line.made.1;
        };
        sent = Prefix-append sys.in_flight sys.buffer.pending (records_of w) v.sent;
      }
  settle_write-Inv now (some reason) w ws sys e v =
      let b = sys.buffer in
      let line = subst (Line b.open_gap b.last_seq) e v.line in
      let b' = (settle_write now (some reason) w b).1 in
      let (same_pending, same_last) = settle_write-same now reason w b in
      record {
        known = λ s low high.
            let lost : Accounted s (records_of w) ⊎ InGap s b.open_gap → InGap s b'.open_gap = λ h.
              lost-InGap now s reason w.gap w.before w.entries b.open_gap b line.made.0.1
                line.fits.0 h in
            subst (λ rs. Known s (sys.stored ++ rs) ws b'.open_gap) (sym same_pending)
              (elim (subst (λ us. Known s (trail sys) us b.open_gap) e
                (v.known s low (subst (λ n. s ≤ n) same_last high))) [
                  | inl h ↦ inl h
                  | inr (inl (inl h)) ↦ inr (inr (lost (inl h)))
                  | inr (inl (inr h)) ↦ inr (inl h)
                  | inr (inr h) ↦ inr (inr (lost (inr h)))
                ]);
        line =
            subst (λ n. Line b'.open_gap n ws) (sym same_last)
              (failed-Line now reason w.gap w.before b.last_seq w.entries ws b.open_gap b line);
        sent = subst (Prefix sys.in_flight) (sym same_pending) v.sent;
      }

  send-Inv : (options : Options) (sys : System P) → Inv base sys → Inv base (send options sys)
  send-Inv options sys v = elim (send-cases options sys) [
    | inl e ↦ subst (Inv base) (sym e) v
    | inr e ↦
        let n = options.batch_size in
        let rs = sys.buffer.pending in
        subst (Inv base) (sym e) (
          carry-Inv sys (record sys { in_flight = some (take n rs) }) refl refl refl refl
            (drop n rs, sym (take-append-drop n rs)) v)
  ]

  settle_batch-Inv :
      (options : Options) (outcome : Option String) (batch rest : List (EvidenceRecord P))
      (sys : System P)
      → sys.buffer.pending ≡ batch ++ rest
      → Inv base sys
      → Inv base (settle_batch options outcome batch sys)
  unfolding settle_batch flush_stored
  settle_batch-Inv options (some reason) batch rest sys e v =
      let (p, g, l) = flush_failed-same options reason sys.buffer in
      carry-Inv sys
        (record sys { buffer = flush_failed options reason sys.buffer; in_flight = none })
        (ap (λ rs. sys.stored ++ rs) p) refl g l tt v
  settle_batch-Inv options none [] rest sys e v =
      carry-Inv sys (record sys { in_flight = none }) refl refl refl refl tt v
  settle_batch-Inv options none (r ∷ rs) rest sys e v =
      let left : drop (length (r ∷ rs)) sys.buffer.pending ≡ rest =
        ap (drop (length (r ∷ rs))) e ∙ drop_prefix (r ∷ rs) rest in
      carry-Inv sys
        (record sys {
          buffer = flush_stored options r rs sys.buffer;
          in_flight = none;
          stored = sys.stored ++ r ∷ rs;
        })
        (ap (λ l. (sys.stored ++ r ∷ rs) ++ l) left
          ∙ append_assoc sys.stored (r ∷ rs) rest
          ∙ ap (λ l. sys.stored ++ l) (sym e))
        refl refl refl tt v

  settle-Inv :
      (options : Options) (outcome : Option String) (sys : System P)
      → Inv base sys
      → Inv base (settle options outcome sys)
  settle-Inv options outcome sys v = elim (settle-cases options outcome sys) [
    | inl e ↦ subst (Inv base) (sym e) v
    | inr (batch, f, e) ↦
        let (rest, q) : Prefix (some batch) sys.buffer.pending =
          subst (λ sent. Prefix sent sys.buffer.pending) f v.sent in
        subst (Inv base) (sym e) (settle_batch-Inv options outcome batch rest sys q v)
  ]

  settle_first-Inv :
      (now : ℕ) (written : Option String) (ws : List (Write P)) (sys : System P)
      → sys.writes ≡ ws
      → Inv base sys
      → Inv base (settle_first now written ws sys)
  unfolding settle_first
  settle_first-Inv now written [] sys e v = v
  settle_first-Inv now written (w ∷ ws) sys e v = settle_write-Inv now written w ws sys e v

  append-Inv :
      (now : ℕ) (entries : List (EvidenceEntry P)) (sys : System P)
      → (sys.buffer.open_gap ≡ none) ⊎ (sys.writes ≡ [])
      → Inv base sys
      → Inv base (record sys {
        writes = enqueue (append now entries sys.buffer).0 sys.writes;
        buffer = (append now entries sys.buffer).1;
      })
  append-Inv now entries sys quiet v = elim (append-cases now entries sys) [
    | inl (w, b) ↦
        subst
          (λ ws. Inv base (record sys { writes = ws; buffer = (append now entries sys.buffer).1 }))
          (sym w) (subst (λ b'. Inv base (record sys { buffer = b' })) (sym b) v)
    | inr (w, b) ↦
        subst
          (λ ws. Inv base (record sys { writes = ws; buffer = (append now entries sys.buffer).1 }))
          (sym w)
          (subst
            (λ b'. Inv base (record sys {
              writes = sys.writes ++ (accept now entries sys.buffer).0 ∷ [];
              buffer = b';
            }))
            (sym b) (accept-Inv now entries sys quiet v))
  ]

  step-Inv :
      (options : Options) (e : Event P) (sys : System P)
      → Quiet e sys
      → Inv base sys
      → Inv base (step options e sys)
  unfolding step
  step-Inv options (appends now entries) sys quiet v = append-Inv now entries sys quiet v
  step-Inv options (writes_settle now written) sys quiet v =
      settle_first-Inv now written sys.writes sys refl v
  step-Inv options sends sys quiet v = send-Inv options sys v
  step-Inv options (settles outcome) sys quiet v = settle-Inv options outcome sys v
  step-Inv options fires sys quiet v = carry-Inv sys _ refl refl refl refl v.sent v
  step-Inv options stops sys quiet v = carry-Inv sys _ refl refl refl refl v.sent v

  pub run-Inv :
      (options : Options) (es : List (Event P)) (sys : System P)
      → AllQuiet options es sys
      → Inv base sys
      → Inv base (run options es sys)
  unfolding run
  run-Inv options [] sys quiet v = v
  run-Inv options (e ∷ es) sys (one, quiet) v =
      run-Inv options es (step options e sys) quiet (step-Inv options e sys one v)
