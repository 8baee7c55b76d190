-- ===== src/Evidence/Trail.antt =====
-- What the evidence trail of src/oracle/evidence accounts for, and the invariant of the buffer.
use refract_backend.Prelude.{
  ℕ, ◌+◌, ◌≤◌, ◌<◌, ◌≡◌, ◌⊎◌, inl, inr, Option, none, some, List, [], ◌∷◌, ◌++◌, arith, length, All,
  Pairwise,
}
use native.Mathlib.Decide.{dec_lt}
use refract_backend.Evidence.{
  EvidenceEntry, EvidenceRecord, sequenced, gap, seq_of, OpenGap, EvidenceGap, sequence, Write,
  records_of,
}
use refract_backend.Evidence.Drain.{System}

module _ {P : Type 0} where
  -- The number after `n` is this record's, or the record tells that the numbers up to its own are
  -- lost.
  abbrev pub Follows : ℕ → EvidenceRecord P → Type 0
  Follows n (sequenced seq entry) = seq ≡ n + 1
  Follows n (gap g) = (g.first_seq ≡ n + 1) × (g.last_seq + 1 ≡ g.seq) × (g.first_seq ≤ g.seq)

  -- The records account for every number after `n` up to `m`, in order.
  abbrev pub Covers : ℕ → List (EvidenceRecord P) → ℕ → Type 0
  Covers n [] m = n ≡ m
  Covers n (r ∷ rs) m = Follows n r × Covers (seq_of r) rs m

  -- The number is that of a record, or lies in the range of a gap.
  abbrev pub Accounted : ℕ → List (EvidenceRecord P) → Type 0
  Accounted s [] = ⊥
  Accounted s (sequenced seq entry ∷ rs) = (s ≡ seq) ⊎ Accounted s rs
  Accounted s (gap g ∷ rs) = ((s ≡ g.seq) ⊎ ((g.first_seq ≤ s) × (s ≤ g.last_seq))) ⊎ Accounted s rs

  -- No number is missing from an unbroken list of records.
  pub Covers-Accounted :
      (n m s : ℕ) (rs : List (EvidenceRecord P)) → Covers n rs m → n < s → s ≤ m → Accounted s rs
  Covers-Accounted n m s [] c h k = absurd (omega arith)
  Covers-Accounted n m s (sequenced seq entry ∷ rs) c h k = elim (dec_lt seq s) [
    | yes later ↦ inr (Covers-Accounted seq m s rs c.1 later k)
    | no here ↦ inl (omega arith)
  ]
  Covers-Accounted n m s (gap g ∷ rs) c h k = elim (dec_lt g.seq s) [
    | yes later ↦ inr (Covers-Accounted g.seq m s rs c.1 later k)
    | no here ↦ inl (grind arith)
  ]

  pub Accounted-left :
      (s : ℕ) (rs ss : List (EvidenceRecord P)) → Accounted s rs → Accounted s (rs ++ ss)
  Accounted-left s [] ss h = absurd h
  Accounted-left s (sequenced seq entry ∷ rs) ss (inl e) = inl e
  Accounted-left s (sequenced seq entry ∷ rs) ss (inr h) = inr (Accounted-left s rs ss h)
  Accounted-left s (gap g ∷ rs) ss (inl e) = inl e
  Accounted-left s (gap g ∷ rs) ss (inr h) = inr (Accounted-left s rs ss h)

  pub Accounted-right :
      (s : ℕ) (rs ss : List (EvidenceRecord P)) → Accounted s ss → Accounted s (rs ++ ss)
  Accounted-right s [] ss h = h
  Accounted-right s (sequenced seq entry ∷ rs) ss h = inr (Accounted-right s rs ss h)
  Accounted-right s (gap g ∷ rs) ss h = inr (Accounted-right s rs ss h)

  pub sequence-Accounted :
      (n s : ℕ) (entries : List (EvidenceEntry P))
      → n < s
      → s ≤ n + length entries
      → Accounted s (sequence n entries)
  unfolding sequence
  sequence-Accounted n s [] h k = absurd (omega arith)
  sequence-Accounted n s (entry ∷ entries) h k = elim (dec_lt (n + 1) s) [
    | yes later ↦ inr (sequence-Accounted (n + 1) s entries later (omega arith))
    | no here ↦ inl (omega arith)
  ]

  pub sequence-bounds :
      (n s : ℕ) (entries : List (EvidenceEntry P))
      → Accounted s (sequence n entries)
      → (n < s) × (s ≤ n + length entries)
  unfolding sequence
  sequence-bounds n s [] h = absurd h
  sequence-bounds n s (entry ∷ entries) (inl e) = (omega arith, omega arith)
  sequence-bounds n s (entry ∷ entries) (inr h) =
      let (low, high) = sequence-bounds (n + 1) s entries h in (omega arith, omega arith)

  -- The number is in a write that waits.
  abbrev pub InWrites : ℕ → List (Write P) → Type 0
  InWrites s [] = ⊥
  InWrites s (w ∷ ws) = Accounted s (records_of w) ⊎ InWrites s ws

  pub InWrites-left : (s : ℕ) (ws vs : List (Write P)) → InWrites s ws → InWrites s (ws ++ vs)
  InWrites-left s [] vs h = absurd h
  InWrites-left s (w ∷ ws) vs (inl h) = inl h
  InWrites-left s (w ∷ ws) vs (inr h) = inr (InWrites-left s ws vs h)

  pub InWrites-right : (s : ℕ) (ws vs : List (Write P)) → InWrites s vs → InWrites s (ws ++ vs)
  InWrites-right s [] vs h = h
  InWrites-right s (w ∷ ws) vs h = inr (InWrites-right s ws vs h)

abbrev pub InGap : ℕ → Option OpenGap → Type 0
InGap s none = ⊥
InGap s (some g) = (g.first_seq ≤ s) × (s ≤ g.last_seq)

-- The open gap lies among the numbers given out; it is empty where lines of the spool were unreadable.
abbrev pub Bounded : Option OpenGap → ℕ → Type 0
Bounded none last_seq = Unit {0}
Bounded (some g) last_seq = (g.first_seq ≤ last_seq + 1) × (g.last_seq ≤ last_seq)

-- The first number that a write accounts for.
abbrev pub first_of : Option EvidenceGap → ℕ → ℕ
first_of none before = before + 1
first_of (some g) before = g.first_seq

-- The gap of a write lies before its entries.
abbrev pub MadeGap : Option EvidenceGap → ℕ → Type 0
MadeGap none before = Unit {0}
MadeGap (some g) before = (g.first_seq ≤ g.seq) × (g.last_seq ≤ g.seq) × (g.seq ≤ before)

module _ {P : Type 0} where
  -- The number is recorded, is in a write that waits, or is lost in the open gap.
  abbrev pub Known : ℕ → List (EvidenceRecord P) → List (Write P) → Option OpenGap → Type 0
  Known s rs ws o = Accounted s rs ⊎ (InWrites s ws ⊎ InGap s o)

  -- The numbers of a write have been given out, and its gap lies before its entries.
  abbrev pub IsMade : ℕ → Write P → Type 0
  IsMade last_seq w = (w.before + length w.entries ≤ last_seq) × MadeGap w.gap w.before

  -- While a gap is open, no write carries one, and each write is of later numbers.
  abbrev pub Fits : Option OpenGap → Write P → Type 0
  Fits none w = Unit {0}
  Fits (some g) w = (w.gap ≡ none) × (g.first_seq ≤ w.before + 1)

  -- A write in line behind another has later numbers and no gap.
  abbrev pub Precedes : Write P → Write P → Type 0
  Precedes w v = (v.gap ≡ none) × (first_of w.gap w.before ≤ v.before + 1)

  abbrev pub Prefix : Option (List (EvidenceRecord P)) → List (EvidenceRecord P) → Type 0
  Prefix none pending = Unit {0}
  Prefix (some batch) pending = (rest : List (EvidenceRecord P)) × (pending ≡ batch ++ rest)

  -- The trail: the rows of the store, then the pending records.
  abbrev pub trail : System P → List (EvidenceRecord P)
  trail sys = sys.stored ++ sys.buffer.pending

  pub record Line (o : Option OpenGap) (last_seq : ℕ) (ws : List (Write P)) : Type 0 where
    pub bounded : Bounded o last_seq
    pub ordered : Pairwise Precedes ws
    pub fits : All (Fits o) ws
    pub made : All (IsMade last_seq) ws

  -- Every number after `base` is known, and the writes wait in order.
  pub record Inv (base : ℕ) (sys : System P) : Type 0 where
    pub known :
        (s : ℕ)
        → base < s
        → s ≤ sys.buffer.last_seq
        → Known s (trail sys) sys.writes sys.buffer.open_gap
    pub line : Line sys.buffer.open_gap sys.buffer.last_seq sys.writes
    pub sent : Prefix sys.in_flight sys.buffer.pending
