-- ===== src/Ingestion/Order.antt =====
-- The readings that a source publishes of a feed are in order (oracle-ingestion.pipeline.ts): each
-- that is accepted is newer than the one accepted before it.
use refract_backend.Prelude.{
  ℕ, ◌<◌, false, Option, none, some, List, [], ◌∷◌, ◌++◌, keep, Option-cases, ◌≡◌, refl, sym, ap,
  subst, ◌∙◌, arith, inl, inr, if_intro,
}
use refract_backend.Prelude.Dict.{Dict, lookup, insert, lookup-insert_self, lookup-insert_ne}
use refract_backend.Ingestion.{
  Text, text_discrete, same_text, same_text→eq, same_text→ne, Timestamp, ms, infinite,
  minus_infinite, nan, SourceReading, IngestedReading, OracleSourceAdapter, IngestionConfig,
  ReadingRejectReason, Runtime,
}
use refract_backend.Ingestion.Pipeline.{
  LastAccepted, Batch, joined_key, finite_time, observed_ms, is_behind, check_order, check_time,
  check, note_accepted, add_checked, accept_each,
}

finite_time-observed_ms : (t : Timestamp) {n : ℕ} → finite_time t ≡ some n → n ≡ observed_ms t
finite_time-observed_ms (ms t) h = ground arith
finite_time-observed_ms infinite h = absurd (ground arith)
finite_time-observed_ms minus_infinite h = absurd (ground arith)
finite_time-observed_ms nan h = absurd (ground arith)

module _ {V : Type 0} where
  abbrev mark_of : SourceReading V → LastAccepted
  mark_of r = record { observed_at = observed_ms r.observed_at; sequence = r.sequence }

  -- The reading is later than the last one, and its sequence number is not behind.
  unfoldable pub IsNewer : Option LastAccepted → SourceReading V → Type 0
  IsNewer none r = Unit
  IsNewer (some last) r =
      (last.observed_at < observed_ms r.observed_at) × (is_behind last.sequence r.sequence ≡ false)

  -- Each reading is newer than the one before it, the first than the last one accepted so far.
  unfoldable pub IsIncreasing : Option LastAccepted → List (IngestedReading V) → Type 0
  unfolding IsNewer
  IsIncreasing last [] = Unit
  IsIncreasing last (r ∷ rs) = IsNewer last r.reading × IsIncreasing (some (mark_of r.reading)) rs

  -- The last reading once these are accepted.
  unfoldable pub last_after : Option LastAccepted → List (IngestedReading V) → Option LastAccepted
  last_after last [] = last
  last_after last (r ∷ rs) = last_after (some (mark_of r.reading)) rs

  -- The readings of a source and a feed.
  abbrev pub of_key : Text → List (IngestedReading V) → List (IngestedReading V)
  of_key key rs = keep (λ r. same_text (joined_key r.source_id r.reading.feed_id) key) rs

  IsIncreasing-append :
      (last : Option LastAccepted) (xs ys : List (IngestedReading V))
      → IsIncreasing last xs
      → IsIncreasing (last_after last xs) ys
      → IsIncreasing last (xs ++ ys)
  unfolding IsIncreasing last_after
  IsIncreasing-append last [] ys h k = k
  IsIncreasing-append last (x ∷ xs) ys (n, h) k =
      (n, IsIncreasing-append (some (mark_of x.reading)) xs ys h k)

  check_order-IsNewer :
      (last : Option LastAccepted) (r : SourceReading V)
      → check_order last (observed_ms r.observed_at) r.sequence ≡ none
      → IsNewer last r
  unfolding check_order IsNewer
  check_order-IsNewer none r h = tt
  check_order-IsNewer (some last) r h = (ground (arith, h), ground (arith, h))

module _ {V Json : Type 0} (runtime : Runtime V Json) (cfg : IngestionConfig) (capacity : ℕ) where
  check_time-check_order :
      (now t : ℕ) (signed : Option ℕ) (last : Option LastAccepted) (sequence : Option ℕ)
      → check_time cfg now signed last sequence t ≡ none
      → check_order last t sequence ≡ none
  unfolding check_time
  check_time-check_order now t signed last sequence h = ground (arith, h)

  check-check_time :
      (source : OracleSourceAdapter V Json) (r : SourceReading V) (now : ℕ) (signed : Option ℕ)
      (last : Dict Text LastAccepted)
      → check runtime cfg capacity source r now signed last ≡ none
      → check_time cfg now signed
          (lookup text_discrete (joined_key source.id r.feed_id) last)
          r.sequence
          (observed_ms r.observed_at)
        ≡ none
  unfolding check
  check-check_time source r now signed last h = elim (Option-cases (finite_time r.observed_at)) [
    | inl missing ↦ absurd (ground (arith, h, missing))
    | inr (t, finite) ↦
        ap
          (check_time cfg now signed (lookup text_discrete (joined_key source.id r.feed_id) last)
            r.sequence)
          (sym (finite_time-observed_ms r.observed_at finite))
        ∙ ground (arith, h, finite)
  ]

  -- The readings of a key that a loop accepts are in order, and the last of them is recorded.
  unfoldable pub InOrder : Text → Option LastAccepted → Batch V → Type 0
  InOrder key last batch =
      IsIncreasing last (of_key key batch.result.accepted)
      × (lookup text_discrete key batch.last_accepted
          ≡ last_after last (of_key key batch.result.accepted))

  added_accepted :
      (source : OracleSourceAdapter V Json) (now : ℕ) (key : Text) (r : SourceReading V)
      (rest : Batch V) (last : Dict Text LastAccepted)
      → IsNewer (lookup text_discrete (joined_key source.id r.feed_id) last) r
      → InOrder key
          (lookup text_discrete key (note_accepted runtime cfg capacity source r none last))
          rest
      → InOrder key (lookup text_discrete key last) (record {
        result = add_checked runtime cfg capacity source now r none rest.result;
        last_accepted = rest.last_accepted;
      })
  unfolding InOrder note_accepted add_checked IsIncreasing last_after
  added_accepted source now key r rest last newer h =
      let k = joined_key source.id r.feed_id in
      let rs = of_key key rest.result.accepted in
      if_intro
        (λ (xs : List (IngestedReading V)).
          IsIncreasing (lookup text_discrete key last) xs
          × (lookup text_discrete key rest.last_accepted
              ≡ last_after (lookup text_discrete key last) xs))
        (same_text k key)
        (λ t.
          let e = same_text→eq k key t in
          let h1 =
            subst (λ o. InOrder key o rest)
              (subst
                (λ j.
                  lookup text_discrete j (insert text_discrete k (mark_of r) last)
                  ≡ some (mark_of r))
                e (lookup-insert_self text_discrete k (mark_of r) last))
              h in
          ((subst (λ j. IsNewer (lookup text_discrete j last) r) e newer, h1.0), h1.1))
        (λ f.
          subst (λ o. InOrder key o rest)
            (lookup-insert_ne text_discrete k key (mark_of r) last (same_text→ne k key f)) h)

  added-InOrder :
      (source : OracleSourceAdapter V Json) (now : ℕ) (signed : Option ℕ) (key : Text)
      (r : SourceReading V) (last : Dict Text LastAccepted)
      (rest : Dict Text LastAccepted → Batch V) (o : Option ReadingRejectReason)
      → check runtime cfg capacity source r now signed last ≡ o
      → ((d : Dict Text LastAccepted) → InOrder key (lookup text_discrete key d) (rest d))
      → InOrder key (lookup text_discrete key last) (record {
        result =
            add_checked runtime cfg capacity source now r o
              (rest (note_accepted runtime cfg capacity source r o last)).result;
        last_accepted = (rest (note_accepted runtime cfg capacity source r o last)).last_accepted;
      })
  unfolding note_accepted add_checked InOrder
  added-InOrder source now signed key r last rest (some reason) e h = h last
  added-InOrder source now signed key r last rest none e h =
      let after = note_accepted runtime cfg capacity source r none last in
      added_accepted source now key r (rest after) last
        (check_order-IsNewer (lookup text_discrete (joined_key source.id r.feed_id) last) r (
          check_time-check_order now (observed_ms r.observed_at) signed
            (lookup text_discrete (joined_key source.id r.feed_id) last) r.sequence
            (check-check_time source r now signed last e)))
        (h after)

  -- Of each source and feed, the readings that a batch accepts have strictly growing times and no
  -- sequence number that falls behind, from the last reading that was recorded on, and the last
  -- of them is recorded.
  pub accept_each-InOrder :
      (source : OracleSourceAdapter V Json) (now : ℕ) (signed : Option ℕ) (key : Text)
      (rs : List (SourceReading V)) (last : Dict Text LastAccepted)
      → InOrder key
          (lookup text_discrete key last)
          (accept_each runtime cfg capacity source now signed rs last)
  unfolding accept_each InOrder IsIncreasing last_after
  accept_each-InOrder source now signed key [] last = (tt, refl)
  accept_each-InOrder source now signed key (r ∷ rs) last =
      added-InOrder source now signed key r last
        (accept_each runtime cfg capacity source now signed rs)
        (check runtime cfg capacity source r now signed last) refl
        (λ d. accept_each-InOrder source now signed key rs d)
