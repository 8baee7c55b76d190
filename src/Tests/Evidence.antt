-- ===== src/Tests/Evidence.antt =====
-- src/oracle/evidence at concrete inputs.
use refract_backend.Prelude.{
  ℕ, ◌≡◌, refl, inl, inr, true, none, some, List, [], ◌∷◌, ◌++◌, arith, map, string_discrete,
}
use refract_backend.Evidence.{
  is_coverage_type, EvidenceEntry, reading, SpoolRecovery, new_buffer, start, append, seq_of,
  records_of, settle_write, note_loss,
}
use refract_backend.Evidence.Drain.{
  Options, System, Event, appends, writes_settle, sends, settles, run, drain, step, settle_first,
  send, settle,
}
use refract_backend.Evidence.Trail.{Known}
use refract_backend.Evidence.History.{AllQuiet}
use refract_backend.Evidence.Recovery.{Drained, system, trail_complete, drain_total}

abbrev options : Options
options = record {
  batch_size = 2;
  base_backoff_ms = 1000;
  max_backoff_ms = 60000;
  compact_every_batches = 10;
}

abbrev entry : EvidenceEntry ℕ
entry = record { kind = reading; coverage_type = "FlightDelay"; recorded_at = 5; content = 7 }

abbrev nothing : SpoolRecovery ℕ
nothing = record { pending = []; high_water_seq = 0; discarded_lines = 0 }

-- One entry is written; of two calls that wait together both are lost while the disk is full; one more
-- entry is written.
abbrev outage : List (Event ℕ)
outage =
    appends 10 (entry ∷ [])
    ∷ writes_settle 10 none
    ∷ sends
    ∷ appends 11 (entry ∷ [])
    ∷ appends 11 (entry ∷ [])
    ∷ settles none
    ∷ writes_settle 12 (some "disk full")
    ∷ writes_settle 12 (some "disk full")
    ∷ appends 13 (entry ∷ [])
    ∷ writes_settle 13 none
    ∷ []

started : System ℕ
unfolding start new_buffer
started = system (start 9 nothing new_buffer)

after_outage : System ℕ
unfolding run started is_coverage_type string_discrete records_of
after_outage = run options outage started

after_outage_last : after_outage.buffer.last_seq ≡ 5
unfolding after_outage
after_outage_last = refl

after_outage_pending : map seq_of after_outage.buffer.pending ≡ 4 ∷ 5 ∷ []
unfolding after_outage
after_outage_pending = refl

outage_quiet : AllQuiet options outage (system (start 9 nothing new_buffer))
unfolding run step append settle_first settle_write start new_buffer is_coverage_type
    string_discrete records_of note_loss send settle
outage_quiet =
    (inl refl, (tt, (tt, (inl refl, (inl refl, (tt, (tt, (tt, (inr refl, (tt, tt))))))))))

trail_complete_example :
    Known 3
      (after_outage.stored ++ after_outage.buffer.pending)
      after_outage.writes
      after_outage.buffer.open_gap
unfolding after_outage started
trail_complete_example =
    trail_complete 9 nothing new_buffer options outage 3 refl refl outage_quiet (omega arith)
      (omega (arith, after_outage_last))

-- Two calls that each carry a gap wait together, and both fail: number 1 was lost, and the gap that is
-- left open begins at number 2.
abbrev overlap : List (Event ℕ)
overlap =
    appends 10 (entry ∷ [])
    ∷ appends 10 (entry ∷ [])
    ∷ writes_settle 11 (some "disk full")
    ∷ appends 12 (entry ∷ [])
    ∷ writes_settle 13 (some "disk full")
    ∷ appends 14 (entry ∷ [])
    ∷ writes_settle 15 (some "disk full")
    ∷ writes_settle 16 (some "disk full")
    ∷ []

overlapped : System ℕ
unfolding run started is_coverage_type string_discrete records_of
overlapped = run options overlap started

overlapped_gap :
    (overlapped.buffer.pending ≡ [])
    × (overlapped.writes ≡ [])
    × (overlapped.buffer.open_gap
        ≡ some (record {
          first_seq = 2;
          last_seq = 6;
          lost_count = 3;
          since = 13;
          reason = "disk full";
        }))
unfolding overlapped
overlapped_gap = (refl, refl, refl)

prototype_key : is_coverage_type "toString" ≡ true
unfolding is_coverage_type string_discrete
prototype_key = refl

waiting : System ℕ
unfolding run start new_buffer is_coverage_type string_discrete records_of
waiting =
    run options (appends 10 (entry ∷ entry ∷ entry ∷ []) ∷ writes_settle 10 none ∷ [])
      (system (start 9 nothing new_buffer))

drain_total_example : Drained waiting (drain 3 options waiting)
unfolding waiting
drain_total_example = drain_total 3 options waiting (omega arith) refl (omega arith)
