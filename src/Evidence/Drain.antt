-- ===== src/Evidence/Drain.antt =====
-- The flusher of src/oracle/evidence/oracle-evidence-buffer.ts. `drain` waits for the store between
-- taking a batch and removing it, and appends run in between: the loop's body is two steps, `send`
-- up to the wait and `settle` after it, over the buffer and the batch that the wait holds.
use refract_backend.Prelude.{
  ℕ, zero, suc, ◌+◌, ◌-◌, ◌*◌, ◌^◌, min, String, Bool, true, false, ◌||◌, Option, none, some, List,
  [], ◌∷◌, ◌++◌, leb, if◌then◌else◌, length, take, drop,
}
use refract_backend.Evidence.{
  EvidenceEntry, EvidenceRecord, seq_of, Buffer, append, Write, Appending, refused, nothing_to_do,
  waits, settle_write,
}

-- `EvidenceBufferOptions`.
pub record Options : Type 0 where
  pub batch_size : ℕ
  pub base_backoff_ms : ℕ
  pub max_backoff_ms : ℕ
  pub compact_every_batches : ℕ

-- The calls of `append` that wait for the spool, which serves them in order; the buffer, the local `batch` of a `drain` that waits for the store, and the rows of the store in
-- the order in which they were persisted.
pub record System (P : Type 0) : Type 0 where
  pub writes : List (Write P)
  pub buffer : Buffer P
  pub in_flight : Option (List (EvidenceRecord P))
  pub stored : List (EvidenceRecord P)

abbrev pub is_nil {ℓ} : {A : Type ℓ} → List A → Bool
is_nil [] = true
is_nil (x ∷ xs) = false

module _ {P : Type 0} where
  -- `batch[batch.length - 1].seq` of a batch that is not empty.
  unfoldable pub last_of : EvidenceRecord P → List (EvidenceRecord P) → ℕ
  last_of r [] = seq_of r
  last_of r (s ∷ rs) = last_of s rs

  -- `scheduleRetry`.
  unfoldable pub schedule_retry : ℕ → Buffer P → Buffer P
  schedule_retry delay b = elim b.retry_in [
    | some _ ↦ b
    | none ↦ if b.stopped then b else record b { retry_in = some delay }
  ]

  -- The branch of `drain` on a store that fails.
  unfoldable pub flush_failed : Options → String → Buffer P → Buffer P
  unfolding schedule_retry
  flush_failed options reason b =
      let failures = b.failures + 1 in
      schedule_retry (min options.max_backoff_ms (options.base_backoff_ms * 2 ^ (failures - 1)))
        (record b { failures = failures; store_healthy = false; last_store_error = some reason })

  -- The rest of the loop's body, once the batch `r ∷ rs` is stored.
  unfoldable pub flush_stored :
      Options → EvidenceRecord P → List (EvidenceRecord P) → Buffer P → Buffer P
  unfolding last_of
  flush_stored options r rs b =
      let rest = drop (length (r ∷ rs)) b.pending in
      let compact = leb options.compact_every_batches (b.batches_since_compact + 1) in
      record b {
        pending = rest;
        last_stored_seq = last_of r rs;
        failures = 0;
        store_healthy = true;
        last_store_error = none;
        batches_since_compact = if compact || is_nil rest then 0 else b.batches_since_compact + 1;
      }

  -- `while (this.pending.length > 0)`: up to the wait. One drain runs at a time (`flushing`).
  unfoldable pub send : Options → System P → System P
  send options sys = elim sys.in_flight [
    | some _ ↦ sys
    | none ↦
        if is_nil sys.buffer.pending
        then sys
        else record sys { in_flight = some (take options.batch_size sys.buffer.pending) }
  ]

  -- After the wait; `outcome` is the message of a failure. An empty batch, which only a batch size of
  -- 0 makes, throws when its last record is read, and changes nothing.
  unfoldable pub settle_batch :
      Options → Option String → List (EvidenceRecord P) → System P → System P
  unfolding flush_failed flush_stored
  settle_batch options (some reason) batch sys = record sys {
    buffer = flush_failed options reason sys.buffer;
    in_flight = none;
  }
  settle_batch options none [] sys = record sys { in_flight = none }
  settle_batch options none (r ∷ rs) sys = record sys {
    buffer = flush_stored options r rs sys.buffer;
    in_flight = none;
    stored = sys.stored ++ r ∷ rs;
  }

  unfoldable pub settle : Options → Option String → System P → System P
  unfolding settle_batch
  settle options outcome sys = elim sys.in_flight [
    | none ↦ sys
    | some batch ↦ settle_batch options outcome batch sys
  ]

-- What can happen to a buffer that has started: the two halves of a call of `append` and of a drain,
-- the retry timer, and `stop`.
pub data Event (P : Type 0) : Type 0 where
  appends : ℕ → List (EvidenceEntry P) → Event P
  writes_settle : ℕ → Option String → Event P
  sends : Event P
  settles : Option String → Event P
  fires : Event P
  stops : Event P

module _ {P : Type 0} where
  -- The call that has begun waits in line.
  abbrev pub enqueue : Appending P → List (Write P) → List (Write P)
  enqueue (refused e) writes = writes
  enqueue nothing_to_do writes = writes
  enqueue (waits w) writes = writes ++ w ∷ []

  -- The first call in line goes on.
  unfoldable pub settle_first : ℕ → Option String → List (Write P) → System P → System P
  unfolding settle_write
  settle_first now written [] sys = sys
  settle_first now written (w ∷ ws) sys = record sys {
    writes = ws;
    buffer = (settle_write now written w sys.buffer).1;
  }

  unfoldable pub step : Options → Event P → System P → System P
  unfolding send settle append settle_first
  step options (appends now entries) sys = record sys {
    writes = enqueue (append now entries sys.buffer).0 sys.writes;
    buffer = (append now entries sys.buffer).1;
  }
  step options (writes_settle now written) sys = settle_first now written sys.writes sys
  step options sends sys = send options sys
  step options (settles outcome) sys = settle options outcome sys
  step options fires sys = record sys { buffer = record (sys.buffer) { retry_in = none } }
  step options stops sys = record sys {
    buffer = record (sys.buffer) { stopped = true; retry_in = none };
  }

  unfoldable pub run : Options → List (Event P) → System P → System P
  unfolding step
  run options [] sys = sys
  run options (e ∷ es) sys = run options es (step options e sys)

  -- The rounds of `drain` with nothing in between, while the store accepts.
  unfoldable pub drain : ℕ → Options → System P → System P
  unfolding send settle
  drain zero options sys = sys
  drain (suc rounds) options sys = drain rounds options (settle options none (send options sys))
