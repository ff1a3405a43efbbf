-- ===== src/Usage/Batch.antt =====
-- `BatchWriter` of internal/usage/batch.go. `sent` is what the sink has taken, which no code reads.
-- Whether the sink takes a batch is part of the event; a ticker may fire at any time.
use softmatrix_airlock.Base.{
  ℕ, ◌+◌, Bool, true, false, Option, none, some, List, [], ◌∷◌, ◌++◌, length, ltb, leb,
  if◌then◌else◌,
}

pub record Writer (A : Type 0) : Type 0 where
  pub queue : List A
  pub batch : List A
  pub sent : List A
  pub dropped : ℕ
  pub closed : Bool
  pub finished : Bool

pub data Event (A : Type 0) : Type 0 where
  writes : A → Event A
  receives ticks : Bool → Event A
  closes : Event A

abbrev pub queue_capacity : ℕ
queue_capacity = 4096

module _ {A : Type 0} where
  unfoldable pub new_batch_writer : Writer A
  new_batch_writer = record {
    queue = [];
    batch = [];
    sent = [];
    dropped = 0;
    closed = false;
    finished = false;
  }

  abbrev pub drop : ℕ → Writer A → Writer A
  drop n w = record w { dropped = w.dropped + n }

  -- `Write` never waits: it drops the record when the queue is closed or full.
  unfoldable pub write : ℕ → A → Writer A → Writer A
  write capacity r w =
      if w.closed
      then drop 1 w
      else if ltb (length w.queue) capacity
      then record w { queue = w.queue ++ r ∷ [] }
      else drop 1 w

  -- `flush`, with the sink's answer. An empty batch is not sent, and a failed one is counted.
  unfoldable pub flush : Bool → Writer A → Writer A
  flush taken w =
      if taken
      then record w { sent = w.sent ++ w.batch; batch = [] }
      else record w { dropped = w.dropped + length w.batch; batch = [] }

  -- A record joins the batch, which is flushed when it has its size.
  unfoldable pub append_record : ℕ → Bool → A → Writer A → Writer A
  unfolding flush
  append_record batch_size taken r w =
      let w' : Writer A = record w { batch = w.batch ++ r ∷ [] } in
      if leb batch_size (length w'.batch) then flush taken w' else w'

  -- The case of the select that reads the queue: the queue as it stands, and the rest of the state.
  unfoldable pub receive : ℕ → Bool → List A → Writer A → Option (Writer A)
  unfolding append_record
  receive batch_size taken [] w =
      if w.closed then some (record (flush taken w) { finished = true }) else none
  receive batch_size taken (r ∷ rest) w =
      some (append_record batch_size taken r (record w { queue = rest }))

  unfoldable pub close : Writer A → Writer A
  close w = record w { closed = true }

  -- One event, where it is enabled. The goroutine takes part until it has finished.
  unfoldable pub step : ℕ → ℕ → Event A → Writer A → Option (Writer A)
  step capacity batch_size (writes r) w = some (write capacity r w)
  step capacity batch_size (receives taken) w =
      if w.finished then none else receive batch_size taken w.queue w
  step capacity batch_size (ticks taken) w = if w.finished then none else some (flush taken w)
  step capacity batch_size closes w = some (close w)

  unfoldable pub run : ℕ → ℕ → List (Event A) → Writer A → Option (Writer A)
  run capacity batch_size [] w = some w
  run capacity batch_size (e ∷ es) w = elim (step capacity batch_size e w) [
    | none ↦ none
    | some w' ↦ run capacity batch_size es w'
  ]
