-- ===== src/Usage/Tests.antt =====
-- A writer with room for two records and batches of two, and its witnesses.
use softmatrix_airlock.Base.{
  Bool, ◌++◌, ℕ, ◌+◌, ◌≤◌, ◌<◌, ◌≡◌, refl, ◌⊎◌, true, false, some, List, [], ◌∷◌, length, arith,
}
use softmatrix_airlock.Usage.Batch.{
  Writer, Event, writes, receives, ticks, closes, new_batch_writer, write, flush, append_record,
  receive, close, step, run,
}
use softmatrix_airlock.Usage.Conservation.{no_record_lost}
use softmatrix_airlock.Usage.Accounts.{Without, offered}
use softmatrix_airlock.Usage.Closing.{receptions, IsDone, close_ends}

-- The third write finds the queue full, and the last one finds it closed.
abbrev events : List (Event ℕ)
events =
    writes 1
    ∷ writes 2
    ∷ writes 3
    ∷ receives true
    ∷ writes 4
    ∷ receives true
    ∷ ticks false
    ∷ closes
    ∷ receives false
    ∷ writes 5
    ∷ receives false
    ∷ []

abbrev final : Writer ℕ
final = record {
  queue = [];
  batch = [];
  sent = 1 ∷ 2 ∷ [];
  dropped = 3;
  closed = true;
  finished = true;
}

runs : run 2 2 events new_batch_writer ≡ some final
unfolding run step receive append_record flush write close new_batch_writer
runs = refl

no_record_lost_example :
    Without (final.sent ++ (final.batch ++ final.queue)) final.dropped (offered events)
    × (length final.queue ≤ 2)
    × (length final.batch < 2)
    × ((final.finished ≡ false) ⊎ Without final.sent final.dropped (offered events))
no_record_lost_example = no_record_lost 2 2 events final (omega arith) runs

abbrev waiting : Writer ℕ
waiting = record {
  queue = 7 ∷ 8 ∷ [];
  batch = 6 ∷ [];
  sent = [];
  dropped = 0;
  closed = false;
  finished = false;
}

-- A tick, a write that comes too late and a second `Close` between the receptions.
abbrev closing : List (Event ℕ)
closing = receives true ∷ ticks false ∷ writes 9 ∷ receives false ∷ closes ∷ receives true ∷ []

abbrev closed_writer : Writer ℕ
closed_writer = record {
  queue = [];
  batch = [];
  sent = 6 ∷ 7 ∷ 8 ∷ [];
  dropped = 1;
  closed = true;
  finished = true;
}

closing_runs : run 2 2 closing (close waiting) ≡ some closed_writer
unfolding run step receive append_record flush write close
closing_runs = refl

close_ends_example :
    ((true ≡ false)
      × (receptions closing + 0 ≡ 2)
      × ((taken : Bool)
          → (next : Writer ℕ) × (step 2 2 (receives taken) closed_writer ≡ some next)))
    ⊎ ((receptions closing ≡ 3) × IsDone closed_writer)
close_ends_example = close_ends 2 2 closing waiting closed_writer refl closing_runs
