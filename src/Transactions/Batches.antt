-- ===== src/Transactions/Batches.antt =====
-- `run_batched_backfill_sync` and `run_batched_backfill_async`. `W` is the database and `C` the type
-- of the cursors.
use prodkit_storage.Common.{
  ℕ, zero, suc, ◌+◌, ◌≡◌, Bool, true, false, ◌&&◌, not, Option, none, some, if◌then◌else◌, ltb, ℤ,
  pos, pos_part, leb_ℤ, Result, ok, err, value_error, runtime_error, raise_if, ◌>>=◌, ◌>>◌,
}

pub record BackfillBatch (C : Type 0) : Type 0 where
  pub next_cursor : Option C
  pub processed : ℤ
  pub done : Bool

pub record BackfillRun (C : Type 0) : Type 0 where
  pub batches : ℕ
  pub processed : ℕ
  pub checkpoint : Option C
  pub completed : Bool

abbrev pub below_one : Option ℤ → Bool
below_one none = false
below_one (some n) = leb_ℤ n (pos 0)

unfoldable pub validate_options : ℤ → Option ℤ → Result (Unit {0})
validate_options batch_size max_batches = do
  raise_if (leb_ℤ batch_size (pos 0)) value_error
  raise_if (below_one max_batches) value_error

-- The caller's functions, each run in the session's transaction, the COMMIT and the ROLLBACK at the exit of
-- `session.begin()`, and `==` on cursors. A ROLLBACK leaves the database as the transaction found it, as PostgreSQL
-- documents.
pub record Job (W C : Type 0) : Type 0 where
  pub load_checkpoint : W → Result (Option C × W)
  pub process_batch : Option C → ℕ → W → Result (BackfillBatch C × W)
  pub save_checkpoint : Option C → W → Result W
  pub commit : W → Result W
  pub rolled_back : (begun : W) → W
  pub rolled_back_lem : (begun : W) → rolled_back begun ≡ begun
  pub same_cursor : Option C → Option C → Bool

module _ {W C : Type 0} (job : Job W C) where
  unfoldable pub validate_batch : BackfillBatch C → Option C → Result (Unit {0})
  validate_batch batch checkpoint = do
    raise_if (not (leb_ℤ (pos 0) batch.processed)) value_error
    raise_if
        (not batch.done
          && leb_ℤ batch.processed (pos 0)
          && leb_ℤ (pos 0) batch.processed
          && job.same_cursor batch.next_cursor checkpoint)
        runtime_error

  -- The body of `with session_factory() as session, session.begin()`.
  unfoldable pub batch_body : ℕ → W → Result (BackfillBatch C × W)
  unfolding validate_batch
  batch_body batch_size w = do
    loaded ← job.load_checkpoint w
    worked ← job.process_batch loaded.0 batch_size loaded.1
    validate_batch worked.0 loaded.0
    saved ← job.save_checkpoint worked.0.next_cursor worked.1
    ok (worked.0, saved)

  -- The whole `with` statement: the body, then the COMMIT.
  unfoldable pub batch_transaction : ℕ → W → Result (BackfillBatch C × W)
  unfolding batch_body
  batch_transaction batch_size w = do
    worked ← batch_body batch_size w
    kept ← job.commit worked.1
    ok (worked.0, kept)

  -- `max_batches is None or batches < max_batches`
  abbrev pub goes_on : Option ℕ → ℕ → Bool
  goes_on none batches = true
  goes_on (some limit) batches = ltb batches limit

  unfoldable pub counted : BackfillRun C → BackfillBatch C → BackfillRun C
  counted run batch = record {
    batches = suc run.batches;
    processed = run.processed + pos_part batch.processed;
    checkpoint = batch.next_cursor;
    completed = batch.done;
  }

  -- The loop. A transaction that raises, at its COMMIT or before, is rolled back. `none`: the fuel ran out.
  unfoldable pub batches_from :
      (batch_size : ℕ) (max_batches : Option ℕ) (fuel : ℕ)
      → BackfillRun C
      → W
      → Option (Result (BackfillRun C) × W)
  unfolding batch_transaction counted
  batches_from batch_size max_batches zero run w = none
  batches_from batch_size max_batches (suc fuel) run w =
      if goes_on max_batches run.batches
      then elim (batch_transaction batch_size w) [
        | err e ↦ some (err e, job.rolled_back w)
        | ok (batch, w') ↦
            let rest = batches_from batch_size max_batches fuel (counted run batch) w' in
            if batch.done then some (ok (counted run batch), w') else rest
      ]
      else some (ok run, w)

  abbrev pub limit_of : Option ℤ → Option ℕ
  limit_of none = none
  limit_of (some n) = some (pos_part n)

  abbrev pub fresh_run : BackfillRun C
  fresh_run = record { batches = 0; processed = 0; checkpoint = none; completed = false }

  unfoldable pub run_batched_backfill_sync :
      (fuel : ℕ) (batch_size : ℤ) (max_batches : Option ℤ) → W → Option (Result (BackfillRun C) × W)
  unfolding batches_from validate_options
  run_batched_backfill_sync fuel batch_size max_batches w =
      elim (validate_options batch_size max_batches) [
        | err e ↦ some (err e, w)
        | ok _ ↦ batches_from (pos_part batch_size) (limit_of max_batches) fuel fresh_run w
      ]
