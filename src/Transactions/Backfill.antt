-- ===== src/Transactions/Backfill.antt =====
-- How `run_batched_backfill_sync` ends.
use prodkit_storage.Common.{
  Error, ℕ, zero, suc, ◌+◌, ◌≤◌, ◌<◌, ◌≡◌, refl, ◌∙◌, Bool, true, false, some, if◌then◌else◌, ltb,
  pos, pos_part, Result, ok, err, ◌>>=◌, arith, ap, inl, inr, ◌⊎◌, Bool-cases,
}
use prodkit_storage.Transactions.Batches.{
  BackfillBatch, BackfillRun, validate_options, Job, batch_body, batch_transaction, counted,
  batches_from, fresh_run, run_batched_backfill_sync,
}

module _ {W C : Type 0} (job : Job W C) (batch_size : ℕ) where
  -- The body of a batch returns `batch`, and its COMMIT leaves the database `u`.
  abbrev pub Commits : W → BackfillBatch C → W → Type 0
  Commits w batch u =
      (v : W) × (batch_body job batch_size w ≡ ok (batch, v)) × (job.commit v ≡ ok u)

  -- The body raises, or the COMMIT behind it does.
  abbrev pub Fails : W → Error → Type 0
  Fails w e =
      (batch_body job batch_size w ≡ err e)
      ⊎ ((batch : BackfillBatch C) × (v : W) × (batch_body job batch_size w ≡ ok (batch, v))
          × (job.commit v ≡ err e))

  -- `n` batches that were committed one after the other, none of them the last, and the items they processed.
  pub data Committed : (n total : ℕ) → W → W → Type 0 where
    untouched : (w : W) → Committed 0 0 w w
    then_batch :
        (n total : ℕ) (w v u : W) (batch : BackfillBatch C)
        → Commits w batch v
        → batch.done ≡ false
        → Committed n total v u
        → Committed (suc n) (pos_part batch.processed + total) w u

  pub data EndsWith (limit : ℕ) (run : BackfillRun C) (w : W)
      : Result (BackfillRun C) × W → Type 0 where
    is_done :
        (n total : ℕ) (batch : BackfillBatch C) (run' : BackfillRun C) (v u : W)
        → Committed n total w v
        → Commits v batch u
        → batch.done ≡ true
        → run'.batches ≡ run.batches + n + 1
        → run'.processed ≡ run.processed + total + pos_part batch.processed
        → run'.checkpoint ≡ batch.next_cursor
        → run'.completed ≡ true
        → run'.batches ≤ limit
        → EndsWith limit run w (ok run', u)
    is_full :
        (n total : ℕ) (run' : BackfillRun C) (u : W)
        → Committed n total w u
        → run'.batches ≡ run.batches + n
        → run'.processed ≡ run.processed + total
        → run'.completed ≡ false
        → run'.batches ≡ limit
        → EndsWith limit run w (ok run', u)
    raises :
        (n total : ℕ) (e : Error) (u : W)
        → Committed n total w u
        → run.batches + n < limit
        → Fails u e
        → EndsWith limit run w (err e, u)

  EndsWith-again :
      (limit : ℕ) (run : BackfillRun C) (w v : W) (batch : BackfillBatch C)
      (r : Result (BackfillRun C) × W)
      → Commits w batch v
      → batch.done ≡ false
      → EndsWith limit (counted job run batch) v r
      → EndsWith limit run w r
  unfolding counted
  EndsWith-again limit run w v batch r b d (is_done n total last run' x u c m f h p k q l) =
      is_done (suc n) (pos_part batch.processed + total) last run' x u
        (then_batch n total w v x batch b d c) m f (omega arith) (omega arith) k q l
  EndsWith-again limit run w v batch r b d (is_full n total run' u c h p k l) =
      is_full (suc n) (pos_part batch.processed + total) run' u
        (then_batch n total w v u batch b d c) (omega arith) (omega arith) k l
  EndsWith-again limit run w v batch r b d (raises n total e u c k h) =
      raises (suc n) (pos_part batch.processed + total) e u (then_batch n total w v u batch b d c)
        (omega arith) h

  EndsWith-last :
      (limit : ℕ) (run : BackfillRun C) (w v : W) (batch : BackfillBatch C)
      → Commits w batch v
      → run.batches < limit
      → batch.done ≡ true
      → EndsWith limit run w (ok (counted job run batch), v)
  unfolding counted
  EndsWith-last limit run w v batch b room done =
      is_done 0 0 batch (counted job run batch) w v (untouched w) b done (omega arith) (omega arith)
        refl done (omega arith)

  abbrev Attempted : W → Result (BackfillBatch C × W) → Type 0
  Attempted w (err e) = Fails w e
  Attempted w (ok (batch, u)) = Commits w batch u

  -- A transaction is committed, or fails.
  batch_transaction-Attempted : (w : W) → Attempted w (batch_transaction job batch_size w)
  unfolding batch_transaction
  batch_transaction-Attempted w = called (batch_body job batch_size w) refl
    where
      ended :
          (batch : BackfillBatch C) (v : W)
          → batch_body job batch_size w ≡ ok (batch, v)
          → (c : Result W) → job.commit v ≡ c
          → Attempted w (c >>= λ kept. ok (batch, kept))
      ended batch v e (err x) c = inr (batch, v, e, c)
      ended batch v e (ok u) c = (v, e, c)

      called :
          (o : Result (BackfillBatch C × W))
          → batch_body job batch_size w ≡ o
          → Attempted w (o >>= λ worked. job.commit worked.1 >>= λ kept. ok (worked.0, kept))
      called (err x) e = inl e
      called (ok (batch, v)) e = ended batch v e (job.commit v) refl

  counted_batches :
      (limit : ℕ) (run : BackfillRun C) (batch : BackfillBatch C)
      → (counted job run batch).batches ≡ suc run.batches
  unfolding counted
  counted_batches limit run batch = refl

  counted_completed :
      (run : BackfillRun C) (batch : BackfillBatch C)
      → (counted job run batch).completed ≡ batch.done
  unfolding counted
  counted_completed run batch = refl

if_false : {A : Type 0} (b : Bool) (x y : A) → b ≡ false → (if b then x else y) ≡ y
if_false true x y h = ground arith
if_false false x y h = refl

validate_options_ok :
    (batch_size limit : ℕ)
    → 1 ≤ batch_size
    → 1 ≤ limit
    → validate_options (pos batch_size) (some (pos limit)) ≡ ok tt
unfolding validate_options
validate_options_ok batch_size limit h k = ground arith

module _ {W C : Type 0} (job : Job W C) (batch_size limit : ℕ) where
  batches_from-EndsWith :
      (fuel : ℕ) (run : BackfillRun C) (w : W)
      → limit < run.batches + fuel
      → run.batches ≤ limit
      → run.completed ≡ false
      → (r : Result (BackfillRun C) × W) × (batches_from job batch_size (some limit) fuel run w
          ≡ some r)
        × EndsWith job batch_size limit run w r
  unfolding batches_from
  batches_from-EndsWith zero run w f k ready = ground arith
  batches_from-EndsWith (suc fuel) run w f k ready = elim (Bool-cases (ltb run.batches limit)) [
    | inr full ↦ (
      (ok run, w),
      rw full refl,
      is_full 0 0 run w (untouched w) (omega arith) (omega arith) ready (ground arith),
    )
    | inl room ↦
        case_of room
          (λ run' v below enough more. batches_from-EndsWith fuel run' v enough below more)
          (batch_transaction job batch_size w) refl (batch_transaction-Attempted job batch_size w)
  ]
    where
      case_of :
          ltb run.batches limit ≡ true
          → ((run' : BackfillRun C) (v : W)
              → run'.batches ≤ limit
              → limit < run'.batches + fuel
              → run'.completed ≡ false
              → (r : Result (BackfillRun C) × W) × (batches_from job batch_size
                    (some limit)
                    fuel
                    run'
                    v
                  ≡ some r)
                × EndsWith job batch_size limit run' v r)
          → (o : Result (BackfillBatch C × W)) → batch_transaction job batch_size w ≡ o
          → Attempted job batch_size w o
          → (r : Result (BackfillRun C) × W) × (batches_from job batch_size
                (some limit)
                (suc fuel)
                run
                w
              ≡ some r)
            × EndsWith job batch_size limit run w r
      case_of room rest (err x) e fails = (
        (err x, w),
        rw (room, e) (ap (λ (u : W). some (err x, u)) (job.rolled_back_lem w)),
        raises 0 0 x w (untouched w) (ground arith) fails,
      )
      case_of room rest (ok (batch, v)) e b = elim (Bool-cases batch.done) [
        | inl done ↦ (
          (ok (counted job run batch), v),
          rw (room, e, done) refl,
          EndsWith-last job batch_size limit run w v batch b (ground arith) done,
        )
        | inr not_done ↦
            let next = counted_batches job batch_size limit run batch in
            let (r, ran, ends) =
              rest (counted job run batch) v (ground arith) (omega arith)
                (counted_completed job batch_size run batch ∙ not_done) in
            (
              r,
              rw (room, e) (if_false batch.done _ _ not_done ∙ ran),
              EndsWith-again job batch_size limit run w v batch r b not_done ends,
            )
      ]

-- With a batch size and a limit that are allowed, fuel for one batch more than the limit is enough. The
-- call ends behind some batches, at most the limit, that are committed in a row, each from the checkpoint
-- that it loads, and none of them but the last says that it is done. It returns their number and the items
-- they processed, as completed if the last is done, and as not completed if the limit is reached without.
-- Or the next batch raises, in its body or at its COMMIT, and the call raises this, with the database as the
-- committed batches left it, provided that a ROLLBACK discards what its transaction has done.
pub run_batched_backfill_sync-EndsWith :
    {W C : Type 0} (job : Job W C) (batch_size limit : ℕ) (w : W)
    → 1 ≤ batch_size
    → 1 ≤ limit
    → (r : Result (BackfillRun C) × W) × (run_batched_backfill_sync job
          (suc limit)
          (pos batch_size)
          (some (pos limit))
          w
        ≡ some r)
      × EndsWith job batch_size limit (fresh_run job) w r
unfolding run_batched_backfill_sync
run_batched_backfill_sync-EndsWith job batch_size limit w h k =
    rw (run_batched_backfill_sync, validate_options_ok batch_size limit h k)
      (batches_from-EndsWith job batch_size limit (suc limit) (fresh_run job) w (omega arith)
        (omega arith) refl)
