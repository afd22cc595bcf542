-- ===== src/Transactions/Examples.antt =====
-- Exceptions with a cycle, an operation that fails once, and a backfill of five rows.
use prodkit_storage.Transactions.UnitOfWork.{SessionCalls, UnitOfWork}
use prodkit_storage.Common.{
  if◌then◌else◌, Bool, ℕ, zero, suc, ◌+◌, ◌≡◌, refl, true, false, Option, none, some, String, [],
  ◌∷◌, leb, pos, Result, ok, arith, ◌==◌,
}
use prodkit_storage.Transactions.Errors.{
  Exceptions, get_sqlstate, search_sqlstate, Carries, get_sqlstate_lem,
}
use prodkit_storage.Transactions.Retry.{
  Call, Factory, returned, raised, run_sync_transaction, Ran, run_sync_transaction-Ran,
}
use prodkit_storage.Transactions.Batches.{BackfillRun, Job, run_batched_backfill_sync, fresh_run}
use prodkit_storage.Transactions.Backfill.{EndsWith, run_batched_backfill_sync-EndsWith}

-- 0 wraps 1, which carries a code and is raised while 0 is handled.
abbrev linked : Exceptions
linked zero = record {
  sqlstate = none;
  pgcode = none;
  orig = some 1;
  cause = none;
  context = some 0;
  is_dbapi_error = true;
}
linked (suc n) = record {
  sqlstate = some "40P01";
  pgcode = none;
  orig = none;
  cause = some 0;
  context = none;
  is_dbapi_error = false;
}

linked_sqlstate : get_sqlstate linked 0 ≡ some "40P01"
unfolding get_sqlstate
linked_sqlstate = refl

get_sqlstate_lem_example :
    ((o : Option String) × (search_sqlstate linked 50 (0 ∷ []) [] ≡ some o))
    × ((v : String) → get_sqlstate linked 0 ≡ some v → Carries linked 0 v)
get_sqlstate_lem_example = get_sqlstate_lem linked 0

-- A COMMIT fails on a database of 30 or more.
abbrev store : Factory ℕ
store = record {
  commit = λ w. if leb 30 w then (raised 9, 0) else (returned tt, w);
  rollback = λ begun now. begun;
  rollback_lem = λ begun now. refl;
}

-- The database counts the attempts that others saw; the first one fails.
abbrev flaky : ℕ → Call ℕ × ℕ
flaky zero = (raised 7, 99)
flaky (suc n) = (returned 5, suc n + 10)

flaky_runs :
    run_sync_transaction store flaky (λ e. true) (λ n. n) (λ n w. suc w) (pos 3) (pos 50) 0
    ≡ (ok (returned 5), 11)
unfolding run_sync_transaction
flaky_runs = refl

commit_fails :
    run_sync_transaction store flaky (λ e. true) (λ n. n) (λ n w. suc w) (pos 2) (pos 50) 20
    ≡ (ok (raised 9), 21)
unfolding run_sync_transaction
commit_fails = refl

run_sync_transaction-Ran_example :
    Ran store flaky
      (λ e. true)
      (λ n. n)
      (λ n w. suc w)
      3
      50
      1
      0
      (run_sync_transaction store flaky (λ e. true) (λ n. n) (λ n w. suc w) (pos 3) (pos 50) 0)
run_sync_transaction-Ran_example =
    run_sync_transaction-Ran store flaky (λ e. true) (λ n. n) (λ n w. suc w) 3 50 0 (omega arith)
      (omega arith)

-- The checkpoint is the number of the rows that are done, and the database keeps it.
abbrev or_zero : Option ℕ → ℕ
or_zero none = 0
or_zero (some n) = n

abbrev five_rows : Job ℕ ℕ
five_rows = record {
  load_checkpoint = λ w. ok (some w, w);
  process_batch = λ c n w. ok (
    record { next_cursor = some (or_zero c + n); processed = pos n; done = leb 5 (or_zero c + n) },
    w,
  );
  save_checkpoint = λ c w. ok (or_zero c);
  commit = λ w. ok w;
  rolled_back = λ begun. begun;
  rolled_back_lem = λ begun. refl;
  same_cursor = λ a b. or_zero a == or_zero b;
}

five_rows_run :
    run_batched_backfill_sync five_rows 11 (pos 2) (some (pos 10)) 0
    ≡ some (ok (record { batches = 3; processed = 6; checkpoint = some 6; completed = true }), 6)
unfolding run_batched_backfill_sync
five_rows_run = refl

run_batched_backfill_sync-EndsWith_example :
    (r : Result (BackfillRun ℕ) × ℕ) × (run_batched_backfill_sync five_rows 11
        (pos 2)
        (some (pos 10))
        0
      ≡ some r)
    × EndsWith five_rows 2 10 (fresh_run five_rows) 0 r
run_batched_backfill_sync-EndsWith_example =
    run_batched_backfill_sync-EndsWith five_rows 2 10 0 (omega arith) (omega arith)

-- A session is what it has written and what is committed.
abbrev drafts : SessionCalls (ℕ × ℕ)
drafts = record {
  begin = λ s. (ok tt, (s.1, s.1));
  commit = λ s. (ok tt, (s.0, s.0));
  rollback = λ s. (ok tt, (s.1, s.1));
  close = λ s. s;
}

abbrev scribble : UnitOfWork (ℕ × ℕ) → Bool × UnitOfWork (ℕ × ℕ)
scribble u = (true, record u { session = (u.session.0 + 5, u.session.1) })
