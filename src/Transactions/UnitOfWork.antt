-- ===== src/Transactions/UnitOfWork.antt =====
-- `SyncUnitOfWork` and `AsyncUnitOfWork` of database/uow.py: the same calls, awaited in the second. `S`
-- is the session with its database, and the session's calls are arguments.
use prodkit_storage.Common.{
  Bool, true, false, ◌||◌, not, Result, ok, err, if◌then◌else◌, ◌≡◌, ◌∙◌, inl, inr, Bool-cases,
}

pub record SessionCalls (S : Type 0) : Type 0 where
  pub begin : S → Result (Unit {0}) × S
  pub commit : S → Result (Unit {0}) × S
  pub rollback : S → Result (Unit {0}) × S
  pub close : S → S

pub record UnitOfWork (S : Type 0) : Type 0 where
  pub session : S
  pub finished : Bool

module _ {S : Type 0} (calls : SessionCalls S) where
  abbrev pub entered : Result (Unit {0}) × S → Result (Unit {0}) × UnitOfWork S
  entered (err e, s) = (err e, record { session = calls.close s; finished = false })
  entered (ok _, s) = (ok tt, record { session = s; finished = false })

  -- `__enter__`, with the session that the factory makes
  unfoldable pub enter : S → Result (Unit {0}) × UnitOfWork S
  enter session = entered (calls.begin session)

  abbrev pub finishing : Bool → Result (Unit {0}) × S → Result (Unit {0}) × UnitOfWork S
  finishing finished (err e, s) = (err e, record { session = s; finished = finished })
  finishing finished (ok _, s) = (ok tt, record { session = s; finished = true })

  unfoldable pub commit : UnitOfWork S → Result (Unit {0}) × UnitOfWork S
  commit u = finishing u.finished (calls.commit u.session)

  unfoldable pub rollback : UnitOfWork S → Result (Unit {0}) × UnitOfWork S
  rollback u = finishing u.finished (calls.rollback u.session)

  abbrev pub closed : Result (Unit {0}) × S → Result (Unit {0}) × S
  closed (r, s) = (r, calls.close s)

  -- `__exit__`. `raised` says whether an exception leaves the block, and the result whether the exit
  -- itself raises.
  unfoldable pub exit : (raised : Bool) → UnitOfWork S → Result (Unit {0}) × S
  exit raised u =
      if raised || not u.finished
      then closed (calls.rollback u.session)
      else (ok tt, calls.close u.session)

  -- `with unit: body(unit)`, for a body that may commit and roll back, and that says whether an
  -- exception leaves it. A unit that is not entered is not left.
  abbrev pub left_by :
      (UnitOfWork S → Bool × UnitOfWork S)
      → Result (Unit {0}) × UnitOfWork S
      → Result (Unit {0}) × S
  left_by body (err e, u) = (err e, u.session)
  left_by body (ok _, u) = let (raised, u') = body u in exit raised u'

  unfoldable pub run : (UnitOfWork S → Bool × UnitOfWork S) → S → Result (Unit {0}) × S
  unfolding enter exit
  run body session = left_by body (enter session)

  -- If beginning, rolling back and closing leave the committed data alone, as does the body, since it
  -- does not commit, then the committed data is the same behind the block, however the calls fail.
  pub run_uncommitted :
      {D : Type 0} (durable : S → D)
      → ((s : S) → durable (calls.begin s).1 ≡ durable s)
      → ((s : S) → durable (calls.rollback s).1 ≡ durable s)
      → ((s : S) → durable (calls.close s) ≡ durable s)
      → (body : UnitOfWork S → Bool × UnitOfWork S)
      → ((u : UnitOfWork S) → durable (body u).1.session ≡ durable u.session)
      → (s : S) → durable (run body s).1 ≡ durable s
  unfolding run
  run_uncommitted durable begins rolls closes body kept s = entered_lem (calls.begin s) (begins s)
    where
      exit_lem : (raised : Bool) (u : UnitOfWork S) → durable (exit raised u).1 ≡ durable u.session
      exit_lem raised u = elim (Bool-cases (raised || not u.finished)) [
        | inl rolled ↦ rw rolled (closes (calls.rollback u.session).1 ∙ rolls u.session)
        | inr done ↦ rw done (closes u.session)
      ]

      entered_lem :
          (o : Result (Unit {0}) × S)
          → durable o.1 ≡ durable s
          → durable (left_by body (entered o)).1 ≡ durable s
      entered_lem (err e, t) h = closes t ∙ h
      entered_lem (ok _, t) h =
          let u : UnitOfWork S = record { session = t; finished = false } in
          exit_lem (body u).0 (body u).1 ∙ kept u ∙ h
