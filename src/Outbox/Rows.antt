-- ===== src/Outbox/Rows.antt =====
-- The life of one outbox row as a step relation, and what holds along it. The steps are written out field by field,
-- apart from the code that takes them.
use prodkit_storage.Common.{
  ℕ, ◌+◌, ◌-◌, ◌*◌, ◌^◌, min, ◌≤◌, ◌<◌, ◌≡◌, refl, ◌⊎◌, inl, inr, Bool-cases, true, Option, none,
  some, String, str_take, arith, leb,
}
use prodkit_storage.Outbox.Defs.{
  Status, OutboxEvent, pending, processing, published, dead, claimable, owns, lease,
  complete_values, failed_row,
}
use prodkit_storage.Outbox.Session.{bumped}

abbrev pub IsStale : ℕ → Option ℕ → Type 0
IsStale before none = Unit
IsStale before (some at) = at < before

-- A row that a claim may hand out: it is due, and it is pending or its lease is stale.
abbrev pub IsDue : ℕ → ℕ → OutboxEvent → Type 0
IsDue now stale_after e =
    (e.available_at ≤ now)
    × ((e.status ≡ pending) ⊎ ((e.status ≡ processing) × IsStale (now - stale_after) e.locked_at))

-- The row `event_id` is leased under this token.
abbrev pub IsHeld : ℕ → ℕ → OutboxEvent → Type 0
IsHeld event_id token e = (e.id ≡ event_id) × (e.status ≡ processing) × (e.lock_token ≡ some token)

-- One more attempt, under a lease of the worker.
abbrev pub IsClaimed : ℕ → String → ℕ → OutboxEvent → OutboxEvent → Type 0
IsClaimed now worker_id token e e' = e' ≡ record e {
  status = processing;
  locked_at = some now;
  locked_by = some worker_id;
  lock_token = some token;
  attempts = e.attempts + 1;
  version = e.version + 1;
}

abbrev pub IsCompleted : ℕ → OutboxEvent → OutboxEvent → Type 0
IsCompleted at e e' = e' ≡ record e {
  status = published;
  published_at = some at;
  locked_at = none;
  locked_by = none;
  lock_token = none;
  last_error = none;
  version = e.version + 1;
}

-- The lease is given back with the error. With all attempts used up the row is dead, and otherwise pending again
-- after the delay.
abbrev pub IsFailed : ℕ → String → ℕ → ℕ → OutboxEvent → OutboxEvent → Type 0
IsFailed now error max_attempts base e e' =
    ((max_attempts ≤ e.attempts)
      × (e' ≡ record e {
        status = dead;
        last_error = some (str_take 8000 error);
        locked_at = none;
        locked_by = none;
        lock_token = none;
        version = e.version + 1;
      }))
    ⊎ ((e.attempts < max_attempts)
        × (e' ≡ record e {
          status = pending;
          available_at = now + min (base * 2 ^ (e.attempts - 1)) 3600 * 1000000;
          last_error = some (str_take 8000 error);
          locked_at = none;
          locked_by = none;
          lock_token = none;
          version = e.version + 1;
        }))

-- One worker's claim, completion or reported failure of the row, or nothing.
pub data RowStep (e e' : OutboxEvent) : Type 0 where
  stay : e' ≡ e → RowStep e e'
  claimed :
      (now stale_after : ℕ) (worker_id : String) (token : ℕ)
      → IsDue now stale_after e
      → IsClaimed now worker_id token e e'
      → RowStep e e'
  completed : (id token at : ℕ) → IsHeld id token e → IsCompleted at e e' → RowStep e e'
  failed :
      (id token now : ℕ) (error : String) (max_attempts base_delay_seconds : ℕ)
      → IsHeld id token e
      → IsFailed now error max_attempts base_delay_seconds e e'
      → RowStep e e'

-- What the code's tests and assignments say of a row.
pub claimable-IsDue :
    (now stale_after : ℕ) (e : OutboxEvent)
    → claimable now stale_after e ≡ true
    → IsDue now stale_after e
unfolding claimable
claimable-IsDue now stale_after e h = ground arith

pub owns-IsHeld : (id token : ℕ) (e : OutboxEvent) → owns id token e ≡ true → IsHeld id token e
unfolding owns
owns-IsHeld id token e h = ground arith

pub IsHeld-owns : (id token : ℕ) (e : OutboxEvent) → IsHeld id token e → owns id token e ≡ true
unfolding owns
IsHeld-owns id token e h = ground arith

pub lease-IsClaimed :
    (now : ℕ) (worker_id : String) (token : ℕ) (e : OutboxEvent)
    → IsClaimed now worker_id token e (bumped (lease now worker_id token e))
unfolding lease
lease-IsClaimed now worker_id token e = refl

pub complete_values-IsCompleted :
    (at : ℕ) (e : OutboxEvent) → IsCompleted at e (complete_values at e)
unfolding complete_values
complete_values-IsCompleted at e = refl

pub failed_row-IsFailed :
    (now : ℕ) (error : String) (m b : ℕ) (e : OutboxEvent)
    → IsFailed now error m b e (bumped (failed_row now error m b e))
unfolding failed_row
failed_row-IsFailed now error m b e = elim (Bool-cases (leb m e.attempts)) [
  | inl last ↦ rw last (inl (ground arith, refl))
  | inr more ↦ rw more (inr (ground arith, refl))
]

-- The table's check constraint `processing_has_lock_token`.
abbrev pub HasToken : Status → Option ℕ → Type 0
HasToken processing none = ⊥
HasToken processing (some token) = Unit
HasToken _ none = Unit
HasToken _ (some token) = ⊥

abbrev pub IsValid : OutboxEvent → Type 0
IsValid e = HasToken e.status e.lock_token

pub RowStep-IsValid : {e e' : OutboxEvent} → RowStep e e' → IsValid e → IsValid e'
RowStep-IsValid (stay q) v = rw q v
RowStep-IsValid (claimed now stale worker token c q) v = rw q tt
RowStep-IsValid (completed id token at o q) v = rw q tt
RowStep-IsValid (failed id token now x m b o (inl (l, q))) v = rw q tt
RowStep-IsValid (failed id token now x m b o (inr (l, q))) v = rw q tt

-- A step keeps the identity, adds at most one attempt, and never takes one back.
pub RowStep-counts :
    {e e' : OutboxEvent}
    → RowStep e e'
    → (e'.id ≡ e.id)
      × (e.attempts ≤ e'.attempts)
      × (e'.attempts ≤ e.attempts + 1)
      × (e.version ≤ e'.version)
RowStep-counts (stay q) = rw q (ground arith)
RowStep-counts (claimed now stale worker token c q) = rw q (ground arith)
RowStep-counts (completed id token at o q) = rw q (ground arith)
RowStep-counts (failed id token now x m b o (inl (l, q))) = rw q (ground arith)
RowStep-counts (failed id token now x m b o (inr (l, q))) = rw q (ground arith)

-- Any number of steps, by any workers.
pub data Reach (e : OutboxEvent) : OutboxEvent → Type 0 where
  here : Reach e e
  next : {x y : OutboxEvent} → Reach e x → RowStep x y → Reach e y
