-- ===== src/Outbox/Session.antt =====
-- What the outbox relies on of the SQLAlchemy session and PostgreSQL, which are not in this
-- repository: an interface. Each law is documented behaviour of one statement.
use prodkit_storage.Common.{
  ℕ, ◌+◌, ◌≤◌, ◌==◌, if◌then◌else◌, ◌≡◌, ◌≢◌, Bool, true, Option, none, some, List, [], ◌∷◌, map,
  length, count, All, IsIn,
}
use prodkit_storage.Outbox.Defs.{OutboxEvent}

-- The rows that the transaction sees.
abbrev pub Table : Type 0
Table = List OutboxEvent

-- The primary key: no two rows have one id.
abbrev pub IsKeyed : Table → Type 0
IsKeyed [] = Unit
IsKeyed (e ∷ t) = All (λ x. e.id ≢ x.id) t × IsKeyed t

-- An object as it was loaded, and as the code has changed it since.
abbrev pub Dirty : Type 0
Dirty = OutboxEvent × OutboxEvent

-- The version column counts up whenever the mapper writes a row (`version_id_col`).
abbrev pub bumped : OutboxEvent → OutboxEvent
bumped e = record e { version = e.version + 1 }

-- What a row is after the changed objects are written.
abbrev pub written : List Dirty → OutboxEvent → OutboxEvent
written [] e = e
written ((loaded, now) ∷ ds) e = if loaded.id == e.id then bumped now else written ds e

pub record Session : Type 0 where
  -- `SELECT … WHERE … ORDER BY … LIMIT … FOR UPDATE SKIP LOCKED`: which of the rows come back depends
  -- on the locks that others hold.
  pub select : (OutboxEvent → Bool) → (OutboxEvent → ℕ × ℕ) → ℕ → Table → List OutboxEvent
  pub select_sound :
      (where_ : OutboxEvent → Bool) (order_by : OutboxEvent → ℕ × ℕ) (limit : ℕ) (t : Table)
      → All (λ e. IsIn e t × (where_ e ≡ true)) (select where_ order_by limit t)
  pub select_limit :
      (where_ : OutboxEvent → Bool) (order_by : OutboxEvent → ℕ × ℕ) (limit : ℕ) (t : Table)
      → length (select where_ order_by limit t) ≤ limit
  pub select_keyed :
      (where_ : OutboxEvent → Bool) (order_by : OutboxEvent → ℕ × ℕ) (limit : ℕ) (t : Table)
      → IsKeyed t
      → IsKeyed (select where_ order_by limit t)
  -- `session.scalar(SELECT … WHERE … FOR UPDATE)`: it waits for locks, so that it misses no row.
  pub scalar : (OutboxEvent → Bool) → Table → Option OutboxEvent
  pub scalar_some :
      (where_ : OutboxEvent → Bool) (t : Table) {e : OutboxEvent}
      → scalar where_ t ≡ some e
      → IsIn e t × (where_ e ≡ true)
  pub scalar_none :
      (where_ : OutboxEvent → Bool) (t : Table) → scalar where_ t ≡ none → count where_ t ≡ 0
  -- `UPDATE … WHERE … SET …`, and its row count.
  pub update : (OutboxEvent → Bool) → (OutboxEvent → OutboxEvent) → Table → Table × ℕ
  pub update_lem :
      (where_ : OutboxEvent → Bool) (set : OutboxEvent → OutboxEvent) (t : Table)
      → update where_ set t ≡ (map (λ e. if where_ e then set e else e) t, count where_ t)
  -- `session.flush()`; `none` is `StaleDataError`. It cannot be raised for rows that are still as
  -- they were loaded, and a row that was selected for update stays so.
  pub flush : List Dirty → Table → Option Table
  pub flush_lem :
      (ds : List Dirty) (t : Table)
      → All (λ d. IsIn d.0 t) ds
      → flush ds t ≡ some (map (written ds) t)
