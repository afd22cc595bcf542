-- ===== src/Outbox/Metrics.antt =====
-- `get_outbox_metrics` and `get_outbox_metrics_async`. The recording by telemetry is left out: it changes
-- nothing of the outbox.
use prodkit_storage.Common.{
  ℕ, suc, ◌+◌, ◌-◌, ◌≡◌, Bool, true, false, Option, none, some, List, [], ◌∷◌, length, count,
  if◌then◌else◌, arith,
}
use prodkit_storage.Outbox.Defs.{Status, pending, processing, published, dead}
use prodkit_storage.Outbox.Session.{Table}

pub record OutboxMetrics : Type 0 where
  pub pending : ℕ
  pub processing : ℕ
  pub published : ℕ
  pub dead : ℕ
  pub oldest_pending_age : Option ℕ

abbrev pub same_status : Status → Status → Bool
same_status pending pending = true
same_status processing processing = true
same_status published published = true
same_status dead dead = true
same_status _ _ = false

-- `_status_counts`, read with `get(status, 0)`: a later row takes the place of an earlier one.
unfoldable pub status_count : Status → ℕ → List (Status × ℕ) → ℕ
status_count s found [] = found
status_count s found ((t, n) ∷ rows) = status_count s (if same_status s t then n else found) rows

-- `SELECT status, count(*) … GROUP BY status`: a row with the number of its events for each status that
-- occurs. `SELECT min(created_at) … WHERE status = 'pending'`.
pub record MetricsQueries : Type 0 where
  pub grouped : Table → List (Status × ℕ)
  pub grouped_lem :
      (s : Status) (t : Table)
      → status_count s 0 (grouped t) ≡ count (λ e. same_status s e.status) t
  pub oldest : Table → Option ℕ

-- `max((now - oldest).total_seconds(), 0.0)`, in microseconds
abbrev pub age : ℕ → Option ℕ → Option ℕ
age now none = none
age now (some at) = some (now - at)

-- `_build_outbox_metrics`
unfoldable pub build_outbox_metrics : List (Status × ℕ) → Option ℕ → ℕ → OutboxMetrics
unfolding status_count
build_outbox_metrics counts oldest now = record {
  pending = status_count pending 0 counts;
  processing = status_count processing 0 counts;
  published = status_count published 0 counts;
  dead = status_count dead 0 counts;
  oldest_pending_age = age now oldest;
}

unfoldable pub get_outbox_metrics : MetricsQueries → ℕ → Table → OutboxMetrics
unfolding build_outbox_metrics
get_outbox_metrics q now t = build_outbox_metrics (q.grouped t) (q.oldest t) now

one_status :
    (s : Status) (a b c d n : ℕ)
    → a + b + c + d ≡ n
    → (if same_status pending s then suc a else a)
        + (if same_status processing s then suc b else b)
        + (if same_status published s then suc c else c)
        + (if same_status dead s then suc d else d)
      ≡ suc n
one_status pending a b c d n h = omega arith
one_status processing a b c d n h = omega arith
one_status published a b c d n h = omega arith
one_status dead a b c d n h = omega arith

every_status :
    (t : Table)
    → count (λ e. same_status pending e.status) t
        + count (λ e. same_status processing e.status) t
        + count (λ e. same_status published e.status) t
        + count (λ e. same_status dead e.status) t
      ≡ length t
every_status [] = omega arith
every_status (e ∷ t) = let rest = every_status t in one_status e.status _ _ _ _ (length t) rest

-- The metrics miss no event: the four numbers add up to the number of events in the table.
pub metrics_total :
    (q : MetricsQueries) (now : ℕ) (t : Table)
    → (get_outbox_metrics q now t).pending
        + (get_outbox_metrics q now t).processing
        + (get_outbox_metrics q now t).published
        + (get_outbox_metrics q now t).dead
      ≡ length t
unfolding get_outbox_metrics
metrics_total q now t =
    rw
      (
        q.grouped_lem pending t,
        q.grouped_lem processing t,
        q.grouped_lem published t,
        q.grouped_lem dead t,
      )
      (every_status t)
