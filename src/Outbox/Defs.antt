-- ===== src/Outbox/Defs.antt =====
-- models/outbox.py, and the parts of outbox.py that act on one row.
-- Times are microseconds and UUIDs are numbers; `datetime.now()` is an argument.
use prodkit_storage.Common.{
  ℕ, ◌+◌, ◌-◌, ◌*◌, ◌^◌, min, ltb, leb, ◌==◌, if◌then◌else◌, Bool, true, false, not, ◌&&◌, ◌||◌,
  Option, none, some, String, strip, str_take, is_empty, ℤ, pos, pos_part, leb_ℤ, Dict, Result, ok,
  raise_if, value_error, ◌>>◌,
}

-- The values of the column `status` that its check constraint admits.
pub data Status : Type 0 where
  pending processing published dead : Status

pub record OutboxEvent : Type 0 where
  pub id : ℕ
  pub tenant_id : Option ℕ
  pub version : ℕ
  pub topic : String
  pub event_type : String
  pub aggregate_type : Option String
  pub aggregate_id : Option String
  pub payload : Dict
  pub headers : Dict
  pub status : Status
  pub attempts : ℕ
  pub available_at : ℕ
  pub created_at : ℕ
  pub published_at : Option ℕ
  pub locked_at : Option ℕ
  pub locked_by : Option String
  pub lock_token : Option ℕ
  pub last_error : Option String

abbrev pub is_pending : Status → Bool
is_pending pending = true
is_pending _ = false

abbrev pub is_processing : Status → Bool
is_processing processing = true
is_processing _ = false

abbrev pub is_some_eq : ℕ → Option ℕ → Bool
is_some_eq n none = false
is_some_eq n (some m) = m == n

-- `locked_at IS NULL OR locked_at < stale_before`
abbrev pub is_stale : ℕ → Option ℕ → Bool
is_stale before none = true
is_stale before (some at) = ltb at before

-- The WHERE clause of the claim. No row is older than the clock's first moment, so the truncated
-- subtraction loses nothing.
unfoldable pub claimable : ℕ → ℕ → OutboxEvent → Bool
claimable now stale_after e =
    leb e.available_at now
    && (is_pending e.status || is_processing e.status && is_stale (now - stale_after) e.locked_at)

-- The WHERE clause of completion and of failure: the row is leased under this token.
unfoldable pub owns : ℕ → ℕ → OutboxEvent → Bool
owns event_id token e = e.id == event_id && is_processing e.status && is_some_eq token e.lock_token

-- The assignments of the claim's loop.
unfoldable pub lease : ℕ → String → ℕ → OutboxEvent → OutboxEvent
lease now worker_id token e = record e {
  status = processing;
  locked_at = some now;
  locked_by = some worker_id;
  lock_token = some token;
  attempts = e.attempts + 1;
}

-- The VALUES of `complete_outbox_event`.
unfoldable pub complete_values : ℕ → OutboxEvent → OutboxEvent
complete_values at e = record e {
  status = published;
  published_at = some at;
  locked_at = none;
  locked_by = none;
  lock_token = none;
  last_error = none;
  version = e.version + 1;
}

-- `at or datetime.now()`
abbrev pub at_or_now : Option ℕ → ℕ → ℕ
at_or_now none now = now
at_or_now (some at) now = at

unfoldable pub mark_outbox_published : Option ℕ → ℕ → OutboxEvent → OutboxEvent
mark_outbox_published at now e = record e {
  status = published;
  published_at = some (at_or_now at now);
  locked_at = none;
  locked_by = none;
  lock_token = none;
  last_error = none;
}

-- The seconds until the next attempt.
unfoldable pub retry_delay : ℕ → ℕ → ℕ
retry_delay base_delay_seconds attempts = min (base_delay_seconds * 2 ^ (attempts - 1)) 3600

-- The body of `mark_outbox_failed` behind its two guards.
unfoldable pub failed_row : ℕ → String → ℕ → ℕ → OutboxEvent → OutboxEvent
unfolding retry_delay
failed_row now error max_attempts base_delay_seconds e =
    let cleared = record e {
      last_error = some (str_take 8000 error);
      locked_at = none;
      locked_by = none;
      lock_token = none;
    } in
    if leb max_attempts e.attempts then record cleared { status = dead } else record cleared {
      status = pending;
      available_at = now + retry_delay base_delay_seconds e.attempts * 1000000;
    }

unfoldable pub mark_outbox_failed : ℕ → String → ℤ → ℤ → OutboxEvent → Result OutboxEvent
mark_outbox_failed now error max_attempts base_delay_seconds e = do
  raise_if (leb_ℤ max_attempts (pos 0)) value_error
  raise_if (leb_ℤ base_delay_seconds (pos 0)) value_error
  ok (failed_row now error (pos_part max_attempts) (pos_part base_delay_seconds) e)

unfoldable pub validate_claim_options : String → ℤ → ℤ → Result (Unit {0})
unfolding strip
validate_claim_options worker_id batch_size stale_after = do
  raise_if (is_empty (strip worker_id)) value_error
  raise_if (not (leb_ℤ (pos 1) batch_size && leb_ℤ batch_size (pos 1000))) value_error
  raise_if (leb_ℤ stale_after (pos 0)) value_error
  ok tt
