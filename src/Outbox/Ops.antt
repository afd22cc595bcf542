-- ===== src/Outbox/Ops.antt =====
-- The operations of outbox.py over the whole table. A sync operation and its async twin run the
-- same statements on one session, so that one definition models both.
use prodkit_storage.Common.{
  ℕ, suc, ◌+◌, ◌==◌, if◌then◌else◌, Option, none, some, String, is_empty, List, [], ◌∷◌, ◌++◌, map,
  length, ℤ, pos_part, Dict, setdefault, string, Result, ok, err, stale_data, outbox_lease_lost,
}
use prodkit_storage.Context.Defs.{RequestContext}
use prodkit_storage.Outbox.Defs.{
  OutboxEvent, pending, claimable, owns, lease, complete_values, at_or_now, mark_outbox_failed,
  validate_claim_options,
}
use prodkit_storage.Outbox.Session.{Table, Dirty, bumped, Session}

-- The table, and how many identifiers `uuid4` has given out.
pub record World : Type 0 where
  pub table : Table
  pub draws : ℕ

-- A call's result or exception, with the state that it leaves behind.
abbrev pub Outcome : Type 0 → Type 0
Outcome A = Result A × World

-- `if value: merged_headers.setdefault(key, value)`; an empty text counts as absent.
abbrev pub default_header : String → Option String → Dict → Dict
default_header key none headers = headers
default_header key (some value) headers =
    if is_empty value then headers else setdefault key (string value) headers

-- `session.add(event)`: the row that the next flush inserts, with the columns' defaults.
unfoldable pub enqueue_outbox_event :
    (uuid4 : ℕ → ℕ) (context : RequestContext) (now : ℕ) (topic event_type : String)
    (payload : Dict) (headers : Dict) (aggregate_type aggregate_id : Option String)
    (available_at : Option ℕ)
    → World
    → OutboxEvent × World
enqueue_outbox_event uuid4 context now topic event_type payload headers aggregate_type aggregate_id
      available_at w =
    let event : OutboxEvent = record {
      id = uuid4 w.draws;
      tenant_id = context.tenant_id;
      version = 1;
      topic = topic;
      event_type = event_type;
      aggregate_type = aggregate_type;
      aggregate_id = aggregate_id;
      payload = payload;
      headers =
          default_header "trace_id" context.trace_id
            (default_header "request_id" context.request_id headers);
      status = pending;
      attempts = 0;
      available_at = at_or_now available_at now;
      created_at = now;
      published_at = none;
      locked_at = none;
      locked_by = none;
      lock_token = none;
      last_error = none;
    } in
    (event, record { table = w.table ++ event ∷ []; draws = w.draws + 1 })

-- The loop of the claim: every selected row is leased under a token of its own.
unfoldable pub lease_all :
    (uuid4 : ℕ → ℕ) (now : ℕ) (worker_id : String) → ℕ → List OutboxEvent → List Dirty
lease_all uuid4 now worker_id draws [] = []
lease_all uuid4 now worker_id draws (e ∷ es) =
    (e, lease now worker_id (uuid4 draws) e) ∷ lease_all uuid4 now worker_id (suc draws) es

abbrev pub dispatch_order : OutboxEvent → ℕ × ℕ
dispatch_order e = (e.available_at, e.created_at)

abbrev pub flushed : {A : Type 0} → A → ℕ → World → Option Table → Outcome A
flushed a draws w none = (err stale_data, w)
flushed a draws w (some t) = (ok a, record { table = t; draws = draws })

-- The rest of the call, unless a guard raised.
abbrev pub checked : {A : Type 0} → Result (Unit {0}) → World → Outcome A → Outcome A
checked (err e) w rest = (err e, w)
checked (ok _) w rest = rest

module _ (s : Session) where
  -- The claim behind its guards.
  unfoldable pub claim_rows :
      (uuid4 : ℕ → ℕ) (now : ℕ) (worker_id : String) (batch_size stale_after : ℕ)
      → World
      → Outcome (List OutboxEvent)
  claim_rows uuid4 now worker_id batch_size stale_after w =
      let rows = s.select (claimable now stale_after) dispatch_order batch_size w.table in
      let leased = lease_all uuid4 now worker_id w.draws rows in
      flushed (map (λ d. bumped d.1) leased) (w.draws + length rows) w (s.flush leased w.table)

  unfoldable pub claim_outbox_events :
      (uuid4 : ℕ → ℕ) (now : ℕ) (worker_id : String) (batch_size stale_after : ℤ)
      → World
      → Outcome (List OutboxEvent)
  unfolding claim_rows
  claim_outbox_events uuid4 now worker_id batch_size stale_after w =
      checked (validate_claim_options worker_id batch_size stale_after) w
        (claim_rows uuid4 now worker_id (pos_part batch_size) (pos_part stale_after) w)

  unfoldable pub complete_outbox_event :
      (event_id lock_token : ℕ) (at : Option ℕ) (now : ℕ) → World → Outcome (Unit {0})
  complete_outbox_event event_id lock_token at now w =
      let (t, rowcount) =
        s.update (owns event_id lock_token) (complete_values (at_or_now at now)) w.table in
      if rowcount == 1
      then (ok tt, record w { table = t })
      else (err outbox_lease_lost, record w { table = t })

  -- The row that was found and locked is marked and written back.
  unfoldable pub fail_marked : World → OutboxEvent → Result OutboxEvent → Outcome OutboxEvent
  fail_marked w e (err x) = (err x, w)
  fail_marked w e (ok e') = flushed (bumped e') w.draws w (s.flush ((e, e') ∷ []) w.table)

  unfoldable pub fail_found :
      (now : ℕ) (error : String) (max_attempts base_delay_seconds : ℤ)
      → World
      → Option OutboxEvent
      → Outcome OutboxEvent
  unfolding fail_marked
  fail_found now error max_attempts base_delay_seconds w none = (err outbox_lease_lost, w)
  fail_found now error max_attempts base_delay_seconds w (some e) =
      fail_marked w e (mark_outbox_failed now error max_attempts base_delay_seconds e)

  unfoldable pub fail_outbox_event :
      (event_id lock_token : ℕ) (now : ℕ) (error : String) (max_attempts base_delay_seconds : ℤ)
      → World
      → Outcome OutboxEvent
  unfolding fail_found
  fail_outbox_event event_id lock_token now error max_attempts base_delay_seconds w =
      fail_found now error max_attempts base_delay_seconds w
        (s.scalar (owns event_id lock_token) w.table)
