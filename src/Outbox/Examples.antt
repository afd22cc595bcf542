-- ===== src/Outbox/Examples.antt =====
-- A session over a plain list, and the theorems at concrete tables.
use prodkit_storage.Outbox.Metrics.{MetricsQueries, same_status, status_count}
use prodkit_storage.Common.{
  ◌*◌, ℕ, zero, suc, ◌+◌, ◌≤◌, ◌≡◌, refl, sym, ◌≢◌, Bool, true, Option, none, some, pos, ok, err,
  List, [], ◌∷◌, map, length, count, keep, take, arith, All, All-map, IsIn, Zip, inl, inr,
  Bool-cases, if◌then◌else◌, outbox_lease_lost, strip,
}
use prodkit_storage.Outbox.Defs.{
  failed_row, Status, OutboxEvent, pending, processing, published, dead, claimable, owns, lease,
  validate_claim_options, retry_delay,
}
use prodkit_storage.Outbox.Session.{Table, IsKeyed, bumped, written, Session}
use prodkit_storage.Outbox.Ops.{
  World, Outcome, lease_all, claim_outbox_events, complete_outbox_event, fail_outbox_event,
}
use prodkit_storage.Outbox.Refines.{ClaimStep, CompleteStep, claim-steps, complete-steps}
use prodkit_storage.Outbox.Failing.{Fails, fail-steps}
use prodkit_storage.Outbox.Leases.{Grants, claim-Grants}
use prodkit_storage.Outbox.Completion.{claim-complete_lost}
use prodkit_storage.Outbox.Failure.{
  retry_delay_bounds, Attempt, attempt_fails, FailedAttempts, none_yet, then_fails,
  FailedAttempts-bounded,
}

first : (OutboxEvent → Bool) → Table → Option OutboxEvent
first p [] = none
first p (e ∷ t) = if p e then some e else first p t

keep_sound : (p : OutboxEvent → Bool) (t : Table) → All (λ e. IsIn e t × (p e ≡ true)) (keep p t)
keep_sound p [] = tt
keep_sound p (e ∷ t) = elim (Bool-cases (p e)) [
  | inl q ↦ rw q ((inl refl, q), All-map (λ x h. (inr h.0, h.1)) (keep p t) (keep_sound p t))
  | inr q ↦ rw q (All-map (λ x h. (inr h.0, h.1)) (keep p t) (keep_sound p t))
]

All-keep :
    (P : OutboxEvent → Type 0) (p : OutboxEvent → Bool) (t : Table) → All P t → All P (keep p t)
All-keep P p [] h = tt
All-keep P p (e ∷ t) h = elim (Bool-cases (p e)) [
  | inl q ↦ rw q (h.0, All-keep P p t h.1)
  | inr q ↦ rw q (All-keep P p t h.1)
]

keep-IsKeyed : (p : OutboxEvent → Bool) (t : Table) → IsKeyed t → IsKeyed (keep p t)
keep-IsKeyed p [] k = tt
keep-IsKeyed p (e ∷ t) k = elim (Bool-cases (p e)) [
  | inl q ↦ rw q (All-keep (λ x. e.id ≢ x.id) p t k.0, keep-IsKeyed p t k.1)
  | inr q ↦ rw q (keep-IsKeyed p t k.1)
]

All-take : (P : OutboxEvent → Type 0) (n : ℕ) (t : Table) → All P t → All P (take n t)
All-take P zero t h = tt
All-take P (suc n) [] h = tt
All-take P (suc n) (e ∷ t) h = (h.0, All-take P n t h.1)

take-IsKeyed : (n : ℕ) (t : Table) → IsKeyed t → IsKeyed (take n t)
take-IsKeyed zero t k = tt
take-IsKeyed (suc n) [] k = tt
take-IsKeyed (suc n) (e ∷ t) k = (All-take (λ x. e.id ≢ x.id) n t k.0, take-IsKeyed n t k.1)

take_limit : (n : ℕ) (t : Table) → length (take n t) ≤ n
take_limit zero t = omega arith
take_limit (suc n) [] = omega arith
take_limit (suc n) (e ∷ t) = omega (arith, take_limit n t)

first-some :
    (p : OutboxEvent → Bool) (t : Table) {e : OutboxEvent}
    → first p t ≡ some e
    → IsIn e t × (p e ≡ true)
unfolding first
first-some p [] h = cc
first-some p (x ∷ t) {e} h = elim (Bool-cases (p x)) [
  | inl q ↦ let same : x ≡ e = cc (rw q at h) in (inl (sym same), rw same at q)
  | inr q ↦ let (i, r) = first-some p t (rw q at h) in (inr i, r)
]

first-none : (p : OutboxEvent → Bool) (t : Table) → first p t ≡ none → count p t ≡ 0
unfolding first
first-none p [] h = refl
first-none p (x ∷ t) h = ground (arith, first-none p t)

-- No other transaction holds locks, and the rows are stored in dispatch order.
abbrev alone : Session
alone = record {
  select = λ p order n t. take n (keep p t);
  select_sound =
      λ p order n t. All-take (λ e. IsIn e t × (p e ≡ true)) n (keep p t) (keep_sound p t);
  select_limit = λ p order n t. take_limit n (keep p t);
  select_keyed = λ p order n t k. take-IsKeyed n (keep p t) (keep-IsKeyed p t k);
  scalar = first;
  scalar_some = λ p t h. first-some p t h;
  scalar_none = first-none;
  update = λ p set t. (map (λ e. if p e then set e else e) t, count p t);
  update_lem = λ p set t. refl;
  flush = λ ds t. some (map (written ds) t);
  flush_lem = λ ds t h. refl;
}

abbrev fresh : ℕ → OutboxEvent
fresh n = record {
  id = n;
  tenant_id = none;
  version = 1;
  topic = "orders";
  event_type = "created";
  aggregate_type = none;
  aggregate_id = none;
  payload = [];
  headers = [];
  status = pending;
  attempts = 0;
  available_at = 10;
  created_at = 5 + n;
  published_at = none;
  locked_at = none;
  locked_by = none;
  lock_token = none;
  last_error = none;
}

-- A row that worker `w1` leased at time 100.
abbrev held : OutboxEvent
held = bumped (record (fresh 2) {
  status = processing;
  attempts = 1;
  locked_at = some 100;
  locked_by = some "w1";
  lock_token = some 70;
})

abbrev world : World
world = record { table = fresh 1 ∷ held ∷ fresh 3 ∷ []; draws = 0 }

abbrev uuid4 : ℕ → ℕ
uuid4 n = 1000 + n

world-IsKeyed : IsKeyed world.table
world-IsKeyed = omega arith

claim-steps_example :
    Zip
      (ClaimStep uuid4 500 300 "w2")
      world.table
      (claim_outbox_events alone uuid4 500 "w2" (pos 2) (pos 300) world).1.table
claim-steps_example = claim-steps alone world world-IsKeyed uuid4 500 "w2" (pos 2) (pos 300)

complete-steps_example :
    Zip
      (CompleteStep 2 70 200)
      world.table
      (complete_outbox_event alone 2 70 none 200 world).1.table
complete-steps_example = complete-steps alone world 2 70 none 200

fail-steps_example :
    Fails 2 70 200 "timeout" 10 5 world.table
      (fail_outbox_event alone 2 70 200 "timeout" (pos 10) (pos 5) world)
fail-steps_example = fail-steps alone world world-IsKeyed 2 70 200 "timeout" (pos 10) (pos 5)

claim-Grants_example :
    Grants 500 300 "w2" 2 world.table
      (claim_outbox_events alone uuid4 500 "w2" (pos 2) (pos 300) world)
claim-Grants_example = claim-Grants alone uuid4 500 "w2" (pos 2) (pos 300) world world-IsKeyed

held_owned : owns 2 70 held ≡ true
unfolding owns
held_owned = refl

-- The stale lease of row 2 is given to `w2`, and its old holder comes back too late.
abbrev reclaimed : Outcome (List OutboxEvent)
reclaimed =
    claim_outbox_events alone uuid4 500 "w2" (pos 1) (pos 300) (record world { table = held ∷ [] })

abbrev regained : OutboxEvent
regained = bumped (lease 500 "w2" 1000 held)

reclaim_runs : reclaimed ≡ (ok (regained ∷ []), record { table = regained ∷ []; draws = 1 })
unfolding claim_outbox_events validate_claim_options strip claimable lease lease_all
reclaim_runs = refl

claim-complete_lost_example :
    complete_outbox_event alone 2 70 none 600 (record { table = regained ∷ []; draws = 1 })
    ≡ (err outbox_lease_lost, record { table = regained ∷ []; draws = 1 })
unfolding lease
claim-complete_lost_example =
    claim-complete_lost alone uuid4 500 "w2" (pos 1) (pos 300) (record world { table = held ∷ [] })
      (regained ∷ []) (record { table = regained ∷ []; draws = 1 }) regained 70 none 600
      (omega arith) reclaim_runs (inl refl) (λ e. ground arith)

retry_delay_bounds_example : (1 ≤ retry_delay 5 4) × (retry_delay 5 4 ≤ 3600)
retry_delay_bounds_example = retry_delay_bounds 5 4 (omega arith)

abbrev again : ℕ → Attempt
again n = record {
  claimed_at = 4000000000 * n;
  stale_after = 300;
  worker_id = "w1";
  token = n;
  failed_at = 4000000000 * n + 7;
  error = "timeout";
}

abbrev failed_once : OutboxEvent
failed_once = attempt_fails 2 5 (again 1) (fresh 1)

abbrev failed_twice : OutboxEvent
failed_twice = attempt_fails 2 5 (again 2) failed_once

two_failures : FailedAttempts 2 5 2 (fresh 1) failed_twice
unfolding claimable attempt_fails failed_row lease
two_failures =
    then_fails (again 1) 1 (fresh 1) failed_twice refl
      (then_fails (again 2) 0 failed_once failed_twice refl (none_yet failed_twice))

FailedAttempts-bounded_example :
    (2 ≤ 2) × (failed_twice.attempts ≡ 2) × (failed_twice.status ≡ dead)
FailedAttempts-bounded_example = FailedAttempts-bounded 2 5 two_failures refl (omega arith)

-- GROUP BY, one row for each of the four statuses.
abbrev grouped_ : Table → List (Status × ℕ)
grouped_ t =
    (pending, count (λ e. same_status pending e.status) t)
    ∷ (processing, count (λ e. same_status processing e.status) t)
    ∷ (published, count (λ e. same_status published e.status) t)
    ∷ (dead, count (λ e. same_status dead e.status) t)
    ∷ []

grouped_sound :
    (s : Status) (t : Table) → status_count s 0 (grouped_ t) ≡ count (λ e. same_status s e.status) t
unfolding status_count
grouped_sound pending t = refl
grouped_sound processing t = refl
grouped_sound published t = refl
grouped_sound dead t = refl

abbrev queries : MetricsQueries
queries = record { grouped = grouped_; grouped_lem = grouped_sound; oldest = λ t. none }
