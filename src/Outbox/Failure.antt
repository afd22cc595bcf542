-- ===== src/Outbox/Failure.antt =====
-- Failed attempts: the backoff, the bound on attempts, and the stored row.
use native.Mathlib.Nat.{pow-suc}
use prodkit_storage.Common.{
  ℕ, zero, suc, ◌+◌, ◌-◌, ◌*◌, ◌^◌, ◌≤◌, ◌<◌, min, ◌≡◌, sym, ◌∙◌, true, some, String, pos, ok, [],
  ◌∷◌, map, arith, IsIn, leb, if◌then◌else◌, ap, Option-cases, inl, inr, refl, Bool-cases,
}
use prodkit_storage.Outbox.Defs.{
  OutboxEvent, pending, dead, claimable, owns, lease, retry_delay, failed_row, mark_outbox_failed,
}
use prodkit_storage.Outbox.Session.{IsKeyed, bumped, written, Session}
use prodkit_storage.Outbox.Ops.{World, fail_found, fail_outbox_event}
use prodkit_storage.Outbox.Refines.{keyed_unique}
use prodkit_storage.Outbox.Completion.{owns_id, count_owned}

pow_pos : (n : ℕ) → 1 ≤ 2 ^ n
pow_pos zero = omega arith
pow_pos (suc n) = rw pow-suc (omega (arith, pow_pos n))

-- With a positive base delay, the wait is between one second and an hour.
pub retry_delay_bounds :
    (base attempts : ℕ)
    → 0 < base
    → (1 ≤ retry_delay base attempts) × (retry_delay base attempts ≤ 3600)
unfolding retry_delay
retry_delay_bounds base attempts h = grind (arith, pow_pos (attempts - 1))

min_twice : (x : ℕ) → min (2 * x) 3600 ≡ min (2 * min x 3600) 3600
min_twice x = omega arith

twice_pow : (base n : ℕ) → base * 2 ^ (n + 2 - 1) ≡ 2 * (base * 2 ^ (n + 1 - 1))
twice_pow base n =
    let e : n + 2 - 1 ≡ suc n = omega arith in
    let f : n + 1 - 1 ≡ n = omega arith in rw (e, f, pow-suc) (omega arith)

-- Each further attempt doubles the wait, up to an hour.
pub retry_delay-suc :
    (base n : ℕ) → retry_delay base (n + 2) ≡ min (2 * retry_delay base (n + 1)) 3600
unfolding retry_delay
retry_delay-suc base n = rw (twice_pow base n) (min_twice (base * 2 ^ (n + 1 - 1)))

-- One round of a worker that claims the row and fails on it.
pub record Attempt : Type 0 where
  pub claimed_at : ℕ
  pub stale_after : ℕ
  pub worker_id : String
  pub token : ℕ
  pub failed_at : ℕ
  pub error : String

unfoldable pub attempt_fails : (max_attempts base : ℕ) → Attempt → OutboxEvent → OutboxEvent
attempt_fails m b a e =
    bumped (failed_row a.failed_at a.error m b (bumped (lease a.claimed_at a.worker_id a.token e)))

-- `n` rounds, each on a row that the claim's WHERE clause admits.
pub data FailedAttempts (m b : ℕ) : ℕ → OutboxEvent → OutboxEvent → Type 0 where
  none_yet : (e : OutboxEvent) → FailedAttempts m b 0 e e
  then_fails :
      (a : Attempt) (n : ℕ) (e e' : OutboxEvent)
      → claimable a.claimed_at a.stale_after e ≡ true
      → FailedAttempts m b n (attempt_fails m b a e) e'
      → FailedAttempts m b (suc n) e e'

attempt_fails_lem :
    (m b : ℕ) (a : Attempt) (e : OutboxEvent)
    → ((attempt_fails m b a e).attempts ≡ e.attempts + 1)
      × ((attempt_fails m b a e).status ≡ (if leb m (e.attempts + 1) then dead else pending))
unfolding attempt_fails failed_row lease
attempt_fails_lem m b a e = ground arith

-- No claim admits a dead row.
dead_stays :
    {m b n : ℕ} {e e' : OutboxEvent}
    → FailedAttempts m b n e e'
    → e.status ≡ dead
    → (n ≡ 0) × (e'.status ≡ dead) × (e'.attempts ≡ e.attempts)
unfolding claimable
dead_stays (none_yet e) d = (refl, d, refl)
dead_stays (then_fails a n e e' c r) d = ground arith

-- A pending row with fewer attempts than the limit that is claimed and fails again and again has only as many attempts
-- as the limit leaves. After each it has one attempt more, and it is dead exactly when the limit is reached, and pending before.
pub FailedAttempts-bounded :
    (m b : ℕ) {n : ℕ} {e e' : OutboxEvent}
    → FailedAttempts m b n e e'
    → e.status ≡ pending
    → e.attempts < m
    → (e.attempts + n ≤ m)
      × (e'.attempts ≡ e.attempts + n)
      × (e'.status ≡ (if leb m (e.attempts + n) then dead else pending))
FailedAttempts-bounded m b (none_yet e) p l = ground arith
FailedAttempts-bounded m b (then_fails a k e e' c r) p l =
    let (more, st) = attempt_fails_lem m b a e in
    elim (Bool-cases (leb m (e.attempts + 1))) [
      | inl last ↦ let (zero_left, is_dead, same) = dead_stays r (rw last at st) in ground arith
      | inr early ↦
          let rest = FailedAttempts-bounded m b r (rw early at st) (ground arith) in ground arith
    ]

mark_positive :
    (now : ℕ) (error : String) (m b : ℕ) (e : OutboxEvent)
    → mark_outbox_failed now error (pos (suc m)) (pos (suc b)) e
      ≡ ok (failed_row now error (suc m) (suc b) e)
unfolding mark_outbox_failed
mark_positive now error m b e = ground arith

module _ (s : Session) (now : ℕ) (error : String) (w : World) where
  stored :
      (m b : ℕ) (e : OutboxEvent)
      → IsIn e w.table
      → let e' = failed_row now error (suc m) (suc b) e in
        fail_found s now error (pos (suc m)) (pos (suc b)) w (some e)
        ≡ (ok (bumped e'), record w { table = map (written ((e, e') ∷ [])) w.table })
  unfolding fail_found
  stored m b e i =
      rw (mark_positive now error m b e)
        (rw (s.flush_lem ((e, failed_row now error (suc m) (suc b) e) ∷ []) w.table (i, tt)))

module _ (s : Session) (event_id lock_token now : ℕ) (error : String) (w : World) where
  -- The holder of the lease fails: the row is stored as `failed_row` says, and no other row changes.
  pub fail_stored :
      (max_attempts base_delay_seconds : ℕ) (e : OutboxEvent)
      → IsKeyed w.table
      → IsIn e w.table
      → owns event_id lock_token e ≡ true
      → let e' = failed_row now error (suc max_attempts) (suc base_delay_seconds) e in
        fail_outbox_event s event_id lock_token now error
          (pos (suc max_attempts))
          (pos (suc base_delay_seconds))
          w
        ≡ (ok (bumped e'), record w { table = map (written ((e, e') ∷ [])) w.table })
  unfolding fail_outbox_event
  fail_stored m b e k i o = elim (Option-cases (s.scalar (owns event_id lock_token) w.table)) [
    | inl missed ↦ absurd (
        omega (
          arith,
          s.scalar_none (owns event_id lock_token) w.table missed,
          count_owned event_id lock_token e w.table k i o,
        ))
    | inr (x, found) ↦
        let (j, mine) = s.scalar_some (owns event_id lock_token) w.table found in
        let same : x ≡ e =
          keyed_unique x e w.table k j i
            (owns_id event_id lock_token x mine ∙ sym (owns_id event_id lock_token e o)) in
        rw (found ∙ ap some same) (stored s now error w m b e i)
  ]
