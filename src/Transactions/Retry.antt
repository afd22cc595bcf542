-- ===== src/Transactions/Retry.antt =====
-- `run_sync_transaction` and `run_async_transaction`: a transaction is tried again after a transient
-- error. `W` is the database, and an exception is a number.
use prodkit_storage.Common.{
  ℕ, zero, suc, ◌+◌, ◌-◌, ◌*◌, ◌^◌, ◌≤◌, ◌<◌, ◌≡◌, refl, min, Bool, true, false, ◌||◌, ◌==◌, not,
  if◌then◌else◌, ℤ, pos, pos_part, leb_ℤ, arith, inl, inr, ◌⊎◌, Bool-cases, ==_iff, Result, ok, err,
  value_error, assertion_error, ap,
}

-- What an operation returns or raises.
pub data Call (T : Type 0) : Type 0 where
  returned : T → Call T
  raised : ℕ → Call T

-- The longest sleep of `_delay`, in milliseconds. The sleep itself is drawn between half of it and it.
unfoldable pub delay_cap : (base attempt : ℕ) → ℕ
delay_cap base attempt = min (base * 2 ^ (attempt - 1)) 2000

-- What the session's transaction does at its end: a COMMIT, which may raise in its turn, and a ROLLBACK, of
-- which PostgreSQL documents that it discards all that the transaction has done.
pub record Factory (W : Type 0) : Type 0 where
  pub commit : W → Call (Unit {0}) × W
  pub rollback : (begun now : W) → W
  pub rollback_lem : (begun now : W) → rollback begun now ≡ begun

-- The exit of `factory.begin()`, on the database as the transaction found it.
abbrev pub after_commit : {W T : Type 0} → Factory W → W → T → Call (Unit {0}) × W → Call T × W
after_commit factory begun t (returned _, w) = (returned t, w)
after_commit factory begun t (raised e, w) = (raised e, factory.rollback begun w)

abbrev pub at_exit : {W T : Type 0} → Factory W → W → Call T × W → Call T × W
at_exit factory begun (returned t, w) = after_commit factory begun t (factory.commit w)
at_exit factory begun (raised e, w) = (raised e, factory.rollback begun w)

module _ {W T : Type 0} (factory : Factory W) (operation : W → Call T × W) (is_retryable : ℕ → Bool)
    (uniform : ℕ → ℕ) (others : ℕ → W → W) (max_attempts base : ℕ) where
  -- `with factory.begin() as session: return operation(session)`
  abbrev pub in_transaction : W → Call T × W
  in_transaction w = at_exit factory w (operation w)

  -- What one pass of the loop makes of its attempt; `again` is the rest of the loop.
  abbrev pub settled : ℕ → Call T × W → Result (Call T) × W → Result (Call T) × W
  settled attempt (returned t, w) again = (ok (returned t), w)
  settled attempt (raised e, w) again =
      if attempt == max_attempts || not (is_retryable e) then (ok (raised e), w) else again

  -- The loop over the `left` attempts from `attempt` on. `others n` is what happens to the database in
  -- a sleep of `n`.
  unfoldable pub attempts_from : (left attempt : ℕ) → W → Result (Call T) × W
  unfolding delay_cap
  attempts_from zero attempt w = (err assertion_error, w)
  attempts_from (suc left) attempt w =
      let (call, w') = in_transaction w in
      settled attempt (call, w')
        (attempts_from left (suc attempt) (others (uniform (delay_cap base attempt)) w'))

  -- The operation returns `t` and its transaction is committed.
  abbrev pub Commits : W → T → W → Type 0
  Commits w t u = (v : W) × (operation w ≡ (returned t, v)) × (factory.commit v ≡ (returned tt, u))

  -- The operation raises, or it returns and the COMMIT raises.
  abbrev pub Fails : W → ℕ → Type 0
  Fails w e =
      ((v : W) × (operation w ≡ (raised e, v)))
      ⊎ ((t : T) × (v : W) × (u : W) × (operation w ≡ (returned t, v))
          × (factory.commit v ≡ (raised e, u)))

  -- A run of the loop as it is meant: every attempt but the last fails with a transient error and
  -- leaves no trace, and the last one is committed, or fails for good and leaves no trace.
  pub data Ran : ℕ → W → Result (Call T) × W → Type 0 where
    committed : (attempt : ℕ) (w u : W) (t : T) → Commits w t u → Ran attempt w (ok (returned t), u)
    failed :
        (attempt : ℕ) (w : W) (e : ℕ)
        → Fails w e
        → (attempt ≡ max_attempts) ⊎ (is_retryable e ≡ false)
        → Ran attempt w (ok (raised e), w)
    retried :
        (attempt : ℕ) (w : W) (e : ℕ) (r : Result (Call T) × W)
        → Fails w e
        → attempt < max_attempts
        → is_retryable e ≡ true
        → Ran (suc attempt) (others (uniform (delay_cap base attempt)) w) r
        → Ran attempt w r

unfoldable pub run_sync_transaction :
    {W T : Type 0}
    → Factory W
    → (W → Call T × W)
    → (ℕ → Bool)
    → (ℕ → ℕ)
    → (ℕ → W → W)
    → (max_attempts base : ℤ) → W
    → Result (Call T) × W
unfolding attempts_from
run_sync_transaction factory operation is_retryable uniform others max_attempts base w =
    if leb_ℤ max_attempts (pos 0) || leb_ℤ base (pos 0)
    then (err value_error, w)
    else attempts_from factory operation is_retryable uniform others (pos_part max_attempts)
        (pos_part base) (pos_part max_attempts) 1 w

module _ {W T : Type 0} (factory : Factory W) (operation : W → Call T × W) (is_retryable : ℕ → Bool)
    (uniform : ℕ → ℕ) (others : ℕ → W → W) (max_attempts base : ℕ) where
  Attempted : W → Call T × W → Type 0
  Attempted w r =
      ((t : T) × (u : W) × (r ≡ (returned t, u))
        × Commits factory operation is_retryable uniform others max_attempts base w t u)
      ⊎ ((e : ℕ) × (r ≡ (raised e, w))
          × Fails factory operation is_retryable uniform others max_attempts base w e)

  -- One attempt is committed, or fails and is rolled back.
  in_transaction-Attempted :
      (w : W)
      → Attempted w
          (in_transaction factory operation is_retryable uniform others max_attempts base w)
  unfolding Attempted
  in_transaction-Attempted w = called (operation w) refl
    where
      ended :
          (t : T) (v : W)
          → operation w ≡ (returned t, v)
          → (c : Call (Unit {0}) × W) → factory.commit v ≡ c
          → Attempted w (after_commit factory w t c)
      ended t v e (returned _, u) c = inl (t, u, refl, (v, e, c))
      ended t v e (raised x, u) c =
          inr (x, ap (λ (d : W). (raised x, d)) (factory.rollback_lem w u), inr (t, v, u, e, c))

      called : (o : Call T × W) → operation w ≡ o → Attempted w (at_exit factory w o)
      called (returned t, v) e = ended t v e (factory.commit v) refl
      called (raised x, v) e =
          inr (x, ap (λ (d : W). (raised x, d)) (factory.rollback_lem w v), inl (v, e))

  attempts_from-Ran :
      (left attempt : ℕ) (w : W)
      → attempt + left ≡ suc max_attempts
      → attempt ≤ max_attempts
      → Ran factory operation is_retryable uniform others max_attempts base attempt w (
          attempts_from factory operation is_retryable uniform others max_attempts base left attempt
            w)
  unfolding attempts_from Attempted
  attempts_from-Ran zero attempt w h k = ground arith
  attempts_from-Ran (suc left) attempt w h k = elim (in_transaction-Attempted w) [
    | inl (t, u, e, c) ↦ rw e (committed attempt w u t c)
    | inr (x, e, fails) ↦ elim (Bool-cases (attempt == max_attempts)) [
      | inl last ↦
          rw (e, last) (failed attempt w x fails (inl ((==_iff attempt max_attempts).0 last)))
      | inr early ↦ elim (Bool-cases (is_retryable x)) [
        | inr final ↦ rw (e, early, final) (failed attempt w x fails (inr final))
        | inl again ↦
            let below : attempt < max_attempts = ground arith in
            rw (e, early, again)
              (retried attempt w x _ fails below again (
                attempts_from-Ran left (suc attempt) (others (uniform (delay_cap base attempt)) w)
                  (omega arith) below))
      ]
    ]
  ]

  -- For valid options the call runs its attempts as `Ran` says. Each attempt but the last fails with a
  -- transient error, raised by the operation or by the COMMIT; the last one is committed, or its error is raised
  -- because it is not transient or the attempts are used up. A failed attempt leaves no trace, provided that a
  -- ROLLBACK discards what its transaction has done.
  pub run_sync_transaction-Ran :
      (w : W)
      → 1 ≤ max_attempts
      → 1 ≤ base
      → Ran factory operation is_retryable uniform others max_attempts base 1 w (
          run_sync_transaction factory operation is_retryable uniform others
            (pos max_attempts)
            (pos base)
            w)
  unfolding run_sync_transaction
  run_sync_transaction-Ran w h k =
      let go : leb_ℤ (pos max_attempts) (pos 0) || leb_ℤ (pos base) (pos 0) ≡ false =
        ground arith in
      rw go (attempts_from-Ran max_attempts 1 w (omega arith) h)
