-- ===== src/Locks/Waiting.antt =====
-- `acquire` ends, and what holds when it returns.
use prodkit_storage.Common.{
  ℕ, zero, suc, ◌+◌, ◌≤◌, ◌<◌, ◌≡◌, refl, ◌∙◌, inl, inr, Bool, true, false, some, String, eq_iff,
  leb, arith, Result, ok, err, lock_not_acquired, Bool-cases,
}
use prodkit_storage.Redis.{Redis, is_some}
use prodkit_storage.Locks.Defs.{RedisLock, attempt, timed_out, acquire_loop, acquire}

-- The passes that go on: from pass `i` on a server to pass `k`, the key was taken and the deadline was not reached in each
-- pass before `k`, and others acted while the pass slept.
pub data Waits (r : Redis) (clock : ℕ → ℕ) (others : ℕ → r.Server → r.Server) (deadline : ℕ)
    (key : String) : ℕ → r.Server → ℕ → r.Server → Type 0 where
  there : (k : ℕ) (u : r.Server) → Waits r clock others deadline key k u k u
  sleeps :
      (i : ℕ) (s : r.Server) (k : ℕ) (u : r.Server)
      → is_some (r.get s key) ≡ true
      → clock i < deadline
      → Waits r clock others deadline key (suc i) (others i s) k u
      → Waits r clock others deadline key i s k u

-- How `acquire` may end in a pass at time `now` that finds the server `u`. The key is free, and then the lock's token is
-- stored and `acquired` is set. Or the key is taken and the deadline is reached, and then, with `acquired` not set and
-- the server left alone, it is the exception if the lock is required and `False` if it is not.
abbrev pub Ends :
    (r : Redis) (deadline now : ℕ)
    → RedisLock
    → r.Server
    → Result Bool × RedisLock × r.Server
    → Type 0
Ends r deadline now l u (ok true, l', s) =
    (is_some (r.get u l.key) ≡ false)
    × (l' ≡ record l { acquired = true })
    × (r.get s l.key ≡ some l.token)
Ends r deadline now l u (ok false, l', s) =
    (is_some (r.get u l.key) ≡ true)
    × (deadline ≤ now)
    × (s ≡ u)
    × (l' ≡ record l { acquired = false })
    × (l.required ≡ false)
Ends r deadline now l u (err e, l', s) =
    (is_some (r.get u l.key) ≡ true)
    × (deadline ≤ now)
    × (s ≡ u)
    × (l' ≡ record l { acquired = false })
    × (l.required ≡ true)
    × (e ≡ lock_not_acquired)

module _ (r : Redis) where
  -- What one attempt does: it takes the free key, or it leaves the server alone.
  pub attempt_taken :
      (l : RedisLock) (s : r.Server)
      → is_some (r.get s l.key) ≡ true
      → attempt r l s ≡ (record l { acquired = false }, s)
  unfolding attempt
  attempt_taken l s h = rw (r.set_nx_lem s l.key l.token l.ttl_ms) (rw h)

  pub attempt_free :
      (l : RedisLock) (s : r.Server)
      → is_some (r.get s l.key) ≡ false
      → attempt r l s ≡ (record l { acquired = true }, r.set s l.key l.token l.ttl_ms)
  unfolding attempt
  attempt_free l s h = rw (r.set_nx_lem s l.key l.token l.ttl_ms) (rw h)

  timed_out_required : (l : RedisLock) → l.required ≡ true → timed_out r l ≡ err lock_not_acquired
  unfolding timed_out
  timed_out_required l q = ground arith

  timed_out_optional : (l : RedisLock) → l.required ≡ false → timed_out r l ≡ ok false
  unfolding timed_out
  timed_out_optional l q = ground arith

  timed_out-Ends :
      (deadline now : ℕ) (l : RedisLock) (s : r.Server)
      → is_some (r.get s l.key) ≡ true
      → deadline ≤ now
      → Ends r deadline now l s
          (timed_out r (record l { acquired = false }), record l { acquired = false }, s)
  timed_out-Ends deadline now l s taken late = elim (Bool-cases l.required) [
    | inl q ↦
        rw (timed_out_required (record l { acquired = false }) q) (taken, late, refl, refl, q, refl)
    | inr q ↦ rw (timed_out_optional (record l { acquired = false }) q) (taken, late, refl, refl, q)
  ]

  stored :
      (l : RedisLock) (s : r.Server)
      → 0 < l.ttl_ms
      → r.get (r.set s l.key l.token l.ttl_ms) l.key ≡ some l.token
  stored l s h = rw (r.get-set s l.key l.key l.token l.ttl_ms h) (rw ((eq_iff l.key l.key).1 refl))

  Ends-again :
      (deadline now : ℕ) (l : RedisLock) (u : r.Server) (out : Result Bool × RedisLock × r.Server)
      → Ends r deadline now (record l { acquired = false }) u out
      → Ends r deadline now l u out
  Ends-again deadline now l u (ok true, l', s) d = d
  Ends-again deadline now l u (ok false, l', s) d = d
  Ends-again deadline now l u (err e, l', s) d = d

  late_le : (a b : ℕ) → leb a b ≡ true → a ≤ b
  late_le a b h = ground arith

  early_lt : (a b : ℕ) → leb a b ≡ false → b < a
  early_lt a b h = ground arith

  module _ (clock : ℕ → ℕ) (others : ℕ → r.Server → r.Server) (deadline : ℕ) where
    loop_free :
        (fuel i : ℕ) (l : RedisLock) (s : r.Server)
        → is_some (r.get s l.key) ≡ false
        → acquire_loop r clock others deadline (suc fuel) i l s
          ≡ some (ok true, record l { acquired = true }, r.set s l.key l.token l.ttl_ms)
    unfolding acquire_loop
    loop_free fuel i l s free = rw (r.set_nx_lem s l.key l.token l.ttl_ms) (rw free)

    loop_late :
        (fuel i : ℕ) (l : RedisLock) (s : r.Server)
        → is_some (r.get s l.key) ≡ true
        → leb deadline (clock i) ≡ true
        → acquire_loop r clock others deadline (suc fuel) i l s
          ≡ some (timed_out r (record l { acquired = false }), record l { acquired = false }, s)
    unfolding acquire_loop
    loop_late fuel i l s taken late =
        rw (r.set_nx_lem s l.key l.token l.ttl_ms) (rw taken (rw late))

    loop_again :
        (fuel i : ℕ) (l : RedisLock) (s : r.Server)
        → is_some (r.get s l.key) ≡ true
        → leb deadline (clock i) ≡ false
        → acquire_loop r clock others deadline (suc fuel) i l s
          ≡ acquire_loop r clock others deadline fuel
              (suc i)
              (record l { acquired = false })
              (others i s)
    unfolding acquire_loop
    loop_again fuel i l s taken early =
        rw (r.set_nx_lem s l.key l.token l.ttl_ms) (rw taken (rw early))

    -- The outcome of the loop from pass `i` on, and the pass it comes from.
    abbrev Outcome : (fuel i : ℕ) → RedisLock → r.Server → Type 0
    Outcome fuel i l s =
        (out : Result Bool × RedisLock × r.Server) × (k : ℕ) × (u : r.Server) × (acquire_loop r
            clock others deadline fuel i l s
          ≡ some out)
        × Waits r clock others deadline l.key i s k u
        × Ends r deadline (clock k) l u out

    acquire_loop-Ends :
        (poll fuel i : ℕ) (l : RedisLock) (s : r.Server)
        → 0 < l.ttl_ms
        → 0 < poll
        → ((j : ℕ) → clock j + poll ≤ clock (suc j))
        → 0 < fuel
        → deadline < clock i + fuel
        → Outcome fuel i l s
    acquire_loop-Ends poll zero i l s t p grows f h = absurd (omega arith)
    acquire_loop-Ends poll (suc fuel) i l s t p grows f h =
        elim (Bool-cases (is_some (r.get s l.key))) [
          | inr free ↦ (
            (ok true, record l { acquired = true }, r.set s l.key l.token l.ttl_ms),
            i,
            s,
            loop_free fuel i l s free,
            there i s,
            (free, refl, stored l s t),
          )
          | inl taken ↦ elim (Bool-cases (leb deadline (clock i))) [
            | inl late ↦ (
              (timed_out r (record l { acquired = false }), record l { acquired = false }, s),
              i,
              s,
              loop_late fuel i l s taken late,
              there i s,
              timed_out-Ends deadline (clock i) l s taken (late_le deadline (clock i) late),
            )
            | inr early ↦
                let before : clock i < deadline = early_lt deadline (clock i) early in
                let (out, k, u, e, w, d) =
                  acquire_loop-Ends poll fuel (suc i) (record l { acquired = false }) (others i s) t
                    p grows (omega arith) (omega (arith, grows i)) in
                (
                  out,
                  k,
                  u,
                  loop_again fuel i l s taken early ∙ e,
                  sleeps i s k u taken before w,
                  Ends-again deadline (clock k) l u out d,
                )
          ]
        ]

  -- `acquire` returns or raises, with fuel for one pass more than the waiting time has units: each
  -- sleep takes at least the poll interval, whatever others do to the server meanwhile. It goes on as long as a pass
  -- finds the key taken and the deadline, the start plus the waiting time, not reached. In its last pass the key is free, and it
  -- ends with the lock's token stored; or the key is taken at the deadline or later, and it ends without the lock as `required` says.
  pub acquire-Ends :
      (clock : ℕ → ℕ) (others : ℕ → r.Server → r.Server) (start fuel : ℕ) (l : RedisLock)
      (s : r.Server)
      → 0 < l.ttl_ms
      → 0 < l.poll_interval
      → start ≤ clock 0
      → ((j : ℕ) → clock j + l.poll_interval ≤ clock (suc j))
      → l.blocking_timeout < fuel
      → (out : Result Bool × RedisLock × r.Server) × (k : ℕ) × (u : r.Server) × (acquire r clock
            others start fuel l s
          ≡ some out)
        × Waits r clock others (start + l.blocking_timeout) l.key 0 s k u
        × Ends r (start + l.blocking_timeout) (clock k) l u out
  unfolding acquire
  acquire-Ends clock others start fuel l s t p st grows f =
      acquire_loop-Ends clock others (start + l.blocking_timeout) l.poll_interval fuel 0 l s t p
        grows (omega arith) (omega arith)
