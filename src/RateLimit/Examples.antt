-- ===== src/RateLimit/Examples.antt =====
-- A server that keeps hashes, and the theorems at a bucket of ten tokens, refilled by one in 100 ms.
use prodkit_storage.Common.{
  ℕ, ◌+◌, ◌*◌, ◌≤◌, ◌≡◌, refl, true, Option, none, some, String, [], ◌∷◌, if◌then◌else◌, ltb, arith,
  ◌=?◌, eq_iff, pos, ok, err, value_error,
}
use prodkit_storage.RateLimit.Defs.{
  Bucket, take_tokens, ttl_ms, refilled, HashServer, check, check_valid,
}
use prodkit_storage.RateLimit.Bounds.{admitted, admitted_bound, check_ignores_expiry}

record Hashes : Type 0 where
  clock : ℕ
  cell : String → Option (Bucket × ℕ)

abbrev live : ℕ → Option (Bucket × ℕ) → Option Bucket
live now none = none
live now (some (b, expires)) = if ltb now expires then some b else none

read_ : Hashes → String → Option Bucket
read_ s k = live s.clock (s.cell k)

write_ : Hashes → String → Bucket → ℕ → Hashes
write_ s k b ttl = record s { cell = λ j. if k =? j then some (b, s.clock + ttl) else s.cell j }

wait_ : Hashes → ℕ → Hashes
wait_ s n = record s { clock = s.clock + n }

read-wait_ :
    (s : Hashes) (k : String) (b : Bucket) (ttl n : ℕ)
    → read_ (wait_ (write_ s k b ttl) n) k ≡ (if ltb n ttl then some b else none)
unfolding read_ wait_ write_
read-wait_ s k b ttl n = ground (arith, eq_iff k k)

time-write_ : (s : Hashes) (k : String) (b : Bucket) (ttl : ℕ) → (write_ s k b ttl).clock ≡ s.clock
unfolding write_
time-write_ s k b ttl = refl

time-wait_ : (s : Hashes) (n : ℕ) → (wait_ s n).clock ≡ s.clock + n
unfolding wait_
time-wait_ s n = refl

hashes : HashServer
hashes = record {
  Server = Hashes;
  time = λ s. s.clock;
  read = read_;
  write = write_;
  wait = wait_;
  time-write = time-write_;
  time-wait = time-wait_;
  read-wait = read-wait_;
}

abbrev start : Hashes
start = record { clock = 1000; cell = λ k. none }

check_runs :
    (check hashes 100 "api" (pos 10) (pos 1) (pos 4) (unfold hashes in start)).0
    ≡ ok (record { allowed = true; remaining = 6; retry_after_ms = 0 })
unfolding check refilled hashes read_ write_
check_runs = refl

check_guards :
    (check hashes 100 "api" (pos 10) (pos 1) (pos 11) (unfold hashes in start)).0 ≡ err value_error
unfolding check hashes
check_guards = refl

abbrev low : Bucket
low = record { tokens = 150; updated_at = 1000 }

admitted_bound_example :
    admitted 100 1000 1 1000 low ((0, 100) ∷ (10, 100) ∷ (50, 100) ∷ []) ≤ 150 + 60 * 1
admitted_bound_example = admitted_bound 100 1000 1 low ((0, 100) ∷ (10, 100) ∷ (50, 100) ∷ [])

check_ignores_expiry_example :
    (check_valid hashes 100 "api" 10 1 4
      (hashes.wait (hashes.write (unfold hashes in start) "api" low (ttl_ms 1000 1)) 2000)).0
    ≡ (take_tokens 100 1000 1 400 3000 (some low)).1
unfolding hashes
check_ignores_expiry_example =
    check_ignores_expiry hashes 100 "api" 10 1 4 2000 start low (omega arith) refl
