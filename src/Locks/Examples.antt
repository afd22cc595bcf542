-- ===== src/Locks/Examples.antt =====
-- Two clients of one key on a concrete server.
use prodkit_storage.Common.{
  ℕ, ◌*◌, ◌≡◌, refl, Bool, true, false, none, some, String, ◌=?◌, if◌then◌else◌, arith, Result,
}
use prodkit_storage.Redis.Cells.{Cells, cells, cells_get}
use prodkit_storage.Locks.Defs.{RedisLock, attempt, acquire}
use prodkit_storage.Locks.Waiting.{Waits, Ends, acquire-Ends}
use prodkit_storage.Locks.Safety.{
  Step, attempts, NotStolen, Step-NotStolen, here, next, RunOfOthers-holder,
}

abbrev lock : String → RedisLock
lock token = record {
  key = "job";
  ttl_ms = 30000;
  blocking_timeout = 100;
  poll_interval = 50;
  required = true;
  token = token;
  acquired = false;
}

abbrev empty : Cells
empty = record { clock = 0; cell = λ k. none }

-- The key is held by client `a`.
abbrev held : Cells
held = record { clock = 0; cell = λ k. if "job" =? k then some ("a", 30000) else none }

acquire-Ends_example :
    (out : Result Bool × RedisLock × Cells) × (k : ℕ) × (u : Cells) × (acquire cells
        (λ i. 50 * i)
        (λ i s. s)
        0
        101
        (lock "b")
        held
      ≡ some out)
    × Waits cells (λ i. 50 * i) (λ i s. s) 100 "job" 0 held k u
    × Ends cells 100 (50 * k) (lock "b") u out
acquire-Ends_example =
    acquire-Ends cells (λ i. 50 * i) (λ i s. s) 0 101 (lock "b") held (omega arith) (omega arith)
      (omega arith) (λ j. omega arith) (omega arith)

held_by_a : cells_get held "job" ≡ some "a"
unfolding cells_get
held_by_a = refl

tries : Step cells held (attempt cells (lock "b") held).1
tries = attempts (lock "b") (omega arith) refl

Step-NotStolen_example : NotStolen cells "job" held (attempt cells (lock "b") held).1
Step-NotStolen_example = Step-NotStolen cells "job" tries

RunOfOthers-holder_example : cells_get (attempt cells (lock "b") held).1 "job" ≡ some "a"
unfolding tries
RunOfOthers-holder_example = RunOfOthers-holder cells "job" "a" (next here tries tt) held_by_a
