-- ===== src/Locks/Defs.antt =====
-- `RedisLock` and its two scripts, and `AsyncRedisLock`, which runs the same commands. Durations are milliseconds; `secrets.token_urlsafe` and the clock are arguments.
use prodkit_storage.Common.{
  ℕ, zero, suc, ◌+◌, Bool, true, false, ◌||◌, Option, none, some, String, ◌=?◌, if◌then◌else◌, leb,
  not, ℤ, pos, pos_part, leb_ℤ, Result, ok, err, raise_if, value_error, lock_not_acquired, ◌>>◌,
}
use prodkit_storage.Redis.{Redis}

pub record RedisLock : Type 0 where
  pub key : String
  pub ttl_ms : ℕ
  pub blocking_timeout : ℕ
  pub poll_interval : ℕ
  pub required : Bool
  pub token : String
  pub acquired : Bool

-- `__init__`
unfoldable pub new :
    (key : String) (ttl_ms blocking_timeout poll_interval : ℤ) (required : Bool) (token : String)
    → Result RedisLock
new key ttl_ms blocking_timeout poll_interval required token = do
  raise_if (leb_ℤ ttl_ms (pos 0)) value_error
  raise_if (not (leb_ℤ (pos 0) blocking_timeout) || leb_ℤ poll_interval (pos 0)) value_error
  ok (record {
    key = key;
    ttl_ms = pos_part ttl_ms;
    blocking_timeout = pos_part blocking_timeout;
    poll_interval = pos_part poll_interval;
    required = required;
    token = token;
    acquired = false;
  })

-- Lua compares the stored text, if there is one.
abbrev pub is_text : String → Option String → Bool
is_text t none = false
is_text t (some v) = v =? t

-- `bool(reply)`
abbrev pub as_bool : ℕ → Bool
as_bool zero = false
as_bool (suc n) = true

abbrev pub ttl_or : ℕ → Option ℤ → ℤ
ttl_or ttl none = pos ttl
ttl_or ttl (some t) = t

module _ (r : Redis) where
  open r use {Server, get, set_nx, del, pexpire}

  -- _RELEASE_SCRIPT
  unfoldable pub release_script : Server → (key token : String) → ℕ × Server
  release_script s key token = if is_text token (get s key) then del s key else (0, s)

  -- _EXTEND_SCRIPT
  unfoldable pub extend_script : Server → (key token : String) → ℕ → ℕ × Server
  extend_script s key token ttl = if is_text token (get s key) then pexpire s key ttl else (0, s)

  -- One pass of the loop: the attempt to set the key.
  unfoldable pub attempt : RedisLock → Server → RedisLock × Server
  attempt l s =
      let (set_, s') = set_nx s l.key l.token l.ttl_ms in (record l { acquired = set_ }, s')

  unfoldable pub timed_out : RedisLock → Result Bool
  timed_out l = if l.required then err lock_not_acquired else ok false

  -- The loop of `acquire`. `clock i` is what `time.monotonic` reads in pass i, and `others i` what the
  -- other clients and time do to the server while pass i sleeps. `none`: the fuel ran out.
  unfoldable pub acquire_loop :
      (clock : ℕ → ℕ) (others : ℕ → Server → Server) (deadline : ℕ)
      → (fuel i : ℕ) → RedisLock
      → Server
      → Option (Result Bool × RedisLock × Server)
  unfolding attempt timed_out
  acquire_loop clock others deadline zero i l s = none
  acquire_loop clock others deadline (suc fuel) i l s =
      let (l', s') = attempt l s in
      let again = acquire_loop clock others deadline fuel (suc i) l' (others i s') in
      if l'.acquired
      then some (ok true, l', s')
      else if leb deadline (clock i)
      then some (timed_out l', l', s')
      else again

  -- `start` is the clock when `acquire` is called.
  unfoldable pub acquire :
      (clock : ℕ → ℕ) (others : ℕ → Server → Server) (start fuel : ℕ)
      → RedisLock
      → Server
      → Option (Result Bool × RedisLock × Server)
  unfolding acquire_loop
  acquire clock others start fuel l s =
      acquire_loop clock others (start + l.blocking_timeout) fuel 0 l s

  unfoldable pub extend : RedisLock → Option ℤ → Server → Result Bool × Server
  unfolding extend_script
  extend l ttl_ms s =
      let new_ttl = ttl_or l.ttl_ms ttl_ms in
      if l.acquired
      then (if leb_ℤ new_ttl (pos 0)
          then (err value_error, s)
          else (let (reply, s') = extend_script s l.key l.token (pos_part new_ttl) in
              (ok (as_bool reply), s')))
      else (ok false, s)

  unfoldable pub release : RedisLock → Server → Bool × RedisLock × Server
  unfolding release_script
  release l s =
      if l.acquired
      then (let (reply, s') = release_script s l.key l.token in
          (as_bool reply, record l { acquired = false }, s'))
      else (false, l, s)

-- `AsyncRedisLock`: the same guards and commands, each awaited. What others do while it waits is in
-- `others`, as for the sync lock.
unfoldable pub new_async :
    (key : String) (ttl_ms blocking_timeout poll_interval : ℤ) (required : Bool) (token : String)
    → Result RedisLock
unfolding new
new_async key ttl_ms blocking_timeout poll_interval required token =
    new key ttl_ms blocking_timeout poll_interval required token

module _ (r : Redis) where
  open r use {Server}

  unfoldable pub acquire_async :
      (clock : ℕ → ℕ) (others : ℕ → Server → Server) (start fuel : ℕ)
      → RedisLock
      → Server
      → Option (Result Bool × RedisLock × Server)
  unfolding acquire
  acquire_async clock others start fuel l s = acquire r clock others start fuel l s

  unfoldable pub extend_async : RedisLock → Option ℤ → Server → Result Bool × Server
  unfolding extend
  extend_async l ttl_ms s = extend r l ttl_ms s

  unfoldable pub release_async : RedisLock → Server → Bool × RedisLock × Server
  unfolding release
  release_async l s = release r l s
