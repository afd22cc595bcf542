-- ===== src/RateLimit/Defs.antt =====
-- `_TOKEN_BUCKET_SCRIPT` and `check`, for the sync and the async limiter alike. Token counts are in
-- units of which `scale` make one token, so that the refill per millisecond is a whole number of
-- units: the model counts exactly where the script uses floats, and nothing of their rounding is modelled.
use prodkit_storage.Common.{
  ceil_div, ℕ, ◌+◌, ◌-◌, ◌*◌, ◌/◌, ◌≡◌, min, max, Bool, true, false, ◌||◌, Option, none, some,
  String, if◌then◌else◌, leb, ltb, not, ℤ, pos, pos_part, leb_ℤ, Result, ok, err, raise_if,
  value_error, ◌>>◌,
}

-- The hash at the key: the fields `tokens` and `updated_at`.
pub record Bucket : Type 0 where
  pub tokens : ℕ
  pub updated_at : ℕ

pub record RateLimitDecision : Type 0 where
  pub allowed : Bool
  pub remaining : ℕ
  pub retry_after_ms : ℕ

-- `tonumber(state[1]) or capacity` and `tonumber(state[2]) or now_ms`
abbrev pub stored_tokens : ℕ → Option Bucket → ℕ
stored_tokens capacity none = capacity
stored_tokens capacity (some b) = b.tokens

abbrev pub stored_at : ℕ → Option Bucket → ℕ
stored_at now none = now
stored_at now (some b) = b.updated_at

-- The tokens after the refill. `elapsed` is `math.max(0, now_ms - updated_at)`.
unfoldable pub refilled : (capacity refill now : ℕ) → Option Bucket → ℕ
refilled capacity refill now state =
    let elapsed = now - stored_at now state in
    min capacity (stored_tokens capacity state + elapsed * refill)

-- The script between HMGET and HSET, for an amount `requested`.
unfoldable pub take_tokens :
    (scale capacity refill requested now : ℕ) → Option Bucket → Bucket × RateLimitDecision
take_tokens scale capacity refill requested now state =
    let tokens = refilled capacity refill now state in
    if leb requested tokens
    then (
      record { tokens = tokens - requested; updated_at = now },
      record { allowed = true; remaining = (tokens - requested) / scale; retry_after_ms = 0 },
    )
    else (
      record { tokens = tokens; updated_at = now },
      record {
        allowed = false;
        remaining = tokens / scale;
        retry_after_ms = ceil_div (requested - tokens) refill;
      },
    )

-- `max(1000, int(capacity / refill_rate_per_second * 2000))`
unfoldable pub ttl_ms : (capacity refill : ℕ) → ℕ
ttl_ms capacity refill = max 1000 (2 * capacity / refill)

-- `_validate`; the rate is in units per millisecond.
unfoldable pub validate : (capacity rate cost : ℤ) → Result (Unit {0})
validate capacity rate cost = do
  raise_if (leb_ℤ capacity (pos 0) || leb_ℤ rate (pos 0) || leb_ℤ cost (pos 0)) value_error
  raise_if (not (leb_ℤ cost capacity)) value_error
  ok tt

-- What the script relies on of the server: the hash at a key, and its own clock.
pub record HashServer : Type 1 where
  pub Server : Type 0
  -- TIME, in milliseconds
  pub time : Server → ℕ
  -- HMGET
  pub read : Server → String → Option Bucket
  -- HSET, then PEXPIRE
  pub write : Server → String → Bucket → ℕ → Server
  pub wait : Server → ℕ → Server
  pub time-write :
      (s : Server) (k : String) (b : Bucket) (ttl : ℕ) → time (write s k b ttl) ≡ time s
  pub time-wait : (s : Server) (n : ℕ) → time (wait s n) ≡ time s + n
  -- A key that was written lives for its ttl, and is gone from then on.
  pub read-wait :
      (s : Server) (k : String) (b : Bucket) (ttl n : ℕ)
      → read (wait (write s k b ttl) n) k ≡ (if ltb n ttl then some b else none)

module _ (h : HashServer) where
  open h use {Server, time, read, write}

  -- `check` behind its guards.
  unfoldable pub check_valid :
      (scale : ℕ) (key : String) (capacity rate cost : ℕ) → Server → RateLimitDecision × Server
  unfolding take_tokens ttl_ms
  check_valid scale key capacity rate cost s =
      let (b, decision) =
        take_tokens scale (capacity * scale) rate (cost * scale) (time s) (read s key) in
      (decision, write s key b (ttl_ms (capacity * scale) rate))

  abbrev pub checked :
      Result (Unit {0}) → Server → RateLimitDecision × Server → Result RateLimitDecision × Server
  checked (err e) s rest = (err e, s)
  checked (ok _) s (decision, s') = (ok decision, s')

  unfoldable pub check :
      (scale : ℕ) (key : String) (capacity rate cost : ℤ)
      → Server
      → Result RateLimitDecision × Server
  unfolding check_valid validate
  check scale key capacity rate cost s =
      checked (validate capacity rate cost) s
        (check_valid scale key (pos_part capacity) (pos_part rate) (pos_part cost) s)
