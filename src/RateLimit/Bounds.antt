-- ===== src/RateLimit/Bounds.antt =====
-- What the bucket admits: never more than its capacity and the refill of the time that has passed.
use prodkit_storage.Common.{
  ℕ, ◌+◌, ◌-◌, ◌*◌, ◌<◌, ◌≤◌, ◌≡◌, min, false, Option, none, some, List, [], ◌∷◌, if◌then◌else◌,
  ltb, arith, String, Bool-cases, inl, inr,
}
use prodkit_storage.RateLimit.Defs.{
  Bucket, RateLimitDecision, refilled, take_tokens, ttl_ms, HashServer, check_valid,
}

-- No bucket ever holds more than its capacity.
pub take_tokens-le_capacity :
    (scale capacity refill requested now : ℕ) (state : Option Bucket)
    → (take_tokens scale capacity refill requested now state).0.tokens ≤ capacity
unfolding take_tokens refilled
take_tokens-le_capacity scale capacity refill requested now state = ground arith

-- A run of requests: how long after the one before each comes, and the amount that it asks for.
abbrev pub Requests : Type 0
Requests = List (ℕ × ℕ)

abbrev pub admitted_amount : RateLimitDecision → ℕ → ℕ
admitted_amount d requested = if d.allowed then requested else 0

-- The total that the script admits, from a bucket written at `now`.
unfoldable pub admitted : (scale capacity refill now : ℕ) → Bucket → Requests → ℕ
admitted scale capacity refill now b [] = 0
admitted scale capacity refill now b ((gap, requested) ∷ rs) =
    let (b', d) = take_tokens scale capacity refill requested (now + gap) (some b) in
    admitted_amount d requested + admitted scale capacity refill (now + gap) b' rs

abbrev pub elapsed : Requests → ℕ
elapsed [] = 0
elapsed ((gap, requested) ∷ rs) = gap + elapsed rs

refilled_after :
    (capacity refill gap : ℕ) (b : Bucket)
    → refilled capacity refill (b.updated_at + gap) (some b)
      ≡ min capacity (b.tokens + gap * refill)
unfolding refilled
refilled_after capacity refill gap b =
    let e : b.updated_at + gap - b.updated_at ≡ gap = omega arith in rw e

-- One request admits at most what the bucket gives up, after its refill.
take_balance :
    (scale capacity refill requested gap : ℕ) (b : Bucket)
    → let (b', d) = take_tokens scale capacity refill requested (b.updated_at + gap) (some b) in
      (b'.updated_at ≡ b.updated_at + gap)
      × (admitted_amount d requested + b'.tokens ≤ b.tokens + gap * refill)
unfolding take_tokens
take_balance scale capacity refill requested gap b =
    ground (arith, refilled_after capacity refill gap b)

-- Over any run of requests the bucket admits at most what it held and what the elapsed time
-- refills, whatever the amounts and the gaps between the requests.
pub admitted_bound :
    (scale capacity refill : ℕ) (b : Bucket) (rs : Requests)
    → admitted scale capacity refill b.updated_at b rs ≤ b.tokens + elapsed rs * refill
unfolding admitted
admitted_bound scale capacity refill b [] = omega arith
admitted_bound scale capacity refill b ((gap, requested) ∷ rs) =
    let (b', d) = take_tokens scale capacity refill requested (b.updated_at + gap) (some b) in
    let (at, balance) = take_balance scale capacity refill requested gap b in
    let rest = admitted_bound scale capacity refill b' rs in
    let rest' : admitted scale capacity refill (b.updated_at + gap) b' rs
        ≤ b'.tokens + elapsed rs * refill =
      rw at at rest in
    omega arith

ttl_refills :
    (capacity refill n : ℕ) → 0 < refill → ttl_ms capacity refill ≤ n → capacity ≤ n * refill
unfolding ttl_ms
ttl_refills capacity refill n h k = grind arith

full_none :
    (capacity refill now x : ℕ) → capacity ≤ x → refilled capacity refill now none ≡ min capacity x
unfolding refilled
full_none capacity refill now x h = grind arith

full :
    (capacity refill n : ℕ) (b : Bucket)
    → 0 < refill
    → ttl_ms capacity refill ≤ n
    → refilled capacity refill (b.updated_at + n) none
      ≡ refilled capacity refill (b.updated_at + n) (some b)
full capacity refill n b h k = rw (refilled_after capacity refill n b) (
    full_none capacity refill (b.updated_at + n) (b.tokens + n * refill)
      (omega (arith, ttl_refills capacity refill n h k)))

-- A bucket that expired is as good as one that was kept: after the ttl the refill is complete, so that
-- the decision is the same.
pub expiry_harmless :
    (scale capacity refill requested n : ℕ) (b : Bucket)
    → 0 < refill
    → ttl_ms capacity refill ≤ n
    → take_tokens scale capacity refill requested (b.updated_at + n) none
      ≡ take_tokens scale capacity refill requested (b.updated_at + n) (some b)
unfolding take_tokens
expiry_harmless scale capacity refill requested n b h k = rw (full capacity refill n b h k)

ltb-false : (a b : ℕ) → ltb a b ≡ false → b ≤ a
ltb-false a b h = ground arith

-- On the server, the decision of the next check is the one that the last written bucket gives at
-- the time of that check, whether or not the key has expired meanwhile.
pub check_ignores_expiry :
    (h : HashServer) (scale : ℕ) (key : String) (capacity rate cost n : ℕ) (s : h.Server)
    (b : Bucket)
    → 0 < rate
    → b.updated_at ≡ h.time s
    → (check_valid h scale key capacity rate cost
        (h.wait (h.write s key b (ttl_ms (capacity * scale) rate)) n)).0
      ≡ (take_tokens scale (capacity * scale) rate (cost * scale) (b.updated_at + n) (some b)).1
unfolding check_valid
check_ignores_expiry h scale key capacity rate cost n s b pos_rate e =
    let ttl = ttl_ms (capacity * scale) rate in
    rw
      (
        h.time-wait (h.write s key b ttl) n,
        h.time-write s key b ttl,
        h.read-wait s key b ttl n,
        ← e,
      )
      (elim (Bool-cases (ltb n ttl)) [
        | inl lives ↦ rw lives
        | inr gone ↦ rw gone (
            rw (
              expiry_harmless scale (capacity * scale) rate (cost * scale) n b pos_rate
                (omega (arith, ltb-false n ttl gone))))
      ])
