-- ===== src/Cache/Jitter.antt =====
-- How far the jitter moves an expiry.
use prodkit_storage.Common.{
  ℕ, ◌+◌, ◌*◌, ◌/◌, ◌≤◌, false, Option, ok, ◌≡◌, ℤ, pos, negsuc, pos_part, neg_part, arith, inl,
  inr, Bool-cases, leb_ℤ, subst,
}
use prodkit_storage.Cache.Defs.{Cache, ttl_or, jittered, ttl_of}

jittered_bounds :
    (t spread : ℕ) (r : ℤ)
    → 1 ≤ t
    → pos_part r ≤ spread
    → neg_part r ≤ spread
    → (1 ≤ jittered t r) × (jittered t r ≤ t + spread) × (t ≤ jittered t r + spread)
jittered_bounds t spread (pos k) h up down = (omega arith, omega arith, omega arith)
jittered_bounds t spread (negsuc k) h up down = (omega arith, omega arith, omega arith)

is_positive : (z : ℤ) → leb_ℤ z (pos 0) ≡ false → 1 ≤ pos_part z
is_positive (pos k) h = ground arith
is_positive (negsuc k) h = ground arith

-- The expiry that `set` uses, if `random.randint(-spread, spread)` is between the bounds it is given: a second at least, and
-- no further than the jitter's share of the requested expiry from that.
pub ttl_of_bounds :
    (c : Cache) (randint : ℕ → ℤ) (ttl_seconds : Option ℤ) (ttl : ℕ)
    → ((spread : ℕ) → (pos_part (randint spread) ≤ spread) × (neg_part (randint spread) ≤ spread))
    → ttl_of c randint ttl_seconds ≡ ok ttl
    → (1 ≤ ttl)
      × (ttl
          ≤ pos_part (ttl_or c.default_ttl_seconds ttl_seconds)
            + pos_part (ttl_or c.default_ttl_seconds ttl_seconds) * c.jitter_num / c.jitter_den)
      × (pos_part (ttl_or c.default_ttl_seconds ttl_seconds)
          ≤ ttl + pos_part (ttl_or c.default_ttl_seconds ttl_seconds) * c.jitter_num / c.jitter_den)
unfolding ttl_of
ttl_of_bounds c randint ttl_seconds ttl within h =
    let asked = ttl_or c.default_ttl_seconds ttl_seconds in
    let spread = pos_part asked * c.jitter_num / c.jitter_den in
    elim (Bool-cases (leb_ℤ asked (pos 0))) [
      | inl none_left ↦ (let raised = rw none_left at h in ground arith)
      | inr positive ↦
          (let returned = rw positive at h in
            let same : jittered (pos_part asked) (randint spread) ≡ ttl = cc in
            subst (λ t. (1 ≤ t) × (t ≤ pos_part asked + spread) × (pos_part asked ≤ t + spread))
              same
              (jittered_bounds (pos_part asked) spread (randint spread) (is_positive asked positive)
                (within spread).0 (within spread).1))
    ]
