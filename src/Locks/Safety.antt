-- ===== src/Locks/Safety.antt =====
-- Mutual exclusion: the key is never taken from a holder by another client's call.
use prodkit_storage.Common.{
  ℕ, ◌<◌, ◌≡◌, ◌≢◌, refl, sym, ◌∙◌, ap, ◌⊎◌, inl, inr, true, false, Option, none, some, String,
  ◌=?◌, eq_iff, if◌then◌else◌, arith, Bool-cases, ℤ, pos, pos_part, leb_ℤ,
}
use prodkit_storage.Redis.{Redis, is_some}
use prodkit_storage.Locks.Defs.{
  RedisLock, is_text, release_script, extend_script, attempt, ttl_or, extend, release,
}
use prodkit_storage.Locks.Waiting.{attempt_taken, attempt_free}

is_text_iff : (t v : String) → is_text t (some v) ≡ true → v ≡ t
is_text_iff t v h = (eq_iff v t).0 h

positive : (t : ℤ) → leb_ℤ t (pos 0) ≡ false → 0 < pos_part t
positive t h = ground arith

module _ (r : Redis) where
  open r use {Server, get}

  -- Only the holder's token lets `release` remove the key, and it removes that key alone.
  pub get-release_script :
      (s : Server) (key token j : String)
      → get (release_script r s key token).1 j
        ≡ (if is_text token (get s key) then (if key =? j then none else get s j) else get s j)
  unfolding release_script
  get-release_script s key token j = elim (Bool-cases (is_text token (get s key))) [
    | inl mine ↦ rw mine (r.get-del s key j)
    | inr other ↦ rw other
  ]

  get-extend_script :
      (s : Server) (key token j : String) (ttl : ℕ)
      → 0 < ttl
      → get (extend_script r s key token ttl).1 j ≡ get s j
  unfolding extend_script
  get-extend_script s key token j ttl h = elim (Bool-cases (is_text token (get s key))) [
    | inl mine ↦ rw mine (r.get-pexpire s key j ttl h)
    | inr other ↦ rw other
  ]

  -- What one client's call, or the passing of time, may do to the server.
  pub data Step (s s' : Server) : Type 0 where
    attempts : (l : RedisLock) → 0 < l.ttl_ms → s' ≡ (attempt r l s).1 → Step s s'
    extends :
        (l : RedisLock) (ttl : Option ℤ) → 0 < l.ttl_ms → s' ≡ (extend r l ttl s).1 → Step s s'
    releases : (l : RedisLock) → s' ≡ (release r l s).2 → Step s s'
    waits : (n : ℕ) → s' ≡ r.wait s n → Step s s'

  -- The key is as it was, or it is free, or it was free.
  abbrev pub NotStolen : String → Server → Server → Type 0
  NotStolen key s s' = (get s' key ≡ get s key) ⊎ ((get s' key ≡ none) ⊎ (get s key ≡ none))

  none_of : (o : Option String) → is_some o ≡ false → o ≡ none
  none_of none h = refl
  none_of (some v) h = cc

  attempt-NotStolen :
      (key : String) (l : RedisLock) (s : Server) → 0 < l.ttl_ms → NotStolen key s (attempt r l s).1
  attempt-NotStolen key l s t = elim (Bool-cases (is_some (get s l.key))) [
    | inl taken ↦ rw (attempt_taken r l s taken) (inl refl)
    | inr free ↦ rw (attempt_free r l s free) (set_free (none_of (get s l.key) free))
  ]
    where
      set_free : get s l.key ≡ none → NotStolen key s (r.set s l.key l.token l.ttl_ms)
      set_free e = elim (Bool-cases (l.key =? key)) [
        | inl same ↦ inr (inr (rw ((eq_iff l.key key).0 same) at e))
        | inr other ↦ inl (rw (r.get-set s l.key key l.token l.ttl_ms t) (rw other))
      ]

  -- The calls of `extend` and `release` leave the key as their scripts do, or alone.
  get-extend :
      (key : String) (l : RedisLock) (ttl : Option ℤ) (s : Server)
      → get (extend r l ttl s).1 key ≡ get s key
  unfolding extend
  get-extend key l ttl s = elim (Bool-cases l.acquired) [
    | inr idle ↦ simp idle
    | inl active ↦ elim (Bool-cases (leb_ℤ (ttl_or l.ttl_ms ttl) (pos 0))) [
      | inl bad ↦ simp (active, bad)
      | inr fine ↦ simp (
        active,
        fine,
        get-extend_script s l.key l.token key (pos_part (ttl_or l.ttl_ms ttl))
            (positive (ttl_or l.ttl_ms ttl) fine),
      )
    ]
  ]

  get-release_other :
      (key token : String) (l : RedisLock) (s : Server)
      → l.token ≢ token
      → get s key ≡ some token
      → get (release r l s).2 key ≡ some token
  unfolding release
  get-release_other key token l s ne h = elim (Bool-cases l.acquired) [
    | inr idle ↦ simp idle h
    | inl active ↦ simp active (script tt)
  ]
    where
      script : Unit {0} → get (release_script r s l.key l.token).1 key ≡ some token
      script _ = elim (Bool-cases (is_text l.token (get s l.key))) [
        | inr other ↦ rw (get-release_script s l.key l.token key) (rw other h)
        | inl mine ↦ elim (Bool-cases (l.key =? key)) [
          | inl same ↦
              let e : get s l.key ≡ some token = ap (get s) ((eq_iff l.key key).0 same) ∙ h in
              absurd (ne (sym (is_text_iff l.token token (rw e at mine))))
          | inr differs ↦ rw (get-release_script s l.key l.token key) (rw mine (rw differs h))
        ]
      ]

  release-NotStolen :
      (key : String) (l : RedisLock) (s : Server) → NotStolen key s (release r l s).2
  unfolding release
  release-NotStolen key l s = elim (Bool-cases l.acquired) [
    | inr idle ↦ simp idle (inl refl)
    | inl active ↦ simp active (script tt)
  ]
    where
      script : Unit {0} → NotStolen key s (release_script r s l.key l.token).1
      script _ = elim (Bool-cases (is_text l.token (get s l.key))) [
        | inr other ↦ inl (rw (get-release_script s l.key l.token key) (rw other))
        | inl mine ↦ elim (Bool-cases (l.key =? key)) [
          | inl same ↦ inr (inl (rw (get-release_script s l.key l.token key) (rw mine (rw same))))
          | inr differs ↦ inl (rw (get-release_script s l.key l.token key) (rw mine (rw differs)))
        ]
      ]

  -- Whatever call any client makes, and however time passes, a key never goes from one holder's
  -- token to another's in one step.
  pub Step-NotStolen : {s s' : Server} (key : String) → Step s s' → NotStolen key s s'
  Step-NotStolen {s} key (attempts l t q) = rw q (attempt-NotStolen key l s t)
  Step-NotStolen {s} key (extends l ttl t q) = rw q (inl (get-extend key l ttl s))
  Step-NotStolen {s} key (releases l q) = rw q (release-NotStolen key l s)
  Step-NotStolen {s} key (waits n q) = rw q (waited (r.get-wait s n key))
    where
      waited :
          (get (r.wait s n) key ≡ get s key) ⊎ (get (r.wait s n) key ≡ none)
          → NotStolen key s (r.wait s n)
      waited (inl same) = inl same
      waited (inr gone) = inr (inl gone)

  attempt_keeps :
      (key token : String) (l : RedisLock) (s : Server)
      → 0 < l.ttl_ms
      → get s key ≡ some token
      → get (attempt r l s).1 key ≡ some token
  attempt_keeps key token l s t h = elim (Bool-cases (is_some (get s l.key))) [
    | inl taken ↦ rw (attempt_taken r l s taken) h
    | inr free ↦ rw (attempt_free r l s free) (elim (Bool-cases (l.key =? key)) [
      | inl same ↦ cc (none_of (get s l.key) free, ap (get s) ((eq_iff l.key key).0 same), h)
      | inr other ↦ rw (r.get-set s l.key key l.token l.ttl_ms t) (rw other h)
    ])
  ]

  -- A call of a client other than the holder of `token`.
  abbrev pub OfOthers : {s s' : Server} → String → Step s s' → Type 0
  OfOthers token (attempts l t q) = Unit
  OfOthers token (extends l ttl t q) = Unit
  OfOthers token (releases l q) = l.token ≢ token
  OfOthers token (waits n q) = ⊥

  -- A stored token survives every call of clients with other tokens: only its own release, or time,
  -- takes it away.
  pub Step-holder :
      {s s' : Server} (key token : String) (st : Step s s')
      → OfOthers token st
      → get s key ≡ some token
      → get s' key ≡ some token
  Step-holder {s} key token (attempts l t q) o h = rw q (attempt_keeps key token l s t h)
  Step-holder {s} key token (extends l ttl t q) o h = rw q (get-extend key l ttl s ∙ h)
  Step-holder {s} key token (releases l q) o h = rw q (get-release_other key token l s o h)
  Step-holder key token (waits n q) o h = absurd o

  -- Any number of calls of clients other than the holder of `token`, in any order.
  pub data RunOfOthers (token : String) (s : Server) : Server → Type 0 where
    here : RunOfOthers token s s
    next :
        {t u : Server}
        → RunOfOthers token s t
        → (st : Step t u) → OfOthers token st
        → RunOfOthers token s u

  -- Mutual exclusion: while a client's token is stored and neither its release nor time intervenes,
  -- the key stays with it over any run of calls by others.
  pub RunOfOthers-holder :
      (key token : String) {s s' : Server}
      → RunOfOthers token s s'
      → get s key ≡ some token
      → get s' key ≡ some token
  RunOfOthers-holder key token here h = h
  RunOfOthers-holder key token (next r st o) h =
      Step-holder key token st o (RunOfOthers-holder key token r h)
