-- ===== src/Cache/Returned.antt =====
-- What `get_or_set` returns, and what it leaves in the cache.
use prodkit_storage.Common.{
  ℕ, ◌+◌, ◌<◌, true, false, Option, none, some, String, str_append, is_among, List, Result, ok, err,
  value_error, Post, Post-bind, Post-raise_if, subst, ◌≡◌, refl, ap, ◌∙◌, arith, ℤ, pos, leb_ℤ, ltb,
}
use prodkit_storage.Cache.Keyspace.{text, Keyspace, at, text_of, set_in, Server}
use prodkit_storage.Cache.Defs.{
  Cache, JsonCodec, ttl_or, ttl_of, tag_keys, execute_set, decoded, get_value, set_value, store,
  load_under_lock, locked_body, unless_cached, get_or_set,
}
use prodkit_storage.Cache.Tags.{add_tags_in, put-cell, add_tags_in-clock, add_tags_in-other}
use prodkit_storage.Cache.Invalidate.{execute_set-view}

live_text :
    (ks : Keyspace) (key v : String) (ttl now : ℕ)
    → 0 < ttl
    → ks.clock ≡ now
    → ks.cell key ≡ some (record { content = text v; expires = some (now + ttl) })
    → text_of (at ks key) ≡ some v
live_text ks key v ttl now h clock cell =
    let lives : ltb ks.clock (now + ttl) ≡ true = ground arith in rw (cell, lives)

ttl_of-positive :
    (c : Cache) (randint : ℕ → ℤ) (ttl_seconds : Option ℤ)
    → Post (λ ttl. 0 < ttl) (ttl_of c randint ttl_seconds)
unfolding ttl_of
ttl_of-positive c randint ttl_seconds =
    Post-raise_if (λ ttl. 0 < ttl) (leb_ℤ (ttl_or c.default_ttl_seconds ttl_seconds) (pos 0))
      value_error _ (λ positive. omega arith)

module _ (r : Server) where
  open r use {State, view, get}

  execute_set-get :
      (key v : String) (ttl : ℕ) (keys : List String) (s : State)
      → 0 < ttl
      → is_among key keys ≡ false
      → get (execute_set r key v ttl keys s) key ≡ some v
  execute_set-get key v ttl keys s h apart =
      let stored = set_in key v ttl (view s) in
      r.get_lem _ key
      ∙ ap (λ ks. text_of (at ks key)) (execute_set-view r key v ttl keys s)
      ∙ live_text (add_tags_in key ttl keys stored) key v ttl (view s).clock h
          (add_tags_in-clock key ttl keys stored)
          (add_tags_in-other key ttl keys key stored apart
            ∙ put-cell (view s) key
                (some (record { content = text v; expires = some ((view s).clock + ttl) })))

  module _ {J : Type 0} (quote sha256 : String → String) (codec : JsonCodec J) (randint : ℕ → ℤ)
      (c : Cache) (key : String) (ttl_seconds : Option ℤ) (tags : List String)
      (round_trip : (value : J) → Post (λ t. codec.loads t ≡ ok value) (codec.dumps value))
      (apart : Post (λ keys. is_among key keys ≡ false) (tag_keys quote sha256 c.keys tags)) where
    abbrev Shows : State → J → Type 0
    Shows s value = get_value r quote sha256 codec randint key s ≡ ok (some value)

    set_value-Shows :
        (value : J) (s : State)
        → Post
            (λ s'. Shows s' value)
            (set_value r quote sha256 codec randint c key value ttl_seconds tags s)
    unfolding set_value get_value
    set_value-Shows value s =
        Post-bind (λ ttl. 0 < ttl) (λ s'. Shows s' value) (ttl_of c randint ttl_seconds) _
          (ttl_of-positive c randint ttl_seconds)
          (λ ttl positive.
            Post-bind (λ t. codec.loads t ≡ ok value) (λ s'. Shows s' value) (codec.dumps value) _
              (round_trip value)
              (λ encoded loads.
                Post-bind (λ keys. is_among key keys ≡ false) (λ s'. Shows s' value)
                  (tag_keys quote sha256 c.keys tags) _ apart
                  (λ keys other.
                    let found = execute_set-get key encoded ttl keys s positive other in
                    rw (found, loads))))

    module _ (acquire : String → State → Result (Unit {0}) × State)
        (release : String → State → State) (loader : State → Result J × State)
        (released : (s : State) → get (release (str_append key ":lock") s) key ≡ get s key) where
      -- The value that is returned, if any, is what the cache holds in the state that is left.
      abbrev Left : Result J × State → Type 0
      Left (result, s) = Post (λ value. Shows s value) result

      stored-Left :
          (value : J) (s : State) (m : Result State)
          → Post (λ s'. Shows s' value) m
          → Left (elim m [ err e ↦ (err e, s) | ok s' ↦ (ok value, s') ])
      stored-Left value s (err e) h = tt
      stored-Left value s (ok s') h = h

      store-Left :
          (s : State) (result : Result J)
          → Left (
              store r quote sha256 codec randint acquire release loader c key ttl_seconds tags s
                result)
      store-Left s (err e) = tt
      store-Left s (ok value) =
          stored-Left value s
            (set_value r quote sha256 codec randint c key value ttl_seconds tags s)
            (set_value-Shows value s)

      load_under_lock-Left :
          (s : State) (cached : Result (Option J))
          → get_value r quote sha256 codec randint key s ≡ cached
          → Left (
              load_under_lock r quote sha256 codec randint acquire release loader c key ttl_seconds
                tags s cached)
      load_under_lock-Left s (err e) h = tt
      load_under_lock-Left s (ok (some value)) h = h
      load_under_lock-Left s (ok none) h = store-Left (loader s).1 (loader s).0

      release-Left :
          (ended : Result J × State)
          → Left ended
          → Left (ended.0, release (str_append key ":lock") ended.1)
      unfolding get_value
      release-Left (err e, s) h = tt
      release-Left (ok value, s) h = ap (decoded r quote sha256 codec randint) (released s) ∙ h

      locked_body-Left :
          (entered : Result (Unit {0}) × State)
          → Left (
              locked_body r quote sha256 codec randint acquire release loader c key ttl_seconds tags
                entered)
      locked_body-Left (err e, s) = tt
      locked_body-Left (ok done, s) =
          release-Left _
            (load_under_lock-Left s (get_value r quote sha256 codec randint key s) refl)

      unless_cached-Left :
          (s : State) (cached : Result (Option J))
          → get_value r quote sha256 codec randint key s ≡ cached
          → Left (
              unless_cached r quote sha256 codec randint acquire release loader c key ttl_seconds
                tags s cached)
      unless_cached-Left s (err e) h = tt
      unless_cached-Left s (ok (some value)) h = h
      unless_cached-Left s (ok none) h = locked_body-Left (acquire (str_append key ":lock") s)

      -- If the codec reads back what it writes, no tag's key is the key itself, and releasing the lock does not touch the
      -- key: a call of `get_or_set` that returns a value, cached, stored by another client during the wait for the lock or
      -- loaded, leaves a cache in which `get` returns this value.
      pub get_or_set-get_value :
          (s s' : State) (value : J)
          → get_or_set r quote sha256 codec randint acquire release loader c key ttl_seconds tags s
            ≡ (ok value, s')
          → get_value r quote sha256 codec randint key s' ≡ ok (some value)
      unfolding get_or_set
      get_or_set-get_value s s' value h =
          subst Left h (unless_cached-Left s (get_value r quote sha256 codec randint key s) refl)
