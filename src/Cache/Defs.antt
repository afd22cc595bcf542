-- ===== src/Cache/Defs.antt =====
-- `SyncCache`, whose twin `AsyncCache` differs in its awaits only. `jitter_ratio` is the fraction `num / den`, times are
-- seconds, and `random.randint` is an argument.
use prodkit_storage.Common.{
  ℕ, ◌+◌, ◌-◌, ◌*◌, ◌/◌, max, not, ◌&&◌, Option, none, some, String, str_append, List, [], ◌∷◌,
  Result, ok, err, value_error, ◌>>=◌, ◌>>◌, raise_if, ℤ, pos, pos_part, neg_part, leb_ℤ, leb,
}
use prodkit_storage.Cache.Keys.{KeyBuilder, tag}
use prodkit_storage.Cache.Keyspace.{Server}

pub record Cache : Type 0 where
  pub keys : KeyBuilder
  pub default_ttl_seconds : ℕ
  pub jitter_num : ℕ
  pub jitter_den : ℕ

-- `__init__`, with the ratio's numerator and its denominator, which is not 0.
unfoldable pub cache : KeyBuilder → (default_ttl num : ℤ) → ℕ → Result Cache
cache keys default_ttl num den = do
  raise_if (leb_ℤ default_ttl (pos 0)) value_error
  raise_if (not (leb_ℤ (pos 0) num && leb (2 * pos_part num) den)) value_error
  ok (record {
    keys = keys;
    default_ttl_seconds = pos_part default_ttl;
    jitter_num = pos_part num;
    jitter_den = den;
  })

abbrev pub ttl_or : ℕ → Option ℤ → ℤ
ttl_or default_ttl none = pos default_ttl
ttl_or default_ttl (some ttl) = ttl

-- `max(1, ttl + random.randint(-spread, spread))`
abbrev pub jittered : ℕ → ℤ → ℕ
jittered ttl r = max 1 (ttl + pos_part r - neg_part r)

-- `_ttl`
unfoldable pub ttl_of : Cache → (ℕ → ℤ) → Option ℤ → Result ℕ
ttl_of c randint ttl_seconds =
    let ttl = ttl_or c.default_ttl_seconds ttl_seconds in
    let spread = pos_part ttl * c.jitter_num / c.jitter_den in
    raise_if (leb_ℤ ttl (pos 0)) value_error >> ok (jittered (pos_part ttl) (randint spread))

-- `json.orjson`: `dumps` and `loads`, each of which may raise.
pub record JsonCodec (J : Type 0) : Type 0 where
  pub dumps : J → Result String
  pub loads : String → Result J

-- The keys of the tags, in order.
module _ (quote sha256 : String → String) where
  abbrev pub tag_keys : KeyBuilder → List String → Result (List String)
  tag_keys keys [] = ok []
  tag_keys keys (name ∷ names) = do
    here ← tag quote sha256 keys name
    rest ← tag_keys keys names
    ok (here ∷ rest)

module _ (r : Server) where
  open r use {State, get, smembers, set, sadd, expire_nx, expire_gt, del}

  abbrev pub add_tag : String → ℕ → String → State → State
  add_tag key ttl tag_key s =
      expire_gt tag_key (ttl + 60) (expire_nx tag_key (ttl + 60) (sadd tag_key key s))

  -- The commands that the pipeline queues, executed in one transaction.
  unfoldable pub add_tags : String → ℕ → List String → State → State
  add_tags key ttl [] s = s
  add_tags key ttl (tag_key ∷ rest) s = add_tags key ttl rest (add_tag key ttl tag_key s)

  unfoldable pub execute_set : String → String → ℕ → List String → State → State
  unfolding add_tags
  execute_set key encoded ttl keys s = add_tags key ttl keys (set key encoded ttl s)

  unfoldable pub delete : List String → State → ℕ × State
  delete [] s = (0, s)
  delete (key ∷ keys) s =
      let first = del key s in let rest = delete keys first.1 in (first.0 + rest.0, rest.1)

  -- _INVALIDATE_TAG_SCRIPT
  unfoldable pub invalidate_tag_script : String → State → ℕ × State
  unfolding delete
  invalidate_tag_script tag_key s =
      let deleted = delete (smembers s tag_key) s in (deleted.0, (del tag_key deleted.1).1)

  module _ (quote sha256 : String → String) where
    unfoldable pub invalidate_tag : Cache → String → State → Result (ℕ × State)
    unfolding invalidate_tag_script
    invalidate_tag c name s =
        tag quote sha256 c.keys name >>= (λ tag_key. ok (invalidate_tag_script tag_key s))

    module _ {J : Type 0} (codec : JsonCodec J) (randint : ℕ → ℤ) where
      -- `get`: nothing stands for the default.
      abbrev pub decoded : Option String → Result (Option J)
      decoded none = ok none
      decoded (some v) = codec.loads v >>= (λ j. ok (some j))

      unfoldable pub get_value : String → State → Result (Option J)
      get_value key s = decoded (get s key)

      -- `set`: what raises, raises before the pipeline is executed.
      unfoldable pub set_value : Cache → String → J → Option ℤ → List String → State → Result State
      unfolding ttl_of execute_set
      set_value c key value ttl_seconds tags s = do
        ttl ← ttl_of c randint ttl_seconds
        encoded ← codec.dumps value
        keys ← tag_keys quote sha256 c.keys tags
        ok (execute_set key encoded ttl keys s)

      -- The lock of `get_or_set` and the loader, which may raise; each with the state that it leaves.
      module _ (acquire : String → State → Result (Unit {0}) × State)
          (release : String → State → State) (loader : State → Result J × State) where
        abbrev pub store :
            Cache → String → Option ℤ → List String → State → Result J → Result J × State
        store c key ttl_seconds tags s (err e) = (err e, s)
        store c key ttl_seconds tags s (ok value) =
            elim (set_value c key value ttl_seconds tags s) [
              | err e ↦ (err e, s)
              | ok s' ↦ (ok value, s')
            ]

        abbrev pub load_under_lock :
            Cache → String → Option ℤ → List String → State → Result (Option J) → Result J × State
        load_under_lock c key ttl_seconds tags s (err e) = (err e, s)
        load_under_lock c key ttl_seconds tags s (ok (some cached)) = (ok cached, s)
        load_under_lock c key ttl_seconds tags s (ok none) =
            let loaded = loader s in store c key ttl_seconds tags loaded.1 loaded.0

        -- The body of `with lock`, after its `__enter__`. `__exit__` releases the lock on every path.
        abbrev pub locked_body :
            Cache → String → Option ℤ → List String → Result (Unit {0}) × State → Result J × State
        locked_body c key ttl_seconds tags (err e, s) = (err e, s)
        locked_body c key ttl_seconds tags (ok done, s) =
            let ended = load_under_lock c key ttl_seconds tags s (get_value key s) in
            (ended.0, release (str_append key ":lock") ended.1)

        abbrev pub unless_cached :
            Cache → String → Option ℤ → List String → State → Result (Option J) → Result J × State
        unless_cached c key ttl_seconds tags s (err e) = (err e, s)
        unless_cached c key ttl_seconds tags s (ok (some cached)) = (ok cached, s)
        unless_cached c key ttl_seconds tags s (ok none) =
            locked_body c key ttl_seconds tags (acquire (str_append key ":lock") s)

        unfoldable pub get_or_set :
            Cache → String → Option ℤ → List String → State → Result J × State
        unfolding get_value set_value
        get_or_set c key ttl_seconds tags s =
            unless_cached c key ttl_seconds tags s (get_value key s)
