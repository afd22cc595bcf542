-- ===== src/Cache/Examples.antt =====
-- A server that is its keyspace.
use prodkit_storage.Common.{
  ℕ, zero, suc, ◌+◌, ◌≤◌, none, some, String, [], ◌∷◌, ok, ℤ, pos, negsuc, ◌≡◌, refl, arith,
}
use prodkit_storage.Cache.Keys.{KeyBuilder, tag}
use prodkit_storage.Cache.Keyspace.{
  Keyspace, at, text_of, members_of, set_in, sadd_in, expire_nx_in, expire_gt_in, del_in, wait_in,
  Server,
}
use prodkit_storage.Cache.Defs.{
  Cache, cache, JsonCodec, ttl_of, execute_set, invalidate_tag_script, get_value, get_or_set,
}
use prodkit_storage.Cache.Returned.{get_or_set-get_value}
use prodkit_storage.Cache.Jitter.{ttl_of_bounds}
use prodkit_storage.Cache.Invalidate.{execute_set-invalidate_tag}

abbrev server : Server
server = record {
  State = Keyspace;
  view = λ s. s;
  get = λ s k. text_of (at s k);
  get_lem = λ s k. refl;
  smembers = λ s k. members_of (at s k);
  smembers_lem = λ s k. refl;
  set = λ k v ttl s. set_in k v ttl s;
  set_lem = λ k v ttl s. refl;
  sadd = λ k m s. sadd_in k m s;
  sadd_lem = λ k m s. refl;
  expire_nx = λ k ttl s. expire_nx_in k ttl s;
  expire_nx_lem = λ k ttl s. refl;
  expire_gt = λ k ttl s. expire_gt_in k ttl s;
  expire_gt_lem = λ k ttl s. refl;
  del = λ k s. (1, del_in k s);
  del_lem = λ k s. refl;
}

abbrev empty : Keyspace
empty = record { clock = 5; cell = λ key. none }

abbrev keys : KeyBuilder
keys = record { namespace = "app"; version = 1; max_length = 80 }

abbrev unchanged : String → String
unchanged s = s

abbrev options : Cache
options = record { keys = keys; default_ttl_seconds = 300; jitter_num = 1; jitter_den = 10 }

made : cache keys (pos 300) (pos 1) 10 ≡ ok options
unfolding cache
made = refl

tag_key : tag unchanged unchanged keys "users" ≡ ok "app:v1:tag:users"
unfolding tag
tag_key = refl

abbrev lowest : ℕ → ℤ
lowest zero = pos 0
lowest (suc n) = negsuc n

shortest : ttl_of options lowest none ≡ ok 270
unfolding ttl_of
shortest = refl

ttl_of_bounds_example : (1 ≤ 300) × (300 ≤ 300 + 30) × (300 ≤ 300 + 30)
unfolding ttl_of
ttl_of_bounds_example =
    ttl_of_bounds options (λ spread. pos 0) none 300 (λ spread. (omega arith, omega arith)) refl

abbrev later : Keyspace
later = wait_in 100 (execute_set server "k" "v" 300 ("t" ∷ "u" ∷ []) empty)

execute_set-invalidate_tag_example :
    text_of (at (invalidate_tag_script server "t" later).1 "k") ≡ none
execute_set-invalidate_tag_example =
    execute_set-invalidate_tag server "k" "v" 300 100 ("t" ∷ "u" ∷ []) "t" empty later refl refl
      refl

abbrev codec : JsonCodec String
codec = record { dumps = λ value. ok value; loads = λ t. ok t }

abbrev left : Keyspace
left = execute_set server "k" "v" 300 ("app:v1:tag:t" ∷ []) empty

loaded :
    get_or_set server unchanged unchanged codec
      (λ spread. pos 0)
      (λ lock s. (ok tt, s))
      (λ lock s. s)
      (λ s. (ok "v", s))
      options
      "k"
      none
      ("t" ∷ [])
      empty
    ≡ (ok "v", left)
unfolding get_or_set tag
loaded = refl

get_or_set-get_value_example :
    get_value server unchanged unchanged codec (λ spread. pos 0) "k" left ≡ ok (some "v")
unfolding tag
get_or_set-get_value_example =
    get_or_set-get_value server unchanged unchanged codec (λ spread. pos 0) options "k" none
      ("t" ∷ []) (λ value. refl) refl (λ lock s. (ok tt, s)) (λ lock s. s) (λ s. (ok "v", s))
      (λ s. refl) empty left "v" loaded
