-- ===== src/Idempotency/Defs.antt =====
-- The three scripts and the store's methods, for the sync and the async store alike. The script's
-- replies, the token of `secrets.token_urlsafe` and the JSON codec are arguments, and `R` is the type of the responses.
use prodkit_storage.Common.{
  ℕ, zero, suc, ◌*◌, ◌≡◌, Bool, true, false, ◌||◌, Option, none, some, String, is_empty, ◌=?◌,
  if◌then◌else◌, not, ℤ, pos, negsuc, pos_part, leb_ℤ, Result, ok, err, value_error, runtime_error,
  idempotency_conflict, ◌>>=◌,
}
use prodkit_storage.Redis.{Redis}

-- The JSON object under a key: `{"status": "in_progress", "token": …, "fingerprint": …}` or
-- `{"status": "completed", "fingerprint": …, "response": …}`.
pub data Record (R : Type 0) : Type 0 where
  in_progress : (token fingerprint : String) → Record R
  completed : (fingerprint : String) (response : R) → Record R

pub data Status : Type 0 where
  started in_progress completed : Status

pub record IdempotencyResult (R : Type 0) : Type 0 where
  pub status : Status
  pub token : Option String
  pub response : Option R

-- `orjson.dumps`, and what `orjson.loads` and `cjson.decode` make of its output.
pub record Codec (R : Type 0) : Type 0 where
  pub dumps : Record R → String
  pub loads : String → Option (Record R)
  pub loads-dumps : (x : Record R) → loads (dumps x) ≡ some x

-- `existing.get("token") == token`: a completed object has no token.
abbrev pub has_token : {R : Type 0} → String → Record R → Bool
has_token token (Record.in_progress t f) = t =? token
has_token token (Record.completed f r) = false

abbrev pub has_fingerprint : {R : Type 0} → String → Record R → Bool
has_fingerprint fingerprint (Record.in_progress t f) = f =? fingerprint
has_fingerprint fingerprint (Record.completed f r) = f =? fingerprint

-- The reply for a request that was seen before.
abbrev pub found_reply : {R : Type 0} → Record R → Result (IdempotencyResult R)
found_reply (Record.completed f response) =
    ok (record { status = Status.completed; token = none; response = some response })
found_reply (Record.in_progress t f) =
    ok (record { status = Status.in_progress; token = none; response = none })

-- The replies of `begin`, once the object under the key is read.
unfoldable pub begin_reply :
    {R : Type 0} (token fingerprint : String) → Record R → Result (IdempotencyResult R)
begin_reply token fingerprint existing =
    if has_token token existing
    then ok (record { status = Status.started; token = some token; response = none })
    else if not (has_fingerprint fingerprint existing)
    then err idempotency_conflict
    else found_reply existing

-- `orjson.loads` raises a `ValueError`.
abbrev pub decoded : {R : Type 0} → Option (Record R) → Result (Record R)
decoded none = err value_error
decoded (some x) = ok x

-- Seconds, which the scripts hand to EX.
abbrev pub seconds : ℕ → ℕ
seconds n = n * 1000

module _ (r : Redis) where
  open r use {Server, get, set, del}

  -- _BEGIN_SCRIPT
  abbrev pub begin_found : Server → (key raw : String) → ℕ → Option String → String × Server
  begin_found s key raw ttl none = (raw, set s key raw (seconds ttl))
  begin_found s key raw ttl (some existing) = (existing, s)

  unfoldable pub begin_script : Server → (key raw : String) → ℕ → String × Server
  begin_script s key raw ttl = begin_found s key raw ttl (get s key)

  module _ {R : Type 0} (c : Codec R) where
    -- _COMPLETE_SCRIPT, from the decoded object on; a failing `cjson.decode` is an exception.
    abbrev pub complete_decoded :
        Server → (key token fingerprint raw : String) → ℕ → Option (Record R) → Result ℤ × Server
    complete_decoded s key token fingerprint raw ttl none = (err runtime_error, s)
    complete_decoded s key token fingerprint raw ttl (some x) =
        if not (has_token token x)
        then (ok (negsuc 0), s)
        else if not (has_fingerprint fingerprint x)
        then (ok (negsuc 0), s)
        else (ok (pos 1), set s key raw (seconds ttl))

    abbrev pub complete_found :
        Server → (key token fingerprint raw : String) → ℕ → Option String → Result ℤ × Server
    complete_found s key token fingerprint raw ttl none = (ok (pos 0), s)
    complete_found s key token fingerprint raw ttl (some current) =
        complete_decoded s key token fingerprint raw ttl (c.loads current)

    unfoldable pub complete_script :
        Server → (key token fingerprint raw : String) → ℕ → Result ℤ × Server
    complete_script s key token fingerprint raw ttl =
        complete_found s key token fingerprint raw ttl (get s key)

    -- _RELEASE_SCRIPT
    abbrev pub release_decoded :
        Server → (key token : String) → Option (Record R) → Result ℤ × Server
    release_decoded s key token none = (err runtime_error, s)
    release_decoded s key token (some x) =
        if not (has_token token x)
        then (ok (negsuc 0), s)
        else (let (n, s') = del s key in (ok (pos n), s'))

    abbrev pub release_found : Server → (key token : String) → Option String → Result ℤ × Server
    release_found s key token none = (ok (pos 0), s)
    release_found s key token (some current) = release_decoded s key token (c.loads current)

    unfoldable pub release_script : Server → (key token : String) → Result ℤ × Server
    release_script s key token = release_found s key token (get s key)

    unfoldable pub begin :
        (key fingerprint token : String) (processing_ttl_seconds : ℤ)
        → Server
        → Result (IdempotencyResult R) × Server
    unfolding begin_script begin_reply
    begin key fingerprint token ttl s =
        if leb_ℤ ttl (pos 0) || is_empty fingerprint
        then (err value_error, s)
        else (let (raw, s') =
              begin_script s key (c.dumps (Record.in_progress token fingerprint)) (pos_part ttl) in
            (decoded (c.loads raw) >>= begin_reply token fingerprint, s'))

    -- `result != 1`
    abbrev pub completion : Result ℤ → Result (Unit {0})
    completion (err e) = err e
    completion (ok (pos (suc zero))) = ok tt
    completion (ok _) = err idempotency_conflict

    unfoldable pub complete :
        (key token fingerprint : String) (response : R) (ttl_seconds : ℤ)
        → Server
        → Result (Unit {0}) × Server
    unfolding complete_script
    complete key token fingerprint response ttl s =
        if leb_ℤ ttl (pos 0) || is_empty fingerprint
        then (err value_error, s)
        else (let (result, s') =
              complete_script s key token fingerprint
                (c.dumps (Record.completed fingerprint response)) (pos_part ttl) in
            (completion result, s'))

    -- `result == 1`
    abbrev pub released : Result ℤ → Result Bool
    released (err e) = err e
    released (ok (pos (suc zero))) = ok true
    released (ok _) = ok false

    unfoldable pub release : (key token : String) → Server → Result Bool × Server
    unfolding release_script
    release key token s = let (result, s') = release_script s key token in (released result, s')

-- `AsyncIdempotencyStore`: the same guards and scripts, each awaited.
module _ (r : Redis) {R : Type 0} (c : Codec R) where
  open r use {Server}

  unfoldable pub begin_async :
      (key fingerprint token : String) (processing_ttl_seconds : ℤ)
      → Server
      → Result (IdempotencyResult R) × Server
  unfolding begin
  begin_async key fingerprint token ttl s = begin r c key fingerprint token ttl s

  unfoldable pub complete_async :
      (key token fingerprint : String) (response : R) (ttl_seconds : ℤ)
      → Server
      → Result (Unit {0}) × Server
  unfolding complete
  complete_async key token fingerprint response ttl s =
      complete r c key token fingerprint response ttl s

  unfoldable pub release_async : (key token : String) → Server → Result Bool × Server
  unfolding release
  release_async key token s = release r c key token s
