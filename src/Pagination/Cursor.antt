-- ===== src/Pagination/Cursor.antt =====
-- `CursorCodec`: cursors that carry a signature. HMAC, JSON and base64 are arguments.
use prodkit_storage.Pagination.Values.{Value, Python, serialize}
use prodkit_storage.Common.{
  ℕ, zero, suc, ◌<◌, ◌==◌, ◌≡◌, refl, sym, ◌∙◌, ap, Bool, true, false, ◌&&◌, not, Option, none,
  some, String, List, [], ◌∷◌, ◌++◌, map, length, take, drop, leb, arith, Result, ok, err,
  value_error, raise_if, ◌>>=◌, ◌>>◌, ==-refl, length-append, inl, inr, Option-cases,
  take-append-drop,
}

abbrev pub Bytes : Type 0
Bytes = List ℕ

-- What a cursor's payload may hold, over the type `J` of JSON values. The last three are signed JSON
-- of other shapes: a state with fields of the wrong types, another version, and no object at all.
pub data Document (J : Type 0) : Type 0 where
  legacy : (position tie_breaker : J) → Document J
  state : (sort_fingerprint : ℕ) (query_fingerprint : Option ℕ) (values : List J) → Document J
  bad_state other_version not_object : Document J

-- Its values are Python's when it is encoded, and JSON's when it is decoded.
pub record CursorState (J : Type 0) : Type 0 where
  pub sort_fingerprint : ℕ
  pub values : List J
  pub query_fingerprint : Option ℕ

pub record Primitives (J : Type 0) : Type 0 where
  -- `hmac.new(secret, payload, sha256).digest()`
  pub hmac : Bytes → Bytes → Bytes
  pub hmac_size : (secret payload : Bytes) → length (hmac secret payload) ≡ 32
  -- `orjson`
  pub dumps : Document J → Bytes
  pub loads : Bytes → Option (Document J)
  pub loads-dumps : (d : Document J) → loads (dumps d) ≡ some d
  pub dumps_nonempty : (d : Document J) → 0 < length (dumps d)
  -- `base64`, without the padding that `_sign` strips and `_verify` puts back
  pub b64encode : Bytes → String
  pub b64decode : String → Option Bytes
  pub b64decode-b64encode : (b : Bytes) → b64decode (b64encode b) ≡ some b

-- `hmac.compare_digest`
unfoldable pub compare_digest : Bytes → Bytes → Bool
compare_digest [] [] = true
compare_digest [] (b ∷ bs) = false
compare_digest (a ∷ as_) [] = false
compare_digest (a ∷ as_) (b ∷ bs) = (a == b) && compare_digest as_ bs

abbrev or_error : {A : Type 0} → Option A → Result A
or_error none = err value_error
or_error (some a) = ok a

module _ {J : Type 0} (p : Primitives J) (secret : Bytes) where
  unfoldable pub sign : Document J → String
  sign data_ = let payload = p.dumps data_ in p.b64encode (p.hmac secret payload ++ payload)

  abbrev object : Document J → Result (Document J)
  object not_object = err value_error
  object d = ok d

  unfoldable pub verify : String → Result (Document J)
  unfolding compare_digest
  verify token = do
    raw ← or_error (p.b64decode token)
    raise_if (leb (length raw) 32) value_error
    raise_if (not (compare_digest (take 32 raw) (p.hmac secret (drop 32 raw)))) value_error
    data_ ← or_error (p.loads (drop 32 raw))
    object data_

  abbrev as_legacy : Document J → Result (J × J)
  as_legacy (legacy position tie_breaker) = ok (position, tie_breaker)
  as_legacy _ = err value_error

  unfoldable pub decode : String → Result (J × J)
  unfolding verify
  decode token = do data_ ← verify token; as_legacy data_

  abbrev as_state : Document J → Result (CursorState J)
  as_state (state s q vs) = ok (record { sort_fingerprint = s; values = vs; query_fingerprint = q })
  as_state _ = err value_error

  unfoldable pub decode_state : String → Result (CursorState J)
  unfolding verify
  decode_state token = do data_ ← verify token; as_state data_

module _ {J : Type 0} (p : Primitives J) (py : Python J) (secret : Bytes) where
  unfoldable pub encode : (position tie_breaker : Value J) → String
  unfolding sign serialize
  encode position tie_breaker =
      sign p secret (legacy (serialize py position) (serialize py tie_breaker))

  abbrev pub serialized : CursorState (Value J) → CursorState J
  serialized st = record {
    sort_fingerprint = st.sort_fingerprint;
    values = map (serialize py) st.values;
    query_fingerprint = st.query_fingerprint;
  }

  unfoldable pub encode_state : CursorState (Value J) → String
  unfolding sign serialize
  encode_state st =
      sign p secret (state st.sort_fingerprint st.query_fingerprint (map (serialize py) st.values))

compare_digest_refl : (b : Bytes) → compare_digest b b ≡ true
unfolding compare_digest
compare_digest_refl [] = refl
compare_digest_refl (a ∷ b) = rw (==-refl a, compare_digest_refl b)

compare_digest_eq : (a b : Bytes) → compare_digest a b ≡ true → a ≡ b
unfolding compare_digest
compare_digest_eq [] [] h = refl
compare_digest_eq [] (y ∷ b) h = cc
compare_digest_eq (x ∷ a) [] h = cc
compare_digest_eq (x ∷ a) (y ∷ b) h = ground (arith, compare_digest_eq a b)

take-append : (a b : Bytes) (n : ℕ) → length a ≡ n → take n (a ++ b) ≡ a
take-append [] b zero h = refl
take-append [] b (suc n) h = absurd (omega arith)
take-append (x ∷ a) b zero h = absurd (omega arith)
take-append (x ∷ a) b (suc n) h = ap (λ (l : Bytes). x ∷ l) (take-append a b n (omega arith))

drop-append : (a b : Bytes) (n : ℕ) → length a ≡ n → drop n (a ++ b) ≡ b
drop-append [] b zero h = refl
drop-append [] b (suc n) h = absurd (omega arith)
drop-append (x ∷ a) b zero h = absurd (omega arith)
drop-append (x ∷ a) b (suc n) h = drop-append a b n (omega arith)

longer : (n : ℕ) → 32 < n → leb n 32 ≡ false
longer n h = ground arith

module _ {J : Type 0} (p : Primitives J) (secret : Bytes) where
  verify-sign : (d : Document J) → verify p secret (sign p secret d) ≡ object p secret d
  unfolding verify sign
  verify-sign d =
      let payload = p.dumps d in
      let mac = p.hmac secret payload in
      let long : leb (length (mac ++ payload)) 32 ≡ false = longer (length (mac ++ payload)) (
        omega (arith, length-append mac payload, p.hmac_size secret payload, p.dumps_nonempty d)) in
      rw (p.b64decode-b64encode (mac ++ payload)) (
        rw long (
          rw
            (
              take-append mac payload 32 (p.hmac_size secret payload),
              drop-append mac payload 32 (p.hmac_size secret payload),
            )
            (rw (compare_digest_refl mac) (rw (p.loads-dumps d)))))

  -- The parts of an accepted cursor.
  accepted_parts :
      (raw : Bytes) (st : CursorState J)
      → ((do
        raise_if (leb (length raw) 32) value_error
        raise_if (not (compare_digest (take 32 raw) (p.hmac secret (drop 32 raw)))) value_error
        data_ ← or_error (p.loads (drop 32 raw))
        object p secret data_)
          >>= as_state p secret)
        ≡ ok st
      → (take 32 raw ≡ p.hmac secret (drop 32 raw))
        × (p.loads (drop 32 raw) ≡ some (state st.sort_fingerprint st.query_fingerprint st.values))
  accepted_parts raw st k =
      ground (arith, compare_digest_eq (take 32 raw) (p.hmac secret (drop 32 raw)))

  -- A token that is accepted carries, before its payload, the payload's HMAC under the secret.
  pub decode_state_authentic :
      (token : String) (st : CursorState J)
      → decode_state p secret token ≡ ok st
      → (payload : Bytes) × (p.b64decode token ≡ some (p.hmac secret payload ++ payload))
        × (p.loads payload ≡ some (state st.sort_fingerprint st.query_fingerprint st.values))
  unfolding decode_state
  decode_state_authentic token st h = elim (Option-cases (p.b64decode token)) [
    | inl bad ↦ absurd (refused (rw bad at h))
    | inr (raw, e) ↦ accepted raw e (rw e at h)
  ]
    where
      refused : ◌≡◌ {A = Result (CursorState J)} (err value_error) (ok st) → ⊥
      refused q = cc

      accepted :
          (raw : Bytes)
          → p.b64decode token ≡ some raw
          → ((do
            raise_if (leb (length raw) 32) value_error
            raise_if (not (compare_digest (take 32 raw) (p.hmac secret (drop 32 raw)))) value_error
            data_ ← or_error (p.loads (drop 32 raw))
            object p secret data_)
              >>= as_state p secret)
            ≡ ok st
          → (payload : Bytes) × (p.b64decode token ≡ some (p.hmac secret payload ++ payload))
            × (p.loads payload ≡ some (state st.sort_fingerprint st.query_fingerprint st.values))
      accepted raw e k =
          let (mac, doc) = accepted_parts raw st k in
          (
            drop 32 raw,
            e ∙ ap some (sym (take-append-drop 32 raw) ∙ ap (λ (m : Bytes). m ++ drop 32 raw) mac),
            doc,
          )

module _ {J : Type 0} (p : Primitives J) (py : Python J) (secret : Bytes) where
  -- A state that was encoded is decoded with its fingerprints as they were and with its values as `_serialize` makes
  -- them, without the conversion of the columns; the legacy decoder refuses it.
  pub decode_state-encode_state :
      (st : CursorState (Value J))
      → (decode_state p secret (encode_state p py secret st) ≡ ok (serialized p py secret st))
        × (decode p secret (encode_state p py secret st) ≡ err value_error)
  unfolding decode_state encode_state decode
  decode_state-encode_state st =
      let e =
        verify-sign p secret
          (state st.sort_fingerprint st.query_fingerprint (map (serialize py) st.values)) in
      (rw e, rw e)

  -- A legacy pair that was encoded is decoded as `_serialize` makes it; the decoder of states refuses it.
  pub decode-encode :
      (position tie_breaker : Value J)
      → (decode p secret (encode p py secret position tie_breaker)
          ≡ ok (serialize py position, serialize py tie_breaker))
        × (decode_state p secret (encode p py secret position tie_breaker) ≡ err value_error)
  unfolding decode_state encode decode
  decode-encode position tie_breaker =
      let e = verify-sign p secret (legacy (serialize py position) (serialize py tie_breaker)) in
      (rw e, rw e)
