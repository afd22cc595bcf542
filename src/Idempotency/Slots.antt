-- ===== src/Idempotency/Slots.antt =====
-- What a key of the idempotency store goes through.
use prodkit_storage.Common.{
  ℕ, ◌<◌, ◌≡◌, refl, ◌∙◌, ap, inl, inr, Bool, false, ◌||◌, Option, none, some, String, is_empty,
  ◌=?◌, eq_iff, if◌then◌else◌, arith, Result, ok, err, Bool-cases, Option-cases, ℤ, pos, pos_part,
  leb_ℤ, idempotency_conflict,
}
use prodkit_storage.Redis.{Redis}
use prodkit_storage.Idempotency.Defs.{
  Record, Status, IdempotencyResult, Codec, has_token, begin_reply, seconds, begin, complete,
  release, complete_decoded, complete_found, release_decoded, release_found,
}

positive : (t : ℤ) (b : Bool) → (leb_ℤ t (pos 0) || b) ≡ false → 0 < seconds (pos_part t)
positive t b h = ground arith

completed_reply :
    {R : Type 0} (token f g : String) (response : R)
    → begin_reply token g (Record.completed f response) ≡ (
        if f =? g
        then ok (record { status = Status.completed; token = none; response = some response })
        else err idempotency_conflict)
unfolding begin_reply
completed_reply token f g response = ground arith

module _ {R : Type 0} (r : Redis) (c : Codec R) where
  open r use {Server, get}

  -- The object stored under the key.
  abbrev pub Stores : Server → String → Record R → Type 0
  Stores s key x = get s key ≡ some (c.dumps x)

  stored :
      (s : Server) (key : String) (x : Record R) (ttl : ℕ)
      → 0 < ttl
      → Stores (r.set s key (c.dumps x) ttl) key x
  stored s key x ttl h = rw (r.get-set s key key (c.dumps x) ttl h) (rw ((eq_iff key key).1 refl))

  -- The first request of a key is told to start, under its token, and its object is stored.
  pub begin_fresh :
      (s : Server) (key fingerprint token : String) (ttl : ℤ)
      → get s key ≡ none
      → (leb_ℤ ttl (pos 0) || is_empty fingerprint) ≡ false
      → ((begin r c key fingerprint token ttl s).0
          ≡ ok (record { status = Status.started; token = some token; response = none }))
        × Stores
            (begin r c key fingerprint token ttl s).1
            key
            (Record.in_progress token fingerprint)
  unfolding begin
  begin_fresh s key fingerprint token ttl h g = (
    rw g (
        rw h (
          rw (c.loads-dumps (Record.in_progress token fingerprint))
            (rw ((eq_iff token token).1 refl)))),
    rw g (
        rw h (
          stored s key (Record.in_progress token fingerprint) (seconds (pos_part ttl))
            (positive ttl (is_empty fingerprint) g))),
  )

  -- Any later request is answered from the stored object, and changes nothing.
  pub begin_found_lem :
      (s : Server) (key fingerprint token : String) (ttl : ℤ) (x : Record R)
      → Stores s key x
      → (leb_ℤ ttl (pos 0) || is_empty fingerprint) ≡ false
      → begin r c key fingerprint token ttl s ≡ (begin_reply token fingerprint x, s)
  unfolding begin
  begin_found_lem s key fingerprint token ttl x h g = rw g (rw h (rw (c.loads-dumps x)))

  -- The holder of the token completes the request, and the response is stored.
  pub complete_owned :
      (s : Server) (key token fingerprint : String) (response : R) (ttl : ℤ)
      → Stores s key (Record.in_progress token fingerprint)
      → (leb_ℤ ttl (pos 0) || is_empty fingerprint) ≡ false
      → ((complete r c key token fingerprint response ttl s).0 ≡ ok tt)
        × Stores
            (complete r c key token fingerprint response ttl s).1
            key
            (Record.completed fingerprint response)
  unfolding complete
  complete_owned s key token fingerprint response ttl h g = (
    rw g (
        rw h (
          rw (c.loads-dumps (Record.in_progress token fingerprint))
            (rw ((eq_iff token token).1 refl, (eq_iff fingerprint fingerprint).1 refl)))),
    rw g (
        rw h (
          rw (c.loads-dumps (Record.in_progress token fingerprint)) (
            rw ((eq_iff token token).1 refl, (eq_iff fingerprint fingerprint).1 refl)
              (stored s key (Record.completed fingerprint response) (seconds (pos_part ttl))
                (positive ttl (is_empty fingerprint) g))))),
  )

  -- Whoever does not hold the token cannot complete: the call raises, and changes nothing.
  pub complete_denied :
      (s : Server) (key token fingerprint : String) (response : R) (ttl : ℤ) (x : Record R)
      → Stores s key x
      → has_token token x ≡ false
      → (leb_ℤ ttl (pos 0) || is_empty fingerprint) ≡ false
      → complete r c key token fingerprint response ttl s ≡ (err idempotency_conflict, s)
  unfolding complete
  complete_denied s key token fingerprint response ttl x h n g =
      rw g (rw h (rw (c.loads-dumps x) (rw n)))

  pub release_denied :
      (s : Server) (key token : String) (x : Record R)
      → Stores s key x
      → has_token token x ≡ false
      → release r c key token s ≡ (ok false, s)
  unfolding release
  release_denied s key token x h n = rw h (rw (c.loads-dumps x) (rw n))

  -- A call of one of the three methods by a client with some token, for any key.
  pub data Call (token : String) (s s' : Server) : Type 0 where
    begins :
        (key fingerprint : String) (ttl : ℤ)
        → s' ≡ (begin r c key fingerprint token ttl s).1
        → Call token s s'
    completes :
        (key fingerprint : String) (response : R) (ttl : ℤ)
        → s' ≡ (complete r c key token fingerprint response ttl s).1
        → Call token s s'
    releases : (key : String) → s' ≡ (release r c key token s).1 → Call token s s'

  -- A method for another key leaves this key alone.
  begin_other :
      (s : Server) (key j fingerprint token : String) (ttl : ℤ)
      → (key =? j) ≡ false
      → get (begin r c key fingerprint token ttl s).1 j ≡ get s j
  unfolding begin
  begin_other s key j fingerprint token ttl ne =
      elim (Bool-cases (leb_ℤ ttl (pos 0) || is_empty fingerprint)) [
        | inl bad ↦ simp bad
        | inr fine ↦ elim (Option-cases (get s key)) [
          | inl free ↦ rw fine (
              rw free (
                rw
                  (r.get-set s key j (c.dumps (Record.in_progress token fingerprint))
                    (seconds (pos_part ttl)) (positive ttl (is_empty fingerprint) fine))
                  (rw ne)))
          | inr (v, taken) ↦ rw fine (rw taken)
        ]
      ]

  decoded_other :
      (s : Server) (key j token fingerprint raw : String) (ttl : ℕ) (o : Option (Record R))
      → 0 < seconds ttl
      → (key =? j) ≡ false
      → get (complete_decoded r c s key token fingerprint raw ttl o).1 j ≡ get s j
  decoded_other s key j token fingerprint raw ttl none h ne = refl
  decoded_other s key j token fingerprint raw ttl (some x) h ne =
      ground (arith, r.get-set s key j raw (seconds ttl) h)

  found_other :
      (s : Server) (key j token fingerprint raw : String) (ttl : ℕ) (o : Option String)
      → 0 < seconds ttl
      → (key =? j) ≡ false
      → get (complete_found r c s key token fingerprint raw ttl o).1 j ≡ get s j
  found_other s key j token fingerprint raw ttl none h ne = refl
  found_other s key j token fingerprint raw ttl (some v) h ne =
      decoded_other s key j token fingerprint raw ttl (c.loads v) h ne

  complete_other :
      (s : Server) (key j token fingerprint : String) (response : R) (ttl : ℤ)
      → (key =? j) ≡ false
      → get (complete r c key token fingerprint response ttl s).1 j ≡ get s j
  unfolding complete
  complete_other s key j token fingerprint response ttl ne =
      elim (Bool-cases (leb_ℤ ttl (pos 0) || is_empty fingerprint)) [
        | inl bad ↦ simp bad
        | inr fine ↦ rw fine (
            found_other s key j token fingerprint (c.dumps (Record.completed fingerprint response))
              (pos_part ttl) (get s key) (positive ttl (is_empty fingerprint) fine) ne)
      ]

  release_decoded_other :
      (s : Server) (key j token : String) (o : Option (Record R))
      → (key =? j) ≡ false
      → get (release_decoded r c s key token o).1 j ≡ get s j
  release_decoded_other s key j token none ne = refl
  release_decoded_other s key j token (some x) ne = ground (arith, r.get-del s key j)

  release_found_other :
      (s : Server) (key j token : String) (o : Option String)
      → (key =? j) ≡ false
      → get (release_found r c s key token o).1 j ≡ get s j
  release_found_other s key j token none ne = refl
  release_found_other s key j token (some v) ne = release_decoded_other s key j token (c.loads v) ne

  release_other :
      (s : Server) (key j token : String)
      → (key =? j) ≡ false
      → get (release r c key token s).1 j ≡ get s j
  unfolding release
  release_other s key j token ne = release_found_other s key j token (get s key) ne

  module _ (s : Server) (j token : String) (x : Record R) (h : Stores s j x)
      (n : has_token token x ≡ false) where
    begin_kept :
        (fingerprint : String) (ttl : ℤ) → get (begin r c j fingerprint token ttl s).1 j ≡ get s j
    begin_kept fingerprint ttl = elim (Bool-cases (leb_ℤ ttl (pos 0) || is_empty fingerprint)) [
      | inl bad ↦ unfold begin in simp bad
      | inr fine ↦ rw (begin_found_lem s j fingerprint token ttl x h fine)
    ]

    complete_kept :
        (fingerprint : String) (response : R) (ttl : ℤ)
        → get (complete r c j token fingerprint response ttl s).1 j ≡ get s j
    complete_kept fingerprint response ttl =
        elim (Bool-cases (leb_ℤ ttl (pos 0) || is_empty fingerprint)) [
          | inl bad ↦ unfold complete in simp bad
          | inr fine ↦ rw (complete_denied s j token fingerprint response ttl x h n fine)
        ]

    -- An object that a client's token does not own is left as it is by any call of that client: so a
    -- completed response is final, and a request in progress belongs to the client that started it.
    pub Call-kept : {s' : Server} → Call token s s' → Stores s' j x
    Call-kept (begins key fingerprint ttl q) = rw q (elim (Bool-cases (key =? j)) [
      | inl same ↦ rw ((eq_iff key j).0 same) (begin_kept fingerprint ttl ∙ h)
      | inr other ↦ begin_other s key j fingerprint token ttl other ∙ h
    ])
    Call-kept (completes key fingerprint response ttl q) = rw q (elim (Bool-cases (key =? j)) [
      | inl same ↦ rw ((eq_iff key j).0 same) (complete_kept fingerprint response ttl ∙ h)
      | inr other ↦ complete_other s key j token fingerprint response ttl other ∙ h
    ])
    Call-kept (releases key q) = rw q (elim (Bool-cases (key =? j)) [
      | inl same ↦ rw ((eq_iff key j).0 same) (rw (release_denied s j token x h n) h)
      | inr other ↦ release_other s key j token other ∙ h
    ])

  -- Calls of any clients, in any order.
  pub data Calls (s : Server) : Server → Type 0 where
    here : Calls s s
    next : {t u : Server} (token : String) → Calls s t → Call token t u → Calls s u

  completed_final :
      (j f : String) (response : R) {s s' : Server}
      → Calls s s'
      → Stores s j (Record.completed f response)
      → Stores s' j (Record.completed f response)
  completed_final j f response here h = h
  completed_final j f response (next {t = t} token cs call) h =
      Call-kept t j token (Record.completed f response) (completed_final j f response cs h) refl
        call

  -- Until it expires, a stored response stays, whatever calls come: every later valid `begin` with its
  -- fingerprint returns that response, and one with another fingerprint raises.
  pub begin_after_completion :
      (s s' : Server) (j f g token : String) (response : R) (ttl : ℤ)
      → Stores s j (Record.completed f response)
      → Calls s s'
      → (leb_ℤ ttl (pos 0) || is_empty g) ≡ false
      → begin r c j g token ttl s' ≡ (
        (if f =? g
            then ok (record { status = Status.completed; token = none; response = some response })
            else err idempotency_conflict),
        s',
      )
  begin_after_completion s s' j f g token response ttl h cs guard =
      begin_found_lem s' j g token ttl (Record.completed f response)
        (completed_final j f response cs h) guard
      ∙ ap (λ (x : Result (IdempotencyResult R)). (x, s')) (completed_reply token f g response)
