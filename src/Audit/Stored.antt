-- ===== src/Audit/Stored.antt =====
-- What `record_audit_event` stores holds no secret's name.
use prodkit_storage.Common.{
  ℕ, ◌≡◌, refl, Option, none, some, List, [], ◌∷◌, ◌++◌, Result, ok, err, ◌>>=◌, Post, Post-bind,
  ◌⊎◌, inl, inr, Error,
}
use prodkit_storage.Context.Defs.{Current, get_request_context}
use prodkit_storage.Audit.Values.{Heap, Clean, ref, object, kept, replaced, array}
use prodkit_storage.Audit.Policy.{AuditPolicy, default_audit_policy, sanitize}
use prodkit_storage.Audit.Secrets.{
  Lacks, LacksFields, object_lacks, is_secret_name, Fine, sanitize_default-Fine,
}
use prodkit_storage.Audit.Record.{
  Payload, sanitized, unchanged, AuditEvent, AuditArguments, Treated, cleaned, as_given, as_object,
  as_object?, treat, treat?, build_event, record_audit_event, added, metadata_or,
}

module _ {S : Type 0} where
  abbrev pub Clear : Payload S → Type 0
  Clear (sanitized fields) = LacksFields is_secret_name fields
  Clear (unchanged i) = ⊥

  abbrev pub Clear? : Option (Payload S) → Type 0
  Clear? none = Unit
  Clear? (some x) = Clear x

  abbrev ClearTreated : Treated S → Type 0
  ClearTreated (cleaned none) = Unit
  ClearTreated (cleaned (some c)) = Lacks is_secret_name c
  ClearTreated (as_given i) = ⊥

  abbrev ClearTreated? : Option (Treated S) → Type 0
  ClearTreated? none = Unit
  ClearTreated? (some t) = ClearTreated t

  as_object-Clear : (t : Treated S) → ClearTreated t → Post Clear (as_object t)
  as_object-Clear (cleaned none) h = tt
  as_object-Clear (cleaned (some (kept s))) h = tt
  as_object-Clear (cleaned (some (replaced t))) h = tt
  as_object-Clear (cleaned (some (array xs))) h = tt
  as_object-Clear (cleaned (some (object fs))) (object_lacks _ l) = l
  as_object-Clear (as_given i) h = elim h [ ]

  as_object?-Clear : (t : Option (Treated S)) → ClearTreated? t → Post Clear? (as_object? t)
  as_object?-Clear none h = tt
  as_object?-Clear (some t) h =
      Post-bind Clear Clear? (as_object t) _ (as_object-Clear t h) (λ x c. c)

  -- The payloads hold no secret's name, and the event is of the tenant and the actor of the context.
  pub record IsClear (current : Current) (e : AuditEvent S) : Type 0 where
    pub before : Clear? e.before
    pub after : Clear? e.after
    pub metadata : Clear e.metadata
    pub tenant : e.tenant_id ≡ (get_request_context current).tenant_id
    pub actor : e.actor_id ≡ (get_request_context current).actor_id

  module _ (heap : Heap S) where
    abbrev default : Option (AuditPolicy S)
    default = some (default_audit_policy S)

    treat-Clear : (i : ℕ) → Post ClearTreated (treat heap default i)
    treat-Clear i =
        go (sanitize (default_audit_policy S) heap (ref i)) (sanitize_default-Fine heap (ref i))
      where
        go :
            (r : Result (Option (Clean S)))
            → Fine is_secret_name r
            → Post ClearTreated (r >>= λ c. ok (cleaned c))
        go (err e) f = tt
        go (ok none) f = tt
        go (ok (some c)) f = f

    treat?-Clear : (o : Option ℕ) → Post ClearTreated? (treat? heap default o)
    treat?-Clear none = tt
    treat?-Clear (some i) =
        Post-bind ClearTreated ClearTreated? (treat heap default i) _ (treat-Clear i) (λ t c. c)

    build_event-IsClear :
        (current : Current) (empty : ℕ) (a : AuditArguments)
        → Post (IsClear current) (build_event heap default current empty a)
    unfolding build_event
    build_event-IsClear current empty a =
        Post-bind ClearTreated? (IsClear current) (treat? heap default a.before) _
          (treat?-Clear a.before)
          λ b cb.
            Post-bind ClearTreated? (IsClear current) (treat? heap default a.after) _
              (treat?-Clear a.after)
              λ c cc'.
                Post-bind ClearTreated (IsClear current)
                  (treat heap default (metadata_or heap default empty a.metadata)) _ (treat-Clear _)
                  λ m cm.
                    Post-bind Clear? (IsClear current) (as_object? b) _ (as_object?-Clear b cb)
                      λ b' cb'.
                        Post-bind Clear? (IsClear current) (as_object? c) _ (as_object?-Clear c cc')
                          λ c' cc''.
                            Post-bind Clear (IsClear current) (as_object m) _ (as_object-Clear m cm)
                              λ m' cm'. record {
                                before = cb';
                                after = cc'';
                                metadata = cm';
                                tenant = refl;
                                actor = refl;
                              }

    -- Under the default policy, whatever the payloads are and however they share or contain themselves:
    -- the call raises and adds nothing, or adds one event without a secret's name at any depth of
    -- its payloads, with the tenant and the actor of the context.
    pub record_audit_event-IsClear :
        (current : Current) (empty : ℕ) (a : AuditArguments) (session : List (AuditEvent S))
        → ((x : Error) × (record_audit_event heap default current empty a session
              ≡ (err x, session)))
          ⊎ ((e : AuditEvent S) × (record_audit_event heap default current empty a session
                ≡ (ok e, session ++ e ∷ []))
              × IsClear current e)
    unfolding record_audit_event
    record_audit_event-IsClear current empty a session =
        go (build_event heap default current empty a) (build_event-IsClear current empty a)
      where
        go :
            (r : Result (AuditEvent S))
            → Post (IsClear current) r
            → ((x : Error) × (added heap default session r ≡ (err x, session)))
              ⊎ ((e : AuditEvent S) × (added heap default session r ≡ (ok e, session ++ e ∷ []))
                  × IsClear current e)
        go (err x) c = inl (x, refl)
        go (ok e) c = inr (e, refl, c)
