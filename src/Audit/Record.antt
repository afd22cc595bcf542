-- ===== src/Audit/Record.antt =====
-- audit.py: `record_audit_event`. A payload is a dictionary in the heap; the session is the list of the
-- events that it has yet to insert.
use prodkit_storage.Common.{
  ℕ, Option, none, some, String, List, [], ◌∷◌, ◌++◌, Result, ok, err, type_error, ◌>>=◌,
}
use prodkit_storage.Context.Defs.{Current, get_request_context}
use prodkit_storage.Audit.Values.{ref, Container, mapping, Heap, Clean, object, CleanFields}
use prodkit_storage.Audit.Policy.{AuditPolicy, sanitize}

-- A stored payload: what a policy made of it, or the dictionary itself, without a policy.
pub data Payload (S : Type 0) : Type 0 where
  sanitized : CleanFields S → Payload S
  unchanged : ℕ → Payload S

-- models/audit.py
pub record AuditEvent (S : Type 0) : Type 0 where
  pub tenant_id : Option ℕ
  pub actor_id : Option ℕ
  pub actor_type : Option String
  pub action : String
  pub entity_type : String
  pub entity_id : Option String
  pub request_id : Option String
  pub trace_id : Option String
  pub source_ip : Option String
  pub user_agent : Option String
  pub before : Option (Payload S)
  pub after : Option (Payload S)
  pub metadata : Payload S

-- The arguments. `metadata or {}` is the dictionary `empty`, a new one, where it applies.
pub record AuditArguments : Type 0 where
  pub action : String
  pub entity_type : String
  pub entity_id : Option String
  pub actor_type : Option String
  pub before : Option ℕ
  pub after : Option ℕ
  pub metadata : Option ℕ
  pub source_ip : Option String
  pub user_agent : Option String

-- What the policy, or `_identity` without one, makes of a payload.
pub data Treated (S : Type 0) : Type 0 where
  cleaned : Option (Clean S) → Treated S
  as_given : ℕ → Treated S

-- What is no object is refused, `_DROP` included.
abbrev pub as_object : {S : Type 0} → Treated S → Result (Payload S)
as_object (as_given i) = ok (unchanged i)
as_object (cleaned (some (object fields))) = ok (sanitized fields)
as_object (cleaned _) = err type_error

abbrev pub as_object? : {S : Type 0} → Option (Treated S) → Result (Option (Payload S))
as_object? none = ok none
as_object? (some t) = as_object t >>= λ x. ok (some x)

module _ {S : Type 0} (heap : Heap S) (policy : Option (AuditPolicy S)) where
  abbrev pub treat : ℕ → Result (Treated S)
  treat i = elim policy [
    | none ↦ ok (as_given i)
    | some p ↦ sanitize p heap (ref i) >>= λ c. ok (cleaned c)
  ]

  abbrev pub treat? : Option ℕ → Result (Option (Treated S))
  treat? none = ok none
  treat? (some i) = treat i >>= λ t. ok (some t)

  abbrev pub or_empty : ℕ → Container S → ℕ → ℕ
  or_empty i (mapping []) empty = empty
  or_empty i c empty = i

  abbrev pub metadata_or : ℕ → Option ℕ → ℕ
  metadata_or empty none = empty
  metadata_or empty (some i) = or_empty i (heap i) empty

  -- `_build_event`
  unfoldable pub build_event : Current → (empty : ℕ) → AuditArguments → Result (AuditEvent S)
  build_event current empty a = do
    sanitized_before ← treat? a.before
    sanitized_after ← treat? a.after
    sanitized_metadata ← treat (metadata_or empty a.metadata)
    before ← as_object? sanitized_before
    after ← as_object? sanitized_after
    metadata ← as_object sanitized_metadata
    let context = get_request_context current
    ok (record {
      tenant_id = context.tenant_id;
      actor_id = context.actor_id;
      actor_type = a.actor_type;
      action = a.action;
      entity_type = a.entity_type;
      entity_id = a.entity_id;
      request_id = context.request_id;
      trace_id = context.trace_id;
      source_ip = a.source_ip;
      user_agent = a.user_agent;
      before = before;
      after = after;
      metadata = metadata;
    })

  abbrev pub added :
      List (AuditEvent S) → Result (AuditEvent S) → Result (AuditEvent S) × List (AuditEvent S)
  added session (err e) = (err e, session)
  added session (ok event) = (ok event, session ++ event ∷ [])

  -- `record_audit_event`, and its async twin, which makes the same calls and awaits nothing.
  unfoldable pub record_audit_event :
      Current
      → (empty : ℕ) → AuditArguments
      → List (AuditEvent S)
      → Result (AuditEvent S) × List (AuditEvent S)
  unfolding build_event get_request_context
  record_audit_event current empty a session = added session (build_event current empty a)
