-- ===== src/Audit/Examples.antt =====
-- A payload with a password and a card number, one that contains itself, and the theorems at them.
use prodkit_storage.Common.{
  str_of, ℕ, zero, suc, ◌≡◌, refl, none, some, [], ◌∷◌, ok, err, value_error, ◌⊎◌, Error,
}
use prodkit_storage.Audit.Values.{
  put, snoc, scalar, ref, mapping, sequence, Heap, kept, object, array, end, field, nil, cons,
}
use prodkit_storage.Audit.Policy.{default_audit_policy, sanitize, action, classify_name}
use prodkit_storage.Audit.Blind.{Alike, sanitize_same}
use prodkit_storage.Audit.Record.{AuditEvent, AuditArguments, record_audit_event}
use prodkit_storage.Audit.Stored.{IsClear, record_audit_event-IsClear}

-- Dictionary 0 is the payload, with the password `p`; list 1 is in it, and 3 is an empty dictionary.
-- Dictionary 2 contains itself.
abbrev heap : ℕ → Heap ℕ
heap p zero = mapping (("name", scalar 4) ∷ ("Password", scalar p) ∷ ("cards", ref 1) ∷ [])
heap p (suc zero) = sequence (scalar 8 ∷ [])
heap p (suc (suc zero)) = mapping (("again", ref 2) ∷ [])
heap p (suc (suc (suc n))) = mapping []

clean_payload :
    sanitize (default_audit_policy ℕ) (heap 99) (ref 0)
    ≡ ok (some (object (field "name" (kept 4) (field "cards" (array (cons (kept 8) nil)) end))))
unfolding sanitize classify_name str_of put snoc
clean_payload = refl

cycle_refused : sanitize (default_audit_policy ℕ) (heap 99) (ref 2) ≡ err value_error
unfolding sanitize classify_name
cycle_refused = refl

alike : Alike (default_audit_policy ℕ) (heap 99) (heap 11) 33 [] (ref 0) (ref 0)
unfolding action classify_name str_of
alike = (
  refl,
  (refl, (refl, (refl, refl), (refl, (refl, tt), (refl, (refl, (refl, ((refl, refl), tt))), tt)))),
)

sanitize_same_example :
    sanitize (default_audit_policy ℕ) (heap 99) (ref 0)
    ≡ sanitize (default_audit_policy ℕ) (heap 11) (ref 0)
sanitize_same_example =
    sanitize_same (default_audit_policy ℕ) (heap 99) (heap 11) (ref 0) (ref 0) alike

abbrev arguments : AuditArguments
arguments = record {
  action = "user.update";
  entity_type = "user";
  entity_id = some "4";
  actor_type = none;
  before = none;
  after = some 0;
  metadata = none;
  source_ip = none;
  user_agent = none;
}

record_audit_event-IsClear_example :
    ((x : Error) × (record_audit_event (heap 99) (some (default_audit_policy ℕ)) none 3 arguments []
        ≡ (err x, [])))
    ⊎ ((e : AuditEvent ℕ) × (record_audit_event
            (heap 99)
            (some (default_audit_policy ℕ))
            none
            3
            arguments
            []
          ≡ (ok e, e ∷ []))
        × IsClear none e)
record_audit_event-IsClear_example = record_audit_event-IsClear (heap 99) none 3 arguments []
